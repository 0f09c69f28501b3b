-- ===== src/RoutingSpecializer/Filled.antt =====
-- What the set of an interface holds after its destinations were configured.
use tu_thesis.Base.{
  ℕ, ◌≡◌, ap, sym, subst, ◌∙◌, refl, true, some, List, [], ◌∷◌, ◌==◌, Bool-cases, inl, inr, All,
}
use tu_thesis.Text.Bytes.{Bytes}
use tu_thesis.Text.Stream.{getlines}
use tu_thesis.Exec.{ok, pure, try, bind_ok, ◌>>◌}
use tu_thesis.Exec.Preserves.{pure-Preserves, try-Preserves, Preserves}
use tu_thesis.Shared.{object_at, write, object_at-write}
use tu_thesis.World.{World, IpSet, TrafficSpecialization}
use tu_thesis.System.{issue, call_or_throw_lem}
use tu_thesis.IpSet
use tu_thesis.IpSet.{contains, add_command, flush_command}
use tu_thesis.IpSet.Members.{add_ip_lem}
use tu_thesis.IpSet.Kernel.{IsAddress, Shell, Kernel, Agrees, add_ip-Agrees, flushed-Agrees}
use tu_thesis.TrafficSpecialization.{add_ip, clear_ips, get_ips, on_set}
use tu_thesis.RoutingSpecializer.{add_destinations, fill, ips_of, on_specialization}

-- The objects of the two heaps that a set's methods do not touch.
abbrev Unmoved : (p q : ℕ) → TrafficSpecialization → IpSet → IpSet × World → Type 0
Unmoved p q t set (_, w) =
    (object_at p w.specializations ≡ some t) × (object_at q w.ipset_objects ≡ some set)

add_ip-Unmoved :
    (p q : ℕ) (t : TrafficSpecialization) (old : IpSet) (ip : Bytes)
    → Preserves (Unmoved p q t old) (IpSet.add_ip ip)
add_ip-Unmoved p q t old ip = record {
  holds = λ (set, w) h. rw (add_ip_lem ip set w) (elim (Bool-cases (contains ip set.ips)) [
    | inl e ↦ rw e h
    | inr e ↦ rw e (elim (Bool-cases (w.shell w.trace (add_command set.name ip) == 0)) [
      | inl z ↦ rw z h
      | inr z ↦ rw z h
    ])
  ]);
}

module _ (shell : Shell) (name : Bytes) (kernel : Kernel shell name) (p : ℕ)
    (t : TrafficSpecialization) where
  -- The specialization and its set are alive, and the copy of the set holds what the kernel holds.
  record Good (w : World) : Type 0 where
    set : IpSet
    alive : object_at p w.specializations ≡ some t
    set_alive : object_at t.ipset w.ipset_objects ≡ some set
    agrees : Agrees shell name kernel (set, w)

  add_ip-Good : (ip : Bytes) → IsAddress ip → Preserves Good (add_ip t ip)
  unfolding add_ip
  add_ip-Good ip address = record {
    holds = λ w g.
        let s = (IpSet.add_ip ip (g.set, w)).1 in
        let a = (add_ip-Agrees shell name kernel ip address).holds (g.set, w) g.agrees in
        let u = (add_ip-Unmoved p t.ipset t g.set ip).holds (g.set, w) (g.alive, g.set_alive) in
        subst (λ o. Good (on_set t.ipset (IpSet.add_ip ip) o w).1) (sym g.set_alive)
          (record {
            set = s.0;
            alive = u.0;
            set_alive = object_at-write t.ipset g.set s.0 s.1.ipset_objects u.1;
            agrees = record {
              same_shell = a.same_shell;
              same_name = a.same_name;
              agrees = a.agrees;
            };
          });
  }

  -- An exception of `addIP` is logged.
  add_logged : (ip : Bytes) (w : World) → Good w → (try (add_ip t ip) (λ _. pure tt) w).0 ≡ ok tt
  unfolding add_ip
  add_logged ip w g =
      subst (λ o. (try (on_set t.ipset (IpSet.add_ip ip) o) (λ _. pure tt) w).0 ≡ ok tt)
        (sym g.set_alive)
        (rw (add_ip_lem ip g.set w) (elim (Bool-cases (contains ip g.set.ips)) [
          | inl e ↦ rw e refl
          | inr e ↦ rw e (elim (Bool-cases (w.shell w.trace (add_command g.set.name ip) == 0)) [
            | inl z ↦ rw z refl
            | inr z ↦ rw z refl
          ])
        ]))

  add_destinations-Good :
      (ds : List Bytes) (w : World)
      → All IsAddress ds
      → Good w
      → ((add_destinations t ds w).0 ≡ ok tt) × Good (add_destinations t ds w).1
  unfolding add_destinations
  add_destinations-Good [] w _ g = (refl, g)
  add_destinations-Good (d ∷ ds) w (address, addresses) g =
      let kept =
        (try-Preserves (add_ip t d) (λ _. pure tt) (add_ip-Good d address)
            (λ _. pure-Preserves tt)).holds
          w g in
      rw (add_logged d w g) (add_destinations-Good ds _ addresses kept)

  shown_of :
      (w : World)
      → Good w
      → (ips : List Bytes) × ((ips_of (some p) w).0 ≡ ok ips)
        × ((ip : Bytes) → contains ip ips ≡ kernel.holds ip w.trace)
  unfolding get_ips
  shown_of w g = (
    g.set.ips,
    ap (λ o. (on_specialization get_ips o w).0) g.alive
        ∙ ap (λ o. (on_set t.ipset (λ (set, w). pure set.ips (set, w)) o w).0) g.set_alive,
    g.agrees.agrees,
  )

module _ (w : World) (t : TrafficSpecialization) (set : IpSet)
    (set_alive : object_at t.ipset w.ipset_objects ≡ some set)
    (emptied : (w.shell w.trace (flush_command set.name) == 0) ≡ true) where
  abbrev pub cleared : World
  cleared = record (issue (flush_command set.name) w) {
    ipset_objects = write t.ipset (record set { ips = [] }) w.ipset_objects;
  }

  pub clear_ips_lem : clear_ips t w ≡ (ok tt, cleared)
  unfolding clear_ips IpSet.clear_ips
  clear_ips_lem =
      ap (λ o. on_set t.ipset IpSet.clear_ips o w) set_alive
      ∙ rw call_or_throw_lem (rw emptied refl)

  cleared-Good :
      (kernel : Kernel w.shell set.name) (p : ℕ)
      → object_at p w.specializations ≡ some t
      → Good w.shell set.name kernel p t cleared
  cleared-Good kernel p alive =
      let a = flushed-Agrees w.shell set.name kernel set w refl refl emptied in
      record {
        set = record set { ips = [] };
        alive = alive;
        set_alive = object_at-write t.ipset set _ w.ipset_objects set_alive;
        agrees = record { same_shell = a.same_shell; same_name = a.same_name; agrees = a.agrees };
      }

pub filled_lem :
    (w : World) (p : ℕ) (t : TrafficSpecialization) (set : IpSet) (destinations : Bytes)
    → object_at p w.specializations ≡ some t
    → (live : object_at t.ipset w.ipset_objects ≡ some set)
    → (emptied : (w.shell w.trace (flush_command set.name) == 0) ≡ true)
    → fill (some p) destinations w
      ≡ add_destinations t (getlines b',' destinations) (cleared w t set live emptied)
filled_lem w p t set destinations alive live emptied =
    let after = add_destinations t (getlines b',' destinations) in
    ap
      (λ o.
        on_specialization (λ t. clear_ips t >> add_destinations t (getlines b',' destinations)) o w)
      alive
    ∙ bind_ok (clear_ips t) (λ _. after) (clear_ips_lem w t set live emptied)

-- The destinations of an interface that has a specialization, where each of them is one IPv4 address,
-- the set can be emptied and the shell may refuse each of the addresses: the configuration of the
-- interface returns, and the addresses that are shown of it from then on are those that the set of the
-- kernel holds, whatever it held before.
pub fill-Kernel :
    (w : World) (p : ℕ) (t : TrafficSpecialization) (set : IpSet) (kernel : Kernel w.shell set.name)
    (destinations : Bytes)
    → object_at p w.specializations ≡ some t
    → object_at t.ipset w.ipset_objects ≡ some set
    → (w.shell w.trace (flush_command set.name) == 0) ≡ true
    → All IsAddress (getlines b',' destinations)
    → let (r, w') = fill (some p) destinations w in
      (r ≡ ok tt)
      × ((ips : List Bytes) × ((ips_of (some p) w').0 ≡ ok ips)
          × ((ip : Bytes) → contains ip ips ≡ kernel.holds ip w'.trace))
fill-Kernel w p t set kernel destinations alive set_alive emptied addresses =
    let (done, good) =
      add_destinations-Good w.shell set.name kernel p t (getlines b',' destinations) _ addresses
        (cleared-Good w t set set_alive emptied kernel p alive) in
    rw (filled_lem w p t set destinations alive set_alive emptied)
      (done, shown_of w.shell set.name kernel p t _ good)
