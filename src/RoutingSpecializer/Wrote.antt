-- ===== src/RoutingSpecializer/Wrote.antt =====
-- One set and its copy are filled, and nothing else changes.
use tu_thesis.Base.{
  subst, ℕ, ◌≡◌, ap, sym, ◌∙◌, refl, true, false, some, List, [], ◌∷◌, ◌==◌, Bool-cases, inl, inr,
}
use tu_thesis.Text.Bytes.{Bytes}
use tu_thesis.Text.Stream.{getlines}
use tu_thesis.Exec.{ok, pure, try}
use tu_thesis.Shared.{object_at, write, object_at-write}
use tu_thesis.Shared.Others.{object_at-write_other}
use tu_thesis.World.{World, IpSet, TrafficSpecialization}
use tu_thesis.IpSet
use tu_thesis.IpSet.{contains, add_command, flush_command}
use tu_thesis.IpSet.Members.{add_ip_lem}
use tu_thesis.IpSet.Entered.{enter, entered}
use tu_thesis.TrafficSpecialization.{add_ip, on_set}
use tu_thesis.RoutingSpecializer.{add_destinations, fill}
use tu_thesis.RoutingSpecializer.Filled.{filled_lem, cleared}

-- The shell runs each command that fills the set of a name, whatever was run before.
pub record Accepts (shell : List Bytes → Bytes → ℕ) (name : Bytes) : Type 0 where
  pub flushed : (trace : List Bytes) → (shell trace (flush_command name) == 0) ≡ true
  pub added : (trace : List Bytes) (ip : Bytes) → (shell trace (add_command name ip) == 0) ≡ true

-- The object at `q` is `set`; the other sets, the specializations and the shell are as they were.
pub record Wrote (q : ℕ) (set : IpSet) (before after : World) : Type 0 where
  pub shell : after.shell ≡ before.shell
  pub specializations : after.specializations ≡ before.specializations
  pub written : object_at q after.ipset_objects ≡ some set
  pub others :
      (r : ℕ)
      → (r == q) ≡ false
      → object_at r after.ipset_objects ≡ object_at r before.ipset_objects

Wrote-refl :
    (q : ℕ) (set : IpSet) (w : World) → object_at q w.ipset_objects ≡ some set → Wrote q set w w
Wrote-refl q set w live = record {
  shell = refl;
  specializations = refl;
  written = live;
  others = λ r apart. refl;
}

Wrote-trans : (q : ℕ) (a b : IpSet) (u v w : World) → Wrote q a u v → Wrote q b v w → Wrote q b u w
Wrote-trans q a b u v w f g = record {
  shell = g.shell ∙ f.shell;
  specializations = g.specializations ∙ f.specializations;
  written = g.written;
  others = λ r apart. g.others r apart ∙ f.others r apart;
}

Wrote-write :
    (q : ℕ) (old set : IpSet) (before w : World)
    → object_at q before.ipset_objects ≡ some old
    → w.shell ≡ before.shell
    → w.specializations ≡ before.specializations
    → w.ipset_objects ≡ write q set before.ipset_objects
    → Wrote q set before w
Wrote-write q old set before w live same_shell same_heap is = record {
  shell = same_shell;
  specializations = same_heap;
  written = ap (object_at q) is ∙ object_at-write q old set before.ipset_objects live;
  others =
      λ r apart. ap (object_at r) is ∙ object_at-write_other q r set before.ipset_objects apart;
}

module _ (t : TrafficSpecialization) where
  add_one-Wrote :
      (d : Bytes) (set : IpSet) (w : World)
      → object_at t.ipset w.ipset_objects ≡ some set
      → Accepts w.shell set.name
      → let (r, w') = try (add_ip t d) (λ _. pure tt) w in
        (r ≡ ok tt) × Wrote t.ipset (record set { ips = enter set.ips d }) w w'
  unfolding add_ip
  add_one-Wrote d set w live accepts =
      subst
        (λ o.
          let (r, w') = try (on_set t.ipset (IpSet.add_ip d) o) (λ _. pure tt) w in
          (r ≡ ok tt) × Wrote t.ipset (record set { ips = enter set.ips d }) w w')
        (sym live)
        (rw (add_ip_lem d set w) (elim (Bool-cases (contains d set.ips)) [
          | inl old ↦ rw old (refl, Wrote-write t.ipset set set w _ live refl refl refl)
          | inr new ↦ rw new (
              rw (accepts.added w.trace d)
                (refl, Wrote-write t.ipset set _ w _ live refl refl refl))
        ]))

  add_destinations-Wrote :
      (ds : List Bytes) (set : IpSet) (w : World)
      → object_at t.ipset w.ipset_objects ≡ some set
      → Accepts w.shell set.name
      → let (r, w') = add_destinations t ds w in
        (r ≡ ok tt) × Wrote t.ipset (record set { ips = entered set.ips ds }) w w'
  unfolding add_destinations entered
  add_destinations-Wrote [] set w live accepts = (refl, Wrote-refl t.ipset set w live)
  add_destinations-Wrote (d ∷ ds) set w live accepts =
      let (done, one) = add_one-Wrote d set w live accepts in
      let (rest_done, rest) =
        add_destinations-Wrote ds (record set { ips = enter set.ips d }) _ one.written
          (rw one.shell accepts) in
      rw done (rest_done, Wrote-trans t.ipset _ _ w _ _ one rest)

-- Filling an interface whose specialization and set are alive, where the shell runs each of the commands:
-- the set holds the destinations, each of them once.
pub fill-Wrote :
    (w : World) (p : ℕ) (t : TrafficSpecialization) (set : IpSet) (destinations : Bytes)
    → object_at p w.specializations ≡ some t
    → object_at t.ipset w.ipset_objects ≡ some set
    → Accepts w.shell set.name
    → let (r, w') = fill (some p) destinations w in
      (r ≡ ok tt)
      × Wrote t.ipset (record set { ips = entered [] (getlines b',' destinations) }) w w'
fill-Wrote w p t set destinations alive live accepts =
    let emptied = accepts.flushed w.trace in
    let after = add_destinations t (getlines b',' destinations) in
    let filled = filled_lem w p t set destinations alive live emptied in
    let first =
      Wrote-write t.ipset set (record set { ips = [] }) w (cleared w t set live emptied) live refl
        refl refl in
    let (done, rest) =
      add_destinations-Wrote t (getlines b',' destinations) (record set { ips = [] })
        (cleared w t set live emptied) first.written accepts in
    rw filled (done, Wrote-trans t.ipset _ _ w _ _ first rest)
