-- ===== src/RoutingSpecializer/Again.antt =====
-- A specializer that is configured again for the interfaces that it has.
use tu_thesis.Base.{
  ℕ, ◌+◌, ◌≡◌, ap, ◌∙◌, refl, false, some, List, [], ◌∷◌, ◌==◌, All, All-zip, All_map, arith,
}
use tu_thesis.Text.Bytes.{Bytes}
use tu_thesis.Text.Stream.Split.{join_with}
use tu_thesis.Exec.{ok, pure}
use tu_thesis.Map.{Map, bytes_key, empty}
use tu_thesis.Map.Ascending.{entries_of, insert_all, insert_all-append, IsAscending}
use tu_thesis.Shared
use tu_thesis.Shared.{object_at, release}
use tu_thesis.Shared.Uses.{uses_at}
use tu_thesis.Shared.Others.{release-Dropped, object_at-write_same}
use tu_thesis.World.{World, IpSet}
use tu_thesis.TrafficSpecialization.{get_ips, on_set}
use tu_thesis.RoutingSpecializer.{
  release_all, release_specialization, describe, ips_of, get_configuration, on_specialization,
}
use tu_thesis.RoutingSpecializer.Loop.{Item, name_of, pointers, Distinct}

-- Every interface has lost a pointer, and no object is gone.
pub record Released (items : List Item) (before after : World) : Type 0 where
  pub objects : (q : ℕ) → object_at q after.specializations ≡ object_at q before.specializations
  pub sets : after.ipset_objects ≡ before.ipset_objects
  pub shell : after.shell ≡ before.shell
  pub counts :
      (q : ℕ)
      → All (λ i. (q == i.pointer) ≡ false) items
      → uses_at q after.specializations ≡ uses_at q before.specializations
  pub counted : All (λ i. uses_at i.pointer after.specializations ≡ some (i.others + 1)) items

release_one :
    (p n : ℕ) (w : World)
    → uses_at p w.specializations ≡ some (n + 2)
    → release_specialization p w
      ≡ (ok tt, record w { specializations = (release p w.specializations).1 })
unfolding release_specialization
release_one p n w several =
    rw ((release-Dropped p n w.specializations several).kept, release_specialization) refl

pub release_all-Released :
    (items : List Item) (w : World)
    → All (λ i. uses_at i.pointer w.specializations ≡ some (i.others + 2)) items
    → Distinct items
    → ((release_all (pointers items) w).0 ≡ ok tt)
      × Released items w (release_all (pointers items) w).1
unfolding release_all
release_all-Released [] w counted distinct = (
  refl,
  record { objects = λ q. refl; sets = refl; shell = refl; counts = λ q all. refl; counted = tt },
)
release_all-Released (i ∷ items) w (several, counted) (apart, distinct) =
    let d = release-Dropped i.pointer i.others w.specializations several in
    let v = record w { specializations = (release i.pointer w.specializations).1 } in
    let (done, rest) =
      release_all-Released items v
        (All-zip
          (λ j p (q : uses_at j.pointer w.specializations ≡ some (j.others + 2)).
            d.counts j.pointer (ground arith) ∙ q)
          items apart counted)
        distinct in
    rw (release_one i.pointer i.others w several) (
      done,
      record {
        objects = λ q. rest.objects q ∙ d.objects q;
        sets = rest.sets;
        shell = rest.shell;
        counts = λ q (first, all). rest.counts q all ∙ d.counts q first;
        counted =
            (rest.counts i.pointer (All_map (λ j a. a.0) items apart) ∙ d.count, rest.counted);
      },
    )

-- What is shown of each interface, if its set is `set`.
module _ (set : Item → IpSet) where
  pub record Shown (w : World) (i : Item) : Type 0 where
    pub alive : object_at i.pointer w.specializations ≡ some i.specialization
    pub live : object_at i.specialization.ipset w.ipset_objects ≡ some (set i)

  abbrev pub shown : Item → Bytes
  shown i = join_with b',' (set i).ips

  ips_of_lem :
      (i : Item) (w : World)
      → Shown w i
      → ips_of (some i.pointer) w ≡ (
        ok (set i).ips,
        record w { ipset_objects = Shared.write i.specialization.ipset (set i) w.ipset_objects },
      )
  unfolding get_ips
  ips_of_lem i w s =
      ap (λ o. on_specialization get_ips o w) s.alive
      ∙ ap (λ o. on_set i.specialization.ipset (λ (set, w). pure set.ips (set, w)) o w) s.live

  describe_lem :
      (items : List Item) (result : Map Bytes Bytes) (w : World)
      → All (Shown w) items
      → (describe (pointers items) result w).0 ≡ ok (insert_all name_of shown items result)
  unfolding describe
  describe_lem [] result w all = refl
  describe_lem (i ∷ items) result w (s, all) = rw (ips_of_lem i w s) (
      describe_lem items _ _ (
        All_map
          (λ j (t : Shown w j). record {
            alive = t.alive;
            live =
                object_at-write_same i.specialization.ipset j.specialization.ipset (set i)
                  w.ipset_objects s.live
                ∙ t.live;
          })
          items all))

  -- `getConfiguration` gives the addresses of each interface.
  pub get_configuration_lem :
      (items : List Item) (w : World)
      → IsAscending name_of items
      → All (Shown w) items
      → (get_configuration (record { entries = pointers items }, w)).0
        ≡ ok (record { entries = entries_of name_of shown items })
  unfolding get_configuration
  get_configuration_lem items w ascending all =
      describe_lem items empty w all ∙ ap ok (insert_all-append name_of shown [] items ascending)
