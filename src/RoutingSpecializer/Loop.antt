-- ===== src/RoutingSpecializer/Loop.antt =====
-- The loop of `configure` over interfaces whose specializations are alive.
use tu_thesis.Base.{
  All-zip, All_map, arith, Option, ℕ, ◌+◌, ◌≡◌, ap, ◌∙◌, refl, false, some, List, [], ◌∷◌, ◌==◌,
  All,
}
use tu_thesis.Text.Bytes.{Bytes}
use tu_thesis.Text.Stream.{getlines}
use tu_thesis.Exec.{ok}
use tu_thesis.Map
use tu_thesis.Map.{bytes_key}
use tu_thesis.Map.Ascending.{entries_of, insert_all}
use tu_thesis.Shared
use tu_thesis.Shared.{object_at, lock-object_at}
use tu_thesis.Shared.Uses.{uses_at, uses_at-lock}
use tu_thesis.Shared.Others.{object_at-lock, uses_at-lock_other}
use tu_thesis.World.{World, IpSet, TrafficSpecialization}
use tu_thesis.IpSet.Entered.{entered}
use tu_thesis.RoutingSpecializer.{configure_all, Specializations, find_or_make, fill}
use tu_thesis.RoutingSpecializer.Wrote.{Accepts, fill-Wrote}

-- An interface: its destinations in a configuration, the pointer to its specialization, the object and
-- its set, and how many other pointers there are.
pub record Item : Type 0 where
  pub name : Bytes
  pub destinations : Bytes
  pub pointer : ℕ
  pub specialization : TrafficSpecialization
  pub set : IpSet
  pub others : ℕ

abbrev pub name_of : Item → Bytes
name_of i = i.name

abbrev pub pointers : List Item → List (Bytes × Option ℕ)
pointers items = entries_of name_of (λ i. some i.pointer) items

abbrev pub configuration : List Item → List (Bytes × Bytes)
configuration items = entries_of name_of (λ i. i.destinations) items

-- Neither the objects nor the sets of two interfaces are the same.
abbrev pub Apart : Item → Item → Type 0
Apart i j =
    ((i.pointer == j.pointer) ≡ false)
    × ((i.specialization.ipset == j.specialization.ipset) ≡ false)

abbrev pub Distinct : List Item → Type 0
Distinct [] = Unit
Distinct (i ∷ items) = All (Apart i) items × Distinct items

pub record Alive (w : World) (i : Item) : Type 0 where
  pub alive : object_at i.pointer w.specializations ≡ some i.specialization
  pub live : object_at i.specialization.ipset w.ipset_objects ≡ some i.set
  pub accepts : Accepts w.shell i.set.name
  pub counted : uses_at i.pointer w.specializations ≡ some (i.others + 1)

abbrev pub filled_set : Item → IpSet
filled_set i = record i.set { ips = entered [] (getlines b',' i.destinations) }

-- The set of the interface holds the destinations, and one pointer more is there.
pub record Filled (w : World) (i : Item) : Type 0 where
  pub alive : object_at i.pointer w.specializations ≡ some i.specialization
  pub live : object_at i.specialization.ipset w.ipset_objects ≡ some (filled_set i)
  pub counted : uses_at i.pointer w.specializations ≡ some (i.others + 2)

-- The interfaces are filled, and the other objects and sets are as they were.
pub record Ran (items : List Item) (before after : World) : Type 0 where
  pub shell : after.shell ≡ before.shell
  pub objects : (q : ℕ) → object_at q after.specializations ≡ object_at q before.specializations
  pub sets :
      (q : ℕ)
      → All (λ i. (q == i.specialization.ipset) ≡ false) items
      → object_at q after.ipset_objects ≡ object_at q before.ipset_objects
  pub counts :
      (q : ℕ)
      → All (λ i. (q == i.pointer) ≡ false) items
      → uses_at q after.specializations ≡ uses_at q before.specializations
  pub filled : All (Filled after) items

-- The pointer is locked, and its interface filled.
run_one :
    (old : Specializations) (i : Item) (w : World)
    → Map.lookup i.name old ≡ some (some i.pointer)
    → Alive w i
    → let (p, v) = find_or_make i.name (Map.lookup i.name old) w in
      (p ≡ ok (some i.pointer))
      × (let (r, u) = fill (some i.pointer) i.destinations v in (r ≡ ok tt) × Ran (i ∷ []) w u)
unfolding find_or_make
run_one old i w known a =
    let (locked, _) = lock-object_at i.pointer i.specialization w.specializations a.alive in
    let v = record w { specializations = (Shared.lock i.pointer w.specializations).1 } in
    let still = object_at-lock i.pointer i.pointer w.specializations ∙ a.alive in
    let (done, wrote) =
      fill-Wrote v i.pointer i.specialization i.set i.destinations still a.live a.accepts in
    rw known (
      rw locked (
        refl,
        (
          done,
          record {
            shell = wrote.shell;
            objects = λ q.
                ap (object_at q) wrote.specializations
                ∙ object_at-lock i.pointer q w.specializations;
            sets = λ q apart. wrote.others q apart.0;
            counts = λ q apart.
                ap (uses_at q) wrote.specializations
                ∙ uses_at-lock_other i.pointer q w.specializations apart.0;
            filled = (
              record {
                alive = ap (object_at i.pointer) wrote.specializations ∙ still;
                live = wrote.written;
                counted =
                    ap (uses_at i.pointer) wrote.specializations
                    ∙ uses_at-lock i.pointer i.others w.specializations a.counted;
              },
              tt,
            );
          },
        ),
      ))

Ran-Alive : (i j : Item) (w u : World) → Ran (i ∷ []) w u → Apart i j → Alive w j → Alive u j
Ran-Alive i j w u ran (other, another) a = record {
  alive = ran.objects j.pointer ∙ a.alive;
  live = ran.sets j.specialization.ipset (ground arith, tt) ∙ a.live;
  accepts = rw ran.shell a.accepts;
  counted = ran.counts j.pointer (ground arith, tt) ∙ a.counted;
}

Ran-cons :
    (i : Item) (items : List Item) (w u v : World)
    → All (Apart i) items
    → Ran (i ∷ []) w u
    → Ran items u v
    → Ran (i ∷ items) w v
Ran-cons i items w u v apart one rest = record {
  shell = rest.shell ∙ one.shell;
  objects = λ q. rest.objects q ∙ one.objects q;
  sets = λ q (first, others). rest.sets q others ∙ one.sets q (first, tt);
  counts = λ q (first, others). rest.counts q others ∙ one.counts q (first, tt);
  filled = (
    (let f = one.filled.0 in
        record {
          alive = rest.objects i.pointer ∙ f.alive;
          live = rest.sets i.specialization.ipset (All_map (λ j a. a.1) items apart) ∙ f.live;
          counted = rest.counts i.pointer (All_map (λ j a. a.0) items apart) ∙ f.counted;
        }),
    rest.filled,
  );
}

-- The loop over interfaces that all have a live specialization of their own: each is filled, and the
-- new map has the old pointers.
pub configure_all-Ran :
    (old acc : Specializations) (items : List Item) (w : World)
    → All (λ i. Map.lookup i.name old ≡ some (some i.pointer)) items
    → All (Alive w) items
    → Distinct items
    → let (r, (new, w')) = configure_all old (configuration items) (acc, w) in
      (r ≡ ok tt) × (new ≡ insert_all name_of (λ i. some i.pointer) items acc) × Ran items w w'
unfolding configure_all
configure_all-Ran old acc [] w known alive distinct = (
  refl,
  refl,
  record {
    shell = refl;
    objects = λ q. refl;
    sets = λ q all. refl;
    counts = λ q all. refl;
    filled = tt;
  },
)
configure_all-Ran old acc (i ∷ items) w (first, known) (a, alive) (apart, distinct) =
    let (found, (done, one)) = run_one old i w first a in
    let v = (find_or_make i.name (Map.lookup i.name old) w).1 in
    let u = (fill (some i.pointer) i.destinations v).1 in
    let (rest_done, is, rest) =
      configure_all-Ran old (Map.insert i.name (some i.pointer) acc) items u known
        (All-zip (λ j p q. Ran-Alive i j w u one p q) items apart alive) distinct in
    rw found (rw done (rest_done, is, Ran-cons i items w u _ apart one rest))
