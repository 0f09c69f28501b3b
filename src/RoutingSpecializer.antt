-- ===== src/RoutingSpecializer.antt =====
-- RoutingSpecializer/src/RoutingSpecializer.cpp: which destinations go through which interface.
pub mod Filled
pub mod Wrote
pub mod Loop
pub mod Again
pub mod Reconfigured
use tu_thesis.Base.{ℕ, Option, none, some, List, [], ◌∷◌}
use tu_thesis.Text.Bytes.{Bytes}
use tu_thesis.Text.Stream.{getlines}
use tu_thesis.Text.Stream.Split.{join_with}
use tu_thesis.Exec.{
  Exec, Outcome, ok, throw, undefined, pure, raise, stuck, try, on_world, assign, ◌>>=◌, ◌>>◌,
}
use tu_thesis.Map
use tu_thesis.Map.{Map, empty, bytes_key}
use tu_thesis.Shared
use tu_thesis.World.{World, TrafficSpecialization}
use tu_thesis.TrafficSpecialization.{
  new_specialization, delete_specialization, add_ip, clear_ips, get_ips,
}

-- `traffic_specializations`: the pointers, which may be null.
abbrev pub Specializations : Type 0
Specializations = Map Bytes (Option ℕ)

abbrev make_specialization : Bytes → Exec World (Option ℕ)
make_specialization name = do
  t ← new_specialization name
  (λ w.
      pure (some w.specializations.next)
        (record w { specializations = Shared.allocate t w.specializations }))

abbrev lock_specialization : ℕ → Exec World (Option ℕ)
lock_specialization p w =
    let (locked, heap) = Shared.lock p w.specializations in
    pure locked (record w { specializations = heap })

-- The pointer of the interface: the one that the plugin has, or one to a new object, or null if its
-- constructor throws.
unfoldable pub find_or_make : Bytes → Option (Option ℕ) → Exec World (Option ℕ)
find_or_make name (some (some p)) = lock_specialization p
find_or_make name (some none) = try (make_specialization name) (λ _. pure none)
find_or_make name none = try (make_specialization name) (λ _. pure none)

abbrev pub on_specialization {ℓ} :
    {A : Type ℓ}
    → (TrafficSpecialization → Exec World A)
    → Option TrafficSpecialization
    → Exec World A
on_specialization f none w = stuck w
on_specialization f (some t) w = f t w

-- The object behind a pointer: undefined if the pointer is dangling.
abbrev pub with_specialization {ℓ} :
    {A : Type ℓ} → ℕ → (TrafficSpecialization → Exec World A) → Exec World A
with_specialization p f w = on_specialization f (Shared.object_at p w.specializations) w

-- The loop over the destinations: an exception is logged.
unfoldable pub add_destinations : TrafficSpecialization → List Bytes → Exec World (Unit {0})
add_destinations t [] = pure tt
add_destinations t (d ∷ ds) = do try (add_ip t d) (λ _. pure tt); add_destinations t ds

abbrev pub fill : Option ℕ → Bytes → Exec World (Unit {0})
fill none destinations = pure tt
fill (some p) destinations =
    with_specialization p (λ t. do clear_ips t; add_destinations t (getlines b',' destinations))

-- The loop of `configure` over the pairs of the configuration, on the map that becomes the member.
unfoldable pub configure_all :
    Specializations → List (Bytes × Bytes) → Exec (Specializations × World) (Unit {0})
configure_all old [] = pure tt
configure_all old ((name, destinations) ∷ rest) = do
  p ← on_world (find_or_make name (Map.lookup name old))
  assign (Map.insert name p)
  on_world (fill p destinations)
  configure_all old rest

unfoldable pub release_specialization : ℕ → Exec World (Unit {0})
release_specialization p w =
    let (last, heap) = Shared.release p w.specializations in
    let w' = record w { specializations = heap } in
    elim last [ none ↦ pure tt w' | some t ↦ delete_specialization t w' ]

abbrev release_pointer : Option ℕ → Exec World (Unit {0})
release_pointer none = pure tt
release_pointer (some p) = release_specialization p

-- The pointers of a map go away.
unfoldable pub release_all : List (Bytes × Option ℕ) → Exec World (Unit {0})
release_all [] = pure tt
release_all ((_, p) ∷ rest) = do release_pointer p; release_all rest

-- What `configure` does with the map that its loop has built.
abbrev finish :
    Specializations
    → Outcome (Unit {0}) × (Specializations × World)
    → Outcome (Unit {0}) × (Specializations × World)
finish old (ok _, (new, w)) = let (r, w') = release_all old.entries w in (r, (new, w'))
finish old (throw e, (new, w)) =
    let (r, w') = (release_all new.entries >> raise e) w in (r, (old, w'))
finish old (undefined, (new, w)) = (undefined, (old, w))

-- `configure`: if it throws, the member stays, and the map that was being built goes away.
unfoldable pub configure : Map Bytes Bytes → Exec (Specializations × World) (Unit {0})
configure conf (old, w) = finish old (configure_all old conf.entries (empty, w))

abbrev pub ips_of : Option ℕ → Exec World (List Bytes)
ips_of none = pure []
ips_of (some p) = with_specialization p get_ips

-- `getConfiguration`: the destinations of each interface, each with a comma behind it.
unfoldable pub describe : List (Bytes × Option ℕ) → Map Bytes Bytes → Exec World (Map Bytes Bytes)
describe [] result = pure result
describe ((name, p) ∷ rest) result = do
  ips ← ips_of p
  describe rest (Map.insert name (join_with b',' ips) result)

unfoldable pub get_configuration : Exec (Specializations × World) (Map Bytes Bytes)
get_configuration (specializations, w) =
    let (r, w') = describe specializations.entries empty w in (r, (specializations, w'))
