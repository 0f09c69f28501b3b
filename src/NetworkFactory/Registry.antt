-- ===== src/NetworkFactory/Registry.antt =====
-- `NetworkFactory::getWeakElement`, for every type of object that the factory registers.
use tu_thesis.Base.{
  ◌≡◌, ℕ, Bool, true, false, ◌||◌, Option, none, some, List, [], ◌∷◌, if◌then◌else◌,
}
use tu_thesis.Exec.{Exec, stuck}
use tu_thesis.Shared
use tu_thesis.Shared.{Heap}
use tu_thesis.World.{World}

module _ {ℓ} {A : Type ℓ} where
  abbrev holds : (A → Bool) → Option A → Bool
  holds test none = false
  holds test (some a) = test a

  abbrev is_gone : Option A → Bool
  is_gone none = true
  is_gone (some _) = false

  -- The first pointer whose object is alive and passes the test.
  unfoldable pub first_live : (A → Bool) → Heap A → List ℕ → Option ℕ
  first_live test h [] = none
  first_live test h (p ∷ ps) =
      let rest = first_live test h ps in if holds test (Shared.object_at p h) then some p else rest

  unfoldable pub any_gone : Heap A → List ℕ → Bool
  any_gone h [] = false
  any_gone h (p ∷ ps) = is_gone (Shared.object_at p h) || any_gone h ps

  -- `std::remove_if` without `erase` moves the live pointers to the front and leaves pointers that
  -- lock to null behind them, so `std::find_if` meets the live ones first, and calls a method through
  -- a null pointer if none of them passes and one was gone. `array` is a copy of the member: the
  -- `push_back` of a new element is lost when the function returns.
  unfoldable pub get_weak_element :
      Heap A → List ℕ → (A → Bool) → (ℕ → Exec World ℕ) → Exec World ℕ → Exec World ℕ
  get_weak_element h array test lock make w = elim (first_live test h array) [
    | some p ↦ lock p w
    | none ↦ if any_gone h array then stuck w else make w
  ]

  -- With nothing known the object is made.
  pub get_weak_element_none :
      (h : Heap A) (array : List ℕ) (test : A → Bool) (lock : ℕ → Exec World ℕ)
      (make : Exec World ℕ) (w : World)
      → array ≡ []
      → get_weak_element h array test lock make w ≡ make w
  unfolding get_weak_element first_live any_gone
  get_weak_element_none h array test lock make w e = rw e
