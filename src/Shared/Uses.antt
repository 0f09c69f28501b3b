-- ===== src/Shared/Uses.antt =====
-- The number of the pointers to an object.
use tu_thesis.Base.{ℕ, ◌+◌, ◌≡◌, none, some, Option, Option-cases, inl, inr, arith}
use tu_thesis.Shared.{Heap, Cell, object_at, write, lock, release}

module _ {ℓ} {A : Type ℓ} where
  abbrev pub get_uses : Option (Cell A) → Option ℕ
  get_uses none = none
  get_uses (some c) = some c.uses

  -- The number of the pointers to the object at `p`, if it is alive.
  abbrev pub uses_at : ℕ → Heap A → Option ℕ
  uses_at p h = get_uses (h.cell p)

  pub uses_at-lock :
      (p n : ℕ) (h : Heap A) → uses_at p h ≡ some (n + 1) → uses_at p (lock p h).1 ≡ some (n + 2)
  unfolding lock
  uses_at-lock p n h e = elim (Option-cases (h.cell p)) [
    | inl gone ↦ ground (arith, e, gone)
    | inr (c, is) ↦ ground (arith, e, is)
  ]

  pub uses_at-write : (p q : ℕ) (a : A) (h : Heap A) → uses_at p (write q a h) ≡ uses_at p h
  unfolding write
  uses_at-write p q a h = elim (Option-cases (h.cell p)) [
    | inl gone ↦ ground (arith, gone)
    | inr (c, is) ↦ ground (arith, is)
  ]

  -- When one of several pointers goes away, no destructor runs, and the object is as it was.
  pub release-shared :
      (p n : ℕ) (h : Heap A)
      → uses_at p h ≡ some (n + 2)
      → ((release p h).0 ≡ none) × (object_at p (release p h).1 ≡ object_at p h)
  unfolding object_at release
  release-shared p n h e = elim (Option-cases (h.cell p)) [
    | inl gone ↦ (ground (arith, e, gone), ground (arith, e, gone))
    | inr (c, is) ↦ (ground (arith, e, is), ground (arith, e, is))
  ]
