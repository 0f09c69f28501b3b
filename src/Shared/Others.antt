-- ===== src/Shared/Others.antt =====
-- What the other pointers see of a pointer that is made, written through, or goes away.
use tu_thesis.Base.{ℕ, ◌+◌, ◌≡◌, false, none, some, Option-cases, inl, inr, arith, ◌==◌}
use tu_thesis.Shared.{Heap, object_at, write, lock, release}
use tu_thesis.Shared.Uses.{uses_at}

module _ {ℓ} {A : Type ℓ} where
  -- Locking changes no object.
  pub object_at-lock : (p q : ℕ) (h : Heap A) → object_at q (lock p h).1 ≡ object_at q h
  unfolding object_at lock
  object_at-lock p q h = elim (Option-cases (h.cell p)) [
    | inl gone ↦ ground (arith, gone)
    | inr (c, is) ↦ ground (arith, is)
  ]

  pub uses_at-lock_other :
      (p q : ℕ) (h : Heap A) → (q == p) ≡ false → uses_at q (lock p h).1 ≡ uses_at q h
  unfolding lock
  uses_at-lock_other p q h apart = elim (Option-cases (h.cell p)) [
    | inl gone ↦ ground (arith, gone)
    | inr (c, is) ↦ ground (arith, is)
  ]

  pub object_at-write_other :
      (p q : ℕ) (a : A) (h : Heap A) → (q == p) ≡ false → object_at q (write p a h) ≡ object_at q h
  unfolding object_at write
  object_at-write_other p q a h apart = ground arith

  -- Writing what an object is changes nothing.
  pub object_at-write_same :
      (p q : ℕ) (a : A) (h : Heap A)
      → object_at p h ≡ some a
      → object_at q (write p a h) ≡ object_at q h
  unfolding object_at write
  object_at-write_same p q a h live = elim (Option-cases (h.cell p)) [
    | inl gone ↦ ground (arith, live, gone)
    | inr (c, is) ↦ ground (arith, live, is)
  ]

  -- One of several pointers goes away.
  pub record Dropped (p n : ℕ) (before : Heap A) : Type ℓ where
    pub kept : (release p before).0 ≡ none
    pub objects : (q : ℕ) → object_at q (release p before).1 ≡ object_at q before
    pub count : uses_at p (release p before).1 ≡ some (n + 1)
    pub counts : (q : ℕ) → (q == p) ≡ false → uses_at q (release p before).1 ≡ uses_at q before

  pub release-Dropped : (p n : ℕ) (h : Heap A) → uses_at p h ≡ some (n + 2) → Dropped p n h
  unfolding object_at release
  release-Dropped p n h e = elim (Option-cases (h.cell p)) [
    | inl gone ↦ ground (arith, e, gone)
    | inr (c, is) ↦ record {
      kept = ground (arith, e, is);
      objects = λ q. ground (arith, e, is);
      count = ground (arith, e, is);
      counts = λ q apart. ground (arith, e, is);
    }
  ]
