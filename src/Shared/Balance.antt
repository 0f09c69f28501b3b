-- ===== src/Shared/Balance.antt =====
-- Pointers that are made and go away again: the live objects are those of before.
use tu_thesis.Base.{ℕ, ◌≤◌, ◌≡◌, refl, false, none, some, arith, ◌==◌}
use tu_thesis.Shared.{Heap, IsWellFormed, allocate, release}

module _ {ℓ} {A : Type ℓ} where
  -- The same pointers to the same objects, with the same counts.
  pub record Same (before after : Heap A) : Type ℓ where
    pub grown : before.next ≤ after.next
    pub cells : (q : ℕ) → after.cell q ≡ before.cell q

  -- One object more, with one pointer, which no pointer of before is.
  pub record Taken (before : Heap A) (p : ℕ) (after : Heap A) : Type ℓ where
    pub grown : before.next ≤ after.next
    pub fresh : before.cell p ≡ none
    pub object : A
    pub taken : after.cell p ≡ some (record { uses = 1; object = object })
    pub others : (q : ℕ) → (p == q) ≡ false → after.cell q ≡ before.cell q

  pub same : (h : Heap A) → Same h h
  same h = record { grown = omega arith; cells = λ q. refl }

  pub allocate-Taken :
      (before after : Heap A) (a : A)
      → IsWellFormed before
      → Same before after
      → Taken before after.next (allocate a after)
  unfolding allocate
  allocate-Taken before after a v s = record {
    grown = omega (arith, s.grown);
    fresh = v.unused after.next s.grown;
    object = a;
    taken = ground arith;
    others = λ q e. ground (arith, s.cells q);
  }

  pub release-Same :
      (before after : Heap A) (p : ℕ) → Taken before p after → Same before (release p after).1
  unfolding release
  release-Same before after p t = record {
    grown = ground (arith, t.taken, t.grown);
    cells = λ q. ground (arith, t.taken, t.fresh, t.others q);
  }
