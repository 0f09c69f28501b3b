-- ===== src/Shared.antt =====
-- Objects behind `std::shared_ptr` and `std::weak_ptr`. A pointer is a number that is never used
-- again, as a control block outlives its object while a weak pointer refers to it.
pub mod Balance
pub mod Uses
pub mod Others
use tu_thesis.Base.{ℕ, ◌+◌, ◌-◌, ◌<◌, ◌≤◌, ◌≡◌, Option, none, some, arith, ltb, ◌==◌, if◌then◌else◌}

-- A live object and the number of its shared pointers.
pub record Cell {ℓ} (A : Type ℓ) : Type ℓ where
  pub uses : ℕ
  pub object : A

pub record Heap {ℓ} (A : Type ℓ) : Type ℓ where
  pub next : ℕ
  pub cell : ℕ → Option (Cell A)

abbrev pub no_objects {ℓ} : {A : Type ℓ} → Heap A
no_objects = record { next = 0; cell = λ _. none }

module _ {ℓ} {A : Type ℓ} where
  abbrev pub update : (ℕ → Option (Cell A)) → ℕ → Option (Cell A) → ℕ → Option (Cell A)
  update f p c q = if p == q then c else f q

  abbrev pub get_cell : Option (Cell A) → Option A
  get_cell none = none
  get_cell (some c) = some c.object

  -- The object that `p` points to, if it is alive.
  unfoldable pub object_at : ℕ → Heap A → Option A
  object_at p h = get_cell (h.cell p)

  -- `std::make_shared`: the pointer is `h.next`.
  unfoldable pub allocate : A → Heap A → Heap A
  allocate a h = record {
    next = h.next + 1;
    cell = update h.cell h.next (some (record { uses = 1; object = a }));
  }

  abbrev lock_cell : ℕ → Option (Cell A) → Heap A → Option ℕ × Heap A
  lock_cell p none h = (none, h)
  lock_cell p (some c) h =
      (some p, record h { cell = update h.cell p (some (record c { uses = c.uses + 1 })) })

  -- `weak.lock()`: one more shared pointer, or a null pointer if the object is gone.
  unfoldable pub lock : ℕ → Heap A → Option ℕ × Heap A
  lock p h = lock_cell p (h.cell p) h

  abbrev release_cell : ℕ → Option (Cell A) → Heap A → Option A × Heap A
  release_cell p none h = (none, h)
  release_cell p (some c) h =
      if ltb 1 c.uses
      then (none, record h { cell = update h.cell p (some (record c { uses = c.uses - 1 })) })
      else (some c.object, record h { cell = update h.cell p none })

  -- A shared pointer goes away. The result is the object whose destructor runs, if it was the last.
  unfoldable pub release : ℕ → Heap A → Option A × Heap A
  release p h = release_cell p (h.cell p) h

  abbrev write_cell : A → Option (Cell A) → Option (Cell A)
  write_cell a none = none
  write_cell a (some c) = some (record c { object = a })

  -- A method of the object at `p` has changed its fields.
  unfoldable pub write : ℕ → A → Heap A → Heap A
  write p a h = record h { cell = update h.cell p (write_cell a (h.cell p)) }

  -- Every pointer in use was handed out, and every live object has a pointer to it.
  pub record IsWellFormed (h : Heap A) : Type ℓ where
    pub unused : (p : ℕ) → h.next ≤ p → h.cell p ≡ none
    pub owned : (p : ℕ) (c : Cell A) → h.cell p ≡ some c → 0 < c.uses

  pub allocate-IsWellFormed : (a : A) (h : Heap A) → IsWellFormed h → IsWellFormed (allocate a h)
  unfolding allocate
  allocate-IsWellFormed a h v = record {
    unused = λ p le. ground (arith, v.unused p);
    owned = λ p c e. ground (arith, v.owned p c);
  }

  pub lock-IsWellFormed : (p : ℕ) (h : Heap A) → IsWellFormed h → IsWellFormed (lock p h).1
  unfolding lock
  lock-IsWellFormed p h v = record {
    unused = λ q le. ground (arith, v.unused q);
    owned = λ q c e. ground (arith, v.owned q c);
  }

  pub release-IsWellFormed : (p : ℕ) (h : Heap A) → IsWellFormed h → IsWellFormed (release p h).1
  unfolding release
  release-IsWellFormed p h v = record {
    unused = λ q le. ground (arith, v.unused q);
    owned = λ q c e. ground (arith, v.owned q c);
  }

  pub object_at-allocate : (a : A) (h : Heap A) → object_at h.next (allocate a h) ≡ some a
  unfolding object_at allocate
  object_at-allocate a h = ground arith

  -- A weak pointer to a live object can be locked, and the object is as it was.
  pub lock-object_at :
      (p : ℕ) (a : A) (h : Heap A)
      → object_at p h ≡ some a
      → ((lock p h).0 ≡ some p) × (object_at p (lock p h).1 ≡ some a)
  unfolding object_at lock
  lock-object_at p a h live = (ground (arith, live), ground (arith, live))

  -- A pointer that was locked keeps its object through one release.
  pub release-lock :
      (p : ℕ) (h : Heap A) (c : Cell A)
      → h.cell p ≡ some c
      → 0 < c.uses
      → (release p (lock p h).1).0 ≡ none
  unfolding lock release
  release-lock p h c e live = ground arith

  -- The only pointer to a new object goes away: its destructor runs.
  pub release-allocate : (a : A) (h : Heap A) → (release h.next (allocate a h)).0 ≡ some a
  unfolding allocate release
  release-allocate a h = ground arith

  pub object_at-write :
      (p : ℕ) (a b : A) (h : Heap A) → object_at p h ≡ some a → object_at p (write p b h) ≡ some b
  unfolding object_at write
  object_at-write p a b h live = ground (arith, live)
