-- ===== src/Text/Stream/Split.antt =====
-- The `getline` loop is `split`, a plain recursion on the text, and `join_with` is its inverse.
use tu_thesis.Base.{
  append_assoc, ℕ, zero, suc, ◌<◌, ◌≡◌, refl, ap, ◌∙◌, false, Option, none, some, List, [], ◌∷◌,
  ◌++◌, arith, ◌==◌, if◌then◌else◌, length, All, has, Bool-cases, inl, inr,
}
use tu_thesis.Text.Bytes.{Bytes}
use tu_thesis.Text.Stream.{
  open_stream, break_at, extracted, line_or, getline, getlines_from, getlines,
}

-- A byte in front of the first item.
abbrev pub extend : ℕ → List Bytes → List Bytes
extend c [] = (c ∷ []) ∷ []
extend c (l ∷ ls) = (c ∷ l) ∷ ls

-- The items of a text, each ended by `d` or by the end of the text.
unfoldable pub split : ℕ → Bytes → List Bytes
split d [] = []
split d (c ∷ cs) = let rest = split d cs in if c == d then [] ∷ rest else extend c rest

-- Every item with `d` behind it: `for (auto item : items) result += item + ","`.
unfoldable pub join_with : ℕ → List Bytes → Bytes
join_with d [] = []
join_with d (x ∷ xs) = x ++ (d ∷ join_with d xs)

module _ (d : ℕ) where
  -- What one round of the loop takes off, in terms of `split`.
  abbrev Splits : Bytes → Option Bytes → Bytes → Type 0
  Splits s none [] = s ≡ []
  Splits s none (c ∷ line) = split d s ≡ (c ∷ line) ∷ []
  Splits s (some rest) line = (split d s ≡ line ∷ split d rest) × (length rest < length s)

  Splits-cons :
      (c : ℕ) (cs : Bytes) (o : Option Bytes) (line : Bytes)
      → (c == d) ≡ false
      → Splits cs o line
      → Splits (c ∷ cs) o (c ∷ line)
  unfolding split
  Splits-cons c cs none [] e h = rw (e, h)
  Splits-cons c cs none (x ∷ line) e h = rw (e, h)
  Splits-cons c cs (some rest) line e h = (rw (e, h.0), omega arith)

  break_at-Splits : (s : Bytes) → let (line, after) = break_at d s in Splits s after line
  unfolding break_at split
  break_at-Splits [] = refl
  break_at-Splits (c ∷ cs) = elim (Bool-cases (c == d)) [
    | inl e ↦ rw e (rw e, omega arith)
    | inr e ↦ rw e (Splits-cons c cs _ _ e (break_at-Splits cs))
  ]

  pub getlines_from-closed :
      (fuel : ℕ) → getlines_from fuel d (record { unread = []; good = false }) ≡ []
  unfolding getlines_from getline
  getlines_from-closed zero = refl
  getlines_from-closed (suc fuel) = refl

  getlines_from-round :
      (fuel : ℕ) (s : Bytes) (o : Option Bytes) (line : Bytes)
      → Splits s o line
      → ((rest : Bytes)
          → length rest < length s
          → getlines_from fuel d (open_stream rest) ≡ split d rest)
      → (let r = extracted (line, o) in
          let rest = getlines_from fuel d r.stream in if r.success then line_or [] r ∷ rest else [])
        ≡ split d s
  unfolding split
  getlines_from-round fuel s none [] e ih = rw e
  getlines_from-round fuel s none (c ∷ line) e ih = rw (e, getlines_from-closed fuel)
  getlines_from-round fuel s (some rest) line e ih = rw (e.0, ih rest e.1)

  pub getlines_from-eq-split :
      (fuel : ℕ) (s : Bytes) → length s < fuel → getlines_from fuel d (open_stream s) ≡ split d s
  unfolding getlines_from getline
  getlines_from-eq-split zero s h = absurd (omega arith)
  getlines_from-eq-split (suc fuel) s h =
      getlines_from-round fuel s _ _ (break_at-Splits s)
        λ rest shorter. getlines_from-eq-split fuel rest (omega arith)

  -- The loop ends, and it goes through the items of `split`.
  pub getlines-eq-split : (s : Bytes) → getlines d s ≡ split d s
  unfolding getlines
  getlines-eq-split s = getlines_from-eq-split (suc (length s)) s (omega arith)

  -- No item holds the separator.
  abbrev pub IsItem : Bytes → Type 0
  IsItem x = has d x ≡ false

  extend-IsItem :
      (c : ℕ) (ls : List Bytes) → (c == d) ≡ false → All IsItem ls → All IsItem (extend c ls)
  extend-IsItem c [] e h = (rw e, tt)
  extend-IsItem c (l ∷ ls) e h = (rw e h.0, h.1)

  pub split-IsItem : (s : Bytes) → All IsItem (split d s)
  unfolding split
  split-IsItem [] = tt
  split-IsItem (c ∷ cs) = elim (Bool-cases (c == d)) [
    | inl e ↦ rw e (refl, split-IsItem cs)
    | inr e ↦ rw e (extend-IsItem c (split d cs) e (split-IsItem cs))
  ]

  pub split-item : (x rest : Bytes) → IsItem x → split d (x ++ (d ∷ rest)) ≡ x ∷ split d rest
  unfolding split
  split-item [] rest h = ground arith
  split-item (c ∷ x) rest h = ground (arith, split-item x rest)

  -- What was joined splits into the same items.
  pub split-join_with : (xs : List Bytes) → All IsItem xs → split d (join_with d xs) ≡ xs
  unfolding join_with
  split-join_with [] h = unfold split in refl
  split-join_with (x ∷ xs) h =
      split-item x (join_with d xs) h.0 ∙ ap (◌∷◌ x) (split-join_with xs h.1)

  -- What stands behind the joined items is split by itself.
  pub split-join_with-append :
      (xs : List Bytes) (y : Bytes)
      → All IsItem xs
      → split d (join_with d xs ++ y) ≡ xs ++ split d y
  unfolding join_with
  split-join_with-append [] y h = refl
  split-join_with-append (x ∷ xs) y h =
      ap (split d) (append_assoc x (d ∷ join_with d xs) y)
      ∙ split-item x (join_with d xs ++ y) h.0
      ∙ ap (◌∷◌ x) (split-join_with-append xs y h.1)

  -- An item that nothing ends.
  pub split_unended : (c : ℕ) (y : Bytes) → IsItem (c ∷ y) → split d (c ∷ y) ≡ (c ∷ y) ∷ []
  unfolding split
  split_unended c [] h = ground arith
  split_unended c (e ∷ y) h = ground (arith, split_unended e y)

  -- Joining what was split and splitting again changes nothing.
  pub split-join_with-split : (s : Bytes) → split d (join_with d (split d s)) ≡ split d s
  split-join_with-split s = split-join_with (split d s) (split-IsItem s)
