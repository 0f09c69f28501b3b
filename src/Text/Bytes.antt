-- ===== src/Text/Bytes.antt =====
-- `std::string` as a list of bytes.
use Prim.Native.Char.{code}
use tu_thesis.Base.{
  ℕ, ◌≡◌, ◌↔◌, refl, subst, Bool, true, false, ◌&&◌, List, [], ◌∷◌, String, arith, ltb, ◌==◌,
  if◌then◌else◌,
}

abbrev pub Bytes : Type 0
Bytes = List ℕ

-- A literal. It is shut, so that a proof carries the literal and not its bytes.
unfoldable pub bytes : String → Bytes
bytes String.[] = []
bytes (String.◌∷◌ c s) = code c ∷ bytes s

-- `==` of two strings.
unfoldable pub same : Bytes → Bytes → Bool
same [] [] = true
same [] (_ ∷ _) = false
same (_ ∷ _) [] = false
same (x ∷ xs) (y ∷ ys) = x == y && same xs ys

-- `<` of two strings, the order of the keys of a `std::map`.
unfoldable pub before : Bytes → Bytes → Bool
before [] [] = false
before [] (_ ∷ _) = true
before (_ ∷ _) [] = false
before (x ∷ xs) (y ∷ ys) = let rest = before xs ys in if ltb x y then true else x == y && rest

pub same_refl : (xs : Bytes) → same xs xs ≡ true
unfolding same
same_refl [] = refl
same_refl (x ∷ xs) = ground (arith, same_refl xs)

pub eq_of_same : (xs ys : Bytes) → same xs ys ≡ true → xs ≡ ys
unfolding same
eq_of_same [] [] h = refl
eq_of_same [] (y ∷ ys) h = cc
eq_of_same (x ∷ xs) [] h = cc
eq_of_same (x ∷ xs) (y ∷ ys) h = ground (arith, eq_of_same xs ys)

pub same_iff : (xs ys : Bytes) → (same xs ys ≡ true) ↔ (xs ≡ ys)
same_iff xs ys = (eq_of_same xs ys, λ e. subst (λ t. same xs t ≡ true) e (same_refl xs))
