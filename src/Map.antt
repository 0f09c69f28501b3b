-- ===== src/Map.antt =====
-- `std::map`: an association list in key order. A key is looked up by its first entry.
pub mod Ascending
use tu_thesis.Base.Int.{lt_int, same_int_iff, same_int, ℤ}
use tu_thesis.Base.{
  ℕ, ◌≡◌, ◌↔◌, refl, Bool, true, Option, none, some, List, [], ◌∷◌, arith, ltb, ◌==◌, ==_iff,
  if◌then◌else◌,
}
use tu_thesis.Text.Bytes.{Bytes, same, before, same_iff}

-- A key type: its equality, and its order.
pub record Key {ℓ} (K : Type ℓ) : Type ℓ where
  pub beq : K → K → Bool
  pub beq_iff : (a b : K) → (beq a b ≡ true) ↔ (a ≡ b)
  pub lt : K → K → Bool

instance abbrev pub nat_key : Key ℕ
nat_key = record { beq = ◌==◌; beq_iff = ==_iff; lt = ltb }

instance abbrev pub bytes_key : Key Bytes
bytes_key = record { beq = same; beq_iff = same_iff; lt = before }

instance abbrev pub int_key : Key ℤ
int_key = record { beq = same_int; beq_iff = same_int_iff; lt = lt_int }

pub record Map {ℓ κ} (K : Type ℓ) (V : Type κ) : Type (ℓ ⊔ κ) where
  pub entries : List (K × V)

pub beq_refl {ℓ} : {K : Type ℓ} ⦃key : Key K⦄ (k : K) → key.beq k k ≡ true
beq_refl ⦃key⦄ k = (key.beq_iff k k).1 refl

abbrev pub empty {ℓ κ} : {K : Type ℓ} {V : Type κ} → Map K V
empty = record { entries = [] }

-- `m[k]` of a map of texts, where the element is only read: empty if the key is missing.
abbrev pub value_or_empty : Option Bytes → Bytes
value_or_empty none = []
value_or_empty (some value) = value

module _ {ℓ κ} {K : Type ℓ} {V : Type κ} ⦃key : Key K⦄ where
  unfoldable pub find_entry : K → List (K × V) → Option V
  find_entry k [] = none
  find_entry k ((j, v) ∷ m) = if key.beq j k then some v else find_entry k m

  unfoldable pub put_entry : K → V → List (K × V) → List (K × V)
  put_entry k v [] = (k, v) ∷ []
  put_entry k v ((j, w) ∷ m) =
      let rest = put_entry k v m in
      if key.beq j k
      then (k, v) ∷ m
      else if key.lt k j
      then (k, v) ∷ ((j, w) ∷ m)
      else (j, w) ∷ rest

  unfoldable pub without_entry : K → List (K × V) → List (K × V)
  without_entry k [] = []
  without_entry k ((j, w) ∷ m) =
      let rest = without_entry k m in if key.beq j k then rest else (j, w) ∷ rest

  -- `m.at(k)` finds the value, or throws.
  unfoldable pub lookup : K → Map K V → Option V
  unfolding find_entry
  lookup k m = find_entry k m.entries

  -- `m[k] = v`
  unfoldable pub insert : K → V → Map K V → Map K V
  unfolding put_entry
  insert k v m = record { entries = put_entry k v m.entries }

  -- `m.erase(k)`
  unfoldable pub erase : K → Map K V → Map K V
  unfolding without_entry
  erase k m = record { entries = without_entry k m.entries }

  find_entry-put_entry :
      (k j : K) (v : V) (m : List (K × V))
      → find_entry j (put_entry k v m) ≡ (if key.beq k j then some v else find_entry j m)
  unfolding find_entry put_entry
  find_entry-put_entry k j v [] = refl
  find_entry-put_entry k j v ((i, w) ∷ m) =
      ground
        (arith, key.beq_iff k j, key.beq_iff i k, key.beq_iff i j, find_entry-put_entry k j v m)

  find_entry-without_entry :
      (k j : K) (m : List (K × V))
      → find_entry j (without_entry k m) ≡ (if key.beq k j then none else find_entry j m)
  unfolding find_entry without_entry
  find_entry-without_entry k j [] = ground arith
  find_entry-without_entry k j ((i, w) ∷ m) =
      ground
        (arith, key.beq_iff k j, key.beq_iff i k, key.beq_iff i j, find_entry-without_entry k j m)

  pub lookup-insert :
      (k j : K) (v : V) (m : Map K V)
      → lookup j (insert k v m) ≡ (if key.beq k j then some v else lookup j m)
  unfolding lookup insert
  lookup-insert k j v m = find_entry-put_entry k j v m.entries

  pub lookup-erase :
      (k j : K) (m : Map K V) → lookup j (erase k m) ≡ (if key.beq k j then none else lookup j m)
  unfolding lookup erase
  lookup-erase k j m = find_entry-without_entry k j m.entries

  pub lookup-insert_self : (k : K) (v : V) (m : Map K V) → lookup k (insert k v m) ≡ some v
  lookup-insert_self k v m = rw (lookup-insert, beq_refl)

pub ruleset map_laws = (lookup-insert, lookup-erase, lookup-insert_self)
