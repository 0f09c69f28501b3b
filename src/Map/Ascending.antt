-- ===== src/Map/Ascending.antt =====
-- Maps whose entries stand in the order of their keys.
use tu_thesis.Base.{
  All-zip, All-at, ◌≡◌, ◌∙◌, refl, ap, false, some, List, [], ◌∷◌, ◌++◌, append_assoc, append-nil,
  All,
}
use tu_thesis.Map
use tu_thesis.Map.{Key, Map, empty, find_entry, put_entry, beq_refl}

module _ {ℓ κ} {A : Type ℓ} {K : Type κ} ⦃key : Key K⦄ (name : A → K) where
  -- The name of `b` stands behind that of `a`.
  abbrev pub Behind : A → A → Type 0
  Behind a b = (key.beq (name a) (name b) ≡ false) × (key.lt (name b) (name a) ≡ false)

  -- Each name stands behind those before it.
  abbrev pub IsAscending : List A → Type 0
  IsAscending [] = Unit
  IsAscending (a ∷ items) = All (Behind a) items × IsAscending items

module _ {ℓ κ μ} {A : Type ℓ} {K : Type κ} {V : Type μ} (name : A → K) (value : A → V) where
  abbrev pub entries_of : List A → List (K × V)
  entries_of [] = []
  entries_of (a ∷ items) = (name a, value a) ∷ entries_of items

module _ {ℓ κ μ} {A : Type ℓ} {K : Type κ} {V : Type μ} ⦃key : Key K⦄ (name : A → K)
    (value : A → V) where
  abbrev pub insert_all : List A → Map K V → Map K V
  insert_all [] m = m
  insert_all (a ∷ items) m = insert_all items (Map.insert (name a) (value a) m)

  put_entry_last :
      (before : List A) (a : A) (items : List A)
      → IsAscending name (before ++ (a ∷ items))
      → put_entry (name a) (value a) (entries_of name value before)
        ≡ entries_of name value (before ++ (a ∷ []))
  unfolding put_entry
  put_entry_last [] a items h = refl
  put_entry_last (b ∷ before) a items (all, h) =
      let (other, behind) = All-at (Behind name b) before a items all in
      rw (other, behind) (ap (◌∷◌ (name b, value b)) (put_entry_last before a items h))

  pub insert_all-append :
      (before items : List A)
      → IsAscending name (before ++ items)
      → insert_all items (record { entries = entries_of name value before })
        ≡ record { entries = entries_of name value (before ++ items) }
  unfolding Map.insert
  insert_all-append before [] h = rw append-nil refl
  insert_all-append before (a ∷ items) h = rw (put_entry_last before a items h) (
      insert_all-append (before ++ (a ∷ [])) items (rw (append_assoc before (a ∷ []) items) h)
      ∙ ap (λ l. record { entries = entries_of name value l }) (append_assoc before (a ∷ []) items))

  pub find_entries :
      (items : List A)
      → IsAscending name items
      → All (λ a. find_entry (name a) (entries_of name value items) ≡ some (value a)) items
  unfolding find_entry
  find_entries [] h = tt
  find_entries (a ∷ items) (all, h) = (
    rw (beq_refl (name a)) refl,
    All-zip (λ b behind found. rw behind.0 found) items all (find_entries items h),
  )

pub entries_of_equal {ℓ κ μ} :
    {A : Type ℓ} {K : Type κ} {V : Type μ} (name : A → K) (f g : A → V) (items : List A)
    → All (λ a. f a ≡ g a) items
    → entries_of name f items ≡ entries_of name g items
entries_of_equal name f g [] h = refl
entries_of_equal name f g (a ∷ items) (e, h) =
    ap (λ v. (name a, v) ∷ entries_of name f items) e
    ∙ ap (◌∷◌ (name a, g a)) (entries_of_equal name f g items h)
