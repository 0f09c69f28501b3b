-- ===== src/Web/Replace/Enough.antt =====
-- WebPluginConfigurator.cpp, its calls of `std::regex_replace`: the length of the text is enough fuel.
use tu_thesis.Base.{
  ℕ, zero, suc, ◌+◌, ◌≤◌, ◌≡◌, ◌∙◌, ap, refl, sym, true, Bool-cases, Option, none, some,
  Option-cases, inl, inr, [], ◌∷◌, ◌++◌, arith, length, take, drop,
}
use mathlib.Core.Option
use mathlib.Core.Option.{some_inj}
use tu_thesis.Text.Bytes.{Bytes}
use tu_thesis.Text.Search.{find, starts_with}
use tu_thesis.Web.Replace.{plain, format, replace_from, regex_replace}

starts_with-length : (p s : Bytes) → starts_with p s ≡ true → length p ≤ length s
starts_with-length [] s h = omega arith
starts_with-length (x ∷ p) [] h = cc
starts_with-length (x ∷ p) (c ∷ s) h = ground (arith, starts_with-length p s)

found_behind :
    (o : Option ℕ) (k : ℕ) → Option.map suc o ≡ some k → (j : ℕ) × (o ≡ some j) × (k ≡ suc j)
found_behind none k h = cc
found_behind (some j) k h = (j, refl, grind (arith, h))

find-bound : (word text : Bytes) (k : ℕ) → find word text ≡ some k → k + length word ≤ length text
unfolding find
find-bound word [] k h = ground (arith, starts_with-length word [])
find-bound word (c ∷ text) k h = elim (Bool-cases (starts_with word (c ∷ text))) [
  | inl here ↦
      let first : 0 ≡ k = some_inj.0 (sym (rw here refl) ∙ h) in
      omega (arith, first, starts_with-length word (c ∷ text) here)
  | inr there ↦
      let (j, later, next) = found_behind (find word text) k (sym (rw there refl) ∙ h) in
      omega (arith, next, find-bound word text j later)
]

length-drop : (k : ℕ) (s : Bytes) → k ≤ length s → length (drop k s) + k ≡ length s
length-drop zero s h = omega arith
length-drop (suc k) [] h = absurd (omega arith)
length-drop (suc k) (x ∷ s) h = omega (arith, length-drop k s (omega arith))

-- Any two amounts of fuel that are not below the length of the text give the same.
replace_from-eq :
    (n m : ℕ) (p : ℕ) (ps replacement text : Bytes)
    → length text ≤ n
    → length text ≤ m
    → replace_from n (p ∷ ps) replacement text ≡ replace_from m (p ∷ ps) replacement text
unfolding replace_from find
replace_from-eq zero zero p ps replacement text hn hm = refl
replace_from-eq zero (suc m) p ps replacement [] hn hm = refl
replace_from-eq zero (suc m) p ps replacement (c ∷ text) hn hm = absurd (omega arith)
replace_from-eq (suc n) zero p ps replacement [] hn hm = refl
replace_from-eq (suc n) zero p ps replacement (c ∷ text) hn hm = absurd (omega arith)
replace_from-eq (suc n) (suc m) p ps replacement text hn hm =
    elim (Option-cases (find (p ∷ ps) text)) [
      | inl e ↦ rw (e, replace_from) refl
      | inr (k, e) ↦
          let behind = drop (k + length (p ∷ ps)) text in
          let fits = find-bound (p ∷ ps) text k e in
          let rest = length-drop (k + length (p ∷ ps)) text fits in
          rw (e, replace_from)
            (ap
              (λ t.
                take k text
                ++ (format (record { prefix = take k text; matched = p ∷ ps; suffix = behind })
                      plain replacement
                    ++ t))
              (replace_from-eq n m p ps replacement behind (omega (arith, rest))
                (omega (arith, rest))))
    ]

-- For a word that is not empty, more fuel than the length of the text changes nothing.
pub replace_from-enough :
    (n p : ℕ) (ps replacement text : Bytes)
    → length text ≤ n
    → replace_from n (p ∷ ps) replacement text ≡ regex_replace text (p ∷ ps) replacement
unfolding regex_replace
replace_from-enough n p ps replacement text h =
    replace_from-eq n (length text) p ps replacement text h (omega arith)
