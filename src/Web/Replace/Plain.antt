-- ===== src/Web/Replace/Plain.antt =====
-- Replacements without a dollar sign, and texts with one mark.
use tu_thesis.Base.{
  ℕ, zero, suc, ◌+◌, ◌≡◌, ◌∙◌, ap, refl, false, none, some, [], ◌∷◌, ◌++◌, ◌==◌, arith, has, length,
  take, drop, drop_more, take-length-append, length-append, drop-length-append,
}
use tu_thesis.Text.Bytes.{Bytes}
use tu_thesis.Text.Search.{find}
use tu_thesis.Web.PluginId.Link.{find-append}
use tu_thesis.Web.Replace.{Match, plain, format, replace_from, regex_replace}

-- A replacement without a dollar sign stands for itself.
format-plain : (m : Match) (s : Bytes) → has b'$' s ≡ false → format m plain s ≡ s
unfolding format
format-plain m [] h = refl
format-plain m (c ∷ s) h = ground (arith, format-plain m s)

pub find_nothing : (p : ℕ) (ps xs : Bytes) → has p xs ≡ false → find (p ∷ ps) xs ≡ none
unfolding find
find_nothing p ps [] h = refl
find_nothing p ps (x ∷ xs) h = ground (arith, find_nothing p ps xs)

-- Another mark is passed over, if its second byte is another one.
pub find_other_mark :
    (p q r : ℕ) (ps xs rest : Bytes)
    → has p xs ≡ false
    → (q == r) ≡ false
    → has p (r ∷ rest) ≡ false
    → find (p ∷ q ∷ ps) (xs ++ (p ∷ r ∷ rest)) ≡ none
unfolding find
find_other_mark p q r ps [] rest h other clean = ground (arith, find_nothing p (q ∷ ps) (r ∷ rest))
find_other_mark p q r ps (x ∷ xs) rest h other clean =
    ground (arith, find_other_mark p q r ps xs rest)

replace_nothing :
    (fuel : ℕ) (word replacement text : Bytes)
    → find word text ≡ none
    → replace_from fuel word replacement text ≡ text
unfolding replace_from
replace_nothing zero word replacement text h = refl
replace_nothing (suc fuel) word replacement text h = rw (h, replace_from) refl

replace_once :
    (fuel k : ℕ) (word replacement text : Bytes)
    → find word text ≡ some k
    → has b'$' replacement ≡ false
    → find word (drop (k + length word) text) ≡ none
    → replace_from (suc fuel) word replacement text
      ≡ take k text ++ (replacement ++ drop (k + length word) text)
unfolding replace_from
replace_once fuel k word replacement text found plainly once =
    rw (found, replace_from)
      (rw (format-plain _ replacement plainly)
        (rw (replace_nothing fuel word replacement (drop (k + length word) text) once) refl))

behind_mark :
    (word before behind : Bytes)
    → drop (length before + length word) (before ++ (word ++ behind)) ≡ behind
behind_mark word before behind =
    drop_more (length word) before (word ++ behind) ∙ drop-length-append word behind

-- A mark in a text that has no dollar sign before it and does not have the mark again.
pub replace_mark :
    (ps replacement before behind : Bytes)
    → has b'$' before ≡ false
    → has b'$' replacement ≡ false
    → find (b'$' ∷ ps) behind ≡ none
    → regex_replace (before ++ (b'$' ∷ (ps ++ behind))) (b'$' ∷ ps) replacement
      ≡ before ++ (replacement ++ behind)
unfolding regex_replace
replace_mark ps replacement before behind clean plainly once =
    let word = b'$' ∷ ps in
    let text = before ++ (word ++ behind) in
    let all : length text ≡ suc (length before + length (ps ++ behind)) =
      omega (arith, length-append before (word ++ behind)) in
    let rest = behind_mark word before behind in
    ap (λ n. replace_from n word replacement text) all
    ∙ replace_once (length before + length (ps ++ behind)) (length before) word replacement text
        (find-append b'$' ps before behind clean) plainly (ap (find word) rest ∙ once)
    ∙ ap (λ t. take (length before) text ++ (replacement ++ t)) rest
    ∙ ap (λ t. t ++ (replacement ++ behind)) (take-length-append before (word ++ behind))
