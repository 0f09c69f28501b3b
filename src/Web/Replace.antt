-- ===== src/Web/Replace.antt =====
-- `std::regex_replace` of a word that stands for itself, as the page's marks are replaced.
pub mod Plain
pub mod Enough
use tu_thesis.Base.{
  ℕ, zero, suc, ◌+◌, ◌-◌, ◌*◌, none, some, [], ◌∷◌, ◌++◌, ◌==◌, if◌then◌else◌, length, take, drop,
}
use tu_thesis.Text.Bytes.{Bytes}
use tu_thesis.Text.Number.{is_digit}
use tu_thesis.Text.Search.{find}

-- A match: the text since the end of the match before, the match, and the text behind it.
pub record Match : Type 0 where
  pub prefix : Bytes
  pub matched : Bytes
  pub suffix : Bytes

-- What has been read of the replacement: nothing that is open, a dollar sign, a dollar sign and a digit.
pub data Format : Type 0 where
  plain : Format
  dollar : Format
  digit : ℕ → Format

-- `$n`: the groups are the match itself, with the number 0.
abbrev group : Match → ℕ → Bytes
group m zero = m.matched
group m (suc n) = []

-- The replacement, in which `$$`, `$&`, `` $` ``, `$'` and `$n` have a meaning of their own.
unfoldable pub format : Match → Format → Bytes → Bytes
format m plain [] = []
format m dollar [] = b'$' ∷ []
format m (digit n) [] = group m n
format m plain (c ∷ s) =
    let after_dollar = format m dollar s in
    let rest = format m plain s in if c == b'$' then after_dollar else c ∷ rest
format m dollar (c ∷ s) =
    let rest = format m plain s in
    let after_digit = format m (digit (c - b'0')) s in
    if c == b'$'
    then b'$' ∷ rest
    else if c == b'&'
    then m.matched ++ rest
    else if c == b'`'
    then m.prefix ++ rest
    else if c == b'\''
    then m.suffix ++ rest
    else if is_digit c
    then after_digit
    else b'$' ∷ (c ∷ rest)
format m (digit n) (c ∷ s) =
    let rest = format m plain s in
    let after_dollar = format m dollar s in
    if is_digit c
    then group m (n * 10 + (c - b'0')) ++ rest
    else group m n ++ (if c == b'$' then after_dollar else c ∷ rest)

-- The matches from left to right, with fuel: each takes the word from the text, so the length of the
-- text suffices.
unfoldable pub replace_from : ℕ → Bytes → Bytes → Bytes → Bytes
unfolding find format
replace_from zero word replacement text = text
replace_from (suc fuel) word replacement text = elim (find word text) [
  | none ↦ text
  | some k ↦
      let behind = drop (k + length word) text in
      let m : Match = record { prefix = take k text; matched = word; suffix = behind } in
      take k text ++ (format m plain replacement ++ replace_from fuel word replacement behind)
]

-- `std::regex_replace(text, std::regex(word), replacement)`
unfoldable pub regex_replace : Bytes → Bytes → Bytes → Bytes
unfolding replace_from
regex_replace text word replacement = replace_from (length text) word replacement text
