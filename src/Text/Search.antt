-- ===== src/Text/Search.antt =====
-- `std::string::find` and `std::string::substr`.
use tu_thesis.Base.{
  ℕ, suc, Bool, true, false, ◌&&◌, Option, none, some, [], ◌∷◌, ltb, ◌==◌, if◌then◌else◌, length,
  drop,
}
use mathlib.Core.Option
use tu_thesis.Text.Bytes.{Bytes, bytes}
use tu_thesis.Exec.{Outcome, ok, throw, out_of_range}

abbrev pub starts_with : Bytes → Bytes → Bool
starts_with [] s = true
starts_with (p ∷ ps) [] = false
starts_with (p ∷ ps) (c ∷ s) = p == c && starts_with ps s

-- `text.find(pattern)`: the first position at which the pattern stands; `none` is `npos`.
unfoldable pub find : Bytes → Bytes → Option ℕ
find pattern [] = if starts_with pattern [] then some 0 else none
find pattern (c ∷ text) =
    let rest = find pattern text in
    if starts_with pattern (c ∷ text) then some 0 else Option.map suc rest

-- `text.find(c, start)` for a character
unfoldable pub find_byte : ℕ → Bytes → Option ℕ
find_byte d [] = none
find_byte d (c ∷ text) =
    let rest = find_byte d text in if c == d then some 0 else Option.map suc rest

-- `text.substr(start)`
unfoldable pub substr : Bytes → ℕ → Outcome Bytes
substr text start =
    if ltb (length text) start
    then throw (out_of_range (bytes "basic_string::substr"))
    else ok (drop start text)
