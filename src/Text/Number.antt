-- ===== src/Text/Number.antt =====
-- `std::to_string` and `std::stoi`.
pub mod RoundTrip
use tu_thesis.Base.{
  ℕ, zero, suc, ◌+◌, ◌-◌, ◌*◌, ◌/◌, ◌%◌, ◌^◌, Bool, true, false, ◌&&◌, ◌||◌, List, [], ◌∷◌, ltb,
  leb, ◌==◌, if◌then◌else◌,
}
use tu_thesis.Base.Int.{ℤ, pos, negsuc}
use tu_thesis.Text.Bytes.{Bytes, bytes}
use tu_thesis.Exec.{Outcome, ok, throw, out_of_range, invalid_argument}

-- The digits of `n` in front of `tail`, none for 0. Each round divides `n` by ten, so the number
-- itself is enough fuel.
unfoldable pub digits_onto : ℕ → ℕ → Bytes → Bytes
digits_onto zero n tail = tail
digits_onto (suc fuel) n tail =
    let rest = digits_onto fuel (n / 10) ((b'0' + n % 10) ∷ tail) in if n == 0 then tail else rest

-- `std::to_string` of an unsigned number.
unfoldable pub to_string : ℕ → Bytes
unfolding digits_onto
to_string n = if n == 0 then b'0' ∷ [] else digits_onto n n []

-- `std::to_string` of an `int`.
unfoldable pub int_to_string : ℤ → Bytes
unfolding to_string
int_to_string (pos n) = to_string n
int_to_string (negsuc n) = b'-' ∷ to_string (suc n)

abbrev pub is_digit : ℕ → Bool
is_digit c = leb b'0' c && leb c b'9'

-- `isspace`: blank, \t, \n, \v, \f, \r.
abbrev pub is_space : ℕ → Bool
is_space c = c == b' ' || leb 9 c && leb c 13

-- The number that the leading digits write, behind `n`.
unfoldable pub scan : ℕ → Bytes → ℕ
scan n [] = n
scan n (c ∷ cs) = let rest = scan (n * 10 + (c - b'0')) cs in if is_digit c then rest else n

abbrev pub digit_first : Bytes → Bool
digit_first [] = false
digit_first (c ∷ _) = is_digit c

-- Behind the sign. An `int` has 32 bits.
unfoldable pub magnitude : Bool → Bytes → Outcome ℤ
unfolding scan
magnitude minus s =
    let n = scan 0 s in
    if digit_first s
    then if minus
      then if ltb (2 ^ 31) n
        then throw (out_of_range (bytes "stoi"))
        else if n == 0
        then ok (pos 0)
        else ok (negsuc (n - 1))
      else if ltb n (2 ^ 31)
      then ok (pos n)
      else throw (out_of_range (bytes "stoi"))
    else throw (invalid_argument (bytes "stoi"))

unfoldable pub signed : Bytes → Outcome ℤ
unfolding magnitude
signed [] = throw (invalid_argument (bytes "stoi"))
signed (c ∷ cs) =
    if c == b'-'
    then magnitude true cs
    else if c == b'+'
    then magnitude false cs
    else magnitude false (c ∷ cs)

-- `std::stoi`: leading white space is skipped, what follows the digits is not read.
unfoldable pub stoi : Bytes → Outcome ℤ
unfolding signed
stoi [] = throw (invalid_argument (bytes "stoi"))
stoi (c ∷ cs) = let rest = stoi cs in if is_space c then rest else signed (c ∷ cs)
