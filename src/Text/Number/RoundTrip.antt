-- ===== src/Text/Number/RoundTrip.antt =====
-- `stoi` reads back what `to_string` wrote.
use tu_thesis.Base.{
  has, append-nil, sym, ℕ, zero, suc, ◌+◌, ◌-◌, ◌*◌, ◌/◌, ◌%◌, ◌^◌, ◌≤◌, ◌<◌, ◌≡◌, refl, ap, ◌∙◌,
  true, false, [], ◌∷◌, ◌++◌, ◌==◌, arith, Bool-cases, inl, inr,
}
use tu_thesis.Base.Int.{pos}
use tu_thesis.Text.Bytes.{Bytes}
use tu_thesis.Exec.{ok}
use tu_thesis.Text.Number.{
  is_digit, digits_onto, to_string, scan, digit_first, magnitude, signed, stoi,
}

digits_onto-append :
    (fuel n : ℕ) (tail rest : Bytes)
    → digits_onto fuel n tail ++ rest ≡ digits_onto fuel n (tail ++ rest)
unfolding digits_onto
digits_onto-append zero n tail rest = refl
digits_onto-append (suc fuel) n tail rest =
    ground (arith, digits_onto-append fuel (n / 10) ((b'0' + n % 10) ∷ tail) rest)

scan-digit : (n d : ℕ) (tail : Bytes) → d < 10 → scan n ((b'0' + d) ∷ tail) ≡ scan (n * 10 + d) tail
unfolding scan
scan-digit n d tail h = let e : (b'0' + d) - b'0' ≡ d = omega arith in rw e (ground arith)

scan-digits_onto :
    (fuel n : ℕ) (tail : Bytes) → n ≤ fuel → scan 0 (digits_onto fuel n tail) ≡ scan n tail
unfolding digits_onto
scan-digits_onto zero n tail h = ap (λ m. scan m tail) (omega arith)
scan-digits_onto (suc fuel) n tail h = elim (Bool-cases (n == 0)) [
  | inl e ↦ rw e (ap (λ m. scan m tail) (ground arith))
  | inr e ↦ rw e (
      scan-digits_onto fuel (n / 10) ((b'0' + n % 10) ∷ tail) (ground arith)
      ∙ scan-digit (n / 10) (n % 10) tail (omega arith)
      ∙ ap (λ m. scan m tail) (omega arith))
]

digits_onto-digit_first :
    (fuel n : ℕ) (tail : Bytes)
    → digit_first tail ≡ true
    → digit_first (digits_onto fuel n tail) ≡ true
unfolding digits_onto
digits_onto-digit_first zero n tail h = h
digits_onto-digit_first (suc fuel) n tail h = elim (Bool-cases (n == 0)) [
  | inl e ↦ rw e h
  | inr e ↦ rw e (digits_onto-digit_first fuel (n / 10) _ (ground arith))
]

digits_onto_pos :
    (fuel n : ℕ) → 0 < n → n ≤ fuel → (tail : Bytes) → digit_first (digits_onto fuel n tail) ≡ true
unfolding digits_onto
digits_onto_pos zero n p h tail = absurd (omega arith)
digits_onto_pos (suc fuel) n p h tail =
    ground (arith, digits_onto-digit_first fuel (n / 10) ((b'0' + n % 10) ∷ tail))

scan_stop : (n : ℕ) (rest : Bytes) → digit_first rest ≡ false → scan n rest ≡ n
unfolding scan
scan_stop n [] h = refl
scan_stop n (c ∷ rest) h = ground arith

-- The digits of a number read back as the number.
pub scan-to_string :
    (n : ℕ) (rest : Bytes) → digit_first rest ≡ false → scan 0 (to_string n ++ rest) ≡ n
unfolding to_string
scan-to_string n rest h = elim (Bool-cases (n == 0)) [
  | inl e ↦ rw e (unfold scan in ground (arith, scan_stop 0 rest h))
  | inr e ↦ rw (e, digits_onto-append, scan-digits_onto n n rest (omega arith)) (scan_stop n rest h)
]

pub to_string-digit_first : (n : ℕ) (rest : Bytes) → digit_first (to_string n ++ rest) ≡ true
unfolding to_string
to_string-digit_first n rest = elim (Bool-cases (n == 0)) [
  | inl e ↦ rw e
  | inr e ↦ rw (e, digits_onto-append) (digits_onto_pos n n (ground arith) (omega arith) rest)
]

stoi-digits : (s : Bytes) → digit_first s ≡ true → stoi s ≡ magnitude false s
unfolding stoi signed
stoi-digits [] h = cc
stoi-digits (c ∷ cs) h = ground arith

-- What follows the digits is not read.
pub stoi-to_string :
    (n : ℕ) (rest : Bytes)
    → n < 2 ^ 31
    → digit_first rest ≡ false
    → stoi (to_string n ++ rest) ≡ ok (pos n)
unfolding magnitude
stoi-to_string n rest small h =
    stoi-digits _ (to_string-digit_first n rest)
    ∙ rw (to_string-digit_first n rest, scan-to_string n rest h) (ground arith)

-- The text of a number alone.
pub stoi-number : (m : ℕ) → m < 2 ^ 31 → stoi (to_string m) ≡ ok (pos m)
stoi-number m small = ap stoi (sym (append-nil (to_string m))) ∙ stoi-to_string m [] small refl

digits_onto-has :
    (d fuel n : ℕ) (tail : Bytes)
    → is_digit d ≡ false
    → has d tail ≡ false
    → has d (digits_onto fuel n tail) ≡ false
unfolding digits_onto
digits_onto-has d zero n tail other h = h
digits_onto-has d (suc fuel) n tail other h =
    ground (arith, digits_onto-has d fuel (n / 10) ((b'0' + n % 10) ∷ tail))

-- A number is written with nothing but digits.
pub to_string-has : (d n : ℕ) → is_digit d ≡ false → has d (to_string n) ≡ false
unfolding to_string
to_string-has d n other = ground (arith, digits_onto-has d n n [])
