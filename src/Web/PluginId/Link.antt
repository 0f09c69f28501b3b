-- ===== src/Web/PluginId/Link.antt =====
-- The links of the menu, `/?plugin=` and a number, and the requests that they cause.
use tu_thesis.Base.{
  drop_more, ℕ, suc, ◌+◌, ◌<◌, ◌^◌, ◌≡◌, ◌∙◌, ap, refl, true, false, some, [], ◌∷◌, ◌++◌, arith,
  has, length, take,
}
use tu_thesis.Base.Int.{pos}
use tu_thesis.Text.Bytes.{Bytes, bytes}
use tu_thesis.Text.Number.{to_string, stoi}
use tu_thesis.Text.Number.RoundTrip.{to_string-has, stoi-to_string}
use tu_thesis.Text.Search.{find, find_byte, starts_with}
use tu_thesis.Exec.{ok}
use tu_thesis.Web.Parse.Rows.{find_byte-append}
use tu_thesis.Web.PluginId.{plugin_id_of_type, plugin_field, id_at, up_to}

starts_with-append : (ps s : Bytes) → starts_with ps (ps ++ s) ≡ true
starts_with-append [] s = refl
starts_with-append (p ∷ ps) s = ground (arith, starts_with-append ps s)

pub find-append :
    (p : ℕ) (ps xs rest : Bytes)
    → has p xs ≡ false
    → find (p ∷ ps) (xs ++ (p ∷ (ps ++ rest))) ≡ some (length xs)
unfolding find
find-append p ps [] rest h = ground (arith, starts_with-append ps rest)
find-append p ps (x ∷ xs) rest h = ground (arith, find-append p ps xs rest)

take_past : (m : ℕ) (xs ys : Bytes) → take (m + length xs) (xs ++ ys) ≡ xs ++ take m ys
take_past m [] ys = ap (λ k. take k ys) (omega arith)
take_past m (x ∷ xs) ys =
    let e : m + length (x ∷ xs) ≡ suc (m + length xs) = omega arith in
    rw e (ap (◌∷◌ x) (take_past m xs ys))

-- The request line of a link of the menu: a method, the link, a blank and what follows it.
abbrev pub request_line : Bytes → ℕ → Bytes → Bytes
request_line before n rest = before ++ (plugin_field ++ (to_string n ++ (b' ' ∷ rest)))

-- What is taken behind the digits starts with the blank.
blank_first :
    (k : ℕ) (n : ℕ) (rest : Bytes)
    → n < 2 ^ 31
    → stoi (take (suc k + length (to_string n)) (to_string n ++ (b' ' ∷ rest))) ≡ ok (pos n)
blank_first k n rest small =
    rw (take_past (suc k) (to_string n) (b' ' ∷ rest))
      (stoi-to_string n (b' ' ∷ take k rest) small refl)

at_id :
    (before : Bytes) (n : ℕ) (rest : Bytes)
    → n < 2 ^ 31
    → id_at (request_line before n rest) (some (length before)) ≡ ok (pos n)
unfolding bytes
at_id before n rest small =
    let behind = drop_more 7 before (plugin_field ++ (to_string n ++ (b' ' ∷ rest))) in
    let space = find_byte-append b' ' (to_string n) rest (to_string-has b' ' n refl) in
    let start : length before + 7 ≡ suc (length before + 6) = omega arith in
    ap (λ t. stoi (up_to (request_line before n rest) (length before + 7) (find_byte b' ' t)))
      behind
    ∙ ap (λ o. stoi (up_to (request_line before n rest) (length before + 7) o)) space
    ∙ ap (λ t. stoi (take (length before + 7 + length (to_string n)) t)) behind
    ∙ ap (λ k. stoi (take (k + length (to_string n)) (to_string n ++ (b' ' ∷ rest)))) start
    ∙ blank_first (length before + 6) n rest small

-- The number of a plugin that a link of the menu names is the number that the request for the link is
-- answered for, whatever method is used. The number is an `int`, and no 'p' stands before it.
pub plugin_id-link :
    (before : Bytes) (n : ℕ) (rest : Bytes)
    → has b'p' before ≡ false
    → n < 2 ^ 31
    → plugin_id_of_type (request_line before n rest) ≡ ok (pos n)
unfolding plugin_id_of_type bytes
plugin_id-link before n rest clean small =
    rw (find-append b'p' (bytes "lugin=") before (to_string n ++ (b' ' ∷ rest)) clean)
      (at_id before n rest small)
