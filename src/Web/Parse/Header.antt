-- ===== src/Web/Parse/Header.antt =====
-- The header of a request as a text of lines: where it ends, and what it is read as.
use tu_thesis.Base.{
  sym, ℕ, ◌+◌, ◌<◌, ◌≡◌, ◌∙◌, ap, refl, Bool, true, false, none, some, List, [], ◌∷◌, ◌++◌, map,
  append_assoc, arith, All, has, length, length-append, ◌==◌, Option-cases, inl, inr,
}
use tu_thesis.Text.Bytes.{Bytes, bytes}
use tu_thesis.Text.Search.{find, find_byte, starts_with}
use tu_thesis.Text.Stream.Split.{
  split_unended, split-join_with-append, IsItem, split, getlines-eq-split, join_with,
}
use tu_thesis.Text.Stream.{getlines}
use tu_thesis.Web.PluginId.Link.{find-append}
use tu_thesis.Exec.{ok}
use tu_thesis.Map
use tu_thesis.Map.{Map, empty, bytes_key}
use tu_thesis.Web.Socket.{end_of_header}
use tu_thesis.Web.Parse.{parse_header, type_row, header_row, header_rows}
use tu_thesis.Web.Parse.Rows.{insert_all, header_row_value, pop_back-append}

-- A line that is not empty and holds neither CR nor LF.
abbrev pub IsLine : Bytes → Type 0
IsLine x = (has b'\r' x ≡ false) × (has b'\n' x ≡ false) × (0 < length x)

abbrev pub crlf : Bytes → Bytes
crlf x = x ++ (b'\r' ∷ [])

-- The lines, each ended by CR LF.
abbrev pub line_text : List Bytes → Bytes
line_text lines = join_with b'\n' (map crlf lines)

abbrev begins_with_cr : Bytes → Bool
begins_with_cr [] = true
begins_with_cr (c ∷ s) = c == b'\r'

line_begins : (x rest : Bytes) → IsLine x → begins_with_cr (x ++ rest) ≡ false
line_begins [] rest h = absurd (omega (arith, h.2))
line_begins (c ∷ x) rest h = ground (arith, h.0)

find_behind :
    (x rest : Bytes) (k : ℕ)
    → has b'\r' x ≡ false
    → begins_with_cr rest ≡ false
    → find end_of_header rest ≡ some k
    → find end_of_header (x ++ (b'\r' ∷ b'\n' ∷ rest)) ≡ some (length x + (2 + k))
unfolding find
find_behind x [] k clean begins ends = cc
find_behind [] (c ∷ rest) k clean begins ends = ground arith
find_behind (b ∷ x) (c ∷ rest) k clean begins ends = ground (arith, find_behind x (c ∷ rest) k)

line_text-cons :
    (x : Bytes) (lines : List Bytes) (rest : Bytes)
    → line_text (x ∷ lines) ++ rest ≡ x ++ (b'\r' ∷ b'\n' ∷ (line_text lines ++ rest))
unfolding join_with
line_text-cons x lines rest = simp append_assoc

length-line_text :
    (x : Bytes) (lines : List Bytes)
    → length (line_text (x ∷ lines)) ≡ length x + (2 + length (line_text lines))
unfolding join_with
length-line_text x lines =
    omega (arith, length-append (crlf x) (b'\n' ∷ line_text lines), length-append x (b'\r' ∷ []))

lines_begin :
    (lines : List Bytes) (rest : Bytes)
    → All IsLine lines
    → begins_with_cr rest ≡ false
    → begins_with_cr (line_text lines ++ rest) ≡ false
lines_begin [] rest h begins = unfold join_with in begins
lines_begin (x ∷ lines) rest (h, hs) begins = rw (line_text-cons x lines rest) (line_begins x _ h)

split_line : (x : Bytes) → IsLine x → split b'\n' x ≡ x ∷ []
split_line [] h = absurd (omega (arith, h.2))
split_line (c ∷ x) h = split_unended b'\n' c x h.1

crlf-IsItem : (x : Bytes) → has b'\n' x ≡ false → IsItem b'\n' (crlf x)
crlf-IsItem [] h = refl
crlf-IsItem (c ∷ x) h = ground (arith, crlf-IsItem x)

crlf_items : (lines : List Bytes) → All IsLine lines → All (IsItem b'\n') (map crlf lines)
crlf_items [] h = tt
crlf_items (x ∷ lines) (h, hs) = (crlf-IsItem x h.1, crlf_items lines hs)

-- No empty line stands among the lines.
pub find_behind_lines :
    (lines : List Bytes) (rest : Bytes) (k : ℕ)
    → All IsLine lines
    → begins_with_cr rest ≡ false
    → find end_of_header rest ≡ some k
    → find end_of_header (line_text lines ++ rest) ≡ some (length (line_text lines) + k)
find_behind_lines [] rest k h begins ends = unfold join_with in ends ∙ ap some (omega arith)
find_behind_lines (x ∷ lines) rest k (h, hs) begins ends =
    ap (find end_of_header) (line_text-cons x lines rest)
    ∙ find_behind x (line_text lines ++ rest) (length (line_text lines) + k) h.0
        (lines_begin lines rest hs begins) (find_behind_lines lines rest k hs begins ends)
    ∙ ap some (omega (arith, length-line_text x lines))

-- A field of the header, without its end of line.
abbrev pub header_field : Bytes × Bytes → Bytes
header_field (name, value) = name ++ (b':' ∷ b' ' ∷ value)

header_field_row :
    (name value : Bytes) (last : ℕ) (header : Map Bytes Bytes)
    → has b':' name ≡ false
    → header_row (header_field (name, value) ++ (last ∷ [])) header
      ≡ ok (Map.insert name value header)
header_field_row name value last header h =
    ap (λ row. header_row row header) (append_assoc name (b':' ∷ b' ' ∷ value) (last ∷ []))
    ∙ header_row_value name value last header h

find_byte-none : (d : ℕ) (s : Bytes) → has d s ≡ false → find_byte d s ≡ none
unfolding find_byte
find_byte-none d [] h = refl
find_byte-none d (c ∷ s) h = ground (arith, find_byte-none d s)

-- A request line: it has no colon, and it does not begin with HTTP.
abbrev pub IsRequestLine : Bytes → Type 0
IsRequestLine x = IsLine x × (has b':' x ≡ false) × (starts_with (bytes "HTTP") x ≡ false)

type_row_lem :
    (x : Bytes) (header : Map Bytes Bytes)
    → starts_with (bytes "HTTP") x ≡ false
    → type_row (find (bytes "HTTP") x) x header ≡ Map.insert (bytes "Type") x header
unfolding find
type_row_lem [] header h = rw h refl
type_row_lem (c ∷ x) header h = rw h (elim (Option-cases (find (bytes "HTTP") x)) [
  | inl e ↦ rw e refl
  | inr (k, e) ↦ rw e (ground arith)
])

request_line_row :
    (x : Bytes) (header : Map Bytes Bytes)
    → IsRequestLine x
    → header_row (crlf x) header ≡ ok (Map.insert (bytes "Type") x header)
unfolding header_row
request_line_row x header (line, no_colon, no_status) =
    rw (pop_back-append x b'\r')
      (rw (find_byte-none b':' x no_colon) (ap ok (type_row_lem x header no_status)))

header_rows_lem :
    (fields : List (Bytes × Bytes)) (f : Bytes × Bytes) (last : ℕ) (header : Map Bytes Bytes)
    → All (λ g. has b':' g.0 ≡ false) fields
    → has b':' f.0 ≡ false
    → header_rows
        (map crlf (map header_field fields) ++ ((header_field f ++ (last ∷ [])) ∷ []))
        header
      ≡ ok (insert_all (fields ++ (f ∷ [])) header)
unfolding header_rows
header_rows_lem [] f last header hs h = rw (header_field_row f.0 f.1 last header h) refl
header_rows_lem (g ∷ fields) f last header (h', hs) h =
    rw (header_field_row g.0 g.1 b'\r' header h') (header_rows_lem fields f last _ hs h)

-- A header as it is sent. Its last field ends in one byte more, as the end of the header holds the end
-- of its line.
pub record Header : Type 0 where
  pub request_line : Bytes
  pub fields : List (Bytes × Bytes)
  pub last_field : Bytes × Bytes
  pub last_byte : ℕ

abbrev first_lines : Header → List Bytes
first_lines h = h.request_line ∷ map header_field h.fields

abbrev last_line : Header → Bytes
last_line h = header_field h.last_field ++ (h.last_byte ∷ [])

abbrev pub header_text : Header → Bytes
header_text h = line_text (first_lines h) ++ last_line h

-- What `parseHeader` is to make of it: the last byte is gone.
abbrev pub header_map : Header → Map Bytes Bytes
header_map h =
    insert_all (h.fields ++ (h.last_field ∷ [])) (Map.insert (bytes "Type") h.request_line empty)

-- No line is empty, none holds CR or LF, and no name a colon.
pub record CanBeSent (h : Header) : Type 0 where
  pub request_line : IsRequestLine h.request_line
  pub names : All (λ g. has b':' g.0 ≡ false) h.fields
  pub lines : All IsLine (map header_field h.fields)
  pub last_name : has b':' h.last_field.0 ≡ false
  pub last_line : IsLine (last_line h)

module _ (h : Header) (v : CanBeSent h) where
  pub header_text-end :
      (body : Bytes)
      → find end_of_header (header_text h ++ (end_of_header ++ body))
        ≡ some (length (header_text h))
  header_text-end body =
      ap (find end_of_header)
        (append_assoc (line_text (first_lines h)) (last_line h) (end_of_header ++ body))
      ∙ find_behind_lines (first_lines h) (last_line h ++ (end_of_header ++ body))
          (length (last_line h)) (v.request_line.0, v.lines)
          (line_begins (last_line h) (end_of_header ++ body) v.last_line)
          (find-append b'\r' (b'\n' ∷ b'\r' ∷ b'\n' ∷ []) (last_line h) body v.last_line.0)
      ∙ ap some (sym (length-append (line_text (first_lines h)) (last_line h)))

  rows_of_header : getlines b'\n' (header_text h) ≡ map crlf (first_lines h) ++ (last_line h ∷ [])
  rows_of_header =
      getlines-eq-split b'\n' (header_text h)
      ∙ split-join_with-append b'\n' (map crlf (first_lines h)) (last_line h)
          (crlf_items (first_lines h) (v.request_line.0, v.lines))
      ∙ ap (λ rest. map crlf (first_lines h) ++ rest) (split_line (last_line h) v.last_line)

  pub parse_header-header_text : parse_header (header_text h) ≡ ok (header_map h)
  unfolding parse_header header_rows
  parse_header-header_text =
      ap (λ rows. header_rows rows empty) rows_of_header
      ∙ rw (request_line_row h.request_line empty v.request_line)
          (header_rows_lem h.fields h.last_field h.last_byte _ v.names v.last_name)
