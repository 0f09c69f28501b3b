-- ===== src/Web/Parse/Rows.antt =====
-- What the rows of a request are read as.
use tu_thesis.Base.{
  drop_more, sym, append_assoc, length-append, ◌≤◌, ◌<◌, ℕ, ◌+◌, ◌≡◌, ◌∙◌, ap, refl, false, some,
  List, [], ◌∷◌, ◌++◌, map, arith, has, length, drop, take-length-append, All,
}
use tu_thesis.Text.Bytes.{Bytes, bytes}
use tu_thesis.Text.Stream.Split.{join_with, IsItem, getlines-eq-split, split-join_with}
use tu_thesis.Text.Search.{find_byte, substr}
use tu_thesis.Exec.{ok, throw, out_of_range}
use tu_thesis.Map
use tu_thesis.Map.{Map, empty, bytes_key}
use tu_thesis.Web.Parse.{pop_back, header_row, data_row, data_rows, parse_data}

pub pop_back-append : (xs : Bytes) (c : ℕ) → pop_back (xs ++ (c ∷ [])) ≡ ok xs
unfolding pop_back
pop_back-append [] c = refl
pop_back-append (x ∷ []) c = refl
pop_back-append (x ∷ y ∷ xs) c = rw (pop_back-append (y ∷ xs) c)

pub find_byte-append :
    (d : ℕ) (xs rest : Bytes) → has d xs ≡ false → find_byte d (xs ++ (d ∷ rest)) ≡ some (length xs)
unfolding find_byte
find_byte-append d [] rest h = ground arith
find_byte-append d (x ∷ xs) rest h = ground (arith, find_byte-append d xs rest)

-- A field of a form of type text/plain, as it is sent.
abbrev pub field_line : Bytes × Bytes → Bytes
field_line (name, value) = name ++ (b'=' ∷ (value ++ (b'\r' ∷ [])))

pop_back_around :
    (xs : Bytes) (y : ℕ) (ys : Bytes) (c : ℕ)
    → pop_back (xs ++ (y ∷ (ys ++ (c ∷ [])))) ≡ ok (xs ++ (y ∷ ys))
pop_back_around xs y ys c =
    ap pop_back (sym (append_assoc xs (y ∷ ys) (c ∷ []))) ∙ pop_back-append (xs ++ (y ∷ ys)) c

data_row_lem :
    (name value : Bytes) (fields : Map Bytes Bytes)
    → has b'=' name ≡ false
    → data_row (field_line (name, value)) fields ≡ ok (Map.insert name value fields)
unfolding data_row
data_row_lem name value fields h = rw (pop_back_around name b'=' value b'\r') (
    rw (find_byte-append b'=' name value h)
      (rw (take-length-append name (b'=' ∷ value), drop_more 1 name (b'=' ∷ value))))

-- The fields of a form, one after the other; a field that comes twice keeps its last value.
abbrev pub insert_all : List (Bytes × Bytes) → Map Bytes Bytes → Map Bytes Bytes
insert_all [] fields = fields
insert_all ((name, value) ∷ form) fields = insert_all form (Map.insert name value fields)

-- A name and a value that a form can send: no '=' in the name, no end of line in either.
abbrev pub IsField : Bytes × Bytes → Type 0
IsField f = (has b'=' f.0 ≡ false) × IsItem b'\n' (field_line f)

data_rows_lem :
    (form : List (Bytes × Bytes)) (fields : Map Bytes Bytes)
    → All IsField form
    → data_rows (map field_line form) fields ≡ ok (insert_all form fields)
unfolding data_rows
data_rows_lem [] fields h = refl
data_rows_lem ((name, value) ∷ form) fields (h, hs) =
    rw (data_row_lem name value fields h.0) (data_rows_lem form _ hs)

lines_are_items :
    (form : List (Bytes × Bytes)) → All IsField form → All (IsItem b'\n') (map field_line form)
lines_are_items [] h = tt
lines_are_items (f ∷ form) (h, hs) = (h.1, lines_are_items form hs)

-- The data of a form of type text/plain, each field on a line of its own that ends in CR LF, is read
-- as the fields of the form, if no name holds an equals sign and no field an end of line.
pub parse_data_form :
    (form : List (Bytes × Bytes))
    → All IsField form
    → parse_data (join_with b'\n' (map field_line form)) ≡ ok (insert_all form empty)
unfolding parse_data
parse_data_form form h =
    rw
      (
        getlines-eq-split b'\n' (join_with b'\n' (map field_line form)),
        split-join_with b'\n' (map field_line form) (lines_are_items form h),
      )
      (data_rows_lem form empty h)

substr_in :
    (text : Bytes) (start : ℕ) → start ≤ length text → substr text start ≡ ok (drop start text)
unfolding substr
substr_in text start h = ground arith

substr_out :
    (text : Bytes) (start : ℕ)
    → length text < start
    → substr text start ≡ throw (out_of_range (bytes "basic_string::substr"))
unfolding substr
substr_out text start h = ground arith

-- A row of the header, a name without a colon, a colon, a blank and the value, and one more byte,
-- whichever it is: the value is stored under the name, and the last byte is dropped.
pub header_row_value :
    (name value : Bytes) (last : ℕ) (header : Map Bytes Bytes)
    → has b':' name ≡ false
    → header_row (name ++ (b':' ∷ b' ' ∷ (value ++ (last ∷ [])))) header
      ≡ ok (Map.insert name value header)
unfolding header_row
header_row_value name value last header h = rw (pop_back_around name b':' (b' ' ∷ value) last) (
    rw (find_byte-append b':' name (b' ' ∷ value) h) (
      rw
        (substr_in (name ++ (b':' ∷ b' ' ∷ value)) (length name + 2)
          (omega (arith, length-append name (b':' ∷ b' ' ∷ value))))
        (rw
          (take-length-append name (b':' ∷ b' ' ∷ value), drop_more 2 name (b':' ∷ b' ' ∷ value)))))

-- A row that has one byte, whichever it is, behind its first colon throws out_of_range.
pub header_row_no_value :
    (name : Bytes) (last : ℕ) (header : Map Bytes Bytes)
    → has b':' name ≡ false
    → header_row (name ++ (b':' ∷ last ∷ [])) header
      ≡ throw (out_of_range (bytes "basic_string::substr"))
unfolding header_row
header_row_no_value name last header h = rw (pop_back_around name b':' [] last) (
    rw (find_byte-append b':' name [] h) (
      rw (
        substr_out (name ++ (b':' ∷ [])) (length name + 2)
          (omega (arith, length-append name (b':' ∷ []))))))
