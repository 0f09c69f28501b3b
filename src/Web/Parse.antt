-- ===== src/Web/Parse.antt =====
-- `parseHeader` and `parseData`.
pub mod Rows
pub mod Header
use tu_thesis.Base.{ℕ, ◌+◌, Option, none, some, List, [], ◌∷◌, ◌==◌, take, drop, if◌then◌else◌}
use tu_thesis.Text.Bytes.{Bytes, bytes}
use tu_thesis.Text.Stream.{getlines}
use tu_thesis.Text.Search.{find, find_byte, substr}
use tu_thesis.Exec.{Outcome, ok, undefined, and_then}
use tu_thesis.Map
use tu_thesis.Map.{Map, empty, bytes_key}

-- `row.pop_back()`; undefined on an empty row.
unfoldable pub pop_back : Bytes → Outcome Bytes
pop_back [] = undefined
pop_back (c ∷ []) = ok []
pop_back (c ∷ d ∷ cs) = and_then (pop_back (d ∷ cs)) (λ rest. ok (c ∷ rest))

-- `if(row.find("HTTP"))`: the position is read as a truth value, so only a row that begins with
-- HTTP fails the test.
abbrev pub type_row : Option ℕ → Bytes → Map Bytes Bytes → Map Bytes Bytes
type_row none row header = Map.insert (bytes "Type") row header
type_row (some position) row header =
    if position == 0 then header else Map.insert (bytes "Type") row header

abbrev split_row : Option ℕ → Bytes → Map Bytes Bytes → Outcome (Map Bytes Bytes)
split_row none row header = ok (type_row (find (bytes "HTTP") row) row header)
split_row (some position) row header =
    and_then (substr row (position + 2)) (λ value. ok (Map.insert (take position row) value header))

-- One row of `parseHeader`.
unfoldable pub header_row : Bytes → Map Bytes Bytes → Outcome (Map Bytes Bytes)
unfolding pop_back find find_byte substr Map.insert
header_row row header = and_then (pop_back row) (λ row. split_row (find_byte b':' row) row header)

unfoldable pub header_rows : List Bytes → Map Bytes Bytes → Outcome (Map Bytes Bytes)
unfolding header_row
header_rows [] header = ok header
header_rows (row ∷ rows) header =
    and_then (header_row row header) (λ header. header_rows rows header)

-- `parseHeader`
unfoldable pub parse_header : Bytes → Outcome (Map Bytes Bytes)
unfolding header_rows getlines
parse_header request = header_rows (getlines b'\n' request) empty

abbrev split_field : Option ℕ → Bytes → Map Bytes Bytes → Map Bytes Bytes
split_field none row fields = fields
split_field (some position) row fields =
    Map.insert (take position row) (drop (position + 1) row) fields

-- One row of `parseData`.
unfoldable pub data_row : Bytes → Map Bytes Bytes → Outcome (Map Bytes Bytes)
unfolding pop_back find_byte Map.insert
data_row row fields =
    and_then (pop_back row) (λ row. ok (split_field (find_byte b'=' row) row fields))

unfoldable pub data_rows : List Bytes → Map Bytes Bytes → Outcome (Map Bytes Bytes)
unfolding data_row
data_rows [] fields = ok fields
data_rows (row ∷ rows) fields = and_then (data_row row fields) (λ fields. data_rows rows fields)

-- `parseData`
unfoldable pub parse_data : Bytes → Outcome (Map Bytes Bytes)
unfolding data_rows getlines
parse_data request = data_rows (getlines b'\n' request) empty
