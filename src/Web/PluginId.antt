-- ===== src/Web/PluginId.antt =====
-- `getPluginIdOfRequest`.
pub mod Link
use tu_thesis.Base.{ℕ, ◌+◌, Option, none, some, take, drop}
use tu_thesis.Base.Int.{ℤ, negsuc}
use tu_thesis.Text.Bytes.{Bytes, bytes}
use tu_thesis.Text.Number.{stoi}
use tu_thesis.Text.Search.{find, find_byte}
use tu_thesis.Exec.{Outcome, ok}
use tu_thesis.Map
use tu_thesis.Map.{bytes_key, value_or_empty}
use tu_thesis.Web.Socket.{Request}

abbrev pub plugin_field : Bytes
plugin_field = bytes "plugin="

-- `type.substr(start, type.find(' ', start))`: the second argument is a position, read as a length.
abbrev pub up_to : Bytes → ℕ → Option ℕ → Bytes
up_to type start none = drop start type
up_to type start (some space) = take (start + space) (drop start type)

abbrev pub id_at : Bytes → Option ℕ → Outcome ℤ
id_at type none = ok (negsuc 0)
id_at type (some position) =
    let start = position + 7 in stoi (up_to type start (find_byte b' ' (drop start type)))

-- The `size_t` that is returned, as the `int` in which the callers keep it: `npos` is -1.
unfoldable pub plugin_id_of_type : Bytes → Outcome ℤ
unfolding find find_byte stoi
plugin_id_of_type type = id_at type (find plugin_field type)

unfoldable pub plugin_id : Request → Outcome ℤ
unfolding plugin_id_of_type Map.lookup
plugin_id r = plugin_id_of_type (value_or_empty (Map.lookup (bytes "Type") r.header))
