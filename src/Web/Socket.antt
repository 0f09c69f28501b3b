-- ===== src/Web/Socket.antt =====
-- `readRequest`: a request is read from a socket.
pub mod Reading
pub mod Whole
use tu_thesis.Base.{
  ℕ, zero, suc, ◌+◌, ◌-◌, ◌^◌, ◌%◌, Option, none, some, List, [], ◌∷◌, ◌++◌, ◌==◌, ltb, length,
  take, drop, if◌then◌else◌,
}
use tu_thesis.Base.Int.{ℤ, pos, negsuc, sub_ℕ, to_int}
use tu_thesis.Text.Bytes.{Bytes, bytes}
use tu_thesis.Text.Number.{stoi}
use tu_thesis.Text.Search.{find}
use tu_thesis.Exec.{out_of_range, invalid_argument, Outcome, ok, throw, undefined, and_then}
use tu_thesis.Map
use tu_thesis.Map.{Map, empty, bytes_key}
use tu_thesis.System.{c_string}
use tu_thesis.Web.Parse.{parse_header, parse_data}

-- The packets that have not been read. When none is left, `read` returns 0 for ever.
abbrev pub Socket : Type 0
Socket = List Bytes

-- `read(socket, buffer, n)`: at most `n` bytes of the first packet, the rest of which is kept.
unfoldable pub read : ℕ → Socket → Bytes × Socket
read n [] = ([], [])
read n (packet ∷ packets) =
    if ltb n (length packet) then (take n packet, drop n packet ∷ packets) else (packet, packets)

-- `buffer[read_elems] = '\0'; request += std::string(buffer);` for a buffer of `n` bytes. A read
-- that fills the buffer writes behind its end. A read of nothing changes nothing.
unfoldable pub append_read : ℕ → Bytes → Bytes → Outcome Bytes
unfolding c_string
append_read n request [] = ok request
append_read n request (c ∷ chunk) =
    if length (c ∷ chunk) == n then undefined else ok (request ++ c_string (c ∷ chunk))

abbrev pub end_of_header : Bytes
end_of_header = b'\r' ∷ b'\n' ∷ b'\r' ∷ b'\n' ∷ []

-- What the `do … while` loop leaves: the position of the empty line, the bytes read, the socket.
pub record Received : Type 0 where
  pub header_end : ℕ
  pub request : Bytes
  pub socket : Socket

-- `found_position = request.find("\r\n\r\n")`, and the next round if it is `npos`.
abbrev pub look :
    (Bytes → Socket → Option (Outcome Received))
    → Bytes
    → Socket
    → Option ℕ
    → Option (Outcome Received)
look again request socket none = again request socket
look again request socket (some k) =
    some (ok (record { header_end = k; request = request; socket = socket }))

abbrev pub next_round :
    (Bytes → Socket → Option (Outcome Received))
    → Socket
    → Outcome Bytes
    → Option (Outcome Received)
next_round again socket (ok request) = look again request socket (find end_of_header request)
next_round again socket (throw e) = some (throw e)
next_round again socket undefined = some undefined

-- The loop, with fuel; `none` means that it has not ended.
unfoldable pub read_header : ℕ → Bytes → Socket → Option (Outcome Received)
read_header zero request socket = none
read_header (suc fuel) request socket =
    let again = read_header fuel in
    let (chunk, socket') = read 255 socket in
    next_round again socket' (append_read 255 request chunk)

pub record Request : Type 0 where
  pub header : Map Bytes Bytes
  pub fields : Map Bytes Bytes

-- `content_length - request.length()`, before it is kept in an `int`.
abbrev pub minus : ℤ → ℕ → ℤ
minus (pos a) n = sub_ℕ a n
minus (negsuc a) n = negsuc (a + n)

-- The rest of the body, if some is missing.
abbrev pub read_body : ℤ → Bytes → Socket → Outcome Bytes
read_body (negsuc _) body socket = ok body
read_body (pos zero) body socket = ok body
read_body (pos (suc n)) body socket = append_read (suc n) body (read (suc n) socket).0

-- `result.data`: the two handlers leave it empty.
abbrev pub or_no_data : Outcome (Map Bytes Bytes) → Outcome (Map Bytes Bytes)
or_no_data (ok fields) = ok fields
or_no_data (throw (out_of_range _)) = ok empty
or_no_data (throw (invalid_argument _)) = ok empty
or_no_data (throw e) = throw e
or_no_data undefined = undefined

abbrev pub content_length : Option Bytes → Outcome ℤ
content_length none = throw (out_of_range (bytes "map::at"))
content_length (some text) = stoi text

-- What follows the loop.
unfoldable pub finish_request : Received → Outcome Request
unfolding parse_header parse_data append_read read stoi to_int Map.lookup
finish_request r = and_then (parse_header (take r.header_end r.request)) (λ header.
    let body = drop (r.header_end + 4) r.request in
    and_then
      (or_no_data (
        and_then (content_length (Map.lookup (bytes "Content-Length") header))
          (λ n. and_then (read_body (to_int (minus n (length body))) body r.socket) parse_data)))
      (λ fields. ok (record { header = header; fields = fields })))

-- `readRequest`
unfoldable pub read_request : ℕ → Socket → Option (Outcome Request)
unfolding read_header finish_request
read_request fuel socket = elim (read_header fuel [] socket) [
  | none ↦ none
  | some r ↦ some (and_then r finish_request)
]
