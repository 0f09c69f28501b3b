-- ===== src/Web/Process/Late.antt =====
-- A client whose form comes behind its header, in a packet of its own.
use tu_thesis.Base.{
  suc, ℕ, ◌+◌, ◌≤◌, ◌<◌, ◌^◌, ◌≡◌, ◌∙◌, ap, refl, none, some, [], ◌∷◌, ◌++◌, arith, All, length,
  take-length-append, drop_more,
}
use tu_thesis.Base.Int.{pos, to_int}
use tu_thesis.Text.Bytes.{Bytes, bytes}
use tu_thesis.Text.Number.{to_string}
use tu_thesis.Text.Number.RoundTrip.{stoi-number}
use tu_thesis.Text.Search.{find}
use tu_thesis.Exec.{ok, undefined}
use tu_thesis.Map
use tu_thesis.Map.{Map, bytes_key}
use tu_thesis.World.{World}
use tu_thesis.FileConfigurator.{Reader}
use tu_thesis.PluginConfigurator.{PluginConfigurator}
use tu_thesis.Web.Parse.{parse_header}
use tu_thesis.Web.Parse.Header.{
  Header, CanBeSent, header_text, header_map, header_text-end, parse_header-header_text,
}
use tu_thesis.Web.Socket.{
  Socket, end_of_header, read, read_body, minus, finish_request, read_request,
}
use tu_thesis.Web.Socket.Reading.{concat, Fits, append_read_full, read_long}
use tu_thesis.Web.Socket.Whole.{read_header_whole}
use tu_thesis.Web.Process.{client_thread}

missing_read :
    (k : ℕ) (body packet : Bytes) (after : Socket)
    → length body + suc k < 2 ^ 31
    → suc k ≤ length packet
    → read_body (to_int (minus (pos (length body + suc k)) (length body))) body (packet ∷ after)
      ≡ undefined
unfolding to_int
missing_read k body packet after small long =
    let rest : to_int (minus (pos (length body + suc k)) (length body)) ≡ pos (suc k) =
      ground arith in
    rw rest (
      append_read_full (suc k) body (read (suc k) (packet ∷ after)).0 (omega arith)
        (read_long (suc k) packet after long))

finish_late :
    (text body packet : Bytes) (header : Map Bytes Bytes) (k : ℕ) (after : Socket)
    → parse_header text ≡ ok header
    → Map.lookup (bytes "Content-Length") header ≡ some (to_string (length body + suc k))
    → length body + suc k < 2 ^ 31
    → suc k ≤ length packet
    → finish_request (record {
      header_end = length text;
      request = text ++ (end_of_header ++ body);
      socket = packet ∷ after;
    })
      ≡ undefined
unfolding finish_request
finish_late text body packet header k after header_read told small long =
    rw (take-length-append text (end_of_header ++ body), header_read)
      (rw (drop_more 4 text (end_of_header ++ body), told)
        (rw (stoi-number (length body + suc k) small)
          (rw (missing_read k body packet after small long) refl)))

-- A request whose header is complete and whose form is not, while the next packet holds all that is
-- missing, is undefined behaviour: the whole buffer is filled, and the NUL is written behind it.
pub client_thread_late :
    (open_reader : Bytes → Reader) (h : Header) (k : ℕ) (fuel : ℕ) (packets : Socket)
    (last body packet : Bytes) (after : Socket) (s : PluginConfigurator × World)
    → CanBeSent h
    → Map.lookup (bytes "Content-Length") (header_map h) ≡ some (to_string (length body + suc k))
    → length body + suc k < 2 ^ 31
    → suc k ≤ length packet
    → All Fits packets
    → Fits last
    → length packets < fuel
    → find end_of_header (concat packets) ≡ none
    → concat packets ++ last ≡ header_text h ++ (end_of_header ++ body)
    → client_thread open_reader fuel (packets ++ (last ∷ packet ∷ after)) s ≡ some (undefined, s)
unfolding client_thread
client_thread_late open_reader h k fuel packets last body packet after s v told small long fit fits
      rounds unended whole =
    let found : find end_of_header (concat packets ++ last) ≡ some (length (header_text h)) =
      ap (find end_of_header) whole ∙ header_text-end h v body in
    let broken : read_request fuel (packets ++ (last ∷ packet ∷ after)) ≡ some undefined =
      unfold read_request in
      rw
        (
          read_header_whole fuel [] packets last (packet ∷ after) _ fit fits rounds unended found,
          read_request,
        )
        (ap
            (λ text. some (
              finish_request (record {
                header_end = length (header_text h);
                request = text;
                socket = packet ∷ after;
              })))
            whole
          ∙ ap some (
              finish_late (header_text h) body packet (header_map h) k after
                (parse_header-header_text h v) told small long)) in
    rw broken refl
