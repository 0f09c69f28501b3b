-- ===== src/Web/Socket/Reading.antt =====
-- How the loop of `readRequest` ends.
use tu_thesis.Base.{
  sym, ℕ, zero, suc, ◌≤◌, ◌<◌, ◌≡◌, ◌≢◌, ◌∙◌, ap, refl, inl, inr, Bool-cases, Option-cases, false,
  ltb, none, some, [], ◌∷◌, ◌++◌, append_assoc, append-nil, arith, All, has, length, length-take,
}
use tu_thesis.Text.Bytes.{Bytes}
use tu_thesis.Text.Search.{find}
use tu_thesis.System.{c_string}
use tu_thesis.Exec.{ok, undefined}
use tu_thesis.Web.Socket.{
  look, next_round, Socket, Received, read, append_read, read_header, end_of_header,
}

abbrev pub concat : Socket → Bytes
concat [] = []
concat (packet ∷ packets) = packet ++ concat packets

-- A packet that fits into the buffer and holds no NUL byte.
abbrev pub Fits : Bytes → Type 0
Fits packet = (length packet < 255) × (has 0 packet ≡ false)

c_string-clean : (s : Bytes) → has 0 s ≡ false → c_string s ≡ s
unfolding c_string
c_string-clean [] h = refl
c_string-clean (c ∷ s) h = ground (arith, c_string-clean s)

-- What the loop of `readRequest` is to leave of a request that comes in packets.
abbrev pub Found : Bytes → Socket → Received → Type 0
Found request packets r =
    (find end_of_header r.request ≡ some r.header_end)
    × (r.request ++ concat r.socket ≡ request ++ concat packets)

append_read_short :
    (request packet : Bytes) → Fits packet → append_read 255 request packet ≡ ok (request ++ packet)
unfolding append_read
append_read_short request [] h = ap ok (sym (append-nil request))
append_read_short request (c ∷ cs) (short, clean) =
    rw (c_string-clean (c ∷ cs) clean) (ground arith)

read_short :
    (packet : Bytes) (packets : Socket)
    → Fits packet
    → read 255 (packet ∷ packets) ≡ (packet, packets)
unfolding read
read_short packet packets (short, clean) = ground arith

read_header_round :
    (fuel : ℕ) (request request' chunk : Bytes) (socket socket' : Socket)
    → read 255 socket ≡ (chunk, socket')
    → append_read 255 request chunk ≡ ok request'
    → read_header (suc fuel) request socket
      ≡ look (read_header fuel) request' socket' (find end_of_header request')
unfolding read_header
read_header_round fuel request request' chunk socket socket' got appended =
    ap (λ (c, t). next_round (read_header fuel) t (append_read 255 request c)) got
    ∙ ap (next_round (read_header fuel) socket') appended

nothing_read : (request : Bytes) → append_read 255 request [] ≡ ok request
unfolding append_read
nothing_read request = refl

read_nothing : read 255 [] ≡ ([], [])
unfolding read
read_nothing = refl

round_exhausted :
    (fuel : ℕ) (request : Bytes)
    → read_header (suc fuel) request []
      ≡ look (read_header fuel) request [] (find end_of_header request)
round_exhausted fuel request =
    read_header_round fuel request request [] [] [] read_nothing (nothing_read request)

pub round_packet :
    (fuel : ℕ) (request p : Bytes) (ps : Socket)
    → Fits p
    → read_header (suc fuel) request (p ∷ ps)
      ≡ look (read_header fuel) (request ++ p) ps (find end_of_header (request ++ p))
round_packet fuel request p ps fit =
    read_header_round fuel request (request ++ p) p (p ∷ ps) ps (read_short p ps fit)
      (append_read_short request p fit)

-- The loop ends when the packets hold the end of the header: one round for a packet and one more are
-- enough. No packet is as long as the buffer, and none holds a NUL byte. What was read and what the
-- socket still holds are the text that was sent, and the position is the end of the header.
pub read_header_ends :
    (fuel : ℕ) (request : Bytes) (packets : Socket)
    → All Fits packets
    → length packets < fuel
    → find end_of_header (request ++ concat packets) ≢ none
    → (r : Received) × (read_header fuel request packets ≡ some (ok r)) × Found request packets r
read_header_ends zero request packets fit enough ends = absurd (omega arith)
read_header_ends (suc fuel) request [] fit enough ends =
    elim (Option-cases (find end_of_header request)) [
      | inl e ↦ absurd (ends (ap (find end_of_header) (append-nil request) ∙ e))
      | inr (k, e) ↦ (
        record { header_end = k; request = request; socket = [] },
        round_exhausted fuel request ∙ rw e refl,
        (e, refl),
      )
    ]
read_header_ends (suc fuel) request (p ∷ ps) (fit, fits) enough ends =
    elim (Option-cases (find end_of_header (request ++ p))) [
      | inl e ↦
          let (r, runs, (position, text)) =
            read_header_ends fuel (request ++ p) ps fits (omega arith) (λ h.
              ends (ap (find end_of_header) (sym (append_assoc request p (concat ps))) ∙ h)) in
          (
            r,
            round_packet fuel request p ps fit ∙ rw e runs,
            (position, text ∙ append_assoc request p (concat ps)),
          )
      | inr (k, e) ↦ (
        record { header_end = k; request = request ++ p; socket = ps },
        round_packet fuel request p ps fit ∙ rw e refl,
        (e, append_assoc request p (concat ps)),
      )
    ]

-- If the bytes that were read hold no end of the header, and the connection has no more, the loop does
-- not end, whatever the fuel.
pub read_header_closed :
    (fuel : ℕ) (request : Bytes)
    → find end_of_header request ≡ none
    → read_header fuel request [] ≡ none
read_header_closed zero request missing = unfold read_header in refl
read_header_closed (suc fuel) request missing =
    round_exhausted fuel request ∙ rw missing (read_header_closed fuel request missing)

pub read_long :
    (n : ℕ) (packet : Bytes) (packets : Socket)
    → n ≤ length packet
    → length (read n (packet ∷ packets)).0 ≡ n
unfolding read
read_long n packet packets long = elim (Bool-cases (ltb n (length packet))) [
  | inl e ↦ rw e (length-take n packet long)
  | inr e ↦ rw e (ground arith)
]

pub append_read_full :
    (n : ℕ) (request chunk : Bytes)
    → 0 < n
    → length chunk ≡ n
    → append_read n request chunk ≡ undefined
unfolding append_read
append_read_full n request [] some_byte h = absurd (omega (arith, h))
append_read_full n request (c ∷ chunk) some_byte h = ground (arith, h)

-- A packet of 255 bytes or more: the NUL that ends the chunk is written behind the buffer.
pub read_header_overflow :
    (fuel : ℕ) (request packet : Bytes) (packets : Socket)
    → 255 ≤ length packet
    → read_header (suc fuel) request (packet ∷ packets) ≡ some undefined
unfolding read_header
read_header_overflow fuel request packet packets long =
    ap (next_round (read_header fuel) (read 255 (packet ∷ packets)).1) (
      append_read_full 255 request (read 255 (packet ∷ packets)).0 (omega arith)
        (read_long 255 packet packets long))
