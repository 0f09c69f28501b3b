-- ===== src/Web/Socket/Whole.antt =====
-- `readRequest` on a request whose body comes with its header.
use tu_thesis.Base.{
  ℕ, zero, suc, ◌<◌, ◌≡◌, ◌∙◌, ap, refl, true, none, some, [], ◌∷◌, ◌++◌, append_assoc, arith, All,
  length,
}
use tu_thesis.Text.Bytes.{Bytes}
use tu_thesis.Text.Search.{find, starts_with}
use tu_thesis.Exec.{ok}
use tu_thesis.Web.Socket.{Socket, read_header, end_of_header}
use tu_thesis.Web.Socket.Reading.{concat, Fits, round_packet}

starts_with-more : (p s t : Bytes) → starts_with p s ≡ true → starts_with p (s ++ t) ≡ true
starts_with-more [] s t h = refl
starts_with-more (x ∷ p) [] t h = cc
starts_with-more (x ∷ p) (c ∷ s) t h = ground (arith, starts_with-more p s t)

-- What does not stand in a text does not stand in the beginning of it.
find_prefix : (p s t : Bytes) → find p (s ++ t) ≡ none → find p s ≡ none
unfolding find
find_prefix [] [] [] h = cc
find_prefix [] [] (c ∷ t) h = cc
find_prefix (x ∷ p) [] t h = refl
find_prefix p (c ∷ s) t h = ground (arith, starts_with-more p (c ∷ s) t, find_prefix p s t)

-- The packets before the last one hold no end of the header, and the last one completes it: the loop
-- ends with all that was sent so far, and leaves the packets after it.
pub read_header_whole :
    (fuel : ℕ) (request : Bytes) (packets : Socket) (last : Bytes) (after : Socket) (k : ℕ)
    → All Fits packets
    → Fits last
    → length packets < fuel
    → find end_of_header (request ++ concat packets) ≡ none
    → find end_of_header (request ++ (concat packets ++ last)) ≡ some k
    → read_header fuel request (packets ++ (last ∷ after))
      ≡ some (
          ok (record {
            header_end = k;
            request = request ++ (concat packets ++ last);
            socket = after;
          }))
read_header_whole zero request packets last after k fit fits enough unended ends =
    absurd (omega arith)
read_header_whole (suc fuel) request [] last after k fit fits enough unended ends =
    round_packet fuel request last after fits ∙ rw ends refl
read_header_whole (suc fuel) request (p ∷ ps) last after k (fit, rest) fits enough unended ends =
    let regroup = append_assoc request p (concat ps) in
    let whole : (request ++ p) ++ (concat ps ++ last) ≡ request ++ ((p ++ concat ps) ++ last) =
      simp append_assoc in
    let still = ap (find end_of_header) regroup ∙ unended in
    round_packet fuel request p (ps ++ (last ∷ after)) fit
    ∙ rw (find_prefix end_of_header (request ++ p) (concat ps) still) (
        read_header_whole fuel (request ++ p) ps last after k rest fits (omega arith) still
          (ap (find end_of_header) whole ∙ ends)
        ∙ rw whole)
