-- ===== src/Text/Stream.antt =====
-- `std::getline` on a `std::stringstream`, and the loop `while (std::getline(ss, item, ','))` by
-- which the plugins read lists (InternetSwitchers, RoutingSpecializer, NetworkManager, DHCPClient).
pub mod Split
use tu_thesis.Base.{
  ℕ, zero, suc, Bool, true, false, Option, none, some, List, [], ◌∷◌, ◌==◌, if◌then◌else◌, length,
}
use tu_thesis.Text.Bytes.{Bytes}

-- A stream is its unread bytes and whether its state is `good()`.
pub record Stream : Type 0 where
  pub unread : Bytes
  pub good : Bool

abbrev pub open_stream : Bytes → Stream
open_stream s = record { unread = s; good = true }

-- The bytes before the first `d`, and those behind it, if there is one.
unfoldable pub break_at : ℕ → Bytes → Bytes × Option Bytes
break_at d [] = ([], none)
break_at d (c ∷ cs) =
    let (line, after) = break_at d cs in if c == d then ([], some cs) else (c ∷ line, after)

-- What a call of `getline` leaves: whether the stream converts to true, what the variable holds
-- (`none` if it is left as it was: on a stream that is not good it is not even cleared), the stream.
pub record Read : Type 0 where
  pub success : Bool
  pub line : Option Bytes
  pub stream : Stream

-- At the end of the stream: `eofbit`, and `failbit` if nothing was extracted.
abbrev pub at_end : Bytes → Read
at_end [] = record {
  success = false;
  line = some [];
  stream = record { unread = []; good = false };
}
at_end (c ∷ cs) = record {
  success = true;
  line = some (c ∷ cs);
  stream = record { unread = []; good = false };
}

abbrev pub extracted : Bytes × Option Bytes → Read
extracted (line, none) = at_end line
extracted (line, some rest) = record {
  success = true;
  line = some line;
  stream = record { unread = rest; good = true };
}

unfoldable pub getline : ℕ → Stream → Read
getline d s =
    if s.good
    then extracted (break_at d s.unread)
    else record { success = false; line = none; stream = s }

abbrev pub line_or : Bytes → Read → Bytes
line_or old r = elim r.line [ none ↦ old | some line ↦ line ]

-- The items that `while (std::getline(ss, item, d))` goes through, with fuel. Each round but the
-- last takes a byte from the stream, so the length and one suffice.
unfoldable pub getlines_from : ℕ → ℕ → Stream → List Bytes
getlines_from zero d s = []
getlines_from (suc fuel) d s =
    let r = getline d s in
    let rest = getlines_from fuel d r.stream in if r.success then line_or [] r ∷ rest else []

unfoldable pub getlines : ℕ → Bytes → List Bytes
getlines d s = getlines_from (suc (length s)) d (open_stream s)
