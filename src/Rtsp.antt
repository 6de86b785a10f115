-- ===== src/Rtsp.antt =====
-- stream/RtspRequest.h and stream/RtspRequest.cpp, and stream/RtspResponse.h. The functions that take
-- a head apart have the text of those of stream/HttpRequest.cpp. A string is the list of its bytes.
pub mod Response
pub mod Session
pub mod Requests
pub mod Answers
pub mod Faults
use streamcode.Prelude.{
  ℕ, zero, suc, ◌+◌, ◌-◌, ◌*◌, Bool, true, false, ◌&&◌, Option, none, some, List, [], ◌∷◌, length,
  drop, leb, if◌then◌else◌, codes,
}
use streamcode.TBuffer.{TBuffer}
use streamcode.Ring.{add_read_pos}
use streamcode.Ring.Strings.{peek_string}
use streamcode.Http
use streamcode.Http.{Request, Ending, ended, throws, out_of_fuel, index_of, get_header}
use streamcode.Http.Parse.{blank_line}

unfoldable pub parse_line : List ℕ → Request → Option Request
unfolding Http.parse_line
parse_line line r = Http.parse_line line r

unfoldable pub parse_first_line : List ℕ → Request → Request × Bool
unfolding Http.parse_first_line
parse_first_line line r = Http.parse_first_line line r

-- ParseHead; `narrow` is that `size_t` has 32 bits.
unfoldable pub parse_head : Bool → ℕ → List ℕ → Request → Ending × Bool
unfolding Http.parse_head
parse_head narrow fuel head r = Http.parse_head narrow fuel head r

unfoldable pub get_value : List ℕ → Request → List ℕ
unfolding get_header
get_value key r = get_header key r.fields

-- What a string hands to a function of C: the bytes in front of the first 0.
unfoldable pub c_str : List ℕ → List ℕ
c_str [] = []
c_str (zero ∷ s) = []
c_str (suc c ∷ s) = suc c ∷ c_str s

-- `strtol(s, NULL, 10)` of a text with no sign and no space in front: the digits that it begins with.
unfoldable pub strtol : ℕ → List ℕ → ℕ
strtol acc [] = acc
strtol acc (c ∷ s) =
    let more = strtol (acc * 10 + (c - 48)) s in if leb 48 c && leb c 57 then more else acc

abbrev pub track_at : List ℕ → Option ℕ → Option ℕ → Option ℕ
track_at url (some i) second = some (strtol 0 (drop i url))
track_at url none (some i) = some (strtol 0 (drop i url))
track_at url none none = none

-- GetTrackId; `none` is -1. An empty address has no such text.
unfoldable pub get_track_id : Request → Option ℕ
get_track_id r =
    let url = c_str r.url in
    track_at url (index_of (codes "trackID=") url) (index_of (codes "trackID") url)

-- How Parse ends: with the request, the ring and what it returns, or not.
pub data Parsed : Type 0 where
  parsed : Request → TBuffer → Bool → Parsed
  faults : Parsed
  threw : Parsed
  stopped : Parsed

abbrev pub headed : ℕ → TBuffer → Ending → Parsed
headed n b (ended r) = parsed r (add_read_pos (n + 4) b).0 true
headed n b throws = threw
headed n b out_of_fuel = stopped

abbrev pub peeked_head : Bool → ℕ → Request → TBuffer → Option (List ℕ) → Parsed
peeked_head narrow fuel r b none = faults
peeked_head narrow fuel r b (some []) = parsed r b false
peeked_head narrow fuel r b (some (c ∷ head)) =
    headed (length (c ∷ head)) b (parse_head narrow fuel (c ∷ head) r).0

-- Parse: what `PeekString` returns is taken for a head.
unfoldable pub parse : Bool → ℕ → Request → TBuffer → Parsed
parse narrow fuel r b = peeked_head narrow fuel r b (peek_string blank_line 0 b)
