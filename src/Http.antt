-- ===== src/Http.antt =====
-- stream/HttpRequest.h and stream/HttpRequest.cpp: the head of a request. A string is the list of its
-- bytes, and is shorter than 2 ^ 31 bytes.
pub mod Strings
pub mod Heads
pub mod Hang
pub mod Parse
pub mod Bodies
use streamcode.Prelude.{
  ℕ, zero, suc, ◌+◌, ◌-◌, ◌^◌, Bool, true, false, ◌||◌, Option, none, some, List, [], ◌∷◌, length,
  take, drop, ltb, leb, ◌==◌, if◌then◌else◌, codes,
}
use streamcode.Amf.{same_key}

unfoldable pub starts_with : List ℕ → List ℕ → Bool
starts_with [] s = true
starts_with (p ∷ ps) [] = false
starts_with (p ∷ ps) (x ∷ s) = if x == p then starts_with ps s else false

abbrev pub raised : Option ℕ → Option ℕ
raised none = none
raised (some i) = some (suc i)

-- Where a pattern that is not empty first occurs.
unfoldable pub index_of : List ℕ → List ℕ → Option ℕ
index_of pattern [] = none
index_of pattern (x ∷ s) =
    let later = index_of pattern s in if starts_with pattern (x ∷ s) then some 0 else raised later

abbrev pub shifted : ℕ → Option ℕ → Option ℕ
shifted start none = none
shifted start (some i) = some (start + i)

-- `s.find(pattern, start)`; `none` is `npos`.
unfoldable pub find : List ℕ → ℕ → List ℕ → Option ℕ
find pattern start s = shifted start (index_of pattern (drop start s))

abbrev pub crlf : List ℕ
crlf = 13 ∷ 10 ∷ []

abbrev pub colon : List ℕ
colon = 58 ∷ 32 ∷ []

abbrev pub space : List ℕ
space = 32 ∷ []

-- What the parser fills; the fields are `_filedmap`.
pub record Request : Type 0 where
  pub method : List ℕ
  pub url : List ℕ
  pub version : List ℕ
  pub fields : List (List ℕ × List ℕ)

-- `_filedmap[key] = value`.
unfoldable pub set_field : List ℕ → List ℕ → List (List ℕ × List ℕ) → List (List ℕ × List ℕ)
set_field key value [] = (key, value) ∷ []
set_field key value ((k, v) ∷ rest) =
    let later = set_field key value rest in
    if same_key k key then (k, value) ∷ rest else (k, v) ∷ later

-- `GetHeader`.
unfoldable pub get_header : List ℕ → List (List ℕ × List ℕ) → List ℕ
get_header key [] = []
get_header key ((k, v) ∷ rest) = if same_key k key then v else get_header key rest

abbrev pub is_empty : List ℕ → Bool
is_empty [] = true
is_empty (x ∷ s) = false

unfoldable pub keep : List ℕ → List ℕ → Request → Request
keep key value r =
    if is_empty key || is_empty value then r else record r { fields = set_field key value r.fields }

-- The key and the value of a line whose colon was found, or not. Without one the position is -1, so
-- that the value begins at the second byte; `none` is the exception of `substr`, for an empty line.
abbrev pub split_line : List ℕ → Request → Option ℕ → Option Request
split_line line r none = if ltb (length line) 1 then none else some (keep line (drop 1 line) r)
split_line line r (some pos) = some (keep (take pos line) (drop (pos + 2) line) r)

-- ParseLine.
unfoldable pub parse_line : List ℕ → Request → Option Request
parse_line line r = split_line line r (find colon 0 line)

abbrev pub after_url : List ℕ → ℕ → Request → Option ℕ → Request × Bool
after_url line start r none = (r, false)
after_url line start r (some pos) =
    (record r { url = take (pos - start) (drop start line); version = drop (pos + 1) line }, true)

abbrev pub after_method : List ℕ → Request → Option ℕ → Request × Bool
after_method line r none = (r, false)
after_method line r (some pos) =
    after_url line (pos + 1) (record r { method = take pos line }) (find space (pos + 1) line)

-- ParseFirstLine, and what it returns.
unfoldable pub parse_first_line : List ℕ → Request → Request × Bool
parse_first_line line r = after_method line r (find space 0 line)

-- How the loop of ParseHead ends.
pub data Ending : Type 0 where
  ended : Request → Ending
  throws : Ending
  out_of_fuel : Ending

abbrev pub and_then : Option Request → (Request → Ending) → Ending
and_then none again = throws
and_then (some r) again = again r

unfoldable pub parse_one : List ℕ → Request → (Request → Ending) → Ending
parse_one line r again = and_then (parse_line line r) again

-- One line, from where it starts to where the next line end was found, and `again`, the loop from a
-- position on. The position is an `unsigned int`, which is compared with `npos`: where `size_t` has 32
-- bits they are equal, and the last line ends the loop; where it has 64 they never are, and the
-- position plus 2 is 1.
unfoldable pub parse_at : Bool → ℕ → Option ℕ → List ℕ → Request → (ℕ → Request → Ending) → Ending
parse_at narrow start (some pos) head r again =
    parse_one (take (pos - start) (drop start head)) r (again (pos + 2))
parse_at true start none head r again = parse_one (drop start head) r ended
parse_at false start none head r again =
    parse_one (take (2 ^ 32 - 1 - start) (drop start head)) r (again 1)

-- The loop of ParseHead; `narrow` is that `size_t` has 32 bits.
unfoldable pub parse_lines : Bool → ℕ → List ℕ → ℕ → Request → Ending
parse_lines narrow zero head start r = out_of_fuel
parse_lines narrow (suc fuel) head start r =
    if ltb start (length head)
    then parse_at narrow start (find crlf start head) head r (parse_lines narrow fuel head)
    else ended r

abbrev pub behind_first : Bool → ℕ → ℕ → List ℕ → Request × Bool → Ending × Bool
behind_first narrow fuel start head (r, false) = (ended r, false)
behind_first narrow fuel start head (r, true) = (parse_lines narrow fuel head start r, true)

abbrev pub with_first : Bool → ℕ → List ℕ → Request → Option ℕ → Ending × Bool
with_first narrow fuel head r none = (ended r, false)
with_first narrow fuel head r (some pos) =
    behind_first narrow fuel (pos + 2) head (parse_first_line (take pos head) r)

-- ParseHead, and what it returns.
unfoldable pub parse_head : Bool → ℕ → List ℕ → Request → Ending × Bool
parse_head narrow fuel head r = with_first narrow fuel head r (find crlf 0 head)
