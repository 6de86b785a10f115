-- ===== src/Rtsp/Requests.antt =====
-- RtspRequest::Parse on a ring, and GetTrackId.
use streamcode.Prelude.{
  ℕ, suc, ◌+◌, ◌≤◌, ◌<◌, ◌≡◌, refl, sym, ap, ◌∙◌, Bool, true, false, Option, none, some, List, [],
  ◌∷◌, ◌++◌, arith, length, take, drop, inl, inr, codes, take-append_of, drop-append_of,
  length-append, lt→ltb, Option-cases, Bool-cases, append_assoc,
}
use mathlib.Core.Option
use streamcode.TBuffer.{TBuffer}
use streamcode.Ring.{add_read_pos}
use streamcode.Ring.Valid.{
  IsValid, contents, length-contents, add_read_pos-IsValid, contents-add_read_pos,
}
use streamcode.Ring.Strings.{find, starts_with, peek_string-lem, peek_string-missing}
use streamcode.Http.{Request, Ending, ended, throws, out_of_fuel, index_of, raised}
use streamcode.Http
use streamcode.Http.Parse.{blank_line}
use streamcode.Rtsp.{
  parse, parsed, headed, peeked_head, parse_head, get_track_id, strtol, track_at, c_str,
}

-- If the ring holds a head, a blank line that occurs first behind it, and a rest, and ParseHead of
-- that head ends, then Parse returns true with that request and leaves a valid ring with the rest.
pub parse_complete :
    (narrow : Bool) (fuel : ℕ) (r r' : Request) (c : ℕ) (head rest : List ℕ) {b : TBuffer}
    → IsValid b
    → b.read_pos + b.size ≡ b.write_pos
    → contents b ≡ (c ∷ head) ++ (blank_line ++ rest)
    → find blank_line (contents b) ≡ length (c ∷ head)
    → (parse_head narrow fuel (c ∷ head) r).0 ≡ ended r'
    → (after : TBuffer) × (parse narrow fuel r b ≡ parsed r' after true)
      × IsValid after
      × (contents after ≡ rest)
unfolding parse
parse_complete narrow fuel r r' c head rest {b} v straight holds found ends = (
  (add_read_pos n b).0,
  ap (peeked_head narrow fuel r b)
        (peek_string-lem blank_line 0 v (omega arith) straight ∙ ap some front)
      ∙ ap (headed (length (c ∷ head)) b) ends,
  (add_read_pos-IsValid n v inside).0,
  contents-add_read_pos n v inside ∙ ap (drop n) holds ∙ cut,
)
  where
    n : ℕ
    n = length (c ∷ head) + 4

    front : take (find blank_line (contents b)) (contents b) ≡ c ∷ head
    front =
        rw (found, holds) (take-append_of (length (c ∷ head)) (c ∷ head) (blank_line ++ rest) refl)

    inside : n ≤ b.size
    inside = omega (
      arith,
      length-contents b,
      ap length holds,
      length-append (c ∷ head) (blank_line ++ rest),
      length-append blank_line rest,
    )

    cut : drop n ((c ∷ head) ++ (blank_line ++ rest)) ≡ rest
    cut =
        ap (drop n) (sym (append_assoc (c ∷ head) blank_line rest))
        ∙ drop-append_of n ((c ∷ head) ++ blank_line) rest (length-append (c ∷ head) blank_line)

add_read_pos-too_far : (n : ℕ) (b : TBuffer) → b.size < n → (add_read_pos n b).0 ≡ b
unfolding add_read_pos
add_read_pos-too_far n b h = rw (lt→ltb b.size n h)

-- While the blank line has not arrived on a valid ring that is not empty and whose contents do not
-- go round the end, RtspRequest::Parse takes what has arrived for a head. If ParseHead of that ends,
-- Parse returns true with what it made, and leaves the ring as it is.
pub parse_incomplete :
    (narrow : Bool) (fuel : ℕ) (r r' : Request) {b : TBuffer}
    → IsValid b
    → 0 < b.size
    → b.read_pos + b.size ≡ b.write_pos
    → ((i : ℕ) → starts_with blank_line (drop i (contents b)) ≡ false)
    → (parse_head narrow fuel (contents b) r).0 ≡ ended r'
    → parse narrow fuel r b ≡ parsed r' b true
unfolding parse
parse_incomplete narrow fuel r r' {b} v some_bytes straight missing ends =
    ap (peeked_head narrow fuel r b)
      (peek_string-missing blank_line 0 v (omega arith) straight missing)
    ∙ taken (contents b) (length-contents b) ends
  where
    too_far : (n : ℕ) → b.size < n → (add_read_pos n b).0 ≡ b
    too_far n h = add_read_pos-too_far n b h

    taken :
        (text : List ℕ)
        → length text ≡ b.size
        → (parse_head narrow fuel text r).0 ≡ ended r'
        → peeked_head narrow fuel r b (some text) ≡ parsed r' b true
    taken [] e h = absurd (omega (arith, e))
    taken (c ∷ head) e h =
        ap (headed (length (c ∷ head)) b) h
        ∙ ap (λ t. parsed r' t true) (too_far (length (c ∷ head) + 4) (omega arith))

index_of-empty : (pattern : List ℕ) → index_of pattern [] ≡ none
unfolding index_of
index_of-empty pattern = refl

not_raised : (o : Option ℕ) → raised o ≡ none → o ≡ none
not_raised none h = refl
not_raised (some i) h = cc

-- A text that begins with a `t` begins with no digit.
strtol-letter : (s : List ℕ) → strtol 0 (116 ∷ s) ≡ 0
unfolding strtol
strtol-letter s = refl

starts_with-letter :
    (pattern s : List ℕ) (x : ℕ) → Http.starts_with (116 ∷ pattern) (x ∷ s) ≡ true → x ≡ 116
unfolding Http.starts_with
starts_with-letter pattern s x h = ground (arith, h)

index_of-here :
    (pattern s : List ℕ) (x : ℕ)
    → Http.starts_with pattern (x ∷ s) ≡ true
    → index_of pattern (x ∷ s) ≡ some 0
unfolding index_of
index_of-here pattern s x h = rw h

index_of-later :
    (pattern s : List ℕ) (x : ℕ)
    → Http.starts_with pattern (x ∷ s) ≡ false
    → index_of pattern (x ∷ s) ≡ raised (index_of pattern s)
unfolding index_of
index_of-later pattern s x h = rw h

letter :
    (pattern s : List ℕ) (i : ℕ) → index_of (116 ∷ pattern) s ≡ some i → strtol 0 (drop i s) ≡ 0
letter pattern [] i e = absurd (no_place i e)
  where
    no_place : (i : ℕ) → index_of (116 ∷ pattern) [] ≡ some i → ⊥
    no_place i e = cc (e, index_of-empty (116 ∷ pattern))
letter pattern (x ∷ s) i e = elim (Bool-cases (Http.starts_with (116 ∷ pattern) (x ∷ s))) [
  | inl h ↦
      let zero_place : i ≡ 0 = ground (arith, e, index_of-here (116 ∷ pattern) s x h) in
      rw (zero_place, starts_with-letter pattern s x h) (strtol-letter s)
  | inr h ↦ elim (Option-cases (index_of (116 ∷ pattern) s)) [
    | inl n ↦ absurd (cc (e, index_of-later (116 ∷ pattern) s x h, n))
    | inr (j, n) ↦
        let place : i ≡ suc j = ground (arith, e, index_of-later (116 ∷ pattern) s x h, n) in
        rw place (letter pattern s j n)
  ]
]

-- Where a text does not occur, none that begins with it does.
starts_with-shorter :
    (p q s : List ℕ) → Http.starts_with p s ≡ false → Http.starts_with (p ++ q) s ≡ false
unfolding Http.starts_with
starts_with-shorter [] q s h = cc
starts_with-shorter (c ∷ p) q [] h = refl
starts_with-shorter (c ∷ p) q (x ∷ s) h = ground (arith, starts_with-shorter p q s)

index_of-shorter : (p q s : List ℕ) → index_of p s ≡ none → index_of (p ++ q) s ≡ none
index_of-shorter p q [] h = index_of-empty (p ++ q)
index_of-shorter p q (x ∷ s) h = elim (Bool-cases (Http.starts_with p (x ∷ s))) [
  | inl k ↦ cc (h, index_of-here p s x k)
  | inr k ↦
      index_of-later (p ++ q) s x (starts_with-shorter p q (x ∷ s) k)
      ∙ ap raised
          (index_of-shorter p q s (not_raised (index_of p s) (sym (index_of-later p s x k) ∙ h)))
]

-- GetTrackId is 0 if the address holds `trackID`, whatever number stands behind it, and -1 if not.
pub get_track_id-lem :
    (r : Request) → get_track_id r ≡ Option.map (λ i. 0) (index_of (codes "trackID") (c_str r.url))
unfolding get_track_id
get_track_id-lem r = elim (Option-cases (index_of (codes "trackID") (c_str r.url))) [
  | inl n ↦ rw (n, index_of-shorter (codes "trackID") (codes "=") (c_str r.url) n)
  | inr (i, n) ↦ rw (n) (found i (index_of (codes "trackID=") (c_str r.url)) refl n)
]
  where
    found :
        (i : ℕ) (first : Option ℕ)
        → index_of (codes "trackID=") (c_str r.url) ≡ first
        → index_of (codes "trackID") (c_str r.url) ≡ some i
        → track_at (c_str r.url) first (some i) ≡ some 0
    found i none e n = ap some (letter (codes "rackID") (c_str r.url) i n)
    found i (some j) e n = ap some (letter (codes "rackID=") (c_str r.url) j e)
