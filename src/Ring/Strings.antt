-- ===== src/Ring/Strings.antt =====
-- RingBuffer::PeekString and RingBuffer::ReadString: the text in front of a delimiter.
use streamcode.Prelude.{
  ℕ, ◌+◌, ◌-◌, ◌≤◌, ◌<◌, ◌≡◌, ◌⊎◌, inl, inr, ap, sym, ◌∙◌, refl, Bool, true, false, ◌&&◌, ◌||◌,
  Option, none, some, List, [], ◌∷◌, arith, ltb, ◌==◌, Bool-cases, ==-cases, le→ltb, length-drop,
  length-take, take-length, if◌then◌else◌, length, take, drop, ◌>>=◌, zero, suc,
}
use streamcode.Memory.{load, slice}
use streamcode.Memory.Laws.{load-eq, drop-slice, take-slice}
use streamcode.TBuffer.{TBuffer}
use streamcode.Ring.{skip}
use streamcode.Ring.Valid.{IsValid, wrap, contents, length-contents}
use streamcode.Ring.Peek.{slice-flat, skip-Drops, Drops}

-- The text begins with the pattern.
unfoldable pub starts_with : List ℕ → List ℕ → Bool
starts_with [] text = true
starts_with (p ∷ pattern) [] = false
starts_with (p ∷ pattern) (c ∷ text) = p == c && starts_with pattern text

-- `std::search`: the offset of the first occurrence, or of the end.
unfoldable pub find : List ℕ → List ℕ → ℕ
unfolding starts_with
find pattern [] = 0
find pattern (c ∷ text) = if starts_with pattern (c ∷ text) then 0 else suc (find pattern text)

-- `search` runs over the addresses from `read_pos + pos` to `read_pos + size`, whether or not they
-- lie in the allocation. The empty list stands for the empty string.
unfoldable pub peek_string : List ℕ → ℕ → TBuffer → Option (List ℕ)
unfolding find
peek_string delimiter pos b =
    if ltb b.size pos
    then some []
    else (load b.buffer (b.read_pos + pos) (b.size - pos) >>= λ region.
        found (find delimiter region))
  where
    found : ℕ → Option (List ℕ)
    found len =
        if ltb b.size len
          || (ltb b.write_pos (b.read_pos + pos + len) || ltb (b.read_pos + pos + len) b.read_pos)
        then some []
        else load b.buffer (b.read_pos + pos) len

unfoldable pub read_string : List ℕ → TBuffer → Option (List ℕ × TBuffer)
unfolding peek_string skip
read_string delimiter b = peek_string delimiter 0 b >>= λ text.
    if length text == 0
    then some (text, b)
    else (skip (length text) b >>= λ after. some (text, after))

-- `find` stops inside the text or at its end.
pub find-le-length : (pattern text : List ℕ) → find pattern text ≤ length text
unfolding find
find-le-length pattern [] = omega arith
find-le-length pattern (c ∷ text) = ground (arith, find-le-length pattern text)

-- Before the offset that `find` returns the pattern does not occur, and at that offset it does,
-- unless the offset is the end of the text.
pub find-first :
    (pattern text : List ℕ)
    → ((i : ℕ) → i < find pattern text → starts_with pattern (drop i text) ≡ false)
      × ((find pattern text ≡ length text)
          ⊎ (starts_with pattern (drop (find pattern text) text) ≡ true))
unfolding find
find-first pattern [] = (λ i h. elim h [ ], inl refl)
find-first pattern (c ∷ text) = elim (Bool-cases (starts_with pattern (c ∷ text))) [
  | inl here ↦ rw here (λ i h. elim h [ ], inr here)
  | inr away ↦
      let (before, at) = find-first pattern text in
      rw away (
        elim [ zero ↦ λ h. away | suc i ↦ λ h. before i (omega arith) ],
        elim at [ inl e ↦ inl (ap suc e) | inr e ↦ inr e ],
      )
]

-- On a ring whose contents do not go round the end, `PeekString` returns the contents from `pos` to
-- the first delimiter, and all of them if there is no delimiter.
pub peek_string-lem :
    {b : TBuffer} (delimiter : List ℕ) (pos : ℕ)
    → IsValid b
    → pos ≤ b.size
    → b.read_pos + b.size ≡ b.write_pos
    → let text = drop pos (contents b) in
      peek_string delimiter pos b ≡ some (take (find delimiter text) text)
unfolding peek_string contents
peek_string-lem {b} delimiter pos v h straight =
    rw
      (
        le→ltb b.size pos h,
        load-eq b.buffer (b.read_pos + pos) (b.size - pos) (omega arith),
        region,
      )
      (ground (
        arith,
        inside,
        part,
        load-eq b.buffer (b.read_pos + pos) (find delimiter (drop pos (contents b))),
      ))
  where
    region : slice b.buffer.cell (b.read_pos + pos) (b.size - pos) ≡ drop pos (contents b)
    region =
        slice-flat b.buffer.cell b.capacity (b.read_pos + pos) (b.size - pos) (omega arith)
        ∙ sym (drop-slice (λ i. b.buffer.cell (wrap b.capacity i)) b.read_pos pos b.size)

    inside : find delimiter (drop pos (contents b)) ≤ b.size - pos
    inside = omega (
      arith,
      find-le-length delimiter (drop pos (contents b)),
      length-drop pos (contents b),
      length-contents b,
    )

    part :
        slice b.buffer.cell (b.read_pos + pos) (find delimiter (drop pos (contents b)))
        ≡ take (find delimiter (drop pos (contents b))) (drop pos (contents b))
    part =
        sym (take-slice b.buffer.cell (b.read_pos + pos) _ (b.size - pos) inside)
        ∙ ap (take (find delimiter (drop pos (contents b)))) region

-- If the delimiter has not arrived, on a ring whose contents do not go round the end,
-- `PeekString` returns all that follows `pos`, just as if the delimiter stood behind it.
pub peek_string-missing :
    {b : TBuffer} (delimiter : List ℕ) (pos : ℕ)
    → IsValid b
    → pos ≤ b.size
    → b.read_pos + b.size ≡ b.write_pos
    → ((i : ℕ) → starts_with delimiter (drop i (drop pos (contents b))) ≡ false)
    → peek_string delimiter pos b ≡ some (drop pos (contents b))
peek_string-missing {b} delimiter pos v h straight missing =
    peek_string-lem delimiter pos v h straight
    ∙ ap some (ap (λ n. take n (drop pos (contents b))) whole ∙ take-length (drop pos (contents b)))
  where
    whole : find delimiter (drop pos (contents b)) ≡ length (drop pos (contents b))
    whole = elim (find-first delimiter (drop pos (contents b))).1 [
      | inl e ↦ e
      | inr e ↦ cc (missing (find delimiter (drop pos (contents b))))
    ]

-- On a ring whose contents go round the end, and do not end just there, `PeekString` reads beyond
-- the allocation.
pub peek_string-faults :
    {b : TBuffer} (delimiter : List ℕ) (pos : ℕ)
    → IsValid b
    → pos ≤ b.size
    → b.capacity < b.read_pos + b.size
    → peek_string delimiter pos b ≡ none
unfolding peek_string load
peek_string-faults {b} delimiter pos v h round = ground arith

-- On a ring whose contents do not go round the end, `ReadString` takes off exactly the bytes that
-- it returns.
pub read_string-lem :
    {b : TBuffer} (delimiter : List ℕ)
    → IsValid b
    → b.read_pos + b.size ≡ b.write_pos
    → let n = find delimiter (contents b) in
      (after : TBuffer) × (read_string delimiter b ≡ some (take n (contents b), after))
      × Drops n b after
unfolding read_string
read_string-lem {b} delimiter v straight = elim (==-cases n 0) [
  | inl (e, none_found) ↦ (
    b,
    rw (text, size, e) (ap (λ t. some (t, b)) refl),
    (v, rw none_found refl, refl, rw none_found (omega arith)),
  )
  | inr e ↦ let (after, eq, drops) = skip-Drops n v inside in (after, rw (text, size, e, eq), drops)
]
  where
    n : ℕ
    n = find delimiter (contents b)

    text : peek_string delimiter 0 b ≡ some (take n (contents b))
    text = peek_string-lem delimiter 0 v (omega arith) straight

    inside : n ≤ b.size
    inside = omega (arith, find-le-length delimiter (contents b), length-contents b)

    size : length (take n (contents b)) ≡ n
    size = omega (arith, length-take n (contents b), length-contents b, inside)
