-- ===== src/Ring/Vectors.antt =====
-- RingBuffer::GetReadPos and RingBuffer::GetWritePos: the bytes and the free space as two `iovec`s
-- for `writev` and `readv`.
use streamcode.Prelude.{
  ℕ, ◌+◌, ◌-◌, ◌≤◌, ◌<◌, ◌≡◌, ◌≢◌, ◌⊎◌, inl, inr, ap, ◌∙◌, refl, Bool, true, false, Option, none,
  some, List, [], ◌++◌, arith, ltb, ◌==◌, ltb-cases, eq_true, eq_false, append-nil, le→ltb,
  add64-eq, sub64, sub64-eq, if◌then◌else◌, length, get_or,
}
use streamcode.Memory.{slice}
use streamcode.TBuffer.{TBuffer}
use streamcode.Ring.{add_write_pos}
use streamcode.Ring.Valid.{IsValid, wrap, contents}
use streamcode.Ring.Write.{Holds, contents-Holds}
use streamcode.Ring.Peek.{slice-flat, slice-round}

-- `struct iovec`; the base is an offset into `buffer_`, or NULL.
pub record Iovec : Type 0 where
  pub base : Option ℕ
  pub len : ℕ

-- The two vectors are passed as they are before the call, since a failure sets only a part.
unfoldable pub get_read_pos : Iovec → Iovec → TBuffer → Bool × Iovec × Iovec
get_read_pos first second b =
    if b.size == 0
    then (false, record first { base = none }, record second { len = 0 })
    else if ltb b.read_pos b.write_pos
    then (
      true,
      record { base = some b.read_pos; len = sub64 b.write_pos b.read_pos },
      record { base = none; len = 0 },
    )
    else (
      true,
      record { base = some b.read_pos; len = sub64 b.capacity b.read_pos },
      record { base = some 0; len = b.write_pos },
    )

unfoldable pub get_write_pos : Iovec → Iovec → TBuffer → Bool × Iovec × Iovec
get_write_pos first second b =
    if b.size == b.capacity
    then (false, record first { len = 0 }, record second { len = 0 })
    else if ltb b.write_pos b.read_pos
    then (
      true,
      record { base = some b.write_pos; len = sub64 b.read_pos b.write_pos },
      record { base = none; len = 0 },
    )
    else (
      true,
      record { base = some b.write_pos; len = sub64 b.capacity b.write_pos },
      record { base = some 0; len = b.read_pos },
    )

-- The bytes that a vector covers.
abbrev pub covered : TBuffer → Iovec → List ℕ
covered b v = elim v.base [ none ↦ [] | some p ↦ slice b.buffer.cell p v.len ]

-- On a ring that is not empty `GetReadPos` returns true, and the two vectors cover the contents in
-- order; on an empty ring it returns false.
pub get_read_pos-covers :
    {b : TBuffer} (first second : Iovec)
    → IsValid b
    → let (ok, one, two) = get_read_pos first second b in
      ((b.size ≡ 0) × (ok ≡ false))
      ⊎ ((b.size ≢ 0) × (ok ≡ true) × (covered b one ++ covered b two ≡ contents b))
unfolding get_read_pos contents
get_read_pos-covers {b} first second v = elim (ltb-cases 0 b.size) [
  | inr (_, none_held) ↦ inl (omega arith, rw (eq_true b.size 0 (omega arith)))
  | inl (_, held) ↦ elim (ltb-cases b.read_pos b.write_pos) [
    | inl (e, lt) ↦ inr (
        rw
          (
            eq_false b.size 0 (omega arith),
            e,
            sub64-eq b.write_pos b.read_pos (omega arith) (omega (arith, v.small, v.write_in)),
          )
          (
            omega arith,
            refl,
            append-nil (slice b.buffer.cell b.read_pos (b.write_pos - b.read_pos)) ∙ straight lt,
          ))
    | inr (e, le) ↦ inr (
        rw
          (
            eq_false b.size 0 (omega arith),
            e,
            sub64-eq b.capacity b.read_pos (omega arith) (omega (arith, v.small)),
          )
          (omega arith, refl, round held le))
  ]
]
  where
    straight :
        b.read_pos < b.write_pos
        → slice b.buffer.cell b.read_pos (b.write_pos - b.read_pos) ≡ contents b
    straight lt =
        let e : b.write_pos - b.read_pos ≡ b.size = omega arith in
        rw e (slice-flat b.buffer.cell b.capacity b.read_pos b.size (omega arith))

    round :
        0 < b.size
        → b.write_pos ≤ b.read_pos
        → slice b.buffer.cell b.read_pos (b.capacity - b.read_pos)
            ++ slice b.buffer.cell 0 b.write_pos
          ≡ contents b
    round held le =
        let e : b.write_pos ≡ b.read_pos + b.size - b.capacity = omega arith in
        rw e (
          slice-round b.buffer.cell b.capacity b.read_pos b.size (omega arith) (omega arith)
            (omega arith))

-- What `readv` leaves: the bytes fill the first vector and then the second, and nothing outside
-- the two vectors changes. `cell` is what stands in the allocation afterwards.
pub record Received (b : TBuffer) (one two : Iovec) (bytes : List ℕ) (cell : ℕ → ℕ) : Type 0 where
  pub fits : length bytes ≤ one.len + two.len
  pub front :
      (p i : ℕ)
      → one.base ≡ some p
      → i < one.len
      → i < length bytes
      → cell (p + i) ≡ get_or bytes i 0
  pub back :
      (p i : ℕ)
      → two.base ≡ some p
      → i < two.len
      → one.len + i < length bytes
      → cell (p + i) ≡ get_or bytes (one.len + i) 0
  pub kept :
      (j : ℕ)
      → ((p : ℕ) → one.base ≡ some p → (j < p) ⊎ (p + one.len ≤ j))
      → ((p : ℕ) → two.base ≡ some p → (j < p) ⊎ (p + two.len ≤ j))
      → cell j ≡ b.buffer.cell j

-- On a ring that is not full `GetWritePos` returns true; on a full one it returns false.
pub get_write_pos-full :
    (b : TBuffer) (first second : Iovec)
    → ((b.size ≡ b.capacity) × ((get_write_pos first second b).0 ≡ false))
      ⊎ ((b.size ≢ b.capacity) × ((get_write_pos first second b).0 ≡ true))
unfolding get_write_pos
get_write_pos-full b first second = ground arith

-- The free space is one run of cells.
Received-straight :
    {b : TBuffer} (bytes : List ℕ) (cell : ℕ → ℕ)
    → IsValid b
    → b.write_pos < b.read_pos
    → Received b
        (record { base = some b.write_pos; len = b.read_pos - b.write_pos })
        (record { base = none; len = 0 })
        bytes
        cell
    → Holds b bytes cell
Received-straight {b} bytes cell v lt got = (old, new)
  where
    old :
        (i : ℕ)
        → i < b.size
        → cell (wrap b.capacity (b.read_pos + i)) ≡ b.buffer.cell (wrap b.capacity (b.read_pos + i))
    old i k =
        got.kept (wrap b.capacity (b.read_pos + i)) (λ p e. unfold wrap in ground arith)
          (λ p e. absurd (cc))

    new :
        (i : ℕ)
        → i < length bytes
        → cell (wrap b.capacity (b.read_pos + b.size + i)) ≡ get_or bytes i 0
    new i k =
        let place : wrap b.capacity (b.read_pos + b.size + i) ≡ b.write_pos + i =
          unfold wrap in ground arith in
        rw place (got.front b.write_pos i refl (omega (arith, got.fits)) k)

-- The free space goes round the end of the allocation.
Received-round :
    {b : TBuffer} (bytes : List ℕ) (cell : ℕ → ℕ)
    → IsValid b
    → b.read_pos ≤ b.write_pos
    → b.size < b.capacity
    → Received b
        (record { base = some b.write_pos; len = b.capacity - b.write_pos })
        (record { base = some 0; len = b.read_pos })
        bytes
        cell
    → Holds b bytes cell
Received-round {b} bytes cell v le room got = (old, new)
  where
    old :
        (i : ℕ)
        → i < b.size
        → cell (wrap b.capacity (b.read_pos + i)) ≡ b.buffer.cell (wrap b.capacity (b.read_pos + i))
    old i k =
        got.kept (wrap b.capacity (b.read_pos + i)) (λ p e. unfold wrap in ground arith)
          (λ p e. unfold wrap in ground arith)

    new :
        (i : ℕ)
        → i < length bytes
        → cell (wrap b.capacity (b.read_pos + b.size + i)) ≡ get_or bytes i 0
    new i k = elim (ltb-cases i (b.capacity - b.write_pos)) [
      | inl (_, before) ↦
          let place : wrap b.capacity (b.read_pos + b.size + i) ≡ b.write_pos + i =
            unfold wrap in ground arith in
          rw place (got.front b.write_pos i refl before k)
      | inr (_, after) ↦
          let place : wrap b.capacity (b.read_pos + b.size + i)
              ≡ 0 + (i - (b.capacity - b.write_pos)) =
            unfold wrap in ground arith in
          let index : b.capacity - b.write_pos + (i - (b.capacity - b.write_pos)) ≡ i =
            omega arith in
          let value : cell (0 + (i - (b.capacity - b.write_pos)))
              ≡ get_or bytes (b.capacity - b.write_pos + (i - (b.capacity - b.write_pos))) 0 =
            got.back 0 (i - (b.capacity - b.write_pos)) refl (omega (arith, got.fits))
              (omega arith) in
          rw place (value ∙ ap (λ t. get_or bytes t 0) index)
    ]

pub Received-Holds :
    {b : TBuffer} (first second : Iovec) (bytes : List ℕ) (cell : ℕ → ℕ)
    → IsValid b
    → b.size < b.capacity
    → let (ok, one, two) = get_write_pos first second b in
      Received b one two bytes cell → Holds b bytes cell × (length bytes ≤ b.capacity - b.size)
unfolding get_write_pos
Received-Holds {b} first second bytes cell v room got = elim (ltb-cases b.write_pos b.read_pos) [
  | inl (e, lt) ↦
      let got' =
        rw
          (
            eq_false b.size b.capacity (omega arith),
            e,
            sub64-eq b.read_pos b.write_pos (omega arith) (omega (arith, v.small, v.read_in)),
          )
          at got in
      (Received-straight bytes cell v lt got', omega (arith, got'.fits, v.layout))
  | inr (e, le) ↦
      let got' =
        rw
          (
            eq_false b.size b.capacity (omega arith),
            e,
            sub64-eq b.capacity b.write_pos (omega arith) (omega (arith, v.small)),
          )
          at got in
      (Received-round bytes cell v le room got', omega (arith, got'.fits, v.layout))
]

-- What `readv` puts into the vectors of `GetWritePos` joins the contents in order when
-- `AddWritePos` is then called with its length.
pub get_write_pos-receives :
    {b : TBuffer} (first second : Iovec) (bytes : List ℕ) (cell : ℕ → ℕ)
    → IsValid b
    → b.size < b.capacity
    → let (ok, one, two) = get_write_pos first second b in
      Received b one two bytes cell
      → contents
          (add_write_pos (length bytes) (record b { buffer = record (b.buffer) { cell = cell } })).0
        ≡ contents b ++ bytes
unfolding contents add_write_pos
get_write_pos-receives {b} first second bytes cell v room got =
    let (holds, fits) = Received-Holds first second bytes cell v room got in
    rw
      (
        le→ltb (sub64 b.capacity b.size) (length bytes) (omega (arith, free)),
        add64-eq b.size (length bytes) (omega (arith, v.small)),
      )
      (contents-Holds b bytes cell holds)
  where
    free : sub64 b.capacity b.size ≡ b.capacity - b.size
    free = sub64-eq b.capacity b.size v.size_in (omega (arith, v.small))
