-- ===== src/Ring/Peek.antt =====
-- RingBuffer::Peek and RingBuffer::Read(void*, size_t).
use streamcode.Prelude.{
  ℕ, ◌+◌, ◌-◌, ◌%◌, ◌^◌, ◌≤◌, ◌<◌, ◌≡◌, ◌⊎◌, ap, ap₂, sym, ◌∙◌, refl, none, some, ◌++◌, arith,
  ltb-cases, leb-cases, sub64-eq, add64-eq, sub64-wraps, inl, inr, take, drop,
}
use streamcode.Memory.{load, slice}
use streamcode.Memory.Laws.{load-eq, slice-ext, slice-append, take-slice, drop-slice}
use native.Mathlib.Nat.{mod-eq_of_lt, mod-eq-sub-mod}
use streamcode.TBuffer.{TBuffer}
use streamcode.Ring.{peek, skip, read}
use streamcode.Ring.Valid.{IsValid, wrap, contents, slice-wrap}

-- A part of the contents, as the cells that hold it.
pub part-contents :
    (b : TBuffer) (n offset : ℕ)
    → n + offset ≤ b.size
    → take n (drop offset (contents b))
      ≡ slice (λ i. b.buffer.cell (wrap b.capacity i)) (b.read_pos + offset) n
unfolding contents
part-contents b n offset h =
    rw (drop-slice (λ i. b.buffer.cell (wrap b.capacity i)) b.read_pos offset b.size)
      (take-slice _ (b.read_pos + offset) n (b.size - offset) (omega arith))

-- Cells that do not meet the end of the allocation.
pub slice-flat :
    (f : ℕ → ℕ) (capacity p n : ℕ)
    → p + n ≤ capacity
    → slice f p n ≡ slice (λ i. f (wrap capacity i)) p n
unfolding wrap
slice-flat f capacity p n h = slice-ext f (λ i. f (wrap capacity i)) p p n λ i k. ap f (place i k)
  where
    place : (i : ℕ) → i < n → p + i ≡ wrap capacity (p + i)
    place i k = ground arith

peek-flat :
    {b : TBuffer} (n offset : ℕ)
    → IsValid b
    → n + offset ≤ b.size
    → b.read_pos + offset + n ≤ b.capacity
    → peek n offset b ≡ some (some (slice b.buffer.cell (b.read_pos + offset) n))
unfolding peek
peek-flat {b} n offset v h flat = ground (
  arith,
  add64-eq n offset,
  add64-eq b.read_pos offset,
  sub64-eq b.capacity b.read_pos,
  load-eq b.buffer (b.read_pos + offset) n,
)

peek-round :
    {b : TBuffer} (n offset : ℕ)
    → IsValid b
    → n + offset ≤ b.size
    → b.read_pos + offset ≤ b.capacity
    → b.capacity < b.read_pos + offset + n
    → peek n offset b
      ≡ some (
          some (
            slice b.buffer.cell (b.read_pos + offset) (b.capacity - b.read_pos - offset)
            ++ slice b.buffer.cell 0 (n + b.read_pos + offset - b.capacity)))
unfolding peek
peek-round {b} n offset v h reach round = ground (
  arith,
  add64-eq n offset,
  add64-eq b.read_pos offset,
  sub64-eq b.capacity b.read_pos,
  sub64-eq (b.capacity - b.read_pos) offset,
  add64-eq n b.read_pos,
  add64-eq (n + b.read_pos) offset,
  sub64-eq (n + b.read_pos + offset) b.capacity,
  load-eq b.buffer (b.read_pos + offset) (b.capacity - b.read_pos - offset),
  load-eq b.buffer 0 (n + b.read_pos + offset - b.capacity),
)

-- Cells that go round the end of the allocation.
pub slice-round :
    (f : ℕ → ℕ) (capacity p n : ℕ)
    → p ≤ capacity
    → capacity ≤ p + n
    → p + n ≤ capacity + capacity
    → slice f p (capacity - p) ++ slice f 0 (p + n - capacity)
      ≡ slice (λ i. f (wrap capacity i)) p n
slice-round f capacity p n h k l =
    ap₂ ◌++◌ (slice-flat f capacity p (capacity - p) (omega arith)) (
      slice-flat f capacity 0 (p + n - capacity) (omega arith)
      ∙ slice-wrap f capacity 0 (p + (capacity - p)) (p + n - capacity) (inr (omega arith))
          (omega arith))
    ∙ sym (slice-append (λ i. f (wrap capacity i)) p (capacity - p) (p + n - capacity))
    ∙ ap (slice (λ i. f (wrap capacity i)) p) (omega arith)

-- `Peek` of bytes that the ring holds copies out exactly those bytes, provided that the first of
-- them does not lie beyond the end of the allocation.
pub peek-contents :
    {b : TBuffer} (n offset : ℕ)
    → IsValid b
    → n + offset ≤ b.size
    → b.read_pos + offset ≤ b.capacity
    → peek n offset b ≡ some (some (take n (drop offset (contents b))))
peek-contents {b} n offset v h reach = elim (leb-cases (b.read_pos + offset + n) b.capacity) [
  | inl (_, flat) ↦
      peek-flat n offset v h flat
      ∙ ap (λ c. some (some c))
          (slice-flat b.buffer.cell b.capacity (b.read_pos + offset) n flat
            ∙ sym (part-contents b n offset h))
  | inr (_, round) ↦
      peek-round n offset v h reach round
      ∙ ap (λ c. some (some c))
          (rw (tail, rest)
              (slice-round b.buffer.cell b.capacity (b.read_pos + offset) n reach (omega arith)
                (omega (arith, v.layout, v.read_in, v.write_in)))
            ∙ sym (part-contents b n offset h))
]
  where
    tail : b.capacity - b.read_pos - offset ≡ b.capacity - (b.read_pos + offset)
    tail = omega arith

    rest : n + b.read_pos + offset - b.capacity ≡ b.read_pos + offset + n - b.capacity
    rest = omega arith

-- `Peek` of bytes that the ring holds reads outside the allocation whenever the first of them lies
-- beyond the end: the length of the first copy is a negative number.
pub peek-faults :
    {b : TBuffer} (n offset : ℕ)
    → IsValid b
    → n + offset ≤ b.size
    → b.capacity < b.read_pos + offset
    → peek n offset b ≡ none
unfolding peek load
peek-faults {b} n offset v h far = ground (
  arith,
  add64-eq n offset,
  add64-eq b.read_pos offset,
  sub64-eq b.capacity b.read_pos,
  sub64-wraps (b.capacity - b.read_pos) offset,
)

-- `Peek` of more than the ring holds returns false.
pub peek-short :
    (b : TBuffer) (n offset : ℕ)
    → b.size < n + offset
    → n + offset < 2 ^ 64
    → peek n offset b ≡ some none
unfolding peek
peek-short b n offset h small = ground (arith, add64-eq n offset)

-- The position after `readPos_ = (readPos_ + n) % capacity_`.
skip-place :
    (capacity p n : ℕ)
    → p < capacity
    → n ≤ capacity
    → ((p + n) % capacity ≡ p + n) × (p + n < capacity) ⊎ ((p + n) % capacity + capacity ≡ p + n)
skip-place capacity p n h k = elim (ltb-cases (p + n) capacity) [
  | inl (_, lt) ↦ inl (mod-eq_of_lt lt, lt)
  | inr (_, le) ↦ inr (
      omega (
        arith,
        mod-eq-sub-mod {n = p + n} {m = capacity} le,
        mod-eq_of_lt {n = p + n - capacity} {m = capacity} (omega arith),
      ))
]

-- What is left after the first `n` bytes are taken off.
abbrev pub Drops : ℕ → TBuffer → TBuffer → Type 0
Drops n b after =
    IsValid after
    × (contents after ≡ drop n (contents b))
    × (after.capacity ≡ b.capacity)
    × (after.size ≡ b.size - n)

pub skip-Drops :
    {b : TBuffer} (n : ℕ)
    → IsValid b
    → n ≤ b.size
    → (after : TBuffer) × (skip n b ≡ some after) × Drops n b after
unfolding skip contents
skip-Drops {b} n v h = (after, outcome, (valid, rest, refl, refl))
  where
    after : TBuffer
    after = record b { read_pos = (b.read_pos + n) % b.capacity; size = b.size - n }

    place :
        ((b.read_pos + n) % b.capacity ≡ b.read_pos + n) × (b.read_pos + n < b.capacity)
        ⊎ ((b.read_pos + n) % b.capacity + b.capacity ≡ b.read_pos + n)
    place = skip-place b.capacity b.read_pos n v.read_in (omega (arith, v.size_in))

    outcome : skip n b ≡ some after
    outcome = ground (arith, add64-eq b.read_pos n, sub64-eq b.size n)

    valid : IsValid after
    valid = ground (arith, place)

    rest : contents after ≡ drop n (contents b)
    rest = rw (drop-slice (λ i. b.buffer.cell (wrap b.capacity i)) b.read_pos n b.size) (
        slice-wrap b.buffer.cell b.capacity ((b.read_pos + n) % b.capacity) (b.read_pos + n)
          (b.size - n) (ground (arith, place)) (omega (arith, v.read_in, v.size_in)))

-- `Read` of bytes that the ring holds hands out the first bytes and leaves a valid ring with the
-- rest.
pub read-contents :
    {b : TBuffer} (n : ℕ)
    → IsValid b
    → n ≤ b.size
    → (after : TBuffer) × (read n b ≡ some (some (take n (contents b)), after)) × Drops n b after
unfolding read
read-contents {b} n v h =
    let (after, eq, drops) = skip-Drops n v h in
    (after, rw (peek-contents n 0 v (omega arith) (omega arith), eq), drops)
