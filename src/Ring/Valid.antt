-- ===== src/Ring/Valid.antt =====
-- The representation invariant of RingBuffer, and the bytes that a ring stands for.
use streamcode.Prelude.{
  ℕ, ◌+◌, ◌-◌, ◌^◌, ◌≤◌, ◌<◌, ◌≡◌, ap, ◌⊎◌, true, List, ◌++◌, arith, drop, ltb, le→ltb, length,
  if◌then◌else◌, sub64, add64-eq, sub64-eq,
}
use streamcode.Memory.{slice}
use streamcode.Memory.Laws.{length-slice, slice-append, slice-ext, drop-slice}
use streamcode.TBuffer.{TBuffer, init}
use streamcode.Ring.{add_write_pos, add_read_pos, advance}

-- A ring is valid if its allocation has `capacity` bytes, both positions are inside it, and the
-- `size` bytes from `read_pos` on end at `write_pos`, with or without going round the end.
pub record IsValid (b : TBuffer) : Type 0 where
  pub storage : b.buffer.extent ≡ b.capacity
  pub small : b.capacity < 2 ^ 62
  pub read_in : b.read_pos < b.capacity
  pub write_in : b.write_pos < b.capacity
  pub size_in : b.size ≤ b.capacity
  pub layout :
      (b.read_pos + b.size ≡ b.write_pos) ⊎ (b.read_pos + b.size ≡ b.write_pos + b.capacity)

-- The offset at which the byte of place `i` stands.
unfoldable pub wrap : ℕ → ℕ → ℕ
wrap capacity i = if ltb i capacity then i else i - capacity

-- The bytes in a ring, oldest first.
unfoldable pub contents : TBuffer → List ℕ
contents b = slice (λ i. b.buffer.cell (wrap b.capacity i)) b.read_pos b.size

pub length-contents : (b : TBuffer) → length (contents b) ≡ b.size
unfolding contents
length-contents b = length-slice _ b.read_pos b.size

-- A new buffer is a valid ring.
pub init-IsValid : (junk : ℕ → ℕ) (n : ℕ) → 0 < n → n < 2 ^ 62 → IsValid (init junk n)
unfolding init
init-IsValid junk n h k = omega arith

-- The position goes on by `n` modulo the capacity, when what it passes over is in the ring.
pub advance-eq :
    (capacity pos other n : ℕ)
    → capacity < 2 ^ 62
    → pos ≤ capacity
    → n ≤ capacity
    → advance capacity pos other n ≡ (
        if ltb pos other
        then pos + n
        else if ltb n (capacity - pos)
        then pos + n
        else pos + n - capacity)
unfolding advance
advance-eq capacity pos other n small h k =
    ground
      (arith, sub64-eq capacity pos, add64-eq pos n, add64-eq n pos, sub64-eq (n + pos) capacity)

pub add_write_pos-IsValid :
    {b : TBuffer} (n : ℕ)
    → IsValid b
    → n ≤ b.capacity - b.size
    → IsValid (add_write_pos n b).0 × ((add_write_pos n b).1 ≡ true)
unfolding add_write_pos
add_write_pos-IsValid {b} n v h = ground (
  arith,
  advance-eq b.capacity b.write_pos b.read_pos n,
  sub64-eq b.capacity b.size,
  add64-eq b.size n,
)

pub add_read_pos-IsValid :
    {b : TBuffer} (n : ℕ)
    → IsValid b
    → n ≤ b.size
    → IsValid (add_read_pos n b).0 × ((add_read_pos n b).1 ≡ true)
unfolding add_read_pos
add_read_pos-IsValid {b} n v h =
    ground (arith, advance-eq b.capacity b.read_pos b.write_pos n, sub64-eq b.size n)

-- Reading `n` bytes from a position and from the same position one round later.
pub slice-wrap :
    (f : ℕ → ℕ) (capacity p q n : ℕ)
    → (p ≡ q) ⊎ (p + capacity ≡ q)
    → q + n ≤ capacity + capacity
    → slice (λ i. f (wrap capacity i)) p n ≡ slice (λ i. f (wrap capacity i)) q n
unfolding wrap
slice-wrap f capacity p q n same h =
    slice-ext (λ i. f (wrap capacity i)) (λ i. f (wrap capacity i)) p q n λ i k. ap f (place i k)
  where
    place : (i : ℕ) → i < n → wrap capacity (p + i) ≡ wrap capacity (q + i)
    place i k = ground arith

-- What `AddReadPos` takes off, in the terms of the positions.
pub add_read_pos-place :
    {b : TBuffer} (n : ℕ)
    → IsValid b
    → n ≤ b.size
    → (advance b.capacity b.read_pos b.write_pos n ≡ b.read_pos + n)
      ⊎ (advance b.capacity b.read_pos b.write_pos n + b.capacity ≡ b.read_pos + n)
add_read_pos-place {b} n v h = ground (arith, advance-eq b.capacity b.read_pos b.write_pos n)

-- Dropping `n` bytes from the front.
pub contents-add_read_pos :
    {b : TBuffer} (n : ℕ)
    → IsValid b
    → n ≤ b.size
    → contents (add_read_pos n b).0 ≡ drop n (contents b)
unfolding add_read_pos contents
contents-add_read_pos {b} n v h =
    rw (le→ltb b.size n h, sub64-eq b.size n h (omega (arith, v.small)), drop-slice)
      (slice-wrap b.buffer.cell b.capacity _ (b.read_pos + n) (b.size - n)
        (add_read_pos-place n v h) (omega (arith, v.read_in, v.size_in)))

-- The bytes that the caller has put behind the contents join them.
pub contents-add_write_pos :
    {b : TBuffer} (n : ℕ)
    → IsValid b
    → n ≤ b.capacity - b.size
    → contents (add_write_pos n b).0
      ≡ contents b ++ slice (λ i. b.buffer.cell (wrap b.capacity i)) (b.read_pos + b.size) n
unfolding add_write_pos contents
contents-add_write_pos {b} n v h =
    rw
      (
        le→ltb (sub64 b.capacity b.size) n
            (rw (sub64-eq b.capacity b.size v.size_in (omega (arith, v.small))) h),
        add64-eq b.size n (omega (arith, v.small)),
      )
      (slice-append _ b.read_pos b.size n)
