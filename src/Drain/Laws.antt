-- ===== src/Drain/Laws.antt =====
-- The contents of a DrainableBuffer under its operations.
use streamcode.Prelude.{
  ℕ, ◌+◌, ◌-◌, ◌^◌, ◌≤◌, ◌<◌, ◌≡◌, ◌⊎◌, inl, inr, refl, ap₂, sym, ◌∙◌, true, false, none, some,
  List, ◌++◌, arith, length, take, drop, get_or, ltb-cases, lt→ltb, le→ltb, take-all, sub64,
  add64-eq, sub64-eq,
}
use streamcode.Memory.{of_list, memcpy, slice, blit}
use streamcode.Memory.Laws.{
  memcpy-eq, slice-ext, slice-append, slice-get_or, drop-slice, take-slice, load-eq, length-slice,
}
use streamcode.TBuffer.{TBuffer, init}
use streamcode.Drain.{skip, read, write}

-- The contents are the bytes between the two positions.
pub record IsValid (b : TBuffer) : Type 0 where
  pub storage : b.buffer.extent ≡ b.capacity
  pub small : b.capacity < 2 ^ 62
  pub ends : b.read_pos + b.size ≡ b.write_pos
  pub inside : b.write_pos ≤ b.capacity

unfoldable pub contents : TBuffer → List ℕ
contents b = slice b.buffer.cell b.read_pos b.size

pub length-contents : (b : TBuffer) → length (contents b) ≡ b.size
unfolding contents
length-contents b = length-slice b.buffer.cell b.read_pos b.size

pub init-IsValid : (junk : ℕ → ℕ) (n : ℕ) → n < 2 ^ 62 → IsValid (init junk n)
unfolding init
init-IsValid junk n h = omega arith

-- `Read` of bytes that the buffer holds hands out the first bytes and leaves the rest.
pub read-take :
    {b : TBuffer} (n : ℕ)
    → IsValid b
    → n ≤ b.size
    → (read n b ≡ some (some (take n (contents b)), skip n b))
      × IsValid (skip n b)
      × (contents (skip n b) ≡ drop n (contents b))
unfolding read contents
read-take {b} n v h = (
  ground (
    arith,
    add64-eq n 0,
    add64-eq b.read_pos 0,
    load-eq b.buffer b.read_pos n,
    take-slice b.buffer.cell b.read_pos n b.size h,
  ),
  unfold skip in ground (arith, add64-eq b.read_pos n, sub64-eq b.size n),
  unfold skip in
      rw (add64-eq b.read_pos n (omega arith), sub64-eq b.size n h (omega arith))
        (sym (drop-slice b.buffer.cell b.read_pos n b.size)),
)

free : (b : TBuffer) → IsValid b → sub64 b.capacity b.size ≡ b.capacity - b.size
free b v = sub64-eq b.capacity b.size (omega arith) (omega arith)

-- Bytes that end before the end of the allocation are appended.
pub write-append :
    {b : TBuffer} (bytes : List ℕ)
    → IsValid b
    → b.write_pos + length bytes < b.capacity
    → (after : TBuffer) × (write bytes b ≡ some (after, true))
      × IsValid after
      × (contents after ≡ contents b ++ bytes)
unfolding write contents
write-append {b} bytes v fits = (
  record b {
    buffer = record (b.buffer) { cell = g };
    write_pos = b.write_pos + length bytes;
    size = b.size + length bytes;
  },
  rw (
    free b v,
    le→ltb (b.capacity - b.size) (length bytes) (omega arith),
    add64-eq b.write_pos (length bytes) (omega arith),
    lt→ltb (b.write_pos + length bytes) b.capacity fits,
    copies,
    add64-eq b.size (length bytes) (omega arith),
  ),
  omega arith,
  slice-append g b.read_pos b.size (length bytes)
      ∙ ap₂ ◌++◌ (slice-ext g b.buffer.cell b.read_pos b.read_pos b.size old) (
          slice-ext g (λ i. get_or bytes i 0) (b.read_pos + b.size) 0 (length bytes) new
          ∙ slice-get_or bytes),
)
  where
    g : ℕ → ℕ
    g = blit b.buffer.cell b.write_pos (λ i. get_or bytes i 0) 0 (length bytes)

    copies :
        memcpy b.buffer b.write_pos (of_list bytes) 0 (length bytes)
        ≡ some (record (b.buffer) { cell = g })
    copies =
        unfold of_list in
        memcpy-eq b.buffer b.write_pos (of_list bytes) 0 (length bytes) (omega arith) (omega arith)

    old : (i : ℕ) → i < b.size → g (b.read_pos + i) ≡ b.buffer.cell (b.read_pos + i)
    old i k = unfold blit in ground arith

    new : (i : ℕ) → i < length bytes → g (b.read_pos + b.size + i) ≡ get_or bytes (0 + i) 0
    new i k = unfold blit in ground arith

-- What `Write` does where the bytes would reach the end of the allocation.
write-wraps :
    {b : TBuffer} (bytes : List ℕ)
    → IsValid b
    → length bytes ≤ b.capacity - b.size
    → b.capacity ≤ b.write_pos + length bytes
    → b.write_pos + b.size ≤ b.capacity
    → (after : TBuffer) × (write bytes b ≡ some (after, true))
      × (take (length bytes) (contents after) ≡ bytes)
      × (after.size ≡ b.size + length bytes)
      × (after.write_pos ≡ b.size)
      × (after.read_pos ≡ 0)
unfolding write contents
write-wraps {b} bytes v fits full inside = (
  record b {
    buffer = record (b.buffer) { cell = g };
    write_pos = b.size;
    read_pos = 0;
    size = b.size + length bytes;
  },
  rw (
    free b v,
    le→ltb (b.capacity - b.size) (length bytes) fits,
    add64-eq b.write_pos (length bytes) (omega arith),
    le→ltb (b.write_pos + length bytes) b.capacity full,
    memcpy-eq b.buffer 0 b.buffer b.write_pos b.size (omega arith) (omega arith),
    copies,
    add64-eq b.size (length bytes) (omega arith),
  ),
  take-slice g 0 (length bytes) (b.size + length bytes) (omega arith)
      ∙ slice-ext g (λ i. get_or bytes i 0) 0 0 (length bytes) new
      ∙ slice-get_or bytes,
  refl,
  refl,
  refl,
)
  where
    one : ℕ → ℕ
    one = blit b.buffer.cell 0 b.buffer.cell b.write_pos b.size

    g : ℕ → ℕ
    g = blit one 0 (λ i. get_or bytes i 0) 0 (length bytes)

    copies :
        memcpy (record (b.buffer) { cell = one }) 0 (of_list bytes) 0 (length bytes)
        ≡ some (record (b.buffer) { cell = g })
    copies =
        unfold of_list in
        memcpy-eq (record (b.buffer) { cell = one }) 0 (of_list bytes) 0 (length bytes)
          (omega arith) (omega arith)

    new : (i : ℕ) → i < length bytes → g (0 + i) ≡ get_or bytes (0 + i) 0
    new i k = unfold blit in ground arith

-- An empty buffer takes bytes that reach the end of the allocation, and then holds just them, but
-- its write position stays at 0.
pub write-empty :
    {b : TBuffer} (bytes : List ℕ)
    → IsValid b
    → b.size ≡ 0
    → length bytes ≤ b.capacity
    → b.capacity ≤ b.write_pos + length bytes
    → (after : TBuffer) × (write bytes b ≡ some (after, true))
      × (contents after ≡ bytes)
      × (after.write_pos ≡ 0)
write-empty {b} bytes v held fits full =
    let (after, eq, front, size, pos, start) =
      write-wraps bytes v (omega arith) full (omega arith) in
    (
      after,
      eq,
      sym (
            take-all (length bytes) (contents after)
              (omega (arith, length-contents after, size, held)))
          ∙ front,
      omega (arith, pos, held),
    )

-- Where the bytes reach the end of the allocation, `Write` either reads beyond it or returns true
-- with the new bytes over the front of the contents.
pub write-overwrites :
    {b : TBuffer} (bytes : List ℕ)
    → IsValid b
    → length bytes ≤ b.capacity - b.size
    → b.capacity ≤ b.write_pos + length bytes
    → ((b.capacity < b.write_pos + b.size) × (write bytes b ≡ none))
      ⊎ ((after : TBuffer) × (write bytes b ≡ some (after, true))
          × (take (length bytes) (contents after) ≡ bytes)
          × (after.size ≡ b.size + length bytes))
unfolding write memcpy
write-overwrites {b} bytes v fits full = elim (ltb-cases b.capacity (b.write_pos + b.size)) [
  | inl (_, far) ↦ inl (far, ground (arith, free b v, add64-eq b.write_pos (length bytes)))
  | inr (_, inside) ↦
      let (after, eq, front, size, _, _) = write-wraps bytes v fits full inside in
      inr (after, eq, front, size)
]

-- What does not fit is refused, and nothing changes.
pub write-refuses :
    {b : TBuffer} (bytes : List ℕ)
    → IsValid b
    → b.capacity - b.size < length bytes
    → write bytes b ≡ some (b, false)
unfolding write
write-refuses {b} bytes v short = ground (arith, sub64-eq b.capacity b.size)
