-- ===== src/Ring/Resize.antt =====
-- RingBuffer::Resize: the bytes are laid out again from offset 0 of a new allocation.
use streamcode.Prelude.{
  ℕ, ◌+◌, ◌-◌, ◌^◌, ◌≤◌, ◌<◌, ◌≡◌, inl, inr, true, some, arith, ltb-cases, leb-cases, le→ltb,
  lt→ltb, le→leb, lt→leb, refl, sub64, sub64-eq,
}
use streamcode.Memory.{Block, new_block, slice, blit}
use streamcode.Memory.Laws.{memcpy-eq, slice-ext}
use streamcode.TBuffer.{TBuffer}
use streamcode.Ring.{resize, unroll}
use streamcode.Ring.Valid.{IsValid, wrap, contents}

-- What `Resize` copies: no copy leaves an allocation, and byte `i` of the contents comes to stand
-- at offset `i`.
abbrev Unrolls : TBuffer → Block → Type 0
Unrolls b fresh =
    (g : ℕ → ℕ) × (unroll b fresh ≡ some (record fresh { cell = g }))
    × ((i : ℕ) → i < b.size → g i ≡ b.buffer.cell (wrap b.capacity (b.read_pos + i)))

unroll-straight :
    {b : TBuffer} (fresh : Block)
    → IsValid b
    → b.size ≤ fresh.extent
    → 0 < b.size
    → b.read_pos < b.write_pos
    → Unrolls b fresh
unfolding unroll
unroll-straight {b} fresh v h pos lt = (
  blit fresh.cell 0 b.buffer.cell b.read_pos (b.write_pos - b.read_pos),
  rw (lt→ltb 0 b.size pos, lt→leb b.write_pos b.read_pos lt, wlen)
      (memcpy-eq fresh 0 b.buffer b.read_pos (b.write_pos - b.read_pos) (omega (arith, v.layout))
        (omega (arith, v.storage, v.write_in))),
  place,
)
  where
    wlen : sub64 b.write_pos b.read_pos ≡ b.write_pos - b.read_pos
    wlen = sub64-eq b.write_pos b.read_pos (omega arith) (omega (arith, v.small, v.write_in))

    place :
        (i : ℕ)
        → i < b.size
        → blit fresh.cell 0 b.buffer.cell b.read_pos (b.write_pos - b.read_pos) i
          ≡ b.buffer.cell (wrap b.capacity (b.read_pos + i))
    place i k = unfold blit wrap in ground arith

unroll-wrapped :
    {b : TBuffer} (fresh : Block)
    → IsValid b
    → b.size ≤ fresh.extent
    → 0 < b.size
    → b.write_pos ≤ b.read_pos
    → Unrolls b fresh
unfolding unroll
unroll-wrapped {b} fresh v h pos le = (
  both,
  rw
      (
        lt→ltb 0 b.size pos,
        le→leb b.write_pos b.read_pos le,
        tail,
        memcpy-eq fresh 0 b.buffer b.read_pos (b.capacity - b.read_pos) (omega (arith, v.layout))
            (omega (arith, v.storage, v.read_in)),
      )
      (memcpy-eq (record fresh { cell = one }) (b.capacity - b.read_pos) b.buffer 0 b.write_pos
        (omega (arith, v.layout, v.read_in)) (omega (arith, v.storage, v.write_in))),
  place,
)
  where
    tail : sub64 b.capacity b.read_pos ≡ b.capacity - b.read_pos
    tail = sub64-eq b.capacity b.read_pos (omega arith) (omega (arith, v.small))

    one : ℕ → ℕ
    one = blit fresh.cell 0 b.buffer.cell b.read_pos (b.capacity - b.read_pos)

    both : ℕ → ℕ
    both = blit one (b.capacity - b.read_pos) b.buffer.cell 0 b.write_pos

    place : (i : ℕ) → i < b.size → both i ≡ b.buffer.cell (wrap b.capacity (b.read_pos + i))
    place i k = unfold blit wrap in ground arith

unroll-Unrolls : {b : TBuffer} (fresh : Block) → IsValid b → b.size ≤ fresh.extent → Unrolls b fresh
unfolding unroll
unroll-Unrolls {b} fresh v h = elim (ltb-cases 0 b.size) [
  | inr (e, none_held) ↦ (fresh.cell, rw e, λ i k. absurd (omega arith))
  | inl (_, pos) ↦ elim (leb-cases b.write_pos b.read_pos) [
    | inl (_, le) ↦ unroll-wrapped fresh v h pos le
    | inr (_, lt) ↦ unroll-straight fresh v h pos lt
  ]
]

-- A resize to more than the size of the contents does not fault, keeps them and is valid.
pub resize-ok :
    {b : TBuffer} (junk : ℕ → ℕ) (new_size : ℕ)
    → IsValid b
    → b.size < new_size
    → new_size < 2 ^ 62
    → (after : TBuffer) × (resize junk new_size b ≡ some (after, true))
      × IsValid after
      × (contents after ≡ contents b)
      × (after.capacity ≡ new_size)
      × (after.size ≡ b.size)
unfolding resize contents new_block
resize-ok {b} junk new_size v h small =
    let (g, eq, place) = unroll-Unrolls (new_block junk new_size) v (omega arith) in
    (moved g, rw (le→ltb new_size b.size (omega arith), eq), omega arith, same g place, refl, refl)
  where
    moved : (ℕ → ℕ) → TBuffer
    moved g = record {
      buffer = record { extent = new_size; cell = g };
      write_pos = b.size;
      read_pos = 0;
      size = b.size;
      capacity = new_size;
    }

    same :
        (g : ℕ → ℕ)
        → ((i : ℕ) → i < b.size → g i ≡ b.buffer.cell (wrap b.capacity (b.read_pos + i)))
        → slice (λ i. g (wrap new_size i)) 0 b.size
          ≡ slice (λ i. b.buffer.cell (wrap b.capacity i)) b.read_pos b.size
    same g place =
        slice-ext _ _ 0 b.read_pos b.size λ i k.
          (let e : wrap new_size (0 + i) ≡ i = unfold wrap in ground arith in rw e (place i k))
