-- ===== src/Ring/Write.antt =====
-- RingBuffer::Write: the bytes join the contents, in a larger allocation if the free space is too
-- small.
use streamcode.Prelude.{
  ℕ, ◌+◌, ◌-◌, ◌*◌, ◌^◌, ◌≤◌, ◌<◌, ◌≡◌, ◌⊎◌, inl, inr, ap, ap₂, ◌∙◌, refl, some, List, ◌++◌, arith,
  ltb-cases, le→ltb, le→leb, sub64, sub64-eq, add64-eq, length, get_or,
}
use streamcode.Memory.{of_list, memcpy, slice, blit}
use streamcode.Memory.Laws.{memcpy-eq, slice-ext, slice-append, slice-get_or}
use streamcode.TBuffer.{TBuffer}
use streamcode.Ring.{make_room, grown_capacity, store, write}
use streamcode.Ring.Valid.{IsValid, wrap, contents}
use streamcode.Ring.Resize.{resize-ok}

-- A step that keeps the ring valid and appends `bytes`, and at most doubles what is needed.
abbrev pub Appends : TBuffer → List ℕ → TBuffer → Type 0
Appends b bytes after =
    IsValid after
    × (contents after ≡ contents b ++ bytes)
    × (after.size ≡ b.size + length bytes)
    × ((after.capacity ≤ b.capacity) ⊎ (after.capacity ≤ 2 * (b.size + length bytes)))

-- The cells `g` hold the old contents and, behind them, the new bytes.
abbrev pub Holds : TBuffer → List ℕ → (ℕ → ℕ) → Type 0
Holds b bytes g =
    ((i : ℕ)
      → i < b.size
      → g (wrap b.capacity (b.read_pos + i)) ≡ b.buffer.cell (wrap b.capacity (b.read_pos + i)))
    × ((i : ℕ)
        → i < length bytes
        → g (wrap b.capacity (b.read_pos + b.size + i)) ≡ get_or bytes i 0)

pub contents-Holds :
    (b : TBuffer) (bytes : List ℕ) (g : ℕ → ℕ)
    → Holds b bytes g
    → slice (λ i. g (wrap b.capacity i)) b.read_pos (b.size + length bytes) ≡ contents b ++ bytes
unfolding contents
contents-Holds b bytes g h =
    slice-append _ b.read_pos b.size (length bytes)
    ∙ ap₂ ◌++◌ (slice-ext _ _ b.read_pos b.read_pos b.size h.0) (
        slice-ext _ (λ i. get_or bytes i 0) (b.read_pos + b.size) 0 (length bytes) fresh
        ∙ slice-get_or bytes)
  where
    fresh :
        (i : ℕ)
        → i < length bytes
        → g (wrap b.capacity (b.read_pos + b.size + i)) ≡ get_or bytes (0 + i) 0
    fresh i k = let e : 0 + i ≡ i = omega arith in rw e (h.1 i k)

-- The copy does not meet the end of the allocation.
store-straight :
    {b : TBuffer} (bytes : List ℕ)
    → IsValid b
    → length bytes ≤ b.capacity - b.size
    → (b.write_pos < b.read_pos) ⊎ (length bytes < b.capacity - b.write_pos)
    → (after : TBuffer) × (store bytes b ≡ some after) × Appends b bytes after
unfolding store contents
store-straight {b} bytes v h room = (
  record b {
    buffer = record (b.buffer) { cell = g };
    write_pos = b.write_pos + length bytes;
    size = b.size + length bytes;
  },
  outcome,
  (omega arith, contents-Holds b bytes g (old, new), refl, inl (omega arith)),
)
  where
    g : ℕ → ℕ
    g = blit b.buffer.cell b.write_pos (λ i. get_or bytes i 0) 0 (length bytes)

    copies :
        memcpy b.buffer b.write_pos (of_list bytes) 0 (length bytes)
        ≡ some (record (b.buffer) { cell = g })
    copies =
        unfold of_list in
        memcpy-eq b.buffer b.write_pos (of_list bytes) 0 (length bytes) (omega arith) (omega arith)

    outcome :
        store bytes b
        ≡ some (record b {
          buffer = record (b.buffer) { cell = g };
          write_pos = b.write_pos + length bytes;
          size = b.size + length bytes;
        })
    outcome = ground (
      arith,
      copies,
      sub64-eq b.capacity b.write_pos,
      add64-eq b.size (length bytes),
      add64-eq b.write_pos (length bytes),
    )

    old :
        (i : ℕ)
        → i < b.size
        → g (wrap b.capacity (b.read_pos + i)) ≡ b.buffer.cell (wrap b.capacity (b.read_pos + i))
    old i k = unfold blit wrap in ground arith

    new :
        (i : ℕ)
        → i < length bytes
        → g (wrap b.capacity (b.read_pos + b.size + i)) ≡ get_or bytes i 0
    new i k = unfold blit wrap in ground arith

-- The copy goes round the end of the allocation.
store-round :
    {b : TBuffer} (bytes : List ℕ)
    → IsValid b
    → length bytes ≤ b.capacity - b.size
    → b.read_pos ≤ b.write_pos
    → b.capacity - b.write_pos ≤ length bytes
    → (after : TBuffer) × (store bytes b ≡ some after) × Appends b bytes after
unfolding store contents
store-round {b} bytes v h le round = (
  stored,
  outcome,
  (omega arith, contents-Holds b bytes both (old, new), refl, inl (omega arith)),
)
  where
    space : ℕ
    space = b.capacity - b.write_pos

    one : ℕ → ℕ
    one = blit b.buffer.cell b.write_pos (λ i. get_or bytes i 0) 0 space

    both : ℕ → ℕ
    both = blit one 0 (λ i. get_or bytes i 0) space (length bytes - space)

    stored : TBuffer
    stored = record b {
      buffer = record (b.buffer) { cell = both };
      write_pos = length bytes - space;
      size = b.size + length bytes;
    }

    first :
        memcpy b.buffer b.write_pos (of_list bytes) 0 space
        ≡ some (record (b.buffer) { cell = one })
    first =
        unfold of_list in
        memcpy-eq b.buffer b.write_pos (of_list bytes) 0 space (omega arith) (omega arith)

    second :
        memcpy (record (b.buffer) { cell = one }) 0 (of_list bytes) space (length bytes - space)
        ≡ some (record (b.buffer) { cell = both })
    second =
        unfold of_list in
        memcpy-eq (record (b.buffer) { cell = one }) 0 (of_list bytes) space (length bytes - space)
          (omega arith) (omega arith)

    outcome : store bytes b ≡ some stored
    outcome =
        rw
          (
            le→leb b.read_pos b.write_pos le,
            sub64-eq b.capacity b.write_pos (omega (arith, v.write_in)) (omega (arith, v.small)),
            le→ltb (length bytes) space round,
            first,
            add64-eq (length bytes) b.write_pos (omega (arith, v.small)),
            sub64-eq (length bytes + b.write_pos) b.capacity (omega arith) (omega (arith, v.small)),
            add64-eq b.size (length bytes) (omega (arith, v.small)),
          )
          (let e : length bytes + b.write_pos - b.capacity ≡ length bytes - space = omega arith in
            rw (e, second))

    old :
        (i : ℕ)
        → i < b.size
        → both (wrap b.capacity (b.read_pos + i)) ≡ b.buffer.cell (wrap b.capacity (b.read_pos + i))
    old i k = unfold blit wrap in ground arith

    new :
        (i : ℕ)
        → i < length bytes
        → both (wrap b.capacity (b.read_pos + b.size + i)) ≡ get_or bytes i 0
    new i k = unfold blit wrap in ground arith

-- With enough free space the bytes are stored, and the capacity stays.
pub store-ok :
    {b : TBuffer} (bytes : List ℕ)
    → IsValid b
    → length bytes ≤ b.capacity - b.size
    → (after : TBuffer) × (store bytes b ≡ some after) × Appends b bytes after
store-ok {b} bytes v h = elim (ltb-cases b.write_pos b.read_pos) [
  | inl (_, lt) ↦ store-straight bytes v h (inl lt)
  | inr (_, le) ↦ elim (ltb-cases (length bytes) (b.capacity - b.write_pos)) [
    | inl (_, lt) ↦ store-straight bytes v h (inr lt)
    | inr (_, round) ↦ store-round bytes v h le round
  ]
]

-- The new capacity is enough.
grown_capacity_bounds :
    {b : TBuffer} (n : ℕ)
    → IsValid b
    → n + 2 * b.capacity < 2 ^ 62
    → b.capacity - b.size < n
    → (n + b.size ≤ grown_capacity n b)
      × (grown_capacity n b < 2 ^ 62)
      × (grown_capacity n b ≤ 2 * (b.size + n))
unfolding grown_capacity
grown_capacity_bounds {b} n v bound short =
    ground (arith, add64-eq n b.size, sub64-eq (n + b.size) b.capacity)

-- The allocation that `Write` goes on with holds the same contents and has room for `n` more.
make_room-ok :
    {b : TBuffer} (junk : ℕ → ℕ) (n : ℕ)
    → IsValid b
    → n + 2 * b.capacity < 2 ^ 62
    → (room : TBuffer) × (make_room junk n b ≡ some room)
      × IsValid room
      × (contents room ≡ contents b)
      × (room.size ≡ b.size)
      × (n ≤ room.capacity - room.size)
      × ((room.capacity ≤ b.capacity) ⊎ (room.capacity ≤ 2 * (b.size + n)))
unfolding make_room
make_room-ok {b} junk n v bound = elim (ltb-cases (b.capacity - b.size) n) [
  | inr (e, fits) ↦ (b, rw (free, e), v, refl, refl, fits, inl (omega arith))
  | inl (e, short) ↦
      let (enough, small, bounded) = grown_capacity_bounds n v bound short in
      let (room, eq, valid, same, cap, held) =
        resize-ok junk (grown_capacity n b) v (omega arith) small in
      (room, rw (free, e, eq), valid, same, held, omega arith, inr (omega arith))
]
  where
    free : sub64 b.capacity b.size ≡ b.capacity - b.size
    free = sub64-eq b.capacity b.size v.size_in (omega (arith, v.small))

-- `Write` to a valid ring does not fault. It leaves a valid ring whose contents
-- are the old contents and then the bytes, whether or not the allocation had to grow. The bound
-- keeps the new capacity below 2 ^ 62.
pub write-contents :
    {b : TBuffer} (junk : ℕ → ℕ) (bytes : List ℕ)
    → IsValid b
    → length bytes + 2 * b.capacity < 2 ^ 62
    → (after : TBuffer) × (write junk bytes b ≡ some after) × Appends b bytes after
unfolding write
write-contents {b} junk bytes v bound =
    let (room, eq, valid, same, held, fits, bounded) = make_room-ok junk (length bytes) v bound in
    let (after, done, appends) = store-ok bytes valid fits in
    (
      after,
      rw (eq, done),
      (
        appends.0,
        appends.1 ∙ ap (λ c. c ++ bytes) same,
        omega (arith, appends.2, held),
        omega (arith, appends.3, held, bounded),
      ),
    )
