-- ===== src/Buffer/Append.antt =====
-- The contents of a Buffer under its operations.
use streamcode.Prelude.{
  ℕ, ◌+◌, ◌-◌, ◌^◌, ◌≤◌, ◌<◌, ◌≡◌, inl, inr, refl, ap₂, sym, ◌∙◌, false, some, List, ◌++◌, arith,
  length, drop, get_or, ltb-cases, leb-cases, le→leb, lt→leb, lt→ltb, le→ltb, add32, sub32,
  add32-eq, sub32-eq,
}
use streamcode.Memory.{Block, new_block, of_list, memcpy, slice, blit}
use streamcode.Memory.Laws.{memcpy-eq, slice-ext, slice-append, slice-get_or, drop-slice}
use streamcode.Buffer.{Buffer, init, append, next, contents}

-- The contents lie in the allocation.
pub record IsValid (b : Buffer) : Type 0 where
  pub present : b.null ≡ false
  pub storage : b.block.extent ≡ b.capacity
  pub small : b.capacity < 2 ^ 31
  pub inside : b.current + b.size ≤ b.capacity

pub init-IsValid : (junk : ℕ → ℕ) (n : ℕ) → n < 2 ^ 31 → IsValid (init junk n)
unfolding init
init-IsValid junk n h = record { present = refl; storage = refl; small = h; inside = omega arith }

-- Cells `g` that hold the contents from `start` on and the new bytes behind them.
abbrev Joins : Buffer → List ℕ → (ℕ → ℕ) → ℕ → Type 0
Joins b bytes g start =
    ((i : ℕ) → i < b.size → g (start + i) ≡ b.block.cell (b.current + i))
    × ((i : ℕ) → i < length bytes → g (start + b.size + i) ≡ get_or bytes i 0)

contents-Joins :
    (b : Buffer) (bytes : List ℕ) (g : ℕ → ℕ) (start : ℕ)
    → Joins b bytes g start
    → slice g start (b.size + length bytes) ≡ contents b ++ bytes
unfolding contents
contents-Joins b bytes g start h =
    slice-append g start b.size (length bytes)
    ∙ ap₂ ◌++◌ (slice-ext g b.block.cell start b.current b.size h.0) (
        slice-ext g (λ i. get_or bytes i 0) (start + b.size) 0 (length bytes) fresh
        ∙ slice-get_or bytes)
  where
    fresh : (i : ℕ) → i < length bytes → g (start + b.size + i) ≡ get_or bytes (0 + i) 0
    fresh i k = let e : 0 + i ≡ i = omega arith in rw e (h.1 i k)

-- A step that appends `bytes`.
abbrev pub Appends : Buffer → List ℕ → Buffer → Type 0
Appends b bytes after =
    IsValid after × (contents after ≡ contents b ++ bytes) × (after.size ≡ b.size + length bytes)

-- Both forms of the test on the free space at the end.
remain-eq :
    {b : Buffer}
    → IsValid b
    → sub32 (sub32 b.capacity b.size) b.current ≡ b.capacity - b.size - b.current
remain-eq {b} v = rw (
  sub32-eq b.capacity b.size (omega arith) (omega arith),
  sub32-eq (b.capacity - b.size) b.current (omega arith) (omega arith),
)

room-eq :
    {b : Buffer}
    → IsValid b
    → add32 (b.capacity - b.size - b.current) b.current ≡ b.capacity - b.size
room-eq {b} v = add32-eq (b.capacity - b.size - b.current) b.current (omega arith) ∙ omega arith

append-in_place :
    {b : Buffer} (junk : ℕ → ℕ) (bytes : List ℕ)
    → IsValid b
    → length bytes ≤ b.capacity - b.size - b.current
    → (after : Buffer) × (append junk bytes b ≡ some (length bytes, after)) × Appends b bytes after
unfolding append contents
append-in_place {b} junk bytes v fits = (
  record b { block = record (b.block) { cell = g }; size = b.size + length bytes },
  rw (
    v.present,
    remain-eq v,
    le→leb _ _ fits,
    copies,
    add32-eq b.size (length bytes) (omega arith),
  ),
  (valid, contents-Joins b bytes g b.current (old, new), refl),
)
  where
    g : ℕ → ℕ
    g = blit b.block.cell (b.current + b.size) (λ i. get_or bytes i 0) 0 (length bytes)

    copies :
        memcpy b.block (b.current + b.size) (of_list bytes) 0 (length bytes)
        ≡ some (record (b.block) { cell = g })
    copies =
        unfold of_list in
        memcpy-eq b.block (b.current + b.size) (of_list bytes) 0 (length bytes) (omega arith)
          (omega arith)

    valid :
        IsValid (record b { block = record (b.block) { cell = g }; size = b.size + length bytes })
    valid = record {
      present = v.present;
      storage = v.storage;
      small = v.small;
      inside = omega arith;
    }

    old : (i : ℕ) → i < b.size → g (b.current + i) ≡ b.block.cell (b.current + i)
    old i k = unfold blit in ground arith

    new : (i : ℕ) → i < length bytes → g (b.current + b.size + i) ≡ get_or bytes i 0
    new i k = unfold blit in ground arith

-- The two copies into block `to`, which is the allocation itself or a new one.
relocate :
    {b : Buffer} (bytes : List ℕ) (to : Block)
    → IsValid b
    → length bytes + b.size ≤ to.extent
    → (one g : ℕ → ℕ) × (memcpy to 0 b.block b.current b.size ≡ some (record to { cell = one }))
      × (memcpy (record to { cell = one }) b.size (of_list bytes) 0 (length bytes)
          ≡ some (record to { cell = g }))
      × Joins b bytes g 0
relocate {b} bytes to v fits = (
  one,
  g,
  memcpy-eq to 0 b.block b.current b.size (omega arith) (omega arith),
  second,
  (old, new),
)
  where
    one : ℕ → ℕ
    one = blit to.cell 0 b.block.cell b.current b.size

    g : ℕ → ℕ
    g = blit one b.size (λ i. get_or bytes i 0) 0 (length bytes)

    second :
        memcpy (record to { cell = one }) b.size (of_list bytes) 0 (length bytes)
        ≡ some (record to { cell = g })
    second =
        unfold of_list in
        memcpy-eq (record to { cell = one }) b.size (of_list bytes) 0 (length bytes) (omega arith)
          (omega arith)

    old : (i : ℕ) → i < b.size → g (0 + i) ≡ b.block.cell (b.current + i)
    old i k = unfold blit in ground arith

    new : (i : ℕ) → i < length bytes → g (0 + b.size + i) ≡ get_or bytes i 0
    new i k = unfold blit in ground arith

append-moved :
    {b : Buffer} (junk : ℕ → ℕ) (bytes : List ℕ)
    → IsValid b
    → b.capacity - b.size - b.current < length bytes
    → length bytes + b.size < b.capacity
    → (after : Buffer) × (append junk bytes b ≡ some (length bytes, after)) × Appends b bytes after
unfolding append contents
append-moved {b} junk bytes v short fits =
    let (one, g, first, second, joins) = relocate bytes b.block v (omega arith) in
    (
      record b { block = record (b.block) { cell = g }; current = 0; size = b.size + length bytes },
      rw (
        v.present,
        remain-eq v,
        lt→leb _ _ short,
        room-eq v,
        lt→ltb (length bytes) (b.capacity - b.size) (omega arith),
        first,
        second,
        add32-eq b.size (length bytes) (omega arith),
      ),
      (
        record { present = v.present; storage = v.storage; small = v.small; inside = omega arith },
        contents-Joins b bytes g 0 joins,
        refl,
      ),
    )

append-grown :
    {b : Buffer} (junk : ℕ → ℕ) (bytes : List ℕ)
    → IsValid b
    → b.capacity - b.size - b.current < length bytes
    → b.capacity ≤ length bytes + b.size
    → length bytes + b.size < 2 ^ 31
    → (after : Buffer) × (append junk bytes b ≡ some (length bytes, after)) × Appends b bytes after
unfolding append contents
append-grown {b} junk bytes v short grow small =
    let (one, g, first, second, joins) =
      relocate bytes (new_block junk (length bytes + b.size)) v (unfold new_block in omega arith) in
    (
      record {
        null = false;
        block = record { extent = length bytes + b.size; cell = g };
        current = 0;
        size = b.size + length bytes;
        capacity = b.size + length bytes;
      },
      rw
          (
            v.present,
            remain-eq v,
            lt→leb _ _ short,
            room-eq v,
            le→ltb (length bytes) (b.capacity - b.size) (omega arith),
            add32-eq (length bytes) b.size (omega arith),
          )
          (unfold new_block in rw (first, second, add32-eq b.size (length bytes) (omega arith))),
      (
        record { present = refl; storage = omega arith; small = omega arith; inside = omega arith },
        contents-Joins b bytes g 0 joins,
        refl,
      ),
    )

-- `Append` to a valid buffer never faults, returns the number of bytes, and leaves the old contents
-- and then the bytes, in place, moved to the front or in a new allocation.
pub append-contents :
    {b : Buffer} (junk : ℕ → ℕ) (bytes : List ℕ)
    → IsValid b
    → length bytes + b.size < 2 ^ 31
    → (after : Buffer) × (append junk bytes b ≡ some (length bytes, after)) × Appends b bytes after
append-contents {b} junk bytes v small =
    elim (leb-cases (length bytes) (b.capacity - b.size - b.current)) [
      | inl (_, fits) ↦ append-in_place junk bytes v fits
      | inr (_, short) ↦ elim (ltb-cases (length bytes + b.size) b.capacity) [
        | inl (_, fits) ↦ append-moved junk bytes v short fits
        | inr (_, grow) ↦ append-grown junk bytes v short grow small
      ]
    ]

-- `Next` within the contents drops exactly that many bytes from the front.
pub next-contents :
    {b : Buffer} (n : ℕ)
    → IsValid b
    → n ≤ b.size
    → let (count, after) = next n b in
      (count ≡ n) × IsValid after × (contents after ≡ drop n (contents b))
unfolding next contents
next-contents {b} n v h =
    rw (le→ltb b.size n h, sub32-eq b.size n h (omega arith))
      (
        refl,
        record { present = v.present; storage = v.storage; small = v.small; inside = omega arith },
        sym (drop-slice b.block.cell b.current n b.size),
      )
