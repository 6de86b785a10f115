-- ===== src/Memory.antt =====
-- The memory that base/TBuffer.h, base/RingBuffer.cpp, base/DrainableBuffer.cpp and
-- stream/Buffer.cpp work on: allocations made by `new char[n]`, `memcpy` and `memmove`.
pub mod Laws
use streamcode.Prelude.{
  ℕ, zero, suc, ◌+◌, ◌-◌, ◌≤◌, ◌<◌, Bool, ◌&&◌, Option, none, some, List, [], ◌∷◌, length, get_or,
  ltb, leb, if◌then◌else◌,
}

-- An allocation: how many bytes it has, and what stands at each offset.
pub record Block : Type 0 where
  pub extent : ℕ
  pub cell : ℕ → ℕ

-- `new char[n]` leaves the bytes indeterminate: `junk` is what happens to stand there.
unfoldable pub new_block : (ℕ → ℕ) → ℕ → Block
new_block junk n = record { extent = n; cell = junk }

-- A run of bytes that the caller hands over by pointer and length.
unfoldable pub of_list : List ℕ → Block
of_list xs = record { extent = length xs; cell = λ i. get_or xs i 0 }

-- The `n` values of `f` from `s` on.
abbrev pub slice : (ℕ → ℕ) → ℕ → ℕ → List ℕ
slice f s zero = []
slice f s (suc n) = f s ∷ slice f (s + 1) n

-- The cells after `n` cells of `g` from `s` on are copied to offset `d` of `f`.
unfoldable pub blit : (ℕ → ℕ) → ℕ → (ℕ → ℕ) → ℕ → ℕ → ℕ → ℕ
blit f d g s n i = if leb d i && ltb i (d + n) then g (s + i - d) else f i

-- `memcpy(dst + d, src + s, n)`, and `memmove` where both are one block: the bytes read are those
-- from before the copy. `none` is an access outside an allocation.
unfoldable pub memcpy : Block → ℕ → Block → ℕ → ℕ → Option Block
unfolding blit
memcpy dst d src s n =
    if leb (d + n) dst.extent && leb (s + n) src.extent
    then some (record dst { cell = blit dst.cell d src.cell s n })
    else none

-- `memcpy(out, src + s, n)` into an object of the caller: the bytes that are copied.
unfoldable pub load : Block → ℕ → ℕ → Option (List ℕ)
load src s n = if leb (s + n) src.extent then some (slice src.cell s n) else none
