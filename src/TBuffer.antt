-- ===== src/TBuffer.antt =====
-- base/TBuffer.h: the state and the accessors that RingBuffer and DrainableBuffer inherit.
use streamcode.Prelude.{ℕ, ◌+◌, ◌*◌, Bool, Option, none, some, List, [], ◌∷◌, ◌==◌}
use streamcode.Memory.{Block, new_block}

-- `buffer_` is the allocation, and the other fields are the members of that name.
pub record TBuffer : Type 0 where
  pub buffer : Block
  pub write_pos : ℕ
  pub read_pos : ℕ
  pub size : ℕ
  pub capacity : ℕ

-- The constructor.
unfoldable pub init : (ℕ → ℕ) → ℕ → TBuffer
unfolding new_block
init junk n = record {
  buffer = new_block junk n;
  write_pos = 0;
  read_pos = 0;
  size = 0;
  capacity = n;
}

unfoldable pub full : TBuffer → Bool
full b = b.capacity == b.size

unfoldable pub empty : TBuffer → Bool
empty b = b.size == 0

-- The integer whose bytes, lowest first, are the list: what a little-endian machine reads back
-- after `memcpy(&value, p, n)` into a zeroed integer.
unfoldable pub little_endian : List ℕ → ℕ
little_endian [] = 0
little_endian (x ∷ xs) = x + 256 * little_endian xs

-- What `Peek8` to `Peek64` return of the outcome of `Peek`. The outer option is a fault; the inner
-- one is `Peek` returning false, which leaves the zeroed integer alone.
unfoldable pub peeked : Option (Option (List ℕ)) → Option ℕ
unfolding little_endian
peeked none = none
peeked (some none) = some 0
peeked (some (some bytes)) = some (little_endian bytes)
