-- ===== src/Buffer.antt =====
-- stream/Buffer.h and stream/Buffer.cpp: the growing buffer that AMFWriter and RtmpDecoder collect
-- their output in.
pub mod Append
use streamcode.Prelude.{
  ℕ, ◌+◌, ◌-◌, ◌<◌, Bool, true, false, ◌&&◌, Option, none, some, List, length, ltb, leb,
  if◌then◌else◌, ◌>>=◌, add32, sub32,
}
use streamcode.Memory.{Block, new_block, of_list, memcpy, slice}

-- `block` is the allocation of `_data`, `current` the offset of `_current` in it, and `null` says
-- that `_data` is NULL.
pub record Buffer : Type 0 where
  pub null : Bool
  pub block : Block
  pub current : ℕ
  pub size : ℕ
  pub capacity : ℕ

-- `Buffer(unsigned int size)`.
unfoldable pub init : (ℕ → ℕ) → ℕ → Buffer
unfolding new_block
init junk n = record { null = false; block = new_block junk n; current = 0; size = 0; capacity = n }

-- `Buffer(unsigned char*, unsigned int)`, and the constructor from another buffer.
unfoldable pub copy_of : (ℕ → ℕ) → List ℕ → Option Buffer
unfolding new_block of_list
copy_of junk bytes =
    memcpy (new_block junk (length bytes)) 0 (of_list bytes) 0 (length bytes) >>= λ filled.
    some (record {
      null = false;
      block = filled;
      current = 0;
      size = length bytes;
      capacity = length bytes;
    })

-- `Append` copies behind the contents; or moves them to the front first; or moves to a new
-- allocation that just holds both. The number is what it returns.
unfoldable pub append : (ℕ → ℕ) → List ℕ → Buffer → Option (ℕ × Buffer)
unfolding new_block of_list
append junk bytes b =
    if b.null
    then some (0, b)
    else if leb n remain
    then (memcpy b.block (b.current + b.size) (of_list bytes) 0 n >>= λ filled.
        some (n, record b { block = filled; size = add32 b.size n }))
    else if ltb n (add32 remain b.current)
    then (memcpy b.block 0 b.block b.current b.size >>= λ moved.
        memcpy moved b.size (of_list bytes) 0 n >>= λ filled.
        some (n, record b { block = filled; current = 0; size = add32 b.size n }))
    else (memcpy (new_block junk (add32 n b.size)) 0 b.block b.current b.size >>= λ moved.
        memcpy moved b.size (of_list bytes) 0 n >>= λ filled. some (
          n,
          record {
            null = false;
            block = filled;
            current = 0;
            size = add32 b.size n;
            capacity = add32 b.size n;
          },
        ))
  where
    n : ℕ
    n = length bytes

    remain : ℕ
    remain = sub32 (sub32 b.capacity b.size) b.current

-- `MoveForward` drops bytes from the front by moving the others; it does nothing if it would
-- drop all of them.
unfoldable pub move_forward : ℕ → Buffer → Option (ℕ × Buffer)
move_forward n b =
    if leb b.size n
    then some (0, b)
    else (memcpy b.block b.current b.block (b.current + n) (sub32 b.size n) >>= λ moved.
        some (n, record b { block = moved; size = sub32 b.size n }))

-- `Next` drops bytes from the front by moving `_current`.
unfoldable pub next : ℕ → Buffer → ℕ × Buffer
next n b =
    if ltb b.size n
    then (0, b)
    else (n, record b { current = b.current + n; size = sub32 b.size n })

unfoldable pub set_size : ℕ → Buffer → ℕ × Buffer
set_size n b = (n, if leb n b.capacity then record b { size = n } else b)

unfoldable pub reset : Buffer → Buffer
reset b = record b { current = 0; size = 0 }

-- The bytes from `data()` on.
unfoldable pub contents : Buffer → List ℕ
contents b = slice b.block.cell b.current b.size
