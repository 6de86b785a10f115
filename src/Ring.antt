-- ===== src/Ring.antt =====
-- base/RingBuffer.h and base/RingBuffer.cpp: the byte ring that each connection reads into and
-- writes from. The pointers that callers pass are not NULL.
pub mod Valid
pub mod Resize
pub mod Write
pub mod Peek
pub mod Queue
pub mod Words
pub mod Vectors
pub mod Strings
pub mod Transfer
use streamcode.Prelude.{
  ℕ, ◌*◌, ◌%◌, ◌^◌, Bool, true, false, Option, none, some, List, ◌++◌, length, ltb, leb, ◌==◌,
  if◌then◌else◌, ◌>>=◌, add64, sub64,
}
use streamcode.Memory.{Block, new_block, of_list, memcpy, load}
use streamcode.TBuffer.{TBuffer, peeked}

-- The bytes that `Resize` copies to the new allocation.
unroll : TBuffer → Block → Option Block
unroll b fresh =
    if ltb 0 b.size
    then (if leb b.write_pos b.read_pos
        then (memcpy fresh 0 b.buffer b.read_pos (sub64 b.capacity b.read_pos) >>= λ first.
            memcpy first (sub64 b.capacity b.read_pos) b.buffer 0 b.write_pos)
        else memcpy fresh 0 b.buffer b.read_pos (sub64 b.write_pos b.read_pos))
    else some fresh

unfoldable pub resize : (ℕ → ℕ) → ℕ → TBuffer → Option (TBuffer × Bool)
unfolding unroll
resize junk new_size b =
    if ltb new_size b.size
    then some (b, false)
    else (unroll b (new_block junk new_size) >>= λ filled. some (moved filled, true))
  where
    moved : Block → TBuffer
    moved filled = record {
      buffer = filled;
      write_pos = b.size;
      read_pos = 0;
      size = b.size;
      capacity = new_size;
    }

-- The common part of `AddWritePos` and `AddReadPos`: `pos` goes on by `n`, round the end if the
-- other position is not ahead of it.
unfoldable pub advance : ℕ → ℕ → ℕ → ℕ → ℕ
advance capacity pos other n =
    if leb other pos
    then (if ltb n (sub64 capacity pos) then add64 pos n else sub64 (add64 n pos) capacity)
    else add64 pos n

unfoldable pub add_write_pos : ℕ → TBuffer → TBuffer × Bool
add_write_pos n b = if ltb (sub64 b.capacity b.size) n then (b, false) else (
  record b { size = add64 b.size n; write_pos = advance b.capacity b.write_pos b.read_pos n },
  true,
)

unfoldable pub add_read_pos : ℕ → TBuffer → TBuffer × Bool
add_read_pos n b = if ltb b.size n then (b, false) else (
  record b { size = sub64 b.size n; read_pos = advance b.capacity b.read_pos b.write_pos n },
  true,
)

-- The bytes that `Peek` copies out; `some none` is that it returns false.
unfoldable pub peek : ℕ → ℕ → TBuffer → Option (Option (List ℕ))
peek n offset b =
    if ltb b.size (add64 n offset)
    then some none
    else if leb b.write_pos start
    then (if leb (add64 n offset) (sub64 b.capacity b.read_pos)
        then (load b.buffer start n >>= λ bytes. some (some bytes))
        else (load b.buffer start (sub64 (sub64 b.capacity b.read_pos) offset) >>= λ first.
            load b.buffer 0 (sub64 (add64 (add64 n b.read_pos) offset) b.capacity) >>= λ second.
            some (some (first ++ second))))
    else (load b.buffer start n >>= λ bytes. some (some bytes))
  where
    start : ℕ
    start = add64 b.read_pos offset

unfoldable pub peek8 : ℕ → TBuffer → Option ℕ
peek8 offset b = peeked (peek 1 offset b)

unfoldable pub peek16 : ℕ → TBuffer → Option ℕ
peek16 offset b = peeked (peek 2 offset b)

unfoldable pub peek24 : ℕ → TBuffer → Option ℕ
peek24 offset b = peeked (peek 3 offset b)

unfoldable pub peek32 : ℕ → TBuffer → Option ℕ
peek32 offset b = peeked (peek 4 offset b)

unfoldable pub peek64 : ℕ → TBuffer → Option ℕ
peek64 offset b = peeked (peek 8 offset b)

-- `readPos_ = (readPos_ + n) % capacity_; size_ -= n`, whatever `size_` is.
unfoldable pub skip : ℕ → TBuffer → Option TBuffer
skip n b =
    if b.capacity == 0
    then none
    else some (record b { read_pos = add64 b.read_pos n % b.capacity; size = sub64 b.size n })

-- `Read(void*, n)` ignores what `Peek` returns: where that is false no byte is copied.
unfoldable pub read : ℕ → TBuffer → Option (Option (List ℕ) × TBuffer)
unfolding peek skip
read n b = peek n 0 b >>= λ bytes. skip n b >>= λ after. some (bytes, after)

unfoldable pub read8 : TBuffer → Option (ℕ × TBuffer)
read8 b = peek8 0 b >>= λ v. skip 1 b >>= λ after. some (v, after)

unfoldable pub read16 : TBuffer → Option (ℕ × TBuffer)
read16 b = peek16 0 b >>= λ v. skip 2 b >>= λ after. some (v, after)

unfoldable pub read24 : TBuffer → Option (ℕ × TBuffer)
read24 b = peek24 0 b >>= λ v. skip 3 b >>= λ after. some (v, after)

-- The local variable is an `unsigned char`.
unfoldable pub read32 : TBuffer → Option (ℕ × TBuffer)
read32 b = peek32 0 b >>= λ v. skip 4 b >>= λ after. some (v % 256, after)

unfoldable pub read64 : TBuffer → Option (ℕ × TBuffer)
read64 b = peek64 0 b >>= λ v. skip 8 b >>= λ after. some (v, after)

-- The capacity that `Write` asks `Resize` for.
unfoldable pub grown_capacity : ℕ → TBuffer → ℕ
grown_capacity n b =
    if ltb (sub64 (add64 n b.size) b.capacity) b.capacity
    then b.capacity * 2 % 2 ^ 64
    else add64 n b.size

-- The allocation that `Write` goes on with. What `Resize` returns is not looked at.
unfoldable pub make_room : (ℕ → ℕ) → ℕ → TBuffer → Option TBuffer
make_room junk n b =
    if ltb (sub64 b.capacity b.size) n
    then (resize junk (grown_capacity n b) b >>= λ r. some (r.0))
    else some b

-- The copies of `Write` and the position that they leave.
unfoldable pub store : List ℕ → TBuffer → Option TBuffer
unfolding of_list
store bytes b =
    if leb b.read_pos b.write_pos
    then (if ltb n space
        then straight
        else (memcpy b.buffer b.write_pos (of_list bytes) 0 space >>= λ first.
            memcpy first 0 (of_list bytes) space (sub64 (add64 n b.write_pos) b.capacity)
            >>= λ both. some (written both (sub64 (add64 n b.write_pos) b.capacity))))
    else straight
  where
    n : ℕ
    n = length bytes

    space : ℕ
    space = sub64 b.capacity b.write_pos

    written : Block → ℕ → TBuffer
    written filled pos = record b { buffer = filled; write_pos = pos; size = add64 b.size n }

    straight : Option TBuffer
    straight = memcpy b.buffer b.write_pos (of_list bytes) 0 n >>= λ filled.
        some (written filled (add64 b.write_pos n))

-- `Write` always returns true.
unfoldable pub write : (ℕ → ℕ) → List ℕ → TBuffer → Option TBuffer
write junk bytes b = make_room junk (length bytes) b >>= store bytes
