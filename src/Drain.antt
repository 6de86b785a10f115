-- ===== src/Drain.antt =====
-- base/DrainableBuffer.h and base/DrainableBuffer.cpp: the buffer of fixed capacity that holds a
-- message or a frame. The pointers that callers pass are not NULL.
pub mod Laws
use streamcode.Prelude.{
  ℕ, ◌+◌, ◌%◌, Bool, true, false, Option, none, some, List, length, ltb, if◌then◌else◌, ◌>>=◌,
  add64, sub64,
}
use streamcode.Memory.{Block, of_list, memcpy, load}
use streamcode.TBuffer.{TBuffer, peeked}

-- `Resize` does nothing and returns true.
unfoldable pub resize : ℕ → TBuffer → TBuffer × Bool
resize new_size b = (b, true)

unfoldable pub add_write_pos : ℕ → TBuffer → TBuffer × Bool
add_write_pos n b =
    if ltb (sub64 b.capacity b.write_pos) n
    then (b, false)
    else (record b { write_pos = add64 b.write_pos n; size = add64 b.size n }, true)

unfoldable pub add_read_pos : ℕ → TBuffer → TBuffer × Bool
add_read_pos n b =
    if ltb b.size n
    then (b, false)
    else (record b { size = sub64 b.size n; read_pos = add64 b.read_pos n }, true)

-- The bytes that `Peek` copies out; `some none` is that it returns false.
unfoldable pub peek : ℕ → ℕ → TBuffer → Option (Option (List ℕ))
peek n offset b =
    if ltb b.size (add64 n offset)
    then some none
    else (load b.buffer (add64 b.read_pos offset) n >>= λ bytes. some (some bytes))

unfoldable pub peek8 : ℕ → TBuffer → Option ℕ
peek8 offset b = peeked (peek 1 offset b)

unfoldable pub peek16 : ℕ → TBuffer → Option ℕ
peek16 offset b = peeked (peek 2 offset b)

unfoldable pub peek24 : ℕ → TBuffer → Option ℕ
peek24 offset b = peeked (peek 3 offset b)

unfoldable pub peek32 : ℕ → TBuffer → Option ℕ
peek32 offset b = peeked (peek 4 offset b)

unfoldable pub peek64 : ℕ → TBuffer → Option ℕ
peek64 offset b = peeked (peek 8 offset b)

-- `readPos_ += n; size_ -= n`, whatever `size_` is.
unfoldable pub skip : ℕ → TBuffer → TBuffer
skip n b = record b { read_pos = add64 b.read_pos n; size = sub64 b.size n }

-- `Read(void*, n)` ignores what `Peek` returns: where that is false no byte is copied.
unfoldable pub read : ℕ → TBuffer → Option (Option (List ℕ) × TBuffer)
unfolding peek skip
read n b = peek n 0 b >>= λ bytes. some (bytes, skip n b)

unfoldable pub read8 : TBuffer → Option (ℕ × TBuffer)
read8 b = peek8 0 b >>= λ v. some (v, skip 1 b)

unfoldable pub read16 : TBuffer → Option (ℕ × TBuffer)
read16 b = peek16 0 b >>= λ v. some (v, skip 2 b)

unfoldable pub read24 : TBuffer → Option (ℕ × TBuffer)
read24 b = peek24 0 b >>= λ v. some (v, skip 3 b)

-- The local variable is an `unsigned char`.
unfoldable pub read32 : TBuffer → Option (ℕ × TBuffer)
read32 b = peek32 0 b >>= λ v. some (v % 256, skip 4 b)

unfoldable pub read64 : TBuffer → Option (ℕ × TBuffer)
read64 b = peek64 0 b >>= λ v. some (v, skip 8 b)

-- `Write` is refused if the bytes do not fit. Otherwise they are copied behind the last byte
-- written, or, where that would reach the end, to the front of the allocation.
unfoldable pub write : List ℕ → TBuffer → Option (TBuffer × Bool)
unfolding of_list
write bytes b =
    if ltb (sub64 b.capacity b.size) n
    then some (b, false)
    else if ltb (add64 b.write_pos n) b.capacity
    then (memcpy b.buffer b.write_pos (of_list bytes) 0 n >>= λ filled. some (
      record b { buffer = filled; write_pos = add64 b.write_pos n; size = add64 b.size n },
      true,
    ))
    else (memcpy b.buffer 0 b.buffer b.write_pos b.size >>= λ moved.
        memcpy moved 0 (of_list bytes) 0 n >>= λ filled. some (
          record b { buffer = filled; write_pos = b.size; read_pos = 0; size = add64 b.size n },
          true,
        ))
  where
    n : ℕ
    n = length bytes
