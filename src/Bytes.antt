-- ===== src/Bytes.antt =====
-- Byte order: Flip16 to Flip64 of base/RingBuffer.h and stream/BinaryReader.h, and `htonl`. A mask
-- and a shift of one byte is written by `/` and `%`, and `|` of bytes at different places by `+`.
pub mod Laws
use streamcode.Prelude.{ℕ, ◌+◌, ◌*◌, ◌/◌, ◌%◌, ◌^◌, List, [], ◌∷◌}

-- Byte `k` of an integer.
abbrev pub byte : ℕ → ℕ → ℕ
byte k v = v / 2 ^ (8 * k) % 256

unfoldable pub flip16 : ℕ → ℕ
flip16 v = byte 1 v + byte 0 v * 2 ^ 8

unfoldable pub flip24 : ℕ → ℕ
flip24 v = byte 2 v + byte 1 v * 2 ^ 8 + byte 0 v * 2 ^ 16

unfoldable pub flip32 : ℕ → ℕ
flip32 v = byte 3 v + byte 2 v * 2 ^ 8 + byte 1 v * 2 ^ 16 + byte 0 v * 2 ^ 24

unfoldable pub flip64 : ℕ → ℕ
flip64 v =
    byte 0 v * 2 ^ 56
    + byte 1 v * 2 ^ 48
    + byte 2 v * 2 ^ 40
    + byte 3 v * 2 ^ 32
    + byte 4 v * 2 ^ 24
    + byte 5 v * 2 ^ 16
    + byte 6 v * 2 ^ 8
    + byte 7 v

-- `Flip24(void *p, unsigned int val)` stores three bytes.
unfoldable pub put24 : ℕ → List ℕ
put24 v = byte 2 v ∷ byte 1 v ∷ byte 0 v ∷ []

-- The bytes of an integer in memory, on a little-endian machine.
unfoldable pub stored16 : ℕ → List ℕ
stored16 v = byte 0 v ∷ byte 1 v ∷ []

unfoldable pub stored24 : ℕ → List ℕ
stored24 v = byte 0 v ∷ byte 1 v ∷ byte 2 v ∷ []

unfoldable pub stored32 : ℕ → List ℕ
stored32 v = byte 0 v ∷ byte 1 v ∷ byte 2 v ∷ byte 3 v ∷ []

unfoldable pub stored64 : ℕ → List ℕ
stored64 v =
    byte 0 v ∷ byte 1 v ∷ byte 2 v ∷ byte 3 v ∷ byte 4 v ∷ byte 5 v ∷ byte 6 v ∷ byte 7 v ∷ []

-- The integer whose bytes, highest first, are the list.
unfoldable pub big_endian : ℕ → List ℕ → ℕ
big_endian acc [] = acc
big_endian acc (x ∷ xs) = big_endian (acc * 256 + x) xs
