-- ===== src/Reader.antt =====
-- stream/BinaryReader.h and stream/BinaryReader.cpp: a cursor over bytes that it does not own.
pub mod Laws
use streamcode.Prelude.{
  ℕ, ◌+◌, ◌-◌, ◌^◌, ◌%◌, ◌<◌, Bool, true, Option, none, some, List, [], ◌∷◌, length, drop, take,
  ltb, ◌==◌, not, get_or, if◌then◌else◌,
}
use streamcode.TBuffer.{little_endian}
use streamcode.Bytes.{flip16, flip24, flip32, flip64}

-- `text` is the memory from `_data` to `_end`, `current` the offset of `_current`, and `flip` says
-- that integers stand highest byte first.
pub record Reader : Type 0 where
  pub text : List ℕ
  pub current : ℕ
  pub flip : Bool

unfoldable pub init : List ℕ → Reader
init text = record { text = text; current = 0; flip = true }

-- The bytes from `_current` on.
unfoldable pub rest : Reader → List ℕ
rest r = drop r.current r.text

-- The cursor never passes `_end`, so that the difference is not negative; it is returned as an
-- `unsigned int`.
unfoldable pub available : Reader → ℕ
available r = if ltb r.current (length r.text) then (length r.text - r.current) % 2 ^ 32 else 0

-- The bytes that `Read` copies out; their number is what it returns.
unfoldable pub read : ℕ → Reader → List ℕ × Reader
unfolding rest
read n r =
    let left = (length r.text - r.current) % 2 ^ 32 in
    if ltb left n
    then (take left (rest r), record r { current = r.current + left })
    else (take n (rest r), record r { current = r.current + n })

unfoldable pub read8 : Reader → ℕ × Reader
read8 r =
    if r.current == length r.text
    then (0, r)
    else (get_or r.text r.current 0, record r { current = r.current + 1 })

-- The common part of `Read16` to `Read64`: `width` bytes are read into a zeroed integer.
unfoldable pub read_word : ℕ → (ℕ → ℕ) → Reader → ℕ × Reader
unfolding read little_endian
read_word width flipped r =
    let (bytes, after) = read width r in
    (
      if not (length bytes == width)
          then 0
          else if r.flip
          then flipped (little_endian bytes)
          else little_endian bytes,
      after,
    )

unfoldable pub read16 : Reader → ℕ × Reader
unfolding read_word
read16 r = read_word 2 flip16 r

unfoldable pub read24 : Reader → ℕ × Reader
unfolding read_word
read24 r = read_word 3 flip24 r

unfoldable pub read32 : Reader → ℕ × Reader
unfolding read_word
read32 r = read_word 4 flip32 r

unfoldable pub read64 : Reader → ℕ × Reader
unfolding read_word
read64 r = read_word 8 flip64 r

-- `Next` goes on by `count` bytes at most.
unfoldable pub next : ℕ → Reader → ℕ × Reader
unfolding available
next count r =
    let step = (if ltb (available r) count then available r else count) in
    (step, record r { current = r.current + step })
