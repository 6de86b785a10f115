-- ===== src/Ring/Words.antt =====
-- RingBuffer::Read8 and Read32 on the bytes that a ring stands for.
use streamcode.Prelude.{ℕ, ◌≤◌, ◌<◌, ◌≡◌, ap, some, List, ◌∷◌, arith}
use streamcode.TBuffer.{TBuffer, peeked, little_endian}
use streamcode.Ring.{read32, peek32}
use streamcode.Ring.Valid.{IsValid, contents}
use streamcode.Ring.Peek.{peek-contents, skip-Drops, Drops}

-- In front of four bytes `Read32` takes the four off and returns only the first of them, since it
-- keeps the number in an `unsigned char`.
pub read32-first_byte :
    {b : TBuffer} (w x y z : ℕ) (rest : List ℕ)
    → IsValid b
    → 4 ≤ b.size
    → contents b ≡ w ∷ x ∷ y ∷ z ∷ rest
    → w < 256
    → (after : TBuffer) × (read32 b ≡ some (w, after)) × Drops 4 b after
unfolding read32 peek32 peeked
read32-first_byte {b} w x y z rest v there held small =
    let (after, eq, drops) = skip-Drops 4 v there in
    (
      after,
      rw (peek-contents 4 0 v (omega arith) (omega (arith, v.size_in, v.small)), held, eq)
          (ap (λ n. some (n, after)) (unfold little_endian in omega arith)),
      drops,
    )
