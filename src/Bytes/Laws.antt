-- ===== src/Bytes/Laws.antt =====
-- Reading back what was stored, and reversing the byte order.
use streamcode.Prelude.{ℕ, ◌^◌, ◌<◌, ◌≡◌, [], ◌∷◌, arith}
use streamcode.TBuffer.{little_endian}
use streamcode.Bytes.{
  flip16, flip24, flip32, flip64, stored16, stored24, stored32, stored64, big_endian,
}

module _ (a b c d : ℕ) (ha : a < 256) (hb : b < 256) (hc : c < 256) (hd : d < 256) where
  pub flip16-little_endian : flip16 (little_endian (a ∷ b ∷ [])) ≡ big_endian 0 (a ∷ b ∷ [])
  unfolding flip16 little_endian big_endian
  flip16-little_endian = omega arith

  pub flip24-little_endian : flip24 (little_endian (a ∷ b ∷ c ∷ [])) ≡ big_endian 0 (a ∷ b ∷ c ∷ [])
  unfolding flip24 little_endian big_endian
  flip24-little_endian = omega arith

  pub flip32-little_endian :
      flip32 (little_endian (a ∷ b ∷ c ∷ d ∷ [])) ≡ big_endian 0 (a ∷ b ∷ c ∷ d ∷ [])
  unfolding flip32 little_endian big_endian
  flip32-little_endian = omega arith

pub flip16-flip16 : (v : ℕ) → v < 2 ^ 16 → flip16 (flip16 v) ≡ v
unfolding flip16
flip16-flip16 v h = omega arith

pub flip24-flip24 : (v : ℕ) → v < 2 ^ 24 → flip24 (flip24 v) ≡ v
unfolding flip24
flip24-flip24 v h = omega arith

pub flip32-flip32 : (v : ℕ) → v < 2 ^ 32 → flip32 (flip32 v) ≡ v
unfolding flip32
flip32-flip32 v h = omega arith

pub flip64-flip64 : (v : ℕ) → v < 2 ^ 64 → flip64 (flip64 v) ≡ v
unfolding flip64
flip64-flip64 v h = omega arith

pub little_endian-stored16 : (v : ℕ) → v < 2 ^ 16 → little_endian (stored16 v) ≡ v
unfolding little_endian stored16
little_endian-stored16 v h = omega arith

pub little_endian-stored24 : (v : ℕ) → v < 2 ^ 24 → little_endian (stored24 v) ≡ v
unfolding little_endian stored24
little_endian-stored24 v h = omega arith

pub little_endian-stored32 : (v : ℕ) → v < 2 ^ 32 → little_endian (stored32 v) ≡ v
unfolding little_endian stored32
little_endian-stored32 v h = omega arith

pub little_endian-stored64 : (v : ℕ) → v < 2 ^ 64 → little_endian (stored64 v) ≡ v
unfolding little_endian stored64
little_endian-stored64 v h = omega arith
