-- ===== src/Rtmp/Receive.antt =====
-- How many bytes the steps of RtmpDecoder::decode take off the ring.
use streamcode.Prelude.{
  ℕ, ◌-◌, ◌^◌, ◌≤◌, ◌<◌, ◌≡◌, ◌⊎◌, inl, inr, subst, true, false, Option, none, some, List, ◌==◌,
  ◌>>=◌, >>=-holds, sub64-eq, le→ltb, Bool-cases,
}
use streamcode.Memory.{of_list, memcpy}
use streamcode.TBuffer.{TBuffer}
use streamcode.Ring.{add_read_pos, read, skip, peek}
use streamcode.Rtmp.Decode.{receive}

-- `Read` takes exactly `n` bytes off the ring, whatever it copies.
abbrev Takes : ℕ → TBuffer → Option (Option (List ℕ) × TBuffer) → Type 0
Takes n b none = Unit
Takes n b (some (bytes, after)) = after.size ≡ b.size - n

read-Takes : (n : ℕ) (b : TBuffer) → n ≤ b.size → b.size < 2 ^ 64 → Takes n b (read n b)
unfolding read skip
read-Takes n b h small =
    >>=-holds (Takes n b) (peek n 0 b) _ tt λ bytes _. taken bytes (Bool-cases (b.capacity == 0))
  where
    taken :
        (bytes : Option (List ℕ))
        → ((b.capacity == 0) ≡ true) ⊎ ((b.capacity == 0) ≡ false)
        → Takes n b (skip n b >>= λ after. some (bytes, after))
    taken bytes (inl e) = rw e tt
    taken bytes (inr e) = rw e (sub64-eq b.size n h small)

abbrev pub Receives : ℕ → TBuffer → Option (TBuffer × TBuffer) → Type 0
Receives n b none = Unit
Receives n b (some (after, held)) = after.size ≡ b.size - n

pub receive-Receives :
    (n : ℕ) (b held : TBuffer) → n ≤ b.size → b.size < 2 ^ 64 → Receives n b (receive n b held)
unfolding receive
receive-Receives n b held h small = >>=-holds (Receives n b) (read n b) _ tt λ r got.
    >>=-holds (Receives n b) (r.0) _ tt λ bytes _.
      >>=-holds (Receives n b) (memcpy held.buffer held.write_pos (of_list bytes) 0 n) _ tt
        λ filled _. subst (Takes n b) got (read-Takes n b h small)

pub add_read_pos-size :
    (n : ℕ) (b : TBuffer) → n ≤ b.size → b.size < 2 ^ 64 → ((add_read_pos n b).0).size ≡ b.size - n
unfolding add_read_pos
add_read_pos-size n b h small = rw (le→ltb b.size n h) (sub64-eq b.size n h small)
