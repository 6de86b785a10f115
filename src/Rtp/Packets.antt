-- ===== src/Rtp/Packets.antt =====
-- RTP::SendNaluPacket: the packets one by one.
use streamcode.Prelude.{
  ℕ, zero, suc, ◌+◌, ◌*◌, ◌%◌, ◌^◌, ◌≤◌, ◌≡◌, inl, inr, Bool, true, false, List, [], ◌∷◌, arith,
  length, drop, get_or, length-take, leb, ltb-cases, add32,
}
use streamcode.Bytes.{flip16, stored16, stored32}
use streamcode.Rtp.{fixed_header, packet, fragments, send_nalu_packet}

-- What a receiver relies on of a packet: it fits the local array of 1460 bytes, the length in front
-- counts the bytes behind it, and it has this sequence number, highest byte first.
pub record IsPacket (seq : ℕ) (bytes : List ℕ) : Type 0 where
  pub room : length bytes ≤ 1460
  pub counted : get_or bytes 2 0 * 2 ^ 8 + get_or bytes 3 0 + 4 ≡ length bytes
  pub numbered : get_or bytes 6 0 * 2 ^ 8 + get_or bytes 7 0 ≡ seq % 2 ^ 16

-- Packets with numbers that go up one by one, from `seq` on.
abbrev pub ArePackets : ℕ → List (List ℕ) → Type 0
ArePackets seq [] = Unit
ArePackets seq (p ∷ ps) = IsPacket seq p × ArePackets (add32 seq 1) ps

packet-IsPacket :
    (marker : Bool) (seq pts : ℕ) (payload : List ℕ)
    → length payload ≤ 1352
    → IsPacket seq (packet marker seq pts payload)
unfolding packet fixed_header stored16 stored32 flip16
packet-IsPacket marker seq pts payload small = record {
  room = omega (arith, small);
  counted = omega (arith, small);
  numbered = omega (arith);
}

fragments-ArePackets :
    (fuel nal_header : ℕ) (is_start : Bool) (seq pts : ℕ) (body : List ℕ)
    → ArePackets seq (fragments fuel nal_header is_start seq pts body).packets
unfolding fragments
fragments-ArePackets fuel nal_header is_start seq pts [] = tt
fragments-ArePackets zero nal_header is_start seq pts (x ∷ body) = tt
fragments-ArePackets (suc fuel) nal_header is_start seq pts (x ∷ body) = (
  packet-IsPacket (leb (length (x ∷ body)) 1350) seq pts _
      (omega (arith, length-take 1350 (x ∷ body))),
  fragments-ArePackets fuel nal_header false (add32 seq 1) pts (drop 1350 (x ∷ body)),
)

-- Every packet that SendNaluPacket makes of a unit fits the local array and says its own length, and
-- the sequence numbers go up one by one from the counter, modulo 2 ^ 16.
pub send_nalu_packet-ArePackets :
    (seq pts : ℕ) (nalu : List ℕ) → ArePackets seq (send_nalu_packet seq pts nalu).packets
unfolding send_nalu_packet
send_nalu_packet-ArePackets seq pts [] = (packet-IsPacket true seq pts [] (omega arith), tt)
send_nalu_packet-ArePackets seq pts (h ∷ body) = elim (ltb-cases (length (h ∷ body)) 1350) [
  | inl (e, short) ↦ rw e (packet-IsPacket true seq pts (h ∷ body) (omega arith), tt)
  | inr (e, long) ↦ rw e (fragments-ArePackets (length body) h true seq pts body)
]
