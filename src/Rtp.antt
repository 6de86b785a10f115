-- ===== src/Rtp.antt =====
-- stream/RTP.h and stream/RTP.cpp: a NAL unit as RTP packets inside an RTSP connection, for 32-bit
-- `unsigned long` and bit fields from the lowest bit on. `htons` and `htonl` reverse the bytes.
pub mod Packets
pub mod RoundTrip
use streamcode.Prelude.{
  ℕ, zero, suc, ◌+◌, ◌*◌, ◌/◌, ◌%◌, ◌^◌, ◌-◌, Bool, true, false, List, [], ◌∷◌, ◌++◌, length, take,
  drop, ltb, leb, ◌==◌, if◌then◌else◌, add32,
}
use streamcode.Bytes.{flip16, flip32, stored16, stored32}

-- RTP_FIXED_HEADER: version 2, payload type 96, source 10.
unfoldable pub fixed_header : Bool → ℕ → ℕ → List ℕ
unfolding stored16 stored32
fixed_header marker seq pts =
    128 ∷ (if marker then 224 else 96) ∷ stored16 (flip16 (seq % 2 ^ 16))
    ++ (stored32 (flip32 (pts * 90 % 2 ^ 32)) ++ stored32 (flip32 10))

-- The bytes of `tmpbuffer` that are sent: a dollar sign, the channel, the length, the header and the
-- payload.
unfoldable pub packet : Bool → ℕ → ℕ → List ℕ → List ℕ
packet marker seq pts payload =
    let n = length payload + 12 in
    36 ∷ 0 ∷ n / 2 ^ 8 % 2 ^ 8 ∷ n % 2 ^ 8 ∷ fixed_header marker seq pts ++ payload

unfoldable pub fu_indicator : ℕ → ℕ
fu_indicator nal_header = nal_header / 2 ^ 5 % 4 * 2 ^ 5 + 28

unfoldable pub fu_header : ℕ → Bool → Bool → ℕ
fu_header nal_header is_start is_end =
    nal_header % 2 ^ 5 + ((if is_start then 128 else 0) + (if is_end then 64 else 0))

-- The packets that are sent, and the static counter `seq` afterwards.
pub record Sending : Type 0 where
  pub packets : List (List ℕ)
  pub seq : ℕ

-- The loop over the data behind the first byte, `leftover` bytes of it. The fuel is a bound on these.
unfoldable pub fragments : ℕ → ℕ → Bool → ℕ → ℕ → List ℕ → Sending
fragments fuel nal_header is_start seq pts [] = record { packets = []; seq = seq }
fragments zero nal_header is_start seq pts (x ∷ body) = record { packets = []; seq = seq }
fragments (suc fuel) nal_header is_start seq pts (x ∷ body) =
    let is_end = leb (length (x ∷ body)) 1350 in
    let rest = fragments fuel nal_header false (add32 seq 1) pts (drop 1350 (x ∷ body)) in
    record rest {
      packets =
          packet is_end seq pts
            (fu_indicator nal_header ∷ fu_header nal_header is_start is_end ∷ take 1350 (x ∷ body))
          ∷ rest.packets;
    }

-- SendNaluPacket, for a unit of `sliceSize` bytes.
unfoldable pub send_nalu_packet : ℕ → ℕ → List ℕ → Sending
send_nalu_packet seq pts [] = record { packets = packet true seq pts [] ∷ []; seq = add32 seq 1 }
send_nalu_packet seq pts (nal_header ∷ body) =
    if ltb (length (nal_header ∷ body)) 1350
    then record { packets = packet true seq pts (nal_header ∷ body) ∷ []; seq = add32 seq 1 }
    else fragments (length body) nal_header true seq pts body
