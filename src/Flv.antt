-- ===== src/Flv.antt =====
-- stream/FlvEncoder.h: packets as the tags of an FLV stream.
pub mod RoundTrip
use streamcode.Prelude.{ℕ, ◌+◌, ◌/◌, ◌%◌, ◌^◌, List, [], ◌∷◌, ◌++◌, length, add32}
use streamcode.Bytes.{flip32, put24, stored32}
use streamcode.Source.{FrameType, video, metadata}

-- What the encoder takes of a packet.
pub record FlvPacket : Type 0 where
  pub frame_type : FrameType
  pub timestamp : ℕ
  pub bytes : List ℕ

-- `previous` is `preTagSize_`; `sent` is what the callback was given.
pub record FlvEncoder : Type 0 where
  pub previous : ℕ
  pub sent : List ℕ

unfoldable pub write_header : FlvEncoder → FlvEncoder
write_header e = record e { sent = e.sent ++ (0x46 ∷ 0x4c ∷ 0x56 ∷ 1 ∷ 5 ∷ 0 ∷ 0 ∷ 0 ∷ 9 ∷ []) }

-- The test for audio repeats the one for video, so that only video and metadata have a type.
unfoldable pub tag_type : FrameType → ℕ
tag_type t = elim t [ video ↦ 9 | metadata ↦ 18 | _ ↦ 0 ]

unfoldable pub write_flv_tag : FlvPacket → FlvEncoder → FlvEncoder
unfolding put24 stored32
write_flv_tag p e = record {
  previous = add32 (length p.bytes) 11;
  sent =
      e.sent
      ++ (stored32 (flip32 e.previous)
          ++ (tag_type p.frame_type ∷ put24 (length p.bytes)
              ++ (put24 (p.timestamp % 2 ^ 24)
                  ++ (p.timestamp / 2 ^ 24 % 2 ^ 8 ∷ 0 ∷ 0 ∷ 0 ∷ p.bytes))));
}
