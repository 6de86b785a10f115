-- ===== src/Flv/RoundTrip.antt =====
-- FlvEncoder::WriteFlvTag and a reader of FLV tags.
use streamcode.Prelude.{
  ℕ, zero, suc, ◌+◌, ◌/◌, ◌%◌, ◌^◌, ◌<◌, ◌≡◌, refl, sym, ap, ap₂, ◌∙◌, Option, none, some, List, [],
  ◌∷◌, ◌++◌, arith, length, take, drop, take-append, drop-append, append_assoc, append-nil, add32,
  add32-eq, ◌>>=◌,
}
use streamcode.Bytes.{flip32, put24, stored32, big_endian}
use streamcode.Source.{FrameType, video, audio, video_config, audio_config, metadata, unknown}
use streamcode.Flv.{FlvPacket, FlvEncoder, tag_type, write_flv_tag}

-- One tag: the size of the tag before it, and what the tag has.
pub record Tag : Type 0 where
  pub previous : ℕ
  pub type : ℕ
  pub time : ℕ
  pub bytes : List ℕ

-- A number of tags, read one after the other.
unfoldable pub read_tags : ℕ → List ℕ → Option (List Tag)
unfolding big_endian
read_tags zero [] = some []
read_tags (suc n) (a ∷ b ∷ c ∷ d ∷ type ∷ s ∷ s' ∷ s'' ∷ t ∷ t' ∷ t'' ∷ high ∷ _ ∷ _ ∷ _ ∷ text) =
    let size = big_endian 0 (s ∷ s' ∷ s'' ∷ []) in
    read_tags n (drop size text) >>= λ later. some (
      record {
        previous = big_endian 0 (a ∷ b ∷ c ∷ d ∷ []);
        type = type;
        time = big_endian 0 (high ∷ t ∷ t' ∷ t'' ∷ []);
        bytes = take size text;
      }
      ∷ later)
read_tags _ _ = none

unfoldable pub write_all : List FlvPacket → FlvEncoder → FlvEncoder
write_all [] e = e
write_all (p ∷ ps) e = write_all ps (write_flv_tag p e)

-- The numbers of an FLV file for video and for script data. Audio would have 8 there, but the
-- encoder gives it 0.
unfoldable pub sent_type : FrameType → ℕ
sent_type video = 0x09
sent_type metadata = 0x12
sent_type audio = 0
sent_type video_config = 0
sent_type audio_config = 0
sent_type unknown = 0

tag_type-sent : (t : FrameType) → tag_type t ≡ sent_type t
unfolding tag_type sent_type
tag_type-sent video = refl
tag_type-sent metadata = refl
tag_type-sent audio = refl
tag_type-sent video_config = refl
tag_type-sent audio_config = refl
tag_type-sent unknown = refl

-- The tags of the packets, where the tag before them had this size.
unfoldable pub tags : ℕ → List FlvPacket → List Tag
tags previous [] = []
tags previous (p ∷ ps) =
    record {
      previous = previous;
      type = sent_type p.frame_type;
      time = p.timestamp;
      bytes = p.bytes;
    }
    ∷ tags (length p.bytes + 11) ps

-- A time of 32 bits and a size of 24.
abbrev pub Fits : List FlvPacket → Type 0
Fits [] = Unit
Fits (p ∷ ps) = (p.timestamp < 2 ^ 32) × (length p.bytes < 2 ^ 24) × Fits ps

size-put24 : (n : ℕ) → n < 2 ^ 24 → big_endian 0 (put24 n) ≡ n
unfolding big_endian put24
size-put24 n h = omega (arith, h)

previous-stored32 : (n : ℕ) → n < 2 ^ 32 → big_endian 0 (stored32 (flip32 n)) ≡ n
unfolding big_endian stored32 flip32
previous-stored32 n h = omega (arith, h)

time-put24 : (n : ℕ) → n < 2 ^ 32 → big_endian 0 (n / 2 ^ 24 % 2 ^ 8 ∷ put24 (n % 2 ^ 24)) ≡ n
unfolding big_endian put24
time-put24 n h = omega (arith, h)

-- What the encoder sends for a packet.
abbrev text_of : ℕ → FlvPacket → List ℕ
text_of previous p =
    stored32 (flip32 previous)
    ++ (tag_type p.frame_type ∷ put24 (length p.bytes)
        ++ (put24 (p.timestamp % 2 ^ 24) ++ (p.timestamp / 2 ^ 24 % 2 ^ 8 ∷ 0 ∷ 0 ∷ 0 ∷ p.bytes)))

read_tags-text_of :
    (n previous : ℕ) (p : FlvPacket) (rest : List ℕ)
    → previous < 2 ^ 32
    → p.timestamp < 2 ^ 32
    → length p.bytes < 2 ^ 24
    → read_tags (suc n) (text_of previous p ++ rest) ≡ (
        read_tags n rest >>= λ later. some (
          record {
            previous = previous;
            type = sent_type p.frame_type;
            time = p.timestamp;
            bytes = p.bytes;
          }
          ∷ later))
unfolding read_tags stored32 put24
read_tags-text_of n previous p rest fits fits' fits'' =
    let size = size-put24 (length p.bytes) fits'' in
    let before = previous-stored32 previous fits in
    let time = time-put24 p.timestamp fits' in
    ap₂
      (λ k t. read_tags n (drop k (p.bytes ++ rest)) >>= λ later. some (
        record {
          previous = big_endian 0 (stored32 (flip32 previous));
          type = tag_type p.frame_type;
          time = t;
          bytes = take k (p.bytes ++ rest);
        }
        ∷ later))
      size time
    ∙ ap₂
        (λ q t. read_tags n t >>= λ later. some (
          record {
            previous = q;
            type = tag_type p.frame_type;
            time = p.timestamp;
            bytes = take (length p.bytes) (p.bytes ++ rest);
          }
          ∷ later))
        before (drop-append p.bytes rest)
    ∙ ap
        (λ b. read_tags n rest >>= λ later. some (
          record {
            previous = previous;
            type = tag_type p.frame_type;
            time = p.timestamp;
            bytes = b;
          }
          ∷ later))
        (take-append p.bytes rest)
    ∙ ap
        (λ k. read_tags n rest >>= λ later.
          some
            (record { previous = previous; type = k; time = p.timestamp; bytes = p.bytes } ∷ later))
        (tag_type-sent p.frame_type)

-- Packets whose times have 32 bits and whose sizes have 24 are sent by WriteFlvTag as one tag each,
-- behind what was sent before: a reader of tags gets the time and the bytes of each packet in their
-- order, and the type 9 for video, 18 for metadata, and 0 for everything else, audio and the
-- configurations included; the size in front of each tag is that of the tag before it.
pub write_all-read_tags :
    (ps : List FlvPacket) (e : FlvEncoder)
    → e.previous < 2 ^ 32
    → Fits ps
    → (text : List ℕ) × ((write_all ps e).sent ≡ e.sent ++ text)
      × (read_tags (length ps) text ≡ some (tags e.previous ps))
unfolding write_all write_flv_tag tags
write_all-read_tags [] e small fits = ([], sym (append-nil e.sent), (unfold read_tags in refl))
write_all-read_tags (p ∷ ps) e small (fits, fits', rest) =
    let (text, sent, read) =
      write_all-read_tags ps (write_flv_tag p e) (unfold add32 in omega arith) rest in
    let next : add32 (length p.bytes) 11 ≡ length p.bytes + 11 =
      add32-eq (length p.bytes) 11 (omega (arith, fits')) in
    (
      text_of e.previous p ++ text,
      sent ∙ append_assoc e.sent (text_of e.previous p) text,
      read_tags-text_of (length ps) e.previous p text small fits fits'
          ∙ ap
              (λ o. o >>= λ later. some (
                record {
                  previous = e.previous;
                  type = sent_type p.frame_type;
                  time = p.timestamp;
                  bytes = p.bytes;
                }
                ∷ later))
              (read ∙ ap (λ n. some (tags n ps)) next),
    )
