-- ===== src/Tests/Streams.antt =====
-- RtmpDecoder::decode and RtmpSource on small inputs.
use streamcode.Prelude.{
  get_or, ℕ, ◌≡◌, ◌≢◌, refl, add32, true, false, some, List, [], ◌∷◌, arith, ◌==◌, if◌then◌else◌,
  Bool,
}
use streamcode.Memory.{slice}
use streamcode.TBuffer.{TBuffer}
use streamcode.Ring.Valid.{IsValid, contents, wrap}
use streamcode.Rtmp.{
  channel_at, Decoder, Channel, RtmpState, handshake_c0c1, handshake_c2, handshake_done,
}
use streamcode.Rtmp.Decode.{fault, returns, handshake, decode_c0c1, decode, out_of_fuel}
use streamcode.Rtmp.Handshake.{decode_c0c1-answers}
use streamcode.Rtmp.Overflow.{decode-overflows}
use streamcode.Bytes.{big_endian}
use streamcode.Rtmp.Progress.{decode-ends}
use streamcode.Source.{
  Packet, Source, FrameType, GopCache, video, audio, video_config, start_read, is_key_video,
  is_video, is_empty, cache,
}
use streamcode.Source.Gop.{cache_all}
use streamcode.Source.Relay.{received, push_all}
use streamcode.Source.Registry.{Registry}
use streamcode.Source.Late.{late_reader}

-- The version, and 1536 bytes 7.
abbrev greeting : ℕ → TBuffer
greeting version = record {
  buffer = record { extent = 2000; cell = λ i. if i == 0 then version else 7 };
  write_pos = 1537;
  read_pos = 0;
  size = 1537;
  capacity = 2000;
}

abbrev c1 : ℕ → List ℕ
c1 version = slice (λ i. (greeting version).buffer.cell (wrap 2000 i)) 1 1536

abbrev decoder : RtmpState → Decoder
decoder state = record {
  state = state;
  channels = [];
  packets = [];
  chunk_size = 128;
  local_chunk_size = 128;
  sent = [];
}

decode_c0c1-answers_example :
    (after : TBuffer) × (decode_c0c1 [] (decoder handshake_c0c1) (greeting 3)
      ≡ some (
          returns 0
            (record (decoder handshake_c2) { sent = (3 ∷ []) ∷ handshake [] ∷ c1 3 ∷ [] })
            after))
    × IsValid after
    × (contents after ≡ [])
decode_c0c1-answers_example =
    decode_c0c1-answers [] (c1 3) (decoder handshake_c0c1) (omega arith) refl
      (unfold contents wrap in refl)

decode-ends_example : decode 1600 (λ i. 0) [] (decoder handshake_done) (greeting 3) ≢ out_of_fuel
decode-ends_example =
    decode-ends 1600 (λ i. 0) [] (decoder handshake_done) (greeting 3) tt (omega arith)
      (omega arith)

-- A message that was announced with 129 bytes, of which the first chunk has come.
abbrev held : TBuffer
held = record {
  buffer = record { extent = 129; cell = λ i. 0 };
  write_pos = 128;
  read_pos = 0;
  size = 128;
  capacity = 129;
}

abbrev channel : Channel
channel = record {
  iobuf = some held;
  head_len = 0;
  channel_id = 3;
  time = 0;
  absolute_time = 0;
  body_size = 129;
  type = 20;
  stream_id = 0;
}

-- A header that announces 256 bytes, and 128 bytes.
abbrev longer : TBuffer
longer = record {
  buffer = record {
    extent = 200;
    cell = λ i. get_or (3 ∷ 0 ∷ 0 ∷ 0 ∷ 0 ∷ 1 ∷ 0 ∷ 20 ∷ 0 ∷ 0 ∷ 0 ∷ 0 ∷ []) i 7;
  };
  write_pos = 140;
  read_pos = 0;
  size = 140;
  capacity = 200;
}

abbrev begun : Decoder
begun = record (decoder handshake_done) { channels = (3, channel) ∷ [] }

decode-overflows_example : decode 2 (λ i. 0) [] begun longer ≡ fault
unfolding contents wrap channel_at big_endian
decode-overflows_example =
    decode-overflows 3 0 0 0 0 1 0 20 0 0 0 0 (slice (λ i. 7) 0 128) (omega arith) (omega arith)
      refl (omega arith) (omega arith) (omega arith) (omega arith) (omega arith) 1 (λ i. 0) [] begun
      held refl refl (omega arith) (omega arith) (omega arith)

abbrev packet : FrameType → Bool → ℕ → Packet
packet type is_key time = record {
  frame_type = type;
  is_key = is_key;
  timestamp = time;
  channel_id = 0;
  stream_id = 0;
  buffer = some held;
}

abbrev junk_gop : GopCache
junk_gop = record { video_count = 77; queue = [] }

abbrev between : List Packet
between = packet audio false 3 ∷ packet video false 4 ∷ []

abbrev source : Source
source = record {
  video_config = packet video_config false 0;
  audio_config = packet audio false 0;
  gop = junk_gop;
  readers = 1 ∷ [];
  calls = [];
}

late_reader_example :
    received 2
      (push_all
        (packet audio false 5 ∷ [])
        (start_read 2
          (push_all (packet video false 1 ∷ packet video true 2 ∷ between) source)).0).calls
    ≡ packet video_config false 0
      ∷ packet video true 2
      ∷ packet audio false 3
      ∷ packet video false 4
      ∷ packet audio false 5
      ∷ []
unfolding is_empty received is_key_video is_video cache_all cache add32
late_reader_example =
    late_reader 2 (packet video false 1 ∷ []) (packet video true 2) between
      (packet audio false 5 ∷ []) source refl (refl, tt) refl refl (refl, (refl, tt)) (omega arith)
      (omega arith)

-- The name 7 has the source 0; the name 8 has none.
abbrev registry : Registry
registry = record { sources = (7 ∷ [], 0) ∷ []; made = 1 }
