-- ===== src/Tests/Sessions.antt =====
-- RtmpSession on small messages.
use streamcode.Prelude.{
  ℕ, ◌≡◌, refl, sym, subst, true, false, none, some, List, [], ◌∷◌, ◌++◌, arith, get_or, length,
  codes,
}
use streamcode.Memory.{load}
use streamcode.TBuffer.{TBuffer}
use streamcode.Reader.{
  Reader, read8, read16, read24, read64, read_word, read, rest, available, next,
}
use streamcode.Reader
use streamcode.Bytes.{flip64}
use streamcode.Amf.{same_key, less}
use streamcode.Amf.Reader.{ok, read_number, read_null, read_string}
use streamcode.Rtmp.{Channel, Decoder, handshake_done}
use streamcode.Source.{Packet, Source, unknown, is_empty, is_key_video, is_video}
use streamcode.Source.Relay.{received}
use streamcode.Source.Gop.{cache_all}
use streamcode.Source.Registry.{find_media_source, look_up}
use streamcode.Session.{
  World, Session, play, command, run_all, message_bytes, video_packet, source_name,
}
use streamcode.Session.Answers.{Ends, command-Ends}
use streamcode.Session.Publish.{IsFrame, play-receives}

abbrev junk : ℕ → ℕ
junk i = 0

abbrev held : List ℕ → TBuffer
held bytes = record {
  buffer = record { extent = length bytes; cell = λ i. get_or bytes i 0 };
  write_pos = 0;
  read_pos = 0;
  size = length bytes;
  capacity = length bytes;
}

abbrev message : List ℕ → Channel
message bytes = record {
  iobuf = some (held bytes);
  head_len = 12;
  channel_id = 6;
  time = 0;
  absolute_time = 40;
  body_size = length bytes;
  type = 9;
  stream_id = 1;
}

-- A key frame and another frame, with one byte of data each.
abbrev key_bytes : List ℕ
key_bytes = 23 ∷ 1 ∷ 0 ∷ 0 ∷ 5 ∷ 9 ∷ []

abbrev frame_bytes : List ℕ
frame_bytes = 39 ∷ 1 ∷ 0 ∷ 0 ∷ 7 ∷ 8 ∷ []

abbrev decoder : List Channel → Decoder
decoder packets = record {
  state = handshake_done;
  channels = [];
  packets = packets;
  chunk_size = 128;
  local_chunk_size = 128;
  sent = [];
}

abbrev no_packet : Packet
no_packet = record {
  frame_type = unknown;
  is_key = false;
  timestamp = 0;
  channel_id = 0;
  stream_id = 0;
  buffer = none;
}

abbrev stream : Source
stream = record {
  video_config = record no_packet { buffer = some (held (23 ∷ 0 ∷ [])) };
  audio_config = no_packet;
  gop = record { video_count = 0; queue = [] };
  readers = [];
  calls = [];
}

-- One source, of the name "a".
abbrev world : World
world = record {
  registry = record { sources = (97 ∷ [], 0) ∷ []; made = 1 };
  streams = λ i. stream;
}

abbrev publisher : Session
publisher = record {
  app = 97 ∷ [];
  decoder = decoder (message key_bytes ∷ []);
  publisher = some 0;
  number = 1;
}

abbrev player : Session
player = record { app = 97 ∷ []; decoder = decoder []; publisher = none; number = 2 }

-- The number 0, null, and the name of length one.
abbrev request : Reader
request = record {
  text = 0 ∷ 0 ∷ 0 ∷ 0 ∷ 0 ∷ 0 ∷ 0 ∷ 0 ∷ 0 ∷ 5 ∷ 2 ∷ 0 ∷ 1 ∷ 98 ∷ [];
  current = 0;
  flip = true;
}

abbrev numbered : ℕ × Reader
numbered = (0, record request { current = 9 })

read_number-request : read_number request ≡ ok numbered
unfolding read_number read8 read64 read_word read rest available flip64
read_number-request = refl

key-IsFrame : IsFrame (message key_bytes) (video_packet key_bytes (message key_bytes)).0
unfolding message_bytes load read8 Reader.init video_packet
key-IsFrame = record {
  bytes = key_bytes;
  is_video_message = refl;
  held = refl;
  codec = refl;
  unit_type = λ e. omega (arith, e);
  packet = refl;
}

not_connect : ¬ (same_key (codes "publish") (codes "connect") ≡ true)
unfolding same_key less
not_connect e = subst (λ b. elim b [ true ↦ Unit | false ↦ ⊥ ]) (sym e) tt

not_play : ¬ (same_key (codes "publish") (codes "play") ≡ true)
unfolding same_key less
not_play e = subst (λ b. elim b [ true ↦ Unit | false ↦ ⊥ ]) (sym e) tt

command-Ends_example : Ends (command junk (codes "publish") request world player)
command-Ends_example =
    command-Ends junk (codes "publish") request world player (omega arith)
      (λ e. absurd (not_connect e)) (λ e. absurd (not_play e))

world-found :
    find_media_source
      (source_name player.app (read_string (read_null (numbered.1)).1).0)
      world.registry
    ≡ some 0
unfolding find_media_source look_up same_key less source_name
world-found = refl

key_packet : Packet
key_packet = (video_packet key_bytes (message key_bytes)).0

key-key : is_key_video key_packet ≡ true
unfolding key_packet is_key_video is_video video_packet read8 Reader.init
key-key = refl

play-receives_example :
    (w1 w2 w3 : World) × (b : Session) × (run_all junk (message key_bytes ∷ []) world publisher
      ≡ ok (w1, publisher))
    × (play junk request w1 player ≡ ok (w2, b))
    × (run_all junk (message key_bytes ∷ message key_bytes ∷ []) w2 publisher ≡ ok (w3, publisher))
    × (received 2 (w3.streams 0).calls
        ≡ (stream.video_config ∷ key_packet ∷ []) ++ (key_packet ∷ key_packet ∷ []))
unfolding key_packet
play-receives_example =
    play-receives junk publisher player world 0 (message key_bytes ∷ [])
      (message key_bytes ∷ message key_bytes ∷ []) [] key_packet [] (key_packet ∷ key_packet ∷ [])
      request numbered refl (key-IsFrame, tt) (key-IsFrame, (key-IsFrame, tt))
      (unfold is_empty in refl) tt (unfold received in refl) key-key tt
      (unfold cache_all in omega arith) (omega arith) read_number-request (omega arith) world-found
