-- ===== src/Session.antt =====
-- stream/RtmpSession.h and stream/RtmpSession.cpp: what a session does with the messages that its
-- decoder has put together. The sources and their map are shared by all sessions; a session's number
-- stands for the callback that it gives to `StartRead`. Nothing in the program catches the exception
-- "Not enough data", which therefore ends it.
pub mod Answers
pub mod Publish
pub mod Nulls
use streamcode.Prelude.{
  ℕ, ◌+◌, ◌/◌, ◌%◌, ◌^◌, Bool, true, false, not, ◌||◌, Option, none, some, List, [], ◌∷◌, ◌++◌,
  ◌==◌, if◌then◌else◌, add32, codes,
}
use streamcode.Memory.{load}
use streamcode.TBuffer.{TBuffer}
use streamcode.Reader.{Reader, read8, read24}
use streamcode.Reader
use streamcode.Amf.{same_key, at_key, get_string}
use streamcode.Amf.Reader.{
  Outcome, ok, not_enough, fault, stuck, ◌>>=◌, read_number, read_null, read_string, read_object,
}
use streamcode.Rtmp.{Channel, Decoder}
use streamcode.Rtmp.Messages.{
  send_win_ack_size, send_peer_width, send_bw_result, send_create_stream, send_pub_on_status,
  send_fmle_result, send_status_reset, send_status_start, rtmp_sample_access, send_stream_begin0,
  send_connect_status, send_video,
}
use streamcode.Rtmp.Decode.{decode, done, out_of_fuel}
use streamcode.Rtmp.Decode
use streamcode.Source.{Packet, Source, video, new_packet, start_read, push_config, push_packet}
use streamcode.Source.Registry.{Registry, find_media_source, create_media_source}

-- What the sessions share: the map, and the sources, by their numbers.
pub record World : Type 0 where
  pub registry : Registry
  pub streams : ℕ → Source

-- `publisher` is `m_pPublisherSrc`, which is NULL at first.
pub record Session : Type 0 where
  pub app : List ℕ
  pub decoder : Decoder
  pub publisher : Option ℕ
  pub number : ℕ

-- A NULL pointer or an access outside an allocation.
abbrev pub sure {ℓ} : {A : Type ℓ} → Option A → Outcome A
sure none = fault
sure (some a) = ok a

unfoldable pub change : ℕ → (Source → Source) → World → World
change id f w = record w { streams = λ i. if i == id then f (w.streams id) else w.streams i }

-- What a command returns of the world, its caller's session and the cursor.
abbrev pub Command : Type 0
Command = Reader → World → Session → Outcome (World × Session)

abbrev pub answer : Option Decoder → World → Session → Outcome (World × Session)
answer d w s = sure d >>= λ d. ok (w, record s { decoder = d })

-- `object["app"]` of `AMF_ReadObject`; the other values that are looked up are not used.
unfoldable pub connect : (ℕ → ℕ) → Command
connect junk r w s = read_number r >>= λ id. read_object (id.1) >>= λ object.
    sure (at_key (object.0) (codes "app")) >>= λ app.
    sure (send_win_ack_size junk 5_000_000 s.decoder) >>= λ d.
    sure (send_peer_width junk 5_000_000 d) >>= λ d.
    answer (send_connect_status junk true (id.0) d) w (record s { app = get_string app })

unfoldable pub check_bw : (ℕ → ℕ) → Command
check_bw junk r w s = read_number r >>= λ id. answer (send_bw_result junk (id.0) s.decoder) w s

unfoldable pub create_stream : (ℕ → ℕ) → Command
create_stream junk r w s =
    read_number r >>= λ id. answer (send_create_stream junk (id.0) s.decoder) w s

unfoldable pub release_stream : (ℕ → ℕ) → Command
release_stream junk r w s =
    read_number r >>= λ id. answer (send_fmle_result junk (id.0) s.decoder) w s

unfoldable pub fc_subscribe : (ℕ → ℕ) → Command
fc_subscribe junk r w s =
    read_number r >>= λ id. answer (send_fmle_result junk (id.0) s.decoder) w s

-- What is read behind the number is not used.
unfoldable pub fc_publish : (ℕ → ℕ) → Command
fc_publish junk r w s = read_number r >>= λ id. answer (send_fmle_result junk (id.0) s.decoder) w s

-- What `FindMediaSource` finds is not used either.
unfoldable pub publish : (ℕ → ℕ) → Command
publish junk r w s = read_number r >>= λ id.
    let (source, registry) = create_media_source s.app w.registry in
    answer (send_pub_on_status junk (id.0) true s.decoder) (record w { registry = registry })
      (record s { publisher = some source })

-- The four messages of `RtmpPlay`.
unfoldable pub play_answers : (ℕ → ℕ) → Decoder → Outcome Decoder
play_answers junk d = sure (send_stream_begin0 junk d) >>= λ d.
    sure (send_status_reset junk true d) >>= λ d.
    sure (send_status_start junk d) >>= λ d. sure (rtmp_sample_access junk d)

-- The name of the source: the application, or the stream that was asked for if there is none.
unfoldable pub source_name : List ℕ → List ℕ → List ℕ
source_name [] stream = stream
source_name (x ∷ app) stream = x ∷ app

-- `StartRead` is called on what `FindMediaSource` returned, which may be NULL.
unfoldable pub play : (ℕ → ℕ) → Command
play junk r w s = read_number r >>= λ id.
    let (stream, _) = read_string ((read_null (id.1)).1) in
    play_answers junk s.decoder >>= λ d.
    sure (find_media_source (source_name s.app stream) w.registry) >>= λ source.
    ok (change source (λ src. (start_read s.number src).0) w, record s { decoder = d })

-- `g_mapCmd`; a method that is not in it does nothing.
unfoldable pub command : (ℕ → ℕ) → List ℕ → Command
command junk method r w s =
    if same_key method (codes "connect")
    then connect junk r w s
    else if same_key method (codes "_checkbw")
    then check_bw junk r w s
    else if same_key method (codes "createStream")
    then create_stream junk r w s
    else if same_key method (codes "play")
    then play junk r w s
    else if same_key method (codes "releaseStream")
    then release_stream junk r w s
    else if same_key method (codes "FCPublish")
    then fc_publish junk r w s
    else if same_key method (codes "publish")
    then publish junk r w s
    else if same_key method (codes "FCSubscribe")
    then fc_subscribe junk r w s
    else ok (w, s)

-- A message with a method name in front.
unfoldable pub invoke : (ℕ → ℕ) → List ℕ → World → Session → Outcome (World × Session)
invoke junk bytes w s =
    let (method, r) = read_string (Reader.init bytes) in command junk method r w s

-- The packet that a video message makes, and the type of its first unit.
unfoldable pub video_packet : List ℕ → Channel → Packet × ℕ
video_packet bytes c =
    let (codec, r) = read8 (Reader.init bytes) in
    let (unit_type, r') = read8 r in
    let (offset, _) = read24 r' in
    (
      record new_packet {
        frame_type = video;
        is_key = codec / 2 ^ 4 % 16 == 1;
        timestamp = add32 c.absolute_time offset;
        channel_id = c.channel_id;
        stream_id = c.stream_id;
        buffer = c.iobuf;
      },
      unit_type,
    )

-- The branch of `Run` for video. Messages of another codec than H.264 are dropped.
unfoldable pub take_video : List ℕ → Channel → World → Session → Outcome (World × Session)
take_video bytes c w s =
    if not ((read8 (Reader.init bytes)).0 % 16 == 7)
    then ok (w, s)
    else (sure s.publisher >>= λ id.
        let (packet, unit_type) = video_packet bytes c in
        ok (change id (if unit_type == 0 then push_config packet else push_packet packet) w, s))

-- The bytes of a message; the code reads them in place.
unfoldable pub message_bytes : Channel → Option (List ℕ)
message_bytes c = elim c.iobuf [ none ↦ none | some b ↦ load b.buffer b.read_pos b.size ]

unfoldable pub take_message : (ℕ → ℕ) → Channel → World → Session → Outcome (World × Session)
take_message junk c w s =
    if c.type == 0x14 || c.type == 0x11
    then (sure (message_bytes c) >>= λ bytes. invoke junk bytes w s)
    else if c.type == 9
    then (sure (message_bytes c) >>= λ bytes. take_video bytes c w s)
    else ok (w, s)

unfoldable pub run_all : (ℕ → ℕ) → List Channel → World → Session → Outcome (World × Session)
run_all junk [] w s = ok (w, s)
run_all junk (c ∷ cs) w s = take_message junk c w s >>= λ t. run_all junk cs (t.0) (t.1)

unfoldable pub run : (ℕ → ℕ) → World → Session → Outcome (World × Session)
run junk w s = run_all junk s.decoder.packets w s >>= λ t.
    ok (t.0, record (t.1) { decoder = record (t.1.decoder) { packets = [] } })

-- `OnRecv`, with the input ring of the connection, and the ring and the session afterwards.
unfoldable pub on_recv :
    ℕ → (ℕ → ℕ) → List ℕ → TBuffer → World → Session → Outcome (World × Session × TBuffer)
on_recv fuel junk random ring w s = elim (decode fuel junk random s.decoder ring) [
  | done _ d after ↦ handled (record s { decoder = d }) after
  | Decode.fault ↦ fault
  | out_of_fuel ↦ stuck
]
  where
    handled : Session → TBuffer → Outcome (World × Session × TBuffer)
    handled s after = elim s.decoder.packets [
      | [] ↦ ok (w, s, after)
      | _ ∷ _ ↦ (run junk w s >>= λ t. ok (t.0, t.1, after))
    ]

-- `ReadFromSource`, which the session's callback calls on a packet with bytes.
unfoldable pub read_from_source : (ℕ → ℕ) → List ℕ → Packet → Session → Outcome Session
read_from_source junk bytes p s =
    sure (send_video junk p.channel_id p.stream_id bytes p.timestamp s.decoder) >>= λ d.
    ok (record s { decoder = d })
