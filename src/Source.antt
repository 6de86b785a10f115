-- ===== src/Source.antt =====
-- stream/MediaPacket.h, stream/GopCache.cpp and stream/RtmpSource.cpp: a published stream, the
-- group of pictures that it keeps, and the readers that it hands packets to. A reader's callback is
-- a number, and the calls are kept as a list in their order.
pub mod Gop
pub mod Registry
pub mod Relay
pub mod Late
use streamcode.Prelude.{
  ℕ, Bool, true, false, Option, none, some, List, [], ◌∷◌, ◌++◌, ◌==◌, ◌&&◌, map, if◌then◌else◌,
  add32,
}
use streamcode.TBuffer.{TBuffer}

pub data FrameType : Type 0 where
  video video_config audio audio_config metadata unknown : FrameType

-- `MediaPacket`; the buffer is a pointer that may be NULL.
pub record Packet : Type 0 where
  pub frame_type : FrameType
  pub is_key : Bool
  pub timestamp : ℕ
  pub channel_id : ℕ
  pub stream_id : ℕ
  pub buffer : Option TBuffer

unfoldable pub new_packet : Packet
new_packet = record {
  frame_type = unknown;
  is_key = false;
  timestamp = 0;
  channel_id = 0;
  stream_id = 0;
  buffer = none;
}

unfoldable pub is_empty : Packet → Bool
is_empty p = elim p.buffer [ none ↦ true | some b ↦ false ]

-- The test `GetFrameType() == VIDEO`.
unfoldable pub is_video : Packet → Bool
is_video p = elim p.frame_type [ video ↦ true | _ ↦ false ]

unfoldable pub is_key_video : Packet → Bool
is_key_video p = is_video p && p.is_key

-- `GopCache`. Its constructor leaves `cacheVideoCount` indeterminate. It is an `int`, which is counted
-- here modulo 2^32; no more than 2^31 - 1 frames are cached before its overflow is undefined.
pub record GopCache : Type 0 where
  pub video_count : ℕ
  pub queue : List Packet

unfoldable pub clear : GopCache → GopCache
clear g = record { video_count = 0; queue = [] }

unfoldable pub cache : Packet → GopCache → GopCache
cache p g =
    let count = if is_video p then add32 g.video_count 1 else g.video_count in
    if count == 0
    then record g { video_count = count }
    else if is_key_video p
    then record { video_count = 1; queue = (clear g).queue ++ (p ∷ []) }
    else record { video_count = count; queue = g.queue ++ (p ∷ []) }

-- `RtmpSource`, with the calls of the readers' callbacks.
pub record Source : Type 0 where
  pub video_config : Packet
  pub audio_config : Packet
  pub gop : GopCache
  pub readers : List ℕ
  pub calls : List (ℕ × Packet)

-- `junk` is what `cacheVideoCount` holds.
unfoldable pub new_source : ℕ → Source
new_source junk = record {
  video_config = new_packet;
  audio_config = new_packet;
  gop = record { video_count = junk; queue = [] };
  readers = [];
  calls = [];
}

unfoldable pub call : ℕ → Packet → Source → Source
call reader p s = record s { calls = s.calls ++ ((reader, p) ∷ []) }

-- `GetGopCache(callback)`: the callback on each packet of the queue.
unfoldable pub replay : ℕ → List Packet → Source → Source
replay reader [] s = s
replay reader (p ∷ ps) s = replay reader ps (call reader p s)

unfoldable pub start_read : ℕ → Source → Source × Bool
start_read reader s =
    if is_empty s.video_config
    then (s, false)
    else (registered (replay reader s.gop.queue (call reader s.video_config s)), true)
  where
    registered : Source → Source
    registered s = record s { readers = s.readers ++ (reader ∷ []) }

unfoldable pub push_config : Packet → Source → Source
push_config p s = record s { video_config = p }

unfoldable pub push_audio_config : Packet → Source → Source
push_audio_config p s = record s { audio_config = p }

-- The callbacks of a copy of the queue, each on the packet.
unfoldable pub hand_out : List ℕ → Packet → Source → Source
hand_out [] p s = s
hand_out (r ∷ rs) p s = hand_out rs p (call r p s)

unfoldable pub push_packet : Packet → Source → Source
push_packet p s = hand_out s.readers p (record s { gop = cache p s.gop })
