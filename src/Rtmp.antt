-- ===== src/Rtmp.antt =====
-- stream/RTMP.h and the state of stream/RtmpDecoder.h. What the connection is given to send is kept
-- as a list of byte runs, one for each call of `Send`.
pub mod Send
pub mod Messages
pub mod Peer
pub mod Chunks
pub mod Answers
pub mod Replies
pub mod Decode
pub mod Handshake
pub mod Short
pub mod Receive
pub mod Progress
pub mod Overflow
use streamcode.Prelude.{ℕ, ◌^◌, ◌-◌, Option, none, List, [], ◌∷◌, ◌++◌, ◌==◌, if◌then◌else◌}
use streamcode.TBuffer.{TBuffer}

-- `RtmpChannel`. The type is the number of the AMFType.
pub record Channel : Type 0 where
  pub iobuf : Option TBuffer
  pub head_len : ℕ
  pub channel_id : ℕ
  pub time : ℕ
  pub absolute_time : ℕ
  pub body_size : ℕ
  pub type : ℕ
  pub stream_id : ℕ

-- The constructor; the channel id -1 is stored in an `unsigned char`.
unfoldable pub new_channel : Channel
new_channel = record {
  iobuf = none;
  head_len = 0;
  channel_id = 255;
  time = 0;
  absolute_time = 0;
  body_size = 0;
  type = 0;
  stream_id = 0xffff_ffff;
}

pub data RtmpState : Type 0 where
  handshake_c0c1 handshake_c2 handshake_done : RtmpState

pub record Decoder : Type 0 where
  pub state : RtmpState
  pub channels : List (ℕ × Channel)
  pub packets : List Channel
  pub chunk_size : ℕ
  pub local_chunk_size : ℕ
  pub sent : List (List ℕ)

unfoldable pub init : Decoder
init = record {
  state = handshake_c0c1;
  channels = [];
  packets = [];
  chunk_size = 128;
  local_chunk_size = 128;
  sent = [];
}

-- `conn_->Send(data, len)`.
unfoldable pub send : List ℕ → Decoder → Decoder
send bytes d = record d { sent = d.sent ++ (bytes ∷ []) }

-- `channels_[id]` makes a new channel if there is none.
unfoldable pub channel_at : ℕ → List (ℕ × Channel) → Channel
unfolding new_channel
channel_at id [] = new_channel
channel_at id ((j, c) ∷ rest) = if j == id then c else channel_at id rest

unfoldable pub set_channel : ℕ → Channel → List (ℕ × Channel) → List (ℕ × Channel)
set_channel id c [] = (id, c) ∷ []
set_channel id c ((j, old) ∷ rest) =
    if j == id then (j, c) ∷ rest else (j, old) ∷ set_channel id c rest
