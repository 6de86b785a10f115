-- ===== src/Rtmp/Send.antt =====
-- RtmpDecoder::SendRtmpProtol: a message is cut into chunks of `local_chunk_size` bytes.
use streamcode.Prelude.{
  ℕ, zero, suc, ◌+◌, ◌%◌, min, Option, none, some, List, [], ◌∷◌, ◌++◌, length, take, drop, ◌>>=◌,
}
use streamcode.Buffer.{Buffer, init, contents}
use streamcode.Bytes.{put24, stored32}
use streamcode.Amf.Writer.{put}
use streamcode.Rtmp.{Decoder, send}

-- What the call is given.
pub record Message : Type 0 where
  pub type : ℕ
  pub chunk_id : ℕ
  pub stream_id : ℕ
  pub time : ℕ
  pub body : List ℕ

-- The twelve bytes of `RtmpHeader`; the stream id stands lowest byte first.
unfoldable pub header : Message → List ℕ
unfolding put24 stored32
header m =
    m.chunk_id % 64 ∷ put24 m.time
    ++ (put24 (length m.body) ++ (m.type % 256 ∷ stored32 m.stream_id))

-- The byte in front of each further chunk.
unfoldable pub continuation : Message → List ℕ
continuation m = (m.chunk_id % 64 + 192) ∷ []

module _ (junk : ℕ → ℕ) where
  -- The loop: `rest` is the data from `pos` on, `head` what goes in front of the next chunk. On
  -- fuel, which `none` means to have run out.
  unfoldable pub send_loop : ℕ → ℕ → List ℕ → List ℕ → List ℕ → Buffer → Option Buffer
  unfolding put
  send_loop fuel limit head next_head [] b = some b
  send_loop zero limit head next_head (x ∷ rest) b = none
  send_loop (suc fuel) limit head next_head (x ∷ rest) b =
      let chunk = min limit (length (x ∷ rest)) in
      put junk head b >>= λ b. put junk (take chunk (x ∷ rest)) b >>= λ b.
      send_loop fuel limit next_head next_head (drop chunk (x ∷ rest)) b

  -- The buffer has the default size.
  unfoldable pub send_message : Message → Decoder → Option Decoder
  unfolding send_loop header continuation
  send_message m d =
      send_loop (length m.body) d.local_chunk_size (header m) (continuation m) m.body
        (init junk 400)
      >>= λ b. some (send (contents b) d)
