-- ===== src/Rtmp/Decode.antt =====
-- RtmpDecoder::decode: the handshake and the chunks of the peer. An outer `none` is a fault.
use streamcode.Prelude.{
  ℕ, zero, suc, ◌+◌, ◌-◌, ◌*◌, ◌/◌, ◌%◌, ◌^◌, min, Bool, true, false, Option, none, some, List, [],
  ◌∷◌, ◌++◌, ltb, ◌==◌, not, if◌then◌else◌, ◌>>=◌, take, add32, sub32,
}
use streamcode.Memory.{of_list, memcpy}
use streamcode.TBuffer.{TBuffer, init}
use streamcode.Bytes.{flip24, flip32}
use streamcode.Ring.{add_read_pos, read, read8, peek8, peek24, peek32}
use streamcode.Drain
use streamcode.Rtmp.{
  Channel, Decoder, handshake_c0c1, handshake_c2, handshake_done, send, channel_at, set_channel,
}

-- What a round of the loop does: `decode` returns this number, or the loop goes on.
pub data Round : Type 0 where
  returns : ℕ → Decoder → TBuffer → Round
  continues : Decoder → TBuffer → Round

-- `RtmpHandshake s1(0)`: four bytes of time, four of zero, and what `rand` gave.
unfoldable pub handshake : List ℕ → List ℕ
handshake random = 0 ∷ 0 ∷ 0 ∷ 0 ∷ 0 ∷ 0 ∷ 0 ∷ 0 ∷ take 1528 random

-- The state HANDSHAKE_C0C1. Nothing is done before exactly 1537 bytes are there. A `Read` that
-- copies nothing would leave the local array indeterminate; it does not happen, since the bytes are
-- counted first.
unfoldable pub decode_c0c1 : List ℕ → Decoder → TBuffer → Option Round
unfolding handshake
decode_c0c1 random d b =
    if ltb b.size 1537
    then some (returns (b.size % 2 ^ 32) d b)
    else if ltb 1537 b.size
    then some (returns 0 d b)
    else (read8 b >>= λ r. greet (r.0) (r.1))
  where
    greet : ℕ → TBuffer → Option Round
    greet version b =
        if not (version == 3)
        then some (returns 0 d b)
        else (read 1536 b >>= λ r. r.0 >>= λ c2. some (
            returns 0
              (record (send c2 (send (handshake random) (send (3 ∷ []) d))) {
                state = handshake_c2;
              })
              (r.1)))

-- The state HANDSHAKE_C2.
unfoldable pub decode_c2 : Decoder → TBuffer → Round
decode_c2 d b =
    if ltb b.size 1536
    then returns 0 d b
    else continues (record d { state = handshake_done }) (add_read_pos 1536 b).0

-- `headLen` as it is first computed from the first byte, and its final value.
unfoldable pub first_len : ℕ → ℕ
first_len head_type = let n = 12 - head_type / 2 ^ 6 * 4 in if n == 0 then 1 else n

unfoldable pub head_len : ℕ → ℕ
unfolding first_len
head_len head_type =
    let id = head_type % 64 in
    if ltb id 2 then first_len head_type + id + 1 else first_len head_type

-- The fields that the header updates: the channel, and whether the time is relative.
unfoldable pub parse_header : ℕ → TBuffer → Channel → Option (Channel × Bool)
parse_header n b c =
    if ltb n 4 then some (c, true) else (peek24 1 b >>= λ t. sized (record c { time = flip24 t }))
  where
    streamed : Channel → Option (Channel × Bool)
    streamed c =
        if ltb n 12
        then some (c, true)
        else (peek32 8 b >>= λ s. some (record c { stream_id = s }, false))

    sized : Channel → Option (Channel × Bool)
    sized c =
        if ltb n 8
        then some (c, true)
        else (peek24 4 b >>= λ s.
            peek8 7 b >>= λ t. streamed (record c { body_size = flip24 s; type = t }))

-- The buffer of the message, a new one if there is none. The last part is how many bytes of the
-- message are missing; `none` inside is that there are too many.
unfoldable pub message_buffer : (ℕ → ℕ) → Bool → Channel → Option (Channel × TBuffer × ℕ)
message_buffer junk relative c = elim c.iobuf [
  | none ↦ some (
    record c {
      iobuf = some (init junk c.body_size);
      absolute_time = if relative then add32 c.absolute_time c.time else c.time;
    },
    init junk c.body_size,
    c.body_size,
  )
  | some held ↦
      if ltb c.body_size held.size then none else some (c, held, sub32 c.body_size held.size)
]

-- `buffer.Read(iobuf->GetWritePtr(), n)` and `iobuf->AddWritePos(n)`. The caller has counted the
-- bytes, so that `Read` copies all of them; a `Read` that copies nothing is not followed further.
unfoldable pub receive : ℕ → TBuffer → TBuffer → Option (TBuffer × TBuffer)
receive n b held = read n b >>= λ r. r.0 >>= λ bytes.
    memcpy held.buffer held.write_pos (of_list bytes) 0 n >>= λ filled.
    some (r.1, (Drain.add_write_pos n (record held { buffer = filled })).0)

-- What is done when the message is complete: types 1, 5 and 3 are handled here, and any other
-- message is moved to `_packets`, which leaves the channel without a buffer.
unfoldable pub deliver : ℕ → Channel → TBuffer → Decoder → Option Decoder
deliver id c held d =
    if c.type == 1
    then (Drain.peek32 0 held >>= λ n. some (record d {
      chunk_size = flip32 n;
      channels = set_channel id (record c { iobuf = none }) d.channels;
    }))
    else if c.type == 5
    then some cleared
    else if c.type == 3
    then some cleared
    else some (record cleared { packets = d.packets ++ (record c { iobuf = some held } ∷ []) })
  where
    cleared : Decoder
    cleared = record d { channels = set_channel id (record c { iobuf = none }) d.channels }

-- The chunk behind the header.
unfoldable pub decode_body : ℕ → ℕ → Channel → TBuffer → ℕ → Decoder → TBuffer → Option Round
decode_body id n c held missing d b =
    if ltb b.size (add32 chunk n)
    then some (returns 0 (record d { channels = set_channel id c d.channels }) b)
    else (receive chunk (add_read_pos n b).0 held >>= λ r.
        if c.body_size == (r.1).size
        then (deliver id c (r.1) d >>= λ d'. some (continues d' (r.0)))
        else some (
            continues
              (record d { channels = set_channel id (record c { iobuf = some (r.1) }) d.channels })
              (r.0)))
  where
    chunk : ℕ
    chunk = min missing d.chunk_size

-- The state HANDSHAKE_DONE: one chunk.
unfoldable pub decode_chunk : (ℕ → ℕ) → Decoder → TBuffer → Option Round
unfolding head_len
decode_chunk junk d b = peek8 0 b >>= λ head_type. chunk (head_type % 64) head_type
  where
    chunk : ℕ → ℕ → Option Round
    chunk id head_type =
        if ltb b.size (first_len head_type)
        then some (returns 0 d b)
        else (parse_header (head_len head_type) b
              (record (channel_at id d.channels) { channel_id = id })
            >>= λ p. elim (message_buffer junk (p.1) (p.0)) [
              | none ↦ some (returns 0 (record d { channels = set_channel id (p.0) d.channels }) b)
              | some (c, held, missing) ↦ decode_body id (head_len head_type) c held missing d b
            ])

unfoldable pub decode_round : (ℕ → ℕ) → List ℕ → Decoder → TBuffer → Option Round
decode_round junk random d b = elim d.state [
  | handshake_c0c1 ↦ decode_c0c1 random d b
  | handshake_c2 ↦ some (decode_c2 d b)
  | handshake_done ↦ decode_chunk junk d b
]

-- How `decode` ends.
pub data Outcome : Type 0 where
  done : ℕ → Decoder → TBuffer → Outcome
  fault : Outcome
  out_of_fuel : Outcome

-- The loop runs while the buffer is not empty.
unfoldable pub decode : ℕ → (ℕ → ℕ) → List ℕ → Decoder → TBuffer → Outcome
decode zero junk random d b = out_of_fuel
decode (suc fuel) junk random d b = elim (b.size == 0) [
  | true ↦ done 0 d b
  | false ↦ elim (decode_round junk random d b) [
    | none ↦ fault
    | some (returns v d' b') ↦ done v d' b'
    | some (continues d' b') ↦ decode fuel junk random d' b'
  ]
]
