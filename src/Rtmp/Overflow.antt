-- ===== src/Rtmp/Overflow.antt =====
-- RtmpDecoder::decode where a later header makes a message longer than its buffer. The buffer has
-- the length that the message's first header gave; what is missing is counted from the latest one.
use streamcode.Prelude.{
  ℕ, suc, ◌+◌, ◌-◌, ◌%◌, ◌^◌, ◌≤◌, ◌<◌, ◌≡◌, refl, ap, ◌∙◌, min, some, none, List, [], ◌∷◌, arith,
  le→ltb, lt→leb, add32-eq, sub32-eq, eq_false, take, drop, ◌>>=◌, length, Bool, false,
}
use streamcode.Memory.{memcpy}
use streamcode.TBuffer.{TBuffer, peeked, little_endian}
use streamcode.Bytes.{flip24, big_endian}
use streamcode.Bytes.Laws.{flip24-little_endian}
use streamcode.Ring.{peek, peek8, peek24, peek32}
use streamcode.Ring.Valid.{IsValid, contents, length-contents, add_read_pos-IsValid}
use streamcode.Ring.Peek.{read-contents, peek-contents}
use streamcode.Rtmp.{Channel, Decoder, handshake_done, channel_at}
use streamcode.Rtmp.Decode.{
  receive, first_len, head_len, parse_header, message_buffer, decode_body, decode_chunk,
  decode_round, decode, fault,
}
use streamcode.Rtmp.Receive.{add_read_pos-size}

receive-overflows :
    {b : TBuffer} (n : ℕ) (held : TBuffer)
    → IsValid b
    → n ≤ b.size
    → held.buffer.extent < held.write_pos + n
    → receive n b held ≡ none
unfolding receive memcpy
receive-overflows {b} n held v fits over =
    let (after, eq, _) = read-contents n v fits in
    rw (eq, lt→leb (held.write_pos + n) held.buffer.extent over) refl

decode_body-overflows :
    {b : TBuffer} (id n : ℕ) (c : Channel) (held : TBuffer) (missing : ℕ) (d : Decoder)
    → IsValid b
    → min missing d.chunk_size + n ≤ b.size
    → min missing d.chunk_size + n < 2 ^ 32
    → held.buffer.extent < held.write_pos + min missing d.chunk_size
    → decode_body id n c held missing d b ≡ none
unfolding decode_body
decode_body-overflows {b} id n c held missing d v there small over =
    let chunk = min missing d.chunk_size in
    let size = add_read_pos-size n b (omega arith) (omega (arith, v.size_in, v.small)) in
    rw
      (
        add32-eq chunk n small,
        le→ltb b.size (chunk + n) there,
        receive-overflows chunk held (add_read_pos-IsValid n v (omega arith)).0 (omega arith) over,
      )
      refl

-- Some bytes of the contents as a number.
peeked-contents :
    {b : TBuffer} (n offset : ℕ) (bytes : List ℕ)
    → IsValid b
    → n + offset ≤ b.size
    → b.read_pos + offset ≤ b.capacity
    → take n (drop offset (contents b)) ≡ bytes
    → peeked (peek n offset b) ≡ some (little_endian bytes)
unfolding peeked
peeked-contents n offset bytes v inside reach e = rw (peek-contents n offset v inside reach, e) refl

first_len-whole : (id : ℕ) → id < 64 → first_len id ≡ 12
unfolding first_len
first_len-whole id high = ground (arith, high)

head_len-whole : (id : ℕ) → 2 ≤ id → id < 64 → head_len id ≡ 12
unfolding head_len first_len
head_len-whole id low high = ground (arith, low, high)

-- A message that was begun goes on in its buffer.
message_buffer-held :
    (junk : ℕ → ℕ) (relative : Bool) (c : Channel) (part : TBuffer) (n : ℕ)
    → c.iobuf ≡ some part
    → c.body_size ≡ n
    → part.size ≤ n
    → n < 2 ^ 32
    → message_buffer junk relative c ≡ some (c, part, n - part.size)
unfolding message_buffer
message_buffer-held junk relative c part n begun size fits small =
    rw (begun, size, le→ltb n part.size fits, sub32-eq n part.size fits small) refl

-- The bytes of a header of the format 0, and what stands behind it.
abbrev pub headed : ℕ → ℕ → ℕ → ℕ → ℕ → ℕ → ℕ → ℕ → ℕ → ℕ → ℕ → ℕ → List ℕ → List ℕ
headed id t0 t1 t2 s0 s1 s2 type i0 i1 i2 i3 rest =
    id ∷ t0 ∷ t1 ∷ t2 ∷ s0 ∷ s1 ∷ s2 ∷ type ∷ i0 ∷ i1 ∷ i2 ∷ i3 ∷ rest

module _ {b : TBuffer} (id t0 t1 t2 s0 s1 s2 type i0 i1 i2 i3 : ℕ) (rest : List ℕ) (v : IsValid b)
    (reach : b.read_pos + 8 ≤ b.capacity)
    (held : contents b ≡ headed id t0 t1 t2 s0 s1 s2 type i0 i1 i2 i3 rest) where
  room : 12 + length rest ≡ b.size
  room = omega (arith, ap length held, length-contents b)

  head_byte : peek8 0 b ≡ some id
  unfolding peek8
  head_byte =
      peeked-contents 1 0 (id ∷ []) v (omega (arith, room)) (omega (arith, reach))
        (ap (λ c. take 1 (drop 0 c)) held)
      ∙ ap some (unfold little_endian in omega arith)

  parse_header-whole :
      (c : Channel)
      → parse_header 12 b c
        ≡ some (
          record c {
            time = flip24 (little_endian (t0 ∷ t1 ∷ t2 ∷ []));
            body_size = flip24 (little_endian (s0 ∷ s1 ∷ s2 ∷ []));
            type = little_endian (type ∷ []);
            stream_id = little_endian (i0 ∷ i1 ∷ i2 ∷ i3 ∷ []);
          },
          false,
        )
  unfolding parse_header peek8 peek24 peek32
  parse_header-whole c =
      rw
        (
          peeked-contents 3 1 (t0 ∷ t1 ∷ t2 ∷ []) v (omega (arith, room)) (omega (arith, reach))
              (ap (λ c. take 3 (drop 1 c)) held),
          peeked-contents 3 4 (s0 ∷ s1 ∷ s2 ∷ []) v (omega (arith, room)) (omega (arith, reach))
              (ap (λ c. take 3 (drop 4 c)) held),
          peeked-contents 1 7 (type ∷ []) v (omega (arith, room)) (omega (arith, reach))
              (ap (λ c. take 1 (drop 7 c)) held),
          peeked-contents 4 8 (i0 ∷ i1 ∷ i2 ∷ i3 ∷ []) v (omega (arith, room))
              (omega (arith, reach)) (ap (λ c. take 4 (drop 8 c)) held),
        )
        refl

  -- The size that the header announces.
  abbrev announced : ℕ
  announced = big_endian 0 (s0 ∷ s1 ∷ s2 ∷ [])

  module _ (h0 : s0 < 256) (h1 : s1 < 256) (h2 : s2 < 256) (low : 2 ≤ id) (high : id < 64) where
    announced-small : announced < 2 ^ 24
    unfolding big_endian
    announced-small = omega (arith, h0, h1, h2)

    size_field : flip24 (little_endian (s0 ∷ s1 ∷ s2 ∷ [])) ≡ announced
    size_field = flip24-little_endian s0 s1 s2 0 h0 h1 h2 (omega arith)

    decode_chunk-overflows :
        (junk : ℕ → ℕ) (d : Decoder) (part : TBuffer)
        → (channel_at id d.channels).iobuf ≡ some part
        → part.size ≤ announced
        → min (announced - part.size) d.chunk_size ≤ length rest
        → part.buffer.extent < part.write_pos + min (announced - part.size) d.chunk_size
        → decode_chunk junk d b ≡ none
    unfolding decode_chunk
    decode_chunk-overflows junk d part begun fits there over =
        rw
          (
            head_byte,
            number,
            first_len-whole id high,
            le→ltb id 2 low,
            le→ltb b.size 12 (omega (arith, room)),
            parse_header-whole (record (channel_at id d.channels) { channel_id = id }),
            size_field,
            ◌>>=◌,
            message_buffer-held junk false updated part announced begun refl fits
                (omega (arith, announced-small)),
          )
          (ap (λ k. decode_body k (head_len id) updated part (announced - part.size) d b) number
            ∙ ap (λ n. decode_body id n updated part (announced - part.size) d b)
                (head_len-whole id low high)
            ∙ decode_body-overflows id 12 updated part (announced - part.size) d v
                (omega (arith, room, there)) (omega (arith, announced-small)) over)
      where
        number : id % 64 ≡ id
        number = omega (arith, high)

        updated : Channel
        updated = record (channel_at id d.channels) {
          channel_id = id;
          time = flip24 (little_endian (t0 ∷ t1 ∷ t2 ∷ []));
          body_size = announced;
          type = little_endian (type ∷ []);
          stream_id = little_endian (i0 ∷ i1 ∷ i2 ∷ i3 ∷ []);
        }

    -- Let the decoder be behind the handshake, and let the input hold a header of twelve bytes for
    -- a channel from 2 to 63, of which no byte up to the stream id stands behind the end of the
    -- ring, and the chunk behind it. If the channel has begun a message, whose bytes are at most as
    -- many as the header announces, and the allocation of the message has no room for the chunk,
    -- which is the smaller one of the chunk size and what the announced size leaves, then decode
    -- writes beyond that allocation.
    pub decode-overflows :
        (fuel : ℕ) (junk : ℕ → ℕ) (random : List ℕ) (d : Decoder) (part : TBuffer)
        → d.state ≡ handshake_done
        → (channel_at id d.channels).iobuf ≡ some part
        → part.size ≤ announced
        → min (announced - part.size) d.chunk_size ≤ length rest
        → part.buffer.extent < part.write_pos + min (announced - part.size) d.chunk_size
        → decode (suc fuel) junk random d b ≡ fault
    unfolding decode_round decode
    decode-overflows fuel junk random d part state begun fits there over =
        rw
          (
            eq_false b.size 0 (λ e. omega (arith, room, e)),
            decode,
            state,
            decode_chunk-overflows junk d part begun fits there over,
          )
          refl
