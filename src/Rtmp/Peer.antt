-- ===== src/Rtmp/Peer.antt =====
-- A peer that puts the chunks of SendRtmpProtol together, by the format of chunks.
use streamcode.Prelude.{
  ℕ, zero, suc, ◌+◌, ◌-◌, ◌/◌, ◌%◌, ◌^◌, ◌≤◌, ◌<◌, ◌≡◌, refl, ap, sym, ◌∙◌, min, Option, none, some,
  List, [], ◌∷◌, ◌++◌, arith, length, length-take, length-drop, length-append, take, drop,
  take-append_of, drop-append_of, take-append-drop, ◌==◌, ◌&&◌, leb, ltb, le→leb, lt→ltb, eq_true,
  if◌then◌else◌, ◌>>=◌,
}
use streamcode.Bytes.{byte, big_endian, put24, stored32}
use streamcode.Rtmp.Send.{Message, header}

-- The bytes of the loop.
unfoldable pub chunked : ℕ → ℕ → List ℕ → List ℕ → List ℕ → List ℕ
chunked fuel limit head next_head [] = []
chunked zero limit head next_head (x ∷ rest) = []
chunked (suc fuel) limit head next_head (x ∷ rest) =
    head
    ++ (take (min limit (length (x ∷ rest))) (x ∷ rest)
        ++ chunked fuel limit next_head next_head (drop (min limit (length (x ∷ rest))) (x ∷ rest)))

-- What stands behind a chunk when `missing` bytes of the message do: nothing, or a byte of the format 3
-- with the number of the channel and another chunk.
unfoldable pub behind : ℕ → (ℕ → List ℕ → Option (List ℕ)) → ℕ → List ℕ → Option (List ℕ)
behind id again zero [] = some []
behind id again zero (_ ∷ _) = none
behind id again (suc missing) [] = none
behind id again (suc missing) (b ∷ bytes) =
    if (b / 64 == 3) && (b % 64 == id) then again (suc missing) bytes else none

-- The chunks of `size` bytes on a channel, from behind the header of the first one on.
unfoldable pub chunks : ℕ → ℕ → ℕ → ℕ → List ℕ → Option (List ℕ)
chunks zero limit id size bytes = none
chunks (suc fuel) limit id size bytes =
    let chunk = min limit size in
    let later = behind id (chunks fuel limit id) (size - chunk) (drop chunk bytes) in
    if leb chunk (length bytes) then (later >>= λ more. some (take chunk bytes ++ more)) else none

-- The message of the fields of a header of the format 0. The numbers 0 and 1 of a channel announce a
-- longer header, and so does the time 0xffffff.
unfoldable pub message_of : ℕ → ℕ → ℕ → ℕ → ℕ → ℕ → List ℕ → Option Message
message_of limit b time size type stream_id bytes =
    if (b / 64 == 0) && (leb 2 b && ltb time 0xff_ffff)
    then (chunks size limit b size bytes >>= λ body.
        some
          (record { type = type; chunk_id = b; stream_id = stream_id; time = time; body = body }))
    else none

-- What a peer makes of a message of some bytes, by the format of chunks: eleven bytes of header behind
-- the first byte, of which the last four stand lowest byte first.
unfoldable pub dechunk : ℕ → List ℕ → Option Message
dechunk limit (b ∷ t ∷ t' ∷ t'' ∷ s ∷ s' ∷ s'' ∷ type ∷ i ∷ i' ∷ i'' ∷ i''' ∷ bytes) =
    message_of limit b (big_endian 0 (t ∷ t' ∷ t'' ∷ [])) (big_endian 0 (s ∷ s' ∷ s'' ∷ [])) type
      (big_endian 0 (i''' ∷ i'' ∷ i' ∷ i ∷ [])) bytes
dechunk _ _ = none

module _ (limit id : ℕ) (pos : 0 < limit) (in_range : id < 64) where
  -- One chunk and what stands behind it.
  chunks-more :
      (fuel : ℕ) (text : List ℕ) (more : List ℕ)
      → behind id (chunks fuel limit id) (length (drop (min limit (length text)) text)) more
        ≡ some (drop (min limit (length text)) text)
      → chunks (suc fuel) limit id (length text) (take (min limit (length text)) text ++ more)
        ≡ some text
  unfolding chunks
  chunks-more fuel text more later =
      rw
        (
          le→leb chunk (length (front ++ more)) (omega (arith, length-append front more, size)),
          take-append_of chunk front more size,
          drop-append_of chunk front more size,
          sym (length-drop chunk text),
          later,
        )
        (ap some (take-append-drop chunk text))
    where
      chunk : ℕ
      chunk = min limit (length text)

      front : List ℕ
      front = take chunk text

      size : length front ≡ chunk
      size = omega (arith, length-take chunk text)

  behind-chunked :
      (fuel : ℕ) (text : List ℕ)
      → length text ≤ fuel
      → behind id
          (chunks fuel limit id)
          (length text)
          (chunked fuel limit ((id + 192) ∷ []) ((id + 192) ∷ []) text)
        ≡ some text
  unfolding behind chunked
  behind-chunked zero [] enough = refl
  behind-chunked (suc fuel) [] enough = refl
  behind-chunked zero (x ∷ rest) enough = elim enough [ ]
  behind-chunked (suc fuel) (x ∷ rest) enough =
      rw
        (
          eq_true ((id + 192) / 64) 3 (omega (arith, in_range)),
          eq_true ((id + 192) % 64) id (omega (arith, in_range)),
        )
        (chunks-more fuel (x ∷ rest) _ (
          behind-chunked fuel (drop (min limit (length (x ∷ rest))) (x ∷ rest))
            (omega (arith, length-drop (min limit (length (x ∷ rest))) (x ∷ rest), pos, enough))))

  -- Cutting a text into chunks and putting it together gives the text.
  pub chunks-chunked :
      (head : List ℕ) (x : ℕ) (rest : List ℕ)
      → (more : List ℕ) × (chunked (length (x ∷ rest)) limit head ((id + 192) ∷ []) (x ∷ rest)
          ≡ head ++ more)
        × (chunks (length (x ∷ rest)) limit id (length (x ∷ rest)) more ≡ some (x ∷ rest))
  unfolding chunked
  chunks-chunked head x rest = (
    _,
    refl,
    chunks-more (length rest) (x ∷ rest) _ (
        behind-chunked (length rest) (drop (min limit (length (x ∷ rest))) (x ∷ rest))
          (omega (arith, length-drop (min limit (length (x ∷ rest))) (x ∷ rest), pos))),
  )

-- What a header can say in twelve bytes, and a body of some bytes.
abbrev pub IsShort : Message → Type 0
IsShort m =
    (2 ≤ m.chunk_id)
    × (m.chunk_id < 64)
    × (m.time < 0xff_ffff)
    × (m.type < 2 ^ 8)
    × (m.stream_id < 2 ^ 32)
    × (0 < length m.body)
    × (length m.body < 2 ^ 24)

of_put24 : (n : ℕ) → n < 2 ^ 24 → big_endian 0 (put24 n) ≡ n
unfolding big_endian put24
of_put24 n h = omega (arith, h)

of_stored32 :
    (n : ℕ) → n < 2 ^ 32 → big_endian 0 (byte 3 n ∷ byte 2 n ∷ byte 1 n ∷ byte 0 n ∷ []) ≡ n
unfolding big_endian
of_stored32 n h = omega (arith, h)

pub dechunk-header :
    (limit : ℕ) (m : Message) (bytes : List ℕ)
    → IsShort m
    → chunks (length m.body) limit m.chunk_id (length m.body) bytes ≡ some m.body
    → dechunk limit (header m ++ bytes) ≡ some m
unfolding dechunk header put24 stored32
dechunk-header limit m bytes (low, high, early, type_in, stream_in, _, size_in) back =
    ap
      (λ b.
        message_of limit b (big_endian 0 (put24 m.time)) (big_endian 0 (put24 (length m.body)))
          (m.type % 256) stream bytes)
      number
    ∙ ap
        (λ t.
          message_of limit m.chunk_id t (big_endian 0 (put24 (length m.body))) (m.type % 256) stream
            bytes)
        (of_put24 m.time (omega (arith, early)))
    ∙ ap (λ n. message_of limit m.chunk_id m.time n (m.type % 256) stream bytes)
        (of_put24 (length m.body) size_in)
    ∙ ap (λ n. message_of limit m.chunk_id m.time (length m.body) n stream bytes) type
    ∙ ap (λ n. message_of limit m.chunk_id m.time (length m.body) m.type n bytes)
        (of_stored32 m.stream_id stream_in)
    ∙ whole
  where
    stream : ℕ
    stream =
        big_endian 0
          (byte 3 m.stream_id ∷ byte 2 m.stream_id ∷ byte 1 m.stream_id ∷ byte 0 m.stream_id ∷ [])

    number : m.chunk_id % 64 ≡ m.chunk_id
    number = omega (arith, high)

    type : m.type % 256 ≡ m.type
    type = omega (arith, type_in)

    whole : message_of limit m.chunk_id m.time (length m.body) m.type m.stream_id bytes ≡ some m
    whole =
        unfold message_of in
        rw
          (
            eq_true (m.chunk_id / 64) 0 (omega (arith, high)),
            le→leb 2 m.chunk_id low,
            lt→ltb m.time 0xff_ffff early,
            back,
          )
          refl
