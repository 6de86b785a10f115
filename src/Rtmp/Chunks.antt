-- ===== src/Rtmp/Chunks.antt =====
-- What SendRtmpProtol emits: the chunks of the message, which a peer with the same chunk size puts
-- together again.
use streamcode.Prelude.{
  ℕ, zero, suc, ◌+◌, ◌^◌, ◌≤◌, ◌<◌, ◌≡◌, refl, ap, sym, ◌∙◌, min, some, List, [], ◌∷◌, ◌++◌, arith,
  length, length-drop, take, drop,
}
use streamcode.Buffer.{init, contents}
use streamcode.Buffer.Append.{init-IsValid}
use streamcode.Amf.Writer.{put}
use streamcode.Amf.Encoding.{Emits, Emits-put, Emits-nothing, Emits-seq}
use streamcode.Rtmp.{Decoder, send}
use streamcode.Rtmp.Send.{Message, header, continuation, send_loop, send_message}
use streamcode.Rtmp.Peer.{chunked, chunks, dechunk, IsShort, chunks-chunked, dechunk-header}

-- With a chunk size above 0 the fuel `length data` is enough.
Emits-loop :
    (junk : ℕ → ℕ) (fuel limit : ℕ) (head next_head text : List ℕ)
    → 0 < limit
    → length text ≤ fuel
    → Emits (send_loop junk fuel limit head next_head text) (chunked fuel limit head next_head text)
unfolding send_loop chunked
Emits-loop junk zero limit head next_head [] pos enough = Emits-nothing
Emits-loop junk (suc fuel) limit head next_head [] pos enough = Emits-nothing
Emits-loop junk zero limit head next_head (x ∷ rest) pos enough = elim enough [ ]
Emits-loop junk (suc fuel) limit head next_head (x ∷ rest) pos enough =
    let chunk = min limit (length (x ∷ rest)) in
    Emits-seq (put junk head) _ head _ (Emits-put junk head) (
      Emits-seq (put junk (take chunk (x ∷ rest))) _ (take chunk (x ∷ rest)) _
        (Emits-put junk (take chunk (x ∷ rest)))
        (Emits-loop junk fuel limit next_head next_head (drop chunk (x ∷ rest)) pos
          (omega (arith, length-drop chunk (x ∷ rest)))))

-- With a chunk size above 0 SendRtmpProtol does not fault and hands the connection one run of bytes.
-- The bound keeps the buffer below 2 ^ 31 bytes.
pub send_message-sends :
    (junk : ℕ → ℕ) (m : Message) (d : Decoder)
    → 0 < d.local_chunk_size
    → length (chunked (length m.body) d.local_chunk_size (header m) (continuation m) m.body)
      < 2 ^ 31
    → send_message junk m d
      ≡ some
          (send (chunked (length m.body) d.local_chunk_size (header m) (continuation m) m.body) d)
unfolding send_message Emits contents
send_message-sends junk m d pos small =
    let text = chunked (length m.body) d.local_chunk_size (header m) (continuation m) m.body in
    let (b, eq, valid, joined, _) =
      Emits-loop junk (length m.body) d.local_chunk_size (header m) (continuation m) m.body pos
        (omega arith) (init junk 400) (init-IsValid junk 400 (omega arith)) (start text small) in
    rw eq (ap (λ t. some (send t d)) (joined ∙ fresh text))
  where
    start : (text : List ℕ) → length text < 2 ^ 31 → length text + (init junk 400).size < 2 ^ 31
    start text h = unfold init in omega arith

    fresh : (text : List ℕ) → contents (init junk 400) ++ text ≡ text
    fresh text = unfold init in refl

-- Let the number of the channel be from 2 to 63, the time below 0xffffff, the type below 2^8, the
-- stream below 2^32, and let the body have some bytes and less than 2^24. With a chunk size above 0
-- SendRtmpProtol then does not fault and hands the connection one run of bytes, from which a peer
-- with the same chunk size, who reads the header and the bytes in front of the further chunks, gets
-- the message: its type, channel, stream, time and body, and nothing behind it. The chunks are
-- shorter than 2^31 bytes in all.
pub send_message-dechunk :
    (junk : ℕ → ℕ) (m : Message) (d : Decoder)
    → 0 < d.local_chunk_size
    → IsShort m
    → length (chunked (length m.body) d.local_chunk_size (header m) (continuation m) m.body)
      < 2 ^ 31
    → (bytes : List ℕ) × (send_message junk m d ≡ some (send bytes d))
      × (dechunk d.local_chunk_size bytes ≡ some m)
send_message-dechunk junk m d pos short small =
    let (low, high, _, _, _, some_bytes, _) = short in
    (
      chunked (length m.body) d.local_chunk_size (header m) (continuation m) m.body,
      send_message-sends junk m d pos small,
      back (next high) high some_bytes m.body refl,
    )
  where
    next : m.chunk_id < 64 → continuation m ≡ (m.chunk_id + 192) ∷ []
    next high = unfold continuation in ap (λ n. n ∷ []) (omega (arith, high))

    back :
        continuation m ≡ (m.chunk_id + 192) ∷ []
        → m.chunk_id < 64
        → 0 < length m.body
        → (text : List ℕ) → m.body ≡ text
        → dechunk d.local_chunk_size
            (chunked (length m.body) d.local_chunk_size (header m) (continuation m) m.body)
          ≡ some m
    back begins high some_bytes [] e = absurd (omega (arith, ap length e, some_bytes))
    back begins high some_bytes (x ∷ rest) e =
        let (more, eq, body) =
          chunks-chunked d.local_chunk_size m.chunk_id pos high (header m) x rest in
        ap
          (λ k.
            dechunk d.local_chunk_size
              (chunked (length m.body) d.local_chunk_size (header m) k m.body))
          begins
        ∙ ap
            (λ t.
              dechunk d.local_chunk_size
                (chunked (length t) d.local_chunk_size (header m) ((m.chunk_id + 192) ∷ []) t))
            e
        ∙ ap (dechunk d.local_chunk_size) eq
        ∙ dechunk-header d.local_chunk_size m more short (
            ap (λ t. chunks (length t) d.local_chunk_size m.chunk_id (length t) more) e
            ∙ body
            ∙ ap some (sym e))
