-- ===== src/Rtmp/Handshake.antt =====
-- RtmpDecoder::decode in the state HANDSHAKE_C0C1: the answer to the client's first bytes.
use streamcode.Prelude.{
  ℕ, ◌-◌, ◌≤◌, ◌<◌, ◌≡◌, ◌≢◌, refl, ap, ◌∙◌, some, List, [], ◌∷◌, ◌++◌, arith, take, drop, take-all,
  drop-all, append_assoc, le→ltb, eq_false,
}
use streamcode.TBuffer.{TBuffer, peeked, little_endian}
use streamcode.Ring.{read8, peek8}
use streamcode.Ring.Valid.{IsValid, contents, length-contents}
use streamcode.Ring.Peek.{peek-contents, skip-Drops, read-contents}
use streamcode.Rtmp.{Decoder, send, handshake_c2}
use streamcode.Rtmp.Decode.{returns, handshake, decode_c0c1}

-- The first byte.
read8-contents :
    {b : TBuffer} (x : ℕ) (xs : List ℕ)
    → IsValid b
    → 0 < b.size
    → contents b ≡ x ∷ xs
    → (after : TBuffer) × (read8 b ≡ some (x, after))
      × IsValid after
      × (contents after ≡ xs)
      × (after.size ≡ b.size - 1)
unfolding read8 peek8 peeked
read8-contents {b} x xs v some_there held =
    let (after, eq, (valid, rest, _, size)) = skip-Drops 1 v some_there in
    (
      after,
      rw (peek-contents 1 0 v (omega arith) (omega (arith, v.size_in, v.small)), held, eq)
          (ap (λ y. some (y, after)) (unfold little_endian in omega arith)),
      valid,
      rest ∙ ap (drop 1) held,
      size,
    )

-- When a valid ring holds exactly 1537 bytes and the first is 3, then S0, S1 and, as S2, the client's
-- own 1536 bytes are sent, in this order; the ring is left empty and valid, and the state becomes
-- HANDSHAKE_C2.
pub decode_c0c1-answers :
    {b : TBuffer} (random c1 : List ℕ) (d : Decoder)
    → IsValid b
    → b.size ≡ 1537
    → contents b ≡ 3 ∷ c1
    → (after : TBuffer) × (decode_c0c1 random d b
        ≡ some (
            returns 0
              (record d {
                state = handshake_c2;
                sent = d.sent ++ ((3 ∷ []) ∷ handshake random ∷ c1 ∷ []);
              })
              after))
      × IsValid after
      × (contents after ≡ [])
unfolding decode_c0c1 send
decode_c0c1-answers {b} random c1 d v size held =
    let (ring, first, valid, rest, left) = read8-contents 3 c1 v (omega arith) held in
    let long : 1536 ≤ ring.size = omega arith in
    let (after, second, (valid', rest', _, left')) = read-contents 1536 valid long in
    let all : take 1536 (contents ring) ≡ c1 =
      take-all 1536 (contents ring) (omega (arith, length-contents ring)) ∙ rest in
    (
      after,
      rw (le→ltb b.size 1537 (omega arith), le→ltb 1537 b.size (omega arith), first, second, all)
          (ap (λ sent. some (returns 0 (record d { state = handshake_c2; sent = sent }) after))
            (sends d.sent (3 ∷ []) (handshake random) c1)),
      valid',
      rest' ∙ drop-all 1536 (contents ring) (omega (arith, length-contents ring)),
    )
  where
    sends :
        (s : List (List ℕ)) (x y z : List ℕ)
        → ((s ++ (x ∷ [])) ++ (y ∷ [])) ++ (z ∷ []) ≡ s ++ (x ∷ y ∷ z ∷ [])
    sends s x y z =
        ap (λ t. t ++ (z ∷ [])) (append_assoc s (x ∷ []) (y ∷ []))
        ∙ append_assoc s (x ∷ y ∷ []) (z ∷ [])

-- When a valid ring holds exactly 1537 bytes and the first is not 3, nothing is sent, the state stays,
-- and only that byte is taken.
pub decode_c0c1-refuses :
    {b : TBuffer} (random c1 : List ℕ) (version : ℕ) (d : Decoder)
    → IsValid b
    → b.size ≡ 1537
    → contents b ≡ version ∷ c1
    → version ≢ 3
    → (after : TBuffer) × (decode_c0c1 random d b ≡ some (returns 0 d after))
      × IsValid after
      × (contents after ≡ c1)
unfolding decode_c0c1
decode_c0c1-refuses {b} random c1 version d v size held other =
    let (ring, first, valid, rest, left) = read8-contents version c1 v (omega arith) held in
    (
      ring,
      rw
          (
            le→ltb b.size 1537 (omega arith),
            le→ltb 1537 b.size (omega arith),
            first,
            eq_false version 3 other,
          )
          refl,
      valid,
      rest,
    )
