-- ===== src/Rtmp/Progress.antt =====
-- RtmpDecoder::decode ends: each round that goes on takes bytes off the buffer.
use streamcode.Prelude.{
  ℕ, zero, suc, ◌+◌, ◌%◌, ◌^◌, ◌≤◌, ◌<◌, ◌≢◌, inl, inr, subst, min, Bool, Option, none, some, List,
  [], ◌∷◌, arith, ltb, ◌==◌, not, if◌then◌else◌, ◌>>=◌, >>=-holds, add32, add32-eq, ltb-cases,
  Bool-cases, Option-cases,
}
use streamcode.TBuffer.{TBuffer}
use streamcode.Ring.{add_read_pos, read, read8, peek8}
use streamcode.Drain
use streamcode.Rtmp.{
  Channel, Decoder, RtmpState, handshake_c0c1, handshake_c2, handshake_done, send, channel_at,
  set_channel,
}
use streamcode.Rtmp.Decode.{
  Round, returns, continues, first_len, head_len, parse_header, message_buffer, receive, deliver,
  decode_body, decode_chunk, decode_c2, decode_c0c1, decode_round, decode, handshake, done, fault,
  out_of_fuel,
}
use streamcode.Rtmp.Short.{
  IsShort, AllShort, ParsesShort, MissesAtMost, channel_at-IsShort, set_channel-AllShort,
  parse_header-IsShort, message_buffer-IsShort, head_len-bounds,
}
use streamcode.Rtmp.Receive.{Receives, receive-Receives, add_read_pos-size}

-- A round that goes on leaves fewer bytes, and only short messages.
abbrev Shrinks : TBuffer → Option Round → Type 0
Shrinks b none = Unit
Shrinks b (some (returns v d' b')) = Unit
Shrinks b (some (continues d' b')) = (b'.size < b.size) × AllShort d'.channels

abbrev Keeps : Option Decoder → Type 0
Keeps none = Unit
Keeps (some d) = AllShort d.channels

deliver-Keeps :
    (id : ℕ) (c : Channel) (held : TBuffer) (d : Decoder)
    → IsShort c
    → AllShort d.channels
    → Keeps (deliver id c held d)
unfolding deliver
deliver-Keeps id c held d s all = elim (Bool-cases (c.type == 1)) [
  | inl e ↦ rw e (>>=-holds Keeps (Drain.peek32 0 held) _ tt λ n _. cleared)
  | inr e ↦ elim (Bool-cases (c.type == 5)) [
    | inl f ↦ rw (e, f) cleared
    | inr f ↦ elim (Bool-cases (c.type == 3)) [
      | inl g ↦ rw (e, f, g) cleared
      | inr g ↦ rw (e, f, g) cleared
    ]
  ]
]
  where
    cleared : AllShort (set_channel id (record c { iobuf = none }) d.channels)
    cleared = set_channel-AllShort id (record c { iobuf = none }) d.channels s all

-- A chunk takes its header and its bytes off the ring.
decode_body-Shrinks :
    (id n : ℕ) (c : Channel) (held : TBuffer) (missing : ℕ) (d : Decoder) (b : TBuffer)
    → 0 < n
    → n < 20
    → IsShort c
    → missing < 2 ^ 24
    → AllShort d.channels
    → b.size < 2 ^ 64
    → Shrinks b (decode_body id n c held missing d b)
unfolding decode_body
decode_body-Shrinks id n c held missing d b pos few s less all small =
    elim (ltb-cases b.size (add32 chunk n)) [
      | inl (e, _) ↦ rw e tt
      | inr (e, le) ↦
          let fits : chunk + n ≤ b.size = omega (arith, le, add32-eq chunk n (omega arith)) in
          let skipped = add_read_pos-size n b (omega arith) small in
          rw e (
            >>=-holds (Shrinks b) (receive chunk (add_read_pos n b).0 held) _ tt λ r got.
              let left =
                subst (Receives chunk (add_read_pos n b).0) got
                  (receive-Receives chunk (add_read_pos n b).0 held (omega arith) (omega arith)) in
              ends r (omega arith))
    ]
  where
    chunk : ℕ
    chunk = min missing d.chunk_size

    ends :
        (r : TBuffer × TBuffer)
        → (r.0).size < b.size
        → Shrinks b (
            if c.body_size == (r.1).size
            then (deliver id c (r.1) d >>= λ d'. some (continues d' (r.0)))
            else some (
                continues
                  (record d {
                    channels = set_channel id (record c { iobuf = some (r.1) }) d.channels;
                  })
                  (r.0)))
    ends r lt = elim (Bool-cases (c.body_size == (r.1).size)) [
      | inl e ↦ rw e (
          >>=-holds (Shrinks b) (deliver id c (r.1) d) _ tt
            λ d' got. (lt, subst Keeps got (deliver-Keeps id c (r.1) d s all)))
      | inr e ↦
          rw e (lt, set_channel-AllShort id (record c { iobuf = some (r.1) }) d.channels s all)
    ]

decode_chunk-Shrinks :
    (junk : ℕ → ℕ) (d : Decoder) (b : TBuffer)
    → AllShort d.channels
    → b.size < 2 ^ 64
    → Shrinks b (decode_chunk junk d b)
unfolding decode_chunk
decode_chunk-Shrinks junk d b all small = >>=-holds (Shrinks b) (peek8 0 b) _ tt λ t _.
    elim (Bool-cases (ltb b.size (first_len t))) [
      | inl e ↦ rw e tt
      | inr e ↦ rw e (
          >>=-holds (Shrinks b) (parse_header (head_len t) b (here t)) _ tt λ p got.
            body t p
              (subst ParsesShort got (parse_header-IsShort (head_len t) b (here t) (known t))))
    ]
  where
    here : ℕ → Channel
    here t = record (channel_at (t % 64) d.channels) { channel_id = t % 64 }

    known : (t : ℕ) → IsShort (here t)
    known t = channel_at-IsShort (t % 64) d.channels all

    body :
        (t : ℕ) (p : Channel × Bool)
        → IsShort (p.0)
        → Shrinks b (elim (message_buffer junk (p.1) (p.0)) [
          | none ↦
              some (returns 0 (record d { channels = set_channel (t % 64) (p.0) d.channels }) b)
          | some (c, held, missing) ↦ decode_body (t % 64) (head_len t) c held missing d b
        ])
    body t p s = elim (Option-cases (message_buffer junk (p.1) (p.0))) [
      | inl e ↦ rw e tt
      | inr ((c, held, missing), e) ↦
          let m = subst MissesAtMost e (message_buffer-IsShort junk (p.1) (p.0) s) in
          rw e (
            decode_body-Shrinks (t % 64) (head_len t) c held missing d b (head_len-bounds t).0
              (head_len-bounds t).1 (m.0) (m.1) all small)
    ]

decode_c2-Shrinks :
    (d : Decoder) (b : TBuffer)
    → AllShort d.channels
    → b.size < 2 ^ 64
    → Shrinks b (some (decode_c2 d b))
unfolding decode_c2
decode_c2-Shrinks d b all small = elim (ltb-cases b.size 1536) [
  | inl (e, _) ↦ rw e tt
  | inr (e, le) ↦ rw e (omega (arith, add_read_pos-size 1536 b le small), all)
]

-- The other state always returns.
decode_c0c1-Shrinks :
    (random : List ℕ) (d : Decoder) (b : TBuffer) → Shrinks b (decode_c0c1 random d b)
unfolding decode_c0c1
decode_c0c1-Shrinks random d b = elim (Bool-cases (ltb b.size 1537)) [
  | inl e ↦ rw e tt
  | inr e ↦ elim (Bool-cases (ltb 1537 b.size)) [
    | inl f ↦ rw (e, f) tt
    | inr f ↦ rw (e, f) (>>=-holds (Shrinks b) (read8 b) _ tt λ r _. greet r)
  ]
]
  where
    greet :
        (r : ℕ × TBuffer)
        → Shrinks b (
            if not (r.0 == 3)
            then some (returns 0 d (r.1))
            else (read 1536 (r.1) >>= λ q. q.0 >>= λ c2. some (
                returns 0
                  (record (send c2 (send (handshake random) (send (3 ∷ []) d))) {
                    state = handshake_c2;
                  })
                  (q.1))))
    greet r = elim (Bool-cases (r.0 == 3)) [
      | inl e ↦ rw e (
          >>=-holds (Shrinks b) (read 1536 (r.1)) _ tt
            λ q _. >>=-holds (Shrinks b) (q.0) _ tt λ c2 _. tt)
      | inr e ↦ rw e tt
    ]

round-Shrinks :
    (junk : ℕ → ℕ) (random : List ℕ) (d : Decoder) (b : TBuffer)
    → AllShort d.channels
    → b.size < 2 ^ 64
    → Shrinks b (decode_round junk random d b)
unfolding decode_round
round-Shrinks junk random d b all small = by_state d.state
  where
    by_state :
        (s : RtmpState)
        → Shrinks b (elim s [
          | handshake_c0c1 ↦ decode_c0c1 random d b
          | handshake_c2 ↦ some (decode_c2 d b)
          | handshake_done ↦ decode_chunk junk d b
        ])
    by_state handshake_c0c1 = decode_c0c1-Shrinks random d b
    by_state handshake_c2 = decode_c2-Shrinks d b all small
    by_state handshake_done = decode_chunk-Shrinks junk d b all small

-- `decode` ends within as many rounds as the ring holds bytes, and one more: with that fuel it
-- returns or faults, whatever the bytes are, if the lengths stored in the channels have 24 bits
-- and the ring's size 64.
pub decode-ends :
    (fuel : ℕ) (junk : ℕ → ℕ) (random : List ℕ) (d : Decoder) (b : TBuffer)
    → AllShort d.channels
    → b.size < 2 ^ 64
    → b.size < fuel
    → decode fuel junk random d b ≢ out_of_fuel
unfolding decode
decode-ends zero junk random d b all small enough = elim enough [ ]
decode-ends (suc fuel) junk random d b all small enough = elim (Bool-cases (b.size == 0)) [
  | inl e ↦ rw (e, decode) λ eq. cc
  | inr e ↦
      rw (e, decode)
        (go (λ d' b' all' lt. decode-ends fuel junk random d' b' all' (omega arith) (omega arith))
          (decode_round junk random d b) (round-Shrinks junk random d b all small))
]
  where
    go :
        ((d' : Decoder) (b' : TBuffer)
          → AllShort d'.channels
          → b'.size < b.size
          → decode fuel junk random d' b' ≢ out_of_fuel)
        → (r : Option Round) → Shrinks b r
        → elim r [
          | none ↦ fault
          | some (returns v d' b') ↦ done v d' b'
          | some (continues d' b') ↦ decode fuel junk random d' b'
        ]
          ≢ out_of_fuel
    go again none h = λ eq. cc
    go again (some (returns v d' b')) h = λ eq. cc
    go again (some (continues d' b')) h = again d' b' (h.1) (h.0)
