-- ===== src/Rtmp/Short.antt =====
-- The lengths of RtmpDecoder::decode: of a message, of what is missing of it, and of a header.
use streamcode.Prelude.{
  ℕ, ◌^◌, ◌<◌, inl, inr, Bool, Option, none, some, List, [], ◌∷◌, arith, ltb, ◌==◌, >>=-holds,
  sub32-eq, ltb-cases, Bool-cases, Option-cases,
}
use streamcode.TBuffer.{TBuffer}
use streamcode.Bytes.{flip24}
use streamcode.Ring.{peek8, peek24, peek32}
use streamcode.Rtmp.{Channel, new_channel, channel_at, set_channel}
use streamcode.Rtmp.Decode.{first_len, head_len, parse_header, message_buffer}

-- The length of a message has 24 bits.
abbrev pub IsShort : Channel → Type 0
IsShort c = c.body_size < 2 ^ 24

abbrev pub AllShort : List (ℕ × Channel) → Type 0
AllShort [] = Unit
AllShort ((id, c) ∷ rest) = IsShort c × AllShort rest

pub channel_at-IsShort :
    (id : ℕ) (cs : List (ℕ × Channel)) → AllShort cs → IsShort (channel_at id cs)
unfolding channel_at
channel_at-IsShort id [] h = unfold new_channel in omega arith
channel_at-IsShort id ((j, c) ∷ rest) h = ground (arith, channel_at-IsShort id rest)

pub set_channel-AllShort :
    (id : ℕ) (c : Channel) (cs : List (ℕ × Channel))
    → IsShort c
    → AllShort cs
    → AllShort (set_channel id c cs)
unfolding set_channel
set_channel-AllShort id c [] s h = (s, tt)
set_channel-AllShort id c ((j, old) ∷ rest) s h = elim (Bool-cases (j == id)) [
  | inl e ↦ rw e (s, h.1)
  | inr e ↦ rw e (h.0, set_channel-AllShort id c rest s h.1)
]

-- What parse_header leaves is short.
abbrev pub ParsesShort : Option (Channel × Bool) → Type 0
ParsesShort none = Unit
ParsesShort (some (c, relative)) = IsShort c

flip24-lt : (v : ℕ) → flip24 v < 2 ^ 24
unfolding flip24
flip24-lt v = omega arith

pub parse_header-IsShort :
    (n : ℕ) (b : TBuffer) (c : Channel) → IsShort c → ParsesShort (parse_header n b c)
unfolding parse_header
parse_header-IsShort n b c s = elim (Bool-cases (ltb n 4)) [
  | inl e ↦ rw e s
  | inr e ↦ rw e (
      >>=-holds ParsesShort (peek24 1 b) _ tt λ t _. elim (Bool-cases (ltb n 8)) [
        | inl f ↦ rw f s
        | inr f ↦ rw f (
            >>=-holds ParsesShort (peek24 4 b) _ tt λ size _.
              >>=-holds ParsesShort (peek8 7 b) _ tt λ type _. elim (Bool-cases (ltb n 12)) [
                | inl g ↦ rw g (flip24-lt size)
                | inr g ↦ rw g (>>=-holds ParsesShort (peek32 8 b) _ tt λ id _. flip24-lt size)
              ])
      ])
]

-- What is missing of a message is at most its length.
abbrev pub MissesAtMost : Option (Channel × TBuffer × ℕ) → Type 0
MissesAtMost none = Unit
MissesAtMost (some (c, held, missing)) = IsShort c × (missing < 2 ^ 24)

pub message_buffer-IsShort :
    (junk : ℕ → ℕ) (relative : Bool) (c : Channel)
    → IsShort c
    → MissesAtMost (message_buffer junk relative c)
unfolding message_buffer
message_buffer-IsShort junk relative c s = elim (Option-cases c.iobuf) [
  | inl e ↦ rw (e, message_buffer) (s, s)
  | inr (held, e) ↦ elim (ltb-cases c.body_size held.size) [
    | inl (f, _) ↦ rw (e, message_buffer) (rw f tt)
    | inr (f, le) ↦
        rw (e, message_buffer)
          (rw (f, sub32-eq c.body_size held.size le (omega arith)) (s, omega arith))
  ]
]

first_len-pos : (t : ℕ) → 0 < first_len t
unfolding first_len
first_len-pos t = ground arith

pub head_len-bounds : (t : ℕ) → (0 < head_len t) × (head_len t < 20)
unfolding head_len first_len
head_len-bounds t = ground arith
