-- ===== src/Rtmp/Answers.antt =====
-- The answers of stream/RtmpDecoder.cpp: none of them faults, and each is one call of `Send`.
use streamcode.Prelude.{
  ℕ, zero, suc, ◌+◌, ◌*◌, ◌^◌, ◌≤◌, ◌<◌, ◌≡◌, ap, ◌∙◌, min, ◌==◌, inl, inr, Bool-cases, Option,
  some, List, [], ◌∷◌, ◌++◌, arith, length, take, drop, length-append, length-take, length-drop,
  ◌>>=◌,
}
use streamcode.Memory.Laws.{length-slice}
use streamcode.Buffer.{Buffer, contents, init}
use streamcode.Buffer.Append.{IsValid, init-IsValid}
use streamcode.Bytes.{flip64, stored16, stored64}
use streamcode.Amf.{number}
use streamcode.Amf.Writer.{new_writer, write_string, write_number, write_value}
use streamcode.Amf.Encoding.{Emits, encode, encode_string, Emits-string, write_value-Emits}
use streamcode.Rtmp.{Decoder, send}
use streamcode.Rtmp.Send.{Message, header, continuation}
use streamcode.Rtmp.Messages.{send_data}
use streamcode.Rtmp.Peer.{chunked}
use streamcode.Rtmp.Chunks.{send_message-sends}

length-chunked :
    (fuel limit : ℕ) (head next_head text : List ℕ)
    → 0 < limit
    → length head ≤ 12
    → length next_head ≤ 12
    → length (chunked fuel limit head next_head text) ≤ 13 * length text
unfolding chunked
length-chunked zero limit head next_head [] pos h k = omega arith
length-chunked (suc fuel) limit head next_head [] pos h k = omega arith
length-chunked zero limit head next_head (x ∷ rest) pos h k = omega arith
length-chunked (suc fuel) limit head next_head (x ∷ rest) pos h k =
    let n = min limit (length (x ∷ rest)) in
    let front : List ℕ = take n (x ∷ rest) in
    let later : List ℕ = chunked fuel limit next_head next_head (drop n (x ∷ rest)) in
    omega (
      arith,
      length-append head (front ++ later),
      length-append front later,
      length-take n (x ∷ rest),
      length-drop n (x ∷ rest),
      length-chunked fuel limit next_head next_head (drop n (x ∷ rest)) pos k k,
    )

-- The connection is given one run of bytes.
abbrev pub Sent : Option Decoder → Decoder → Type 0
Sent o d = (bytes : List ℕ) × (o ≡ some (send bytes d))

length-header : (m : Message) → length (header m) ≤ 12
unfolding header
length-header m = omega arith

length-encode_string : (s : List ℕ) → length (encode_string s) ≤ length s + 3
unfolding encode_string stored16
length-encode_string s = elim (Bool-cases (length s == 0)) [
  | inl e ↦ rw e (omega arith)
  | inr e ↦ rw e (omega arith)
]

module _ (junk : ℕ → ℕ) where
  pub send_data-Sent :
      (type chunk_id stream_id : ℕ) (body : List ℕ) (d : Decoder)
      → 0 < d.local_chunk_size
      → length body < 2 ^ 20
      → Sent (send_data junk type chunk_id stream_id body d) d
  unfolding send_data continuation
  send_data-Sent type chunk_id stream_id body d pos small =
      let m : Message = record {
        type = type;
        chunk_id = chunk_id;
        stream_id = stream_id;
        time = 0;
        body = body;
      } in
      (
        chunked (length body) d.local_chunk_size (header m) (continuation m) body,
        send_message-sends junk m d pos (
            omega (
              arith,
              length-chunked (length body) d.local_chunk_size (header m) (continuation m) body pos
                  (length-header m) (omega arith),
            )),
      )

  -- A buffer that a message is written to, with at most `n` bytes.
  abbrev pub Ready : ℕ → Buffer → Type 0
  Ready n b = IsValid b × (b.size ≤ n)

  -- One step of a message, and the rest of it.
  pub step :
      (f : Buffer → Option Buffer) (k : Buffer → Option Decoder) (bytes : List ℕ) (n : ℕ)
      (b : Buffer) (d : Decoder)
      → Emits f bytes
      → length bytes + n < 2 ^ 20
      → Ready n b
      → ((c : Buffer) → Ready (length bytes + n) c → Sent (k c) d)
      → Sent (f b >>= k) d
  unfolding Emits
  step f k bytes n b d emits small (v, held) go_on =
      let (after, eq, valid, _, size) = emits b v (omega (arith, held, small)) in
      let (text, sent) = go_on after (valid, omega (arith, size, held)) in
      (text, ap (λ o. o >>= k) eq ∙ sent)

  pub finish :
      (type chunk_id stream_id n : ℕ) (b : Buffer) (d : Decoder)
      → 0 < d.local_chunk_size
      → n < 2 ^ 20
      → Ready n b
      → Sent (send_data junk type chunk_id stream_id (contents b) d) d
  finish type chunk_id stream_id n b d pos small (v, held) =
      send_data-Sent type chunk_id stream_id (contents b) d pos (omega (arith, size, held, small))
    where
      size : length (contents b) ≡ b.size
      size = unfold contents in length-slice _ b.current b.size

  pub fresh : Ready 0 (new_writer junk)
  unfolding new_writer init
  fresh = (unfold init in init-IsValid junk 400 (omega arith), omega arith)

  pub Emits-number : (n : ℕ) → Emits (write_number junk n) (0 ∷ stored64 (flip64 n))
  unfolding write_value encode
  Emits-number n = write_value-Emits junk (number n)

  -- A command: its name, a number, and what `k` goes on with.
  pub command :
      (name : List ℕ) (id : ℕ) (k : Buffer → Option Decoder) (d : Decoder)
      → length name ≤ 100
      → ((c : Buffer) → Ready 112 c → Sent (k c) d)
      → Sent (write_string junk name (new_writer junk) >>= λ w. write_number junk id w >>= k) d
  command name id k d short go_on =
      step (write_string junk name) (λ w. write_number junk id w >>= k) (encode_string name) 0
        (new_writer junk) d (Emits-string junk name) (omega (arith, size)) fresh
        (λ b ready.
          step (write_number junk id) k (0 ∷ stored64 (flip64 id)) (length (encode_string name) + 0)
            b d (Emits-number id) (unfold stored64 in omega (arith, size)) ready
            (λ c (v, held). go_on c (v, unfold stored64 in omega (arith, held, size))))
    where
      size : length (encode_string name) ≤ length name + 3
      size = length-encode_string name
