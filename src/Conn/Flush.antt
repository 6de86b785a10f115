-- ===== src/Conn/Flush.antt =====
-- The loop calls TcpConnection::HandleWrite as long as it watches the socket for writing.
use streamcode.Prelude.{
  ℕ, zero, suc, ◌-◌, ◌^◌, ◌≤◌, ◌<◌, ◌≡◌, ◌⊎◌, inl, inr, refl, sym, subst, ap, ◌∙◌, false, Option,
  some, List, ◌++◌, arith, take, append-nil, ltb, sub64-eq, Bool-cases, if◌then◌else◌, ◌>>=◌,
}
use streamcode.TBuffer.{TBuffer, empty}
use streamcode.Ring.{add_read_pos}
use streamcode.Ring.Valid.{IsValid, contents, advance-eq}
use streamcode.Ring.Vectors.{Iovec}
use streamcode.Conn.{
  Conn, reads, reads_and_writes, socket_ok, accepts, Written, after_write, handle_write,
}
use streamcode.Conn.Write.{handle_write-accepts}
use streamcode.Conn.Send.{IsSending, contents-nil}
use streamcode.Conn.Reach.{took-IsGood}

unfoldable pub at_most : ℕ → ℕ → ℕ
at_most k n = if ltb k n then k else n

-- At most `rounds` write events; in round `i` the system takes `suc (chunk i)` bytes, or all that it is offered.
unfoldable pub serve : ℕ → (ℕ → ℕ) → Iovec → Iovec → Conn → Option Conn
serve zero chunk first second c = some c
serve (suc rounds) chunk first second c = elim c.watch [
  | reads_and_writes ↦
      handle_write first second (λ i. accepts (at_most (suc (chunk rounds)) c.output.size)) c
      >>= serve rounds chunk first second
  | _ ↦ some c
]

abbrev Flat : TBuffer → Type 0
Flat b = (b.size ≡ 0) ⊎ (b.read_pos < b.write_pos)

add_read_pos-Flat :
    {b : TBuffer} (n : ℕ)
    → IsValid b
    → b.read_pos < b.write_pos
    → n ≤ b.size
    → ((add_read_pos n b).0.size ≡ b.size - n) × Flat (add_read_pos n b).0
unfolding add_read_pos
add_read_pos-Flat {b} n v flat le = ground (
  arith,
  v.layout,
  v.read_in,
  v.write_in,
  v.small,
  advance-eq b.capacity b.read_pos b.write_pos n,
  sub64-eq b.size n,
)

after_write-output :
    (c : Conn) (k : ℕ) (bytes : List ℕ)
    → (after_write (record { code = socket_ok; sent = k; taken = bytes }) c).output
      ≡ (add_read_pos k c.output).0
unfolding after_write
after_write-output c k bytes = elim (Bool-cases (empty (add_read_pos k c.output).0)) [
  | inl t ↦ rw t refl
  | inr t ↦ rw t refl
]

-- One event with `k` bytes taken.
round-IsSending :
    (c : Conn) (first second : Iovec) (limit k : ℕ) (given : List ℕ)
    → IsSending limit given c
    → c.output.read_pos < c.output.write_pos
    → c.output.size < 2 ^ 32
    → k ≤ c.output.size
    → (after : Conn) × (handle_write first second (λ i. accepts k) c ≡ some after)
      × IsSending limit given after
      × (after.output.size ≡ c.output.size - k)
      × Flat after.output
round-IsSending c first second limit k given g flat small le =
    let (size, kept) = add_read_pos-Flat k g.output_valid flat le in
    let same = after_write-output c k (take k (contents c.output)) in
    (
      after_write w c,
      handle_write-accepts c first second k g.output_valid flat small le,
      took-IsGood c w limit given g
          (omega (arith, g.output_valid.layout, g.output_valid.read_in, g.output_valid.write_in))
          (record { front = refl; enough = le; clean = inl refl }) refl,
      ap TBuffer.size same ∙ size,
      subst Flat (sym same) kept,
    )
  where
    w : Written
    w = record { code = socket_ok; sent = k; taken = take k (contents c.output) }

at_most-bounds : (k n : ℕ) → 0 < n → (0 < at_most (suc k) n) × (at_most (suc k) n ≤ n)
unfolding at_most
at_most-bounds k n some_left = ground arith

watches :
    (c : Conn) {limit : ℕ} {given : List ℕ}
    → IsSending limit given c
    → 0 < c.output.size
    → c.watch ≡ reads_and_writes
watches c g held = elim g.waits [
  | inl (_, watch, _) ↦ watch
  | inr (_, _, none_held) ↦ absurd (omega arith)
]

serve-watched :
    (rounds : ℕ) (chunk : ℕ → ℕ) (first second : Iovec) (c : Conn)
    → c.watch ≡ reads_and_writes
    → serve (suc rounds) chunk first second c ≡ (
        handle_write first second (λ i. accepts (at_most (suc (chunk rounds)) c.output.size)) c
        >>= serve rounds chunk first second)
unfolding serve
serve-watched rounds chunk first second c e = rw e refl

settled :
    {limit : ℕ} {given : List ℕ} {c : Conn}
    → IsSending limit given c
    → c.output.size ≡ 0
    → (c.wire ≡ given) × (c.waiting_write ≡ false) × (c.watch ≡ reads)
settled {c = c} g none_left = elim g.waits [
  | inl (_, _, held) ↦ absurd (omega (arith, held))
  | inr (waiting, watch, _) ↦ (
    sym (append-nil c.wire) ∙ ap (◌++◌ c.wire) (sym (contents-nil c.output none_left)) ∙ g.stream,
    waiting,
    watch,
  )
]

-- On an open connection whose waiting bytes do not go round the end of the ring and are fewer than
-- 2^32, as many write events as bytes wait, each of which takes a byte or more, send all that the
-- connection was given; then nothing waits and the socket is watched for reading only.
pub serve-flushes :
    (rounds : ℕ) (chunk : ℕ → ℕ) (first second : Iovec) (c : Conn) (limit : ℕ) (given : List ℕ)
    → IsSending limit given c
    → Flat c.output
    → c.output.size ≤ rounds
    → c.output.size < 2 ^ 32
    → (after : Conn) × (serve rounds chunk first second c ≡ some after)
      × (after.wire ≡ given)
      × (after.output.size ≡ 0)
      × (after.waiting_write ≡ false)
      × (after.watch ≡ reads)
unfolding serve
serve-flushes zero chunk first second c limit given g flat le small =
    let (wire, waiting, watch) = settled g (omega (arith, le)) in
    (c, refl, wire, omega (arith, le), waiting, watch)
serve-flushes (suc rounds) chunk first second c limit given g (inl none_left) le small =
    let (wire, waiting, watch) = settled g none_left in
    (c, rw watch refl, wire, none_left, waiting, watch)
serve-flushes (suc rounds) chunk first second c limit given g (inr flat) le small =
    let v = g.output_valid in
    let held : 0 < c.output.size = omega (arith, v.layout, v.read_in, v.write_in) in
    let k = at_most (suc (chunk rounds)) c.output.size in
    let (some_taken, taken_le) = at_most-bounds (chunk rounds) c.output.size held in
    let (mid, eq, good, left, kept) =
      round-IsSending c first second limit k given g flat small taken_le in
    let (after, rest, wire, none_left, waiting, watch) =
      serve-flushes rounds chunk first second mid limit given good kept
        (omega (arith, left, some_taken, taken_le, le)) (omega (arith, left, small)) in
    (
      after,
      serve-watched rounds chunk first second c (watches c g held)
          ∙ (ap (λ o. o >>= serve rounds chunk first second) eq ∙ rest),
      wire,
      none_left,
      waiting,
      watch,
    )
