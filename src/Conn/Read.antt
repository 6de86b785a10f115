-- ===== src/Conn/Read.antt =====
-- TcpConnection::HandleRead of base/TcpConnection.cpp: what the socket has goes into the input ring,
-- which grows when it is full.
use streamcode.Prelude.{
  ℕ, zero, suc, ◌*◌, ◌%◌, ◌^◌, ◌≤◌, ◌<◌, ◌≡◌, inl, inr, refl, Bool, true, false, not, ◌&&◌, Option,
  none, some, List, [], ◌++◌, arith, length, add32, ◌==◌, if◌then◌else◌, ◌>>=◌,
}
use streamcode.TBuffer.{TBuffer, full}
use streamcode.Ring.{resize, add_write_pos}
use streamcode.Ring.Valid.{IsValid, contents}
use streamcode.Ring.Resize.{resize-ok}
use streamcode.Ring.Vectors.{Iovec, get_write_pos, get_write_pos-full}
use streamcode.Conn.{Conn, SendResult, handle_write, readable, notify, handle_close}

-- How `ReadV` ends: bytes, with what stands in the allocation afterwards, or an error; `gone` is
-- the answer for a closed or a reset connection.
pub data RecvResult : Type 0 where
  got : List ℕ → (ℕ → ℕ) → RecvResult
  waits gone broken : RecvResult

-- The system's `readv`, for the ring and the two vectors, and for the number of calls that may follow.
abbrev pub Recv : Type 0
Recv = ℕ → TBuffer → Iovec → Iovec → RecvResult

-- The loop that enlarges the ring as long as `GetWritePos` returns false.
unfoldable pub make_room : ℕ → (ℕ → ℕ) → Iovec → Iovec → TBuffer → Option TBuffer
make_room zero junk first second b = none
make_room (suc n) junk first second b =
    if (get_write_pos first second b).0
    then some b
    else (resize junk ((2 * b.capacity) % 2 ^ 64) b >>= λ r. make_room n junk first second (r.0))

-- The ring when `n` bytes stand behind its contents.
abbrev pub stored : ℕ → (ℕ → ℕ) → TBuffer → TBuffer
stored n cell b = (add_write_pos n (record b { buffer = record (b.buffer) { cell = cell } })).0

-- The ring, the bytes that were read, `recvLen`, and whether the connection is gone.
pub record ReadOutcome : Type 0 where
  pub ring : TBuffer
  pub bytes : List ℕ
  pub total : ℕ
  pub is_gone : Bool

-- What the loop does with one answer, where `again` is its next round.
unfoldable pub take_in :
    RecvResult
    → (List ℕ → ℕ → TBuffer → Option ReadOutcome)
    → List ℕ
    → ℕ
    → TBuffer
    → Option ReadOutcome
take_in (got more cell) again bytes total roomy =
    let filled = stored (length more) cell roomy in
    let count = add32 total (length more) in
    elim (full filled) [
      | true ↦ again (bytes ++ more) count filled
      | false ↦
          some (record { ring = filled; bytes = bytes ++ more; total = count; is_gone = false })
    ]
take_in gone again bytes total roomy =
    some (record { ring = roomy; bytes = bytes; total = total; is_gone = true })
take_in _ again bytes total roomy =
    some (record { ring = roomy; bytes = bytes; total = total; is_gone = false })

-- The loop of `HandleRead`, with at most `rounds` calls of `ReadV`.
unfoldable pub read_loop :
    ℕ → (ℕ → ℕ) → Recv → Iovec → Iovec → List ℕ → ℕ → TBuffer → Option ReadOutcome
read_loop zero junk recv first second bytes total b = none
read_loop (suc n) junk recv first second bytes total b =
    make_room 2 junk first second b >>= λ roomy.
    let (ok, one, two) = get_write_pos first second roomy in
    take_in (recv n roomy one two) (read_loop n junk recv first second) bytes total roomy

unfoldable pub after_read : ReadOutcome → Conn → Conn
after_read r c =
    let filled = record c { input = r.ring } in
    if r.is_gone
    then handle_close filled
    else notify (not (r.total == 0) && c.has_read) readable filled

unfoldable pub handle_read : ℕ → (ℕ → ℕ) → Recv → Iovec → Iovec → Conn → Option Conn
handle_read rounds junk recv first second c =
    read_loop rounds junk recv first second [] 0 c.input >>= λ r. some (after_read r c)

-- `HandleEvent`, for an event that has the bit of reading, of writing, or both.
unfoldable pub handle_event :
    Bool → Bool → ℕ → (ℕ → ℕ) → Recv → (ℕ → SendResult) → Iovec → Iovec → Conn → Option Conn
handle_event to_read to_write rounds junk recv answers first second c =
    (if to_read then handle_read rounds junk recv first second c else some c) >>= λ mid.
    if to_write then handle_write first second answers mid else some mid

-- The capacity that `n` doublings can reach.
unfoldable pub grown : ℕ → ℕ → ℕ
grown zero capacity = capacity
grown (suc n) capacity = grown n (2 * capacity)

pub grown-le : (n a b : ℕ) → a ≤ b → grown n a ≤ grown n b
unfolding grown
grown-le zero a b h = h
grown-le (suc n) a b h = grown-le n (2 * a) (2 * b) (omega arith)

pub le-grown : (n a : ℕ) → a ≤ grown n a
unfolding grown
le-grown zero a = omega arith
le-grown (suc n) a = omega (arith, le-grown n (2 * a))

doubled : (a : ℕ) → 2 * a < 2 ^ 62 → (2 * a) % 2 ^ 64 ≡ 2 * a
doubled a h = omega arith

make_room-grows :
    (b : TBuffer) {after : TBuffer} (junk : ℕ → ℕ) (first second : Iovec)
    → 2 * b.capacity < 2 ^ 62
    → (get_write_pos first second b).0 ≡ false
    → resize junk (2 * b.capacity) b ≡ some (after, true)
    → (get_write_pos first second after).0 ≡ true
    → make_room 2 junk first second b ≡ some after
unfolding make_room
make_room-grows b junk first second small cannot eq can =
    rw (cannot, doubled b.capacity small, eq) (rw can refl)

pub make_room-ok :
    {b : TBuffer} (junk : ℕ → ℕ) (first second : Iovec)
    → IsValid b
    → 2 * b.capacity < 2 ^ 62
    → (roomy : TBuffer) × (make_room 2 junk first second b ≡ some roomy)
      × IsValid roomy
      × (contents roomy ≡ contents b)
      × (roomy.size < roomy.capacity)
      × (roomy.capacity ≤ 2 * b.capacity)
unfolding make_room
make_room-ok {b} junk first second v small = elim (get_write_pos-full b first second) [
  | inr (room, ok) ↦ (b, rw ok refl, v, refl, omega (arith, v.size_in), omega arith)
  | inl (is_full, ok) ↦
      let (after, eq, valid, same, capacity, size) =
        resize-ok junk (2 * b.capacity) v (omega (arith, v.read_in)) small in
      elim (get_write_pos-full after first second) [
        | inl (full_again, _) ↦
            absurd (omega (arith, full_again, capacity, size, is_full, v.read_in))
        | inr (room, ok') ↦ (
          after,
          make_room-grows b junk first second small ok eq ok',
          valid,
          same,
          omega (arith, valid.size_in, room),
          omega arith,
        )
      ]
]
