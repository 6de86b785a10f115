-- ===== src/Conn/Receive.antt =====
-- TcpConnection::HandleRead: the bytes that it reads join the contents of the input ring.
use streamcode.Prelude.{
  ℕ, zero, suc, ◌*◌, ◌^◌, ◌≤◌, ◌<◌, ◌≡◌, ◌⊎◌, inl, inr, refl, sym, subst, ap, ◌∙◌, Bool, true,
  false, not, ◌&&◌, some, List, [], ◌∷◌, ◌++◌, arith, length, append-nil, ◌==◌, Bool-cases,
  if◌then◌else◌, ◌>>=◌,
}
use streamcode.TBuffer.{TBuffer}
use streamcode.Ring.Valid.{IsValid, contents}
use streamcode.Ring.Vectors.{Iovec, get_write_pos}
use streamcode.Conn.{Conn, is_open, Notice, readable, notify, handle_close}
use streamcode.Conn.Read.{
  got, Recv, ReadOutcome, take_in, read_loop, after_read, handle_read, grown, grown-le, le-grown,
  make_room-ok,
}
use streamcode.Conn.Calls.{Fills, Dries, Calls, HasRead, Works, take_in-reads}

round-reads :
    {b : TBuffer} (n : ℕ) (junk : ℕ → ℕ) (recv : Recv) (first second : Iovec)
    (before bytes : List ℕ) (total : ℕ)
    → Fills recv
    → IsValid b
    → 2 * b.capacity < 2 ^ 32
    → contents b ≡ before ++ bytes
    → total ≡ length bytes
    → ((roomy : TBuffer) (one two : Iovec) (more : List ℕ) (cell : ℕ → ℕ)
        → roomy.capacity ≤ 2 * b.capacity
        → recv n roomy one two ≡ got more cell
        → (m : ℕ) × (n ≡ suc m)
          × Works recv first second m before roomy.capacity (read_loop n junk recv first second))
    → (r : ReadOutcome) × (read_loop (suc n) junk recv first second bytes total b ≡ some r)
      × HasRead recv first second n before bytes r
unfolding read_loop
round-reads {b} n junk recv first second before bytes total fills v small stream count next_round =
    let (roomy, eq, valid, same, room, capacity) =
      make_room-ok junk first second v (omega (arith, small)) in
    let (ok, one, two) = get_write_pos first second roomy in
    let (r, answer, read) =
      take_in-reads {recv = recv} {first = first} {second = second} n (recv n roomy one two)
        (read_loop n junk recv first second) before bytes total valid room
        (omega (arith, capacity, small)) (same ∙ stream) count refl
        (λ more cell e.
          let (m, one_more, works) = next_round roomy one two more cell capacity e in
          ((fills n roomy one two more cell e).0, m, one_more, works)) in
    (
      r,
      ap
            (λ o. o >>= λ roomy.
              take_in
                (recv n roomy (get_write_pos first second roomy).1
                  (get_write_pos first second roomy).2)
                (read_loop n junk recv first second) bytes total roomy)
            eq
          ∙ answer,
      read,
    )

read_loop-reads :
    {b : TBuffer} (n : ℕ) (junk : ℕ → ℕ) (recv : Recv) (first second : Iovec)
    (before bytes : List ℕ) (total : ℕ)
    → Fills recv
    → Dries recv
    → IsValid b
    → grown (suc n) b.capacity < 2 ^ 32
    → contents b ≡ before ++ bytes
    → total ≡ length bytes
    → (r : ReadOutcome) × (read_loop (suc n) junk recv first second bytes total b ≡ some r)
      × HasRead recv first second n before bytes r
unfolding grown
read_loop-reads zero junk recv first second before bytes total fills dries v small stream count =
    round-reads 0 junk recv first second before bytes total fills v small stream count
      (λ roomy one two more cell _ e. absurd (dries roomy one two more cell e))
read_loop-reads {b} (suc n) junk recv first second before bytes total fills dries v small stream
      count =
    round-reads (suc n) junk recv first second before bytes total fills v
      (omega (arith, small, le-grown (suc n) (2 * b.capacity))) stream count
      (λ roomy one two more cell capacity e. (
        n,
        refl,
        λ bytes' total' b' v' same stream' count'.
            read_loop-reads n junk recv first second before bytes' total' fills dries v'
              (omega (
                arith,
                grown-le (suc n) b'.capacity (2 * b.capacity) (omega (arith, capacity, same)),
                small,
              ))
              stream' count',
      ))

notify-input : (wanted : Bool) (n : Notice) (c : Conn) → (notify wanted n c).input ≡ c.input
unfolding notify
notify-input true n c = refl
notify-input false n c = refl

handle_close-input : (c : Conn) → (handle_close c).input ≡ c.input
unfolding handle_close
handle_close-input c = elim (Bool-cases (is_open c.state)) [
  | inl e ↦ rw e (notify-input c.has_close _ _ ∙ notify-input c.has_disconnect _ _)
  | inr e ↦ rw e refl
]

after_read-input : (r : ReadOutcome) (c : Conn) → (after_read r c).input ≡ r.ring
unfolding after_read
after_read-input r c = elim (Bool-cases r.is_gone) [
  | inl e ↦ rw e (handle_close-input _)
  | inr e ↦ rw e (notify-input _ _ _)
]

after_read-notices :
    (r : ReadOutcome) (c : Conn)
    → r.total ≡ length r.bytes
    → (r.is_gone ≡ true)
      ⊎ ((r.is_gone ≡ false)
          × ((after_read r c).notices
              ≡ c.notices
                ++ (if not (length r.bytes == 0) && c.has_read then readable ∷ [] else [])))
unfolding after_read notify
after_read-notices r c e = elim (Bool-cases r.is_gone) [
  | inl gone_away ↦ inl gone_away
  | inr stays ↦ inr (
    stays,
    rw (stays, e)
        (elim (Bool-cases (not (length r.bytes == 0) && c.has_read)) [
          | inl wanted ↦ rw wanted refl
          | inr unwanted ↦ rw unwanted (sym (append-nil c.notices))
        ]),
  )
]

-- If each call of readv fills the vectors with some bytes or fails, the last call that may be made
-- finds none, and the capacity doubled that often stays below 2^32, then HandleRead does not fault,
-- and the input ring is valid and holds what it held followed by the bytes that the calls gave, in
-- order. There is a first call, and another one exactly after one that filled the ring. Unless the
-- connection is gone, the reader is called exactly if some bytes were read and a callback is set.
pub handle_read-contents :
    (n : ℕ) (junk : ℕ → ℕ) (recv : Recv) (first second : Iovec) (c : Conn)
    → Fills recv
    → Dries recv
    → IsValid c.input
    → grown (suc n) c.input.capacity < 2 ^ 32
    → (r : ReadOutcome) × (handle_read (suc n) junk recv first second c ≡ some (after_read r c))
      × IsValid (after_read r c).input
      × (contents (after_read r c).input ≡ contents c.input ++ r.bytes)
      × Calls recv first second n (contents c.input) r.bytes r.is_gone
      × ((r.is_gone ≡ true)
          ⊎ ((r.is_gone ≡ false)
              × ((after_read r c).notices
                  ≡ c.notices
                    ++ (if not (length r.bytes == 0) && c.has_read then readable ∷ [] else []))))
unfolding handle_read
handle_read-contents n junk recv first second c fills dries v small =
    let (r, eq, read) =
      read_loop-reads n junk recv first second (contents c.input) [] 0 fills dries v small
        (sym (append-nil (contents c.input))) refl in
    let same = after_read-input r c in
    (
      r,
      ap (λ o. o >>= λ r. some (after_read r c)) eq,
      subst IsValid (sym same) read.valid,
      ap contents same ∙ read.joined,
      subst (λ t. Calls recv first second n t r.bytes r.is_gone) (append-nil (contents c.input))
          (subst (λ t. Calls recv first second n (contents c.input ++ []) t r.is_gone)
            (sym read.grew) read.calls),
      after_read-notices r c read.counted,
    )
