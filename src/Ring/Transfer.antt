-- ===== src/Ring/Transfer.antt =====
-- RingBuffer::Read(TBuffer&, size_t): bytes move from one ring to another.
use streamcode.Prelude.{
  ℕ, ◌+◌, ◌-◌, ◌*◌, ◌^◌, ◌≤◌, ◌<◌, ◌≡◌, inl, inr, ap, sym, ◌∙◌, Bool, true, false, Option, some,
  List, ◌++◌, append_assoc, arith, ltb, leb, leb-cases, le→ltb, if◌then◌else◌, length, take, ◌>>=◌,
  sub64, add64, add64-eq, sub64-eq,
}
use streamcode.Memory.{load, slice}
use streamcode.Memory.Laws.{load-eq, length-slice}
use streamcode.TBuffer.{TBuffer}
use streamcode.Ring.{skip, write}
use streamcode.Ring.Valid.{IsValid, wrap, contents}
use streamcode.Ring.Write.{write-contents}
use streamcode.Ring.Peek.{skip-Drops, Drops, slice-flat, slice-round, part-contents}

-- The calls of `Write` on the destination.
unfoldable pub transfer : (ℕ → ℕ) → ℕ → TBuffer → TBuffer → Option TBuffer
transfer junk n b dest =
    if ltb b.read_pos b.write_pos
    then one
    else if leb n (sub64 b.capacity b.read_pos)
    then one
    else (load b.buffer b.read_pos (sub64 b.capacity b.read_pos) >>= λ front.
        write junk front dest >>= λ mid.
        load b.buffer 0 (sub64 (add64 n b.read_pos) b.capacity) >>= λ back. write junk back mid)
  where
    one : Option TBuffer
    one = load b.buffer b.read_pos n >>= λ bytes. write junk bytes dest

-- The results are what is returned, this ring and the destination.
unfoldable pub read_into : (ℕ → ℕ) → ℕ → TBuffer → TBuffer → Option (Bool × TBuffer × TBuffer)
unfolding transfer
read_into junk n b dest =
    if ltb b.size n
    then some (false, b, dest)
    else (transfer junk n b dest >>= λ filled. skip n b >>= λ after. some (true, after, filled))

-- The first bytes of the contents, as the cells that hold them.
front-contents :
    (b : TBuffer) (n : ℕ)
    → n ≤ b.size
    → take n (contents b) ≡ slice (λ i. b.buffer.cell (wrap b.capacity i)) b.read_pos n
front-contents b n h =
    part-contents b n 0 (omega arith)
    ∙ ap (λ p. slice (λ i. b.buffer.cell (wrap b.capacity i)) p n) (omega arith)

-- The destination gains exactly the bytes that are read.
abbrev pub Gains : TBuffer → List ℕ → TBuffer → Type 0
Gains dest bytes filled = IsValid filled × (contents filled ≡ contents dest ++ bytes)

transfer-one :
    {b dest : TBuffer} (junk : ℕ → ℕ) (n : ℕ)
    → IsValid b
    → IsValid dest
    → n ≤ b.size
    → b.read_pos + n ≤ b.capacity
    → 5 * (n + dest.capacity) < 2 ^ 62
    → (filled : TBuffer) × ((load b.buffer b.read_pos n >>= λ bytes. write junk bytes dest)
        ≡ some filled)
      × Gains dest (take n (contents b)) filled
transfer-one {b} {dest} junk n v w h flat bound =
    let (filled, eq, appends) =
      write-contents junk (slice b.buffer.cell b.read_pos n) w (omega (arith, size)) in
    (
      filled,
      rw (load-eq b.buffer b.read_pos n (omega (arith, v.storage)), eq),
      (appends.0, appends.1 ∙ ap (λ t. contents dest ++ t) bytes),
    )
  where
    size : length (slice b.buffer.cell b.read_pos n) ≡ n
    size = length-slice b.buffer.cell b.read_pos n

    bytes : slice b.buffer.cell b.read_pos n ≡ take n (contents b)
    bytes = slice-flat b.buffer.cell b.capacity b.read_pos n flat ∙ sym (front-contents b n h)

transfer-two :
    {b dest : TBuffer} (junk : ℕ → ℕ) (n : ℕ)
    → IsValid b
    → IsValid dest
    → n ≤ b.size
    → b.capacity < b.read_pos + n
    → 5 * (n + dest.capacity) < 2 ^ 62
    → (filled : TBuffer) × (transfer junk n b dest ≡ some filled)
      × Gains dest (take n (contents b)) filled
unfolding transfer
transfer-two {b} {dest} junk n v w h round bound =
    let (mid, first, one) = write-contents junk front w (omega (arith, front_size)) in
    let (filled, second, two) =
      write-contents junk back one.0 (omega (arith, front_size, back_size, one.3, w.size_in)) in
    (
      filled,
      ground (
        arith,
        sub64-eq b.capacity b.read_pos,
        add64-eq n b.read_pos,
        sub64-eq (n + b.read_pos) b.capacity,
        load-eq b.buffer b.read_pos (b.capacity - b.read_pos),
        load-eq b.buffer 0 (n + b.read_pos - b.capacity),
        first,
        second,
      ),
      (
        two.0,
        two.1
            ∙ ap (λ c. c ++ back) one.1
            ∙ append_assoc (contents dest) front back
            ∙ ap (λ t. contents dest ++ t) bytes,
      ),
    )
  where
    front : List ℕ
    front = slice b.buffer.cell b.read_pos (b.capacity - b.read_pos)

    back : List ℕ
    back = slice b.buffer.cell 0 (n + b.read_pos - b.capacity)

    front_size : length front ≡ b.capacity - b.read_pos
    front_size = length-slice b.buffer.cell b.read_pos (b.capacity - b.read_pos)

    back_size : length back ≡ n + b.read_pos - b.capacity
    back_size = length-slice b.buffer.cell 0 (n + b.read_pos - b.capacity)

    bytes : front ++ back ≡ take n (contents b)
    bytes =
        let e : n + b.read_pos - b.capacity ≡ b.read_pos + n - b.capacity = omega arith in
        rw e (
          slice-round b.buffer.cell b.capacity b.read_pos n (omega (arith, v.read_in)) (omega arith)
            (omega (arith, v.read_in, v.size_in)))
        ∙ sym (front-contents b n h)

transfer-Gains :
    {b dest : TBuffer} (junk : ℕ → ℕ) (n : ℕ)
    → IsValid b
    → IsValid dest
    → n ≤ b.size
    → 5 * (n + dest.capacity) < 2 ^ 62
    → (filled : TBuffer) × (transfer junk n b dest ≡ some filled)
      × Gains dest (take n (contents b)) filled
transfer-Gains {b} {dest} junk n v w h bound = elim (leb-cases (b.read_pos + n) b.capacity) [
  | inl (_, flat) ↦
      let (filled, done, gains) = transfer-one junk n v w h flat bound in
      (filled, unfold transfer in ground (arith, done, sub64-eq b.capacity b.read_pos), gains)
  | inr (_, round) ↦ transfer-two junk n v w h round bound
]

-- `Read` into another ring, of bytes that this ring holds, moves exactly those bytes from the front
-- of this ring to the end of the other, and both stay valid. The bound keeps the capacity that the
-- other may grow to below 2 ^ 62.
pub read_into-moves :
    {b dest : TBuffer} (junk : ℕ → ℕ) (n : ℕ)
    → IsValid b
    → IsValid dest
    → n ≤ b.size
    → 5 * (n + dest.capacity) < 2 ^ 62
    → (after filled : TBuffer) × (read_into junk n b dest ≡ some (true, after, filled))
      × Drops n b after
      × Gains dest (take n (contents b)) filled
unfolding read_into
read_into-moves {b} {dest} junk n v w h bound =
    let (filled, done, gains) = transfer-Gains junk n v w h bound in
    let (after, eq, drops) = skip-Drops n v h in
    (after, filled, rw (le→ltb b.size n h, done, eq), drops, gains)
