-- ===== src/Conn/Calls.antt =====
-- One answer of `readv` inside TcpConnection::HandleRead, and the answers of all calls.
use streamcode.Prelude.{
  ℕ, suc, ◌^◌, ◌≤◌, ◌<◌, ◌≡◌, inl, inr, refl, sym, subst, ap, ◌∙◌, Bool, true, false, Option, some,
  List, [], ◌++◌, arith, length, append_assoc, append-nil, length-append, add32, add32-eq, ◌==◌,
  ==-cases, ◌+◌,
}
use streamcode.TBuffer.{TBuffer, full}
use streamcode.Ring.{add_write_pos}
use streamcode.Ring.Valid.{IsValid, contents, length-contents, add_write_pos-IsValid}
use streamcode.Ring.Vectors.{Iovec, get_write_pos, Received, Received-Holds, get_write_pos-receives}
use streamcode.Conn.Read.{RecvResult, got, waits, gone, broken, Recv, stored, ReadOutcome, take_in}

-- What the system answers fits the two vectors and is some bytes.
abbrev pub Fills : Recv → Type 0
Fills recv =
    (n : ℕ) (b : TBuffer) (one two : Iovec) (more : List ℕ) (cell : ℕ → ℕ)
    → recv n b one two ≡ got more cell
    → Received b one two more cell × (0 < length more)

-- The last call that may be made finds no bytes.
abbrev pub Dries : Recv → Type 0
Dries recv =
    (b : TBuffer) (one two : Iovec) (more : List ℕ) (cell : ℕ → ℕ)
    → ¬ (recv 0 b one two ≡ got more cell)

-- What the system answers to one call, on the vectors of free space of a ring.
abbrev pub asked : Recv → Iovec → Iovec → ℕ → TBuffer → RecvResult
asked recv first second n b = let (ok, one, two) = get_write_pos first second b in recv n b one two

-- The calls of `readv` from the one after which `n` may follow, on rings that hold `held` and then also
-- what was read; the bytes that they give, in order; and whether the connection is gone. Another call
-- follows exactly if the bytes fill the free space.
pub data Calls (recv : Recv) (first second : Iovec) : ℕ → List ℕ → List ℕ → Bool → Type 0 where
  waited :
      {n : ℕ} {held : List ℕ} (b : TBuffer)
      → contents b ≡ held
      → asked recv first second n b ≡ waits
      → Calls recv first second n held [] false
  failed :
      {n : ℕ} {held : List ℕ} (b : TBuffer)
      → contents b ≡ held
      → asked recv first second n b ≡ broken
      → Calls recv first second n held [] false
  left :
      {n : ℕ} {held : List ℕ} (b : TBuffer)
      → contents b ≡ held
      → asked recv first second n b ≡ gone
      → Calls recv first second n held [] true
  last :
      {n : ℕ} {held more : List ℕ} (b : TBuffer) (cell : ℕ → ℕ)
      → contents b ≡ held
      → asked recv first second n b ≡ got more cell
      → b.size + length more < b.capacity
      → Calls recv first second n held more false
  again :
      {n : ℕ} {held more bytes : List ℕ} {is_gone : Bool} (b : TBuffer) (cell : ℕ → ℕ)
      → contents b ≡ held
      → asked recv first second (suc n) b ≡ got more cell
      → b.size + length more ≡ b.capacity
      → Calls recv first second n (held ++ more) bytes is_gone
      → Calls recv first second (suc n) held (more ++ bytes) is_gone

module _ (recv : Recv) (first second : Iovec) where
  -- The bytes of `r` are in the ring behind `before`, `total` counts them, and they are the `bytes` from
  -- before and what the calls gave.
  pub record HasRead (n : ℕ) (before bytes : List ℕ) (r : ReadOutcome) : Type 0 where
    pub valid : IsValid r.ring
    pub joined : contents r.ring ≡ before ++ r.bytes
    pub counted : r.total ≡ length r.bytes
    pub new : List ℕ
    pub grew : r.bytes ≡ bytes ++ new
    pub calls : Calls recv first second n (before ++ bytes) new r.is_gone

  -- The next round reads on, for every ring of the same capacity.
  abbrev pub Works : ℕ → List ℕ → ℕ → (List ℕ → ℕ → TBuffer → Option ReadOutcome) → Type 0
  Works n before capacity next =
      (bytes : List ℕ) (total : ℕ) (b : TBuffer)
      → IsValid b
      → b.capacity ≡ capacity
      → contents b ≡ before ++ bytes
      → total ≡ length bytes
      → (r : ReadOutcome) × (next bytes total b ≡ some r) × HasRead n before bytes r

add_write_pos-capacity : (n : ℕ) (b : TBuffer) → ((add_write_pos n b).0).capacity ≡ b.capacity
unfolding add_write_pos
add_write_pos-capacity n b = ground arith

take_in-full :
    (roomy : TBuffer) (more : List ℕ) (cell : ℕ → ℕ)
    (next : List ℕ → ℕ → TBuffer → Option ReadOutcome) (bytes : List ℕ) (total : ℕ)
    → full (stored (length more) cell roomy) ≡ true
    → take_in (got more cell) next bytes total roomy
      ≡ next (bytes ++ more) (add32 total (length more)) (stored (length more) cell roomy)
unfolding take_in
take_in-full roomy more cell next bytes total e = rw (e, take_in) refl

take_in-room :
    (roomy : TBuffer) (more : List ℕ) (cell : ℕ → ℕ)
    (next : List ℕ → ℕ → TBuffer → Option ReadOutcome) (bytes : List ℕ) (total : ℕ)
    → full (stored (length more) cell roomy) ≡ false
    → take_in (got more cell) next bytes total roomy
      ≡ some (record {
        ring = stored (length more) cell roomy;
        bytes = bytes ++ more;
        total = add32 total (length more);
        is_gone = false;
      })
unfolding take_in
take_in-room roomy more cell next bytes total e = rw (e, take_in) refl

-- An answer after which nothing is read.
no_more :
    {recv : Recv} {first second : Iovec} {roomy : TBuffer} (n : ℕ) (before bytes : List ℕ)
    (total : ℕ) (is_gone : Bool)
    → IsValid roomy
    → contents roomy ≡ before ++ bytes
    → total ≡ length bytes
    → Calls recv first second n (before ++ bytes) [] is_gone
    → HasRead recv first second n before bytes
        (record { ring = roomy; bytes = bytes; total = total; is_gone = is_gone })
no_more n before bytes total is_gone v stream count calls = record {
  valid = v;
  joined = stream;
  counted = count;
  new = [];
  grew = sym (append-nil bytes);
  calls = calls;
}

-- The rounds behind one that filled the ring.
goes_on :
    {recv : Recv} {first second : Iovec} {r : ReadOutcome} (roomy : TBuffer) (n : ℕ)
    (before bytes more : List ℕ) (cell : ℕ → ℕ)
    → contents roomy ≡ before ++ bytes
    → asked recv first second (suc n) roomy ≡ got more cell
    → roomy.size + length more ≡ roomy.capacity
    → HasRead recv first second n before (bytes ++ more) r
    → HasRead recv first second (suc n) before bytes r
goes_on {recv} {first} {second} {r} roomy n before bytes more cell stream e filled read = record {
  valid = read.valid;
  joined = read.joined;
  counted = read.counted;
  new = more ++ read.new;
  grew = read.grew ∙ append_assoc bytes more read.new;
  calls = again roomy cell stream e filled (
      subst (λ t. Calls recv first second n t read.new r.is_gone)
        (sym (append_assoc before bytes more)) read.calls);
}

not_filled :
    (b roomy : TBuffer) (n : ℕ)
    → (b.capacity == b.size) ≡ false
    → IsValid b
    → b.size ≡ roomy.size + n
    → b.capacity ≡ roomy.capacity
    → roomy.size + n < roomy.capacity
not_filled b roomy n e v size capacity = ground (arith, e, v.size_in, size, capacity)

pub take_in-reads :
    {recv : Recv} {first second : Iovec} {roomy : TBuffer} (n : ℕ) (answer : RecvResult)
    (next : List ℕ → ℕ → TBuffer → Option ReadOutcome) (before bytes : List ℕ) (total : ℕ)
    → IsValid roomy
    → roomy.size < roomy.capacity
    → roomy.capacity < 2 ^ 32
    → contents roomy ≡ before ++ bytes
    → total ≡ length bytes
    → asked recv first second n roomy ≡ answer
    → ((more : List ℕ) (cell : ℕ → ℕ)
        → answer ≡ got more cell
        → let (ok, one, two) = get_write_pos first second roomy in
          Received roomy one two more cell
          × (m : ℕ) × (n ≡ suc m)
          × Works recv first second m before roomy.capacity next)
    → (r : ReadOutcome) × (take_in answer next bytes total roomy ≡ some r)
      × HasRead recv first second n before bytes r
unfolding take_in full
take_in-reads {recv} {first} {second} {roomy} n (got more cell) next before bytes total v room small
      stream count asks case =
    let (received, m, one_more, works) = case more cell refl in
    let (holds, fits) = Received-Holds first second more cell v room received in
    let held : length bytes ≤ roomy.size =
      omega (arith, ap length stream, length-append before bytes, length-contents roomy) in
    let valid =
      (add_write_pos-IsValid {b = storing} (length more)
        (record {
          storage = v.storage;
          small = v.small;
          read_in = v.read_in;
          write_in = v.write_in;
          size_in = v.size_in;
          layout = v.layout;
        })
        fits).0 in
    let receives = get_write_pos-receives first second more cell v room received in
    let joined = receives ∙ ap (λ t. t ++ more) stream ∙ append_assoc before bytes more in
    let size : (add_write_pos (length more) storing).0.size ≡ roomy.size + length more = omega (
      arith,
      ap length receives,
      length-append (contents roomy) more,
      length-contents roomy,
      length-contents (add_write_pos (length more) storing).0,
    ) in
    let capacity = add_write_pos-capacity (length more) storing in
    let counted : add32 total (length more) ≡ length (bytes ++ more) =
      add32-eq total (length more) (omega (arith, held, count, fits))
      ∙ omega (arith, length-append bytes more, count) in
    elim (==-cases (add_write_pos (length more) storing).0.capacity
      (add_write_pos (length more) storing).0.size) [
        | inl (e, filled) ↦
            let (r, eq, read) =
              works (bytes ++ more) (add32 total (length more)) _ valid capacity joined counted in
            (
              r,
              take_in-full roomy more cell next bytes total e ∙ eq,
              subst (λ k. HasRead recv first second k before bytes r) (sym one_more)
                  (goes_on roomy m before bytes more cell stream
                    (subst (λ k. asked recv first second k roomy ≡ got more cell) one_more asks)
                    (omega (arith, filled, size, capacity)) read),
            )
        | inr e ↦ (
          record {
            ring = (add_write_pos (length more) storing).0;
            bytes = bytes ++ more;
            total = add32 total (length more);
            is_gone = false;
          },
          take_in-room roomy more cell next bytes total e,
          record {
            valid = valid;
            joined = joined;
            counted = counted;
            new = more;
            grew = refl;
            calls = last roomy cell stream asks (
                not_filled (add_write_pos (length more) storing).0 roomy (length more) e valid size
                  capacity);
          },
        )
      ]
  where
    storing : TBuffer
    storing = record roomy { buffer = record (roomy.buffer) { cell = cell } }
take_in-reads {roomy} n gone next before bytes total v room small stream count asks case = (
  record { ring = roomy; bytes = bytes; total = total; is_gone = true },
  refl,
  no_more n before bytes total true v stream count (left roomy stream asks),
)
take_in-reads {roomy} n waits next before bytes total v room small stream count asks case = (
  record { ring = roomy; bytes = bytes; total = total; is_gone = false },
  refl,
  no_more n before bytes total false v stream count (waited roomy stream asks),
)
take_in-reads {roomy} n broken next before bytes total v room small stream count asks case = (
  record { ring = roomy; bytes = bytes; total = total; is_gone = false },
  refl,
  no_more n before bytes total false v stream count (failed roomy stream asks),
)
