-- ===== src/Conn/Write.antt =====
-- TcpConnection::HandleWrite: what the system takes from the output ring leaves it.
use streamcode.Prelude.{
  ℕ, suc, ◌+◌, ◌-◌, ◌^◌, ◌≤◌, ◌<◌, ◌≡◌, ◌⊎◌, inl, inr, refl, ap, ◌∙◌, none, some, List, [], ◌∷◌,
  ◌++◌, arith, take, add32, add32-eq, sub64-eq, sub64, eq_false, lt→ltb, le→ltb, ◌>>=◌,
}
use streamcode.Memory.{slice}
use streamcode.Memory.Laws.{load-eq}
use streamcode.TBuffer.{TBuffer}
use streamcode.Ring.Valid.{IsValid, contents}
use streamcode.Ring.Peek.{slice-flat}
use streamcode.Ring.Vectors.{Iovec, get_read_pos}
use streamcode.Conn.{
  Conn, SocketError, socket_ok, socket_pending, socket_connect_rest, socket_failed, SendResult,
  accepts, would_block, reset, refused, Written, write_v, after_write, handle_write,
}

-- What holds of a call of `WriteV` that the system answers in order: the bytes taken are the first of
-- the contents, their number is reported, and if an error is reported then none was taken.
pub record InOrder (b : TBuffer) (w : Written) : Type 0 where
  pub front : w.taken ≡ take w.sent (contents b)
  pub enough : w.sent ≤ b.size
  pub clean : (w.code ≡ socket_ok) ⊎ (w.taken ≡ [])

-- The contents do not go round the end: one vector, and any answer.
abbrev pub Fits : SendResult → ℕ → Type 0
Fits (accepts n) size = n ≤ size
Fits _ size = Unit

-- The vectors of `GetReadPos` when the contents do not go round the end.
abbrev flat_vectors : TBuffer → List Iovec
flat_vectors b =
    record { base = some b.read_pos; len = b.size } ∷ record { base = none; len = 0 } ∷ []

-- The vectors when they do, or end just there.
abbrev round_vectors : TBuffer → List Iovec
round_vectors b =
    record { base = some b.read_pos; len = b.capacity - b.read_pos }
    ∷ record { base = some 0; len = b.write_pos }
    ∷ []

abbrev vectors : Iovec → Iovec → TBuffer → List Iovec
vectors first second b = let (ok, one, two) = get_read_pos first second b in one ∷ two ∷ []

pub vectors-flat :
    {b : TBuffer} (first second : Iovec)
    → IsValid b
    → 0 < b.size
    → b.read_pos < b.write_pos
    → vectors first second b ≡ flat_vectors b
unfolding get_read_pos
vectors-flat {b} first second v held flat =
    rw (eq_false b.size 0 (λ e. omega (arith, e)), lt→ltb b.read_pos b.write_pos flat, len) refl
  where
    len : sub64 b.write_pos b.read_pos ≡ b.size
    len = sub64-eq b.write_pos b.read_pos (omega arith) (omega (arith, v.small)) ∙ omega arith

pub vectors-round :
    {b : TBuffer} (first second : Iovec)
    → IsValid b
    → 0 < b.size
    → b.write_pos ≤ b.read_pos
    → vectors first second b ≡ round_vectors b
unfolding get_read_pos
vectors-round {b} first second v held round =
    rw
      (
        eq_false b.size 0 (λ e. omega (arith, e)),
        le→ltb b.read_pos b.write_pos round,
        sub64-eq b.capacity b.read_pos (omega arith) (omega (arith, v.small)),
      )
      refl

-- How one vector that is not empty is written.
pub write_v-vector :
    (answers : ℕ → SendResult) (i : ℕ) (code : SocketError) (total : ℕ) (taken : List ℕ)
    (b : TBuffer) (p n : ℕ) (rest : List Iovec)
    → 0 < n
    → p + n ≤ b.buffer.extent
    → write_v answers i code total taken b (record { base = some p; len = n } ∷ rest)
      ≡ elim (answers i) [
        | accepts k ↦
            write_v answers
              (suc i)
              socket_ok
              (add32 total k)
              (taken ++ take k (slice b.buffer.cell p n))
              b
              rest
        | would_block ↦ some (record { code = socket_pending; sent = total; taken = taken })
        | reset ↦ some (record { code = socket_connect_rest; sent = 0; taken = taken })
        | refused ↦ some (record { code = socket_failed; sent = 0; taken = taken })
      ]
unfolding write_v
write_v-vector answers i code total taken b p n rest some_there inside =
    rw (eq_false n 0 (λ e. omega (arith, e)), load-eq b.buffer p n inside) refl

add32-zero : (k : ℕ) → k < 2 ^ 32 → add32 0 k ≡ k
add32-zero k h = add32-eq 0 k (omega arith) ∙ omega arith

flat-taken :
    {b : TBuffer} (answers : ℕ → SendResult)
    → IsValid b
    → b.read_pos < b.write_pos
    → 0 < b.size
    → b.size < 2 ^ 32
    → Fits (answers 0) b.size
    → (w : Written) × (write_v answers 0 socket_ok 0 [] b (flat_vectors b) ≡ some w) × InOrder b w
flat-taken {b} answers v flat held small fits =
    let one =
      write_v-vector answers 0 socket_ok 0 [] b b.read_pos b.size _ held
        (omega (arith, v.write_in, v.storage)) in
    let (w, eq, order) = answered (answers 0) fits in (w, one ∙ eq, order)
  where
    bytes : slice b.buffer.cell b.read_pos b.size ≡ contents b
    bytes =
        unfold contents in
        slice-flat b.buffer.cell b.capacity b.read_pos b.size (omega (arith, v.write_in))

    answered :
        (r : SendResult)
        → Fits r b.size
        → (w : Written) × (elim r [
          | accepts k ↦
              write_v answers
                (suc 0)
                socket_ok
                (add32 0 k)
                ([] ++ take k (slice b.buffer.cell b.read_pos b.size))
                b
                (record { base = none; len = 0 } ∷ [])
          | would_block ↦ some (record { code = socket_pending; sent = 0; taken = [] })
          | reset ↦ some (record { code = socket_connect_rest; sent = 0; taken = [] })
          | refused ↦ some (record { code = socket_failed; sent = 0; taken = [] })
        ]
            ≡ some w)
          × InOrder b w
    answered (accepts k) fits = (
      record { code = socket_ok; sent = k; taken = take k (contents b) },
      unfold write_v in rw (add32-zero k (omega arith), bytes) refl,
      record { front = refl; enough = fits; clean = inl refl },
    )
    answered would_block fits = (
      record { code = socket_pending; sent = 0; taken = [] },
      refl,
      record { front = refl; enough = omega arith; clean = inr refl },
    )
    answered reset fits = (
      record { code = socket_connect_rest; sent = 0; taken = [] },
      refl,
      record { front = refl; enough = omega arith; clean = inr refl },
    )
    answered refused fits = (
      record { code = socket_failed; sent = 0; taken = [] },
      refl,
      record { front = refl; enough = omega arith; clean = inr refl },
    )

-- `HandleWrite` then does what `after_write` says.
pub handle_write-flat :
    (c : Conn) (first second : Iovec) (answers : ℕ → SendResult)
    → IsValid c.output
    → c.output.read_pos < c.output.write_pos
    → 0 < c.output.size
    → c.output.size < 2 ^ 32
    → Fits (answers 0) c.output.size
    → (w : Written) × (handle_write first second answers c ≡ some (after_write w c))
      × InOrder c.output w
unfolding handle_write
handle_write-flat c first second answers v flat held small fits =
    let (w, eq, order) = flat-taken answers v flat held small fits in
    (
      w,
      ap (λ vs. write_v answers 0 socket_ok 0 [] c.output vs >>= λ w. some (after_write w c))
            (vectors-flat first second v held flat)
          ∙ ap (λ o. o >>= λ w. some (after_write w c)) eq,
      order,
    )

-- If the system takes `k` bytes, then these are the first of the contents.
pub handle_write-accepts :
    (c : Conn) (first second : Iovec) (k : ℕ)
    → IsValid c.output
    → c.output.read_pos < c.output.write_pos
    → c.output.size < 2 ^ 32
    → k ≤ c.output.size
    → handle_write first second (λ i. accepts k) c
      ≡ some (
          after_write (record { code = socket_ok; sent = k; taken = take k (contents c.output) }) c)
unfolding handle_write
handle_write-accepts c first second k v flat small le =
    let one =
      write_v-vector (λ i. accepts k) 0 socket_ok 0 [] c.output c.output.read_pos c.output.size
        (record { base = none; len = 0 } ∷ []) held (omega (arith, v.write_in, v.storage)) in
    ap (λ vs. write_v (λ i. accepts k) 0 socket_ok 0 [] c.output vs >>= λ w. some (after_write w c))
      (vectors-flat first second v held flat)
    ∙ ap (λ o. o >>= λ w. some (after_write w c)) one
    ∙ (unfold write_v in rw (add32-zero k (omega arith), bytes) refl)
  where
    held : 0 < c.output.size
    held = omega (arith, v.layout, v.read_in, v.write_in)

    bytes : slice c.output.buffer.cell c.output.read_pos c.output.size ≡ contents c.output
    bytes =
        unfold contents in
        slice-flat c.output.buffer.cell c.output.capacity c.output.read_pos c.output.size
          (omega (arith, v.write_in))
