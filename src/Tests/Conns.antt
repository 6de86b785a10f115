-- ===== src/Tests/Conns.antt =====
-- TcpConnection on small rings.
use streamcode.Prelude.{
  ℕ, zero, suc, ◌+◌, ◌≤◌, ◌<◌, ◌≡◌, ◌⊎◌, inl, inr, refl, subst, true, false, not, ◌&&◌, none, some,
  Option, [], ◌∷◌, ◌++◌, arith, length, take, ◌==◌, get_or, if◌then◌else◌, eq_true, eq_false,
}
use mathlib.Core.Option.{some-injective}
use streamcode.TBuffer.{TBuffer, init}
use streamcode.Ring.Valid.{IsValid, contents, init-IsValid, wrap}
use streamcode.Ring.Vectors.{Iovec, Received}
use streamcode.Conn.{
  Conn, open_, reads, reads_and_writes, accepts, send_here, handle_write, readable,
}
use streamcode.Conn.Send.{IsSending, IsGood, send_here-IsGood}
use streamcode.Conn.Reach.{sends, here, next, Run-IsGood}
use streamcode.Conn.Flush.{serve, serve-flushes}
use streamcode.Conn.Repeat.{takes_first, handle_write-repeats}
use streamcode.Conn.Read.{RecvResult, got, waits, Recv, ReadOutcome, handle_read, after_read, grown}
use streamcode.Conn.Calls.{Calls, Fills, Dries}
use streamcode.Conn.Receive.{handle_read-contents}

abbrev junk : ℕ → ℕ
junk i = 0

abbrev idle : Conn
idle = record {
  state = open_;
  input = init junk 8;
  output = init junk 8;
  waiting_write = false;
  writeable = true;
  high_water = 0xffff_ffff_ffff_ffff;
  watch = reads;
  has_read = true;
  has_close = false;
  has_disconnect = false;
  notices = [];
  posted = [];
  wire = [];
}

abbrev no_vector : Iovec
no_vector = record { base = none; len = 0 }

idle-IsSending : IsSending 100 [] idle
unfolding init contents
idle-IsSending = record {
  open_state = refl;
  output_valid = init-IsValid junk 8 (omega arith) (omega arith);
  capped = omega arith;
  stream = refl;
  waits = inr (refl, refl, refl);
}

-- Two of three bytes are taken.
idle-sends :
    (after : Conn) × (send_here junk (accepts 2) (1 ∷ 2 ∷ 3 ∷ []) idle ≡ some after)
    × IsGood 100 (1 ∷ 2 ∷ 3 ∷ []) after
idle-sends =
    send_here-IsGood idle junk 100 (accepts 2) (1 ∷ 2 ∷ 3 ∷ []) [] idle-IsSending (omega arith)
      (omega arith) (omega arith) (omega arith)

Run-IsGood_example : IsGood 100 (1 ∷ 2 ∷ 3 ∷ []) (idle-sends.0)
Run-IsGood_example =
    Run-IsGood 100 idle-IsSending
      (next here (sends (accepts 2) (1 ∷ 2 ∷ 3 ∷ []) (omega arith) (omega arith) idle-sends.1))
      (omega arith) (omega arith)

-- Three bytes wait in the middle of the ring.
abbrev busy : Conn
busy = record idle {
  output = record {
    buffer = record { extent = 8; cell = λ i. i };
    write_pos = 5;
    read_pos = 2;
    size = 3;
    capacity = 8;
  };
  waiting_write = true;
  watch = reads_and_writes;
}

busy-IsSending : IsSending 100 (2 ∷ 3 ∷ 4 ∷ []) busy
unfolding contents wrap
busy-IsSending = record {
  open_state = refl;
  output_valid = omega arith;
  capped = omega arith;
  stream = refl;
  waits = inl (refl, refl, omega arith);
}

serve-flushes_example :
    (after : Conn) × (serve 3 (λ i. 0) no_vector no_vector busy ≡ some after)
    × (after.wire ≡ 2 ∷ 3 ∷ 4 ∷ [])
    × (after.output.size ≡ 0)
    × (after.waiting_write ≡ false)
    × (after.watch ≡ reads)
serve-flushes_example =
    serve-flushes 3 (λ i. 0) no_vector no_vector busy 100 (2 ∷ 3 ∷ 4 ∷ []) busy-IsSending
      (inr (omega arith)) (omega arith) (omega arith)

-- Three bytes wait, one of them before the end of the ring.
abbrev wrapped : Conn
wrapped = record idle {
  output = record {
    buffer = record { extent = 8; cell = λ i. i };
    write_pos = 2;
    read_pos = 7;
    size = 3;
    capacity = 8;
  };
  waiting_write = true;
  watch = reads_and_writes;
}

handle_write-repeats_example :
    handle_write no_vector no_vector (takes_first 1) wrapped
    ≡ some (record wrapped { wire = wrapped.wire ++ take 1 (contents wrapped.output) })
handle_write-repeats_example =
    handle_write-repeats wrapped no_vector no_vector 1 (omega arith) (omega arith) (omega arith)
      (omega arith) (omega arith)

-- A system that has the byte 7 for every call but the last.
abbrev one_byte : Recv
one_byte zero b one two = waits
one_byte (suc n) b one two = elim one.base [
  | none ↦ waits
  | some p ↦
      if one.len == 0 then waits else got (7 ∷ []) (λ j. if j == p then 7 else b.buffer.cell j)
]

abbrev Answers : TBuffer → Iovec → Iovec → RecvResult → Type 0
Answers b one two (got more cell) = Received b one two more cell × (0 < length more)
Answers b one two _ = Unit

vector-Answers :
    (n : ℕ) (b : TBuffer) (base : Option ℕ) (len : ℕ) (two : Iovec)
    → let one : Iovec = record { base = base; len = len } in
      Answers b one two (one_byte (suc n) b one two)
vector-Answers n b none len two = tt
vector-Answers n b (some p) zero two = tt
vector-Answers n b (some p) (suc len) two = rw (eq_false (suc len) 0 (λ e. omega (arith, e))) (
  record {
    fits = omega arith;
    front = λ q i e k l. front q i (some-injective _ _ e) l;
    back = λ q i e k l. absurd (omega (arith, l));
    kept = λ j h g. kept j (h p refl);
  },
  omega arith,
)
  where
    front :
        (q i : ℕ)
        → p ≡ q
        → i < 1
        → (if (q + i) == p then 7 else b.buffer.cell (q + i)) ≡ get_or (7 ∷ []) i 0
    front q zero e l = rw (eq_true (q + 0) p (omega (arith, e))) refl
    front q (suc i) e l = absurd (omega (arith, l))

    kept :
        (j : ℕ)
        → (j < p) ⊎ (p + suc len ≤ j)
        → (if j == p then 7 else b.buffer.cell j) ≡ b.buffer.cell j
    kept j h = rw (eq_false j p (λ e. omega (arith, e, h))) refl

one_byte-Fills : Fills one_byte
one_byte-Fills zero b one two more cell e =
    absurd (subst (λ r. elim r [ waits ↦ Unit | _ ↦ ⊥ ]) e tt)
one_byte-Fills (suc n) b one two more cell e =
    subst (Answers b one two) e (vector-Answers n b one.base one.len two)

one_byte-Dries : Dries one_byte
one_byte-Dries b one two more cell e = subst (λ r. elim r [ waits ↦ Unit | _ ↦ ⊥ ]) e tt

handle_read-contents_example :
    (r : ReadOutcome) × (handle_read 3 junk one_byte no_vector no_vector idle
      ≡ some (after_read r idle))
    × IsValid (after_read r idle).input
    × (contents (after_read r idle).input ≡ contents idle.input ++ r.bytes)
    × Calls one_byte no_vector no_vector 2 (contents idle.input) r.bytes r.is_gone
    × ((r.is_gone ≡ true)
        ⊎ ((r.is_gone ≡ false)
            × ((after_read r idle).notices
                ≡ idle.notices
                  ++ (if not (length r.bytes == 0) && idle.has_read then readable ∷ [] else []))))
handle_read-contents_example =
    handle_read-contents 2 junk one_byte no_vector no_vector idle one_byte-Fills one_byte-Dries
      (init-IsValid junk 8 (omega arith) (omega arith)) (unfold grown init in omega arith)
