-- ===== src/Conn/Send.antt =====
-- TcpConnection::Send: the bytes go to the system or behind those that wait.
use streamcode.Prelude.{
  ℕ, ◌+◌, ◌*◌, ◌^◌, ◌≤◌, ◌<◌, ◌≡◌, ◌⊎◌, inl, inr, refl, sym, subst, ap₂, ap, ◌∙◌, true, false, not,
  ◌&&◌, some, List, [], ◌++◌, arith, length, take, drop, append_assoc, length-append, length-drop,
  take-all, take-append-drop, append-nil, eq_true, ==-cases,
}
use streamcode.TBuffer.{TBuffer, empty}
use streamcode.Ring.Valid.{IsValid, contents, length-contents}
use streamcode.Ring.Write.{write-contents}
use streamcode.Conn.{
  Conn, open_, closed, is_open, reads, reads_and_writes, SendResult, accepts, would_block, reset,
  refused, handle_close, queue, queued, ask, send_here,
}
use streamcode.Conn.Write.{Fits}

-- Bytes wait exactly while a write is awaited, and just then the socket is watched for writing.
abbrev pub Waits : Conn → Type 0
Waits c =
    ((c.waiting_write ≡ true) × (c.watch ≡ reads_and_writes) × (0 < c.output.size))
    ⊎ ((c.waiting_write ≡ false) × (c.watch ≡ reads) × (c.output.size ≡ 0))

-- An open connection that was given these bytes: what the system took and what waits are together
-- these bytes, in their order.
pub record IsSending (limit : ℕ) (given : List ℕ) (c : Conn) : Type 0 where
  pub open_state : c.state ≡ open_
  pub output_valid : IsValid c.output
  pub capped : c.output.capacity ≤ limit
  pub stream : c.wire ++ contents c.output ≡ given
  pub waits : Waits c

-- A connection that is not open any more makes no promise.
abbrev pub IsGood : ℕ → List ℕ → Conn → Type 0
IsGood limit given c = (c.state ≡ closed) ⊎ IsSending limit given c

pub held-le :
    {limit : ℕ} {given : List ℕ} {c : Conn} → IsSending limit given c → c.output.size ≤ length given
held-le {limit} {given} {c} g =
    omega (
      arith,
      length-contents c.output,
      length-append c.wire (contents c.output),
      ap length g.stream,
    )

queued-Waits :
    (out : TBuffer) (c : Conn)
    → Waits c
    → 0 < out.size
    → Waits (queued out c) × ((queued out c).output ≡ out)
unfolding queued
queued-Waits out c (inl (w, watch, held)) some_left = rw w (inl (refl, watch, some_left), refl)
queued-Waits out c (inr (w, watch, held)) some_left = rw w (inl (refl, refl, some_left), refl)

queued-keeps :
    (out : TBuffer) (c : Conn) → ((queued out c).state ≡ c.state) × ((queued out c).wire ≡ c.wire)
unfolding queued
queued-keeps out c = ground arith

-- Buffering the rest of the bytes.
queue-IsSending :
    (c : Conn) (junk : ℕ → ℕ) (limit n : ℕ) (bytes given : List ℕ)
    → c.state ≡ open_
    → IsValid c.output
    → c.output.capacity ≤ limit
    → c.wire ++ contents c.output ≡ given
    → Waits c
    → 0 < length (drop n bytes)
    → 2 * (c.output.size + length (drop n bytes)) ≤ limit
    → limit < 2 ^ 60
    → (after : Conn) × (queue junk n bytes c ≡ some after)
      × IsSending limit (given ++ drop n bytes) after
unfolding queue
queue-IsSending c junk limit n bytes given opened v capped stream waits some_left fits small =
    let (out, eq, (valid, joined, size, grown)) =
      write-contents junk (drop n bytes) v (omega arith) in
    let (w, o) = queued-Waits out c waits (omega (arith, size)) in
    let (state, wire) = queued-keeps out c in
    (
      queued out c,
      rw eq refl,
      record {
        open_state = state ∙ opened;
        output_valid = subst IsValid (sym o) valid;
        capped = rw o (omega (arith, grown));
        stream =
            ap₂ ◌++◌ wire (ap contents o ∙ joined)
            ∙ sym (append_assoc c.wire (contents c.output) (drop n bytes))
            ∙ ap (λ s. s ++ drop n bytes) stream;
        waits = w;
      },
    )

queue_all :
    (c : Conn) (junk : ℕ → ℕ) (limit : ℕ) (bytes given : List ℕ)
    → IsSending limit given c
    → 0 < length bytes
    → 2 * (length given + length bytes) ≤ limit
    → limit < 2 ^ 60
    → (after : Conn) × (queue junk 0 bytes c ≡ some after) × IsSending limit (given ++ bytes) after
queue_all c junk limit bytes given g some_bytes room small =
    queue-IsSending c junk limit 0 bytes given g.open_state g.output_valid g.capped g.stream g.waits
      some_bytes (omega (arith, held-le g)) small

pub contents-nil : (b : TBuffer) → b.size ≡ 0 → contents b ≡ []
unfolding contents
contents-nil b e = rw e refl

-- Nothing waits, so that the system is asked.
ask-IsGood :
    (c : Conn) (junk : ℕ → ℕ) (limit : ℕ) (r : SendResult) (bytes given : List ℕ)
    → IsSending limit given c
    → c.output.size ≡ 0
    → 0 < length bytes
    → Fits r (length bytes)
    → 2 * (length given + length bytes) ≤ limit
    → limit < 2 ^ 60
    → (after : Conn) × (ask junk r bytes c ≡ some after) × IsGood limit (given ++ bytes) after
unfolding ask
ask-IsGood c junk limit (accepts n) bytes given g none_held some_bytes fits room small =
    elim (==-cases n (length bytes)) [
      | inl (e, all) ↦ (
        sent,
        rw e refl,
        inr (record {
          open_state = g.open_state;
          output_valid = g.output_valid;
          capped = g.capped;
          stream =
              ap (λ t. (c.wire ++ t) ++ contents c.output) (take-all n bytes (omega (arith, all)))
              ∙ ap (λ t. (c.wire ++ bytes) ++ t) (contents-nil c.output none_held)
              ∙ append-nil (c.wire ++ bytes)
              ∙ ap (λ t. t ++ bytes) on_wire;
          waits = g.waits;
        }),
      )
      | inr e ↦
          let (after, eq, good) =
            queue-IsSending sent junk limit n bytes (given ++ take n bytes) g.open_state
              g.output_valid g.capped
              (ap (λ t. (c.wire ++ take n bytes) ++ t) (contents-nil c.output none_held)
                ∙ append-nil (c.wire ++ take n bytes)
                ∙ ap (λ t. t ++ take n bytes) on_wire)
              g.waits (ground (arith, length-drop n bytes)) (omega (arith, length-drop n bytes))
              small in
          (
            after,
            rw e eq,
            inr (
                subst (λ t. IsSending limit t after)
                  (append_assoc given (take n bytes) (drop n bytes)
                    ∙ ap (◌++◌ given) (take-append-drop n bytes))
                  good),
          )
    ]
  where
    sent : Conn
    sent = record c { wire = c.wire ++ take n bytes }

    on_wire : c.wire ≡ given
    on_wire =
        sym (append-nil c.wire)
        ∙ ap (◌++◌ c.wire) (sym (contents-nil c.output none_held))
        ∙ g.stream
ask-IsGood c junk limit reset bytes given g none_held some_bytes fits room small =
    (handle_close c, refl, inl (unfold handle_close is_open in rw g.open_state refl))
ask-IsGood c junk limit would_block bytes given g none_held some_bytes fits room small =
    let (after, eq, good) = queue_all c junk limit bytes given g some_bytes room small in
    (after, eq, inr good)
ask-IsGood c junk limit refused bytes given g none_held some_bytes fits room small =
    let (after, eq, good) = queue_all c junk limit bytes given g some_bytes room small in
    (after, eq, inr good)

pub opens : (c : Conn) → c.state ≡ open_ → is_open c.state ≡ true
unfolding is_open
opens c e = rw e refl

send_here-busy :
    (junk : ℕ → ℕ) (r : SendResult) (bytes : List ℕ) (c : Conn)
    → c.state ≡ open_
    → (not c.waiting_write && empty c.output) ≡ false
    → send_here junk r bytes c ≡ queue junk 0 bytes c
unfolding send_here
send_here-busy junk r bytes c e busy = let o = opens c e in rw (o, busy) refl

send_here-idle :
    (junk : ℕ → ℕ) (r : SendResult) (bytes : List ℕ) (c : Conn)
    → c.state ≡ open_
    → (not c.waiting_write && empty c.output) ≡ true
    → send_here junk r bytes c ≡ ask junk r bytes c
unfolding send_here
send_here-idle junk r bytes c e idle = let o = opens c e in rw (o, idle) refl

-- Where the answer allows at most the bytes that were handed over, `Send` of some bytes on an open
-- connection does not fault, and leaves the connection closed, or open with these bytes behind those
-- it was given before.
pub send_here-IsGood :
    (c : Conn) (junk : ℕ → ℕ) (limit : ℕ) (r : SendResult) (bytes given : List ℕ)
    → IsSending limit given c
    → 0 < length bytes
    → Fits r (length bytes)
    → 2 * (length given + length bytes) ≤ limit
    → limit < 2 ^ 60
    → (after : Conn) × (send_here junk r bytes c ≡ some after) × IsGood limit (given ++ bytes) after
unfolding empty
send_here-IsGood c junk limit r bytes given g some_bytes fits room small = elim g.waits [
  | inl (w, _, _) ↦
      let (after, eq, good) = queue_all c junk limit bytes given g some_bytes room small in
      let busy : (not c.waiting_write && empty c.output) ≡ false = rw w refl in
      (after, send_here-busy junk r bytes c g.open_state busy ∙ eq, inr good)
  | inr (w, _, held) ↦
      let (after, eq, good) =
        ask-IsGood c junk limit r bytes given g held some_bytes fits room small in
      let idle : (not c.waiting_write && empty c.output) ≡ true =
        rw (w, eq_true c.output.size 0 held) refl in
      (after, send_here-idle junk r bytes c g.open_state idle ∙ eq, good)
]
