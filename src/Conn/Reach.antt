-- ===== src/Conn/Reach.antt =====
-- Every run of `Send` and `HandleWrite` calls, with any answers of the system that come in order.
use streamcode.Prelude.{
  ℕ, ◌+◌, ◌*◌, ◌^◌, ◌≤◌, ◌<◌, ◌≡◌, inl, inr, refl, sym, subst, ap, ap₂, ◌∙◌, Option, none, some,
  List, [], ◌++◌, arith, length, take, drop, append_assoc, append-nil, take-append-drop,
  length-append, Bool-cases, ==-cases, ◌>>=◌,
}
use mathlib.Core.Option
use mathlib.Core.Option.{some-injective}
use streamcode.TBuffer.{TBuffer, empty, init}
use streamcode.Ring.{add_read_pos}
use streamcode.Ring.Valid.{
  IsValid, contents, init-IsValid, add_read_pos-IsValid, contents-add_read_pos,
}
use streamcode.Ring.Vectors.{Iovec}
use streamcode.Conn.{
  Conn, start, new_conn, closed, is_open, SocketError, socket_ok, socket_pending,
  socket_connect_rest, socket_failed, SendResult, handle_close, send_here, Written, after_write,
  handle_write,
}
use streamcode.Conn.Write.{InOrder, Fits, handle_write-flat}
use streamcode.Conn.Send.{IsSending, IsGood, held-le, send_here-IsGood}

add_read_pos-capacity : (n : ℕ) (b : TBuffer) → ((add_read_pos n b).0).capacity ≡ b.capacity
unfolding add_read_pos
add_read_pos-capacity n b = ground arith

-- The bytes that the system took leave the output.
pub took-IsGood :
    (c : Conn) (w : Written) (limit : ℕ) (given : List ℕ)
    → IsSending limit given c
    → 0 < c.output.size
    → InOrder c.output w
    → w.code ≡ socket_ok
    → IsSending limit given (after_write w c)
unfolding after_write empty
took-IsGood c w limit given g held order e = elim (==-cases out.size 0) [
  | inl (z, none_left) ↦
      rw (e, z)
        (record {
          open_state = g.open_state;
          output_valid = valid;
          capped = omega (arith, cap_out, g.capped);
          stream = joined;
          waits = inr (refl, refl, none_left);
        })
  | inr z ↦
      rw (e, z)
        (record {
          open_state = g.open_state;
          output_valid = valid;
          capped = omega (arith, cap_out, g.capped);
          stream = joined;
          waits = elim g.waits [
            | inl (a, b, _) ↦ inl (a, b, ground (arith, z))
            | inr (_, _, none_held) ↦ absurd (omega (arith, none_held))
          ];
        })
]
  where
    out : TBuffer
    out = (add_read_pos w.sent c.output).0

    cap_out : out.capacity ≡ c.output.capacity
    cap_out = add_read_pos-capacity w.sent c.output

    valid : IsValid out
    valid = (add_read_pos-IsValid w.sent g.output_valid order.enough).0

    joined : (c.wire ++ w.taken) ++ contents out ≡ given
    joined =
        ap₂ (λ a b. (c.wire ++ a) ++ b) order.front
          (contents-add_read_pos w.sent g.output_valid order.enough)
        ∙ append_assoc c.wire (take w.sent (contents c.output)) (drop w.sent (contents c.output))
        ∙ ap (◌++◌ c.wire) (take-append-drop w.sent (contents c.output))
        ∙ g.stream

-- What the system took in order keeps a connection good.
after_write-IsGood :
    (c : Conn) (w : Written) (limit : ℕ) (given : List ℕ)
    → IsSending limit given c
    → 0 < c.output.size
    → InOrder c.output w
    → IsGood limit given (after_write w c)
after_write-IsGood c w limit given g held order = elim order.clean [
  | inl e ↦ inr (took-IsGood c w limit given g held order e)
  | inr none_taken ↦ by_code w.code refl none_taken
]
  where
    same : w.taken ≡ [] → record c { wire = c.wire ++ w.taken } ≡ c
    same e = rw e (ap (λ t. record c { wire = t }) (append-nil c.wire))

    by_code :
        (code : SocketError) → w.code ≡ code → w.taken ≡ [] → IsGood limit given (after_write w c)
    by_code socket_ok e none_taken = inr (took-IsGood c w limit given g held order e)
    by_code socket_pending e none_taken =
        inr (unfold after_write in rw e (subst (IsSending limit given) (sym (same none_taken)) g))
    by_code socket_connect_rest e none_taken =
        inl (unfold after_write handle_close is_open in rw (e, g.open_state) refl)
    by_code socket_failed e none_taken =
        inr (unfold after_write in rw e (subst (IsSending limit given) (sym (same none_taken)) g))

-- One event of the loop, with the bytes that it hands over. The system takes at most what it is
-- offered, and it is offered one run of bytes: what waits does not go round the end of the ring.
pub data Event (junk : ℕ → ℕ) : Conn → List ℕ → Conn → Type 0 where
  sends :
      {c after : Conn} (r : SendResult) (bytes : List ℕ)
      → 0 < length bytes
      → Fits r (length bytes)
      → send_here junk r bytes c ≡ some after
      → Event junk c bytes after
  writes :
      {c after : Conn} (first second : Iovec) (answers : ℕ → SendResult)
      → c.output.read_pos < c.output.write_pos
      → Fits (answers 0) c.output.size
      → handle_write first second answers c ≡ some after
      → Event junk c [] after

-- A run of events, with all the bytes that were handed over.
pub data Run (junk : ℕ → ℕ) (c : Conn) : List ℕ → Conn → Type 0 where
  here : Run junk c [] c
  next :
      {given bytes : List ℕ} {mid after : Conn}
      → Run junk c given mid
      → Event junk mid bytes after
      → Run junk c (given ++ bytes) after

close-closed : (c : Conn) → c.state ≡ closed → (handle_close c).state ≡ closed
unfolding handle_close is_open
close-closed c e = rw e refl

after_write-closed : (w : Written) (c : Conn) → c.state ≡ closed → (after_write w c).state ≡ closed
unfolding after_write
after_write-closed w c e = by_code w.code refl
  where
    by_code : (code : SocketError) → w.code ≡ code → (after_write w c).state ≡ closed
    by_code socket_ok eq = elim (Bool-cases (empty (add_read_pos w.sent c.output).0)) [
      | inl t ↦ rw (eq, t) e
      | inr t ↦ rw (eq, t) e
    ]
    by_code socket_pending eq = rw eq e
    by_code socket_connect_rest eq = rw eq (close-closed _ e)
    by_code socket_failed eq = rw eq e

wrote-closed :
    (m : Option Written) (c after : Conn)
    → c.state ≡ closed
    → (m >>= λ w. some (after_write w c)) ≡ some after
    → after.state ≡ closed
wrote-closed none c after e eq = absurd (Option.none-ne-some _ eq)
wrote-closed (some w) c after e eq =
    ap Conn.state (sym (some-injective _ _ eq)) ∙ after_write-closed w c e

-- No call opens a connection again that was closed.
Event-closed :
    {junk : ℕ → ℕ} {c after : Conn} {bytes : List ℕ}
    → Event junk c bytes after
    → c.state ≡ closed
    → after.state ≡ closed
unfolding handle_write send_here is_open
Event-closed {junk} {c} {after} (sends r bytes some_bytes fits eq) e =
    let same : send_here junk r bytes c ≡ some c = unfold send_here is_open in rw e refl in
    ap Conn.state (some-injective _ _ (sym eq ∙ same)) ∙ e
Event-closed {junk} {c} {after} (writes first second answers flat fits eq) e =
    wrote-closed _ c after e eq

-- What an event makes of a good connection.
Event-IsGood :
    {junk : ℕ → ℕ} {c after : Conn} {bytes : List ℕ} (limit : ℕ) (given : List ℕ)
    → Event junk c bytes after
    → IsGood limit given c
    → 2 * (length given + length bytes) ≤ limit
    → limit < 2 ^ 32
    → IsGood limit (given ++ bytes) after
Event-IsGood limit given event (inl gone) room small = inl (Event-closed event gone)
Event-IsGood {junk} {c} limit given (sends r bytes some_bytes fits eq) (inr g) room small =
    let (out, same, good) =
      send_here-IsGood c junk limit r bytes given g some_bytes fits room (omega arith) in
    subst (IsGood limit (given ++ bytes)) (some-injective _ _ (sym same ∙ eq)) good
Event-IsGood {junk} {c} {after} limit given (writes first second answers flat fits eq) (inr g) room
      small =
    let held : 0 < c.output.size =
      omega (arith, g.output_valid.layout, g.output_valid.read_in, g.output_valid.write_in) in
    let (w, same, order) =
      handle_write-flat c first second answers g.output_valid flat held (omega (arith, held-le g))
        fits in
    subst (λ t. IsGood limit t after) (sym (append-nil given))
      (subst (IsGood limit given) (some-injective _ _ (sym same ∙ eq))
        (after_write-IsGood c w limit given g held order))

-- After any run of Send, each of some bytes, and HandleWrite from an open connection that was given
-- nothing, where the system takes at most what it is offered and what waits does not go round the
-- end of the ring at a write, the connection is closed, or it is open and the bytes the system took
-- followed by those that wait are the bytes that were handed over, in order, and bytes wait exactly
-- while the socket is watched for writing. The bytes handed over are at most half of a limit below
-- 2^32, which also bounds the capacity.
pub Run-IsGood :
    {junk : ℕ → ℕ} {c after : Conn} {given : List ℕ} (limit : ℕ)
    → IsSending limit [] c
    → Run junk c given after
    → 2 * length given ≤ limit
    → limit < 2 ^ 32
    → IsGood limit given after
Run-IsGood limit g here room small = inr g
Run-IsGood limit g (next {given} {bytes} run event) room small =
    let both = length-append given bytes in
    Event-IsGood limit given event (Run-IsGood limit g run (omega (arith, both)) small)
      (omega (arith, both)) small

-- A connection that was made and started is open and was given nothing.
pub started-IsSending :
    (junk : ℕ → ℕ) (limit : ℕ) → 5_242_880 ≤ limit → IsSending limit [] (start (new_conn junk))
unfolding start new_conn init contents
started-IsSending junk limit room = record {
  open_state = refl;
  output_valid = init-IsValid junk 5_242_880 (omega arith) (omega arith);
  capped = room;
  stream = refl;
  waits = inr (refl, refl, refl);
}
