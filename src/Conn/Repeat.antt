-- ===== src/Conn/Repeat.antt =====
-- TcpConnection::HandleWrite when the system takes the first of the two vectors, or a part of it, and
-- then answers that it would block.
use streamcode.Prelude.{
  ℕ, zero, ◌+◌, ◌-◌, ◌≤◌, ◌<◌, ◌≡◌, sym, ap, ◌∙◌, List, [], ◌++◌, some, arith, length, take,
  take-append_within, add32, ◌>>=◌,
}
use streamcode.Memory.{slice}
use streamcode.Memory.Laws.{length-slice}
use streamcode.Ring.Valid.{IsValid, contents}
use streamcode.Ring.Peek.{slice-round}
use streamcode.Ring.Vectors.{Iovec}
use streamcode.Conn.{
  Conn, SendResult, socket_ok, accepts, would_block, write_v, after_write, handle_write,
}
use streamcode.Conn.Write.{vectors-round, write_v-vector}

-- The system takes `n` bytes of the first vector and none of the second.
abbrev pub takes_first : ℕ → ℕ → SendResult
takes_first n zero = accepts n
takes_first n _ = would_block

-- If the contents go round the end of the ring, `n` bytes of the first vector are taken and the second
-- call answers that it would block, then these bytes are on the wire and still wait: nothing else of
-- the connection changes.
pub handle_write-repeats :
    (c : Conn) (first second : Iovec) (n : ℕ)
    → IsValid c.output
    → c.output.write_pos ≤ c.output.read_pos
    → 0 < c.output.write_pos
    → 0 < c.output.size
    → n ≤ c.output.capacity - c.output.read_pos
    → handle_write first second (takes_first n) c
      ≡ some (record c { wire = c.wire ++ take n (contents c.output) })
unfolding handle_write after_write
handle_write-repeats c first second n v round wraps held le =
    ap (λ vs. write_v (takes_first n) 0 socket_ok 0 [] c.output vs >>= λ w. some (after_write w c))
      (vectors-round first second v held round)
    ∙ ap (λ o. o >>= λ w. some (after_write w c))
        (write_v-vector (takes_first n) 0 socket_ok 0 [] c.output c.output.read_pos
            (c.output.capacity - c.output.read_pos) _ (omega (arith, v.read_in))
            (omega (arith, v.storage, v.read_in))
          ∙ write_v-vector (takes_first n) 1 socket_ok (add32 0 n) (take n front) c.output 0
              c.output.write_pos [] wraps (omega (arith, v.storage, v.write_in)))
    ∙ ap (λ t. some (record c { wire = c.wire ++ t })) bytes
  where
    front : List ℕ
    front = slice c.output.buffer.cell c.output.read_pos (c.output.capacity - c.output.read_pos)

    size : length front ≡ c.output.capacity - c.output.read_pos
    size = length-slice _ c.output.read_pos (c.output.capacity - c.output.read_pos)

    tail : c.output.write_pos ≡ c.output.read_pos + c.output.size - c.output.capacity
    tail = omega (arith, v.layout)

    whole :
        front
          ++ slice c.output.buffer.cell 0 (c.output.read_pos + c.output.size - c.output.capacity)
        ≡ contents c.output
    whole =
        unfold contents in
        slice-round c.output.buffer.cell c.output.capacity c.output.read_pos c.output.size
          (omega (arith, v.read_in)) (omega (arith, v.layout)) (omega (arith, v.layout))

    bytes : take n front ≡ take n (contents c.output)
    bytes =
        sym (
          take-append_within n front (slice c.output.buffer.cell 0 c.output.write_pos)
            (omega (arith, le, size)))
        ∙ ap (take n) (ap (λ k. front ++ slice c.output.buffer.cell 0 k) tail ∙ whole)
