-- ===== src/Conn.antt =====
-- base/TcpConnection.h and base/TcpConnection.cpp, with `Send`, `ReadV` and `WriteV` of
-- base/Socket.h: how bytes go from the callers through the output ring to the socket, and from the
-- socket into the input ring. What the operating system answers is a parameter. The callbacks and
-- the loop's table of events are kept as data.
pub mod Write
pub mod Send
pub mod Reach
pub mod Flush
pub mod Repeat
pub mod Read
pub mod Calls
pub mod Receive
use streamcode.Prelude.{
  ℕ, zero, suc, ◌+◌, ◌*◌, ◌%◌, ◌^◌, Bool, true, false, not, ◌&&◌, Option, none, some, List, [], ◌∷◌,
  ◌++◌, length, take, drop, ltb, leb, ◌==◌, add32, if◌then◌else◌, ◌>>=◌,
}
use streamcode.Memory.{of_list, memcpy, load}
use streamcode.TBuffer.{TBuffer, init, empty, full}
use streamcode.Ring.{write, resize, add_read_pos, add_write_pos}
use streamcode.Ring.Vectors.{Iovec, get_read_pos, get_write_pos}

pub data SocketError : Type 0 where
  socket_ok socket_pending socket_connect_rest socket_failed : SocketError

-- How a call of the system's `send` ends: the number of bytes taken, or the error,
-- which `TranslateSocketError` makes a SocketError.
pub data SendResult : Type 0 where
  accepts : ℕ → SendResult
  would_block reset refused : SendResult

pub data State : Type 0 where
  dummy open_ closed : State

-- What the loop watches the socket for.
pub data Watch : Type 0 where
  nothing reads reads_and_writes : Watch

pub data Notice : Type 0 where
  disconnected closing readable : Notice

-- `wire` is what the system took; `posted` the copies that wait in the loop's task queue.
pub record Conn : Type 0 where
  pub state : State
  pub input : TBuffer
  pub output : TBuffer
  pub waiting_write : Bool
  pub writeable : Bool
  pub high_water : ℕ
  pub watch : Watch
  pub has_read : Bool
  pub has_close : Bool
  pub has_disconnect : Bool
  pub notices : List Notice
  pub posted : List (List ℕ)
  pub wire : List ℕ

unfoldable pub is_open : State → Bool
is_open open_ = true
is_open _ = false

-- The constructor, before any callback is set; `~0` is the largest `size_t`.
unfoldable pub new_conn : (ℕ → ℕ) → Conn
new_conn junk = record {
  state = dummy;
  input = init junk 5_242_880;
  output = init junk 5_242_880;
  waiting_write = false;
  writeable = true;
  high_water = 0xffff_ffff_ffff_ffff;
  watch = nothing;
  has_read = false;
  has_close = false;
  has_disconnect = false;
  notices = [];
  posted = [];
  wire = [];
}

unfoldable pub start : Conn → Conn
start c = record c { state = open_; watch = reads }

unfoldable pub notify : Bool → Notice → Conn → Conn
notify wanted n c = if wanted then record c { notices = c.notices ++ (n ∷ []) } else c

unfoldable pub handle_close : Conn → Conn
handle_close c =
    if not (is_open c.state)
    then c
    else record (notify c.has_close closing
        (notify c.has_disconnect disconnected (record c { watch = nothing }))) { state = closed }

-- The end of `Send`, from the output buffer that `Write` leaves.
unfoldable pub queued : TBuffer → Conn → Conn
queued out c =
    if c.waiting_write
    then warned
    else record warned { waiting_write = true; watch = reads_and_writes }
  where
    warned : Conn
    warned = record c {
      output = out;
      writeable = if leb c.high_water out.size then false else c.writeable;
    }

-- The bytes behind the first `n` are buffered.
unfoldable pub queue : (ℕ → ℕ) → ℕ → List ℕ → Conn → Option Conn
queue junk n bytes c = write junk (drop n bytes) c.output >>= λ out. some (queued out c)

-- The system is asked first if nothing waits; `r` is what its `send` answers.
unfoldable pub ask : (ℕ → ℕ) → SendResult → List ℕ → Conn → Option Conn
ask junk r bytes c = elim r [
  | accepts n ↦
      let sent = record c { wire = c.wire ++ take n bytes } in
      (if n == length bytes then some sent else queue junk n bytes sent)
  | reset ↦ some (handle_close c)
  | _ ↦ queue junk 0 bytes c
]

-- `Send(void*, int)` in the thread of the loop.
unfoldable pub send_here : (ℕ → ℕ) → SendResult → List ℕ → Conn → Option Conn
send_here junk r bytes c =
    if not (is_open c.state)
    then some c
    else if not c.waiting_write && empty c.output
    then ask junk r bytes c
    else queue junk 0 bytes c

-- `Send` from another thread posts a copy to the loop, which runs it later.
unfoldable pub send : Bool → (ℕ → ℕ) → SendResult → List ℕ → Conn → Option Conn
send in_loop junk r bytes c =
    if not in_loop
    then some (record c { posted = c.posted ++ (bytes ∷ []) })
    else send_here junk r bytes c

unfoldable pub run_posted : (ℕ → ℕ) → SendResult → Conn → Option Conn
run_posted junk r c = elim c.posted [
  | [] ↦ some c
  | bytes ∷ rest ↦ send_here junk r bytes (record c { posted = rest })
]

-- What `WriteV` returns, what it stores in `*sendLen` (which its caller has set to 0), and the bytes
-- that the system took.
pub record Written : Type 0 where
  pub code : SocketError
  pub sent : ℕ
  pub taken : List ℕ

-- The loop of `WriteV` from vector `i` on; `answers i` is what the system's `send` answers for it.
-- A NULL base with a length is refused by the system.
unfoldable pub write_v :
    (ℕ → SendResult) → ℕ → SocketError → ℕ → List ℕ → TBuffer → List Iovec → Option Written
write_v answers i code total taken b [] = some (record { code = code; sent = total; taken = taken })
write_v answers i code total taken b (v ∷ rest) =
    if v.len == 0 then some (record { code = code; sent = total; taken = taken }) else elim v.base [
      | none ↦ some (record { code = socket_failed; sent = 0; taken = taken })
      | some p ↦ load b.buffer p v.len >>= λ bytes. elim (answers i) [
        | accepts n ↦
            write_v answers (suc i) socket_ok (add32 total n) (taken ++ take n bytes) b rest
        | would_block ↦ some (record { code = socket_pending; sent = total; taken = taken })
        | reset ↦ some (record { code = socket_connect_rest; sent = 0; taken = taken })
        | refused ↦ some (record { code = socket_failed; sent = 0; taken = taken })
      ]
    ]

-- What `HandleWrite` does with the outcome of `WriteV`.
unfoldable pub after_write : Written → Conn → Conn
after_write w c = elim w.code [
  | socket_connect_rest ↦ handle_close sent
  | socket_ok ↦
      let out = (add_read_pos w.sent c.output).0 in
      rested (record sent {
        output = out;
        writeable = if ltb out.size c.high_water then true else c.writeable;
      })
  | _ ↦ sent
]
  where
    sent : Conn
    sent = record c { wire = c.wire ++ w.taken }

    rested : Conn → Conn
    rested c = if empty c.output then record c { waiting_write = false; watch = reads } else c

-- `HandleWrite`; the two vectors are what stands in its local array.
unfoldable pub handle_write : Iovec → Iovec → (ℕ → SendResult) → Conn → Option Conn
handle_write first second answers c =
    let (ok, one, two) = get_read_pos first second c.output in
    write_v answers 0 socket_ok 0 [] c.output (one ∷ two ∷ []) >>= λ w. some (after_write w c)
