-- ===== src/Loop.antt =====
-- base/MessageLoop.h and base/MessageLoop.cpp, with the queue of base/BlockingQueue.h and the times of
-- base/TimeTick.h. A closure is a number. Each push onto the incoming queue and each run of a task is
-- kept in a log, in its order. Times are not negative and sums of them have 63 bits.
pub mod Rounds
pub mod Runs
pub mod Order
pub mod Waits
pub mod Idle
use streamcode.Prelude.{
  ℕ, ◌+◌, ◌≤◌, ◌≡◌, Bool, true, false, Option, none, some, List, [], ◌∷◌, ◌++◌, ltb, if◌then◌else◌,
}

-- `PendingTask`: the closure, `delayRunTime_` and `idle_`.
pub record Pending : Type 0 where
  pub task : ℕ
  pub time : ℕ
  pub idle : Bool

-- `IsDelay`, the test that the tick is valid.
unfoldable pub is_delay : Pending → Bool
is_delay p = ltb 0 p.time

-- The queues of a loop. `posted` is the log of the pushes onto the incoming queue, `ran` that of the
-- runs, and `wakeups` counts the calls of ScheduleWork.
pub record Loop : Type 0 where
  pub incoming : List Pending
  pub work : List Pending
  pub delay : List Pending
  pub idle_tasks : List Pending
  pub posted : List Pending
  pub ran : List Pending
  pub wakeups : ℕ

unfoldable pub new_loop : Loop
new_loop = record {
  incoming = [];
  work = [];
  delay = [];
  idle_tasks = [];
  posted = [];
  ran = [];
  wakeups = 0;
}

-- `incomingQueue_.Push(pendingTask); ScheduleWork();`
unfoldable pub push : Pending → Loop → Loop
push p l = record l {
  incoming = l.incoming ++ (p ∷ []);
  posted = l.posted ++ (p ∷ []);
  wakeups = l.wakeups + 1;
}

unfoldable pub push_all : List Pending → Loop → Loop
push_all [] l = l
push_all (p ∷ ps) l = push_all ps (push p l)

unfoldable pub post_task : ℕ → Loop → Loop
post_task task l = push (record { task = task; time = 0; idle = false }) l

-- `now` is what the clock says.
unfoldable pub post_delay_task : ℕ → ℕ → ℕ → Loop → Loop
post_delay_task now useconds task l =
    push (record { task = task; time = useconds + now; idle = false }) l

unfoldable pub post_idle_task : ℕ → Loop → Loop
post_idle_task task l = push (record { task = task; time = 0; idle = true }) l

unfoldable pub post_idle_delay_task : ℕ → ℕ → ℕ → Loop → Loop
post_idle_delay_task now useconds task l =
    push (record { task = task; time = useconds + now; idle = true }) l

unfoldable pub add_to_delay_queue : Pending → Loop → Loop
add_to_delay_queue p l = record l { delay = l.delay ++ (p ∷ []) }

unfoldable pub add_to_idle_queue : Pending → Loop → Loop
add_to_idle_queue p l = record l { idle_tasks = l.idle_tasks ++ (p ∷ []) }

-- InjectWorkQueue: `Swap` of the two queues when the work queue is empty.
unfoldable pub inject_work_queue : Loop → Loop
inject_work_queue l = elim l.work [ [] ↦ record l { work = l.incoming; incoming = [] } | _ ∷ _ ↦ l ]

-- How many tasks of a list pass a test.
unfoldable pub tally : (Pending → Bool) → List Pending → ℕ
tally test [] = 0
tally test (p ∷ ps) = (if test p then 1 else 0) + tally test ps

abbrev pub NotBefore : ℕ → List Pending → Type 0
NotBefore t [] = Unit {0}
NotBefore t (p ∷ ps) = (t ≤ p.time) × NotBefore t ps

-- `std::priority_queue<PendingTask>`, whose order on equal times is not fixed: `pop` gives its top and
-- what is left behind it, and the top is one whose time is the earliest.
pub record PriorityQueue : Type 0 where
  pub pop : List Pending → Option (Pending × List Pending)
  pub pop-nil : pop [] ≡ none
  pub pop-some :
      (p : Pending) (ps : List Pending)
      → (q : Pending) × (rest : List Pending) × (pop (p ∷ ps) ≡ some (q, rest))
  pub pop-earliest :
      (ps : List Pending) (q : Pending) (rest : List Pending)
      → pop ps ≡ some (q, rest)
      → NotBefore q.time ps
  pub pop-tally :
      (ps : List Pending) (q : Pending) (rest : List Pending)
      → pop ps ≡ some (q, rest)
      → (test : Pending → Bool) → (if test q then 1 else 0) + tally test rest ≡ tally test ps

-- What DoDelayTask leaves: the loop, `nextTaskTime` and the result.
pub record Delayed : Type 0 where
  pub after : Loop
  pub next_time : ℕ
  pub did : Bool

-- `posts` is what a closure posts to the loop when it runs, which may depend on what ran before it.
module _ (posts : List Pending → ℕ → List Pending) where
  -- `task()`.
  unfoldable pub call : ℕ → Loop → Loop
  call task l = push_all (posts l.ran task) l

  -- PostSyncTask; `same` is that the caller runs on the loop's thread.
  unfoldable pub post_sync_task : Bool → ℕ → Loop → Loop
  post_sync_task same task l = if same then call task l else post_task task l

  -- `PendingTask::Run`.
  unfoldable pub run : Pending → Loop → Loop
  run p l = call p.task (record l { ran = l.ran ++ (p ∷ []) })

  -- RunOneTask, and what it returns.
  unfoldable pub run_one_task : Pending → Loop → Loop × Bool
  run_one_task p l = if p.idle then (add_to_idle_queue p l, false) else (run p l, true)

  abbrev pub unless_ran : Loop × Bool → (Loop → Loop × Bool) → Loop × Bool
  unless_ran (l, true) again = (l, true)
  unless_ran (l, false) again = again l

  -- The inner loop of DoTask, on what the work queue holds.
  unfoldable pub do_work : List Pending → Loop → Loop × Bool
  do_work [] l = (record l { work = [] }, false)
  do_work (p ∷ rest) l = elim (is_delay p) [
    | true ↦ do_work rest (add_to_delay_queue p (record l { work = rest }))
    | false ↦ unless_ran (run_one_task p (record l { work = rest })) (do_work rest)
  ]

  abbrev pub unless_done : Loop × Bool → (Loop → Option (Loop × Bool)) → Option (Loop × Bool)
  unless_done (l, true) again = some (l, true)
  unless_done (l, false) again = again l

  abbrev pub turn : List Pending → Loop → (Loop → Option (Loop × Bool)) → Option (Loop × Bool)
  turn [] ready again = some (ready, false)
  turn (p ∷ ps) ready again = unless_done (do_work (p ∷ ps) ready) again

  -- DoTask, and what it returns. `arrivals` is what other threads push before each InjectWorkQueue;
  -- `none` is that the loop goes on longer than this list says.
  unfoldable pub do_task : List (List Pending) → Loop → Option (Loop × Bool)
  do_task [] l = none
  do_task (new ∷ later) l =
      let ready : Loop = inject_work_queue (push_all new l) in turn ready.work ready (do_task later)

  abbrev pub run_front : List Pending → Loop → Loop × Bool
  run_front [] l = (l, false)
  run_front (p ∷ _) l = (run p l, true)

  -- DoIdleTask: the task is run and stays in front.
  unfoldable pub do_idle_task : Loop → Loop × Bool
  do_idle_task l = run_front l.idle_tasks l

  abbrev pub delayed_ran : ℕ → Loop × Bool → Delayed
  delayed_ran next (l, did) = record { after = l; next_time = next; did = did }

  abbrev pub top_time : ℕ → Option (Pending × List Pending) → ℕ
  top_time next none = next
  top_time next (some (q, _)) = q.time

  module _ (queue : PriorityQueue) where
    abbrev pub delayed_top : ℕ → ℕ → Loop → Option (Pending × List Pending) → Delayed
    delayed_top now next l none = record { after = l; next_time = next; did = false }
    delayed_top now next l (some (p, rest)) =
        if ltb now p.time
        then record { after = l; next_time = p.time; did = false }
        else delayed_ran (top_time next (queue.pop rest))
            (run_one_task p (record l { delay = rest }))

    -- DoDelayTask, when the clock says `now`.
    unfoldable pub do_delay_task : ℕ → ℕ → Loop → Delayed
    do_delay_task now next l = delayed_top now next l (queue.pop l.delay)
