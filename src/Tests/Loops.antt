-- ===== src/Tests/Loops.antt =====
-- The theorems on message loops at concrete inputs.
use streamcode.Prelude.{
  ℕ, ◌+◌, ◌≤◌, ◌≡◌, refl, Bool, true, false, Option, none, some, List, [], ◌∷◌, ◌++◌, ltb,
  if◌then◌else◌, arith, ltb-cases, inl, inr, not, ◌&&◌, ◌==◌,
}
use streamcode.Loop.{
  Pending, Loop, PriorityQueue, new_loop, push, NotBefore, tally, inject_work_queue, push_all,
  do_work, is_delay, run_one_task, run, call, add_to_delay_queue, do_task, do_delay_task,
  do_idle_task,
}
use streamcode.Loop.Runs.{immediate}
use streamcode.Loop.Order.{
  Reach, here, step, posted, tasks, idled, Reach-IsOrdered, Reach-IsCounted,
}
use streamcode.Loop.Rounds.{Wait, again, until, World, event_round}
use streamcode.Loop.Waits.{Sleeps, event_round-Sleeps}
use streamcode.Loop.Idle.{Reach-starves}

-- The first of the earliest tasks, by a walk through the list.
abbrev shorter : Pending → Pending × List Pending → Pending × List Pending
shorter p (q, rest) = (q, p ∷ rest)

least : Pending → List Pending → Pending × List Pending
least p [] = (p, [])
least p (q ∷ qs) = if ltb q.time p.time then shorter p (least q qs) else shorter q (least p qs)

least-NotBefore :
    (p : Pending) (ps : List Pending) (t : ℕ)
    → t ≡ (least p ps).0.time
    → (t ≤ p.time) × NotBefore t ps
unfolding least
least-NotBefore p [] t e = (omega arith, tt)
least-NotBefore p (q ∷ qs) t e = elim (ltb-cases q.time p.time) [
  | inl (f, h) ↦ let k = least-NotBefore q qs t (rw f at e) in (omega (arith, k.0), (k.0, k.1))
  | inr (f, h) ↦ let k = least-NotBefore p qs t (rw f at e) in (k.0, (omega (arith, k.0), k.1))
]

least-tally :
    (test : Pending → Bool) (p : Pending) (ps : List Pending)
    → (if test (least p ps).0 then 1 else 0) + tally test (least p ps).1 ≡ tally test (p ∷ ps)
unfolding least tally
least-tally test p [] = refl
least-tally test p (q ∷ qs) = elim (ltb-cases q.time p.time) [
  | inl (e, h) ↦ rw e (omega (arith, least-tally test q qs))
  | inr (e, h) ↦ rw e (omega (arith, least-tally test p qs))
]

abbrev pop_first : List Pending → Option (Pending × List Pending)
pop_first [] = none
pop_first (p ∷ ps) = some (least p ps)

pop_first-NotBefore :
    (ps : List Pending) (q : Pending) (rest : List Pending)
    → pop_first ps ≡ some (q, rest)
    → NotBefore q.time ps
pop_first-NotBefore [] q rest e = cc
pop_first-NotBefore (p ∷ ps) q rest e = least-NotBefore p ps q.time (ground (arith, e))

pop_first-tally :
    (ps : List Pending) (q : Pending) (rest : List Pending)
    → pop_first ps ≡ some (q, rest)
    → (test : Pending → Bool) → (if test q then 1 else 0) + tally test rest ≡ tally test ps
pop_first-tally [] q rest e test = cc
pop_first-tally (p ∷ ps) q rest e test = ground (arith, least-tally test p ps, e)

abbrev first_queue : PriorityQueue
first_queue = record {
  pop = pop_first;
  pop-nil = refl;
  pop-some = λ p ps. ((least p ps).0, (least p ps).1, refl);
  pop-earliest = pop_first-NotBefore;
  pop-tally = pop_first-tally;
}

-- A closure 7 posts the closure 8.
abbrev chain : List Pending → ℕ → List Pending
chain before task = if task == 7 then record { task = 8; time = 0; idle = false } ∷ [] else []

abbrev seven : Pending
seven = record { task = 7; time = 0; idle = false }

abbrev late : Pending
late = record { task = 9; time = 50; idle = false }

abbrev sleepy : Pending
sleepy = record { task = 5; time = 0; idle = true }

abbrev lazy : Pending
lazy = record { task = 6; time = 0; idle = true }

abbrev given : Loop
given = push sleepy (push seven (push late new_loop))

abbrev after_task : Loop
after_task = record {
  incoming = record { task = 8; time = 0; idle = false } ∷ [];
  work = sleepy ∷ [];
  delay = late ∷ [];
  idle_tasks = [];
  posted = late ∷ seven ∷ sleepy ∷ record { task = 8; time = 0; idle = false } ∷ [];
  ran = seven ∷ [];
  wakeups = 4;
}

do_task-given : do_task chain ([] ∷ []) given ≡ some (after_task, true)
unfolding do_task inject_work_queue push_all push new_loop do_work is_delay run_one_task run call
    add_to_delay_queue
do_task-given = refl

given-Reach : Reach chain first_queue new_loop after_task
given-Reach =
    step (step (step (step here (posted late)) (posted seven)) (posted sleepy))
      (tasks ([] ∷ []) do_task-given)

Reach-IsOrdered_example :
    immediate after_task.ran ++ (immediate after_task.work ++ immediate after_task.incoming)
    ≡ immediate after_task.posted
Reach-IsOrdered_example = Reach-IsOrdered chain first_queue given-Reach

busy : (p : Pending) → not p.idle ≡ true → p.idle ≡ false
busy p h = ground (arith, h)

Reach-IsCounted_example :
    tally (λ p. not p.idle) after_task.ran
      + tally (λ p. not p.idle) after_task.work
      + tally (λ p. not p.idle) after_task.incoming
      + tally (λ p. not p.idle) after_task.delay
    ≡ tally (λ p. not p.idle) after_task.posted
Reach-IsCounted_example = Reach-IsCounted chain first_queue given-Reach (λ p. not p.idle) busy

abbrev quiet : Loop
quiet = record new_loop { delay = late ∷ []; posted = late ∷ [] }

abbrev world : World
world = record { arrivals = [] ∷ []; polled = false; handled = []; now = 10; now_later = 11 }

event_round-quiet : event_round chain first_queue world quiet ≡ some (quiet, until 50 11)
unfolding event_round do_task do_delay_task do_idle_task least inject_work_queue push_all new_loop
event_round-quiet = refl

event_round-Sleeps_example : Sleeps 10 quiet (until 50 11)
event_round-Sleeps_example = event_round-Sleeps chain first_queue world quiet event_round-quiet

abbrev idle_loop : Loop
idle_loop = record new_loop { idle_tasks = sleepy ∷ lazy ∷ []; posted = sleepy ∷ lazy ∷ [] }

abbrev is_lazy : Pending → Bool
is_lazy q = q.idle && q.task == 6

is_lazy-idle : (q : Pending) → is_lazy q ≡ true → q.idle ≡ true
is_lazy-idle q h = ground (arith, h)

abbrev idle_once : Loop
idle_once = (do_idle_task chain idle_loop).0

Reach-starves_example :
    ((more : List Pending) × (idle_once.idle_tasks ≡ sleepy ∷ more))
    × (tally is_lazy idle_once.ran ≡ tally is_lazy idle_loop.ran)
    × ((w : World) (l' : Loop) (wait : Wait)
        → event_round chain first_queue w idle_once ≡ some (l', wait)
        → wait ≡ again)
unfolding new_loop
Reach-starves_example =
    Reach-starves chain first_queue sleepy (lazy ∷ []) is_lazy refl refl is_lazy-idle
      (step here idled)
