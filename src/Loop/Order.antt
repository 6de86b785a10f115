-- ===== src/Loop/Order.antt =====
-- What the loop of base/MessageLoop.cpp runs, over any run of its operations.
use streamcode.Prelude.{
  ℕ, ◌+◌, ◌≡◌, refl, Bool, true, false, some, List, [], ◌∷◌, ◌++◌, ltb, not, if◌then◌else◌, arith,
  append_assoc, append-nil, Bool-cases, Option-cases, inl, inr,
}
use streamcode.Loop.{
  Pending, Loop, PriorityQueue, new_loop, is_delay, push, push_all, inject_work_queue, tally, call,
  post_sync_task, run, run_one_task, add_to_delay_queue, add_to_idle_queue, do_work, do_task,
  do_delay_task, run_front, do_idle_task, post_task,
}
use streamcode.Loop.Runs.{
  push_all-eq, immediate-append, run_one_task-idle, run_one_task-runs, immediate, IsOrdered,
  IsCounted, tally-append, push_all-IsOrdered, push_all-IsCounted, inject-IsOrdered,
  inject-IsCounted, skip-immediate, take-immediate, one-immediate, none-immediate, do_work-keeps,
  do_task-keeps,
}

-- The steps of a loop: other threads and callbacks post, and its own thread does its rounds.
module _ (posts : List Pending → ℕ → List Pending) (queue : PriorityQueue) where
  pub data Step (l : Loop) : Loop → Type 0 where
    posted : (p : Pending) → Step l (push p l)
    called : (same : Bool) (task : ℕ) → Step l (post_sync_task posts same task l)
    tasks :
        (arrivals : List (List Pending)) {l' : Loop} {did : Bool}
        → do_task posts arrivals l ≡ some (l', did)
        → Step l l'
    delayed : (now next : ℕ) → Step l (do_delay_task posts queue now next l).after
    idled : Step l (do_idle_task posts l).0

  pub data Reach (s : Loop) : Loop → Type 0 where
    here : Reach s s
    step : {l m : Loop} → Reach s l → Step l m → Reach s m

abbrev soon : Pending → Bool
soon p = not (is_delay p)

abbrev wanted : Pending → Bool
wanted p = not p.idle

-- What every reachable loop satisfies; `IsCounted` is about any test that idle tasks fail.
pub record IsSound (test : Pending → Bool) (l : Loop) : Type 0 where
  pub ordered : IsOrdered l
  pub counted : IsCounted test l
  pub late : tally soon l.delay ≡ 0
  pub idles : tally wanted l.idle_tasks ≡ 0

module _ (posts : List Pending → ℕ → List Pending) (test : Pending → Bool)
    (busy : (p : Pending) → test p ≡ true → p.idle ≡ false) where
  idle-fails : (p : Pending) → p.idle ≡ true → test p ≡ false
  idle-fails p i = ground (arith, busy p)

  pub push_all-IsSound :
      (ps : List Pending) (l : Loop) → IsSound test l → IsSound test (push_all ps l)
  push_all-IsSound ps l h = record {
    ordered = push_all-IsOrdered ps l h.ordered;
    counted = push_all-IsCounted test ps l h.counted;
    late = rw (push_all-eq ps l) h.late;
    idles = rw (push_all-eq ps l) h.idles;
  }

  inject-IsSound : (l : Loop) → IsSound test l → IsSound test (inject_work_queue l)
  unfolding inject_work_queue
  inject-IsSound l h = record {
    ordered = inject-IsOrdered l h.ordered;
    counted = inject-IsCounted test l h.counted;
    late = ground (arith, h.late);
    idles = ground (arith, h.idles);
  }

  run-IsSound :
      (p : Pending) (l : Loop)
      → IsSound test (record l { ran = l.ran ++ (p ∷ []) })
      → IsSound test (run posts p l)
  unfolding run call
  run-IsSound p l h =
      push_all-IsSound (posts (l.ran ++ (p ∷ [])) p.task) (record l { ran = l.ran ++ (p ∷ []) }) h

  soon-fails : (p : Pending) → is_delay p ≡ true → tally soon (p ∷ []) ≡ 0
  unfolding tally
  soon-fails p d = rw d

  wanted-fails : (p : Pending) → p.idle ≡ true → tally wanted (p ∷ []) ≡ 0
  unfolding tally
  wanted-fails p i = rw i

  do_work-IsSound :
      (ps : List Pending) (l : Loop)
      → l.work ≡ ps
      → IsSound test l
      → IsSound test (do_work posts ps l).0
  unfolding tally add_to_delay_queue add_to_idle_queue
  do_work-IsSound ps l e h =
      do_work-keeps posts (λ ps l. IsSound test (record l { work = ps })) (λ r. IsSound test r.0)
        (λ l k. k)
        (λ p ps l d k. record {
          ordered = rw (← skip-immediate p ps (ground arith)) k.ordered;
          counted = omega (arith, tally-append test l.delay (p ∷ []), k.counted);
          late = omega (arith, tally-append soon l.delay (p ∷ []), soon-fails p d, k.late);
          idles = k.idles;
        })
        (λ p ps l i k. record {
          ordered = rw (← skip-immediate p ps (ground arith)) k.ordered;
          counted = ground (arith, idle-fails p i, k.counted);
          late = k.late;
          idles =
              omega (arith, tally-append wanted l.idle_tasks (p ∷ []), wanted-fails p i, k.idles);
        })
        (λ p ps l d i k.
          run-IsSound p (record l { work = ps })
            (record {
              ordered =
                  rw (immediate-append l.ran (p ∷ []), one-immediate p i d, append_assoc)
                    (rw (take-immediate p ps i d) at k.ordered);
              counted = omega (arith, tally-append test l.ran (p ∷ []), k.counted);
              late = k.late;
              idles = k.idles;
            }))
        ps l (rw (← e) h)

  -- The loop when the top of the delay queue is taken off and run.
  due-IsSound :
      (p : Pending) (rest : List Pending) (l : Loop)
      → is_delay p ≡ true
      → ((test : Pending → Bool) → (if test p then 1 else 0) + tally test rest ≡ tally test l.delay)
      → IsSound test l
      → IsSound test (run_one_task posts p (record l { delay = rest })).0
  unfolding tally add_to_idle_queue
  due-IsSound p rest l d same h = elim (Bool-cases p.idle) [
    | inl i ↦ rw (run_one_task-idle posts p (record l { delay = rest }) i) (record {
      ordered = h.ordered;
      counted = ground (arith, idle-fails p i, h.counted, same test);
      late = omega (arith, same soon, h.late);
      idles = omega (arith, tally-append wanted l.idle_tasks (p ∷ []), wanted-fails p i, h.idles);
    })
    | inr i ↦ rw (run_one_task-runs posts p (record l { delay = rest }) i) (
        run-IsSound p (record l { delay = rest })
          (record {
            ordered =
                rw (immediate-append l.ran (p ∷ []), none-immediate p (ground arith), append-nil)
                  h.ordered;
            counted = omega (arith, tally-append test l.ran (p ∷ []), h.counted, same test);
            late = omega (arith, same soon, h.late);
            idles = h.idles;
          }))
  ]

  late_top :
      (p : Pending) (rest : List Pending) (l : Loop)
      → IsSound test l
      → ((test : Pending → Bool) → (if test p then 1 else 0) + tally test rest ≡ tally test l.delay)
      → is_delay p ≡ true
  late_top p rest l h same = ground (arith, same soon, h.late)

  delayed-IsSound :
      (queue : PriorityQueue) (now next : ℕ) (l : Loop)
      → IsSound test l
      → IsSound test (do_delay_task posts queue now next l).after
  unfolding do_delay_task
  delayed-IsSound queue now next l h = elim (Option-cases (queue.pop l.delay)) [
    | inl e ↦ rw e h
    | inr ((p, rest), e) ↦ rw e (elim (Bool-cases (ltb now p.time)) [
      | inl w ↦ rw w h
      | inr w ↦ rw w (
          due-IsSound p rest l (late_top p rest l h (queue.pop-tally l.delay p rest e))
            (queue.pop-tally l.delay p rest e) h)
    ])
  ]

  front-IsSound :
      (ps : List Pending) (l : Loop)
      → tally wanted ps ≡ 0
      → IsSound test l
      → IsSound test (run_front posts ps l).0
  unfolding tally
  front-IsSound [] l w h = h
  front-IsSound (p ∷ ps) l w h = run-IsSound p l (record {
    ordered =
        rw (immediate-append l.ran (p ∷ []), none-immediate p (ground arith), append-nil) h.ordered;
    counted =
        ground (arith, idle-fails p (ground arith), tally-append test l.ran (p ∷ []), h.counted);
    late = h.late;
    idles = h.idles;
  })

  idled-IsSound : (l : Loop) → IsSound test l → IsSound test (do_idle_task posts l).0
  unfolding do_idle_task
  idled-IsSound l h = front-IsSound l.idle_tasks l h.idles h

  pub do_task-IsSound :
      (arrivals : List (List Pending)) (l : Loop)
      → IsSound test l
      → {l' : Loop} {did : Bool} → do_task posts arrivals l ≡ some (l', did)
      → IsSound test l'
  do_task-IsSound =
      do_task-keeps posts (IsSound test) push_all-IsSound inject-IsSound do_work-IsSound

  push-IsSound : (p : Pending) (l : Loop) → IsSound test l → IsSound test (push p l)
  unfolding push_all
  push-IsSound p l h = push_all-IsSound (p ∷ []) l h

  called-IsSound :
      (same : Bool) (task : ℕ) (l : Loop)
      → IsSound test l
      → IsSound test (post_sync_task posts same task l)
  unfolding post_sync_task post_task call
  called-IsSound true task l h = push_all-IsSound (posts l.ran task) l h
  called-IsSound false task l h = push-IsSound (record { task = task; time = 0; idle = false }) l h

  pub Step-IsSound :
      {queue : PriorityQueue} {l m : Loop} → Step posts queue l m → IsSound test l → IsSound test m
  Step-IsSound (posted p) h = push-IsSound p _ h
  Step-IsSound (called same task) h = called-IsSound same task _ h
  Step-IsSound (tasks arrivals e) h = do_task-IsSound arrivals _ h e
  Step-IsSound {queue = queue} (delayed now due) h = delayed-IsSound queue now due _ h
  Step-IsSound idled h = idled-IsSound _ h

  pub Reach-IsSound :
      {queue : PriorityQueue} {s l : Loop} → Reach posts queue s l → IsSound test s → IsSound test l
  Reach-IsSound here h = h
  Reach-IsSound (step r t) h = Step-IsSound t (Reach-IsSound r h)

new_loop-IsSound : (test : Pending → Bool) → IsSound test new_loop
unfolding new_loop immediate tally
new_loop-IsSound test = record { ordered = refl; counted = refl; late = refl; idles = refl }

module _ (posts : List Pending → ℕ → List Pending) (queue : PriorityQueue) {l : Loop}
    (r : Reach posts queue new_loop l) where
  -- In any run of a loop, with posts by other threads in between, the tasks that are neither delayed
  -- nor idle ran in the order in which they were posted: what ran of them, and behind it what the
  -- work queue and the incoming queue hold, is what was posted of them.
  pub Reach-IsOrdered :
      immediate l.ran ++ (immediate l.work ++ immediate l.incoming) ≡ immediate l.posted
  Reach-IsOrdered =
      (Reach-IsSound posts (λ p. false) (λ p h. cc) r (new_loop-IsSound (λ p. false))).ordered

  -- In any run of a loop, with posts by other threads in between, of the tasks that pass a test that
  -- idle tasks fail, as many were posted as ran and wait in the incoming, the work and the delay
  -- queue: none is lost and none runs twice.
  pub Reach-IsCounted :
      (test : Pending → Bool)
      → ((p : Pending) → test p ≡ true → p.idle ≡ false)
      → tally test l.ran + tally test l.work + tally test l.incoming + tally test l.delay
        ≡ tally test l.posted
  Reach-IsCounted test busy = (Reach-IsSound posts test busy r (new_loop-IsSound test)).counted
