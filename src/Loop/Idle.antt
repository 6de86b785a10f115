-- ===== src/Loop/Idle.antt =====
-- DoIdleTask of base/MessageLoop.cpp leaves the task in front of its queue.
use streamcode.Prelude.{
  ℕ, ◌≡◌, refl, ap, subst, Bool, true, false, Option, none, some, List, [], ◌∷◌, ◌++◌, ltb, ◌||◌,
  arith, Bool-cases, Option-cases, inl, inr,
}
use streamcode.Loop.{
  Pending, Loop, PriorityQueue, Delayed, push, push_all, inject_work_queue, tally, call, run,
  post_sync_task, post_task, add_to_delay_queue, add_to_idle_queue, do_work, do_task, do_delay_task,
  run_front, do_idle_task,
}
use streamcode.Loop.Runs.{
  push_all-eq, tally-append, do_work-keeps, do_task-keeps, run_one_task-idle, run_one_task-runs,
}
use streamcode.Loop.Order.{Step, posted, called, tasks, delayed, idled, Reach, here, step}
use streamcode.Loop.Rounds.{
  Wait, again, until, forever, World, event_round, idle_turn, after_delay, event_turn,
}
use streamcode.Loop.Waits.{Sleeps, event_round-Sleeps}

-- A loop whose idle queue begins with `p`, and that ran `n` tasks that pass the test.
abbrev pub IsStuck : Pending → (Pending → Bool) → ℕ → Loop → Type 0
IsStuck p test n l = ((more : List Pending) × (l.idle_tasks ≡ p ∷ more)) × (tally test l.ran ≡ n)

module _ (posts : List Pending → ℕ → List Pending) (p : Pending) (test : Pending → Bool)
    (others : test p ≡ false) (idlers : (q : Pending) → test q ≡ true → q.idle ≡ true) (n : ℕ) where
  push_all-IsStuck :
      (ps : List Pending) (l : Loop) → IsStuck p test n l → IsStuck p test n (push_all ps l)
  push_all-IsStuck ps l h = rw (push_all-eq ps l) h

  inject-IsStuck : (l : Loop) → IsStuck p test n l → IsStuck p test n (inject_work_queue l)
  unfolding inject_work_queue
  inject-IsStuck l ((more, e), t) = ((more, ground (arith, e)), ground (arith, t))

  run-IsStuck :
      (q : Pending) (l : Loop)
      → test q ≡ false
      → IsStuck p test n l
      → IsStuck p test n (run posts q l)
  unfolding run call tally
  run-IsStuck q l f ((more, e), t) =
      push_all-IsStuck (posts (l.ran ++ (q ∷ [])) q.task) (record l { ran = l.ran ++ (q ∷ []) })
        ((more, e), ground (arith, tally-append test l.ran (q ∷ []), t))

  add-IsStuck :
      (q : Pending) (l : Loop) → IsStuck p test n l → IsStuck p test n (add_to_idle_queue q l)
  unfolding add_to_idle_queue
  add-IsStuck q l ((more, e), t) = ((more ++ (q ∷ []), ap (λ ps. ps ++ (q ∷ [])) e), t)

  do_work-IsStuck :
      (ps : List Pending) (l : Loop)
      → l.work ≡ ps
      → IsStuck p test n l
      → IsStuck p test n (do_work posts ps l).0
  unfolding add_to_delay_queue
  do_work-IsStuck ps l e h =
      do_work-keeps posts (λ ps l. IsStuck p test n l) (λ r. IsStuck p test n r.0) (λ l k. k)
        (λ q ps l d k. k) (λ q ps l i k. add-IsStuck q (record l { work = ps }) k)
        (λ q ps l d i k. run-IsStuck q (record l { work = ps }) (ground (arith, idlers q)) k) ps l h

  delayed-IsStuck :
      (queue : PriorityQueue) (now due : ℕ) (l : Loop)
      → IsStuck p test n l
      → IsStuck p test n (do_delay_task posts queue now due l).after
  unfolding do_delay_task
  delayed-IsStuck queue now due l h = elim (Option-cases (queue.pop l.delay)) [
    | inl e ↦ rw e h
    | inr ((q, rest), e) ↦ rw e (elim (Bool-cases (ltb now q.time)) [
      | inl w ↦ rw w h
      | inr w ↦ rw w (elim (Bool-cases q.idle) [
        | inl i ↦
            rw (run_one_task-idle posts q (record l { delay = rest }) i)
              (add-IsStuck q (record l { delay = rest }) h)
        | inr i ↦
            rw (run_one_task-runs posts q (record l { delay = rest }) i)
              (run-IsStuck q (record l { delay = rest }) (ground (arith, idlers q)) h)
      ])
    ])
  ]

  front-IsStuck :
      (ps : List Pending) (l : Loop)
      → l.idle_tasks ≡ ps
      → IsStuck p test n l
      → IsStuck p test n (run_front posts ps l).0
  front-IsStuck [] l e h = h
  front-IsStuck (q ∷ ps) l e ((more, f), t) =
      run-IsStuck q l (ground (arith, e, f, others)) ((more, f), t)

  called-IsStuck :
      (same : Bool) (task : ℕ) (l : Loop)
      → IsStuck p test n l
      → IsStuck p test n (post_sync_task posts same task l)
  unfolding post_sync_task post_task call push
  called-IsStuck true task l h = push_all-IsStuck (posts l.ran task) l h
  called-IsStuck false task l h = h

  Step-IsStuck :
      {queue : PriorityQueue} {l m : Loop}
      → Step posts queue l m
      → IsStuck p test n l
      → IsStuck p test n m
  unfolding do_idle_task push
  Step-IsStuck (posted q) h = h
  Step-IsStuck (called same task) h = called-IsStuck same task _ h
  Step-IsStuck (tasks arrivals e) h =
      do_task-keeps posts (IsStuck p test n) push_all-IsStuck inject-IsStuck do_work-IsStuck
        arrivals _ h e
  Step-IsStuck {queue = queue} (delayed now due) h = delayed-IsStuck queue now due _ h
  Step-IsStuck {l = l} idled h = front-IsStuck l.idle_tasks l refl h

  idle_turn-IsStuck :
      (queue : PriorityQueue) (due later : ℕ) (r : Loop × Bool)
      → IsStuck p test n r.0
      → IsStuck p test n (idle_turn posts queue due later r).0
  idle_turn-IsStuck queue due later (l, true) h = h
  idle_turn-IsStuck queue due later (l, false) h = elim (Bool-cases (ltb 0 due)) [
    | inl e ↦ rw e h
    | inr e ↦ rw e h
  ]

  after_delay-IsStuck :
      (queue : PriorityQueue) (later : ℕ) (did : Bool) (d : Delayed)
      → IsStuck p test n d.after
      → IsStuck p test n (after_delay posts queue later did d).0
  unfolding do_idle_task
  after_delay-IsStuck queue later did d h = elim (Bool-cases (did || d.did)) [
    | inl e ↦ rw e h
    | inr e ↦ rw e (
        idle_turn-IsStuck queue d.next_time later (do_idle_task posts d.after)
          (front-IsStuck d.after.idle_tasks d.after refl h))
  ]

  abbrev StillStuck : Option (Loop × Wait) → Type 0
  StillStuck none = Unit
  StillStuck (some (l, wait)) = IsStuck p test n l

  event_turn-IsStuck :
      (queue : PriorityQueue) (w : World) (r : Option (Loop × Bool))
      → ((l : Loop) (did : Bool) → r ≡ some (l, did) → IsStuck p test n l)
      → StillStuck (event_turn posts queue w r)
  event_turn-IsStuck queue w none h = tt
  event_turn-IsStuck queue w (some (l, did)) h =
      after_delay-IsStuck queue w.now_later (did || w.polled)
        (do_delay_task posts queue w.now 0 (push_all w.handled l))
        (delayed-IsStuck queue w.now 0 (push_all w.handled l)
          (push_all-IsStuck w.handled l (h l did refl)))

  pub event_round-IsStuck :
      (queue : PriorityQueue) (w : World) (l l' : Loop) (wait : Wait)
      → IsStuck p test n l
      → event_round posts queue w l ≡ some (l', wait)
      → IsStuck p test n l'
  unfolding event_round
  event_round-IsStuck queue w l l' wait h e = subst StillStuck e (
      event_turn-IsStuck queue w (do_task posts w.arrivals l) (λ k did f.
        do_task-keeps posts (IsStuck p test n) push_all-IsStuck inject-IsStuck do_work-IsStuck
          w.arrivals l h f))

  pub Reach-IsStuck :
      {queue : PriorityQueue} {l m : Loop}
      → Reach posts queue l m
      → IsStuck p test n l
      → IsStuck p test n m
  Reach-IsStuck here h = h
  Reach-IsStuck (step r s) h = Step-IsStuck s (Reach-IsStuck r h)

-- A wait would need an empty idle queue.
Sleeps-again :
    (p : Pending) (more : List Pending) (now : ℕ) (l : Loop) (wait : Wait)
    → l.idle_tasks ≡ p ∷ more
    → Sleeps now l wait
    → wait ≡ again
Sleeps-again p more now l again e h = refl
Sleeps-again p more now l (until t later) e h = cc
Sleeps-again p more now l forever e h = cc

-- Once an idle task stands in front of its queue, then whatever is posted and however the loop goes
-- on, it stays there, no idle task that differs from it (that passes a test which it fails) runs, and
-- no round of EventMessageLoop::RunLoop waits again.
pub Reach-starves :
    (posts : List Pending → ℕ → List Pending) (queue : PriorityQueue) (p : Pending)
    (rest : List Pending) (test : Pending → Bool) {l m : Loop}
    → l.idle_tasks ≡ p ∷ rest
    → test p ≡ false
    → ((q : Pending) → test q ≡ true → q.idle ≡ true)
    → Reach posts queue l m
    → ((more : List Pending) × (m.idle_tasks ≡ p ∷ more))
      × (tally test m.ran ≡ tally test l.ran)
      × ((w : World) (l' : Loop) (wait : Wait)
          → event_round posts queue w m ≡ some (l', wait)
          → wait ≡ again)
Reach-starves posts queue p rest test {l} {m} e others idlers r =
    let stuck = Reach-IsStuck posts p test others idlers (tally test l.ran) r ((rest, e), refl) in
    (
      stuck.0,
      stuck.1,
      λ w l' wait f.
          let k =
            event_round-IsStuck posts p test others idlers (tally test l.ran) queue w m l' wait
              stuck f in
          Sleeps-again p k.0.0 w.now l' wait k.0.1 (event_round-Sleeps posts queue w m f),
    )
