-- ===== src/Loop/Waits.antt =====
-- When the loops of base/EventMessageLoop.cpp and base/DefaultMessageLoop.cpp wait.
use streamcode.Prelude.{
  ℕ, ◌<◌, ◌≡◌, ◌⊎◌, refl, subst, Bool, true, false, Option, none, some, List, [], ◌∷◌, ◌++◌, ltb,
  arith, Bool-cases, Option-cases, inl, inr, lt→ltb, ltb→lt,
}
use streamcode.Loop.{
  Pending, Loop, PriorityQueue, push_all, inject_work_queue, NotBefore, add_to_idle_queue, do_work,
  unless_done, turn, do_task, do_delay_task, run_front, top_time, do_idle_task,
}
use streamcode.Loop.Runs.{push_all-eq, run_one_task-idle, run_one_task-runs}
use streamcode.Loop.Rounds.{
  Wait, again, until, forever, World, idle_turn, after_delay, event_turn, event_round, default_turn,
  default_round,
}

-- Nothing can run before the end of the wait.
abbrev pub Sleeps : ℕ → Loop → Wait → Type 0
Sleeps now l again = Unit {0}
Sleeps now l (until t later) = (l.work ≡ []) × (l.idle_tasks ≡ []) × (now < t) × NotBefore t l.delay
Sleeps now l forever = (l.work ≡ []) × (l.idle_tasks ≡ []) × (l.delay ≡ [])

-- A result `false` of DoTask leaves the work queue empty.
abbrev Emptied : Option (Loop × Bool) → Type 0
Emptied none = Unit
Emptied (some (l, true)) = Unit
Emptied (some (l, false)) = l.work ≡ []

module _ (posts : List Pending → ℕ → List Pending) (queue : PriorityQueue) where
  turn-Emptied :
      (ps : List Pending) (l : Loop) (more : Loop → Option (Loop × Bool))
      → l.work ≡ ps
      → ((l : Loop) → Emptied (more l))
      → Emptied (turn posts ps l more)
  turn-Emptied [] l more e h = e
  turn-Emptied (p ∷ ps) l more e h = done (do_work posts (p ∷ ps) l)
    where
      done : (r : Loop × Bool) → Emptied (unless_done posts r more)
      done (l, true) = tt
      done (l, false) = h l

  do_task-Emptied : (arrivals : List (List Pending)) (l : Loop) → Emptied (do_task posts arrivals l)
  unfolding do_task
  do_task-Emptied [] l = tt
  do_task-Emptied (new ∷ later) l =
      turn-Emptied (inject_work_queue (push_all new l)).work (inject_work_queue (push_all new l))
        (do_task posts later) refl (do_task-Emptied later)

  -- The last part of a round, when nothing is due.
  front-Sleeps :
      (now later next : ℕ) (ps : List Pending) (l : Loop)
      → l.work ≡ []
      → l.idle_tasks ≡ ps
      → (next ≡ 0) × (l.delay ≡ []) ⊎ (now < next) × NotBefore next l.delay
      → let r : Loop × Wait = idle_turn posts queue next later (run_front posts ps l) in
        Sleeps now r.0 r.1
  front-Sleeps now later next (p ∷ ps) l w i d = tt
  front-Sleeps now later next [] l w i (inl (e, f)) = rw e (w, i, f)
  front-Sleeps now later next [] l w i (inr (e, f)) = rw (lt→ltb 0 next (omega arith)) (w, i, e, f)

  quiet-Sleeps :
      (now later next : ℕ) (l : Loop)
      → l.work ≡ []
      → (next ≡ 0) × (l.delay ≡ []) ⊎ (now < next) × NotBefore next l.delay
      → let r : Loop × Wait = idle_turn posts queue next later (do_idle_task posts l) in
        Sleeps now r.0 r.1
  unfolding do_idle_task
  quiet-Sleeps now later next l w d = front-Sleeps now later next l.idle_tasks l w refl d

  busy-Sleeps :
      (now later next : ℕ) (ps : List Pending) (p : Pending) (l : Loop)
      → let r : Loop × Wait =
          idle_turn posts queue next later (run_front posts (ps ++ (p ∷ [])) l) in
        Sleeps now r.0 r.1
  busy-Sleeps now later next [] p l = tt
  busy-Sleeps now later next (q ∷ ps) p l = tt

  pop-none : (ps : List Pending) → queue.pop ps ≡ none → ps ≡ []
  pop-none [] e = refl
  pop-none (p ∷ ps) e = let (q, rest, f) = queue.pop-some p ps in cc

  delay-Sleeps :
      (now later : ℕ) (did : Bool) (l : Loop)
      → (did ≡ false → l.work ≡ [])
      → let r : Loop × Wait =
          after_delay posts queue later did (do_delay_task posts queue now 0 l) in
        Sleeps now r.0 r.1
  unfolding do_delay_task do_idle_task add_to_idle_queue
  delay-Sleeps now later true l w = tt
  delay-Sleeps now later false l w = elim (Option-cases (queue.pop l.delay)) [
    | inl e ↦ rw e (quiet-Sleeps now later 0 l (w refl) (inl (refl, pop-none l.delay e)))
    | inr ((p, rest), e) ↦ rw e (elim (Bool-cases (ltb now p.time)) [
      | inl early ↦ rw early (
          quiet-Sleeps now later p.time l (w refl)
            (inr (ltb→lt now p.time early, queue.pop-earliest l.delay p rest e)))
      | inr due ↦ rw due (elim (Bool-cases p.idle) [
        | inl i ↦ rw (run_one_task-idle posts p (record l { delay = rest }) i) (
            busy-Sleeps now later (top_time posts 0 (queue.pop rest)) l.idle_tasks p
              (add_to_idle_queue p (record l { delay = rest })))
        | inr i ↦ rw (run_one_task-runs posts p (record l { delay = rest }) i) tt
      ])
    ])
  ]

  abbrev Slept : ℕ → Option (Loop × Wait) → Type 0
  Slept now none = Unit
  Slept now (some (l, wait)) = Sleeps now l wait

  event-Slept :
      (w : World) (r : Option (Loop × Bool)) → Emptied r → Slept w.now (event_turn posts queue w r)
  event-Slept w none h = tt
  event-Slept w (some (l, true)) h =
      delay-Sleeps w.now w.now_later true (push_all w.handled l) (λ e. cc)
  event-Slept w (some (l, false)) h =
      delay-Sleeps w.now w.now_later w.polled (push_all w.handled l)
        (λ _. rw (push_all-eq w.handled l) h)

  default-Slept :
      (w : World) (r : Option (Loop × Bool))
      → Emptied r
      → Slept w.now (default_turn posts queue w r)
  default-Slept w none h = tt
  default-Slept w (some (l, true)) h = delay-Sleeps w.now w.now_later true l (λ e. cc)
  default-Slept w (some (l, false)) h = delay-Sleeps w.now w.now_later false l (λ _. h)

  -- A round of EventMessageLoop::RunLoop waits without an end only when no task is left in the work,
  -- the idle and the delay queue, and until a time only when the first two are empty, no delayed task
  -- is due before that time, and the time has not come.
  pub event_round-Sleeps :
      (w : World) (l : Loop) {l' : Loop} {wait : Wait}
      → event_round posts queue w l ≡ some (l', wait)
      → Sleeps w.now l' wait
  unfolding event_round
  event_round-Sleeps w l e =
      subst (Slept w.now) e
        (event-Slept w (do_task posts w.arrivals l) (do_task-Emptied w.arrivals l))

  -- The same of DefaultMessageLoop::RunLoop.
  pub default_round-Sleeps :
      (w : World) (l : Loop) {l' : Loop} {wait : Wait}
      → default_round posts queue w l ≡ some (l', wait)
      → Sleeps w.now l' wait
  unfolding default_round
  default_round-Sleeps w l e =
      subst (Slept w.now) e
        (default-Slept w (do_task posts w.arrivals l) (do_task-Emptied w.arrivals l))
