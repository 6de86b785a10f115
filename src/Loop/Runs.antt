-- ===== src/Loop/Runs.antt =====
-- What the loop of base/MessageLoop.cpp runs, over any run of its operations.
use streamcode.Prelude.{
  ℕ, ◌+◌, ◌≡◌, refl, sym, subst, Bool, true, false, Option, none, some, List, [], ◌∷◌, ◌++◌, not,
  ◌&&◌, if◌then◌else◌, arith, append_assoc, append-nil, Bool-cases, length, inl, inr,
}
use streamcode.Loop.{
  Pending, Loop, is_delay, push, push_all, inject_work_queue, tally, run, run_one_task,
  add_to_delay_queue, add_to_idle_queue, do_work, unless_done, turn, do_task,
}

pub push_all-eq :
    (ps : List Pending) (l : Loop)
    → push_all ps l ≡ record l {
      incoming = l.incoming ++ ps;
      posted = l.posted ++ ps;
      wakeups = l.wakeups + length ps;
    }
unfolding push_all push
push_all-eq [] l = ground (arith, append-nil l.incoming, append-nil l.posted)
push_all-eq (p ∷ ps) l = ground (
  arith,
  push_all-eq ps (push p l),
  append_assoc l.incoming (p ∷ []) ps,
  append_assoc l.posted (p ∷ []) ps,
)

-- The tasks of a list that are neither delayed nor idle.
unfoldable pub immediate : List Pending → List Pending
immediate [] = []
immediate (p ∷ ps) = if not p.idle && not (is_delay p) then p ∷ immediate ps else immediate ps

pub immediate-append : (xs ys : List Pending) → immediate (xs ++ ys) ≡ immediate xs ++ immediate ys
unfolding immediate
immediate-append [] ys = refl
immediate-append (p ∷ ps) ys = ground (arith, immediate-append ps ys)

pub tally-append :
    (test : Pending → Bool) (xs ys : List Pending)
    → tally test (xs ++ ys) ≡ tally test xs + tally test ys
unfolding tally
tally-append test [] ys = omega arith
tally-append test (p ∷ ps) ys = omega (arith, tally-append test ps ys)

-- The immediate tasks that ran, in their order, and behind them those that wait, are those posted.
abbrev pub IsOrdered : Loop → Type 0
IsOrdered l = immediate l.ran ++ (immediate l.work ++ immediate l.incoming) ≡ immediate l.posted

-- Every posted task that passes the test ran once or waits once.
abbrev pub IsCounted : (Pending → Bool) → Loop → Type 0
IsCounted test l =
    tally test l.ran + tally test l.work + tally test l.incoming + tally test l.delay
    ≡ tally test l.posted

pub push_all-IsOrdered : (ps : List Pending) (l : Loop) → IsOrdered l → IsOrdered (push_all ps l)
push_all-IsOrdered ps l h = rw (
  push_all-eq ps l,
  immediate-append l.incoming ps,
  immediate-append l.posted ps,
  ← h,
  append_assoc,
  append_assoc,
)

pub push_all-IsCounted :
    (test : Pending → Bool) (ps : List Pending) (l : Loop)
    → IsCounted test l
    → IsCounted test (push_all ps l)
push_all-IsCounted test ps l h =
    rw (push_all-eq ps l)
      (omega (arith, tally-append test l.incoming ps, tally-append test l.posted ps))

pub inject-IsOrdered : (l : Loop) → IsOrdered l → IsOrdered (inject_work_queue l)
unfolding inject_work_queue immediate
inject-IsOrdered l h = ground (arith, append-nil (immediate l.incoming))

pub inject-IsCounted :
    (test : Pending → Bool) (l : Loop) → IsCounted test l → IsCounted test (inject_work_queue l)
unfolding inject_work_queue tally
inject-IsCounted test l h = ground arith

pub skip-immediate :
    (p : Pending) (ps : List Pending)
    → not p.idle && not (is_delay p) ≡ false
    → immediate (p ∷ ps) ≡ immediate ps
unfolding immediate
skip-immediate p ps h = rw h

pub take-immediate :
    (p : Pending) (ps : List Pending)
    → p.idle ≡ false
    → is_delay p ≡ false
    → immediate (p ∷ ps) ≡ p ∷ immediate ps
unfolding immediate
take-immediate p ps h k = ground (arith)

pub none-immediate :
    (p : Pending) → not p.idle && not (is_delay p) ≡ false → immediate (p ∷ []) ≡ []
unfolding immediate
none-immediate p h = rw h

pub one-immediate :
    (p : Pending) → p.idle ≡ false → is_delay p ≡ false → immediate (p ∷ []) ≡ p ∷ []
unfolding immediate
one-immediate p h k = ground arith

module _ (posts : List Pending → ℕ → List Pending) (p : Pending) where
  pub run_one_task-idle :
      (l : Loop) → p.idle ≡ true → run_one_task posts p l ≡ (add_to_idle_queue p l, false)
  unfolding run_one_task
  run_one_task-idle l i = rw i

  pub run_one_task-runs :
      (l : Loop) → p.idle ≡ false → run_one_task posts p l ≡ (run posts p l, true)
  unfolding run_one_task
  run_one_task-runs l i = rw i

  do_work-delayed :
      (ps : List Pending) (l : Loop)
      → is_delay p ≡ true
      → do_work posts (p ∷ ps) l ≡ do_work posts ps (add_to_delay_queue p (record l { work = ps }))
  unfolding do_work
  do_work-delayed ps l d = ground arith

  do_work-idle :
      (ps : List Pending) (l : Loop)
      → is_delay p ≡ false
      → p.idle ≡ true
      → do_work posts (p ∷ ps) l ≡ do_work posts ps (add_to_idle_queue p (record l { work = ps }))
  unfolding do_work run_one_task
  do_work-idle ps l d i = ground arith

  do_work-runs :
      (ps : List Pending) (l : Loop)
      → is_delay p ≡ false
      → p.idle ≡ false
      → do_work posts (p ∷ ps) l ≡ (run posts p (record l { work = ps }), true)
  unfolding do_work run_one_task
  do_work-runs ps l d i = ground arith

-- A property that holds after a run of the inner loop of DoTask.
pub do_work-keeps {κ} :
    (posts : List Pending → ℕ → List Pending) (P : List Pending → Loop → Type κ)
    (Q : Loop × Bool → Type κ)
    → ((l : Loop) → P [] l → Q (record l { work = [] }, false))
    → ((p : Pending) (ps : List Pending) (l : Loop)
        → is_delay p ≡ true
        → P (p ∷ ps) l
        → P ps (add_to_delay_queue p (record l { work = ps })))
    → ((p : Pending) (ps : List Pending) (l : Loop)
        → p.idle ≡ true
        → P (p ∷ ps) l
        → P ps (add_to_idle_queue p (record l { work = ps })))
    → ((p : Pending) (ps : List Pending) (l : Loop)
        → is_delay p ≡ false
        → p.idle ≡ false
        → P (p ∷ ps) l
        → Q (run posts p (record l { work = ps }), true))
    → (ps : List Pending) (l : Loop) → P ps l
    → Q (do_work posts ps l)
unfolding do_work
do_work-keeps posts P Q done later idle runs [] l h = done l h
do_work-keeps posts P Q done later idle runs (p ∷ ps) l h = elim (Bool-cases (is_delay p)) [
  | inl d ↦
      subst Q (sym (do_work-delayed posts p ps l d))
        (do_work-keeps posts P Q done later idle runs ps _ (later p ps l d h))
  | inr d ↦ elim (Bool-cases p.idle) [
    | inl i ↦
        subst Q (sym (do_work-idle posts p ps l d i))
          (do_work-keeps posts P Q done later idle runs ps _ (idle p ps l i h))
    | inr i ↦ subst Q (sym (do_work-runs posts p ps l d i)) (runs p ps l d i h)
  ]
]

abbrev Holds {κ} : (Loop → Type κ) → Option (Loop × Bool) → Type κ
Holds P none = Unit
Holds P (some (l, did)) = P l

-- A property of the whole loop that DoTask keeps.
module _ {κ} (posts : List Pending → ℕ → List Pending) (P : Loop → Type κ)
    (pushes : (ps : List Pending) (l : Loop) → P l → P (push_all ps l))
    (injects : (l : Loop) → P l → P (inject_work_queue l))
    (works : (ps : List Pending) (l : Loop) → l.work ≡ ps → P l → P (do_work posts ps l).0) where
  unless_done-Holds :
      (r : Loop × Bool) (again : Loop → Option (Loop × Bool))
      → P r.0
      → ((l : Loop) → P l → Holds P (again l))
      → Holds P (unless_done posts r again)
  unless_done-Holds (l, true) again h k = h
  unless_done-Holds (l, false) again h k = k l h

  turn-Holds :
      (ps : List Pending) (l : Loop) (again : Loop → Option (Loop × Bool))
      → l.work ≡ ps
      → P l
      → ((l : Loop) → P l → Holds P (again l))
      → Holds P (turn posts ps l again)
  turn-Holds [] l again e h k = h
  turn-Holds (p ∷ ps) l again e h k =
      unless_done-Holds (do_work posts (p ∷ ps) l) again (works (p ∷ ps) l e h) k

  do_task-Holds :
      (arrivals : List (List Pending)) (l : Loop) → P l → Holds P (do_task posts arrivals l)
  unfolding do_task
  do_task-Holds [] l h = tt
  do_task-Holds (new ∷ later) l h =
      turn-Holds (inject_work_queue (push_all new l)).work (inject_work_queue (push_all new l))
        (do_task posts later) refl (injects _ (pushes new l h)) (do_task-Holds later)

  pub do_task-keeps :
      (arrivals : List (List Pending)) (l : Loop)
      → P l
      → {l' : Loop} {did : Bool} → do_task posts arrivals l ≡ some (l', did)
      → P l'
  do_task-keeps arrivals l h e = subst (Holds P) e (do_task-Holds arrivals l h)
