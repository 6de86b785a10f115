-- ===== src/Loop/Rounds.antt =====
-- One round of the loops of base/EventMessageLoop.cpp and base/DefaultMessageLoop.cpp.
use streamcode.Prelude.{ℕ, Bool, true, false, Option, none, some, List, ltb, ◌||◌, if◌then◌else◌}
use streamcode.Loop.{
  Pending, Loop, Delayed, PriorityQueue, push_all, do_task, do_delay_task, do_idle_task,
}

-- What a round ends with: the next one at once, a wait until a time when the clock says `now`, or a
-- wait for the next event.
pub data Wait : Type 0 where
  again : Wait
  until : (time now : ℕ) → Wait
  forever : Wait

-- What the world does in a round: what other threads push before each injection, whether the poll
-- handled events and what their handlers posted, and the two readings of the clock.
pub record World : Type 0 where
  pub arrivals : List (List Pending)
  pub polled : Bool
  pub handled : List Pending
  pub now : ℕ
  pub now_later : ℕ

module _ (posts : List Pending → ℕ → List Pending) (queue : PriorityQueue) where
  abbrev pub waiting : ℕ → ℕ → Loop → Loop × Wait
  waiting next now l = if ltb 0 next then (l, until next now) else (l, forever)

  abbrev pub idle_turn : ℕ → ℕ → Loop × Bool → Loop × Wait
  idle_turn next now (l, true) = (l, again)
  idle_turn next now (l, false) = waiting next now l

  abbrev pub after_delay : ℕ → Bool → Delayed → Loop × Wait
  after_delay now did d =
      if did || d.did
      then (d.after, again)
      else idle_turn d.next_time now (do_idle_task posts d.after)

  abbrev pub event_turn : World → Option (Loop × Bool) → Option (Loop × Wait)
  event_turn w none = none
  event_turn w (some (l, did)) = some (
      after_delay w.now_later (did || w.polled)
        (do_delay_task posts queue w.now 0 (push_all w.handled l)))

  -- A round of EventMessageLoop::RunLoop. With `until`, it polls for the difference of the two times
  -- if that is positive, and goes round at once if not.
  unfoldable pub event_round : World → Loop → Option (Loop × Wait)
  event_round w l = event_turn w (do_task posts w.arrivals l)

  abbrev pub default_turn : World → Option (Loop × Bool) → Option (Loop × Wait)
  default_turn w none = none
  default_turn w (some (l, did)) =
      some (after_delay w.now_later did (do_delay_task posts queue w.now 0 l))

  -- A round of DefaultMessageLoop::RunLoop. With `until`, it waits for the difference of the two
  -- times unless that is 0, also when it is negative.
  unfoldable pub default_round : World → Loop → Option (Loop × Wait)
  default_round w l = default_turn w (do_task posts w.arrivals l)
