-- ===== src/Rtsp/Faults.antt =====
-- Where stream/RtspSession.cpp leaves its objects.
use streamcode.Prelude.{
  ℕ, ◌≤◌, ◌≡◌, refl, Bool, none, List, ◌++◌, arith, length, length-append, Bool-cases, inl, inr,
  ltb,
}
use streamcode.Rtsp.Session.{RtspSession, formatted, play_answer, process_play, send}

-- PLAY follows the pointer to the reader, which is NULL before the first DESCRIBE.
pub process_play-unmade :
    (opens : Bool) (s : RtspSession) → s.reader ≡ none → process_play opens s ≡ none
unfolding process_play formatted send
process_play-unmade opens s h = elim (Bool-cases (ltb (length (play_answer s.request)) 4096)) [
  | inl e ↦ rw (e, h) refl
  | inr e ↦ rw e refl
]

behind : (n : ℕ) (a b : List ℕ) → n ≤ length b → n ≤ length (a ++ b)
behind n a b h = omega (arith, length-append a b)
