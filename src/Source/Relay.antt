-- ===== src/Source/Relay.antt =====
-- RtmpSource::StartRead and PushPacket: what a reader's callback is called on.
use streamcode.Prelude.{
  ℕ, ◌≡◌, refl, sym, ap, ◌∙◌, true, false, List, [], ◌∷◌, ◌++◌, append_assoc, append-nil, arith,
  eq_true, ◌==◌, if◌then◌else◌,
}
use streamcode.Source.{
  Packet, Source, is_empty, call, replay, start_read, hand_out, push_packet, cache,
}
use streamcode.Source.Gop.{cache_all}

-- The packets that a reader is called on.
unfoldable pub received : ℕ → List (ℕ × Packet) → List Packet
received i [] = []
received i ((j, p) ∷ cs) = let rest = received i cs in if j == i then p ∷ rest else rest

unfoldable pub push_all : List Packet → Source → Source
push_all [] s = s
push_all (p ∷ ps) s = push_all ps (push_packet p s)

-- The reader is not registered yet.
abbrev pub Absent : ℕ → List ℕ → Type 0
Absent i [] = Unit
Absent i (r ∷ rs) = ((r == i) ≡ false) × Absent i rs

received-append :
    (i : ℕ) (cs ds : List (ℕ × Packet)) → received i (cs ++ ds) ≡ received i cs ++ received i ds
unfolding received
received-append i [] ds = refl
received-append i ((j, p) ∷ cs) ds = ground (arith, received-append i cs ds)

call-received :
    (i : ℕ) (p : Packet) (s : Source)
    → received i (call i p s).calls ≡ received i s.calls ++ (p ∷ [])
unfolding call received
call-received i p s = rw (received-append i s.calls ((i, p) ∷ []), received, eq_true i i refl) refl

call-others :
    (i j : ℕ) (p : Packet) (s : Source)
    → (j == i) ≡ false
    → received i (call j p s).calls ≡ received i s.calls
unfolding call received
call-others i j p s e =
    rw (received-append i s.calls ((j, p) ∷ []), received, e) (append-nil (received i s.calls))

-- The fields that `call` leaves alone.
replay-received :
    (i : ℕ) (ps : List Packet) (s : Source)
    → (received i (replay i ps s).calls ≡ received i s.calls ++ ps)
      × ((replay i ps s).readers ≡ s.readers)
unfolding replay call
replay-received i [] s = (sym (append-nil (received i s.calls)), refl)
replay-received i (p ∷ ps) s =
    let (r, same) = replay-received i ps (call i p s) in
    (
      r ∙ ap (λ c. c ++ ps) (call-received i p s) ∙ append_assoc (received i s.calls) (p ∷ []) ps,
      same,
    )

pub hand_out-Absent :
    (i : ℕ) (rs : List ℕ) (p : Packet) (s : Source)
    → Absent i rs
    → received i (hand_out rs p s).calls ≡ received i s.calls
unfolding hand_out
hand_out-Absent i [] p s none_left = refl
hand_out-Absent i (r ∷ rs) p s (e, rest) =
    hand_out-Absent i rs p (call r p s) rest ∙ call-others i r p s e

hand_out-append :
    (rs qs : List ℕ) (p : Packet) (s : Source)
    → hand_out (rs ++ qs) p s ≡ hand_out qs p (hand_out rs p s)
unfolding hand_out
hand_out-append [] qs p s = refl
hand_out-append (r ∷ rs) qs p s = hand_out-append rs qs p (call r p s)

pub hand_out-keeps :
    (rs : List ℕ) (p : Packet) (s : Source)
    → ((hand_out rs p s).readers ≡ s.readers) × ((hand_out rs p s).gop ≡ s.gop)
unfolding hand_out call
hand_out-keeps [] p s = (refl, refl)
hand_out-keeps (r ∷ rs) p s = hand_out-keeps rs p (call r p s)

-- A reader that is registered once gets each packet that is pushed.
push-received :
    (i : ℕ) (rs : List ℕ) (p : Packet) (s : Source)
    → Absent i rs
    → s.readers ≡ rs ++ (i ∷ [])
    → received i (push_packet p s).calls ≡ received i s.calls ++ (p ∷ [])
unfolding push_packet hand_out
push-received i rs p s absent known =
    ap (λ readers. received i (hand_out readers p cached).calls) known
    ∙ ap (λ t. received i t.calls) (hand_out-append rs (i ∷ []) p cached)
    ∙ call-received i p (hand_out rs p cached)
    ∙ ap (λ c. c ++ (p ∷ [])) (hand_out-Absent i rs p cached absent)
  where
    cached : Source
    cached = record s { gop = cache p s.gop }

push_all-received :
    (i : ℕ) (rs : List ℕ) (ps : List Packet) (s : Source)
    → Absent i rs
    → s.readers ≡ rs ++ (i ∷ [])
    → received i (push_all ps s).calls ≡ received i s.calls ++ ps
unfolding push_all push_packet
push_all-received i rs [] s absent known = sym (append-nil (received i s.calls))
push_all-received i rs (p ∷ ps) s absent known =
    push_all-received i rs ps (push_packet p s) absent
      ((hand_out-keeps s.readers p (record s { gop = cache p s.gop })).0 ∙ known)
    ∙ ap (λ c. c ++ ps) (push-received i rs p s absent known)
    ∙ append_assoc (received i s.calls) (p ∷ []) ps

-- While packets are pushed, the cache takes each of them, in order.
pub push_all-gop : (ps : List Packet) (s : Source) → (push_all ps s).gop ≡ cache_all ps s.gop
unfolding push_all push_packet cache_all
push_all-gop [] s = refl
push_all-gop (p ∷ ps) s =
    push_all-gop ps (push_packet p s)
    ∙ ap (cache_all ps) (hand_out-keeps s.readers p (record s { gop = cache p s.gop })).1

-- A reader that starts when there is a video configuration is called on that configuration, then on
-- each packet that the cache holds, then on each packet that is pushed afterwards, in order and once
-- each, if it was not registered before.
pub start_read-received :
    (i : ℕ) (ps : List Packet) (s : Source)
    → is_empty s.video_config ≡ false
    → Absent i s.readers
    → ((start_read i s).1 ≡ true)
      × (received i (push_all ps (start_read i s).0).calls
          ≡ received i s.calls ++ ((s.video_config ∷ s.gop.queue) ++ ps))
unfolding start_read
start_read-received i ps s config absent = rw config (
  refl,
  push_all-received i s.readers ps started absent (ap (λ r. r ++ (i ∷ [])) replayed.1)
      ∙ ap (λ c. c ++ ps)
          (replayed.0
            ∙ ap (λ c. c ++ s.gop.queue) (call-received i s.video_config s)
            ∙ append_assoc (received i s.calls) (s.video_config ∷ []) s.gop.queue)
      ∙ append_assoc (received i s.calls) (s.video_config ∷ s.gop.queue) ps,
)
  where
    first : Source
    first = call i s.video_config s

    replayed :
        (received i (replay i s.gop.queue first).calls ≡ received i first.calls ++ s.gop.queue)
        × ((replay i s.gop.queue first).readers ≡ s.readers)
    replayed = unfold call in replay-received i s.gop.queue first

    started : Source
    started = record (replay i s.gop.queue first) {
      readers = (replay i s.gop.queue first).readers ++ (i ∷ []);
    }

-- Without a video configuration nothing happens, and the reader is told so.
start_read-refuses :
    (i : ℕ) (s : Source) → is_empty s.video_config ≡ true → start_read i s ≡ (s, false)
unfolding start_read
start_read-refuses i s config = rw config refl
