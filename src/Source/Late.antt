-- ===== src/Source/Late.antt =====
-- A reader that starts in the middle of a stream (RtmpSource::PushPacket, then StartRead).
use streamcode.Prelude.{
  ℕ, ◌+◌, ◌^◌, ◌<◌, ◌≡◌, refl, sym, subst, ap, ap₂, ◌∙◌, true, false, List, [], ◌∷◌, ◌++◌, length,
}
use streamcode.Source.{
  Packet, Source, is_empty, is_key_video, call, start_read, hand_out, push_packet, cache,
}
use streamcode.Source.Gop.{cache_all, NoKey, cache_all-gop}
use streamcode.Source.Relay.{
  received, push_all, Absent, hand_out-Absent, hand_out-keeps, push_all-gop, start_read-received,
}

-- What pushing leaves alone for a reader that is not registered.
abbrev Unheard : ℕ → Source → Source → Type 0
Unheard i s t =
    (t.readers ≡ s.readers)
    × (t.video_config ≡ s.video_config)
    × (received i t.calls ≡ received i s.calls)

hand_out-config :
    (rs : List ℕ) (p : Packet) (s : Source) → (hand_out rs p s).video_config ≡ s.video_config
unfolding hand_out call
hand_out-config [] p s = refl
hand_out-config (r ∷ rs) p s = hand_out-config rs p (call r p s)

push_packet-Unheard :
    (i : ℕ) (p : Packet) (s : Source) → Absent i s.readers → Unheard i s (push_packet p s)
unfolding push_packet
push_packet-Unheard i p s absent =
    let cached : Source = record s { gop = cache p s.gop } in
    (
      (hand_out-keeps s.readers p cached).0,
      hand_out-config s.readers p cached,
      hand_out-Absent i s.readers p cached absent,
    )

push_all-Unheard :
    (i : ℕ) (ps : List Packet) (s : Source) → Absent i s.readers → Unheard i s (push_all ps s)
unfolding push_all
push_all-Unheard i [] s absent = (refl, refl, refl)
push_all-Unheard i (p ∷ ps) s absent =
    let (r, c, h) = push_packet-Unheard i p s absent in
    let (r', c', h') = push_all-Unheard i ps (push_packet p s) (subst (Absent i) (sym r) absent) in
    (r' ∙ r, c' ∙ c, h' ∙ h)

-- A reader that was never called and starts after `before`, a key frame and `after` were pushed, with
-- no key frame in `after`, is called on the video configuration, the key frame, `after`, and what is
-- pushed later, and on nothing else, if there is a configuration and the counts of the cache do not
-- wrap.
pub late_reader :
    (i : ℕ) (before : List Packet) (key : Packet) (after later : List Packet) (s : Source)
    → is_empty s.video_config ≡ false
    → Absent i s.readers
    → received i s.calls ≡ []
    → is_key_video key ≡ true
    → NoKey after
    → (cache_all before s.gop).video_count + 1 < 2 ^ 32
    → length after + 1 < 2 ^ 32
    → received i (push_all later (start_read i (push_all (before ++ (key ∷ after)) s)).0).calls
      ≡ (s.video_config ∷ key ∷ after) ++ later
late_reader i before key after later s config absent fresh k plain small few =
    let (r, c, h) = push_all-Unheard i (before ++ (key ∷ after)) s absent in
    (start_read-received i later pushed (ap is_empty c ∙ config)
      (subst (Absent i) (sym r) absent)).1
    ∙ ap₂ (λ a b. a ++ (b ++ later)) (h ∙ fresh)
        (ap₂ (λ a b. a ∷ b) c
          (ap (λ g. g.queue) (push_all-gop (before ++ (key ∷ after)) s)
            ∙ cache_all-gop before key after s.gop k plain small few))
  where
    pushed : Source
    pushed = push_all (before ++ (key ∷ after)) s
