-- ===== src/Session/Publish.antt =====
-- RtmpSession::Run and RtmpSession::RtmpPlay together: what one session publishes reaches another.
use streamcode.Prelude.{
  ℕ, ◌+◌, ◌%◌, ◌^◌, ◌<◌, ◌≡◌, ◌≢◌, refl, ap, ◌∙◌, true, false, some, List, [], ◌∷◌, ◌++◌, length,
  eq_true, eq_false,
}
use streamcode.Amf.Reader.{ok, ◌>>=◌, read_number, read_null, read_string}
use streamcode.Reader.{Reader, read8}
use streamcode.Reader
use streamcode.Rtmp.{Channel, Decoder}
use streamcode.Source.{Packet, Source, is_empty, is_key_video, start_read, push_packet}
use streamcode.Source.Gop.{cache_all, NoKey}
use streamcode.Source.Relay.{received, push_all, Absent}
use streamcode.Source.Late.{late_reader}
use streamcode.Source.Registry.{find_media_source}
use streamcode.Session.Answers.{play_answers-ok}
use streamcode.Session.{
  World, Session, change, play_answers, source_name, play, video_packet, take_video, message_bytes,
  take_message, run_all,
}

-- A video message in H.264 that is no configuration, and the packet that it makes.
pub record IsFrame (c : Channel) (p : Packet) : Type 0 where
  pub bytes : List ℕ
  pub is_video_message : c.type ≡ 9
  pub held : message_bytes c ≡ some bytes
  pub codec : (read8 (Reader.init bytes)).0 % 16 ≡ 7
  pub unit_type : (video_packet bytes c).1 ≢ 0
  pub packet : (video_packet bytes c).0 ≡ p

abbrev pub Frames : List Channel → List Packet → Type 0
Frames [] [] = Unit
Frames (c ∷ cs) (p ∷ ps) = IsFrame c p × Frames cs ps
Frames _ _ = ⊥

-- The source `id` has got the packets, and nothing else has changed.
abbrev pub Pushed : ℕ → List Packet → World → World → Type 0
Pushed id ps w w' =
    (w'.registry ≡ w.registry)
    × (w'.streams id ≡ push_all ps (w.streams id))
    × ((j : ℕ) → j ≢ id → w'.streams j ≡ w.streams j)

change-at :
    (id : ℕ) (f : Source → Source) (w : World) → (change id f w).streams id ≡ f (w.streams id)
unfolding change
change-at id f w = rw (eq_true id id refl) refl

change-other :
    (id j : ℕ) (f : Source → Source) (w : World) → j ≢ id → (change id f w).streams j ≡ w.streams j
unfolding change
change-other id j f w other = rw (eq_false j id other) refl

take_message-frame :
    (junk : ℕ → ℕ) (c : Channel) (p : Packet) (w : World) (s : Session) (id : ℕ)
    → IsFrame c p
    → s.publisher ≡ some id
    → take_message junk c w s ≡ ok (change id (push_packet p) w, s)
unfolding take_message take_video message_bytes change video_packet push_packet
take_message-frame junk c p w s id f publishes =
    rw
      (
        f.is_video_message,
        f.held,
        f.codec,
        publishes,
        eq_false (video_packet f.bytes c).1 0 f.unit_type,
        f.packet,
      )
      refl

run_all-pushes :
    (junk : ℕ → ℕ) (cs : List Channel) (ps : List Packet) (w : World) (s : Session) (id : ℕ)
    → Frames cs ps
    → s.publisher ≡ some id
    → (w' : World) × (run_all junk cs w s ≡ ok (w', s)) × Pushed id ps w w'
unfolding run_all push_all change
run_all-pushes junk [] [] w s id f publishes = (w, refl, (refl, refl, λ j other. refl))
run_all-pushes junk [] (p ∷ ps) w s id f publishes = elim f [ ]
run_all-pushes junk (c ∷ cs) [] w s id f publishes = elim f [ ]
run_all-pushes junk (c ∷ cs) (p ∷ ps) w s id (f, fs) publishes =
    let mid = change id (push_packet p) w in
    let (w', eq, (registry, pushed, others)) = run_all-pushes junk cs ps mid s id fs publishes in
    (
      w',
      ap (λ o. o >>= λ t. run_all junk cs (t.0) (t.1))
            (take_message-frame junk c p w s id f publishes)
          ∙ eq,
      (
        registry,
        pushed ∙ ap (push_all ps) (change-at id (push_packet p) w),
        λ j other. others j other ∙ change-other id j (push_packet p) w other,
      ),
    )

-- `RtmpPlay` where the answers can be sent and the name has a source.
play-starts :
    (junk : ℕ → ℕ) (r : Reader) (w : World) (s : Session) (id : ℕ) (n : ℕ × Reader) (d : Decoder)
    → read_number r ≡ ok n
    → play_answers junk s.decoder ≡ ok d
    → find_media_source (source_name s.app (read_string (read_null (n.1)).1).0) w.registry ≡ some id
    → play junk r w s
      ≡ ok (change id (λ src. (start_read s.number src).0) w, record s { decoder = d })
unfolding play
play-starts junk r w s id n d number answers found = rw (number, answers, found) refl

-- Let a session publish to a source that has a configuration and has never called a second session.
-- If H.264 video messages that are no configuration arrive at the first session, a key frame among
-- them, the second then asks to play a name of that source with a chunk size above 0, and more such
-- messages and no others arrive, all this runs without a fault, and the second session is called on
-- the configuration, on the packets from the last key frame before it joined, and on the packets of
-- the later messages, in order and on nothing else, if the counts of the cache do not wrap.
pub play-receives :
    (junk : ℕ → ℕ) (a b : Session) (w : World) (id : ℕ) (sooner later : List Channel)
    (before : List Packet) (key : Packet) (after rest : List Packet) (r : Reader) (n : ℕ × Reader)
    → a.publisher ≡ some id
    → Frames sooner (before ++ (key ∷ after))
    → Frames later rest
    → is_empty (w.streams id).video_config ≡ false
    → Absent b.number (w.streams id).readers
    → received b.number (w.streams id).calls ≡ []
    → is_key_video key ≡ true
    → NoKey after
    → (cache_all before (w.streams id).gop).video_count + 1 < 2 ^ 32
    → length after + 1 < 2 ^ 32
    → read_number r ≡ ok n
    → 0 < b.decoder.local_chunk_size
    → find_media_source (source_name b.app (read_string (read_null (n.1)).1).0) w.registry ≡ some id
    → (w1 w2 w3 : World) × (b' : Session) × (run_all junk sooner w a ≡ ok (w1, a))
      × (play junk r w1 b ≡ ok (w2, b'))
      × (run_all junk later w2 a ≡ ok (w3, a))
      × (received b.number (w3.streams id).calls
          ≡ ((w.streams id).video_config ∷ key ∷ after) ++ rest)
play-receives junk a b w id sooner later before key after rest r n publishes frames frames' config
      absent fresh k plain small few number pos found =
    let (d, answers) = play_answers-ok junk b.decoder pos in
    let start : Source → Source = λ src. (start_read b.number src).0 in
    let (w1, eq, (registry, pushed, _)) =
      run_all-pushes junk sooner (before ++ (key ∷ after)) w a id frames publishes in
    let w2 = change id start w1 in
    let (w3, eq', (_, pushed', _)) = run_all-pushes junk later rest w2 a id frames' publishes in
    let streams : w3.streams id
        ≡ push_all rest (start (push_all (before ++ (key ∷ after)) (w.streams id))) =
      pushed' ∙ ap (push_all rest) (change-at id start w1 ∙ ap start pushed) in
    (
      w1,
      w2,
      w3,
      record b { decoder = d },
      eq,
      play-starts junk r w1 b id n d number answers (ap (find_media_source _) registry ∙ found),
      eq',
      ap (λ src. received b.number src.calls) streams
          ∙ late_reader b.number before key after rest (w.streams id) config absent fresh k plain
              small few,
    )
