-- ===== src/Session/Answers.antt =====
-- What RtmpSession sends is always sent: which requests of a peer can end the program, and which cannot.
use streamcode.Prelude.{
  ℕ, ◌<◌, ◌≡◌, ◌⊎◌, inl, inr, refl, sym, subst, ap, Bool, true, false, Option, some, List,
  if◌then◌else◌, codes, Bool-cases, ltb,
}
use streamcode.Amf.{Fields, object, same_key, at_key, get_string, find}
use streamcode.Amf.Reader.{
  Outcome, ok, not_enough, ◌>>=◌, read_number, read_null, read_string, read_object,
}
use streamcode.Reader.{Reader, read8, read64, available}
use streamcode.Rtmp.{Decoder, send}
use streamcode.Rtmp.Messages.{send_fmle_result}
use streamcode.Rtmp.Answers.{Sent}
use streamcode.Rtmp.Replies.{
  send_win_ack_size-Sent, send_peer_width-Sent, send_bw_result-Sent, send_create_stream-Sent,
  send_pub_on_status-Sent, send_fmle_result-Sent, send_status_reset-Sent, send_status_start-Sent,
  rtmp_sample_access-Sent, send_stream_begin0-Sent, send_connect_status-Sent,
}
use streamcode.Source.{start_read}
use streamcode.Source.Registry.{find_media_source, create_media_source}
use streamcode.Session.{
  World, Session, change, answer, connect, check_bw, create_stream, release_stream, fc_subscribe,
  fc_publish, publish, play_answers, source_name, play, command,
}

pub play_answers-ok :
    (junk : ℕ → ℕ) (d : Decoder)
    → 0 < d.local_chunk_size
    → (after : Decoder) × (play_answers junk d ≡ ok after)
unfolding play_answers send
play_answers-ok junk d pos =
    let (one, e1) = send_stream_begin0-Sent junk d pos in
    let (two, e2) = send_status_reset-Sent junk (send one d) pos in
    let (three, e3) = send_status_start-Sent junk (send two (send one d)) pos in
    let (four, e4) = rtmp_sample_access-Sent junk (send three (send two (send one d))) pos in
    (send four (send three (send two (send one d))), rw (e1, e2, e3, e4) refl)

-- The command ends, or finds that the number in front is not all there.
abbrev pub Ends : Outcome (World × Session) → Type 0
Ends o = ((t : World × Session) × (o ≡ ok t)) ⊎ (o ≡ not_enough)

read_number-cases :
    (r : Reader) → ((n : ℕ × Reader) × (read_number r ≡ ok n)) ⊎ (read_number r ≡ not_enough)
unfolding read_number
read_number-cases r = elim (Bool-cases (ltb (available (read8 r).1) 8)) [
  | inl e ↦ inr (rw e refl)
  | inr e ↦ inl (read64 (read8 r).1, rw e refl)
]

numbered :
    (r : Reader) (k : ℕ × Reader → Outcome (World × Session))
    → ((n : ℕ × Reader) → read_number r ≡ ok n → Ends (k n))
    → Ends (read_number r >>= k)
numbered r k h = elim (read_number-cases r) [
  | inl (n, e) ↦ subst (λ o. Ends (o >>= k)) (sym e) (h n e)
  | inr e ↦ inr (ap (λ o. o >>= k) e)
]

answer-Ends :
    (o : Option Decoder) (d : Decoder) (w : World) (s : Session) → Sent o d → Ends (answer o w s)
answer-Ends o d w s (bytes, e) = inl (_, ap (λ o. answer o w s) e)

connect-Ends :
    (junk : ℕ → ℕ) (r : Reader) (w : World) (s : Session)
    → 0 < s.decoder.local_chunk_size
    → ((n : ℕ × Reader)
        → read_number r ≡ ok n
        → (fs : Fields) × (after : Reader) × (read_object (n.1) ≡ ok (object fs, after)))
    → Ends (connect junk r w s)
unfolding connect at_key send
connect-Ends junk r w s pos readable = numbered r _ (λ n e.
    let (fs, after, object_there) = readable n e in
    let (one, e1) = send_win_ack_size-Sent junk 5_000_000 s.decoder pos in
    let (two, e2) = send_peer_width-Sent junk 5_000_000 (send one s.decoder) pos in
    let (three, e3) = send_connect_status-Sent junk (n.0) (send two (send one s.decoder)) pos in
    inl (
      (
        w,
        record s {
          app = get_string (find (codes "app") fs);
          decoder = send three (send two (send one s.decoder));
        },
      ),
      rw (object_there, e1, e2, e3) refl,
    ))

play-Ends :
    (junk : ℕ → ℕ) (r : Reader) (w : World) (s : Session)
    → 0 < s.decoder.local_chunk_size
    → ((n : ℕ × Reader)
        → read_number r ≡ ok n
        → (id : ℕ) × (find_media_source
              (source_name s.app (read_string (read_null (n.1)).1).0)
              w.registry
            ≡ some id))
    → Ends (play junk r w s)
unfolding play
play-Ends junk r w s pos known = numbered r _ (λ n e.
    let (id, found) = known n e in
    let (d, answered) = play_answers-ok junk s.decoder pos in
    inl (
      (change id (λ src. (start_read s.number src).0) w, record s { decoder = d }),
      rw (answered, found) refl,
    ))

if-Ends :
    (b : Bool) (x y : Outcome (World × Session))
    → (b ≡ true → Ends x)
    → Ends y
    → Ends (if b then x else y)
if-Ends true x y hx hy = hx refl
if-Ends false x y hx hy = hy

-- Where the chunk size is not 0, no request of a peer faults: it runs to its end, or finds that the
-- number in front is not all there. This is on the condition that a request to play names a source
-- that is in the map, and that a request to connect carries an object that can be read.
pub command-Ends :
    (junk : ℕ → ℕ) (method : List ℕ) (r : Reader) (w : World) (s : Session)
    → 0 < s.decoder.local_chunk_size
    → (same_key method (codes "connect") ≡ true
        → (n : ℕ × Reader) → read_number r ≡ ok n
        → (fs : Fields) × (after : Reader) × (read_object (n.1) ≡ ok (object fs, after)))
    → (same_key method (codes "play") ≡ true
        → (n : ℕ × Reader) → read_number r ≡ ok n
        → (id : ℕ) × (find_media_source
              (source_name s.app (read_string (read_null (n.1)).1).0)
              w.registry
            ≡ some id))
    → Ends (command junk method r w s)
unfolding command check_bw create_stream release_stream fc_subscribe fc_publish publish
command-Ends junk method r w s pos readable known =
    if-Ends (same_key method (codes "connect")) _ _ (λ e. connect-Ends junk r w s pos (readable e))
      (if-Ends (same_key method (codes "_checkbw")) _ _
        (λ e.
          numbered r _
            (λ n _. answer-Ends _ s.decoder w s (send_bw_result-Sent junk (n.0) s.decoder pos)))
        (if-Ends (same_key method (codes "createStream")) _ _
          (λ e.
            numbered r _ (λ n _.
              answer-Ends _ s.decoder w s (send_create_stream-Sent junk (n.0) s.decoder pos)))
          (if-Ends (same_key method (codes "play")) _ _ (λ e. play-Ends junk r w s pos (known e))
            (if-Ends (same_key method (codes "releaseStream")) _ _ (λ e. fmle)
              (if-Ends (same_key method (codes "FCPublish")) _ _ (λ e. fmle)
                (if-Ends (same_key method (codes "publish")) _ _
                  (λ e. numbered r _ (λ n _.
                    answer-Ends _ s.decoder
                      (record w { registry = (create_media_source s.app w.registry).1 })
                      (record s { publisher = some (create_media_source s.app w.registry).0 })
                      (send_pub_on_status-Sent junk (n.0) s.decoder pos)))
                  (if-Ends (same_key method (codes "FCSubscribe")) _ _ (λ e. fmle)
                    (inl ((w, s), refl)))))))))
  where
    fmle : Ends (read_number r >>= λ id. answer (send_fmle_result junk (id.0) s.decoder) w s)
    fmle =
        numbered r _
          (λ n _. answer-Ends _ s.decoder w s (send_fmle_result-Sent junk (n.0) s.decoder pos))
