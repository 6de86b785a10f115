-- ===== src/Session/Nulls.antt =====
-- The NULL pointers that RtmpSession follows: what a peer can ask for that makes it do so.
use streamcode.Prelude.{
  ℕ, ◌≡◌, ◌<◌, ◌%◌, refl, inl, inr, Bool-cases, none, some, List, ◌==◌, if◌then◌else◌,
}
use streamcode.Amf.Reader.{ok, fault, read_number, read_null, read_string}
use streamcode.Reader.{Reader, read8}
use streamcode.Reader
use streamcode.Rtmp.{Channel}
use streamcode.Source.Registry.{find_media_source}
use streamcode.Session.Answers.{play_answers-ok}
use streamcode.Session.{World, Session, source_name, play, take_video, message_bytes, take_message}

-- A request to play a name that no session has published, with a chunk size above 0, follows the
-- NULL pointer that `FindMediaSource` returns, after the success was reported to the peer.
pub play-unknown :
    (junk : ℕ → ℕ) (r : Reader) (w : World) (s : Session) (n : ℕ × Reader)
    → read_number r ≡ ok n
    → 0 < s.decoder.local_chunk_size
    → find_media_source (source_name s.app (read_string (read_null (n.1)).1).0) w.registry ≡ none
    → play junk r w s ≡ fault
unfolding play
play-unknown junk r w s n number pos missing =
    let (d, answers) = play_answers-ok junk s.decoder pos in rw (number, answers, missing) refl

-- A video message in H.264 to a session that has not published follows the NULL pointer
-- `m_pPublisherSrc`; in another codec it changes nothing.
pub take_message-unpublished :
    (junk : ℕ → ℕ) (c : Channel) (bytes : List ℕ) (w : World) (s : Session)
    → c.type ≡ 9
    → message_bytes c ≡ some bytes
    → s.publisher ≡ none
    → take_message junk c w s
      ≡ (if (read8 (Reader.init bytes)).0 % 16 == 7 then fault else ok (w, s))
unfolding take_message take_video message_bytes
take_message-unpublished junk c bytes w s type held unpublished =
    elim (Bool-cases ((read8 (Reader.init bytes)).0 % 16 == 7)) [
      | inl e ↦ rw (type, held, unpublished, e) refl
      | inr e ↦ rw (type, held, unpublished, e) refl
    ]
