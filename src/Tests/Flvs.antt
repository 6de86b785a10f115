-- ===== src/Tests/Flvs.antt =====
-- Two packets in an FLV stream.
use streamcode.Prelude.{ℕ, ◌≡◌, refl, some, none, length, codes, List, [], ◌∷◌, ◌++◌, arith}
use streamcode.Source.{video, metadata, new_source, start_read}
use streamcode.Source.Registry.{find_media_source, look_up}
use streamcode.Amf.{same_key}
use streamcode.Session.{World, change}
use streamcode.Rtsp.Response.{build_http_header}
use streamcode.HttpFlv.{HttpFlvSession, process_http, read_all}
use streamcode.HttpFlv.Streams.{process_http-streams}
use streamcode.Flv.{FlvPacket, FlvEncoder}
use streamcode.Flv.RoundTrip.{write_all, read_tags, tags, write_all-read_tags}

abbrev packets : List FlvPacket
packets =
    record { frame_type = metadata; timestamp = 0; bytes = 2 ∷ 0 ∷ [] }
    ∷ record { frame_type = video; timestamp = 0x100_0005; bytes = 23 ∷ 1 ∷ 9 ∷ [] }
    ∷ []

abbrev encoder : FlvEncoder
encoder = record { previous = 0; sent = 70 ∷ [] }

write_all-read_tags_example :
    (text : List ℕ) × ((write_all packets encoder).sent ≡ (70 ∷ []) ++ text)
    × (read_tags 2 text ≡ some (tags 0 packets))
write_all-read_tags_example = write_all-read_tags packets encoder (omega arith) (omega arith)

abbrev world : World
world = record {
  registry = record { sources = (codes "ss", 0) ∷ []; made = 1 };
  streams = λ i. new_source 0;
}

abbrev session : HttpFlvSession
session = record { app = []; stream = []; encoder = none; sent = [] }

process_http-streams_example :
    (t u : HttpFlvSession) × (e : FlvEncoder) × (text : List ℕ) × (process_http 3
        (codes "live/a")
        world
        session
      ≡ some (change 0 (λ src. (start_read 3 src).0) world, t))
    × (read_all packets t ≡ some u)
    × (u.encoder ≡ some e)
    × (e.sent
        ≡ build_http_header (record { status = 0; headers = [] })
          ++ ((0x46 ∷ 0x4c ∷ 0x56 ∷ 1 ∷ 5 ∷ 0 ∷ 0 ∷ 0 ∷ 9 ∷ []) ++ text))
    × (read_tags (length packets) text ≡ some (tags 0 packets))
unfolding find_media_source same_key look_up
process_http-streams_example =
    process_http-streams 3 0 (codes "live/a") world session packets refl (omega arith)
