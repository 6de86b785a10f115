-- ===== src/HttpFlv.antt =====
-- stream/HttpFlvSession.h and stream/HttpFlvSession.cpp: a stream as the answer to a request of HTTP.
-- `number` stands for the callback that the session gives to `StartRead`. The encoder calls `SendTag`,
-- so that what it was given to send is what the connection was given.
pub mod Streams
use streamcode.Prelude.{
  ℕ, suc, ◌+◌, Option, none, some, List, [], ◌∷◌, ◌++◌, arith, take, drop, ◌==◌, if◌then◌else◌,
  codes, ◌>>=◌,
}
use streamcode.Source.{start_read}
use streamcode.Source.Registry.{find_media_source}
use streamcode.Session.{World, change}
use streamcode.Flv.{FlvPacket, FlvEncoder, write_header, write_flv_tag}
use streamcode.Rtsp.Response.{build_http_header}

-- `find_last_of('/')`.
unfoldable pub last_slash : List ℕ → Option ℕ
last_slash [] = none
last_slash (c ∷ s) = later (last_slash s)
  where
    later : Option ℕ → Option ℕ
    later none = if c == 47 then some 0 else none
    later (some i) = some (suc i)

pub record HttpFlvSession : Type 0 where
  pub app : List ℕ
  pub stream : List ℕ
  pub encoder : Option FlvEncoder
  pub sent : List ℕ

-- Without a slash the position is -1.
abbrev pub named : List ℕ → Option ℕ → HttpFlvSession → HttpFlvSession
named url none s = record s { app = url; stream = url }
named url (some i) s = record s { app = take i url; stream = drop (i + 1) url }

-- A new encoder behind the head of the answer.
unfoldable pub new_encoder : List ℕ → FlvEncoder
new_encoder sent = write_header (record {
  previous = 0;
  sent = sent ++ build_http_header (record { status = 0; headers = [] });
})

-- ProcessHttp. The source is that of the name "ss"; `none` is that it follows a NULL pointer.
unfoldable pub process_http : ℕ → List ℕ → World → HttpFlvSession → Option (World × HttpFlvSession)
process_http number url w s = find_media_source (codes "ss") w.registry >>= λ source. some (
  change source (λ src. (start_read number src).0) w,
  record (named url (last_slash url) s) { encoder = some (new_encoder s.sent) },
)

-- ReadFromSource, on what the encoder takes of a packet; `none` is that there is no encoder.
unfoldable pub read_from_source : FlvPacket → HttpFlvSession → Option HttpFlvSession
read_from_source p s = s.encoder >>= λ e. some (record s { encoder = some (write_flv_tag p e) })

unfoldable pub read_all : List FlvPacket → HttpFlvSession → Option HttpFlvSession
read_all [] s = some s
read_all (p ∷ ps) s = read_from_source p s >>= λ t. read_all ps t
