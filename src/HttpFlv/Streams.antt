-- ===== src/HttpFlv/Streams.antt =====
-- What a player of HttpFlvSession gets.
use streamcode.Prelude.{
  ℕ, ◌≡◌, refl, ◌∙◌, some, List, [], ◌∷◌, ◌++◌, arith, length, codes, append_assoc,
}
use streamcode.Source.{start_read}
use streamcode.Source.Registry.{find_media_source}
use streamcode.Session.{World, change}
use streamcode.Flv.{FlvPacket, FlvEncoder, write_header, write_flv_tag}
use streamcode.Flv.RoundTrip.{read_tags, tags, write_all, Fits, write_all-read_tags}
use streamcode.Rtsp.Response.{build_http_header}
use streamcode.HttpFlv.{
  last_slash, HttpFlvSession, named, new_encoder, process_http, read_from_source, read_all,
}

read_all-write_all :
    (ps : List FlvPacket) (e : FlvEncoder) (s : HttpFlvSession)
    → s.encoder ≡ some e
    → read_all ps s ≡ some (record s { encoder = some (write_all ps e) })
unfolding read_all read_from_source write_all
read_all-write_all [] e s h = ground (arith, h)
read_all-write_all (p ∷ ps) e s h = rw h (
    read_all-write_all ps (write_flv_tag p e) (record s { encoder = some (write_flv_tag p e) })
      refl)

-- If there is a source of the name "ss", then whatever the address of the request is, ProcessHttp
-- calls its StartRead, and once the session was called on packets, whose times have 32 bits and whose
-- sizes have 24, the connection was given the head of the answer, the nine bytes of an FLV header, and
-- a text in which a reader of tags finds the packets in their order.
pub process_http-streams :
    (number source : ℕ) (url : List ℕ) (w : World) (s : HttpFlvSession) (ps : List FlvPacket)
    → find_media_source (codes "ss") w.registry ≡ some source
    → Fits ps
    → (t u : HttpFlvSession) × (e : FlvEncoder) × (text : List ℕ) × (process_http number url w s
        ≡ some (change source (λ src. (start_read number src).0) w, t))
      × (read_all ps t ≡ some u)
      × (u.encoder ≡ some e)
      × (e.sent
          ≡ s.sent
            ++ (build_http_header (record { status = 0; headers = [] })
                ++ ((0x46 ∷ 0x4c ∷ 0x56 ∷ 1 ∷ 5 ∷ 0 ∷ 0 ∷ 0 ∷ 9 ∷ []) ++ text)))
      × (read_tags (length ps) text ≡ some (tags 0 ps))
unfolding process_http new_encoder write_header
process_http-streams number source url w s ps found fits =
    let t : HttpFlvSession = record (named url (last_slash url) s) {
      encoder = some (new_encoder s.sent);
    } in
    let head = build_http_header (record { status = 0; headers = [] }) in
    let flv : List ℕ = 0x46 ∷ 0x4c ∷ 0x56 ∷ 1 ∷ 5 ∷ 0 ∷ 0 ∷ 0 ∷ 9 ∷ [] in
    let (text, sent, back) = write_all-read_tags ps (new_encoder s.sent) (omega arith) fits in
    (
      t,
      record t { encoder = some (write_all ps (new_encoder s.sent)) },
      write_all ps (new_encoder s.sent),
      text,
      rw found refl,
      read_all-write_all ps (new_encoder s.sent) t refl,
      refl,
      sent ∙ append_assoc (s.sent ++ head) flv text ∙ append_assoc s.sent head (flv ++ text),
      back,
    )
