-- ===== src/Tests/Rtsps.antt =====
-- The theorems on RTSP at concrete inputs: the request `P u V` with the fields `CSeq: 7` and
-- `Session: 8`, in a ring of 64 bytes.
use streamcode.Prelude.{
  ℕ, zero, suc, ◌<◌, ◌≡◌, refl, true, false, none, some, List, [], ◌∷◌, ◌++◌, arith, length, codes,
  get_or, drop, ltb-cases, inl, inr, drop-all,
}
use streamcode.Amf.{same_key}
use streamcode.TBuffer.{TBuffer}
use streamcode.Ring.Valid.{IsValid, contents, wrap}
use streamcode.Ring.Strings.{find, starts_with}
use streamcode.Http
use streamcode.Http.{Request, crlf, Ending, ended, index_of, set_field}
use streamcode.Http.Parse.{blank_line}
use streamcode.Http.Heads.{set_all}
use streamcode.Rtsp.{parse, parsed, parse_head, get_value}
use streamcode.Rtsp.Response.{decimal, build_header}
use streamcode.Rtsp.Session.{RtspSession, open_file, play_answer, process_play}
use streamcode.Rtsp.Requests.{parse_complete, parse_incomplete}
use streamcode.Rtsp.Answers.{build_header-parse, play_fields, process_play-answers}

abbrev no_request : Request
no_request = record { method = []; url = []; version = []; fields = [] }

abbrev request : Request
request = record {
  method = codes "P";
  url = codes "u";
  version = codes "V";
  fields = (codes "CSeq", codes "7") ∷ (codes "Session", codes "8") ∷ [];
}

abbrev head : List ℕ
head = codes "P u V" ++ (crlf ++ (codes "CSeq: 7" ++ (crlf ++ codes "Session: 8")))

abbrev ring_of : List ℕ → TBuffer
ring_of text = record {
  buffer = record { extent = 64; cell = λ i. get_or text i 0 };
  write_pos = length text;
  read_pos = 0;
  size = length text;
  capacity = 64;
}

abbrev arrived : TBuffer
arrived = ring_of (head ++ (blank_line ++ (5 ∷ [])))

arrived-IsValid : IsValid arrived
arrived-IsValid = omega arith

parse_head-given : (parse_head true 2 head no_request).0 ≡ ended request
unfolding parse_head Http.parse_lines Http.find index_of Http.starts_with Http.parse_line Http.keep
    set_field Http.parse_one Http.parse_at Http.parse_first_line same_key
parse_head-given = refl

parse_complete_example :
    (after : TBuffer) × (parse true 2 no_request arrived ≡ parsed request after true)
    × IsValid after
    × (contents after ≡ 5 ∷ [])
unfolding contents wrap find starts_with
parse_complete_example =
    parse_complete true 2 no_request request b'P'
      (codes " u V" ++ (crlf ++ (codes "CSeq: 7" ++ (crlf ++ codes "Session: 8")))) (5 ∷ [])
      arrived-IsValid refl refl refl parse_head-given

-- The blank line has not arrived.
abbrev partial_head : List ℕ
partial_head = codes "P u V" ++ (crlf ++ codes "CS: 7")

abbrev partial_request : Request
partial_request = record request { fields = (codes "CS", codes "7") ∷ [] }

absent : (i : ℕ) → starts_with blank_line (drop i partial_head) ≡ false
unfolding starts_with
absent i = elim (ltb-cases i 12) [
  | inl (e, h) ↦ small i h
  | inr (e, h) ↦ rw (drop-all i partial_head h) refl
]
  where
    small : (i : ℕ) → i < 12 → starts_with blank_line (drop i partial_head) ≡ false
    small zero h = refl
    small (suc zero) h = refl
    small (suc (suc zero)) h = refl
    small (suc (suc (suc zero))) h = refl
    small (suc (suc (suc (suc zero)))) h = refl
    small (suc (suc (suc (suc (suc zero))))) h = refl
    small (suc (suc (suc (suc (suc (suc i)))))) h = elim (ltb-cases i 6) [
      | inl (e, k) ↦ later i k
      | inr (e, k) ↦ absurd (omega arith)
    ]
      where
        later : (i : ℕ) → i < 6 → starts_with blank_line (drop i (drop 6 partial_head)) ≡ false
        later zero h = refl
        later (suc zero) h = refl
        later (suc (suc zero)) h = refl
        later (suc (suc (suc zero))) h = refl
        later (suc (suc (suc (suc zero)))) h = refl
        later (suc (suc (suc (suc (suc zero))))) h = refl
        later (suc (suc (suc (suc (suc (suc i)))))) h = absurd (omega arith)

parse_incomplete_example :
    parse true 2 no_request (ring_of partial_head)
    ≡ parsed partial_request (ring_of partial_head) true
unfolding contents wrap Http.parse_head parse_head Http.parse_lines Http.find index_of
    Http.starts_with Http.parse_line Http.keep set_field Http.parse_one Http.parse_at
    Http.parse_first_line same_key
parse_incomplete_example =
    parse_incomplete true 2 no_request partial_request (omega arith) (omega arith) refl absent refl

build_header-parse_example :
    (text : List ℕ) × (build_header (record { status = 404; headers = (codes "A", codes "b") ∷ [] })
      ≡ text ++ blank_line)
    × (parse_head true 1 text no_request ≡ (
      ended (record {
        method = codes "RTSP/1.0";
        url = decimal 10 404;
        version = codes "OK";
        fields = (codes "A", codes "b") ∷ [];
      }),
      true,
    ))
unfolding set_field
build_header-parse_example =
    build_header-parse 404 (codes "A", codes "b") [] no_request
      ((omega arith, omega arith, omega arith, refl, refl), tt)

abbrev session : RtspSession
session = record { request = request; reader = none; sent = [] }

abbrev described : RtspSession
described = record session { reader = some (record { is_open = false; started = 0 }) }

process_play-answers_example :
    (text : List ℕ) × (process_play false described
      ≡ some (record described {
        sent = (text ++ blank_line) ∷ [];
        reader = some (open_file false (record { is_open = false; started = 0 })).0;
      }))
    × (parse_head true 3 text no_request ≡ (
      ended (
          set_all (play_fields request) (record no_request {
            method = codes "RTSP/1.0";
            url = codes "200";
            version = codes "OK";
          })),
      true,
    ))
unfolding get_value same_key play_answer
process_play-answers_example =
    process_play-answers false described no_request (record { is_open = false; started = 0 }) refl
      (omega arith) (omega arith) (omega arith)
      (
        (omega arith, omega arith, omega arith, refl, refl),
        (
          (omega arith, omega arith, omega arith, refl, refl),
          ((omega arith, omega arith, omega arith, refl, refl), tt),
        ),
      )
      (omega arith)

repeated : ℕ → List ℕ
repeated zero = []
repeated (suc n) = 65 ∷ repeated n

abbrev long_request : RtspSession
long_request = record described { request = record request { url = repeated 5000 } }
