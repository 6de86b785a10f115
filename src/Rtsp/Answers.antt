-- ===== src/Rtsp/Answers.antt =====
-- What the answers of stream/RtspSession.cpp say to a parser of heads.
use streamcode.Prelude.{
  ℕ, zero, suc, ◌+◌, ◌/◌, ◌%◌, ◌<◌, ◌≡◌, refl, ap, ◌∙◌, Bool, true, false, some, List, [], ◌∷◌,
  ◌++◌, arith, length, inl, inr, codes, append_assoc, ltb-cases, lt→ltb,
}
use streamcode.Amf.{less}
use streamcode.Http.{Request, crlf, colon, is_empty, ended}
use streamcode.Http.Parse.{blank_line}
use streamcode.Http.Strings.{Lacks, Lacks-append}
use streamcode.Http.Heads.{print_lines, set_all, IsField, AreFields, head_of, parse_head-print}
use streamcode.Rtsp.{parse_head, c_str, get_value}
use streamcode.Rtsp.Response.{
  decimal, set_header, add_header, set_status, header_lines, build_header,
}
use streamcode.Rtsp.Session.{
  RtspSession, FlvFile, open_file, send, formatted, public_methods, process_option, play_answer,
  ok_lines, process_play,
}

-- A number has digits only.
decimal-Lacks : (c digits n : ℕ) → c < 48 → Lacks c (decimal digits n)
unfolding decimal
decimal-Lacks c zero n h = tt
decimal-Lacks c (suc digits) n h = elim (ltb-cases n 10) [
  | inl (e, k) ↦ rw e (omega arith, tt)
  | inr (e, k) ↦ rw e (
      Lacks-append c (decimal digits (n / 10)) ((n % 10 + 48) ∷ [])
        (decimal-Lacks c digits (n / 10) h) (omega arith, tt))
]

header_lines-print :
    (f : List ℕ × List ℕ) (fs : List (List ℕ × List ℕ))
    → header_lines (f ∷ fs) ≡ print_lines (f ∷ fs) ++ crlf
unfolding header_lines print_lines
header_lines-print (k, v) [] = simp append_assoc
header_lines-print (k, v) (g ∷ fs) =
    ap (λ t. k ++ (colon ++ (v ++ (crlf ++ t)))) (header_lines-print g fs) ∙ simp append_assoc

build_header-print :
    (status : ℕ) (f : List ℕ × List ℕ) (fs : List (List ℕ × List ℕ))
    → build_header (record { status = status; headers = f ∷ fs })
      ≡ head_of (codes "RTSP/1.0") (decimal 10 status) (codes "OK") (f ∷ fs) ++ blank_line
unfolding build_header
build_header-print status f fs = rw (header_lines-print f fs) (simp append_assoc)

-- Where `size_t` has 32 bits, ParseHead of what BuildHeader writes, less the blank line at its end,
-- gets the status and the headers back, if there are headers and they are fields.
pub build_header-parse :
    (status : ℕ) (f : List ℕ × List ℕ) (fs : List (List ℕ × List ℕ)) (q : Request)
    → AreFields (f ∷ fs)
    → (head : List ℕ) × (build_header (record { status = status; headers = f ∷ fs })
        ≡ head ++ blank_line)
      × (parse_head true (suc (length fs)) head q ≡ (
        ended (
            set_all (f ∷ fs) (record q {
              method = codes "RTSP/1.0";
              url = decimal 10 status;
              version = codes "OK";
            })),
        true,
      ))
unfolding parse_head
build_header-parse status f fs q good = (
  head_of (codes "RTSP/1.0") (decimal 10 status) (codes "OK") (f ∷ fs),
  build_header-print status f fs,
  parse_head-print (codes "RTSP/1.0") (decimal 10 status) (codes "OK") f fs q (omega arith)
      (decimal-Lacks 32 10 status (omega arith)) (omega arith)
      (decimal-Lacks 13 10 status (omega arith)) (omega arith) good,
)

option_headers :
    (cseq : List ℕ)
    → is_empty cseq ≡ false
    → add_header
        (codes "Public")
        public_methods
        (add_header (codes "CSeq") cseq (set_status 200 (record { status = 0; headers = [] })))
      ≡ record {
        status = 200;
        headers = (codes "CSeq", cseq) ∷ (codes "Public", public_methods) ∷ [];
      }
unfolding add_header set_header less set_status
option_headers cseq h = rw h refl

public-IsField : IsField (codes "Public", public_methods)
public-IsField = (omega arith, omega arith, omega arith, refl, refl)

-- The answer to OPTIONS is one text, a head and a blank line. Where `size_t` has 32 bits, ParseHead of
-- that head gets the status 200, the CSeq of the request and the methods, if the request had a CSeq
-- with no carriage return.
pub process_option-answers :
    (s : RtspSession) (q : Request)
    → is_empty (get_value (codes "CSeq") s.request) ≡ false
    → Lacks 13 (get_value (codes "CSeq") s.request)
    → let cseq = get_value (codes "CSeq") s.request in
      (head : List ℕ) × (process_option s
        ≡ record s { sent = s.sent ++ ((head ++ blank_line) ∷ []) })
      × (parse_head true 2 head q ≡ (
        ended (
            set_all
              ((codes "CSeq", cseq) ∷ (codes "Public", public_methods) ∷ [])
              (record q { method = codes "RTSP/1.0"; url = codes "200"; version = codes "OK" })),
        true,
      ))
unfolding process_option decimal send
process_option-answers s q some_value one_line =
    let cseq = get_value (codes "CSeq") s.request in
    let (head, text, back) =
      build_header-parse 200 (codes "CSeq", cseq) ((codes "Public", public_methods) ∷ []) q
        ((omega arith, omega arith, one_line, refl, some_value), (public-IsField, tt)) in
    (
      head,
      ap (λ r. send (build_header r) s) (option_headers cseq some_value) ∙ ap (λ t. send t s) text,
      back,
    )

c_str-Lacks : (text : List ℕ) → Lacks 0 text → c_str text ≡ text
unfolding c_str
c_str-Lacks [] h = refl
c_str-Lacks (zero ∷ text) (h, hs) = absurd (h refl)
c_str-Lacks (suc c ∷ text) (h, hs) = ap (◌∷◌ (suc c)) (c_str-Lacks text hs)

-- What the answer to PLAY is made of.
abbrev pub play_fields : Request → List (List ℕ × List ℕ)
play_fields r =
    (codes "CSeq", get_value (codes "CSeq") r)
    ∷ (codes "Session", get_value (codes "Session") r)
    ∷ (codes "RTP-Info", r.url ++ codes "track1")
    ∷ []

play_answer-print :
    (r : Request)
    → Lacks 0 (get_value (codes "CSeq") r)
    → Lacks 0 (get_value (codes "Session") r)
    → Lacks 0 r.url
    → play_answer r
      ≡ head_of (codes "RTSP/1.0") (codes "200") (codes "OK") (play_fields r) ++ blank_line
unfolding play_answer ok_lines print_lines
play_answer-print r a b c =
    rw (c_str-Lacks _ a, c_str-Lacks _ b, c_str-Lacks _ c) (simp append_assoc)

-- The answer to PLAY, when DESCRIBE made a reader, is one text, a head and a blank line, and the
-- reader is told to open its file; what comes of that changes nothing else. Where `size_t` has 32
-- bits, ParseHead of that head gets the status 200, the CSeq and the Session of the request, and its
-- address, if these have no 0 and are fields, and the text is shorter than 4096 bytes.
pub process_play-answers :
    (opens : Bool) (s : RtspSession) (q : Request) (f : FlvFile)
    → s.reader ≡ some f
    → Lacks 0 (get_value (codes "CSeq") s.request)
    → Lacks 0 (get_value (codes "Session") s.request)
    → Lacks 0 s.request.url
    → AreFields (play_fields s.request)
    → length (play_answer s.request) < 4096
    → (head : List ℕ) × (process_play opens s
        ≡ some (record s {
          sent = s.sent ++ ((head ++ blank_line) ∷ []);
          reader = some (open_file opens f).0;
        }))
      × (parse_head true 3 head q ≡ (
        ended (
            set_all
              (play_fields s.request)
              (record q { method = codes "RTSP/1.0"; url = codes "200"; version = codes "OK" })),
        true,
      ))
unfolding process_play parse_head formatted send
process_play-answers opens s q f made a b c good short = (
  head_of (codes "RTSP/1.0") (codes "200") (codes "OK") (play_fields s.request),
  rw (lt→ltb _ 4096 short, made, play_answer-print s.request a b c) refl,
  parse_head-print (codes "RTSP/1.0") (codes "200") (codes "OK") _ _ q (omega arith) (omega arith)
      (omega arith) (omega arith) (omega arith) good,
)
