-- ===== src/Tests/Https.antt =====
-- Requests of HTTP with one or two fields and a short body.
use streamcode.Prelude.{
  ℕ, ◌≡◌, refl, true, false, none, List, [], ◌∷◌, ◌++◌, arith, codes, take, drop,
}
use streamcode.TBuffer.{TBuffer}
use streamcode.Ring.Valid.{IsValid, contents}
use streamcode.Http.{Request, ended, parse_head, parse_lines}
use streamcode.Http.Heads.{head_of, set_all, parse_head-print}
use streamcode.Http.Hang.{NoEnd, parse_lines-NoEnd}
use streamcode.Http.Parse.{waiting_content_length, Parser, rounds, parse}
use streamcode.Http.Bodies.{reported, rounds-content, parse-forgets_body}

abbrev junk : ℕ → ℕ
junk i = 0

abbrev blank : Request
blank = record { method = []; url = []; version = []; fields = [] }

abbrev fields : List (List ℕ × List ℕ)
fields = (codes "Host", codes "a:8") ∷ (codes "Range", codes "b") ∷ []

parse_head-print_example :
    parse_head true 2 (head_of (codes "GET") (codes "/live") (codes "HTTP/1.1") fields) blank ≡ (
      ended (
          set_all fields (record {
            method = codes "GET";
            url = codes "/live";
            version = codes "HTTP/1.1";
            fields = [];
          })),
      true,
    )
parse_head-print_example =
    parse_head-print (codes "GET") (codes "/live") (codes "HTTP/1.1") (codes "Host", codes "a:8")
      ((codes "Range", codes "b") ∷ []) blank (omega arith) (omega arith) (omega arith)
      (omega arith) (omega arith) (ground arith)

parse_lines-NoEnd_example :
    NoEnd (parse_lines false 50 (codes "GET / HTTP/1.1" ++ (13 ∷ 10 ∷ codes "Host: a")) 16 blank)
parse_lines-NoEnd_example =
    parse_lines-NoEnd 50 16 (codes "GET / HTTP/1.1" ++ (13 ∷ 10 ∷ codes "Host: a")) blank
      (omega arith) (λ e. omega (arith, e)) (omega arith)

-- Four bytes are buffered.
abbrev ring : TBuffer
ring = record {
  buffer = record { extent = 8; cell = λ i. i };
  write_pos = 5;
  read_pos = 1;
  size = 4;
  capacity = 8;
}

abbrev waiting : Parser
waiting = record {
  status = waiting_content_length;
  request = blank;
  content = ring;
  has_callback = true;
  messages = 0;
}

rounds-content_example :
    (after filled : TBuffer) × (rounds 3 junk true
        (λ s. none)
        (record { content_length = 3; chunk_size = 0 })
        waiting
        ring
      ≡ rounds 1 junk true
          (λ s. none)
          (record { content_length = 3; chunk_size = 0 })
          (reported waiting filled)
          after)
    × IsValid after
    × IsValid filled
    × (contents after ≡ drop 3 (contents ring))
    × (contents filled ≡ contents ring ++ take 3 (contents ring))
rounds-content_example =
    rounds-content 1 junk true (λ s. none) (record { content_length = 3; chunk_size = 0 }) waiting
      ring refl (omega arith) (omega arith) (omega arith) (omega arith)

parse-forgets_body_example :
    (after filled : TBuffer) × (parse 3 junk true (λ s. none) waiting ring
      ≡ parse 1 junk true (λ s. none) (reported waiting filled) after)
    × (contents after ≡ contents ring)
    × (contents filled ≡ contents ring)
parse-forgets_body_example =
    parse-forgets_body 1 junk true (λ s. none) waiting ring refl (omega arith) (omega arith)
      (omega arith)
