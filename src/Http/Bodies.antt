-- ===== src/Http/Bodies.antt =====
-- HttpRequest::Parse: the body of a request with a `Content-Length`.
use streamcode.Prelude.{
  ℕ, suc, ◌+◌, ◌*◌, ◌^◌, ◌<◌, ◌≤◌, ◌≡◌, refl, ap, ◌∙◌, Bool, Option, List, ◌++◌, take, drop, arith,
  append-nil, if◌then◌else◌,
}
use streamcode.TBuffer.{TBuffer}
use streamcode.Ring.Valid.{IsValid, contents}
use streamcode.Ring.Transfer.{read_into, read_into-moves}
use streamcode.Http.Parse.{
  waiting_header, waiting_content_length, completed, Parser, Locals, goes_on, on_content, onward,
  parse_round, rounds, parse,
}

-- The parser once a request is complete, with this buffer.
abbrev pub reported : Parser → TBuffer → Parser
reported p content = record p {
  content = content;
  status = waiting_header;
  messages = if p.has_callback then p.messages + 1 else p.messages;
}

rounds-on :
    {l' : Locals} {p' : Parser} {after : TBuffer} (fuel : ℕ) (junk : ℕ → ℕ) (narrow : Bool)
    (stoi : List ℕ → Option ℕ) (l : Locals) (p : Parser) (b : TBuffer)
    → parse_round junk narrow stoi l p b ≡ goes_on l' p' after
    → rounds (suc fuel) junk narrow stoi l p b ≡ rounds fuel junk narrow stoi l' p' after
unfolding rounds
rounds-on fuel junk narrow stoi l p b e = ap (λ r. onward r (rounds fuel junk narrow stoi)) e

round-content :
    (junk : ℕ → ℕ) (narrow : Bool) (stoi : List ℕ → Option ℕ) (l : Locals) (p : Parser)
    (b : TBuffer)
    → p.status ≡ waiting_content_length
    → parse_round junk narrow stoi l p b
      ≡ on_content l p (read_into junk l.content_length b p.content)
unfolding parse_round
round-content junk narrow stoi l p b e = rw e refl

-- If the bytes of the body are there, two rounds of the loop move them behind what the buffer of the
-- parser holds, report the request, and go on behind them, on valid rings of a bounded size.
pub rounds-content :
    (fuel : ℕ) (junk : ℕ → ℕ) (narrow : Bool) (stoi : List ℕ → Option ℕ) (l : Locals) (p : Parser)
    (b : TBuffer)
    → p.status ≡ waiting_content_length
    → IsValid b
    → IsValid p.content
    → l.content_length ≤ b.size
    → 5 * (l.content_length + p.content.capacity) < 2 ^ 62
    → (after filled : TBuffer) × (rounds (suc (suc fuel)) junk narrow stoi l p b
        ≡ rounds fuel junk narrow stoi l (reported p filled) after)
      × IsValid after
      × IsValid filled
      × (contents after ≡ drop l.content_length (contents b))
      × (contents filled ≡ contents p.content ++ take l.content_length (contents b))
unfolding parse_round
rounds-content fuel junk narrow stoi l p b status v w enough small =
    let (after, filled, eq, drops, gains) =
      read_into-moves junk l.content_length v w enough small in
    (
      after,
      filled,
      rounds-on (suc fuel) junk narrow stoi l p b
            (round-content junk narrow stoi l p b status ∙ ap (on_content l p) eq)
          ∙ rounds-on fuel junk narrow stoi l (record p { content = filled; status = completed })
              after refl,
      drops.0,
      gains.0,
      drops.1,
      gains.1,
    )

-- If a call of Parse returns while it waits for the body, the next call takes the length to be 0: it
-- reports the request without any byte of the body, and goes on to parse the body as a request.
pub parse-forgets_body :
    (fuel : ℕ) (junk : ℕ → ℕ) (narrow : Bool) (stoi : List ℕ → Option ℕ) (p : Parser) (b : TBuffer)
    → p.status ≡ waiting_content_length
    → IsValid b
    → IsValid p.content
    → 5 * p.content.capacity < 2 ^ 62
    → (after filled : TBuffer) × (parse (suc (suc fuel)) junk narrow stoi p b
        ≡ parse fuel junk narrow stoi (reported p filled) after)
      × (contents after ≡ contents b)
      × (contents filled ≡ contents p.content)
unfolding parse
parse-forgets_body fuel junk narrow stoi p b status v w small =
    let (after, filled, eq, _, _, rest, content) =
      rounds-content fuel junk narrow stoi (record { content_length = 0; chunk_size = 0 }) p b
        status v w (omega arith) (omega (arith, small)) in
    (after, filled, eq, rest, content ∙ append-nil (contents p.content))
