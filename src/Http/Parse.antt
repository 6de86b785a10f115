-- ===== src/Http/Parse.antt =====
-- HttpRequest::Parse of stream/HttpRequest.cpp: requests off the input ring of a connection.
use streamcode.Prelude.{
  ℕ, zero, suc, ◌+◌, Bool, true, false, Option, none, some, List, [], ◌∷◌, length, ltb,
  if◌then◌else◌, add64, codes,
}
use streamcode.TBuffer.{TBuffer}
use streamcode.Ring.{add_read_pos}
use streamcode.Ring.Strings.{read_string}
use streamcode.Ring.Transfer.{read_into}
use streamcode.Amf.{same_key}
use streamcode.Http.{Request, get_header, is_empty, crlf, Ending, ended, parse_head}

-- `ReceiveStatus`; the status of trailers is never used.
pub data Status : Type 0 where
  waiting_header waiting_body waiting_content_length waiting_chunk_size waiting_chunk_data
        completed :
      Status

-- `messages` is how often the callback was called, if there is one.
pub record Parser : Type 0 where
  pub status : Status
  pub request : Request
  pub content : TBuffer
  pub has_callback : Bool
  pub messages : ℕ

-- The local variables of a call.
pub record Locals : Type 0 where
  pub content_length : ℕ
  pub chunk_size : ℕ

-- A round of the loop returns false, goes on, or leaves the function: an exception, an access outside
-- an allocation, or a loop in ParseHead that does not end.
pub data Round : Type 0 where
  returns : Parser → TBuffer → Round
  goes_on : Locals → Parser → TBuffer → Round
  leaves : Round

abbrev pub blank_line : List ℕ
blank_line = 13 ∷ 10 ∷ 13 ∷ 10 ∷ []

-- What ParseHead returns is not used.
abbrev pub headed : Locals → Parser → TBuffer → Ending → Round
headed l p b (ended r) =
    goes_on l (record p { request = r; status = waiting_body }) (add_read_pos 4 b).0
headed l p b _ = leaves

abbrev pub on_head : Bool → Locals → Parser → Option (List ℕ × TBuffer) → Round
on_head narrow l p none = leaves
on_head narrow l p (some ([], after)) = returns p after
on_head narrow l p (some (x ∷ head, after)) =
    headed l p after (parse_head narrow (suc (length (x ∷ head))) (x ∷ head) p.request).0

abbrev pub on_length : Locals → Parser → TBuffer → Option ℕ → Round
on_length l p b none = leaves
on_length l p b (some n) =
    goes_on (record l { content_length = n }) (record p { status = waiting_content_length }) b

-- The constant "Transfer-Encoding" is compared with "chunked", and not the header of that name.
abbrev pub on_body : (List ℕ → Option ℕ) → Locals → Parser → TBuffer → Round
on_body stoi l p b =
    let text = get_header (codes "Content-Length") p.request.fields in
    if is_empty text
    then (if same_key (codes "Transfer-Encoding") (codes "chunked")
        then goes_on l (record p { status = waiting_chunk_size }) b
        else goes_on l (record p { status = completed }) b)
    else on_length l p b (stoi text)

abbrev pub on_content : Locals → Parser → Option (Bool × TBuffer × TBuffer) → Round
on_content l p none = leaves
on_content l p (some (false, after, content)) = returns p after
on_content l p (some (true, after, content)) =
    goes_on l (record p { content = content; status = completed }) after

abbrev pub on_size : (List ℕ → Option ℕ) → Locals → Parser → Option (List ℕ × TBuffer) → Round
on_size stoi l p none = leaves
on_size stoi l p (some ([], after)) = returns p after
on_size stoi l p (some (x ∷ text, after)) = sized (stoi (x ∷ text))
  where
    sized : Option ℕ → Round
    sized none = leaves
    sized (some n) =
        goes_on (record l { chunk_size = n }) (record p { status = waiting_chunk_data })
          (add_read_pos 2 after).0

abbrev pub on_chunk : Locals → Parser → Option (Bool × TBuffer × TBuffer) → Round
on_chunk l p none = leaves
on_chunk l p (some (_, after, content)) =
    goes_on l (record p { content = content; status = waiting_chunk_size }) (add_read_pos 2 after).0

-- One round of the loop of Parse. `stoi` is `std::stoi`, converted to `size_t`; `none` is its
-- exception.
unfoldable pub parse_round :
    (ℕ → ℕ) → Bool → (List ℕ → Option ℕ) → Locals → Parser → TBuffer → Round
parse_round junk narrow stoi l p b = elim p.status [
  | waiting_header ↦ on_head narrow l p (read_string blank_line b)
  | waiting_body ↦ on_body stoi l p b
  | waiting_content_length ↦ on_content l p (read_into junk l.content_length b p.content)
  | waiting_chunk_size ↦ on_size stoi l p (read_string crlf b)
  | waiting_chunk_data ↦
      if ltb b.size (add64 l.chunk_size 2)
      then returns p b
      else on_chunk l p (read_into junk l.chunk_size b p.content)
  | completed ↦
      goes_on l
        (record p {
          messages = if p.has_callback then p.messages + 1 else p.messages;
          status = waiting_header;
        })
        b
]

abbrev pub onward :
    Round → (Locals → Parser → TBuffer → Option (Parser × TBuffer)) → Option (Parser × TBuffer)
onward (returns p after) again = some (p, after)
onward (goes_on l p after) again = again l p after
onward leaves again = none

-- What is left when Parse returns false; `none` is that it does not, or not in these rounds.
unfoldable pub rounds :
    ℕ → (ℕ → ℕ) → Bool → (List ℕ → Option ℕ) → Locals → Parser → TBuffer → Option (Parser × TBuffer)
rounds zero junk narrow stoi l p b = none
rounds (suc fuel) junk narrow stoi l p b =
    onward (parse_round junk narrow stoi l p b) (rounds fuel junk narrow stoi)

-- Parse: the local variables are 0 in every call.
unfoldable pub parse :
    ℕ → (ℕ → ℕ) → Bool → (List ℕ → Option ℕ) → Parser → TBuffer → Option (Parser × TBuffer)
parse fuel junk narrow stoi p b =
    rounds fuel junk narrow stoi (record { content_length = 0; chunk_size = 0 }) p b
