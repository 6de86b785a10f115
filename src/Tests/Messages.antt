-- ===== src/Tests/Messages.antt =====
-- stream/AMFWriter.cpp, stream/AMFReader.cpp and stream/RtmpDecoder.cpp on small messages.
use streamcode.Prelude.{ℕ, ◌≡◌, ◌≢◌, refl, some, List, [], ◌∷◌, ◌++◌, arith}
use streamcode.Bytes.{stored64, stored16, stored24}
use streamcode.Buffer.{Buffer, contents}
use streamcode.Reader.{Reader, init, rest, read}
use streamcode.Reader
use streamcode.Reader.Laws.{At, init-IsValid}
use streamcode.Amf.{Fields, number, string, object, nil, field, less}
use streamcode.Amf.Writer.{new_writer, write_value}
use streamcode.Amf.Reader.{ok, read_object, stuck}
use streamcode.Amf.Encoding.{encode, encode_string, encode_fields, Emits, write_value-Emits}
use streamcode.Amf.Sorted.{IsSorted}
use streamcode.Amf.RoundTrip.{ArePlain}
use streamcode.Amf.Ends.{read_object-ends}
use streamcode.Amf.Objects.{write-read}
use streamcode.Rtmp.{Decoder, send}
use streamcode.Rtmp
use streamcode.Rtmp.Send.{Message, header, continuation, send_message}
use streamcode.Rtmp.Peer.{chunked, dechunk}
use streamcode.Rtmp.Chunks.{send_message-dechunk}

abbrev zeros : ℕ → ℕ
zeros i = 0

-- { "a": 1 bits, "b": "xy" }
abbrev fields : Fields
fields =
    field (97 ∷ []) (number 4607182418800017408) (field (98 ∷ []) (string (120 ∷ 121 ∷ [])) nil)

fields-ArePlain : ArePlain fields
fields-ArePlain = ground arith

fields-IsSorted : IsSorted fields
unfolding less
fields-IsSorted = ground arith

write-read_example :
    (b : Buffer) × (write_value zeros (object fields) (new_writer zeros) ≡ some b)
    × (after : Reader) × (read_object (init (contents b)) ≡ ok (object fields, after))
unfolding encode encode_fields encode_string stored64 stored16 stored24
write-read_example = write-read zeros fields fields-ArePlain fields-IsSorted (omega arith)

object_start : At (init (encode (object fields) ++ (7 ∷ []))) (encode (object fields) ++ (7 ∷ []))
unfolding init Reader.rest encode encode_fields encode_string stored64 stored16 stored24
object_start = record {
  valid = init-IsValid (encode (object fields) ++ (7 ∷ [])) (omega arith);
  front = refl;
}

write_value-Emits_example : Emits (write_value zeros (object fields)) (encode (object fields))
write_value-Emits_example = write_value-Emits zeros (object fields)

abbrev word_text : List ℕ
word_text = encode_string (120 ∷ 121 ∷ []) ++ (7 ∷ [])

word_start : At (init word_text) word_text
unfolding init Reader.rest encode_string stored16
word_start = record { valid = init-IsValid word_text (omega arith); front = refl }

abbrev number_text : List ℕ
number_text = encode (number 5) ++ (7 ∷ [])

number_start : At (init number_text) number_text
unfolding init Reader.rest encode stored64
number_start = record { valid = init-IsValid number_text (omega arith); front = refl }

-- Five bytes in chunks of two.
abbrev message : Message
message = record {
  type = 9;
  chunk_id = 5;
  stream_id = 1;
  time = 1000;
  body = 1 ∷ 2 ∷ 3 ∷ 4 ∷ 5 ∷ [];
}

abbrev sender : Decoder
sender = record {
  state = Rtmp.handshake_done;
  channels = [];
  packets = [];
  chunk_size = 128;
  local_chunk_size = 2;
  sent = [];
}

send_message-dechunk_example :
    (bytes : List ℕ) × (send_message zeros message sender ≡ some (send bytes sender))
    × (dechunk 2 bytes ≡ some message)
unfolding chunked header continuation
send_message-dechunk_example =
    send_message-dechunk zeros message sender (omega arith) (omega arith) (omega arith)

-- A key of two bytes, of which one is there.
read_object-ends_example : read_object (init (3 ∷ 0 ∷ 2 ∷ 97 ∷ [])) ≢ stuck
read_object-ends_example = read_object-ends (init (3 ∷ 0 ∷ 2 ∷ 97 ∷ []))
