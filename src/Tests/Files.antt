-- ===== src/Tests/Files.antt =====
-- The theorems on the reader of FLV files at concrete inputs.
use streamcode.Prelude.{ℕ, suc, ◌+◌, ◌≡◌, refl, some, List, [], ◌∷◌, ◌++◌, arith, length, false}
use streamcode.Reader.{Reader}
use streamcode.FlvReader.{read_video_config, ok, and_then, decode_chunk_internal}
use streamcode.FlvReader.Configs.{config_bytes, join, print_sets, read_video_config-print}
use streamcode.FlvReader.Tags.{
  UnitTag, print_units, print_tag, print_tags, tags_packets, decode_chunk_internal-print,
}
use streamcode.FlvReader.Files.{FlvReader, decode_chunk}
use streamcode.FlvReader.Pieces.{decode_chunk-pieces}

read_video_config-print_example :
    read_video_config
      (config_bytes 1 77 64 31 255 ((7 ∷ 8 ∷ []) ∷ []) ((9 ∷ []) ∷ []) 2 (0 ∷ 1 ∷ 5 ∷ []))
    ≡ some (record { sps = 7 ∷ 8 ∷ []; pps = 9 ∷ []; counted = 14 })
unfolding join print_sets
read_video_config-print_example =
    read_video_config-print 1 77 64 31 255 ((7 ∷ 8 ∷ []) ∷ []) ((9 ∷ []) ∷ []) 2 (0 ∷ 1 ∷ 5 ∷ [])
      refl (omega arith) (omega arith) (omega arith) (omega arith)

abbrev tag : UnitTag
tag = record {
  before0 = 0;
  before1 = 0;
  before2 = 0;
  before3 = 0;
  time0 = 0;
  time1 = 1;
  time2 = 44;
  time3 = 0;
  codec = 23;
  kind = 1;
  offset0 = 0;
  offset1 = 0;
  offset2 = 0;
  units = (101 ∷ 1 ∷ []) ∷ (65 ∷ []) ∷ [];
}

decode_chunk_internal-print_example :
    (r : Reader) × (decode_chunk_internal
        (suc (length (print_tags (tag ∷ []) ++ (3 ∷ []))))
        (print_tags (tag ∷ []) ++ (3 ∷ []))
        []
      ≡ ok (record {
        cursor = record { reader = r; packets = tags_packets (tag ∷ []) };
        parsed = 31;
        left = 1;
      }))
unfolding print_tags print_tag print_units
decode_chunk_internal-print_example =
    decode_chunk_internal-print (tag ∷ []) (3 ∷ []) []
      ((refl, (λ e. omega (arith, e)), omega arith), tt) (omega arith) (omega arith)

abbrev empty_reader : FlvReader
empty_reader = record {
  buffer = [];
  packets = [];
  posted = 0;
  version = 1;
  has_video = false;
  has_audio = false;
}

-- The first piece is a tag and three bytes of the next one.
abbrev first : List ℕ
first =
    0 ∷ 0 ∷ 0 ∷ 9 ∷ 0 ∷ 0 ∷ 16 ∷ 0 ∷ 1 ∷ 44 ∷ 0 ∷ 0 ∷ 0 ∷ 0 ∷ 23 ∷ 1 ∷ 0 ∷ 0 ∷ 0 ∷ 0 ∷ 0 ∷ 0 ∷ 2
    ∷ 101 ∷ 1 ∷ 0 ∷ 0 ∷ 0 ∷ 1 ∷ 65 ∷ 0 ∷ 0 ∷ 0 ∷ []

abbrev second : List ℕ
second =
    9 ∷ 0 ∷ 0 ∷ 16 ∷ 0 ∷ 1 ∷ 44 ∷ 0 ∷ 0 ∷ 0 ∷ 0 ∷ 23 ∷ 1 ∷ 0 ∷ 0 ∷ 0 ∷ 0 ∷ 0 ∷ 0 ∷ 2 ∷ 101 ∷ 1 ∷ 0
    ∷ 0 ∷ 0 ∷ 1 ∷ 65 ∷ []

decode_chunk-pieces_example :
    and_then (decode_chunk 1 (0 ∷ first) empty_reader) (decode_chunk 1 (0 ∷ second))
    ≡ and_then
        (decode_chunk 1 (0 ∷ first ++ (0 ∷ second)) empty_reader)
        (λ g. ok (record g { posted = g.posted + 1 }))
unfolding print_tags print_tag print_units
decode_chunk-pieces_example =
    decode_chunk-pieces (tag ∷ []) (tag ∷ []) (0 ∷ 0 ∷ 0 ∷ []) [] 0 0 first second empty_reader refl
      refl ((refl, (λ e. omega (arith, e)), omega arith), tt)
      ((refl, (λ e. omega (arith, e)), omega arith), tt) (omega arith) (omega arith) (omega arith)
