-- ===== src/FlvReader/Pieces.antt =====
-- DocodeChunk and ReadFile of stream/FlvReader.cpp and stream/FlvReader.h on the pieces of a file.
use streamcode.Prelude.{
  ℕ, ◌+◌, ◌≤◌, ◌<◌, ◌≡◌, refl, sym, ap, ◌∙◌, List, [], ◌∷◌, ◌++◌, arith, length, take-all, drop-all,
  drop-append, append_assoc, le→ltb, lt→ltb, length-append, sub64, sub64-eq, min,
}
use streamcode.FlvReader.{ok, and_then}
use streamcode.FlvReader.Tags.{
  UnitTag, AllUnits, print_tag, unit_packets, print_tags, tags_packets, decode_chunk_internal-print,
}
use streamcode.FlvReader.Files.{
  FlvReader, max_buffer, keep_rest, next_input, piece_loop, decode_chunk, read_next_chunk,
  read_file,
}

-- What is decoded next is the buffer and the piece behind it, while they fit.
next_input-all :
    (piece buffer : List ℕ)
    → length (buffer ++ piece) ≤ max_buffer
    → next_input piece buffer ≡ (buffer ++ piece, [])
unfolding next_input
next_input-all piece [] h = refl
next_input-all piece (x ∷ xs) h =
    let size = length-append (x ∷ xs) piece in
    let room : min (sub64 max_buffer (length (x ∷ xs))) (length piece) ≡ length piece =
      omega
        (arith, sub64-eq max_buffer (length (x ∷ xs)) (omega (arith, size)) (omega arith), size) in
    rw
      (
        room,
        take-all (length piece) piece (omega arith),
        drop-all (length piece) piece (omega arith),
      )
      refl

-- A piece that, behind what the buffer holds, completes tags of H264 units and leaves less than 15
-- bytes: DocodeChunk calls back with each unit of these tags in its order, each with the time 0, keeps
-- just the bytes that are left, and asks for the next piece, if the whole fits in the buffer. One
-- round is enough.
pub decode_chunk-print :
    (ts : List UnitTag) (text : List ℕ) (c : ℕ) (piece : List ℕ) (f : FlvReader)
    → f.buffer ++ (c ∷ piece) ≡ print_tags ts ++ text
    → AllUnits ts
    → length text < 15
    → length (print_tags ts ++ text) ≤ max_buffer
    → decode_chunk 1 (c ∷ piece) f
      ≡ ok (record f {
        buffer = text;
        packets = f.packets ++ tags_packets ts;
        posted = f.posted + 1;
      })
unfolding decode_chunk piece_loop keep_rest read_next_chunk
decode_chunk-print ts text c piece f whole good short small =
    let (r, e) = decode_chunk_internal-print ts text f.packets good short (omega arith) in
    let input : next_input (c ∷ piece) f.buffer ≡ (print_tags ts ++ text, []) =
      next_input-all (c ∷ piece) f.buffer (omega (arith, ap length whole))
      ∙ ap (λ t. (t, [])) whole in
    rw
      (
        input,
        e,
        le→ltb (length (print_tags ts ++ text)) (length (print_tags ts))
            (omega (arith, length-append (print_tags ts) text)),
        drop-append (print_tags ts) text,
      )
      refl

-- The last piece of a file is dropped: when less than 4096 bytes come, ReadFile decodes none of them
-- and asks for no more, though there may be whole tags among them.
pub read_file-short :
    (fuel : ℕ) (bytes : List ℕ) (f : FlvReader)
    → length bytes < 4096
    → read_file fuel bytes f ≡ ok f
unfolding read_file
read_file-short fuel bytes f h = rw (lt→ltb (length bytes) 4096 h) refl

print_tags-append : (ts us : List UnitTag) → print_tags (ts ++ us) ≡ print_tags ts ++ print_tags us
unfolding print_tags
print_tags-append [] us = refl
print_tags-append (t ∷ ts) us =
    ap (λ p. print_tag t ++ p) (print_tags-append ts us)
    ∙ sym (append_assoc (print_tag t) (print_tags ts) (print_tags us))

tags_packets-append :
    (ts us : List UnitTag) → tags_packets (ts ++ us) ≡ tags_packets ts ++ tags_packets us
unfolding tags_packets
tags_packets-append [] us = refl
tags_packets-append (t ∷ ts) us =
    ap (λ p. unit_packets t.units ++ p) (tags_packets-append ts us)
    ∙ sym (append_assoc (unit_packets t.units) (tags_packets ts) (tags_packets us))

AllUnits-append : (ts us : List UnitTag) → AllUnits ts → AllUnits us → AllUnits (ts ++ us)
AllUnits-append [] us h k = k
AllUnits-append (t ∷ ts) us (h, hs) k = (h, AllUnits-append ts us hs k)

-- Tags that are cut into two pieces with less than 15 bytes of the second part left in the first give
-- what they give in one piece.
pub decode_chunk-pieces :
    (ts us : List UnitTag) (text rest : List ℕ) (c d : ℕ) (first second : List ℕ) (f : FlvReader)
    → f.buffer ++ (c ∷ first) ≡ print_tags ts ++ text
    → text ++ (d ∷ second) ≡ print_tags us ++ rest
    → AllUnits ts
    → AllUnits us
    → length text < 15
    → length rest < 15
    → length (print_tags ts) + length (print_tags us) + 15 ≤ max_buffer
    → and_then (decode_chunk 1 (c ∷ first) f) (decode_chunk 1 (d ∷ second))
      ≡ and_then
          (decode_chunk 1 (c ∷ first ++ (d ∷ second)) f)
          (λ g. ok (record g { posted = g.posted + 1 }))
decode_chunk-pieces ts us text rest c d first second f one two good good' short short' small =
    let tags = print_tags-append ts us in
    let whole : f.buffer ++ ((c ∷ first) ++ (d ∷ second)) ≡ print_tags (ts ++ us) ++ rest =
      sym (append_assoc f.buffer (c ∷ first) (d ∷ second))
      ∙ ap (λ t. t ++ (d ∷ second)) one
      ∙ append_assoc (print_tags ts) text (d ∷ second)
      ∙ ap (λ t. print_tags ts ++ t) two
      ∙ sym (append_assoc (print_tags ts) (print_tags us) rest)
      ∙ ap (λ t. t ++ rest) (sym tags) in
    let both = ap length tags in
    let each = length-append (print_tags ts) (print_tags us) in
    rw
      (
        decode_chunk-print ts text c first f one good short
            (omega (arith, length-append (print_tags ts) text)),
        decode_chunk-print us rest d second
            (record f {
              buffer = text;
              packets = f.packets ++ tags_packets ts;
              posted = f.posted + 1;
            })
            two good' short' (omega (arith, length-append (print_tags us) rest)),
        decode_chunk-print (ts ++ us) rest c (first ++ (d ∷ second)) f whole
            (AllUnits-append ts us good good') short'
            (omega (arith, both, each, length-append (print_tags (ts ++ us)) rest)),
        append_assoc f.packets (tags_packets ts) (tags_packets us),
        tags_packets-append ts us,
      )
      refl
