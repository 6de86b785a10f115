-- ===== src/FlvReader/Files.antt =====
-- The part of stream/FlvReader.cpp that puts the pieces of a file together.
use streamcode.Prelude.{
  ℕ, zero, suc, ◌+◌, ◌*◌, Bool, false, ◌&&◌, List, [], ◌∷◌, ◌++◌, length, take, drop, get_or, ◌/◌,
  ◌%◌, ltb, ◌==◌, if◌then◌else◌, sub64, min,
}
use streamcode.Reader.{init, read32}
use streamcode.Flv.{FlvPacket}
use streamcode.FlvReader.{
  Result, ok, faults, out_of_fuel, and_then, Decoding, decode_chunk_internal,
}

-- `data_buffer_`, what the callback was called on, and how often ReadFile was handed to the worker
-- threads; the fields of the file's header.
pub record FlvReader : Type 0 where
  pub buffer : List ℕ
  pub packets : List FlvPacket
  pub posted : ℕ
  pub version : ℕ
  pub has_video : Bool
  pub has_audio : Bool

abbrev pub max_buffer : ℕ
max_buffer = 4 * 1024 * 1024

-- What becomes of `data_buffer_`: what was not decoded stays in it. `faults` is that more was counted as
-- decoded than there was, so that the difference wraps.
unfoldable pub keep_rest : List ℕ → FlvReader → Decoding → Result FlvReader
keep_rest input f d =
    if ltb (length input) d.parsed
    then faults
    else ok (record f { buffer = drop d.parsed input; packets = d.cursor.packets })

-- What is decoded next: the piece, or the buffer with what fits of the piece behind it; and what is
-- left of the piece.
unfoldable pub next_input : List ℕ → List ℕ → List ℕ × List ℕ
next_input piece [] = (piece, [])
next_input piece (x ∷ xs) =
    let room = min (sub64 max_buffer (length (x ∷ xs))) (length piece) in
    ((x ∷ xs) ++ take room piece, drop room piece)

-- The loop of DocodeChunk. The fuel of each call of the decoder is one more than its bytes.
unfoldable pub piece_loop : ℕ → List ℕ → FlvReader → Result FlvReader
piece_loop fuel [] f = ok f
piece_loop zero (x ∷ piece) f = out_of_fuel
piece_loop (suc fuel) (x ∷ piece) f =
    let input = (next_input (x ∷ piece) f.buffer).0 in
    and_then (decode_chunk_internal (suc (length input)) input f.packets)
      λ d. and_then (keep_rest input f d) (piece_loop fuel (next_input (x ∷ piece) f.buffer).1)

unfoldable pub read_next_chunk : FlvReader → FlvReader
read_next_chunk f = record f { posted = f.posted + 1 }

-- DocodeChunk.
unfoldable pub decode_chunk : ℕ → List ℕ → FlvReader → Result FlvReader
decode_chunk fuel piece f = and_then (piece_loop fuel piece f) (λ g. ok (read_next_chunk g))

abbrev pub is_flv : List ℕ → Bool
is_flv (a ∷ b ∷ c ∷ rest) = a == 0x46 && (b == 0x4c && c == 0x56)
is_flv _ = false

-- DecodeHead, of a header with its length in it; `faults` is a length beyond what was read.
unfoldable pub decode_head : ℕ → List ℕ → FlvReader → Result FlvReader
decode_head fuel bytes f =
    let info = get_or bytes 4 0 in
    let size = (read32 (record (init bytes) { current = 5 })).0 in
    let g : FlvReader = record f {
      version = get_or bytes 3 0;
      has_video = info / 128 % 2 == 1;
      has_audio = info / 32 % 2 == 1;
    } in
    if ltb (length bytes) 9
    then ok f
    else if is_flv bytes
    then (if ltb (length bytes) size then faults else decode_chunk fuel (drop size bytes) g)
    else ok f

-- ReadHeader, on what `File::Read` gives of the 200 bytes that it asks for.
unfoldable pub read_header : ℕ → List ℕ → FlvReader → Result FlvReader
read_header fuel bytes f = and_then (decode_head fuel bytes f) (λ g. ok (read_next_chunk g))

-- ReadFile, on what `File::Read` gives of the 4096 bytes that it asks for.
unfoldable pub read_file : ℕ → List ℕ → FlvReader → Result FlvReader
read_file fuel bytes f = if ltb (length bytes) (4 * 1024) then ok f else decode_chunk fuel bytes f
