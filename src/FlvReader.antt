-- ===== src/FlvReader.antt =====
-- stream/AVC.cpp, and stream/FlvReader.h and stream/FlvReader.cpp: the units of a video in an FLV file,
-- which arrives in pieces. `none` is an access outside of the bytes that a function was given. The two
-- sides of `Read24() | (Read8() << 24)` are evaluated from left to right.
pub mod Files
pub mod Configs
pub mod Tags
pub mod Pieces
use streamcode.Prelude.{
  ℕ, zero, suc, ◌+◌, ◌*◌, ◌/◌, ◌%◌, ◌^◌, Bool, true, false, Option, none, some, List, [], ◌∷◌, ◌++◌,
  length, take, drop, ltb, ◌==◌, if◌then◌else◌, add32, sub32, add64, sub64, ◌>>=◌,
}
use streamcode.Reader.{Reader, init, rest, available, read, read8, read16, read24, read32, next}
use streamcode.Source.{FrameType, video, video_config}
use streamcode.Flv.{FlvPacket}

-- Where a loop over the parameter sets is: the cursor, the text that they are appended to, and how
-- many bytes were counted.
pub record Sets : Type 0 where
  pub reader : Reader
  pub text : List ℕ
  pub counted : ℕ

-- A loop over `count` sets. `append` copies as many bytes as the size says, of what is there.
unfoldable pub read_sets : ℕ → Sets → Option Sets
read_sets zero s = some s
read_sets (suc count) s =
    let size = (read16 s.reader).0 in
    let behind = (read16 s.reader).1 in
    if ltb (length (rest behind)) size
    then none
    else read_sets count (record {
      reader = (next size behind).1;
      text = s.text ++ take size (rest behind);
      counted = add32 s.counted (size + 2);
    })

-- What ReadVideoConfig appends to `sps` and to `pps`, and what it returns.
pub record Config : Type 0 where
  pub sps : List ℕ
  pub pps : List ℕ
  pub counted : ℕ

-- The count of the second kind of sets is read, and the first count is used for both loops.
unfoldable pub read_video_config : List ℕ → Option Config
read_video_config bytes =
    let start = (next 5 (init bytes)).1 in
    let count = (read8 start).0 % 32 in
    read_sets count (record { reader = (read8 start).1; text = []; counted = 6 }) >>= λ sps.
    read_sets count
      (record { reader = (read8 sps.reader).1; text = []; counted = add32 sps.counted 1 })
    >>= λ pps. some (record { sps = sps.text; pps = pps.text; counted = pps.counted })

-- How a function of the reader ends.
pub data Result (A : Type 0) : Type 0 where
  ok : A → Result A
  faults : Result A
  out_of_fuel : Result A

abbrev pub and_then : {A B : Type 0} → Result A → (A → Result B) → Result B
and_then (ok a) k = k a
and_then faults k = faults
and_then out_of_fuel k = out_of_fuel

-- The cursor, and what the callback was called on.
pub record Cursor : Type 0 where
  pub reader : Reader
  pub packets : List FlvPacket

unfoldable pub deliver : FrameType → ℕ → List ℕ → List FlvPacket → List FlvPacket
deliver type time bytes ps =
    ps ++ (record { frame_type = type; timestamp = time; bytes = bytes } ∷ [])

-- The loop over the units of a tag, with `countsize` and its limit. Its packet is a new one, whose time
-- is 0, and not the one whose time was set.
unfoldable pub unit_loop : ℕ → ℕ → ℕ → Cursor → Result Cursor
unit_loop zero count limit c = out_of_fuel
unit_loop (suc fuel) count limit c =
    let size = (read32 c.reader).0 in
    let got = read size (read32 c.reader).1 in
    let more =
      unit_loop fuel (add32 count (add32 size 4)) limit
        (record { reader = got.1; packets = deliver video 0 got.0 c.packets }) in
    if ltb count limit then more else ok c

abbrev pub with_config : ℕ → ℕ → Cursor → Option Config → Result Cursor
with_config size time c none = faults
with_config size time c (some f) = ok (record {
  reader = (next (sub32 size 5) c.reader).1;
  packets = deliver video_config time f.pps (deliver video_config time f.sps c.packets);
})

-- A tag of H264: the kind of its content, the offset of its time, and the content.
unfoldable pub h264_tag : ℕ → ℕ → ℕ → Cursor → Result Cursor
h264_tag fuel size time c =
    let kind = (read8 c.reader).0 in
    let offset = (read24 (read8 c.reader).1).0 in
    let c' : Cursor = record c { reader = (read24 (read8 c.reader).1).1 } in
    if kind == 0
    then with_config size (add32 time offset) c' (read_video_config (rest c'.reader))
    else unit_loop fuel 0 (sub32 size 5) c'

unfoldable pub video_tag : ℕ → ℕ → ℕ → Cursor → Result Cursor
video_tag fuel size time c =
    let codec = (read8 c.reader).0 in
    let c' : Cursor = record c { reader = (read8 c.reader).1 } in
    if codec % 16 == 7
    then h264_tag fuel size time c'
    else ok (record c' { reader = (next (sub32 size 8) c'.reader).1 })

-- The content of a tag, by its type; that of an unknown type is not passed over.
unfoldable pub tag_body : ℕ → ℕ → ℕ → ℕ → Cursor → Result Cursor
tag_body fuel type size time c =
    if type == 9
    then video_tag fuel size time c
    else if type == 8
    then ok (record c { reader = (next size c.reader).1 })
    else if type == 18
    then ok (record c { reader = (next size c.reader).1 })
    else ok c

-- The variables of DecodeChunkInternal; `left` is `allSize`.
pub record Decoding : Type 0 where
  pub cursor : Cursor
  pub parsed : ℕ
  pub left : ℕ

-- The numbers in front of a tag, and the cursor behind them.
pub record TagHead : Type 0 where
  pub type : ℕ
  pub size : ℕ
  pub time : ℕ
  pub behind : Reader

unfoldable pub tag_head : Reader → TagHead
tag_head r =
    let type = read8 (read32 r).1 in
    let size = read24 type.1 in
    let low = read24 size.1 in
    let high = read8 low.1 in
    record {
      type = type.0;
      size = size.0;
      time = low.0 + high.0 * 2 ^ 24;
      behind = (read24 high.1).1;
    }

abbrev pub counted_tag : ℕ → Decoding → Cursor → Decoding
counted_tag size d c = record {
  cursor = c;
  parsed = add64 d.parsed (15 + size);
  left = sub64 d.left (15 + size);
}

-- The loop of DecodeChunkInternal.
unfoldable pub tag_loop : ℕ → Decoding → Result Decoding
tag_loop zero d = out_of_fuel
tag_loop (suc fuel) d =
    let r = d.cursor.reader in
    let h = tag_head r in
    let more =
      and_then (tag_body fuel h.type h.size h.time (record d.cursor { reader = h.behind }))
        (λ c. tag_loop fuel (counted_tag h.size d c)) in
    if d.left == 0
    then ok d
    else if ltb (available r) 15
    then ok d
    else if ltb (available h.behind) h.size
    then ok d
    else more

-- DecodeChunkInternal, whose result is `parsed`.
unfoldable pub decode_chunk_internal : ℕ → List ℕ → List FlvPacket → Result Decoding
decode_chunk_internal fuel bytes ps = tag_loop fuel (record {
  cursor = record { reader = init bytes; packets = ps };
  parsed = 0;
  left = length bytes;
})
