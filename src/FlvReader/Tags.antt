-- ===== src/FlvReader/Tags.antt =====
-- DecodeChunkInternal of stream/FlvReader.cpp on tags of units.
use streamcode.Prelude.{
  ℕ, zero, suc, ◌+◌, ◌%◌, ◌^◌, ◌≤◌, ◌<◌, ◌≡◌, ◌≢◌, refl, sym, ap, ap₂, subst, ◌∙◌, List, [], ◌∷◌,
  ◌++◌, arith, length, drop, take-append, drop-append, append_assoc, append-nil, le→ltb, lt→ltb,
  eq_false, length-append, ==-cases, inl, inr, add32-eq, sub32, sub32-eq, add64-eq, sub64-eq,
}
use streamcode.Bytes.{byte, big_endian, flip24, flip32}
use streamcode.Reader.{Reader, init, read, read8, read24, read32, read_word}
use streamcode.Reader.Laws.{At, read-At, read8-At, read24-At, read32-At, available-At}
use streamcode.Source.{video}
use streamcode.Flv.{FlvPacket}
use streamcode.FlvReader.{
  ok, Cursor, deliver, unit_loop, h264_tag, video_tag, tag_body, Decoding, tag_head, tag_loop,
  decode_chunk_internal,
}
use streamcode.FlvReader.Configs.{init-At}

-- Units, each behind its size.
unfoldable pub print_units : List (List ℕ) → List ℕ
print_units [] = []
print_units (u ∷ us) =
    let n = length u in byte 3 n ∷ byte 2 n ∷ byte 1 n ∷ byte 0 n ∷ (u ++ print_units us)

-- The packets of units, whose time is 0.
unfoldable pub unit_packets : List (List ℕ) → List FlvPacket
unit_packets [] = []
unit_packets (u ∷ us) = record { frame_type = video; timestamp = 0; bytes = u } ∷ unit_packets us

unit_size : (n : ℕ) → n < 2 ^ 32 → big_endian 0 (byte 3 n ∷ byte 2 n ∷ byte 1 n ∷ byte 0 n ∷ []) ≡ n
unfolding big_endian
unit_size n h = omega (arith, h)

-- One round of the loop over the units.
unit_loop-one :
    (u text : List ℕ) (fuel count limit : ℕ) (c : Cursor)
    → At c.reader (
        byte 3 (length u) ∷ byte 2 (length u) ∷ byte 1 (length u) ∷ byte 0 (length u) ∷ (u ++ text))
    → count < limit
    → count + (length u + 4) < 2 ^ 32
    → (r : Reader) × At r text
      × (unit_loop (suc fuel) count limit c
          ≡ unit_loop fuel
              (count + (length u + 4))
              limit
              (record { reader = r; packets = deliver video 0 u c.packets }))
unfolding unit_loop
unit_loop-one u text fuel count limit c at below small =
    let n = length u in
    let (value, at1) =
      read32-At (u ++ text) (byte 3 n) (byte 2 n) (omega arith) (omega arith) (byte 1 n) (byte 0 n)
        (omega arith) (omega arith) at in
    let same : (read32 c.reader).0 ≡ n = value ∙ unit_size n (omega arith) in
    let (got, at2) = read-At n at1 in
    (
      (read n (read32 c.reader).1).1,
      subst (At (read n (read32 c.reader).1).1) (drop-append u text) at2,
      rw
          (
            lt→ltb count limit below,
            same,
            got ∙ take-append u text,
            add32-eq n 4 (omega arith),
            add32-eq count (n + 4) small,
          )
          refl,
    )

unit_loop-done : (fuel limit : ℕ) (c : Cursor) → unit_loop (suc fuel) limit limit c ≡ ok c
unfolding unit_loop
unit_loop-done fuel limit c = rw (le→ltb limit limit (omega arith)) refl

-- The loop over all units of a tag.
pub unit_loop-print :
    (us : List (List ℕ)) (text : List ℕ) (fuel count limit : ℕ) (c : Cursor)
    → At c.reader (print_units us ++ text)
    → count + length (print_units us) ≡ limit
    → limit < 2 ^ 32
    → length us < fuel
    → (r : Reader) × At r text
      × (unit_loop fuel count limit c
          ≡ ok (record { reader = r; packets = c.packets ++ unit_packets us }))
unfolding print_units unit_packets deliver
unit_loop-print us text zero count limit c at e small h = absurd (omega arith)
unit_loop-print [] text (suc fuel) count limit c at e small h = (
  c.reader,
  at,
  ap (λ n. unit_loop (suc fuel) n limit c) (omega arith)
      ∙ unit_loop-done fuel limit c
      ∙ ap (λ ps. ok (record { reader = c.reader; packets = ps })) (sym (append-nil c.packets)),
)
unit_loop-print (u ∷ us) text (suc fuel) count limit c at e small h =
    let size = length-append u (print_units us) in
    let n = length u in
    let (r, at1, step) =
      unit_loop-one u (print_units us ++ text) fuel count limit c
        (subst (λ t. At c.reader (byte 3 n ∷ byte 2 n ∷ byte 1 n ∷ byte 0 n ∷ t))
          (append_assoc u (print_units us) text) at)
        (omega (arith, size)) (omega (arith, size)) in
    let (r', at2, rest_of) =
      unit_loop-print us text fuel (count + (length u + 4)) limit
        (record { reader = r; packets = deliver video 0 u c.packets }) at1 (omega (arith, size))
        small (omega arith) in
    (
      r',
      at2,
      step
          ∙ rest_of
          ∙ ap (λ ps. ok (record { reader = r'; packets = ps }))
              (append_assoc c.packets (record { frame_type = video; timestamp = 0; bytes = u } ∷ [])
                (unit_packets us)),
    )

-- A tag of units: the numbers that the reader passes over, the codec and the kind of its content.
pub record UnitTag : Type 0 where
  pub before0 : ℕ
  pub before1 : ℕ
  pub before2 : ℕ
  pub before3 : ℕ
  pub time0 : ℕ
  pub time1 : ℕ
  pub time2 : ℕ
  pub time3 : ℕ
  pub codec : ℕ
  pub kind : ℕ
  pub offset0 : ℕ
  pub offset1 : ℕ
  pub offset2 : ℕ
  pub units : List (List ℕ)

abbrev pub body_size : UnitTag → ℕ
body_size t = length (print_units t.units) + 5

unfoldable pub print_tag : UnitTag → List ℕ
print_tag t =
    t.before0
    ∷ t.before1
    ∷ t.before2
    ∷ t.before3
    ∷ 9
    ∷ byte 2 (body_size t)
    ∷ byte 1 (body_size t)
    ∷ byte 0 (body_size t)
    ∷ t.time0
    ∷ t.time1
    ∷ t.time2
    ∷ t.time3
    ∷ 0
    ∷ 0
    ∷ 0
    ∷ t.codec
    ∷ t.kind
    ∷ t.offset0
    ∷ t.offset1
    ∷ t.offset2
    ∷ print_units t.units

-- H264, with a kind that is not the configuration, and a size of 24 bits.
abbrev pub IsUnits : UnitTag → Type 0
IsUnits t = (t.codec % 16 ≡ 7) × (t.kind ≢ 0) × (body_size t < 2 ^ 24)

-- The cursor behind a word whose value is not used.
word-skips :
    {r : Reader} {text : List ℕ} (n : ℕ) (f : ℕ → ℕ)
    → At r text
    → At (read_word n f r).1 (drop n text)
unfolding read_word
word-skips n f at = (read-At n at).1

tag_size : (n : ℕ) → n < 2 ^ 24 → big_endian 0 (byte 2 n ∷ byte 1 n ∷ byte 0 n ∷ []) ≡ n
unfolding big_endian
tag_size n h = omega (arith, h)

length-tag :
    (t : UnitTag) (text : List ℕ) → length (print_tag t ++ text) ≡ body_size t + 15 + length text
unfolding print_tag
length-tag t text = omega (arith, length-append (print_units t.units) text)

length-print_tag : (t : UnitTag) → length (print_tag t) ≡ body_size t + 15
unfolding print_tag
length-print_tag t = omega arith

-- What `tag_head` makes of such a tag.
tag_head-print :
    (t : UnitTag) (text : List ℕ) {r : Reader}
    → body_size t < 2 ^ 24
    → At r (print_tag t ++ text)
    → ((tag_head r).type ≡ 9)
      × ((tag_head r).size ≡ body_size t)
      × At
          (tag_head r).behind
          (t.codec ∷ t.kind ∷ t.offset0 ∷ t.offset1 ∷ t.offset2 ∷ (print_units t.units ++ text))
unfolding tag_head print_tag read24 read32
tag_head-print t text {r} small at =
    let n = body_size t in
    let (type, at1) = read8-At (word-skips 4 flip32 at) in
    let (size, at2) =
      read24-At _ (byte 2 n) (byte 1 n) (omega arith) (omega arith) (byte 0 n) (omega arith) at1 in
    let (high, at3) = read8-At (word-skips 3 flip24 at2) in
    (type, size ∙ tag_size n small, word-skips 3 flip24 at3)

-- The content of such a tag: the loop over its units.
tag_body-loops :
    (t : UnitTag) (text : List ℕ) (fuel time : ℕ) (c : Cursor)
    → IsUnits t
    → At c.reader
        (t.codec ∷ t.kind ∷ t.offset0 ∷ t.offset1 ∷ t.offset2 ∷ (print_units t.units ++ text))
    → (r : Reader) × At r (print_units t.units ++ text)
      × (tag_body fuel 9 (body_size t) time c
          ≡ unit_loop fuel 0
              (length (print_units t.units))
              (record { reader = r; packets = c.packets }))
unfolding tag_body video_tag h264_tag read24
tag_body-loops t text fuel time c (h264, other, small) at =
    let (codec, at1) = read8-At at in
    let (kind, at2) = read8-At at1 in
    let limit : sub32 (body_size t) 5 ≡ length (print_units t.units) =
      sub32-eq (body_size t) 5 (omega arith) (omega arith) ∙ omega arith in
    (
      (read24 (read8 (read8 c.reader).1).1).1,
      word-skips 3 flip24 at2,
      rw (codec, h264, kind, eq_false t.kind 0 other, limit) refl,
    )

tag_body-units :
    (t : UnitTag) (text : List ℕ) (fuel time : ℕ) (c : Cursor)
    → IsUnits t
    → length t.units < fuel
    → At c.reader
        (t.codec ∷ t.kind ∷ t.offset0 ∷ t.offset1 ∷ t.offset2 ∷ (print_units t.units ++ text))
    → (r : Reader) × At r text
      × (tag_body fuel 9 (body_size t) time c
          ≡ ok (record { reader = r; packets = c.packets ++ unit_packets t.units }))
tag_body-units t text fuel time c good enough at =
    let (r, at1, e) = tag_body-loops t text fuel time c good at in
    let (r', at2, e') =
      unit_loop-print t.units text fuel 0 (length (print_units t.units))
        (record { reader = r; packets = c.packets }) at1 (omega arith) (omega (arith, good.2))
        enough in
    (r', at2, e ∙ e')

-- One round of the loop of DecodeChunkInternal.
tag_loop-one :
    (t : UnitTag) (text : List ℕ) (fuel : ℕ) (d : Decoding)
    → IsUnits t
    → length t.units < fuel
    → At d.cursor.reader (print_tag t ++ text)
    → d.left ≡ length (print_tag t ++ text)
    → d.left < 2 ^ 32
    → d.parsed + d.left < 2 ^ 32
    → (r : Reader) × At r text
      × (tag_loop (suc fuel) d
          ≡ tag_loop fuel (record {
            cursor = record { reader = r; packets = d.cursor.packets ++ unit_packets t.units };
            parsed = d.parsed + length (print_tag t);
            left = length text;
          }))
unfolding tag_loop
tag_loop-one t text fuel d good enough at left small room =
    let r = d.cursor.reader in
    let (type, size, at1) = tag_head-print t text good.2 at in
    let (r', at2, e) =
      tag_body-units t text fuel (tag_head r).time
        (record d.cursor { reader = (tag_head r).behind }) good enough at1 in
    let whole : length (print_tag t ++ text) ≡ body_size t + 15 + length text = length-tag t text in
    let size' : length (print_tag t) ≡ body_size t + 15 = length-print_tag t in
    let body : List ℕ =
      t.codec ∷ t.kind ∷ t.offset0 ∷ t.offset1 ∷ t.offset2 ∷ print_units t.units in
    let inside : length (body ++ text) ≡ body_size t + length text =
      omega (arith, length-append (print_units t.units) text) in
    (
      r',
      at2,
      rw
          (
            eq_false d.left 0 (omega (arith, whole, left)),
            available-At at,
            le→ltb (length (print_tag t ++ text)) 15 (omega (arith, whole)),
            available-At at1,
            type,
            size,
            le→ltb (length (body ++ text)) (body_size t) (omega (arith, inside)),
            e,
          )
          (ap₂
            (λ m n. tag_loop fuel (record {
              cursor = record { reader = r'; packets = d.cursor.packets ++ unit_packets t.units };
              parsed = m;
              left = n;
            }))
            (add64-eq d.parsed (15 + body_size t) (omega (arith, whole, left))
              ∙ omega (arith, size'))
            (sub64-eq d.left (15 + body_size t) (omega (arith, whole, left)) (omega arith)
              ∙ omega (arith, whole, left))),
    )

unfoldable pub print_tags : List UnitTag → List ℕ
print_tags [] = []
print_tags (t ∷ ts) = print_tag t ++ print_tags ts

unfoldable pub tags_packets : List UnitTag → List FlvPacket
tags_packets [] = []
tags_packets (t ∷ ts) = unit_packets t.units ++ tags_packets ts

abbrev pub AllUnits : List UnitTag → Type 0
AllUnits [] = Unit
AllUnits (t ∷ ts) = IsUnits t × AllUnits ts

length-units : (us : List (List ℕ)) → length us ≤ length (print_units us)
unfolding print_units
length-units [] = omega arith
length-units (u ∷ us) = omega (arith, length-units us, length-append u (print_units us))

-- Less than the 15 bytes in front of a content end the loop.
tag_loop-short :
    (fuel : ℕ) (text : List ℕ) (d : Decoding)
    → At d.cursor.reader text
    → length text < 15
    → tag_loop (suc fuel) d ≡ ok d
unfolding tag_loop
tag_loop-short fuel text d at short = elim (==-cases d.left 0) [
  | inl (e, h) ↦ rw e refl
  | inr e ↦ rw (e, available-At at, lt→ltb (length text) 15 short) refl
]

tag_loop-print :
    (ts : List UnitTag) (text : List ℕ) (fuel : ℕ) (d : Decoding)
    → AllUnits ts
    → length text < 15
    → length (print_tags ts ++ text) < fuel
    → At d.cursor.reader (print_tags ts ++ text)
    → d.left ≡ length (print_tags ts ++ text)
    → d.parsed + d.left < 2 ^ 32
    → (r : Reader) × (tag_loop fuel d
        ≡ ok (record {
          cursor = record { reader = r; packets = d.cursor.packets ++ tags_packets ts };
          parsed = d.parsed + length (print_tags ts);
          left = length text;
        }))
unfolding print_tags tags_packets
tag_loop-print ts text zero d good short enough at left room = absurd (omega arith)
tag_loop-print [] text (suc fuel) d good short enough at left room = (
  d.cursor.reader,
  tag_loop-short fuel text d at short ∙ ground (arith, append-nil d.cursor.packets, left),
)
tag_loop-print (t ∷ ts) text (suc fuel) d (good, goods) short enough at left room =
    let size = length-append (print_tag t) (print_tags ts) in
    let all = append_assoc (print_tag t) (print_tags ts) text in
    let (r, at', e) =
      tag_loop-one t (print_tags ts ++ text) fuel d good
        (omega (
          arith,
          length-units t.units,
          length-print_tag t,
          ap length all,
          length-append (print_tag t) (print_tags ts ++ text),
        ))
        (subst (At d.cursor.reader) all at) (left ∙ ap length all) (omega arith) room in
    let (r', e') =
      tag_loop-print ts text fuel
        (record {
          cursor = record { reader = r; packets = d.cursor.packets ++ unit_packets t.units };
          parsed = d.parsed + length (print_tag t);
          left = length (print_tags ts ++ text);
        })
        goods short
        (omega (
          arith,
          length-print_tag t,
          ap length all,
          length-append (print_tag t) (print_tags ts ++ text),
        ))
        at' refl
        (omega (arith, left, ap length all, length-append (print_tag t) (print_tags ts ++ text))) in
    (
      r',
      e
          ∙ e'
          ∙ ap₂
              (λ k n. ok (record {
                cursor = record { reader = r'; packets = k };
                parsed = n;
                left = length text;
              }))
              (append_assoc d.cursor.packets (unit_packets t.units) (tags_packets ts))
              (omega (arith, size)),
    )

-- DecodeChunkInternal of tags of H264 units, and less than 15 bytes behind them, calls back with each
-- unit in its order, each with the time 0 whatever the tags say, and counts just the tags as decoded,
-- if these are shorter than 2 ^ 32 bytes in all. One round more than there are bytes is enough.
pub decode_chunk_internal-print :
    (ts : List UnitTag) (text : List ℕ) (ps : List FlvPacket)
    → AllUnits ts
    → length text < 15
    → length (print_tags ts ++ text) < 2 ^ 32
    → let bytes = print_tags ts ++ text in
      (r : Reader) × (decode_chunk_internal (suc (length bytes)) bytes ps
        ≡ ok (record {
          cursor = record { reader = r; packets = ps ++ tags_packets ts };
          parsed = length (print_tags ts);
          left = length text;
        }))
unfolding decode_chunk_internal
decode_chunk_internal-print ts text ps good short small =
    let (r, e) =
      tag_loop-print ts text (suc (length (print_tags ts ++ text)))
        (record {
          cursor = record { reader = init (print_tags ts ++ text); packets = ps };
          parsed = 0;
          left = length (print_tags ts ++ text);
        })
        good short (omega arith) (init-At (print_tags ts ++ text) small) refl (omega arith) in
    (
      r,
      e
          ∙ ap
              (λ n. ok (record {
                cursor = record { reader = r; packets = ps ++ tags_packets ts };
                parsed = n;
                left = length text;
              }))
              (omega arith),
    )
