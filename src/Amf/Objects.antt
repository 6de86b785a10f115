-- ===== src/Amf/Objects.antt =====
-- Objects that AMFWriter emits are read back by AMFReader.
use streamcode.Prelude.{
  ℕ, zero, suc, ◌+◌, ◌^◌, ◌≤◌, ◌<◌, ◌≡◌, refl, ap, sym, ◌∙◌, List, [], ◌∷◌, ◌++◌, append_assoc,
  append-nil, arith, length, length-append, some,
}
use streamcode.Bytes.{flip16, flip24, stored16, stored24}
use streamcode.Reader.{Reader, rest, read8, init}
use streamcode.Reader.Laws.{At, read8-At, init-IsValid}
use streamcode.Buffer.{Buffer, contents, init as buffer_init}
use streamcode.Buffer.Append.{init-IsValid as buffer_init-IsValid}
use streamcode.Amf.{object, Fields, nil, field, emplace}
use streamcode.Amf.Writer.{new_writer, write_value}
use streamcode.Amf.Encoding.{encode, encode_fields, Emits, write_value-Emits}
use streamcode.Amf.Reader.{ok, read_fields, read_object}
use streamcode.Amf.Sorted.{collect, IsSorted, collect-sorted}
use streamcode.Amf.RoundTrip.{ArePlain, Yields, read_value-encode, read_key-encode}

-- How many fields there are.
abbrev fields_count : Fields → ℕ
fields_count nil = 0
fields_count (field k v fs) = suc (fields_count fs)

fields_count-le : (fs : Fields) → fields_count fs ≤ length (encode_fields fs)
unfolding encode_fields stored16
fields_count-le nil = omega arith
fields_count-le (field k v fs) = omega (
  arith,
  fields_count-le fs,
  length-append k (encode v ++ encode_fields fs),
  length-append (encode v) (encode_fields fs),
)

read_fields-end :
    {r : Reader} (fuel : ℕ) (acc : Fields) (text : List ℕ)
    → At r (0 ∷ 0 ∷ text)
    → Yields (read_fields (suc fuel) r acc) acc text
unfolding read_fields
read_fields-end {r} fuel acc text at =
    let (after, eq, at') =
      read_key-encode {r = r} [] text (omega arith) (unfold stored16 flip16 in at) in
    (after, rw eq, at')

read_fields-encode :
    (fs : Fields) (fuel : ℕ) (r : Reader) (acc : Fields) (text : List ℕ)
    → ArePlain fs
    → fields_count fs < fuel
    → At r (encode_fields fs ++ (0 ∷ 0 ∷ text))
    → Yields (read_fields fuel r acc) (collect acc fs) text
unfolding read_fields collect encode_fields
read_fields-encode fs zero r acc text plain enough at = elim enough [ ]
read_fields-encode nil (suc fuel) r acc text plain enough at = read_fields-end fuel acc text at
read_fields-encode (field [] v fs) (suc fuel) r acc text plain enough at = absurd (omega arith)
read_fields-encode (field (c ∷ k) v fs) (suc fuel) r acc text plain enough at =
    let tail = encode_fields fs ++ (0 ∷ 0 ∷ text) in
    let at0 : At r (stored16 (flip16 (length (c ∷ k))) ++ ((c ∷ k) ++ (encode v ++ tail))) =
      simp append_assoc at at in
    let (r1, key, at1) = read_key-encode (c ∷ k) (encode v ++ tail) plain.1 at0 in
    let (r2, value, at2) = read_value-encode v tail plain.2 at1 in
    let (after, eq, at3) =
      read_fields-encode fs fuel r2 (emplace (c ∷ k) v acc) text plain.3 (omega arith) at2 in
    (after, rw (key, value, eq), at3)

-- An object whose fields are numbers and strings, under keys that increase as those of a
-- `std::map` do, is read back from its encoding, and nothing behind it is touched.
pub read_object-encode :
    {r : Reader} (fs : Fields) (text : List ℕ)
    → ArePlain fs
    → IsSorted fs
    → At r (encode (object fs) ++ text)
    → (after : Reader) × (read_object r ≡ ok (object fs, after)) × At after text
unfolding read_object encode
read_object-encode {r} fs text plain sorted at =
    let (_, at1) = read8-At at in
    let at2 : At (read8 r).1 (encode_fields fs ++ (0 ∷ 0 ∷ 9 ∷ text)) =
      unfold stored24 flip24 in simp append_assoc at at1 in
    let (mid, eq, at3) =
      read_fields-encode fs (suc (length (rest (read8 r).1))) (read8 r).1 nil (9 ∷ text) plain
        (omega (arith, room at2)) at2 in
    let (_, at4) = read8-At at3 in
    ((read8 mid).1, rw eq (ap (λ f. ok (object f, (read8 mid).1)) (collect-sorted fs sorted)), at4)
  where
    room :
        At (read8 r).1 (encode_fields fs ++ (0 ∷ 0 ∷ 9 ∷ text))
        → fields_count fs < suc (length (rest (read8 r).1))
    room at2 = omega (
      arith,
      ap length at2.front,
      length-append (encode_fields fs) (0 ∷ 0 ∷ 9 ∷ text),
      fields_count-le fs,
    )

-- An object of numbers of 64 bits and non-empty strings under increasing non-empty keys that a fresh
-- AMFWriter emits is read back by a fresh AMFReader, if each string and each key is shorter than 2 ^
-- 16 bytes and the encoding is shorter than 2 ^ 31 bytes.
pub write-read :
    (junk : ℕ → ℕ) (fs : Fields)
    → ArePlain fs
    → IsSorted fs
    → length (encode (object fs)) < 2 ^ 31
    → (b : Buffer) × (write_value junk (object fs) (new_writer junk) ≡ some b)
      × (after : Reader) × (read_object (init (contents b)) ≡ ok (object fs, after))
unfolding Emits new_writer buffer_init contents
write-read junk fs plain sorted small =
    let (b, eq, valid, joined, _) =
      write_value-Emits junk (object fs) (new_writer junk)
        (buffer_init-IsValid junk 400 (omega arith))
        (start junk (length (encode (object fs))) small) in
    let at : At (init (contents b)) (encode (object fs) ++ []) = record {
      valid = init-IsValid (contents b) (short joined);
      front = front b ∙ joined ∙ sym (append-nil (encode (object fs)));
    } in
    let (after, back, _) = read_object-encode fs [] plain sorted at in (b, eq, after, back)
  where
    start : (junk : ℕ → ℕ) (n : ℕ) → n < 2 ^ 31 → n + (buffer_init junk 400).size < 2 ^ 31
    start junk n h = unfold buffer_init in omega arith

    short : {text : List ℕ} → text ≡ encode (object fs) → length text < 2 ^ 32
    short p = rw p (omega arith)

    front : (b : Buffer) → rest (init (contents b)) ≡ contents b
    front b = unfold rest init in refl
