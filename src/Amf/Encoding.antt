-- ===== src/Amf/Encoding.antt =====
-- The bytes that AMFWriter emits, as a function of the value.
use streamcode.Prelude.{
  ℕ, ◌+◌, ◌^◌, ◌<◌, ◌≡◌, refl, ap, sym, ◌∙◌, Option, some, List, [], ◌∷◌, ◌++◌, append_assoc,
  append-nil, length, length-append, arith, ◌==◌, if◌then◌else◌, ◌>>=◌, Bool-cases, inl, inr,
}
use streamcode.Buffer.{Buffer, contents}
use streamcode.Buffer.Append.{IsValid, append-contents}
use streamcode.Bytes.{flip16, flip24, flip64, stored16, stored24, stored64}
use streamcode.Amf.{
  AmfValue, number, integer, boolean, string, object, null, undefined, ecma_array, strict_array,
  Fields, nil, field,
}
use streamcode.Amf.Writer.{put, write_string, write_value, write_fields}

unfoldable pub encode_string : List ℕ → List ℕ
encode_string s = if length s == 0 then [] else (2 ∷ stored16 (flip16 (length s)) ++ s)

unfoldable mutual
  pub encode : AmfValue → List ℕ
  encode (string s) = encode_string s
  encode (number n) = 0 ∷ stored64 (flip64 n)
  encode (integer n) = []
  encode (boolean t) = 1 ∷ (if t then 1 else 0) ∷ []
  encode (object fs) = 3 ∷ encode_fields fs ++ stored24 (flip24 9)
  encode null = 5 ∷ []
  encode undefined = 6 ∷ []
  encode (ecma_array fs) = []
  encode strict_array = []

  pub encode_fields : Fields → List ℕ
  encode_fields nil = []
  encode_fields (field k v fs) =
      stored16 (flip16 (length k)) ++ (k ++ (encode v ++ encode_fields fs))

-- A step that appends `bytes` to every buffer with room for them below 2 ^ 31 bytes.
unfoldable pub Emits : (Buffer → Option Buffer) → List ℕ → Type 0
Emits op bytes =
    (b : Buffer)
    → IsValid b
    → length bytes + b.size < 2 ^ 31
    → (after : Buffer) × (op b ≡ some after)
      × IsValid after
      × (contents after ≡ contents b ++ bytes)
      × (after.size ≡ b.size + length bytes)

pub Emits-put : (junk : ℕ → ℕ) (bytes : List ℕ) → Emits (put junk bytes) bytes
unfolding Emits put
Emits-put junk bytes b v small =
    let (after, eq, appends) = append-contents junk bytes v small in
    (after, rw eq, appends.0, appends.1, appends.2)

pub Emits-nothing : Emits (λ b. some b) []
unfolding Emits
Emits-nothing b v small = (b, refl, v, sym (append-nil (contents b)), omega arith)

-- One step after another.
pub Emits-seq :
    (f g : Buffer → Option Buffer) (xs ys : List ℕ)
    → Emits f xs
    → Emits g ys
    → Emits (λ b. f b >>= λ c. g c) (xs ++ ys)
unfolding Emits
Emits-seq f g xs ys p q b v small =
    let (mid, eq, valid, joined, size) = p b v (omega (arith, length-append xs ys)) in
    let (after, eq', valid', joined', size') =
      q mid valid (omega (arith, length-append xs ys, size)) in
    (
      after,
      rw eq eq',
      valid',
      joined' ∙ ap (λ c. c ++ ys) joined ∙ append_assoc (contents b) xs ys,
      omega (arith, size, size', length-append xs ys),
    )

module _ (junk : ℕ → ℕ) where
  pub Emits-string : (s : List ℕ) → Emits (write_string junk s) (encode_string s)
  unfolding write_string encode_string Emits
  Emits-string s = elim (Bool-cases (length s == 0)) [
    | inl e ↦ rw e Emits-nothing
    | inr e ↦ rw e (
        Emits-seq (put junk (2 ∷ [])) _ (2 ∷ []) _ (Emits-put junk (2 ∷ [])) (
          Emits-seq (put junk (stored16 (flip16 (length s)))) (put junk s) _ s
            (Emits-put junk (stored16 (flip16 (length s)))) (Emits-put junk s)))
  ]

  mutual
    unfolding write_value encode

    Emits-value : (v : AmfValue) → Emits (write_value junk v) (encode v)
    Emits-value (string s) = Emits-string s
    Emits-value (number n) =
        Emits-seq (put junk (0 ∷ [])) (put junk (stored64 (flip64 n))) (0 ∷ []) _
          (Emits-put junk (0 ∷ [])) (Emits-put junk (stored64 (flip64 n)))
    Emits-value (integer n) = Emits-nothing
    Emits-value (boolean t) =
        Emits-seq (put junk (1 ∷ [])) (put junk ((if t then 1 else 0) ∷ [])) (1 ∷ []) _
          (Emits-put junk (1 ∷ [])) (Emits-put junk ((if t then 1 else 0) ∷ []))
    Emits-value (object fs) = Emits-seq (put junk (3 ∷ [])) _ (3 ∷ []) _ (Emits-put junk (3 ∷ [])) (
        Emits-seq (write_fields junk fs) (put junk (stored24 (flip24 9))) (encode_fields fs) _
          (Emits-fields fs) (Emits-put junk (stored24 (flip24 9))))
    Emits-value null = Emits-put junk (5 ∷ [])
    Emits-value undefined = Emits-put junk (6 ∷ [])
    Emits-value (ecma_array fs) = Emits-nothing
    Emits-value strict_array = Emits-nothing

    Emits-fields : (fs : Fields) → Emits (write_fields junk fs) (encode_fields fs)
    Emits-fields nil = Emits-nothing
    Emits-fields (field k v fs) =
        Emits-seq (put junk (stored16 (flip16 (length k)))) _ _ _
          (Emits-put junk (stored16 (flip16 (length k))))
          (Emits-seq (put junk k) _ k _ (Emits-put junk k) (
            Emits-seq (write_value junk v) (write_fields junk fs) (encode v) (encode_fields fs)
              (Emits-value v) (Emits-fields fs)))

  -- AMFWriteValue of a value appends, without a fault, to every valid buffer that stays below 2 ^ 31
  -- bytes exactly what the code encodes of it: the marker and the bytes of a number, a boolean, a
  -- string or an object, which ends in 0 0 9, the marker of null and undefined, and nothing at all
  -- for an integer, an array or an empty string; the length of a string or a key is written modulo 2
  -- ^ 16.
  pub write_value-Emits : (v : AmfValue) → Emits (write_value junk v) (encode v)
  write_value-Emits v = Emits-value v
