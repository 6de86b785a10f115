-- ===== src/Amf/RoundTrip.antt =====
-- What AMFReader reads back of what AMFWriter emits.
use streamcode.Prelude.{
  ℕ, ◌^◌, ◌≤◌, ◌<◌, ◌≡◌, refl, ap, ◌∙◌, List, ◌∷◌, ◌++◌, arith, length, length-append, take,
  take-append, drop-append, le→leb, le→ltb, eq_false,
}
use streamcode.Bytes.{flip16, flip64, stored16, stored64}
use streamcode.Bytes.Laws.{
  flip16-flip16, flip64-flip64, little_endian-stored16, little_endian-stored64,
}
use streamcode.Reader.{Reader, rest, read8, read16, read64, next}
use streamcode.Reader.Laws.{At, read8-At, word-At, available-At, next-At}
use streamcode.Amf.{AmfValue, number, integer, string, Fields, nil, field}
use streamcode.Amf.Encoding.{encode, encode_string}
use streamcode.Amf.Reader.{Outcome, ok, read_number, read_string, read_value, read_key}

flip16-lt : (v : ℕ) → flip16 v < 2 ^ 16
unfolding flip16
flip16-lt v = omega arith

flip64-lt : (v : ℕ) → flip64 v < 2 ^ 64
unfolding flip64
flip64-lt v = omega arith

-- The lengths and the numbers come back.
read16-back :
    {r : Reader} (n : ℕ) (text : List ℕ)
    → n < 2 ^ 16
    → At r (stored16 (flip16 n) ++ text)
    → let (v, after) = read16 r in (v ≡ n) × At after text
unfolding read16
read16-back n text h at =
    let (v, after) = word-At flip16 (stored16 (flip16 n)) text at in
    unfold stored16 in
    (v ∙ ap flip16 (little_endian-stored16 (flip16 n) (flip16-lt n)) ∙ flip16-flip16 n h, after)

read64-back :
    {r : Reader} (n : ℕ) (text : List ℕ)
    → n < 2 ^ 64
    → At r (stored64 (flip64 n) ++ text)
    → let (v, after) = read64 r in (v ≡ n) × At after text
unfolding read64
read64-back n text h at =
    let (v, after) = word-At flip64 (stored64 (flip64 n)) text at in
    unfold stored64 in
    (v ∙ ap flip64 (little_endian-stored64 (flip64 n) (flip64-lt n)) ∙ flip64-flip64 n h, after)

-- A string of 1 to 65535 bytes comes back.
pub read_string-encode :
    {r : Reader} (s text : List ℕ)
    → 0 < length s
    → length s < 2 ^ 16
    → At r (encode_string s ++ text)
    → let (got, after) = read_string r in (got ≡ s) × At after text
unfolding read_string encode_string
read_string-encode {r} s text pos small at =
    let at' : At r (2 ∷ (stored16 (flip16 (length s)) ++ (s ++ text))) =
      unfold stored16 in rw (eq_false (length s) 0 (omega arith)) at at in
    let (ty, at1) = read8-At at' in
    let (ln, at2) = read16-back (length s) (s ++ text) small at1 in
    rw
      (
        ty,
        ln,
        available-At at2,
        le→leb (length s) (length (s ++ text)) (fits),
        eq_false (length s) 0 (omega arith),
      )
      (
        ap (take (length s)) at2.front ∙ take-append s text,
        rw (← drop-append s text) (next-At (length s) at2),
      )
  where
    fits : length s ≤ length (s ++ text)
    fits = omega (arith, length-append s text)

-- A number comes back.
pub read_number-encode :
    {r : Reader} (n : ℕ) (text : List ℕ)
    → n < 2 ^ 64
    → At r (encode (number n) ++ text)
    → (after : Reader) × (read_number r ≡ ok (n, after)) × At after text
unfolding read_number encode
read_number-encode {r} n text small at =
    let (_, at1) = read8-At at in
    let (v, at2) = read64-back n text small at1 in
    (
      (read64 (read8 r).1).1,
      rw
          (
            available-At at1,
            le→ltb (length (stored64 (flip64 n) ++ text)) 8 (unfold stored64 in omega arith),
          )
          (ap (λ w. ok (w, (read64 (read8 r).1).1)) v),
      at2,
    )

-- A value that is read back: a number, or a string that is not empty and not too long.
abbrev pub IsPlain : AmfValue → Type 0
IsPlain (number n) = n < 2 ^ 64
IsPlain (string s) = (0 < length s) × (length s < 2 ^ 16)
IsPlain _ = ⊥

abbrev pub ArePlain : Fields → Type 0
ArePlain nil = Unit
ArePlain (field k v fs) = (0 < length k) × (length k < 2 ^ 16) × IsPlain v × ArePlain fs

-- A step of a parse: the value, and the cursor behind it.
abbrev pub Yields {ℓ} : {A : Type ℓ} → Outcome (A × Reader) → A → List ℕ → Type ℓ
Yields outcome a text = (after : Reader) × (outcome ≡ ok (a, after)) × At after text

pub read_value-encode :
    {r : Reader} (v : AmfValue) (text : List ℕ)
    → IsPlain v
    → At r (encode v ++ text)
    → Yields (read_value r) v text
unfolding read_value encode
read_value-encode {r} (number n) text plain at =
    let (after, eq, at') = read_number-encode n text plain at in
    (after, rw (at.front, read_value, eq), at')
read_value-encode {r} (string s) text plain at =
    let (got, at') = read_string-encode s text plain.0 plain.1 at in
    let front : rest r ≡ 2 ∷ (stored16 (flip16 (length s)) ++ s ++ text) =
      at.front ∙ unfold encode_string in rw (eq_false (length s) 0 (omega arith)) refl in
    (
      (read_string r).1,
      rw (front, read_value) (ap (λ t. ok (string t, (read_string r).1)) got),
      at',
    )
read_value-encode (integer n) text plain at = absurd plain
read_value-encode _ text plain at = absurd plain

pub read_key-encode :
    {r : Reader} (k text : List ℕ)
    → length k < 2 ^ 16
    → At r (stored16 (flip16 (length k)) ++ (k ++ text))
    → Yields (read_key r) k text
unfolding read_key
read_key-encode {r} k text small at =
    let (ln, at1) = read16-back (length k) (k ++ text) small at in
    (
      (next (read16 r).0 (read16 r).1).1,
      rw (
        at1.front,
        ln,
        le→ltb (length (k ++ text)) (length k) (omega (arith, length-append k text)),
        take-append k text,
      ),
      rw (ln, ← drop-append k text) (next-At (length k) at1),
    )
