-- ===== src/Amf/Ends.antt =====
-- AMFReader::AMF_ReadObject ends: a key that is not empty takes bytes off.
use streamcode.Prelude.{
  ℕ, zero, suc, ◌-◌, ◌%◌, ◌^◌, ◌≤◌, ◌<◌, ◌≡◌, ◌≢◌, ◌⊎◌, inl, inr, refl, ap, not, List, [], ◌∷◌,
  arith, length, length-take, take, ltb, leb, ◌==◌, ltb-cases, Bool-cases, eq_false, if◌then◌else◌,
  ◌&&◌,
}
use streamcode.Bytes.{flip16, flip64}
use streamcode.Reader.{Reader, rest, available, read, read_word, read8, read16, read64, next}
use streamcode.Reader.Laws.{length-rest}
use streamcode.Amf.{AmfValue, number, integer, string, object, Fields, nil, emplace}
use streamcode.Amf.Reader.{
  Outcome, ok, not_enough, fault, stuck, ◌>>=◌, read_number, read_string, read_value, read_key,
  read_fields, read_object,
}

-- How many bytes follow the cursor.
abbrev left : Reader → ℕ
left r = length r.text - r.current

left-read : (n : ℕ) (r : Reader) → left (read n r).1 ≤ left r
unfolding read
left-read n r = ground arith

left-next : (n : ℕ) (r : Reader) → left (next n r).1 ≤ left r
unfolding next
left-next n r = ground arith

left-read8 : (r : Reader) → left (read8 r).1 ≤ left r
unfolding read8
left-read8 r = ground arith

left-read_word : (n : ℕ) (f : ℕ → ℕ) (r : Reader) → left (read_word n f r).1 ≤ left r
unfolding read_word
left-read_word n f r = left-read n r

-- A length that is not 0 was there.
read16-takes : (r : Reader) → ((read16 r).0 ≡ 0) ⊎ (left (read16 r).1 < left r)
unfolding read16 read_word read
read16-takes r = elim (ltb-cases (left r % 2 ^ 32) 2) [
  | inl (e, few) ↦ inl (
      rw
        (
          e,
          eq_false (length (take (left r % 2 ^ 32) (rest r))) 2
              λ z. omega (arith, length-take (left r % 2 ^ 32) (rest r), z),
        )
        refl)
  | inr (e, enough) ↦ inr (rw e (omega arith))
]

-- What holds of the outcome of reading a value, and of a key.
abbrev Keeps {ℓ} : {A : Type ℓ} → Reader → Outcome (A × Reader) → Type 0
Keeps r (ok (v, after)) = left after ≤ left r
Keeps r not_enough = Unit
Keeps r fault = Unit
Keeps r stuck = ⊥

left-read16 : (r : Reader) → left (read16 r).1 ≤ left r
unfolding read16
left-read16 r = left-read_word 2 flip16 r

left-read_string : (r : Reader) → left (read_string r).1 ≤ left r
unfolding read_string
left-read_string r =
    let after = (read8 r).1 in
    let (len, text) = read16 after in
    elim (Bool-cases (not ((read8 r).0 == 2))) [
      | inl e ↦ rw e (left-read8 r)
      | inr e ↦ elim (Bool-cases (leb len (available text) && not (len == 0))) [
        | inl f ↦ rw (e, f) (omega (arith, left-read8 r, left-read16 after, left-next len text))
        | inr f ↦ rw (e, f) (omega (arith, left-read8 r, left-read16 after))
      ]
    ]

read_number-Keeps : (r : Reader) → Keeps r (read_number r)
unfolding read_number read64
read_number-Keeps r = elim (Bool-cases (ltb (available (read8 r).1) 8)) [
  | inl e ↦ rw e tt
  | inr e ↦ rw e (omega (arith, left-read8 r, left-read_word 8 flip64 (read8 r).1))
]

-- A value that is made of what was read.
Keeps-then :
    {A B : Type 0} (r : Reader) (m : Outcome (A × Reader)) (f : A → B)
    → Keeps r m
    → Keeps r (m >>= λ n. ok (f (n.0), n.1))
Keeps-then r (ok (v, after)) f h = h
Keeps-then r not_enough f h = tt
Keeps-then r fault f h = tt
Keeps-then r stuck f h = h

read_value-Keeps : (r : Reader) → Keeps r (read_value r)
unfolding read_value
read_value-Keeps r = by_front (rest r)
  where
    by_front :
        (front : List ℕ)
        → Keeps r (elim front [
          | [] ↦ fault
          | type ∷ _ ↦
              if type == 2
              then ok (string (read_string r).0, (read_string r).1)
              else if type == 0
              then (read_number r >>= λ n. ok (number n.0, n.1))
              else ok (integer 0, r)
        ])
    by_front [] = tt
    by_front (type ∷ _) = elim (Bool-cases (type == 2)) [
      | inl e ↦ rw e (left-read_string r)
      | inr e ↦ elim (Bool-cases (type == 0)) [
        | inl f ↦ rw (e, f) (Keeps-then r (read_number r) number (read_number-Keeps r))
        | inr f ↦ rw (e, f) (omega arith)
      ]
    ]

abbrev TakesKey : Reader → Outcome (List ℕ × Reader) → Type 0
TakesKey r (ok (key, after)) = (key ≡ []) ⊎ (left after < left r)
TakesKey r not_enough = Unit
TakesKey r fault = Unit
TakesKey r stuck = ⊥

read_key-TakesKey : (r : Reader) → TakesKey r (read_key r)
unfolding read_key
read_key-TakesKey r =
    let (len, after) = read16 r in
    elim (Bool-cases (ltb (length (rest after)) len)) [
      | inl e ↦ rw e tt
      | inr e ↦ elim (read16-takes r) [
        | inl z ↦ rw e (inl (ap (λ n. take n (rest after)) z))
        | inr lt ↦ rw e (inr (omega (arith, lt, left-next len after)))
      ]
    ]

read_fields-ends :
    (fuel : ℕ) (r : Reader) (fs : Fields) → left r < fuel → read_fields fuel r fs ≢ stuck
unfolding read_fields
read_fields-ends zero r fs enough = elim enough [ ]
read_fields-ends (suc fuel) r fs enough =
    keyed (λ r' fs' lt. read_fields-ends fuel r' fs' (omega arith)) (read_key r)
      (read_key-TakesKey r)
  where
    valued :
        (again : (r' : Reader) (fs' : Fields) → left r' < left r → read_fields fuel r' fs' ≢ stuck)
        → (key : List ℕ) (after : Reader) (v : Outcome (AmfValue × Reader)) → left after < left r
        → Keeps after v
        → (v >>= λ w. read_fields fuel (w.1) (emplace key (w.0) fs)) ≢ stuck
    valued again key after (ok (w, end)) lt h = again end (emplace key w fs) (omega arith)
    valued again key after not_enough lt h = λ eq. cc
    valued again key after fault lt h = λ eq. cc
    valued again key after stuck lt h = absurd h

    keyed :
        (again : (r' : Reader) (fs' : Fields) → left r' < left r → read_fields fuel r' fs' ≢ stuck)
        → (k : Outcome (List ℕ × Reader)) → TakesKey r k
        → ◌>>=◌ {B = Fields × Reader} k (λ key. elim (key.0) [
          | [] ↦ ok (fs, key.1)
          | _ ∷ _ ↦ read_value (key.1) >>= λ v. read_fields fuel (v.1) (emplace (key.0) (v.0) fs)
        ])
          ≢ stuck
    keyed again (ok ([], after)) h = λ eq. cc
    keyed again (ok (c ∷ key, after)) (inl e) = absurd (cc e)
    keyed again (ok (c ∷ key, after)) (inr lt) =
        valued again (c ∷ key) after (read_value after) lt (read_value-Keeps after)
    keyed again not_enough h = λ eq. cc
    keyed again fault h = λ eq. cc
    keyed again stuck h = absurd h

-- `AMF_ReadObject` ends on every input: it returns an object, throws, or reads beyond the bytes, and
-- never runs out of the fuel that the model gives it.
pub read_object-ends : (r : Reader) → read_object r ≢ stuck
unfolding read_object
read_object-ends r =
    let after = (read8 r).1 in
    finished (read_fields (suc (length (rest after))) after nil)
      (read_fields-ends (suc (length (rest after))) after nil (omega (arith, length-rest after)))
  where
    finished :
        (m : Outcome (Fields × Reader))
        → m ≢ stuck
        → ◌>>=◌ {B = AmfValue × Reader} m (λ s. ok (object (s.0), (read8 (s.1)).1)) ≢ stuck
    finished (ok s) h = λ eq. cc
    finished not_enough h = λ eq. cc
    finished fault h = λ eq. cc
    finished stuck h = absurd (h refl)
