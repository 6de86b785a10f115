-- ===== src/Amf/Reader.antt =====
-- stream/AMFReader.h and stream/AMFReader.cpp.
use streamcode.Prelude.{
  ℕ, zero, suc, Bool, ◌&&◌, not, List, [], ◌∷◌, length, take, ltb, leb, ◌==◌, if◌then◌else◌,
}
use streamcode.Reader.{Reader, rest, available, read8, read16, read64, next}
use streamcode.Amf.{AmfValue, number, integer, string, object, Fields, nil, emplace}

-- The outcome of a read: a value, the exception "Not enough data", an access outside the bytes, or
-- the fuel of the loop having run out.
pub data Outcome {ℓ} (A : Type ℓ) : Type ℓ where
  ok : A → Outcome A
  not_enough : Outcome A
  fault : Outcome A
  stuck : Outcome A

infixl 5 ◌>>=◌
abbrev pub ◌>>=◌ {ℓ κ} : {A : Type ℓ} {B : Type κ} → Outcome A → (A → Outcome B) → Outcome B
ok a >>= f = f a
not_enough >>= f = not_enough
fault >>= f = fault
stuck >>= f = stuck

unfoldable pub read_number : Reader → Outcome (ℕ × Reader)
read_number r =
    let (type, after) = read8 r in if ltb (available after) 8 then not_enough else ok (read64 after)

-- What is returned says whether the marker was there.
unfoldable pub read_null : Reader → Bool × Reader
read_null r = let (type, after) = read8 r in (type == 5, after)

unfoldable pub read_string : Reader → List ℕ × Reader
read_string r =
    let (type, after) = read8 r in
    let (len, text) = read16 after in
    if not (type == 2)
    then ([], after)
    else if leb len (available text) && not (len == 0)
    then (take len (rest text), (next len text).1)
    else ([], text)

-- The marker is looked at and not taken off: other values than strings and numbers are returned as
-- the integer 0, with the cursor where it was.
unfoldable pub read_value : Reader → Outcome (AmfValue × Reader)
read_value r = elim (rest r) [
  | [] ↦ fault
  | type ∷ _ ↦
      if type == 2
      then ok (string (read_string r).0, (read_string r).1)
      else if type == 0
      then (read_number r >>= λ n. ok (number n.0, n.1))
      else ok (integer 0, r)
]

-- The key is copied from the cursor on, whether or not it is all there.
unfoldable pub read_key : Reader → Outcome (List ℕ × Reader)
read_key r =
    let (len, after) = read16 r in
    if ltb (length (rest after)) len then fault else ok (take len (rest after), (next len after).1)

-- The loop of `AMF_ReadObject`, which an empty key ends.
unfoldable pub read_fields : ℕ → Reader → Fields → Outcome (Fields × Reader)
read_fields zero r fs = stuck
read_fields (suc fuel) r fs = read_key r >>= λ key. elim (key.0) [
  | [] ↦ ok (fs, key.1)
  | _ ∷ _ ↦ read_value (key.1) >>= λ v. read_fields fuel (v.1) (emplace (key.0) (v.0) fs)
]

-- The marker in front is taken off unseen, and so is the last one.
unfoldable pub read_object : Reader → Outcome (AmfValue × Reader)
read_object r =
    let (type, after) = read8 r in
    read_fields (suc (length (rest after))) after nil >>= λ s. ok (object (s.0), (read8 (s.1)).1)
