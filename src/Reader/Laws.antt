-- ===== src/Reader/Laws.antt =====
-- What the reads of BinaryReader take off the bytes in front of the cursor.
use streamcode.Prelude.{
  ℕ, zero, suc, ◌+◌, ◌-◌, ◌^◌, ◌%◌, ◌≤◌, ◌<◌, ◌≡◌, inl, inr, refl, ap, sym, ◌∙◌, true, List, [],
  ◌∷◌, ◌++◌, arith, length, drop, take, get_or, ltb-cases, take-length, take-all, drop-all,
  get_or-drop, drop-append, eq_false, eq_true, length-drop, take-append,
}
use streamcode.TBuffer.{little_endian}
use streamcode.Bytes.{flip16, flip24, flip32, big_endian}
use streamcode.Bytes.Laws.{flip16-little_endian, flip24-little_endian, flip32-little_endian}
use streamcode.Reader.{
  Reader, init, rest, available, read, read8, read16, read24, read32, read_word, next,
}

-- The cursor is inside the bytes, whose number is an `unsigned int`.
pub record IsValid (r : Reader) : Type 0 where
  pub inside : r.current ≤ length r.text
  pub short : length r.text < 2 ^ 32
  pub flips : r.flip ≡ true

pub init-IsValid : (text : List ℕ) → length text < 2 ^ 32 → IsValid (init text)
unfolding init
init-IsValid text h = record { inside = omega arith; short = h; flips = refl }

pub length-rest : (r : Reader) → length (rest r) ≡ length r.text - r.current
unfolding rest
length-rest r = length-drop r.current r.text

pub available-length : {r : Reader} → IsValid r → available r ≡ length (rest r)
unfolding available
available-length {r} v = ground (arith, length-rest r)

drop-drop : (m n : ℕ) (xs : List ℕ) → drop n (drop m xs) ≡ drop (m + n) xs
drop-drop zero n xs = ap (λ k. drop k xs) (omega arith)
drop-drop (suc m) zero [] = let e : suc m + zero ≡ suc (m + zero) = omega arith in rw e
drop-drop (suc m) (suc n) [] = let e : suc m + suc n ≡ suc (m + suc n) = omega arith in rw e
drop-drop (suc m) n (x ∷ xs) =
    let e : suc m + n ≡ suc (m + n) = omega arith in rw e (drop-drop m n xs)

-- The cursor stands in front of `text`.
pub record At (r : Reader) (text : List ℕ) : Type 0 where
  pub valid : IsValid r
  pub front : rest r ≡ text

-- The cursor goes on by `n`.
abbrev pub forward : ℕ → Reader → Reader
forward n r = record r { current = r.current + n }

pub forward-At :
    {r : Reader} {text : List ℕ} (n : ℕ)
    → At r text
    → n ≤ length text
    → At (forward n r) (drop n text)
unfolding rest
forward-At {r} {text} n at h = record {
  valid = record {
    inside = omega (arith, length-rest r, ap length at.front, at.valid.inside);
    short = at.valid.short;
    flips = at.valid.flips;
  };
  front = sym (drop-drop r.current n r.text) ∙ ap (drop n) at.front;
}

left-length :
    {r : Reader} {text : List ℕ}
    → At r text
    → ((length r.text - r.current) % 2 ^ 32 ≡ length text)
      × (r.current + length text ≡ length r.text)
left-length {r} {text} at =
    omega (arith, length-rest r, ap length at.front, at.valid.inside, at.valid.short)

-- `Read` copies out what is asked for, or all that is left if that is less, and the cursor then
-- stands behind it.
pub read-At :
    {r : Reader} {text : List ℕ} (n : ℕ)
    → At r text
    → let (bytes, after) = read n r in (bytes ≡ take n text) × At after (drop n text)
unfolding read
read-At {r} {text} n at = elim (ltb-cases (length text) n) [
  | inl (e, short) ↦
      rw ((left-length at).0, e)
        (
          ap (take (length text)) at.front ∙ take-length text ∙ sym (take-all n text (omega arith)),
          rw (drop-all n text (omega arith), ← drop-all (length text) text (omega arith))
              (forward-At (length text) at (omega arith)),
        )
  | inr (e, fits) ↦ rw ((left-length at).0, e) (ap (take n) at.front, forward-At n at fits)
]

pub read8-At :
    {r : Reader} {x : ℕ} {text : List ℕ}
    → At r (x ∷ text)
    → let (v, after) = read8 r in (v ≡ x) × At after text
unfolding read8 rest
read8-At {r} {x} {text} at =
    rw (eq_false r.current (length r.text) (omega (arith, (left-length at).1))) (
      get_or-drop r.current r.text 0 ∙ ap (λ t. get_or t 0 0) at.front,
      forward-At 1 at (omega arith),
    )

pub available-At : {r : Reader} {text : List ℕ} → At r text → available r ≡ length text
unfolding available
available-At {r} {text} at = ground (arith, left-length at)

-- `Next` goes on by `n` bytes, or to the end if fewer are left.
pub next-At : {r : Reader} {text : List ℕ} (n : ℕ) → At r text → At (next n r).1 (drop n text)
unfolding next
next-At {r} {text} n at = elim (ltb-cases (length text) n) [
  | inl (e, short) ↦
      rw
        (
          available-At at,
          e,
          drop-all n text (omega arith),
          ← drop-all (length text) text (omega arith),
        )
        (forward-At (length text) at (omega arith))
  | inr (e, fits) ↦ rw (available-At at, e) (forward-At n at fits)
]

-- An integer whose bytes are there.
pub word-At :
    {r : Reader} (f : ℕ → ℕ) (bytes text : List ℕ)
    → At r (bytes ++ text)
    → let (v, after) = read_word (length bytes) f r in (v ≡ f (little_endian bytes)) × At after text
unfolding read_word
word-At {r} f bytes text at =
    let (got, after) = read-At (length bytes) at in
    (
      rw (got, take-append bytes text, eq_true (length bytes) (length bytes) refl, at.valid.flips),
      rw (← drop-append bytes text) after,
    )

module _ {r : Reader} (text : List ℕ) (a b : ℕ) (ha : a < 256) (hb : b < 256) where
  pub read16-At :
      At r (a ∷ b ∷ text)
      → let (v, after) = read16 r in (v ≡ big_endian 0 (a ∷ b ∷ [])) × At after text
  unfolding read16
  read16-At at =
      let (v, after) = word-At flip16 (a ∷ b ∷ []) text at in
      (v ∙ flip16-little_endian a b 0 0 ha hb (omega arith) (omega arith), after)

  pub read24-At :
      (c : ℕ)
      → c < 256
      → At r (a ∷ b ∷ c ∷ text)
      → let (v, after) = read24 r in (v ≡ big_endian 0 (a ∷ b ∷ c ∷ [])) × At after text
  unfolding read24
  read24-At c hc at =
      let (v, after) = word-At flip24 (a ∷ b ∷ c ∷ []) text at in
      (v ∙ flip24-little_endian a b c 0 ha hb hc (omega arith), after)

  -- In front of four bytes `Read32` returns their big-endian number, and stops behind them.
  pub read32-At :
      (c d : ℕ)
      → c < 256
      → d < 256
      → At r (a ∷ b ∷ c ∷ d ∷ text)
      → let (v, after) = read32 r in (v ≡ big_endian 0 (a ∷ b ∷ c ∷ d ∷ [])) × At after text
  unfolding read32
  read32-At c d hc hd at =
      let (v, after) = word-At flip32 (a ∷ b ∷ c ∷ d ∷ []) text at in
      (v ∙ flip32-little_endian a b c d ha hb hc hd, after)
