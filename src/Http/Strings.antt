-- ===== src/Http/Strings.antt =====
-- `std::string::find` as the parser of requests uses it.
use streamcode.Prelude.{
  ℕ, zero, suc, ◌+◌, ◌<◌, ◌≡◌, ◌≢◌, refl, sym, ap, ◌∙◌, inl, inr, true, false, Option, none, some,
  List, [], ◌∷◌, ◌++◌, arith, length, drop, get_or, length-drop, drop-append, eq_true, eq_false,
  Bool-cases,
}
use mathlib.Core.Option
use mathlib.Core.Option.{some-injective}
use streamcode.Http.{starts_with, index_of, raised, shifted, find, crlf}

-- The byte does not occur.
abbrev pub Lacks : ℕ → List ℕ → Type 0
Lacks c [] = Unit
Lacks c (x ∷ s) = (x ≢ c) × Lacks c s

pub Lacks-append : (c : ℕ) (a b : List ℕ) → Lacks c a → Lacks c b → Lacks c (a ++ b)
Lacks-append c [] b h k = k
Lacks-append c (x ∷ a) b (h, hs) k = (h, Lacks-append c a b hs k)

starts_with-append : (p b : List ℕ) → starts_with p (p ++ b) ≡ true
unfolding starts_with
starts_with-append [] b = refl
starts_with-append (x ∷ p) b = rw (eq_true x x refl) (starts_with-append p b)

starts_with-other : (p x : ℕ) (ps s : List ℕ) → x ≢ p → starts_with (p ∷ ps) (x ∷ s) ≡ false
unfolding starts_with
starts_with-other p x ps s other = rw (eq_false x p other) refl

-- A pattern whose first byte does not occur before it is found just there.
pub index_of-first :
    (p : ℕ) (ps a b : List ℕ)
    → Lacks p a
    → index_of (p ∷ ps) (a ++ ((p ∷ ps) ++ b)) ≡ some (length a)
unfolding index_of
index_of-first p ps [] b h = rw (starts_with-append (p ∷ ps) b) refl
index_of-first p ps (x ∷ a) b (h, hs) =
    rw (starts_with-other p x ps (a ++ ((p ∷ ps) ++ b)) h, index_of-first p ps a b hs) refl

pub index_of-none : (p : ℕ) (ps a : List ℕ) → Lacks p a → index_of (p ∷ ps) a ≡ none
unfolding index_of
index_of-none p ps [] h = refl
index_of-none p ps (x ∷ a) (h, hs) = rw (starts_with-other p x ps a h, index_of-none p ps a hs) refl

pub find-first_at :
    (p : ℕ) (ps front a b : List ℕ)
    → Lacks p a
    → find (p ∷ ps) (length front) (front ++ (a ++ ((p ∷ ps) ++ b)))
      ≡ some (length front + length a)
unfolding find
find-first_at p ps front a b h =
    ap (λ s. shifted (length front) (index_of (p ∷ ps) s))
      (drop-append front (a ++ ((p ∷ ps) ++ b)))
    ∙ ap (shifted (length front)) (index_of-first p ps a b h)

pub find-none :
    (p : ℕ) (ps front a : List ℕ) → Lacks p a → find (p ∷ ps) (length front) (front ++ a) ≡ none
unfolding find
find-none p ps front a h =
    ap (λ s. shifted (length front) (index_of (p ∷ ps) s)) (drop-append front a)
    ∙ ap (shifted (length front)) (index_of-none p ps a h)

get_or-drop_at : (n i : ℕ) (s : List ℕ) → get_or (drop n s) i 0 ≡ get_or s (n + i) 0
get_or-drop_at zero i s = ap (λ t. get_or s t 0) (omega arith)
get_or-drop_at (suc n) i [] = refl
get_or-drop_at (suc n) i (x ∷ s) = get_or-drop_at n i s ∙ ap (λ t. get_or (x ∷ s) t 0) next
  where
    next : suc (n + i) ≡ suc n + i
    next = omega arith

starts_with-crlf :
    (x : ℕ) (s : List ℕ) → starts_with crlf (x ∷ s) ≡ true → (0 < length s) × (get_or s 0 0 ≡ 10)
unfolding starts_with
starts_with-crlf x [] e = absurd (ground (arith, e))
starts_with-crlf x (y ∷ s) e = ground (arith, e)

later-index : (o : Option ℕ) (i : ℕ) → raised o ≡ some i → (j : ℕ) × (o ≡ some j) × (i ≡ suc j)
later-index none i e = absurd (Option.none-ne-some i e)
later-index (some j) i e = (j, refl, sym (some-injective _ _ e))

-- A line end that is found is in the string.
index_of-crlf :
    (i : ℕ) (s : List ℕ) → index_of crlf s ≡ some i → (i + 1 < length s) × (get_or s (i + 1) 0 ≡ 10)
unfolding index_of
index_of-crlf i [] e = absurd (Option.none-ne-some i e)
index_of-crlf i (x ∷ s) e = elim (Bool-cases (starts_with crlf (x ∷ s))) [
  | inl t ↦
      let (inside, lf) = starts_with-crlf x s t in
      let first : some 0 ≡ some i = rw t at e in
      let zero_i : 0 ≡ i = some-injective _ _ first in
      (omega (arith, inside, zero_i), ap (λ k. get_or (x ∷ s) (k + 1) 0) (sym zero_i) ∙ lf)
  | inr t ↦
      let later : raised (index_of crlf s) ≡ some i = rw t at e in
      let (j, found, next) = later-index (index_of crlf s) i later in
      let (inside, lf) = index_of-crlf j s found in
      (
        omega (arith, inside, next),
        ap (λ k. get_or (x ∷ s) (k + 1) 0) next ∙ ap (λ k. get_or (x ∷ s) k 0) (up j) ∙ lf,
      )
]
  where
    up : (j : ℕ) → suc j + 1 ≡ suc (j + 1)
    up j = omega arith

shifted-some :
    (start : ℕ) (o : Option ℕ) (pos : ℕ)
    → shifted start o ≡ some pos
    → (i : ℕ) × (o ≡ some i) × (pos ≡ start + i)
shifted-some start none pos e = absurd (Option.none-ne-some pos e)
shifted-some start (some i) pos e = (i, refl, sym (some-injective _ _ e))

pub find-crlf :
    (start pos : ℕ) (s : List ℕ)
    → find crlf start s ≡ some pos
    → (pos + 1 < length s) × (get_or s (pos + 1) 0 ≡ 10)
unfolding find
find-crlf start pos s e =
    let (i, found, at) = shifted-some start (index_of crlf (drop start s)) pos e in
    let (inside, lf) = index_of-crlf i (drop start s) found in
    let place : start + (i + 1) ≡ pos + 1 = omega (arith, at) in
    (
      omega (arith, length-drop start s, inside, at),
      ap (λ k. get_or s k 0) (sym place) ∙ sym (get_or-drop_at start (i + 1) s) ∙ lf,
    )
