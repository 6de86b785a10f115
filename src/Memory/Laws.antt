-- ===== src/Memory/Laws.antt =====
-- Laws of slices and copies.
use streamcode.Prelude.{
  ℕ, zero, suc, ◌+◌, ◌-◌, ◌≤◌, ◌<◌, ◌≡◌, refl, ap, ap₂, ◌∙◌, some, List, [], ◌∷◌, ◌++◌, arith,
  length, get_or, take, drop, le→leb,
}
use streamcode.Memory.{Block, slice, blit, memcpy, load}

-- Two slices are equal if they agree step by step.
pub slice-ext :
    (f g : ℕ → ℕ) (s t n : ℕ)
    → ((i : ℕ) → i < n → f (s + i) ≡ g (t + i))
    → slice f s n ≡ slice g t n
slice-ext f g s t zero h = refl
slice-ext f g s t (suc n) h =
    ap₂ ◌∷◌ (rw (← s0, ← t0) (h 0 (omega arith))) (slice-ext f g (s + 1) (t + 1) n λ i p. step i p)
  where
    s0 : s + 0 ≡ s
    s0 = omega arith

    t0 : t + 0 ≡ t
    t0 = omega arith

    step : (i : ℕ) → i < n → f (s + 1 + i) ≡ g (t + 1 + i)
    step i p = subst₂' (omega arith) (omega arith) (h (suc i) (omega arith))
      where
        subst₂' : {a b c d : ℕ} → a ≡ b → c ≡ d → f a ≡ g c → f b ≡ g d
        subst₂' p q r = rw (← p, ← q) r

pub length-slice : (f : ℕ → ℕ) (s n : ℕ) → length (slice f s n) ≡ n
length-slice f s zero = refl
length-slice f s (suc n) = ap suc (length-slice f (s + 1) n)

pub slice-append : (f : ℕ → ℕ) (s m n : ℕ) → slice f s (m + n) ≡ slice f s m ++ slice f (s + m) n
slice-append f s zero n =
    let e : zero + n ≡ n = omega arith in let k : s + zero ≡ s = omega arith in rw (e, k)
slice-append f s (suc m) n =
    let e : suc m + n ≡ suc (m + n) = omega arith in
    let k : s + suc m ≡ s + 1 + m = omega arith in
    rw (e, k) (ap (◌∷◌ (f s)) (slice-append f (s + 1) m n))

pub slice-get_or : (xs : List ℕ) → slice (λ i. get_or xs i 0) 0 (length xs) ≡ xs
slice-get_or [] = refl
slice-get_or (x ∷ xs) =
    ap (◌∷◌ x) (slice-ext _ (λ i. get_or xs i 0) (0 + 1) 0 (length xs) shift ∙ slice-get_or xs)
  where
    shift : (i : ℕ) → i < length xs → get_or (x ∷ xs) (0 + 1 + i) 0 ≡ get_or xs (0 + i) 0
    shift i h =
        let e : 0 + 1 + i ≡ suc i = omega arith in let k : 0 + i ≡ i = omega arith in rw (e, k)

pub take-slice : (f : ℕ → ℕ) (s m n : ℕ) → m ≤ n → take m (slice f s n) ≡ slice f s m
take-slice f s zero n h = refl
take-slice f s (suc m) zero h = elim h [ ]
take-slice f s (suc m) (suc n) h = ap (◌∷◌ (f s)) (take-slice f (s + 1) m n (omega arith))

pub drop-slice : (f : ℕ → ℕ) (s m n : ℕ) → drop m (slice f s n) ≡ slice f (s + m) (n - m)
drop-slice f s zero n =
    let e : s + zero ≡ s = omega arith in let k : n - zero ≡ n = omega arith in rw (e, k)
drop-slice f s (suc m) zero = let k : zero - suc m ≡ 0 = omega arith in rw k
drop-slice f s (suc m) (suc n) =
    let e : s + suc m ≡ s + 1 + m = omega arith in
    let k : suc n - suc m ≡ n - m = omega arith in rw (e, k) (drop-slice f (s + 1) m n)

-- What a copy writes, and what it leaves alone.
pub blit-inside : (f g : ℕ → ℕ) (d s n j : ℕ) → d ≤ j → j < d + n → blit f d g s n j ≡ g (s + j - d)
unfolding blit
blit-inside f g d s n j h k = ground arith

pub blit-below : (f g : ℕ → ℕ) (d s n j : ℕ) → j < d → blit f d g s n j ≡ f j
unfolding blit
blit-below f g d s n j h = ground arith

pub blit-above : (f g : ℕ → ℕ) (d s n j : ℕ) → d + n ≤ j → blit f d g s n j ≡ f j
unfolding blit
blit-above f g d s n j h = ground arith

-- A copy inside both allocations does not fault.
pub memcpy-eq :
    (dst : Block) (d : ℕ) (src : Block) (s n : ℕ)
    → d + n ≤ dst.extent
    → s + n ≤ src.extent
    → memcpy dst d src s n ≡ some (record dst { cell = blit dst.cell d src.cell s n })
unfolding memcpy
memcpy-eq dst d src s n h k = rw (le→leb _ _ h, le→leb _ _ k)

pub load-eq :
    (src : Block) (s n : ℕ) → s + n ≤ src.extent → load src s n ≡ some (slice src.cell s n)
unfolding load
load-eq src s n h = rw (le→leb _ _ h)
