-- ===== src/Amf/Sorted.antt =====
-- Emplacing the fields of a map in the order of their keys gives the map.
use streamcode.Prelude.{ℕ, ◌≡◌, refl, ap, ◌∙◌, true, false, List, [], ◌∷◌, arith}
use streamcode.Amf.{AmfValue, Fields, nil, field, emplace, less}

pub less-asym : (a b : List ℕ) → less a b ≡ true → less b a ≡ false
unfolding less
less-asym [] [] h = refl
less-asym [] (b ∷ bs) h = refl
less-asym (a ∷ as') [] h = cc
less-asym (a ∷ as') (b ∷ bs) h = ground (arith, less-asym as' bs)

-- The key is less than every key of the fields.
abbrev pub Below : List ℕ → Fields → Type 0
Below k nil = Unit
Below k (field j w fs) = (less k j ≡ true) × Below k fs

-- The keys increase, as in a `std::map`.
abbrev pub IsSorted : Fields → Type 0
IsSorted nil = Unit
IsSorted (field k v fs) = Below k fs × IsSorted fs

-- Every key of the first is less than every key of the second.
abbrev Before : Fields → Fields → Type 0
Before nil fs = Unit
Before (field k v acc) fs = Below k fs × Before acc fs

-- The fields emplaced one after the other.
unfoldable pub collect : Fields → Fields → Fields
collect acc nil = acc
collect acc (field k v fs) = collect (emplace k v acc) fs

join : Fields → Fields → Fields
join nil fs = fs
join (field k v acc) fs = field k v (join acc fs)

join-nil : (acc : Fields) → join acc nil ≡ acc
unfolding join
join-nil nil = refl
join-nil (field k v acc) = ap (field k v) (join-nil acc)

join_assoc : (a b c : Fields) → join (join a b) c ≡ join a (join b c)
unfolding join
join_assoc nil b c = refl
join_assoc (field k v a) b c = ap (field k v) (join_assoc a b c)

emplace-last :
    (k : List ℕ) (v : AmfValue) (acc fs : Fields)
    → Before acc (field k v fs)
    → emplace k v acc ≡ join acc (field k v nil)
unfolding emplace join
emplace-last k v nil fs h = refl
emplace-last k v (field j w acc) fs h =
    rw (less-asym j k h.0.0, h.0.0) (ap (field j w) (emplace-last k v acc fs h.1))

Before-step :
    (k : List ℕ) (v : AmfValue) (acc fs : Fields)
    → Before acc (field k v fs)
    → Below k fs
    → Before (join acc (field k v nil)) fs
unfolding join
Before-step k v nil fs h below = (below, tt)
Before-step k v (field j w acc) fs h below = (h.0.1, Before-step k v acc fs h.1 below)

collect-join : (acc fs : Fields) → Before acc fs → IsSorted fs → collect acc fs ≡ join acc fs
unfolding collect
collect-join acc nil h s = sym' (join-nil acc)
  where
    sym' : {x y : Fields} → x ≡ y → y ≡ x
    sym' p = rw p
collect-join acc (field k v fs) h s = rw (emplace-last k v acc fs h) (
    collect-join (join acc (field k v nil)) fs (Before-step k v acc fs h s.0) s.1
    ∙ unfold join in join_assoc acc (field k v nil) fs)

-- Adding the fields of an object one after the other to an empty one gives them back, if their keys
-- increase.
pub collect-sorted : (fs : Fields) → IsSorted fs → collect nil fs ≡ fs
unfolding join
collect-sorted fs s = collect-join nil fs tt s
