-- ===== src/Amf.antt =====
-- stream/AMF.h and stream/AMF.cpp: the values of AMF0 messages.
pub mod Writer
pub mod Encoding
pub mod Reader
pub mod Sorted
pub mod RoundTrip
pub mod Objects
pub mod Ends
use streamcode.Prelude.{
  ℕ, not, ◌&&◌, ◌||◌, Bool, true, false, Option, none, some, List, [], ◌∷◌, ltb, ◌==◌,
  if◌then◌else◌,
}

-- `AMFValue`, by its `m_type`. A double is its 64 bits, since the code only moves it. The fields are
-- those of the `std::map`, in the order of its keys.
mutual
  pub data AmfValue : Type 0 where
    number : ℕ → AmfValue
    integer : ℕ → AmfValue
    boolean : Bool → AmfValue
    string : List ℕ → AmfValue
    object : Fields → AmfValue
    null : AmfValue
    undefined : AmfValue
    ecma_array : Fields → AmfValue
    strict_array : AmfValue

  pub data Fields : Type 0 where
    nil : Fields
    field : List ℕ → AmfValue → Fields → Fields

-- `operator<` of `std::string`.
unfoldable pub less : List ℕ → List ℕ → Bool
less [] [] = false
less [] (b ∷ bs) = true
less (a ∷ as') [] = false
less (a ∷ as') (b ∷ bs) = ltb a b || (a == b && less as' bs)

-- `std::map::emplace` keeps a key that is there.
unfoldable pub emplace : List ℕ → AmfValue → Fields → Fields
unfolding less
emplace k v nil = field k v nil
emplace k v (field j w fs) =
    if less k j
    then field k v (field j w fs)
    else if less j k
    then field j w (emplace k v fs)
    else field j w fs

-- `add`. On a value with no map it follows a pointer that is none.
unfoldable pub add : List ℕ → AmfValue → AmfValue → Option AmfValue
add k v (object fs) = some (object (emplace k v fs))
add k v (ecma_array fs) = some (ecma_array (emplace k v fs))
add k v _ = none

-- Two keys are the same if neither is less.
unfoldable pub same_key : List ℕ → List ℕ → Bool
unfolding less
same_key a b = not (less a b || less b a)

unfoldable pub find : List ℕ → Fields → AmfValue
unfolding same_key
find k nil = null
find k (field j w fs) = if same_key k j then w else find k fs

-- `operator[]`: a missing key gives null.
unfoldable pub at_key : AmfValue → List ℕ → Option AmfValue
unfolding find
at_key (object fs) k = some (find k fs)
at_key (ecma_array fs) k = some (find k fs)
at_key _ k = none

unfoldable pub get_string : AmfValue → List ℕ
get_string (string s) = s
get_string _ = []

-- `GetObject` on a value with no map follows a pointer that is none.
unfoldable pub get_object : AmfValue → Option Fields
get_object (object fs) = some fs
get_object (ecma_array fs) = some fs
get_object _ = none
