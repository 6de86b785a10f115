-- ===== src/Amf/Writer.antt =====
-- stream/AMFWriter.h and stream/AMFWriter.cpp. The result codes, which no caller looks at, are left
-- out. `junk` is what a new allocation of the buffer holds.
use streamcode.Prelude.{ℕ, Bool, Option, some, List, [], ◌∷◌, length, ◌==◌, if◌then◌else◌, ◌>>=◌}
use streamcode.Buffer.{Buffer, append, init}
use streamcode.Bytes.{flip16, flip24, flip32, flip64, stored16, stored24, stored32, stored64}
use streamcode.Amf.{
  AmfValue, number, integer, boolean, string, object, null, undefined, ecma_array, strict_array,
  Fields, nil, field, get_object,
}

module _ (junk : ℕ → ℕ) where
  -- The constructor makes a buffer of the default size.
  unfoldable pub new_writer : Buffer
  new_writer = init junk 400

  unfoldable pub put : List ℕ → Buffer → Option Buffer
  put bytes b = append junk bytes b >>= λ r. some (r.1)

  -- An empty string writes nothing.
  unfoldable pub write_string : List ℕ → Buffer → Option Buffer
  unfolding put
  write_string s b =
      if length s == 0
      then some b
      else (put (2 ∷ []) b >>= λ b. put (stored16 (flip16 (length s))) b >>= λ b. put s b)

  unfoldable pub write_number : ℕ → Buffer → Option Buffer
  unfolding put
  write_number n b = put (0 ∷ []) b >>= λ b. put (stored64 (flip64 n)) b

  unfoldable pub write16 : ℕ → Buffer → Option Buffer
  write16 n b = put (stored16 (flip16 n)) b

  unfoldable pub write32 : ℕ → Buffer → Option Buffer
  write32 n b = put (stored32 (flip32 n)) b

  unfoldable pub write_boolean : Bool → Buffer → Option Buffer
  unfolding put
  write_boolean t b = put (1 ∷ []) b >>= λ b. put ((if t then 1 else 0) ∷ []) b

  unfoldable pub write_null : Buffer → Option Buffer
  write_null b = put (5 ∷ []) b

  unfoldable pub write_undefined : Buffer → Option Buffer
  write_undefined b = put (6 ∷ []) b

  -- `AMFWriteValue`, with the loop of `AMF_WriteObject`. Integers and arrays write nothing.
  unfoldable mutual
    unfolding put write_string write_number write_boolean write_null write_undefined

    pub write_value : AmfValue → Buffer → Option Buffer
    write_value (string s) b = write_string s b
    write_value (number n) b = write_number n b
    write_value (integer n) b = some b
    write_value (boolean t) b = write_boolean t b
    write_value (object fs) b =
        put (3 ∷ []) b >>= λ b. write_fields fs b >>= λ b. put (stored24 (flip24 9)) b
    write_value null b = write_null b
    write_value undefined b = write_undefined b
    write_value (ecma_array fs) b = some b
    write_value strict_array b = some b

    pub write_fields : Fields → Buffer → Option Buffer
    write_fields nil b = some b
    write_fields (field k v fs) b = put (stored16 (flip16 (length k))) b >>= λ b.
        put k b >>= λ b. write_value v b >>= λ b. write_fields fs b

  -- `AMF_WriteObject` of any value.
  unfoldable pub write_object : AmfValue → Buffer → Option Buffer
  unfolding put write_fields
  write_object v b = put (3 ∷ []) b >>= λ b.
      get_object v >>= λ fs. write_fields fs b >>= λ b. put (stored24 (flip24 9)) b
