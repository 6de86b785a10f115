-- ===== src/Rtp/RoundTrip.antt =====
-- RTP::SendNaluPacket and a receiver that puts the fragments together (RFC 6184, section 5.8).
use streamcode.Prelude.{
  ℕ, ◌+◌, ◌*◌, ◌/◌, ◌%◌, ◌^◌, ◌&&◌, Bool, Option, none, some, List, [], ◌∷◌, ◌++◌, drop, leb, map,
  ◌==◌, if◌then◌else◌, ◌>>=◌,
}
use streamcode.Rtp.{fragments}

-- What stands behind the sixteen bytes in front.
abbrev pub payload_of : List ℕ → List ℕ
payload_of bytes = drop 16 bytes

-- The data of the fragments behind the first one. Each has the indicator and the type of the first
-- one and no start bit; the last one, and no other, has the end bit.
unfoldable pub collect : ℕ → ℕ → List (List ℕ) → Option (List ℕ)
collect indicator type [] = none
collect indicator type ([] ∷ rest) = none
collect indicator type ((i ∷ []) ∷ rest) = none
collect indicator type ((i ∷ f ∷ part) ∷ rest) =
    let later = collect indicator type rest in
    if (i == indicator) && (f == type + 64)
    then elim rest [ [] ↦ some part | _ ∷ _ ↦ none ]
    else (if (i == indicator) && (f == type) then (later >>= λ more. some (part ++ more)) else none)

unfoldable pub sole : List ℕ → List (List ℕ) → Option (List ℕ)
sole nalu [] = some nalu
sole nalu (_ ∷ _) = none

-- A first fragment has the start bit and neither the end bit nor the reserved one. A packet of its own
-- has a type from 1 to 23; what has another type is refused, such as packets of several units.
unfoldable pub depacketize : List (List ℕ) → Option (List ℕ)
depacketize [] = none
depacketize ([] ∷ rest) = none
depacketize ((i ∷ part) ∷ rest) =
    if i % 2 ^ 5 == 28
    then begin part
    else (if leb 1 (i % 2 ^ 5) && leb (i % 2 ^ 5) 23 then sole (i ∷ part) rest else none)
  where
    begin : List ℕ → Option (List ℕ)
    begin [] = none
    begin (f ∷ front) =
        if f / 2 ^ 5 == 4
        then (collect i (f % 2 ^ 5) rest >>= λ body.
            some ((i / 2 ^ 5 * 2 ^ 5 + f % 2 ^ 5) ∷ (front ++ body)))
        else none

-- The payloads of the fragments.
abbrev parts : ℕ → ℕ → Bool → ℕ → ℕ → List ℕ → List (List ℕ)
parts fuel h is_start seq pts body = map payload_of (fragments fuel h is_start seq pts body).packets
