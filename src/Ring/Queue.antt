-- ===== src/Ring/Queue.antt =====
-- RingBuffer as a byte queue: any run of `Write` and `Read` calls.
use streamcode.Prelude.{
  ℕ, ◌+◌, ◌*◌, ◌^◌, ◌≤◌, ◌<◌, ◌≡◌, inl, inr, ap, sym, Option, none, some, List, [], ◌∷◌, ◌++◌,
  arith, ltb, length, take, drop, Option-cases, if◌then◌else◌, ◌>>=◌,
}
use streamcode.TBuffer.{TBuffer}
use streamcode.Ring.{write, read}
use streamcode.Ring.Valid.{IsValid, contents, length-contents}
use streamcode.Ring.Write.{write-contents}
use streamcode.Ring.Peek.{read-contents}

pub data Call : Type 0 where
  put : List ℕ → Call
  get : ℕ → Call

-- How many bytes the calls write.
abbrev pub written : List Call → ℕ
written [] = 0
written (put bytes ∷ calls) = length bytes + written calls
written (get n ∷ calls) = written calls

-- The calls on a ring, with what each `Read` copies out.
unfoldable pub run : (ℕ → ℕ) → TBuffer → List Call → Option (List (Option (List ℕ)) × TBuffer)
run junk b [] = some ([], b)
run junk b (put bytes ∷ calls) = write junk bytes b >>= λ after. run junk after calls
run junk b (get n ∷ calls) = read n b >>= λ r. run junk (r.1) calls >>= λ s. some (r.0 ∷ s.0, s.1)

-- The same calls on a list of bytes. A `Read` of more than is there is outside the contract.
unfoldable pub run_queue : List ℕ → List Call → Option (List (Option (List ℕ)) × List ℕ)
run_queue q [] = some ([], q)
run_queue q (put bytes ∷ calls) = run_queue (q ++ bytes) calls
run_queue q (get n ∷ calls) =
    let rest = run_queue (drop n q) calls in
    if ltb (length q) n then none else (rest >>= λ s. some (some (take n q) ∷ s.0, s.1))

run_queue-get :
    (q : List ℕ) (n : ℕ) (calls : List Call) {outs : List (Option (List ℕ))} {left : List ℕ}
    → run_queue q (get n ∷ calls) ≡ some (outs, left)
    → (n ≤ length q)
      × (rest : List (Option (List ℕ))) × (outs ≡ some (take n q) ∷ rest)
      × (run_queue (drop n q) calls ≡ some (rest, left))
unfolding run_queue
run_queue-get q n calls eq = elim (Option-cases (run_queue (drop n q) calls)) [
  | inl e ↦ absurd (ground arith)
  | inr (s, e) ↦ (ground arith, s.0, ground arith, ground arith)
]

-- Every run within the contract returns on a valid ring what it returns on the list of its
-- contents, does not fault, and leaves a valid ring that holds the list that is left. `limit`
-- bounds the first capacity and twice the bytes that are ever held, and is below 2 ^ 60.
pub run_refines :
    (junk : ℕ → ℕ) (limit : ℕ) (calls : List Call) {b : TBuffer} {outs : List (Option (List ℕ))}
    {q : List ℕ}
    → IsValid b
    → b.capacity ≤ limit
    → 2 * (b.size + written calls) ≤ limit
    → limit < 2 ^ 60
    → run_queue (contents b) calls ≡ some (outs, q)
    → (after : TBuffer) × (run junk b calls ≡ some (outs, after))
      × IsValid after
      × (contents after ≡ q)
unfolding run run_queue
run_refines junk limit [] {b} v room held small eq = (b, ground arith, v, ground arith)
run_refines junk limit (put bytes ∷ calls) {b} {outs} {q} v room held small eq =
    let (mid, done, appends) = write-contents junk bytes v (omega arith) in
    let more : run_queue (contents mid) calls ≡ some (outs, q) = rw (appends.1) eq in
    let (after, rest, valid, left) =
      run_refines junk limit calls appends.0 (omega (arith, appends.3)) (omega (arith, appends.2))
        small more in
    (after, rw done rest, valid, left)
run_refines junk limit (get n ∷ calls) {b} {outs} {q} v room held small eq =
    let (fits, later, first, more) = run_queue-get (contents b) n calls eq in
    let (mid, done, drops) = read-contents n v (omega (arith, length-contents b)) in
    let more' : run_queue (contents mid) calls ≡ some (later, q) = rw (drops.1) more in
    let (after, rest, valid, left) =
      run_refines junk limit calls drops.0 (omega (arith, drops.2)) (omega (arith, drops.3)) small
        more' in
    (after, rw (done, rest) (ap (λ o. some (o, after)) (sym first)), valid, left)
