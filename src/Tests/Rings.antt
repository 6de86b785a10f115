-- ===== src/Tests/Rings.antt =====
-- base/RingBuffer.cpp on a ring of four bytes whose contents go round the end.
use streamcode.Prelude.{
  ℕ, ◌+◌, ◌≡◌, refl, Option, none, some, List, [], ◌∷◌, arith, sub64, ◌==◌, if◌then◌else◌,
}
use streamcode.TBuffer.{TBuffer}
use streamcode.Ring.{write, read, peek}
use streamcode.Ring.Valid.{IsValid, contents, wrap}
use streamcode.Ring.Write.{write-contents, Appends}
use streamcode.Ring.Peek.{read-contents, peek-faults, Drops}
use streamcode.Ring.Queue.{Call, put, get, run, run_queue, run_refines}
use streamcode.Ring.Vectors.{Iovec, get_write_pos, Received}

abbrev zeros : ℕ → ℕ
zeros i = 0

-- 12 and 13 stand at the end of the allocation, 10 at its front.
abbrev ring : TBuffer
ring = record {
  buffer = record { extent = 4; cell = λ i. i + 10 };
  write_pos = 1;
  read_pos = 2;
  size = 3;
  capacity = 4;
}

ring-IsValid : IsValid ring
ring-IsValid = omega arith

contents-ring : contents ring ≡ 12 ∷ 13 ∷ 10 ∷ []
unfolding contents wrap
contents-ring = refl

abbrev script : List Call
script = get 2 ∷ put (1 ∷ 2 ∷ 3 ∷ 4 ∷ []) ∷ get 3 ∷ []

abbrev script_outputs : List (Option (List ℕ))
script_outputs = some (12 ∷ 13 ∷ []) ∷ some (10 ∷ 1 ∷ 2 ∷ []) ∷ []

run_refines_example :
    (after : TBuffer) × (run zeros ring script ≡ some (script_outputs, after))
    × IsValid after
    × (contents after ≡ 3 ∷ 4 ∷ [])
unfolding contents wrap run_queue
run_refines_example =
    run_refines zeros 20 script ring-IsValid (omega arith) (omega arith) (omega arith) refl

write-contents_example :
    (after : TBuffer) × (write zeros (1 ∷ 2 ∷ []) ring ≡ some after)
    × Appends ring (1 ∷ 2 ∷ []) after
write-contents_example = write-contents zeros (1 ∷ 2 ∷ []) ring-IsValid (omega arith)

read-contents_example :
    (after : TBuffer) × (read 3 ring ≡ some (some (12 ∷ 13 ∷ 10 ∷ []), after)) × Drops 3 ring after
unfolding contents wrap
read-contents_example = read-contents 3 ring-IsValid (omega arith)

-- Position 2 and offset 3 pass the end of the four bytes.
abbrev ring_full : TBuffer
ring_full = record ring { write_pos = 2; size = 4 }

peek-faults_example : peek 1 3 ring_full ≡ none
peek-faults_example = peek-faults 1 3 (omega arith) (omega arith) (omega arith)

abbrev blank : Iovec
blank = record { base = none; len = 0 }

-- One byte is free, at offset 1.
abbrev cell_after : ℕ → ℕ
cell_after i = if i == 1 then 99 else i + 10

ring-Received :
    let (ok, one, two) = get_write_pos blank blank ring in
    Received ring one two (99 ∷ []) cell_after
unfolding get_write_pos sub64
ring-Received = record {
  fits = omega arith;
  front = λ p i at fits k. ground arith;
  back = λ p i at fits k. absurd (omega arith);
  kept = λ j f s. let g = f 1 refl in ground (arith, g);
}
