-- ===== src/Tests/Frames.antt =====
-- base/DrainableBuffer.cpp, stream/Buffer.cpp and stream/BinaryReader.cpp on small buffers.
use streamcode.Prelude.{◌+◌, ◌≡◌, refl, true, false, some, [], ◌∷◌, arith}
use streamcode.TBuffer.{TBuffer}
use streamcode.Drain
use streamcode.Drain.Laws as Drained
use streamcode.Buffer.{Buffer}
use streamcode.Buffer.Append as Appending
use streamcode.Reader.{Reader, init}
use streamcode.Reader
use streamcode.Reader.Laws.{At, init-IsValid}

abbrev frame : TBuffer
frame = record {
  buffer = record { extent = 8; cell = λ i. i + 10 };
  write_pos = 3;
  read_pos = 1;
  size = 2;
  capacity = 8;
}

frame-IsValid : Drained.IsValid frame
frame-IsValid = omega arith

write-append_example :
    (after : TBuffer) × (Drain.write (1 ∷ 2 ∷ []) frame ≡ some (after, true))
    × Drained.IsValid after
    × (Drained.contents after ≡ 11 ∷ 12 ∷ 1 ∷ 2 ∷ [])
unfolding Drained.contents
write-append_example = Drained.write-append (1 ∷ 2 ∷ []) frame-IsValid (omega arith)

abbrev held : Buffer
held = record {
  null = false;
  block = record { extent = 4; cell = λ i. i + 10 };
  current = 2;
  size = 1;
  capacity = 4;
}

held-IsValid : Appending.IsValid held
held-IsValid = ground arith

start : At (init (1 ∷ 2 ∷ 3 ∷ 4 ∷ 5 ∷ [])) (1 ∷ 2 ∷ 3 ∷ 4 ∷ 5 ∷ [])
unfolding init Reader.rest
start = record { valid = init-IsValid (1 ∷ 2 ∷ 3 ∷ 4 ∷ 5 ∷ []) (omega arith); front = refl }
