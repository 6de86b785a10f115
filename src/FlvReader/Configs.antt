-- ===== src/FlvReader/Configs.antt =====
-- AVC::ReadVideoConfig of stream/AVC.cpp.
use streamcode.Prelude.{
  ℕ, suc, ◌+◌, ◌%◌, ◌^◌, ◌<◌, ◌≡◌, refl, sym, ap, ap₂, subst, ◌∙◌, some, List, [], ◌∷◌, ◌++◌, arith,
  length, take-append, drop-append, append_assoc, append-nil, le→ltb, length-append, add32,
  add32-eq,
}
use streamcode.Bytes.{byte, big_endian}
use streamcode.Reader.{Reader, init, rest, read8, read16, next}
use streamcode.Reader.Laws.{At, init-IsValid, read8-At, read16-At, next-At}
use streamcode.FlvReader.{Sets, read_sets, read_video_config}

-- Parameter sets, each behind its size.
unfoldable pub print_sets : List (List ℕ) → List ℕ
print_sets [] = []
print_sets (s ∷ ss) = byte 1 (length s) ∷ byte 0 (length s) ∷ s ++ print_sets ss

unfoldable pub join : List (List ℕ) → List ℕ
join [] = []
join (s ∷ ss) = s ++ join ss

abbrev pub AreShort : List (List ℕ) → Type 0
AreShort [] = Unit
AreShort (s ∷ ss) = (length s < 2 ^ 16) × AreShort ss

read_sets-none : (s : Sets) → read_sets 0 s ≡ some s
unfolding read_sets
read_sets-none s = refl

pub init-At : (text : List ℕ) → length text < 2 ^ 32 → At (init text) text
unfolding init rest
init-At text h = record { valid = init-IsValid text h; front = refl }

size-bytes : (n : ℕ) → n < 2 ^ 16 → big_endian 0 (byte 1 n ∷ byte 0 n ∷ []) ≡ n
unfolding big_endian
size-bytes n h = omega (arith, h)

-- One round of the loop, where the size and the set are there.
read_sets-one :
    (x : List ℕ) (text : List ℕ) (count : ℕ) (s : Sets)
    → length x < 2 ^ 16
    → At s.reader (byte 1 (length x) ∷ byte 0 (length x) ∷ (x ++ text))
    → s.counted + (length x + 2) < 2 ^ 32
    → (r : Reader) × At r text
      × (read_sets (suc count) s
          ≡ read_sets count
              (record { reader = r; text = s.text ++ x; counted = s.counted + (length x + 2) }))
unfolding read_sets
read_sets-one x text count s short at small =
    let (value, behind) =
      read16-At (x ++ text) (byte 1 (length x)) (byte 0 (length x)) (omega arith) (omega arith)
        at in
    let same : (read16 s.reader).0 ≡ length x = value ∙ size-bytes (length x) short in
    (
      (next (length x) (read16 s.reader).1).1,
      subst (At (next (length x) (read16 s.reader).1).1) (drop-append x text)
          (next-At (length x) behind),
      rw
          (
            same,
            behind.front,
            le→ltb (length (x ++ text)) (length x) (omega (arith, length-append x text)),
            take-append x text,
            add32-eq s.counted (length x + 2) small,
          )
          refl,
    )

read_sets-print :
    (ss : List (List ℕ)) (text : List ℕ) (s : Sets)
    → AreShort ss
    → At s.reader (print_sets ss ++ text)
    → s.counted + length (print_sets ss) < 2 ^ 32
    → (r : Reader) × At r text
      × (read_sets (length ss) s
          ≡ some (record {
            reader = r;
            text = s.text ++ join ss;
            counted = s.counted + length (print_sets ss);
          }))
unfolding print_sets join
read_sets-print [] text s short at small = (
  s.reader,
  at,
  read_sets-none s
      ∙ ap₂ (λ t n. some (record { reader = s.reader; text = t; counted = n }))
          (sym (append-nil s.text)) (omega arith),
)
read_sets-print (x ∷ ss) text s (short, shorts) at small =
    let size = length-append x (print_sets ss) in
    let (r, at', e) =
      read_sets-one x (print_sets ss ++ text) (length ss) s short
        (subst (λ t. At s.reader (byte 1 (length x) ∷ byte 0 (length x) ∷ t))
          (append_assoc x (print_sets ss) text) at)
        (omega (arith, size)) in
    let (r', at'', e') =
      read_sets-print ss text
        (record { reader = r; text = s.text ++ x; counted = s.counted + (length x + 2) }) shorts at'
        (omega (arith, size)) in
    (
      r',
      at'',
      e
          ∙ e'
          ∙ ap₂ (λ t n. some (record { reader = r'; text = t; counted = n }))
              (append_assoc s.text x (join ss)) (omega (arith, size)),
    )

few_bits : (n : ℕ) → n < 32 → (224 + n) % 32 ≡ n
few_bits n h = omega arith

-- A configuration: five bytes (the version, the profile, the compatibility, the level, and the size of
-- the sizes in a unit), the sets of the first kind behind their number, which has three bits of
-- ones in front, a byte, and the sets of the second kind.
abbrev pub config_bytes : ℕ → ℕ → ℕ → ℕ → ℕ → List (List ℕ) → List (List ℕ) → ℕ → List ℕ → List ℕ
config_bytes version profile compatibility level sizes sps pps byte_between behind =
    version
    ∷ profile
    ∷ compatibility
    ∷ level
    ∷ sizes
    ∷ (224 + length sps)
    ∷ (print_sets sps ++ (byte_between ∷ (print_sets pps ++ behind)))

-- ReadVideoConfig of a configuration, which is any five bytes, the sets of the first kind behind
-- their number with three bits of ones in front, a byte, and as many sets of the second kind, gets
-- the sets of both kinds, whatever the byte says that should count the second ones; there are less
-- than 32 sets of each kind, each is shorter than 2^16 bytes, and the whole is shorter than 2^32;
-- what stands behind the sets is not read.
pub read_video_config-print :
    (v p c l z : ℕ) (sps pps : List (List ℕ)) (said : ℕ) (behind : List ℕ)
    → length sps ≡ length pps
    → length sps < 32
    → AreShort sps
    → AreShort pps
    → length (config_bytes v p c l z sps pps said behind) < 2 ^ 32
    → read_video_config (config_bytes v p c l z sps pps said behind)
      ≡ some (record {
        sps = join sps;
        pps = join pps;
        counted = 7 + length (print_sets sps) + length (print_sets pps);
      })
unfolding read_video_config
read_video_config-print v p c l z sps pps said behind same few short short' small =
    let bytes = config_bytes v p c l z sps pps said behind in
    let start : Reader = (next 5 (init bytes)).1 in
    let (value, at1) = read8-At (next-At 5 (init-At bytes small)) in
    let count : (read8 start).0 % 32 ≡ length sps =
      ap (λ n. n % 32) value ∙ few_bits (length sps) few in
    let size : length (print_sets sps) + length (print_sets pps) + 7 < 2 ^ 32 = omega (
      arith,
      length-append (print_sets sps) (said ∷ (print_sets pps ++ behind)),
      length-append (print_sets pps) behind,
      small,
    ) in
    let (r, at2, e) =
      read_sets-print sps (said ∷ (print_sets pps ++ behind))
        (record { reader = (read8 start).1; text = []; counted = 6 }) short at1 (omega arith) in
    let (between, at3) = read8-At at2 in
    let counted : add32 (6 + length (print_sets sps)) 1 ≡ 7 + length (print_sets sps) =
      add32-eq (6 + length (print_sets sps)) 1 (omega arith) ∙ omega arith in
    let second : Sets = record {
      reader = (read8 r).1;
      text = [];
      counted = 7 + length (print_sets sps);
    } in
    let (r', at4, e') = read_sets-print pps behind second short' at3 (omega arith) in
    rw (count, e, counted, ap (λ n. read_sets n second) same ∙ e') refl
