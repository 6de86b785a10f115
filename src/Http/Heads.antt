-- ===== src/Http/Heads.antt =====
-- HttpRequest::ParseHead where `size_t` has 32 bits: what is parsed of a head that a client writes.
use streamcode.Prelude.{
  ℕ, zero, suc, ◌+◌, ◌-◌, ◌<◌, ◌≡◌, refl, sym, ap, ap₂, ◌∙◌, true, false, none, some, List, [], ◌∷◌,
  ◌++◌, arith, length, take, drop, length-append, take-append_of, take-append, drop-append,
  drop-append_of, append_assoc,
}
use streamcode.Http.{
  find, crlf, colon, space, Request, set_field, is_empty, keep, split_line, and_then, after_method,
  after_url, with_first, behind_first, parse_line, parse_first_line, Ending, ended, parse_one,
  parse_at, parse_lines, parse_head,
}
use streamcode.Http.Strings.{Lacks, Lacks-append, find-first_at, find-none}
use streamcode.Http.Hang.{parse_lines-at}

-- A header line, without its end.
abbrev pub line_of : List ℕ × List ℕ → List ℕ
line_of (key, value) = key ++ (colon ++ value)

-- The header lines, with line ends between them.
unfoldable pub print_lines : List (List ℕ × List ℕ) → List ℕ
print_lines [] = []
print_lines (f ∷ []) = line_of f
print_lines (f ∷ g ∷ rest) = line_of f ++ (crlf ++ print_lines (g ∷ rest))

-- The parser's fields once these have been set one after the other.
abbrev pub set_all : List (List ℕ × List ℕ) → Request → Request
set_all [] r = r
set_all ((k, v) ∷ rest) r = set_all rest (record r { fields = set_field k v r.fields })

-- A key with no colon, and a value, neither empty nor with a carriage return.
abbrev pub IsField : List ℕ × List ℕ → Type 0
IsField (key, value) =
    Lacks 58 key × Lacks 13 key × Lacks 13 value × (is_empty key ≡ false) × (is_empty value ≡ false)

abbrev pub AreFields : List (List ℕ × List ℕ) → Type 0
AreFields [] = Unit
AreFields (f ∷ rest) = IsField f × AreFields rest

keep-field :
    (k v : List ℕ) (r : Request)
    → is_empty k ≡ false
    → is_empty v ≡ false
    → keep k v r ≡ record r { fields = set_field k v r.fields }
unfolding keep
keep-field k v r e e' = rw (e, e') refl

found-colon : (k v : List ℕ) → Lacks 58 k → find colon 0 (k ++ (colon ++ v)) ≡ some (length k)
found-colon k v h = find-first_at 58 (32 ∷ []) [] k v h ∙ ap some (omega arith)

parse_line-line_of :
    (k v : List ℕ) (r : Request) → Lacks 58 k → parse_line (k ++ (colon ++ v)) r ≡ some (keep k v r)
unfolding parse_line
parse_line-line_of k v r h =
    ap (split_line (k ++ (colon ++ v)) r) (found-colon k v h)
    ∙ (ap₂ (λ a b. some (keep a b r)) (take-append_of (length k) k (colon ++ v) refl)
        (ap (drop (length k + 2)) (sym (append_assoc k colon v))
          ∙ drop-append_of (length k + 2) (k ++ colon) v (length-append k colon)))

parse_one-line_of :
    (k v : List ℕ) (r : Request) (again : Request → Ending)
    → IsField (k, v)
    → parse_one (line_of (k, v)) r again ≡ again (record r { fields = set_field k v r.fields })
unfolding parse_one
parse_one-line_of k v r again (no_colon, _, _, e, e') =
    ap (λ o. and_then o again) (parse_line-line_of k v r no_colon ∙ ap some (keep-field k v r e e'))

Lacks-line_of : (f : List ℕ × List ℕ) → IsField f → Lacks 13 (line_of f)
Lacks-line_of (k, v) (_, in_key, in_value, _, _) =
    Lacks-append 13 k (colon ++ v) in_key
      ((λ e. omega (arith, e)), ((λ e. omega (arith, e)), in_value))

line_of-long : (f : List ℕ × List ℕ) → 0 < length (line_of f)
line_of-long (k, v) = omega (arith, length-append k (colon ++ v))

cut :
    (front line tail : List ℕ)
    → take
        (length front + length line - length front)
        (drop (length front) (front ++ (line ++ tail)))
      ≡ line
cut front line tail =
    ap₂ take (omega arith) (drop-append front (line ++ tail)) ∙ take-append line tail

parse_lines-print :
    (fuel : ℕ) (front : List ℕ) (f : List ℕ × List ℕ) (fs : List (List ℕ × List ℕ)) (r : Request)
    → AreFields (f ∷ fs)
    → length fs < fuel
    → parse_lines true fuel (front ++ print_lines (f ∷ fs)) (length front) r
      ≡ ended (set_all (f ∷ fs) r)
unfolding print_lines parse_at
parse_lines-print zero front f fs r good enough = absurd (omega (arith, enough))
parse_lines-print (suc fuel) front (k, v) [] r (good, tt) enough =
    parse_lines-at true fuel (length front) none (front ++ line_of (k, v)) r
      (omega (arith, length-append front (line_of (k, v)), line_of-long (k, v)))
      (find-none 13 (10 ∷ []) front (line_of (k, v)) (Lacks-line_of (k, v) good))
    ∙ ap (λ t. parse_one t r ended) (drop-append front (line_of (k, v)))
    ∙ parse_one-line_of k v r ended good
parse_lines-print (suc fuel) front (k, v) (g ∷ fs) r (good, rest) enough =
    let line = line_of (k, v) in
    let tail = print_lines (g ∷ fs) in
    let head : List ℕ = front ++ (line ++ (crlf ++ tail)) in
    let front' : List ℕ = front ++ (line ++ crlf) in
    let at : ℕ = length front + length line in
    let r' : Request = record r { fields = set_field k v r.fields } in
    let same : head ≡ front' ++ tail =
      ap (◌++◌ front) (sym (append_assoc line crlf tail))
      ∙ sym (append_assoc front (line ++ crlf) tail) in
    let behind : at + 2 ≡ length front' =
      omega (arith, length-append front (line ++ crlf), length-append line crlf) in
    parse_lines-at true fuel (length front) (some at) head r
      (omega (
        arith,
        length-append front (line ++ (crlf ++ tail)),
        length-append line (crlf ++ tail),
        line_of-long (k, v),
      ))
      (find-first_at 13 (10 ∷ []) front line tail (Lacks-line_of (k, v) good))
    ∙ ap (λ t. parse_one t r (parse_lines true fuel head (at + 2))) (cut front line (crlf ++ tail))
    ∙ parse_one-line_of k v r (parse_lines true fuel head (at + 2)) good
    ∙ ap₂ (λ h n. parse_lines true fuel h n r') same behind
    ∙ parse_lines-print fuel front' g fs r' rest (omega arith)

-- A request line of a method, an address and a version, with the header lines behind it.
abbrev pub head_of : List ℕ → List ℕ → List ℕ → List (List ℕ × List ℕ) → List ℕ
head_of method url version fields =
    (method ++ (space ++ (url ++ (space ++ version)))) ++ (crlf ++ print_lines fields)

parse_first_line-print :
    (method url version : List ℕ) (r : Request)
    → Lacks 32 method
    → Lacks 32 url
    → parse_first_line (method ++ (space ++ (url ++ (space ++ version)))) r
      ≡ (record r { method = method; url = url; version = version }, true)
unfolding parse_first_line
parse_first_line-print method url version r no_space no_space' =
    let front : List ℕ = method ++ space in
    let line : List ℕ = method ++ (space ++ (url ++ (space ++ version))) in
    let same : line ≡ front ++ (url ++ (space ++ version)) =
      sym (append_assoc method space (url ++ (space ++ version))) in
    let start : length method + 1 ≡ length front = omega (arith, length-append method space) in
    let r' : Request = record r { method = method } in
    ap (after_method line r) (
      find-first_at 32 [] [] method (url ++ (space ++ version)) no_space
      ∙ ap some (zero_add (length method)))
    ∙ ap₂ (λ m n. after_url line n (record r { method = m }) (find space n line))
        (take-append method (space ++ (url ++ (space ++ version)))) start
    ∙ ap (λ l. after_url l (length front) r' (find space (length front) l)) same
    ∙ ap (after_url (front ++ (url ++ (space ++ version))) (length front) r')
        (find-first_at 32 [] front url version no_space')
    ∙ ap₂ (λ u v. (record r' { url = u; version = v }, true)) (cut front url (space ++ version))
        (ap₂ drop (behind front url) (
            sym (append_assoc front url (space ++ version))
            ∙ sym (append_assoc (front ++ url) space version))
          ∙ drop-append ((front ++ url) ++ space) version)
  where
    zero_add : (n : ℕ) → 0 + n ≡ n
    zero_add n = omega arith

    behind : (front url : List ℕ) → length front + length url + 1 ≡ length ((front ++ url) ++ space)
    behind front url = omega (arith, length-append (front ++ url) space, length-append front url)

-- Where `size_t` has 32 bits, ParseHead of a method and an address without spaces, a version, and one or
-- more fields, none of them with a carriage return, gets them back: the fields are set one after the
-- other, in the order of the lines. The loop runs at most once for each field.
pub parse_head-print :
    (method url version : List ℕ) (f : List ℕ × List ℕ) (fs : List (List ℕ × List ℕ)) (r : Request)
    → Lacks 32 method
    → Lacks 32 url
    → Lacks 13 method
    → Lacks 13 url
    → Lacks 13 version
    → AreFields (f ∷ fs)
    → parse_head true (suc (length fs)) (head_of method url version (f ∷ fs)) r ≡ (
      ended (set_all (f ∷ fs) (record r { method = method; url = url; version = version })),
      true,
    )
unfolding parse_head
parse_head-print method url version f fs r no_space no_space' in_method in_url in_version good =
    let line : List ℕ = method ++ (space ++ (url ++ (space ++ version))) in
    let tail = print_lines (f ∷ fs) in
    let head = line ++ (crlf ++ tail) in
    let lacks : Lacks 13 line =
      Lacks-append 13 method (space ++ (url ++ (space ++ version))) in_method (
        (λ e. omega (arith, e)),
        Lacks-append 13 url (space ++ version) in_url ((λ e. omega (arith, e)), in_version),
      ) in
    let r' : Request = record r { method = method; url = url; version = version } in
    ap (with_first true (suc (length fs)) head r)
      (find-first_at 13 (10 ∷ []) [] line tail lacks ∙ ap some (zero_add (length line)))
    ∙ ap (λ l. behind_first true (suc (length fs)) (length line + 2) head (parse_first_line l r))
        (take-append line (crlf ++ tail))
    ∙ ap (behind_first true (suc (length fs)) (length line + 2) head)
        (parse_first_line-print method url version r no_space no_space')
    ∙ ap₂ (λ h n. (parse_lines true (suc (length fs)) h n r', true))
        (sym (append_assoc line crlf tail)) (start line)
    ∙ ap (λ e. (e, true))
        (parse_lines-print (suc (length fs)) (line ++ crlf) f fs r' good (omega arith))
  where
    zero_add : (n : ℕ) → 0 + n ≡ n
    zero_add n = omega arith

    start : (line : List ℕ) → length line + 2 ≡ length (line ++ crlf)
    start line = omega (arith, length-append line crlf)
