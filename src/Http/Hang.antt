-- ===== src/Http/Hang.antt =====
-- HttpRequest::ParseHead where `size_t` has 64 bits.
use streamcode.Prelude.{
  ℕ, zero, suc, ◌-◌, ◌<◌, ◌≡◌, ◌≢◌, inl, inr, refl, ap, ◌∙◌, false, Option, none, some, List, arith,
  length, get_or, lt→ltb, Option-cases, ltb-cases, sym, subst, Bool, ◌+◌,
}
use streamcode.Http.{
  Request, find, crlf, parse_line, Ending, ended, and_then, parse_one, parse_at, parse_lines,
}
use streamcode.Http.Strings.{find-crlf}

-- The loop is still running, or an exception has left it.
abbrev pub NoEnd : Ending → Type 0
NoEnd (ended r) = ⊥
NoEnd _ = Unit

parse_one-NoEnd :
    (line : List ℕ) (r : Request) (again : Request → Ending)
    → ((r' : Request) → NoEnd (again r'))
    → NoEnd (parse_one line r again)
unfolding parse_one
parse_one-NoEnd line r again h = by_line (parse_line line r)
  where
    by_line : (o : Option Request) → NoEnd (and_then o again)
    by_line none = tt
    by_line (some r') = h r'

pub parse_lines-at :
    (narrow : Bool) (fuel start : ℕ) (found : Option ℕ) (head : List ℕ) (r : Request)
    → start < length head
    → find crlf start head ≡ found
    → parse_lines narrow (suc fuel) head start r
      ≡ parse_at narrow start found head r (parse_lines narrow fuel head)
unfolding parse_lines
parse_lines-at narrow fuel start found head r inside e =
    rw (lt→ltb start (length head) inside, e) refl

-- Where size_t has 64 bits, the loop of ParseHead never comes to its end on a head of more than one
-- byte that does not end in a line feed, from any place in it: after any number of rounds it is
-- still running, or an exception has left it.
pub parse_lines-NoEnd :
    (fuel start : ℕ) (head : List ℕ) (r : Request)
    → 1 < length head
    → get_or head (length head - 1) 0 ≢ 10
    → start < length head
    → NoEnd (parse_lines false fuel head start r)
unfolding parse_lines parse_at
parse_lines-NoEnd zero start head r long last inside = tt
parse_lines-NoEnd (suc fuel) start head r long last inside =
    elim (Option-cases (find crlf start head)) [
      | inl e ↦ subst NoEnd (sym (parse_lines-at false fuel start none head r inside e)) (
          parse_one-NoEnd _ r (parse_lines false fuel head 1)
            (λ r'. parse_lines-NoEnd fuel 1 head r' long last long))
      | inr (pos, e) ↦
          subst NoEnd (sym (parse_lines-at false fuel start (some pos) head r inside e)) (
            parse_one-NoEnd _ r (parse_lines false fuel head (pos + 2))
              (λ r'. parse_lines-NoEnd fuel (pos + 2) head r' long last (before pos e)))
    ]
  where
    before : (pos : ℕ) → find crlf start head ≡ some pos → pos + 2 < length head
    before pos e =
        let (in_head, lf) = find-crlf start pos head e in
        elim (ltb-cases (pos + 2) (length head)) [
          | inl (_, lt) ↦ lt
          | inr (_, at_end) ↦
              let place : pos + 1 ≡ length head - 1 = omega (arith, at_end, in_head) in
              absurd (last (ap (λ k. get_or head k 0) (sym place) ∙ lf))
        ]
