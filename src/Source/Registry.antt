-- ===== src/Source/Registry.antt =====
-- RtmpSource::FindMediaSource and CreateMediaSource: the sources by name, under one mutex. A source
-- is a number, since the map holds pointers; `made` is how many sources were made.
use streamcode.Prelude.{
  ℕ, suc, ◌<◌, ◌≡◌, ◌⊎◌, inl, inr, refl, false, Option, none, some, List, [], ◌∷◌, arith,
  Option-cases, if◌then◌else◌,
}
use streamcode.Amf.{less, same_key}

pub record Registry : Type 0 where
  pub sources : List (List ℕ × ℕ)
  pub made : ℕ

unfoldable pub look_up : List ℕ → List (List ℕ × ℕ) → Option ℕ
look_up name [] = none
look_up name ((n, id) ∷ rest) = if same_key n name then some id else look_up name rest

-- `find`; `none` is that NULL is returned.
unfoldable pub find_media_source : List ℕ → Registry → Option ℕ
find_media_source name r = look_up name r.sources

-- A new source goes into the map if there is none of the name.
unfoldable pub create_media_source : List ℕ → Registry → ℕ × Registry
create_media_source name r = elim (look_up name r.sources) [
  | some id ↦ (id, r)
  | none ↦ (r.made, record { sources = (name, r.made) ∷ r.sources; made = suc r.made })
]

less-irreflexive : (a : List ℕ) → less a a ≡ false
unfolding less
less-irreflexive [] = refl
less-irreflexive (x ∷ a) = ground (arith, less-irreflexive a)

-- No name has a source that was not made yet.
abbrev pub AllMade : ℕ → List (List ℕ × ℕ) → Type 0
AllMade made [] = Unit
AllMade made ((n, id) ∷ rest) = (id < made) × AllMade made rest

pub AllMade-suc :
    (made : ℕ) (sources : List (List ℕ × ℕ)) → AllMade made sources → AllMade (suc made) sources
AllMade-suc made [] h = tt
AllMade-suc made ((n, id) ∷ rest) (lt, h) = (omega arith, AllMade-suc made rest h)

-- After `CreateMediaSource` the name finds what was returned, which is the source that was there, or
-- one that no name had; every other name finds what it found before, and no name has a source that
-- was not made, if that held before.
pub create_media_source-lem :
    (name other : List ℕ) (r : Registry)
    → AllMade r.made r.sources
    → same_key name other ≡ false
    → let (id, after) = create_media_source name r in
      (find_media_source name after ≡ some id)
      × ((find_media_source name r ≡ some id) ⊎ (id ≡ r.made))
      × (find_media_source other after ≡ find_media_source other r)
      × AllMade after.made after.sources
unfolding create_media_source find_media_source
create_media_source-lem name other r made differ = elim (Option-cases (look_up name r.sources)) [
  | inl e ↦
      rw (create_media_source, e)
        (found, inr refl, missed, (omega arith, AllMade-suc r.made r.sources made))
  | inr (id, e) ↦ rw (create_media_source, e) (e, inl refl, refl, made)
]
  where
    found : look_up name ((name, r.made) ∷ r.sources) ≡ some r.made
    found = unfold look_up same_key in rw (less-irreflexive name) refl

    missed : look_up other ((name, r.made) ∷ r.sources) ≡ look_up other r.sources
    missed = unfold look_up in rw differ refl
