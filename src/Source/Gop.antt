-- ===== src/Source/Gop.antt =====
-- GopCache::Cache keeps the packets since the last key frame.
use streamcode.Prelude.{
  ◌+◌, ◌^◌, ◌<◌, ◌≤◌, ◌≡◌, inl, inr, refl, sym, ap, ◌∙◌, true, false, List, [], ◌∷◌, ◌++◌, length,
  append_assoc, append-nil, arith, add32-eq, Bool-cases, eq_false,
}
use streamcode.Source.{Packet, GopCache, is_video, is_key_video, cache, clear}

-- The packets of a list, one after the other.
unfoldable pub cache_all : List Packet → GopCache → GopCache
cache_all [] g = g
cache_all (p ∷ ps) g = cache_all ps (cache p g)

pub cache_all-append :
    (ps qs : List Packet) (g : GopCache) → cache_all (ps ++ qs) g ≡ cache_all qs (cache_all ps g)
unfolding cache_all
cache_all-append [] qs g = refl
cache_all-append (p ∷ ps) qs g = cache_all-append ps qs (cache p g)

-- No packet of the list is a key frame.
abbrev pub NoKey : List Packet → Type 0
NoKey [] = Unit
NoKey (p ∷ ps) = (is_key_video p ≡ false) × NoKey ps

-- A packet that is no key frame, while the count is positive and does not wrap.
cache-appends :
    (p : Packet) (g : GopCache)
    → is_key_video p ≡ false
    → 0 < g.video_count
    → g.video_count + 1 < 2 ^ 32
    → ((cache p g).queue ≡ g.queue ++ (p ∷ []))
      × (0 < (cache p g).video_count)
      × ((cache p g).video_count ≤ g.video_count + 1)
unfolding cache
cache-appends p g plain pos small = elim (Bool-cases (is_video p)) [
  | inl e ↦
      rw
        (
          e,
          plain,
          add32-eq g.video_count 1 small,
          eq_false (g.video_count + 1) 0 λ z. omega (arith, z),
        )
        (refl, omega arith, omega arith)
  | inr e ↦ rw (e, plain, eq_false g.video_count 0 λ z. omega (arith, z)) (refl, pos, omega arith)
]

cache_all-appends :
    (ps : List Packet) (g : GopCache)
    → NoKey ps
    → 0 < g.video_count
    → g.video_count + length ps < 2 ^ 32
    → (cache_all ps g).queue ≡ g.queue ++ ps
unfolding cache_all
cache_all-appends [] g plain pos small = sym (append-nil g.queue)
cache_all-appends (p ∷ ps) g (k, plain) pos small =
    let (q, pos', le) = cache-appends p g k pos (omega arith) in
    cache_all-appends ps (cache p g) plain pos' (omega arith)
    ∙ ap (λ qs. qs ++ ps) q
    ∙ append_assoc g.queue (p ∷ []) ps

key_is_video : (p : Packet) → is_key_video p ≡ true → is_video p ≡ true
unfolding is_key_video
key_is_video p key = ground arith

-- A key frame empties the queue and is the first packet of the new one.
cache-key :
    (p : Packet) (g : GopCache)
    → is_key_video p ≡ true
    → g.video_count + 1 < 2 ^ 32
    → cache p g ≡ record { video_count = 1; queue = p ∷ [] }
unfolding cache clear
cache-key p g key small =
    rw
      (
        key_is_video p key,
        add32-eq g.video_count 1 small,
        eq_false (g.video_count + 1) 0 λ z. omega (arith, z),
        key,
      )
      refl

-- However the cache was before, and whatever its uninitialised count, after a key frame and packets
-- that are none it holds exactly these, in their order, if the counts do not wrap.
pub cache_all-gop :
    (before : List Packet) (key : Packet) (after : List Packet) (g : GopCache)
    → is_key_video key ≡ true
    → NoKey after
    → (cache_all before g).video_count + 1 < 2 ^ 32
    → length after + 1 < 2 ^ 32
    → (cache_all (before ++ (key ∷ after)) g).queue ≡ key ∷ after
unfolding cache_all
cache_all-gop before key after g k plain small few =
    ap (λ c. c.queue) (cache_all-append before (key ∷ after) g)
    ∙ ap (λ c. (cache_all after c).queue) (cache-key key (cache_all before g) k small)
    ∙ cache_all-appends after (record { video_count = 1; queue = key ∷ [] }) plain (omega arith)
        (omega arith)
