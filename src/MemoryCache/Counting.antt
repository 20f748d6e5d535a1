-- ===== src/MemoryCache/Counting.antt =====
-- memory_cache.c: the number of units that are out, as the counters wrap around and the parts of
-- several calls interleave.
use datastor_qos.Base.{
  ℕ, zero, suc, ◌+◌, ◌≤◌, ◌<◌, ◌≡◌, refl, subst, inl, inr, true, false, Option, none, some, List,
  [], ◌∷◌, arith, ltb, if◌then◌else◌, Option-cases, IsWord, sub64,
}
use datastor_qos.MemoryCache.{MemoryCache, init, reserve, settle, alloc, free}

-- The units that are out or reserved.
abbrev pub live : MemoryCache → ℕ
live c = sub64 c.alloc_cnt c.free_cnt

pub record IsValid (c : MemoryCache) : Type 0 where
  pub limit : IsWord c.cache_unit
  pub allocs : IsWord c.alloc_cnt
  pub frees : IsWord c.free_cnt
  pub within : live c ≤ c.cache_unit

pub init-IsValid :
    (unit_size cache_unit : ℕ) → IsWord cache_unit → IsValid (init unit_size cache_unit)
unfolding init
init-IsValid u k w = ground arith

pub reserve-live :
    (c : MemoryCache)
    → IsValid c
    → IsValid (reserve c).1
      × ((reserve c).1.cache_unit ≡ c.cache_unit)
      × ((reserve c).0 ≡ ltb (live c) c.cache_unit)
      × (live (reserve c).1 ≡ live c + (if (reserve c).0 then 1 else 0))
unfolding reserve
reserve-live c v = ground arith

pub alloc-live :
    (c : MemoryCache)
    → IsValid c
    → IsValid (alloc c true).1
      × ((alloc c true).1.cache_unit ≡ c.cache_unit)
      × ((alloc c true).0 ≡ ltb (live c) c.cache_unit)
      × (live (alloc c true).1 ≡ live c + (if (alloc c true).0 then 1 else 0))
unfolding alloc
alloc-live c v = ground arith

pub free-live :
    (c : MemoryCache)
    → IsValid c
    → 0 < live c
    → IsValid (free c) × ((free c).cache_unit ≡ c.cache_unit) × (live (free c) + 1 ≡ live c)
unfolding free
free-live c v h = ground arith

-- The locked parts that threads can run, in the order in which they get the lock: a reservation,
-- the end of a reservation whose memory was not given, and a return.
pub data Event : Type 0 where
  reserves gives_up returns_unit : Event

unfoldable pub step : MemoryCache → Event → MemoryCache
step c reserves = (reserve c).1
step c gives_up = settle c false
step c returns_unit = free c

unfoldable pub run : MemoryCache → List Event → MemoryCache
run c [] = c
run c (e ∷ es) = run (step c e) es

-- The specification: a number of units out, which a reservation raises only below the limit. A unit
-- comes back only if one is out.
abbrev pub next : ℕ → ℕ → Event → Option ℕ
next limit n reserves = some (if ltb n limit then suc n else n)
next limit zero gives_up = none
next limit (suc n) gives_up = some n
next limit zero returns_unit = none
next limit (suc n) returns_unit = some n

unfoldable pub count : ℕ → ℕ → List Event → Option ℕ
count limit n [] = some n
count limit n (e ∷ es) = elim (next limit n e) [ none ↦ none | some m ↦ count limit m es ]

step-live :
    (c : MemoryCache) (e : Event) (m : ℕ)
    → IsValid c
    → next c.cache_unit (live c) e ≡ some m
    → IsValid (step c e) × ((step c e).cache_unit ≡ c.cache_unit) × (live (step c e) ≡ m)
unfolding step reserve settle free
step-live c reserves m v h = ground arith
step-live c gives_up m v h = ground arith
step-live c returns_unit m v h = ground arith

-- The counters implement the specification: after any events that it allows, on counters that are
-- valid, they are valid and show the number of units out,
-- which is never above the limit.
pub run-count :
    (c : MemoryCache) (es : List Event) (m : ℕ)
    → IsValid c
    → count c.cache_unit (live c) es ≡ some m
    → IsValid (run c es) × (live (run c es) ≡ m) × (m ≤ c.cache_unit)
unfolding run count
run-count c [] m v h = ground arith
run-count c (e ∷ es) m v h = elim (Option-cases (next c.cache_unit (live c) e)) [
  | inl stuck ↦ let none_left = rw (stuck, count) at h in cc
  | inr (k, s) ↦
      let (v', limit, now) = step-live c e k v s in
      let rest = rw (s, count) at h in
      let (p, q, below) = run-count (step c e) es m v' (rw (limit, now) rest) in
      (p, q, subst (λ u. m ≤ u) limit below)
]

pub live-init : (unit_size cache_unit : ℕ) → live (init unit_size cache_unit) ≡ 0
unfolding init
live-init u k = refl
