-- ===== src/MemoryCache.antt =====
-- memory_cache.c, with CACHE_OPEN_CNT as the header defines it, and sysqos_alloc.c. The cache only
-- counts: `cache_alloc` reserves a unit under the spin lock, asks `qos_alloc` outside it, and gives
-- the reservation up under the lock if that fails. `qos_alloc` is read as returning what malloc
-- gave it.
pub mod Counting
pub mod Tests
use datastor_qos.Base.{
  ℕ, zero, suc, ◌+◌, ◌-◌, ◌*◌, ◌/◌, ◌%◌, ◌^◌, ◌≤◌, ◌<◌, min, max, ◌≡◌, refl, sym, ap, subst, ◌∙◌,
  ◌≢◌, ◌↔◌, ◌⊎◌, inl, inr, Bool, true, false, not, ◌&&◌, ◌||◌, Option, none, some, List, [], ◌∷◌,
  ◌++◌, map, arith, length, sum_of, All, length-append, sum_of-append, ltb, leb, ◌==◌,
  if◌then◌else◌, ==_refl, eq_of_==, ne_of_==, lt_of_ltb, le_of_ltb, Bool-cases, Option-cases,
  IsWord, add64, sub64, mul64, add32, sub32, sub64-eq-sub, add64-eq-add, ℤ, pos, negsuc, pos_part,
  neg_part, ltb_ℤ, eqb_ℤ, ◌<ℤ◌, eq_of_parts,
}

pub record MemoryCache : Type 0 where
  pub unit_size : ℕ
  pub cache_unit : ℕ
  pub alloc_cnt : ℕ
  pub free_cnt : ℕ

-- `memory_cache_init`
unfoldable pub init : ℕ → ℕ → MemoryCache
init unit_size cache_unit = record {
  unit_size = unit_size;
  cache_unit = cache_unit;
  alloc_cnt = 0;
  free_cnt = 0;
}

-- The first locked part of `cache_alloc`: whether a unit could be reserved.
unfoldable pub reserve : MemoryCache → Bool × MemoryCache
reserve c =
    if ltb 0 (sub64 (add64 c.free_cnt c.cache_unit) c.alloc_cnt)
    then (true, record c { alloc_cnt = add64 c.alloc_cnt 1 })
    else (false, c)

-- The second locked part, with what `qos_alloc` answered.
unfoldable pub settle : MemoryCache → Bool → MemoryCache
settle c given = if given then c else record c { alloc_cnt = sub64 c.alloc_cnt 1 }

-- `cache_alloc`, with no other thread between its two parts; the Boolean is `res != NULL`.
unfoldable pub alloc : MemoryCache → Bool → Bool × MemoryCache
unfolding reserve settle
alloc c given =
    let (reserved, c') = reserve c in if reserved then (given, settle c' given) else (false, c')

-- The counting part of `cache_free`.
unfoldable pub free : MemoryCache → MemoryCache
free c = record c { free_cnt = add64 c.free_cnt 1 }
