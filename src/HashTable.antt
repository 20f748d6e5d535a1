-- ===== src/HashTable.antt =====
-- hash_table.c: an array of locked lists that share one memory cache. The hash that the user sets is
-- a parameter; an index out of range ends the process by an `assert`.
pub mod Buckets
pub mod View
pub mod Writes
pub mod Finds
pub mod Tests
use datastor_qos.Base.{
  ℕ, zero, suc, ◌+◌, ◌-◌, ◌*◌, ◌/◌, ◌%◌, ◌^◌, ◌≤◌, ◌<◌, min, max, ◌≡◌, refl, sym, ap, subst, ◌∙◌,
  ◌≢◌, ◌↔◌, ◌⊎◌, inl, inr, Bool, true, false, not, ◌&&◌, ◌||◌, Option, none, some, List, [], ◌∷◌,
  ◌++◌, map, arith, length, sum_of, All, length-append, sum_of-append, ltb, leb, ◌==◌,
  if◌then◌else◌, ==_refl, eq_of_==, ne_of_==, lt_of_ltb, le_of_ltb, Bool-cases, Option-cases,
  IsWord, add64, sub64, mul64, add32, sub32, sub64-eq-sub, add64-eq-add, ℤ, pos, negsuc, pos_part,
  neg_part, ltb_ℤ, eqb_ℤ, ◌<ℤ◌, eq_of_parts,
}
use datastor_qos.Run.{Run, Fault, returns, aborts, assert, ◌>>=◌, ◌>>◌}
use datastor_qos.MemoryCache
use datastor_qos.MemoryCache.{MemoryCache}
use datastor_qos.SafeRwList
use datastor_qos.SafeRwList.{RwError, Item, Compare}

-- The two functions of `msg_ops_t` that name nodes: an id hashes below any table length, and two
-- ids of one resource alike.
pub record Keys : Type 0 where
  pub cmp : Compare
  pub hash : ℕ → ℕ → ℕ
  pub hash-lt : (id len : ℕ) → 0 < len → hash id len < len
  pub hash-same : (a b len : ℕ) → cmp.same a b ≡ true → hash a len ≡ hash b len

-- `sizeof(qos_container_item_t)`
abbrev pub item_size : ℕ
item_size = 32

-- `hash_table_t`
pub record Table {ℓ} (V : Type ℓ) : Type ℓ where
  pub cache : MemoryCache
  pub buckets : List (List (Item V))

module _ {ℓ} {V : Type ℓ} where
  unfoldable pub empty_buckets : ℕ → List (List (Item V))
  empty_buckets zero = []
  empty_buckets (suc n) = [] ∷ empty_buckets n

  -- `alloc_hash_table`, where memory and locks are given; the item size is that of
  -- `qos_container_item_t`.
  unfoldable pub alloc_table : ℕ → ℕ → Run (Table V)
  unfolding empty_buckets
  alloc_table table_len item_num = do
    assert (ltb 0 table_len)
    returns
        (record { cache = MemoryCache.init item_size item_num; buckets = empty_buckets table_len })

  -- `tab->hash_table[index]`, after `assert(index < tab->tab_len)`
  unfoldable pub bucket : List (List (Item V)) → ℕ → Run (List (Item V))
  bucket [] i = aborts Fault.assertion_failed
  bucket (b ∷ bs) zero = returns b
  bucket (b ∷ bs) (suc i) = bucket bs i

  unfoldable pub set_bucket : List (List (Item V)) → ℕ → List (Item V) → List (List (Item V))
  set_bucket [] i c = []
  set_bucket (b ∷ bs) zero c = c ∷ bs
  set_bucket (b ∷ bs) (suc i) c = b ∷ set_bucket bs i c

module _ {ℓ} {V : Type ℓ} (keys : Keys) where
  unfoldable pub index_of : Table V → ℕ → ℕ
  index_of t id = keys.hash id (length t.buckets)

  -- `hinsert`
  unfoldable pub insert : Table V → ℕ → V → Run (RwError × Table V)
  unfolding index_of bucket set_bucket
  insert t id pri = do
    b ← bucket t.buckets (index_of t id)
    (err, b', cache') ← SafeRwList.insert keys.cmp b t.cache id pri
    returns (err, record { cache = cache'; buckets = set_bucket t.buckets (index_of t id) b' })

  -- `herase`
  unfoldable pub erase : Table V → ℕ → Run (RwError × Option V × Table V)
  unfolding index_of bucket set_bucket
  erase t id = do
    b ← bucket t.buckets (index_of t id)
    let (err, old, b', cache') = SafeRwList.erase keys.cmp b t.cache id
    returns (err, old, record { cache = cache'; buckets = set_bucket t.buckets (index_of t id) b' })

  -- `hfind`: what is written through `pri`, none standing for `safe_rw_list_error_notfound`
  unfoldable pub find : Table V → ℕ → Run (Option V)
  unfolding index_of bucket
  find t id = do b ← bucket t.buckets (index_of t id); returns (SafeRwList.find keys.cmp b id)

module _ {ℓ κ} {V : Type ℓ} {C : Type κ} where
  -- `for_each_do`
  unfoldable pub for_each : (C → ℕ → V → C) → C → List (List (Item V)) → C
  for_each dofunc ctx [] = ctx
  for_each dofunc ctx (b ∷ bs) = for_each dofunc (SafeRwList.for_each dofunc ctx b) bs

-- `free_hash_table`: the cache, after every list gave its items back
unfoldable pub free_table {ℓ} : {V : Type ℓ} → List (List (Item V)) → MemoryCache → MemoryCache
free_table [] cache = cache
free_table (b ∷ bs) cache = free_table bs (SafeRwList.clear b cache)
