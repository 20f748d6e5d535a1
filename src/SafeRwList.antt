-- ===== src/SafeRwList.antt =====
-- safe_rw_list.c, sysqos_container_item.h: an association list under a lock, whose items come from a
-- memory cache. Each call holds the lock throughout, but for the item, which is taken before and
-- given back after; `malloc` does not fail. The comparison that the user sets is a parameter.
pub mod Lookup
use datastor_qos.Base.{
  ℕ, zero, suc, ◌+◌, ◌-◌, ◌*◌, ◌/◌, ◌%◌, ◌^◌, ◌≤◌, ◌<◌, min, max, ◌≡◌, refl, sym, ap, subst, ◌∙◌,
  ◌≢◌, ◌↔◌, ◌⊎◌, inl, inr, Bool, true, false, not, ◌&&◌, ◌||◌, Option, none, some, List, [], ◌∷◌,
  ◌++◌, map, arith, length, sum_of, All, length-append, sum_of-append, ltb, leb, ◌==◌,
  if◌then◌else◌, ==_refl, eq_of_==, ne_of_==, lt_of_ltb, le_of_ltb, Bool-cases, Option-cases,
  IsWord, add64, sub64, mul64, add32, sub32, sub64-eq-sub, add64-eq-add, ℤ, pos, negsuc, pos_part,
  neg_part, ltb_ℤ, eqb_ℤ, ◌<ℤ◌, eq_of_parts,
}
use datastor_qos.Run.{Run, returns, assert, ◌>>=◌, ◌>>◌}
use datastor_qos.MemoryCache
use datastor_qos.MemoryCache.{MemoryCache}

-- The enumeration of `safe_rw_list_error_*`.
pub data RwError : Type 0 where
  ok notfound initlock exist : RwError

abbrev pub is_ok : RwError → Bool
is_ok ok = true
is_ok _ = false

-- `qos_container_item_t`, without its list link
pub record Item {ℓ} (V : Type ℓ) : Type ℓ where
  pub id : ℕ
  pub pri : V

-- The user's `compare ( item->id, id ) == 0`, as documented in `msg_ops_t`: zero exactly when both
-- name the same resource, which is an equivalence.
pub record Compare : Type 0 where
  pub same : ℕ → ℕ → Bool
  pub same_refl : (a : ℕ) → same a a ≡ true
  pub same_sym : (a b : ℕ) → same a b ≡ same b a
  pub same_trans : (a b c : ℕ) → same a b ≡ true → same b c ≡ true → same a c ≡ true

module _ {ℓ} {V : Type ℓ} (cmp : Compare) where
  -- `rwfind_nolock`, which `rwfind` calls under the lock: `*pri` where an item is found
  unfoldable pub find : List (Item V) → ℕ → Option V
  find [] id = none
  find (i ∷ is) id = if cmp.same i.id id then some i.pri else find is id

  -- What `rwerase` unlinks.
  unfoldable pub unlink : List (Item V) → ℕ → List (Item V)
  unlink [] id = []
  unlink (i ∷ is) id = if cmp.same i.id id then is else i ∷ unlink is id

  -- `rwinsert`
  unfoldable pub insert :
      List (Item V) → MemoryCache → ℕ → V → Run (RwError × List (Item V) × MemoryCache)
  unfolding find
  insert is cache id pri = do
    let (given, cache') = MemoryCache.alloc cache true
    assert given
    returns (elim (find is id) [
      | none ↦ (ok, record { id = id; pri = pri } ∷ is, cache')
      | some _ ↦ (exist, is, MemoryCache.free cache')
    ])

  -- `rwerase`, with what is written through `pri` unless it is null
  unfoldable pub erase :
      List (Item V) → MemoryCache → ℕ → RwError × Option V × List (Item V) × MemoryCache
  unfolding find unlink
  erase is cache id = elim (find is id) [
    | none ↦ (notfound, none, is, cache)
    | some v ↦ (ok, some v, unlink is id, MemoryCache.free cache)
  ]

module _ {ℓ κ} {V : Type ℓ} {C : Type κ} where
  -- `for_each_do`: `dofunc` on each item in turn, over the state of its context
  unfoldable pub for_each : (C → ℕ → V → C) → C → List (Item V) → C
  for_each dofunc ctx [] = ctx
  for_each dofunc ctx (i ∷ is) = for_each dofunc (dofunc ctx i.id i.pri) is

-- `rwclear`, as `safe_rw_list_exit` calls it: the cache after the items went back to it. (The loop
-- reads the link of an item that it has freed; the link is taken to be still there.)
unfoldable pub clear {ℓ} : {V : Type ℓ} → List (Item V) → MemoryCache → MemoryCache
clear [] cache = cache
clear (i ∷ is) cache = clear is (MemoryCache.free cache)
