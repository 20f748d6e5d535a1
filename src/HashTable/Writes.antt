-- ===== src/HashTable/Writes.antt =====
-- hash_table.c: what creation, `insert` and `erase` make of the map.
use datastor_qos.Base.{
  ℕ, suc, ◌+◌, ◌≤◌, ◌<◌, ◌≡◌, refl, ◌∙◌, true, false, Option, none, some, List, ◌∷◌, arith,
  if◌then◌else◌, lt-ltb, is_some, IsWord,
}
use datastor_qos.Run.{returns, aborts, assertion_failed, Returns}
use datastor_qos.MemoryCache
use datastor_qos.MemoryCache.{MemoryCache}
use datastor_qos.MemoryCache.Counting
use datastor_qos.SafeRwList
use datastor_qos.SafeRwList.{RwError, ok, notfound, exist, Item, Compare, unlink}
use datastor_qos.SafeRwList.Lookup.{
  count, find-eq-none, count-eq-zero, count_congr, find-unlink, count-unlink-le, length-unlink,
}
use datastor_qos.HashTable.{
  Keys, Table, item_size, alloc_table, insert, erase, index_of, bucket, empty_buckets,
}
use datastor_qos.HashTable.Buckets.{
  at, set_bucket-at, bucket-at, length-empty_buckets, total-empty_buckets, at-empty_buckets,
}
use datastor_qos.HashTable.View.{
  home, view, total-written, IsValid, written, view-written, written-IsValid, Writes,
}

pub cache_unit-init :
    (unit_size cache_unit : ℕ) → (MemoryCache.init unit_size cache_unit).cache_unit ≡ cache_unit
unfolding MemoryCache.init
cache_unit-init unit_size cache_unit = refl

module _ {ℓ} (V : Type ℓ) (keys : Keys) where
  -- A new table of any positive length is valid and empty, with room for `item_num` items.
  pub alloc_table-IsValid :
      (table_len item_num : ℕ)
      → 0 < table_len
      → IsWord item_num
      → Returns (alloc_table table_len item_num) λ (t : Table V).
        IsValid keys t
        × ((q : ℕ) → view keys t q ≡ none)
        × (Counting.live t.cache ≡ 0)
        × (t.cache.cache_unit ≡ item_num)
  unfolding alloc_table count view SafeRwList.find
  alloc_table-IsValid n m h w = (
    record { cache = MemoryCache.init item_size m; buckets = empty_buckets n },
    rw (lt-ltb 0 n h),
    (
      record {
        wide = rw (length-empty_buckets V n) h;
        cache = Counting.init-IsValid item_size m w;
        counted = rw (total-empty_buckets V n) (Counting.live-init item_size m);
        placed = λ q i. rw (at-empty_buckets V n i) (omega arith, λ _. refl);
      },
      λ q. rw (at-empty_buckets V n (home keys (empty_buckets {V = V} n) q)) refl,
      Counting.live-init item_size m,
      cache_unit-init item_size m,
    ),
  )

module _ {ℓ} {V : Type ℓ} (keys : Keys) (t : Table V) (v : IsValid keys t) (id : ℕ) where
  old : List (Item V)
  old = at t.buckets (home keys t.buckets id)

  old-bucket : bucket t.buckets (home keys t.buckets id) ≡ returns old
  unfolding old
  old-bucket = bucket-at t.buckets _ (keys.hash-lt id _ v.wide)

  -- With a unit left in the cache the item is allocated, and given back if the id is there.
  spent : MemoryCache
  spent = (MemoryCache.alloc t.cache true).1

  spent-live :
      Counting.live t.cache < t.cache.cache_unit
      → ((MemoryCache.alloc t.cache true).0 ≡ true)
        × Counting.IsValid spent
        × (Counting.live spent ≡ suc (Counting.live t.cache))
        × (spent.cache_unit ≡ t.cache.cache_unit)
  unfolding spent
  spent-live room =
      let (valid, unit, given, count) = Counting.alloc-live t.cache v.cache in
      let granted = given ∙ lt-ltb _ _ room in
      (granted, valid, rw granted at count ∙ omega arith, unit)

  few-cons :
      (x : V) (q : ℕ)
      → view keys t id ≡ none
      → count keys.cmp (record { id = id; pri = x } ∷ old) q
        ≤ (if keys.cmp.same id q then 1 else count keys.cmp old q)
  unfolding count view old
  few-cons x q e = ground (arith, count-eq-zero keys.cmp old id e, count_congr keys.cmp old id q)

  few-old :
      (q : ℕ) → count keys.cmp old q ≤ (if keys.cmp.same id q then 1 else count keys.cmp old q)
  unfolding old
  few-old q = ground (arith, v.placed q (home keys t.buckets id))

  few-unlink :
      (q : ℕ)
      → count keys.cmp (unlink keys.cmp old id) q
        ≤ (if keys.cmp.same id q then 1 else count keys.cmp old q)
  unfolding old
  few-unlink q =
      ground (arith, v.placed q (home keys t.buckets id), count-unlink-le keys.cmp old id q)

  -- The count of the items of a table with the limit of this one.
  abbrev pub IsSized : Table V → ℕ → Type 0
  IsSized u n = (Counting.live u.cache ≡ n) × (u.cache.cache_unit ≡ t.cache.cache_unit)

  -- What an insert does, by what the id had: a new value is stored, an old one stays.
  abbrev pub Inserted : V → Option V → RwError × Table V → Type ℓ
  Inserted x none r = Writes keys t id (some x) ok r × IsSized r.1 (suc (Counting.live t.cache))
  Inserted x (some y) r =
      (r.0 ≡ exist)
      × (r.1.buckets ≡ t.buckets)
      × IsValid keys r.1
      × IsSized r.1 (Counting.live t.cache)

  insert_cases :
      (x : V) (o : Option V)
      → view keys t id ≡ o
      → Counting.live t.cache < t.cache.cache_unit
      → Returns (insert keys t id x) (Inserted x o)
  unfolding insert index_of old view SafeRwList.insert SafeRwList.find spent written
  insert_cases x none e room =
      let (granted, valid, count, unit) = spent-live room in
      (
        (
          ok,
          record {
            cache = spent;
            buckets = written keys t v id (record { id = id; pri = x } ∷ old);
          },
        ),
        rw (old-bucket, granted, e) refl,
        (
          record {
            error = refl;
            valid =
                written-IsValid keys t v id _ spent valid (omega (arith, count))
                  (λ q. few-cons x q e);
            reads = view-written keys t v id _ (some x) spent (λ q. refl);
          },
          (count, unit),
        ),
      )
  insert_cases x (some y) e room =
      let (granted, valid, count, unit) = spent-live room in
      let back = Counting.free-live spent valid (omega (arith, count)) in
      (
        (exist, record { cache = MemoryCache.free spent; buckets = written keys t v id old }),
        rw (old-bucket, granted, e) refl,
        (
          refl,
          set_bucket-at t.buckets (home keys t.buckets id),
          written-IsValid keys t v id old (MemoryCache.free spent) back.0
              (omega (arith, back.2, count)) few-old,
          (omega (arith, back.2, count), back.1 ∙ unit),
        ),
      )

  -- With a unit left in the cache, an insert stores the value under an id that has none, and says so;
  -- under an id that has one it changes no entry. The count of the cache stays that of the items.
  pub insert-Inserted :
      (x : V)
      → Counting.live t.cache < t.cache.cache_unit
      → Returns (insert keys t id x) (Inserted x (view keys t id))
  insert-Inserted x room = insert_cases x (view keys t id) refl room

  -- With no unit left an insert ends the process, also where the id is there already.
  pub insert_full :
      (x : V)
      → Counting.live t.cache ≡ t.cache.cache_unit
      → insert keys t id x ≡ aborts assertion_failed
  unfolding insert index_of SafeRwList.insert
  insert_full x full =
      let (valid, unit, given, count) = Counting.alloc-live t.cache v.cache in
      let refused : (MemoryCache.alloc t.cache true).0 ≡ false = given ∙ ground arith in
      rw (old-bucket, refused) refl

  absent :
      (q : ℕ)
      → view keys t id ≡ none
      → SafeRwList.find keys.cmp old q
        ≡ (if keys.cmp.same id q then none else SafeRwList.find keys.cmp old q)
  unfolding view old
  absent q e = ground (
    arith,
    count-eq-zero keys.cmp old id e,
    count_congr keys.cmp old id q,
    find-eq-none keys.cmp old q,
  )

  filled : {y : V} → view keys t id ≡ some y → 0 < Counting.live t.cache
  unfolding view old written
  filled e = omega (
    arith,
    total-written keys t v id (unlink keys.cmp old id),
    length-unlink keys.cmp old id e,
    v.counted,
  )

  -- What an erase does, by what the id had.
  abbrev pub Erased : Option V → RwError × Option V × Table V → Type ℓ
  Erased o r =
      (r.1 ≡ o)
      × Writes keys t id none (if is_some o then ok else notfound) (r.0, r.2)
      × (Counting.live r.2.cache + (if is_some o then 1 else 0) ≡ Counting.live t.cache)
      × (r.2.cache.cache_unit ≡ t.cache.cache_unit)

  erase_cases : (o : Option V) → view keys t id ≡ o → Returns (erase keys t id) (Erased o)
  unfolding erase index_of old view SafeRwList.erase written
  erase_cases none e = (
    (notfound, none, record { cache = t.cache; buckets = written keys t v id old }),
    rw (old-bucket, e, SafeRwList.erase) refl,
    (
      refl,
      record {
        error = refl;
        valid = written-IsValid keys t v id old t.cache v.cache refl few-old;
        reads = view-written keys t v id old none t.cache (λ q. absent q e);
      },
      omega arith,
      refl,
    ),
  )
  erase_cases (some y) e =
      let shorter = length-unlink keys.cmp old id e in
      let back = Counting.free-live t.cache v.cache (filled e) in
      (
        (
          ok,
          some y,
          record {
            cache = MemoryCache.free t.cache;
            buckets = written keys t v id (unlink keys.cmp old id);
          },
        ),
        rw (old-bucket, e, SafeRwList.erase) refl,
        (
          refl,
          record {
            error = refl;
            valid =
                written-IsValid keys t v id _ _ back.0 (omega (arith, back.2, shorter)) few-unlink;
            reads =
                view-written keys t v id _ none (MemoryCache.free t.cache)
                  λ q. find-unlink keys.cmp old id q (v.placed q _).0;
          },
          back.2,
          back.1,
        ),
      )

  -- An erase returns, with the value that the id had, and with the table without that id; an id that
  -- has no value is reported. The count of the cache stays that of the items.
  pub erase-Erased : Returns (erase keys t id) (Erased (view keys t id))
  erase-Erased = erase_cases (view keys t id) refl
