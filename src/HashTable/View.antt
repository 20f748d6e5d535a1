-- ===== src/HashTable/View.antt =====
-- hash_table.c: the table as a map from ids to values, and the count of its items.
use datastor_qos.Base.{
  ℕ, ◌+◌, ◌≤◌, ◌<◌, ◌≡◌, refl, true, ap, ◌∙◌, ◌≢◌, Option, List, arith, length, ◌==◌, if◌then◌else◌,
}
use datastor_qos.Run.{returns}
use datastor_qos.MemoryCache.{MemoryCache}
use datastor_qos.MemoryCache.Counting
use datastor_qos.SafeRwList
use datastor_qos.SafeRwList.{RwError, ok, notfound, exist, Item, Compare, unlink}
use datastor_qos.SafeRwList.Lookup.{count, find_congr}
use datastor_qos.HashTable.{Keys, Table, find, index_of, set_bucket}
use datastor_qos.HashTable.Buckets.{
  at, total, bucket-at, at-set_bucket, length-set_bucket, total-set_bucket,
}

module _ {ℓ} {V : Type ℓ} (keys : Keys) where
  abbrev pub home : List (List (Item V)) → ℕ → ℕ
  home bs id = keys.hash id (length bs)

  -- The value that an id has, if any.
  unfoldable pub view : Table V → ℕ → Option V
  view t id = SafeRwList.find keys.cmp (at t.buckets (home t.buckets id)) id

  -- An id is in the table once at most, and in its own bucket.
  abbrev pub IsPlaced : List (List (Item V)) → Type 0
  IsPlaced bs =
      (q i : ℕ)
      → (count keys.cmp (at bs i) q ≤ 1) × (home bs q ≢ i → count keys.cmp (at bs i) q ≡ 0)

  pub record IsValid (t : Table V) : Type 0 where
    pub wide : 0 < length t.buckets
    pub cache : Counting.IsValid t.cache
    pub counted : Counting.live t.cache ≡ total t.buckets
    pub placed : IsPlaced t.buckets

  -- Ids that are the same are looked up alike.
  pub view_congr : (t : Table V) (a b : ℕ) → keys.cmp.same a b ≡ true → view t a ≡ view t b
  unfolding view
  view_congr t a b e =
      ap (λ i. SafeRwList.find keys.cmp (at t.buckets i) a)
        (keys.hash-same a b (length t.buckets) e)
      ∙ find_congr keys.cmp (at t.buckets (home t.buckets b)) a b e

  -- A lookup does not fail in the table's own checks, and reads the map.
  pub find-view : {t : Table V} (id : ℕ) → IsValid t → find keys t id ≡ returns (view t id)
  unfolding find view index_of
  find-view {t} id v =
      rw (bucket-at t.buckets (home t.buckets id) (keys.hash-lt id (length t.buckets) v.wide)) refl

  -- The bucket of `id` replaced by some `c`.
  module _ (t : Table V) (v : IsValid t) (id : ℕ) (c : List (Item V)) where
    unfoldable pub written : List (List (Item V))
    written = set_bucket t.buckets (home t.buckets id) c

    pub at-written : (j : ℕ) → at written j ≡ (if home t.buckets id == j then c else at t.buckets j)
    unfolding written
    at-written j = at-set_bucket t.buckets _ j c (keys.hash-lt id _ v.wide)

    pub home-written : (q : ℕ) → home written q ≡ home t.buckets q
    unfolding written
    home-written q = ap (keys.hash q) (length-set_bucket t.buckets _ c)

    pub placed-written :
        ((q : ℕ)
          → count keys.cmp c q ≤ (
              if keys.cmp.same id q
              then 1
              else count keys.cmp (at t.buckets (home t.buckets id)) q))
        → IsPlaced written
    placed-written few q i =
        rw (home-written q, at-written i)
          (ground (
            arith,
            few q,
            v.placed q i,
            v.placed q (home t.buckets id),
            keys.hash-same id q (length t.buckets),
          ))

    pub view-written :
        (x : Option V) (cache : MemoryCache)
        → ((q : ℕ)
            → SafeRwList.find keys.cmp c q ≡ (
                if keys.cmp.same id q
                then x
                else SafeRwList.find keys.cmp (at t.buckets (home t.buckets id)) q))
        → (q : ℕ)
        → view (record { cache = cache; buckets = written }) q
          ≡ (if keys.cmp.same id q then x else view t q)
    unfolding view
    view-written x cache reads q =
        rw (home-written q, at-written (home t.buckets q))
          (ground (arith, reads q, keys.hash-same id q (length t.buckets)))

    pub total-written :
        total written + length (at t.buckets (home t.buckets id)) ≡ total t.buckets + length c
    unfolding written
    total-written = total-set_bucket t.buckets _ c (keys.hash-lt id _ v.wide)

    pub written-IsValid :
        (cache : MemoryCache)
        → Counting.IsValid cache
        → Counting.live cache + length (at t.buckets (home t.buckets id))
          ≡ Counting.live t.cache + length c
        → ((q : ℕ)
            → count keys.cmp c q ≤ (
                if keys.cmp.same id q
                then 1
                else count keys.cmp (at t.buckets (home t.buckets id)) q))
        → IsValid (record { cache = cache; buckets = written })
    unfolding written
    written-IsValid cache cv size few = record {
      wide = rw (length-set_bucket t.buckets (home t.buckets id) c) v.wide;
      cache = cv;
      counted = omega (arith, size, total-written, v.counted);
      placed = placed-written few;
    }

  -- The table after a call that gave `err`: valid, and changed at most at `id`.
  pub record Writes (t : Table V) (id : ℕ) (x : Option V) (err : RwError) (r : RwError × Table V)
      : Type ℓ where
    pub error : r.0 ≡ err
    pub valid : IsValid r.1
    pub reads : (q : ℕ) → view r.1 q ≡ (if keys.cmp.same id q then x else view t q)
