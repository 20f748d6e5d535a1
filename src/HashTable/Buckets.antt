-- ===== src/HashTable/Buckets.antt =====
-- hash_table.c: reading and writing one bucket, and the items of all of them.
use datastor_qos.Base.{
  ℕ, zero, suc, ◌+◌, ◌<◌, ◌≡◌, refl, ap, List, [], ◌∷◌, arith, length, sum_of, ◌==◌, if◌then◌else◌,
}
use datastor_qos.Run.{returns}
use datastor_qos.SafeRwList.{Item}
use datastor_qos.HashTable.{bucket, set_bucket, empty_buckets}

module _ {ℓ} {V : Type ℓ} where
  -- The items of a bucket, none where there is no bucket.
  unfoldable pub at : List (List (Item V)) → ℕ → List (Item V)
  at [] i = []
  at (b ∷ bs) zero = b
  at (b ∷ bs) (suc i) = at bs i

  abbrev pub total : List (List (Item V)) → ℕ
  total = sum_of length

  pub bucket-at :
      (bs : List (List (Item V))) (i : ℕ) → i < length bs → bucket bs i ≡ returns (at bs i)
  unfolding bucket at
  bucket-at [] i h = absurd (omega arith)
  bucket-at (b ∷ bs) zero h = refl
  bucket-at (b ∷ bs) (suc i) h = bucket-at bs i (omega arith)

  pub at-set_bucket :
      (bs : List (List (Item V))) (i j : ℕ) (c : List (Item V))
      → i < length bs
      → at (set_bucket bs i c) j ≡ (if i == j then c else at bs j)
  unfolding at set_bucket
  at-set_bucket [] i j c h = absurd (omega arith)
  at-set_bucket (b ∷ bs) zero zero c h = refl
  at-set_bucket (b ∷ bs) zero (suc j) c h = ground arith
  at-set_bucket (b ∷ bs) (suc i) zero c h = ground arith
  at-set_bucket (b ∷ bs) (suc i) (suc j) c h = ground (arith, at-set_bucket bs i j c)

  pub set_bucket-at : (bs : List (List (Item V))) (i : ℕ) → set_bucket bs i (at bs i) ≡ bs
  unfolding at set_bucket
  set_bucket-at [] i = refl
  set_bucket-at (b ∷ bs) zero = refl
  set_bucket-at (b ∷ bs) (suc i) = ap (◌∷◌ b) (set_bucket-at bs i)

  pub length-set_bucket :
      (bs : List (List (Item V))) (i : ℕ) (c : List (Item V))
      → length (set_bucket bs i c) ≡ length bs
  unfolding set_bucket
  length-set_bucket [] i c = refl
  length-set_bucket (b ∷ bs) zero c = refl
  length-set_bucket (b ∷ bs) (suc i) c = ap suc (length-set_bucket bs i c)

  pub total-set_bucket :
      (bs : List (List (Item V))) (i : ℕ) (c : List (Item V))
      → i < length bs
      → total (set_bucket bs i c) + length (at bs i) ≡ total bs + length c
  unfolding at set_bucket
  total-set_bucket [] i c h = absurd (omega arith)
  total-set_bucket (b ∷ bs) zero c h = omega arith
  total-set_bucket (b ∷ bs) (suc i) c h = omega (arith, total-set_bucket bs i c (omega arith))

module _ {ℓ} (V : Type ℓ) where
  pub length-empty_buckets : (n : ℕ) → length (empty_buckets {V = V} n) ≡ n
  unfolding empty_buckets
  length-empty_buckets zero = refl
  length-empty_buckets (suc n) = ap suc (length-empty_buckets n)

  pub total-empty_buckets : (n : ℕ) → total (empty_buckets {V = V} n) ≡ 0
  unfolding empty_buckets
  total-empty_buckets zero = refl
  total-empty_buckets (suc n) = omega (arith, total-empty_buckets n)

  pub at-empty_buckets : (n i : ℕ) → at (empty_buckets {V = V} n) i ≡ []
  unfolding empty_buckets at
  at-empty_buckets zero i = refl
  at-empty_buckets (suc n) zero = refl
  at-empty_buckets (suc n) (suc i) = at-empty_buckets n i
