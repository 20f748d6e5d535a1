-- ===== src/SafeRwList/Lookup.antt =====
-- safe_rw_list.c: the list as a map from ids to values.
use datastor_qos.Base.{
  ℕ, suc, ◌+◌, ◌≤◌, ◌≡◌, refl, true, none, some, List, [], ◌∷◌, arith, length, if◌then◌else◌,
}
use datastor_qos.SafeRwList.{Item, Compare, find, unlink}

module _ (cmp : Compare) where
  pub same_congr : (a b c : ℕ) → cmp.same a b ≡ true → cmp.same c a ≡ cmp.same c b
  same_congr a b c e = ground (arith, cmp.same_sym a b, cmp.same_trans c a b, cmp.same_trans c b a)

module _ {ℓ} {V : Type ℓ} (cmp : Compare) where
  -- How many items have an id.
  unfoldable pub count : List (Item V) → ℕ → ℕ
  count [] id = 0
  count (i ∷ is) id = (if cmp.same i.id id then 1 else 0) + count is id

  pub find-eq-none : (is : List (Item V)) (id : ℕ) → count is id ≡ 0 → find cmp is id ≡ none
  unfolding find count
  find-eq-none [] id h = refl
  find-eq-none (i ∷ is) id h = ground (arith, find-eq-none is id)

  pub count-eq-zero : (is : List (Item V)) (id : ℕ) → find cmp is id ≡ none → count is id ≡ 0
  unfolding find count
  count-eq-zero [] id h = refl
  count-eq-zero (i ∷ is) id h = ground (arith, count-eq-zero is id)

  pub count_congr : (is : List (Item V)) (a b : ℕ) → cmp.same a b ≡ true → count is a ≡ count is b
  unfolding count
  count_congr [] a b e = refl
  count_congr (i ∷ is) a b e = ground (arith, count_congr is a b e, same_congr cmp a b i.id e)

  pub find_congr :
      (is : List (Item V)) (a b : ℕ) → cmp.same a b ≡ true → find cmp is a ≡ find cmp is b
  unfolding find
  find_congr [] a b e = refl
  find_congr (i ∷ is) a b e = ground (arith, find_congr is a b e, same_congr cmp a b i.id e)

  pub find-unlink :
      (is : List (Item V)) (id q : ℕ)
      → count is q ≤ 1
      → find cmp (unlink cmp is id) q ≡ (if cmp.same id q then none else find cmp is q)
  unfolding find unlink count
  find-unlink [] id q h = ground arith
  find-unlink (i ∷ is) id q h = ground (
    arith,
    find-unlink is id q,
    find-eq-none is q,
    cmp.same_sym i.id id,
    cmp.same_trans id i.id q,
    cmp.same_trans i.id id q,
    same_congr cmp id q i.id,
  )

  pub count-unlink-le : (is : List (Item V)) (id q : ℕ) → count (unlink cmp is id) q ≤ count is q
  unfolding unlink count
  count-unlink-le [] id q = omega arith
  count-unlink-le (i ∷ is) id q = ground (arith, count-unlink-le is id q)

  pub length-unlink :
      (is : List (Item V)) (id : ℕ) {v : V}
      → find cmp is id ≡ some v
      → suc (length (unlink cmp is id)) ≡ length is
  unfolding find unlink
  length-unlink [] id h = cc
  length-unlink (i ∷ is) id {v} h = ground (arith, length-unlink is id {v = v})
