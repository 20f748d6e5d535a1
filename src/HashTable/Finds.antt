-- ===== src/HashTable/Finds.antt =====
-- hash_table.c, safe_rw_list.c: a lookup, by the items that stand anywhere in the table.
use datastor_qos.Base.{
  ℕ, ◌≤◌, ◌<◌, ◌≡◌, refl, sym, ap, subst, ◌∙◌, inl, inr, true, Option, none, some, List, [], ◌∷◌,
  arith, ◌==◌, eq_of_==, ne_of_==, Bool-cases,
}
use datastor_qos.Run.{Returns}
use datastor_qos.SafeRwList
use datastor_qos.SafeRwList.{Item, Compare}
use datastor_qos.SafeRwList.Lookup.{count}
use datastor_qos.HashTable.{Keys, Table, find}
use datastor_qos.HashTable.Buckets.{at}
use datastor_qos.HashTable.View.{home, view, IsValid, find-view}

module _ {ℓ} {V : Type ℓ} (cmp : Compare) where
  -- A list has an item that names what `id` names, with the value `x`.
  pub data Lists : List (Item V) → ℕ → V → Type ℓ where
    here :
        {i : Item V} {is : List (Item V)} {id : ℕ} {x : V}
        → cmp.same i.id id ≡ true
        → i.pri ≡ x
        → Lists (i ∷ is) id x
    there : {i : Item V} {is : List (Item V)} {id : ℕ} {x : V} → Lists is id x → Lists (i ∷ is) id x

  Lists-count : (is : List (Item V)) (id : ℕ) (x : V) → Lists is id x → 0 < count cmp is id
  unfolding count
  Lists-count [] id x h = elim h [ ]
  Lists-count (i ∷ is) id x (here e _) = rw e (omega arith)
  Lists-count (i ∷ is) id x (there h) = let more = Lists-count is id x h in omega (arith, more)

  find-Lists :
      (is : List (Item V)) (id : ℕ) (x : V) → SafeRwList.find cmp is id ≡ some x → Lists is id x
  unfolding SafeRwList.find
  find-Lists [] id x e = absurd (ground arith)
  find-Lists (i ∷ is) id x e = elim (Bool-cases (cmp.same i.id id)) [
    | inl same ↦ here same (ground arith)
    | inr other ↦ there (find-Lists is id x (ground arith))
  ]

  Lists-find :
      (is : List (Item V)) (id : ℕ) (x : V)
      → count cmp is id ≤ 1
      → Lists is id x
      → SafeRwList.find cmp is id ≡ some x
  unfolding SafeRwList.find count
  Lists-find [] id x few h = elim h [ ]
  Lists-find (i ∷ is) id x few (here same e) = rw same (ap (λ y. some y) e)
  Lists-find (i ∷ is) id x few (there h) =
      let more = Lists-count is id x h in
      elim (Bool-cases (cmp.same i.id id)) [
        | inl same ↦ absurd (ground arith)
        | inr other ↦ rw other (Lists-find is id x (ground arith) h)
      ]

module _ {ℓ} {V : Type ℓ} (keys : Keys) where
  -- Some list of the table has an item for `id` with the value `x`.
  abbrev pub Stores : Table V → ℕ → V → Type ℓ
  Stores t id x = (i : ℕ) × Lists keys.cmp (at t.buckets i) id x

  -- What a lookup tells: the only value that the table stores for `id`; or it stores none.
  abbrev pub Finds : Table V → ℕ → Option V → Type ℓ
  Finds t id none = (x : V) → ¬ Stores t id x
  Finds t id (some x) = Stores t id x × ((y : V) → Stores t id y → y ≡ x)

  Stores-view :
      (t : Table V) (id : ℕ) (x : V) → IsValid keys t → Stores t id x → view keys t id ≡ some x
  unfolding view
  Stores-view t id x v (i, h) =
      let (few, away) = v.placed id i in
      elim (Bool-cases (home keys t.buckets id == i)) [
        | inl same ↦
            Lists-find keys.cmp (at t.buckets (home keys t.buckets id)) id x (v.placed id _).0
              (subst (λ j. Lists keys.cmp (at t.buckets j) id x) (sym (eq_of_== _ _ same)) h)
        | inr far ↦
            let none_there = away (ne_of_== _ _ far) in
            let some_there = Lists-count keys.cmp (at t.buckets i) id x h in
            absurd (omega (arith, none_there, some_there))
      ]

  none-ne-some : {x : V} → ¬ (none ≡ some x)
  none-ne-some e = ground (arith, e)

  some-inj : {x y : V} → some x ≡ some y → x ≡ y
  some-inj e = ground (arith, e)

  view-Finds :
      (t : Table V) (id : ℕ) (o : Option V) → IsValid keys t → view keys t id ≡ o → Finds t id o
  unfolding view
  view-Finds t id none v e = λ x h. none-ne-some (sym e ∙ Stores-view t id x v h)
  view-Finds t id (some x) v e = (
    (home keys t.buckets id, find-Lists keys.cmp _ id x e),
    λ y h. some-inj (sym (Stores-view t id y v h) ∙ e),
  )

  -- In a valid table a lookup never ends the process. Where it gives a value, some list of the table
  -- has an item for the id with this value, and no list of the table has one with another value; where
  -- it gives none, no list of the table has an item for the id.
  pub find-Finds : (t : Table V) (id : ℕ) → IsValid keys t → Returns (find keys t id) (Finds t id)
  find-Finds t id v = (view keys t id, find-view keys id v, view-Finds t id (view keys t id) v refl)
