-- ===== src/HashTable/Tests.antt =====
-- hash_table.c: runs on a table of three lists, with ids hashed by their remainder.
use datastor_qos.Base.{
  ℕ, zero, suc, ◌%◌, ◌<◌, ◌≡◌, refl, ap, true, some, [], ◌∷◌, arith, ◌==◌, ==_refl, eq_of_==,
  IsWord,
}
use native.Mathlib.Nat.{mod-lt}
use datastor_qos.Run.{returns, Returns}
use datastor_qos.SafeRwList
use datastor_qos.SafeRwList.{RwError, ok, Item, Compare}
use datastor_qos.SafeRwList.Lookup.{count}
use datastor_qos.HashTable.{Keys, Table, insert, erase, find, index_of, bucket}
use datastor_qos.HashTable.Buckets.{at}
use datastor_qos.HashTable.View.{view, IsValid, IsPlaced}
use datastor_qos.HashTable.Finds.{Finds, find-Finds}
use datastor_qos.HashTable.Writes.{insert-Inserted, erase-Erased, Inserted, Erased}

pub ==_sym : (a b : ℕ) → (a == b) ≡ (b == a)
==_sym a b = ground arith

pub ==_trans : (a b c : ℕ) → (a == b) ≡ true → (b == c) ≡ true → (a == c) ≡ true
==_trans a b c e f = ground arith

pub rem_congr : (a b len : ℕ) → (a == b) ≡ true → a % len ≡ b % len
rem_congr a b len e = ap (λ x. x % len) (eq_of_== a b e)

abbrev pub same_number : Compare
same_number = record {
  same = λ a b. a == b;
  same_refl = ==_refl;
  same_sym = ==_sym;
  same_trans = ==_trans;
}

abbrev pub remainders : Keys
remainders = record {
  cmp = same_number;
  hash = λ id len. id % len;
  hash-lt = λ id len h. mod-lt id h;
  hash-same = rem_congr;
}

-- The value 99 under 7, in a cache of some size.
abbrev pub table : ℕ → Table ℕ
table size = record {
  cache = record { unit_size = 32; cache_unit = size; alloc_cnt = 1; free_cnt = 0 };
  buckets = [] ∷ (record { id = 7; pri = 99 } ∷ []) ∷ [] ∷ [];
}

table-IsPlaced : IsPlaced remainders (table 4).buckets
unfolding count at
table-IsPlaced q zero = (omega arith, λ _. refl)
table-IsPlaced q (suc zero) = ground arith
table-IsPlaced q (suc (suc zero)) = (omega arith, λ _. refl)
table-IsPlaced q (suc (suc (suc i))) = (omega arith, λ _. refl)

pub table-IsValid : (size : ℕ) → 0 < size → IsWord size → IsValid remainders (table size)
table-IsValid size h w = record {
  wide = omega arith;
  cache = ground arith;
  counted = ground arith;
  placed = table-IsPlaced;
}

find_seven : find remainders (table 4) 7 ≡ returns (some 99)
unfolding find index_of bucket SafeRwList.find
find_seven = refl

find-Finds_example : Returns (find remainders (table 4) 10) (Finds remainders (table 4) 10)
find-Finds_example =
    find-Finds remainders (table 4) 10 (table-IsValid 4 (omega arith) (omega arith))

insert-Inserted_example : Returns (insert remainders (table 4) 8 55) (
    Inserted remainders
      (table 4)
      (table-IsValid 4 (omega arith) (omega arith))
      8
      55
      (view remainders (table 4) 8))
insert-Inserted_example =
    insert-Inserted remainders (table 4) (table-IsValid 4 (omega arith) (omega arith)) 8 55
      (omega arith)

erase-Erased_example : Returns (erase remainders (table 4) 7) (
    Erased remainders
      (table 4)
      (table-IsValid 4 (omega arith) (omega arith))
      7
      (view remainders (table 4) 7))
erase-Erased_example =
    erase-Erased remainders (table 4) (table-IsValid 4 (omega arith) (omega arith)) 7
