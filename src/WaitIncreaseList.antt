-- ===== src/WaitIncreaseList.antt =====
-- sysqos_waitincrease_list.c, `wait_increase_list_t`: the nodes whose quota is to grow, in the order in
-- which they were queued. A node is in one list at most, by its one link.
pub mod Order
pub mod Tests
use datastor_qos.Base.{
  ℕ, zero, suc, ◌+◌, ◌-◌, ◌*◌, ◌/◌, ◌%◌, ◌^◌, ◌≤◌, ◌<◌, min, max, ◌≡◌, refl, sym, ap, subst, ◌∙◌,
  ◌≢◌, ◌↔◌, ◌⊎◌, inl, inr, Bool, true, false, not, ◌&&◌, ◌||◌, Option, none, some, List, [], ◌∷◌,
  ◌++◌, map, arith, length, sum_of, All, length-append, sum_of-append, ltb, leb, ◌==◌,
  if◌then◌else◌, ==_refl, eq_of_==, ne_of_==, lt_of_ltb, le_of_ltb, Bool-cases, Option-cases,
  lt-ltb, pos_or_zero, is_some, IsWord, add64, sub64, mul64, add32, sub32, sub64-eq-sub,
  add64-eq-add, ℤ, pos, negsuc, pos_part, neg_part, ltb_ℤ, eqb_ℤ, ◌<ℤ◌, eq_of_parts,
}
use datastor_qos.Run.{Run, returns, aborts, null_dereference}

-- `left` is none where its links were never set: `wait_increase_list_init` leaves them as they are in
-- a manager that was zeroed.
pub record WaitIncreaseList : Type 0 where
  pub head : List ℕ
  pub left : Option (List ℕ)

-- `wait_increase_list_init`
unfoldable pub init : WaitIncreaseList
init = record { head = []; left = none }

-- `list_del` and `LISTHEAD_INIT` of a node that is in the list or in none
unfoldable pub unlink : ℕ → List ℕ → List ℕ
unlink p [] = []
unlink p (q ∷ qs) = if q == p then unlink p qs else q ∷ unlink p qs

unfoldable pub unlink_left : ℕ → Option (List ℕ) → Option (List ℕ)
unfolding unlink
unlink_left p none = none
unlink_left p (some ps) = some (unlink p ps)

unfoldable pub erase : WaitIncreaseList → ℕ → WaitIncreaseList
unfolding unlink unlink_left
erase l p = record { head = unlink p l.head; left = unlink_left p l.left }

unfoldable pub enqueue : WaitIncreaseList → ℕ → WaitIncreaseList
unfolding unlink unlink_left
enqueue l p = record { head = unlink p l.head ++ p ∷ []; left = unlink_left p l.left }

-- `is_first_exist`: what is written through `node`, or none for false.
unfoldable pub is_first_exist : WaitIncreaseList → Option ℕ
is_first_exist l = elim l.head [ [] ↦ none | p ∷ ps ↦ some p ]

-- `dequeue`: the first node goes to the end of `left`.
unfoldable pub dequeue : WaitIncreaseList → Run WaitIncreaseList
dequeue l = elim l.head [
  | [] ↦ returns l
  | p ∷ ps ↦ elim l.left [
    | none ↦ aborts null_dereference
    | some ls ↦ returns (record { head = ps; left = some (ls ++ p ∷ []) })
  ]
]
