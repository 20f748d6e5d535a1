-- ===== src/NodereqList.antt =====
-- sysqos_nodereq_list.c, `nodereq_list_t`: the requests that wait for tokens of one node, in the order
-- in which they came, and the sum of their costs as the pressure that is reported.
use datastor_qos.Base.{
  ℕ, Option, none, some, List, [], ◌∷◌, ◌++◌, ◌==◌, if◌then◌else◌, add64, sub64,
}
use datastor_qos.Interface.{fifo_depth}
use datastor_qos.TokenReqgrp.{Store}

-- `token_list` holds pointers to requests; `press` wraps.
pub record NodereqList : Type 0 where
  pub token_list : List ℕ
  pub press : ℕ

-- `rs->rs.cost`
abbrev pub cost : Store → ℕ → ℕ
cost s p = (s.req p).rs.cost

-- `nodereq_list_init`; creating the lock succeeds.
unfoldable pub init : NodereqList
init = record { token_list = []; press = 0 }

unfoldable pub push_back : NodereqList → Store → ℕ → NodereqList
push_back l s p = record { token_list = l.token_list ++ p ∷ []; press = add64 l.press (cost s p) }

unfoldable pub front : NodereqList → Option ℕ
front l = elim l.token_list [ [] ↦ none | p ∷ ps ↦ some p ]

-- `list_del` of an element of the list
unfoldable pub unlink : ℕ → List ℕ → List ℕ
unlink p [] = []
unlink p (q ∷ qs) = if q == p then qs else q ∷ unlink p qs

unfoldable pub erase : NodereqList → Store → ℕ → NodereqList
unfolding unlink
erase l s p = record { token_list = unlink p l.token_list; press = sub64 l.press (cost s p) }

-- `pop_all`: the list that was emptied, and the requests it held, in order.
unfoldable pub pop_all : NodereqList → NodereqList × List ℕ
pop_all l = elim l.token_list [
  | [] ↦ (l, [])
  | p ∷ ps ↦ (record { token_list = []; press = 0 }, p ∷ ps)
]

unfoldable pub pop_front : NodereqList → Store → NodereqList
pop_front l s = elim l.token_list [
  | [] ↦ l
  | p ∷ ps ↦ record { token_list = ps; press = sub64 l.press (cost s p) }
]

-- `get_press`: what the field `fifo.depth` holds of the sum
unfoldable pub get_press : NodereqList → ℕ
get_press l = fifo_depth l.press
