-- ===== src/DispatchNode.antt =====
-- sysqos_dispatch_node.c, `dispatch_node_t`: an applicant's view of one dispatcher, with the requests
-- that wait for its tokens. Each operation runs as one step; the two attempts of `alloc_resource` are
-- both made.
pub mod Serving
pub mod Press
pub mod Fence
pub mod Reports
pub mod Taken
pub mod Alloc
pub mod Liveness
pub mod Tests
use datastor_qos.Base.{
  ℕ, zero, suc, ◌+◌, ◌-◌, ◌*◌, ◌/◌, ◌%◌, ◌^◌, ◌≤◌, ◌<◌, min, max, ◌≡◌, refl, sym, ap, subst, ◌∙◌,
  ◌≢◌, ◌↔◌, ◌⊎◌, inl, inr, Bool, true, false, not, ◌&&◌, ◌||◌, Option, none, some, List, [], ◌∷◌,
  ◌++◌, map, arith, length, sum_of, All, length-append, sum_of-append, ltb, leb, ◌==◌,
  if◌then◌else◌, ==_refl, eq_of_==, ne_of_==, lt_of_ltb, le_of_ltb, Bool-cases, Option-cases,
  lt-ltb, pos_or_zero, is_some, IsWord, add64, sub64, mul64, add32, sub32, sub64-eq-sub,
  add64-eq-add, ℤ, pos, negsuc, pos_part, neg_part, ltb_ℤ, eqb_ℤ, ◌<ℤ◌, eq_of_parts,
}
use datastor_qos.Interface.{
  QosError, ok, pending, failed_node, is_error, App2Dispatch, Dispatch2App,
}
use datastor_qos.BaseNode
use datastor_qos.BaseNode.{BaseNode}
use datastor_qos.NodereqList
use datastor_qos.NodereqList.{NodereqList, cost}
use datastor_qos.TokenReqgrp.{TokenReq, Store, set_req, to_got, to_failed}

pub record DispatchNode : Type 0 where
  pub base_node : BaseNode
  pub lhead_nodereq : NodereqList
  pub fence_id : ℕ

-- What an operation leaves: the node, the store, and the groups it put at the head of the list given.
pub record Outcome : Type 0 where
  pub node : DispatchNode
  pub store : Store
  pub groups : List ℕ

-- `dispatch_node_init`, where creating the locks succeeds
unfoldable pub init : ℕ → DispatchNode
unfolding BaseNode.init NodereqList.init
init version = record {
  base_node = BaseNode.init;
  lhead_nodereq = NodereqList.init;
  fence_id = version;
}

-- `err == QOS_ERROR_FAILEDNODE || err == QOS_ERROR_OK`
abbrev pub is_final : QosError → Bool
is_final ok = true
is_final failed_node = true
is_final _ = false

abbrev pub is_failed_node : QosError → Bool
is_failed_node failed_node = true
is_failed_node _ = false

-- `permission_list_if_final_by_rs_list`, and adding its result to the list of groups
unfoldable pub hand_over : Store → List ℕ → ℕ → Store × List ℕ
unfolding to_got
hand_over s groups p =
    let g = (s.req p).token_grp in
    let (err, s') = to_got s g p in (s', if is_final err then g ∷ groups else groups)

-- The loop of `resource_increased`, on fuel.
unfoldable pub serve : ℕ → DispatchNode → Store → List ℕ → Outcome
unfolding BaseNode.try_alloc NodereqList.front NodereqList.pop_front hand_over
serve zero n s groups = record { node = n; store = s; groups = groups }
serve (suc k) n s groups = elim (NodereqList.front n.lhead_nodereq) [
  | none ↦ record { node = n; store = s; groups = groups }
  | some p ↦
      let (err, base) = BaseNode.try_alloc n.base_node (cost s p) in
      let popped = NodereqList.pop_front n.lhead_nodereq s in
      let (s', groups') = hand_over s groups p in
      let rest = serve k (record n { base_node = base; lhead_nodereq = popped }) s' groups' in
      if is_error err
      then record { node = record n { base_node = base }; store = s; groups = groups }
      else rest
]

-- `resource_increased`; each round but the last takes a request off the list.
unfoldable pub resource_increased : DispatchNode → Store → List ℕ → Outcome
unfolding serve
resource_increased n s groups = serve (length n.lhead_nodereq.token_list) n s groups

-- `resource_changed`, with `is_reset`
unfoldable pub resource_changed : DispatchNode → Store → Dispatch2App → List ℕ → Outcome × Bool
unfolding BaseNode.check_update resource_increased
resource_changed n s dta groups =
    let u = BaseNode.check_update n.base_node dta.token_quota dta.version in
    let n' = record n { base_node = u.node } in
    (
      if u.increased
          then resource_increased n' s groups
          else record { node = n'; store = s; groups = groups },
      u.is_reset,
    )

unfoldable pub reset : DispatchNode → DispatchNode
unfolding BaseNode.reset
reset n = record n { base_node = BaseNode.reset n.base_node }

-- `free_resource`: only tokens of this life of the node go back.
unfoldable pub free_resource : DispatchNode → Store → ℕ → List ℕ → Outcome
unfolding BaseNode.free resource_increased
free_resource n s p groups =
    if (s.req p).node_id == n.fence_id
    then resource_increased (record n { base_node = BaseNode.free n.base_node (cost s p) }) s groups
    else record { node = n; store = s; groups = groups }

-- The end of `alloc_resource` where tokens were found.
abbrev pub granted : DispatchNode → Store → ℕ → QosError × DispatchNode × Store
granted n s p = let (err, s') = to_got s (s.req p).token_grp p in (err, n, s')

-- `alloc_resource`
unfoldable pub alloc_resource : DispatchNode → Store → ℕ → QosError × DispatchNode × Store
unfolding BaseNode.try_alloc NodereqList.push_back to_got
alloc_resource n s₀ p =
    let s = set_req s₀ p (record (s₀.req p) { node_id = n.fence_id }) in
    let (err, base) = BaseNode.try_alloc n.base_node (cost s p) in
    let (again, base') = BaseNode.try_alloc base (cost s p) in
    if is_error err
    then (if is_error again
        then (
          again,
          record n { base_node = base'; lhead_nodereq = NodereqList.push_back n.lhead_nodereq s p },
          s,
        )
        else granted (record n { base_node = base' }) s p)
    else granted (record n { base_node = base }) s p

unfoldable pub get_protocol : DispatchNode → App2Dispatch
unfolding BaseNode.get_version BaseNode.get_token_inuse NodereqList.get_press
get_protocol n = record {
  press = NodereqList.get_press n.lhead_nodereq;
  version = BaseNode.get_version n.base_node;
  token_in_use = BaseNode.get_token_inuse n.base_node;
}

-- The loop of `pop_all`: every request fails.
unfoldable pub fail_all : Store → List ℕ → List ℕ → Store × List ℕ
unfolding to_failed
fail_all s [] groups = (s, groups)
fail_all s (p ∷ ps) groups =
    let g = (s.req p).token_grp in
    let (err, s') = to_failed s g p in
    fail_all s' ps (if is_failed_node err then g ∷ groups else groups)

unfoldable pub pop_all : DispatchNode → Store → List ℕ → Outcome
unfolding NodereqList.pop_all fail_all
pop_all n s groups =
    let (emptied, taken) = NodereqList.pop_all n.lhead_nodereq in
    let (s', groups') = fail_all s taken groups in
    record { node = record n { lhead_nodereq = emptied }; store = s'; groups = groups' }
