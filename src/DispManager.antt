-- ===== src/DispManager.antt =====
-- sysqos_dispatch_manager.c, `sysqos_disp_manager_t`: how the dispatcher announces quotas and raises
-- those that wait for tokens. The nodes are reached through pointers, so they live in a store. The
-- manager's lock is held throughout each of these functions.
pub mod Waiting
pub mod Stuck
pub mod Events
pub mod Coming
pub mod Leaving
pub mod Tokens
pub mod Policy
pub mod Rounds
pub mod Frames
pub mod Tests
use datastor_qos.Base.{
  ℕ, zero, suc, ◌+◌, ◌-◌, ◌*◌, ◌/◌, ◌%◌, ◌^◌, ◌≤◌, ◌<◌, min, max, ◌≡◌, refl, sym, ap, subst, ◌∙◌,
  ◌≢◌, ◌↔◌, ◌⊎◌, inl, inr, Bool, true, false, not, ◌&&◌, ◌||◌, Option, none, some, List, [], ◌∷◌,
  ◌++◌, map, arith, length, sum_of, All, length-append, sum_of-append, ltb, leb, ◌==◌,
  if◌then◌else◌, ==_refl, eq_of_==, ne_of_==, lt_of_ltb, le_of_ltb, Bool-cases, Option-cases,
  lt-ltb, pos_or_zero, is_some, IsWord, add64, sub64, mul64, add32, sub32, sub64-eq-sub,
  add64-eq-add, ℤ, pos, negsuc, pos_part, neg_part, ltb_ℤ, eqb_ℤ, ◌<ℤ◌, eq_of_parts,
}
use datastor_qos.Run.{Run, returns, ◌>>=◌}
use datastor_qos.AppNode
use datastor_qos.AppNode.{AppNode}
use datastor_qos.TokenGlobal
use datastor_qos.TokenGlobal.{TokenGlobal}
use datastor_qos.WaitIncreaseList
use datastor_qos.WaitIncreaseList.{WaitIncreaseList}
use datastor_qos.TokenUpdate
use datastor_qos.TokenUpdate.{TokenUpdate}
use datastor_qos.HashTable
use datastor_qos.HashTable.{Table}

-- The parts of the manager that a round of sharing out uses; `nodes` is the memory that the values of
-- `tab` point to.
pub record DispManager : Type 0 where
  pub tokens : TokenGlobal
  pub lhead_wait_increase : WaitIncreaseList
  pub tab : Table ℕ
  pub nodes : ℕ → AppNode
  pub update_ctx : TokenUpdate

-- `wait_increase_erase` and `enqueue`
unfoldable pub wait_increase_erase : DispManager → ℕ → DispManager
unfolding WaitIncreaseList.erase
wait_increase_erase m p = record m {
  lhead_wait_increase = WaitIncreaseList.erase m.lhead_wait_increase p;
}

unfoldable pub enqueue : DispManager → ℕ → DispManager
unfolding WaitIncreaseList.enqueue
enqueue m p = record m { lhead_wait_increase = WaitIncreaseList.enqueue m.lhead_wait_increase p }

unfoldable pub global_try_alloc : DispManager → ℕ → DispManager × ℕ
unfolding TokenGlobal.try_alloc
global_try_alloc m cost =
    let (t, got) = TokenGlobal.try_alloc m.tokens cost in (record m { tokens = t }, got)

-- The body of the loop of `try_clear_wait_increase`, with `is_continue`
unfoldable pub raise_first : DispManager → ℕ → DispManager × Bool
unfolding AppNode.update_token_quota global_try_alloc wait_increase_erase
raise_first m p =
    AppNode.update_token_quota global_try_alloc (λ m'. wait_increase_erase m' p) m (m.nodes p)

-- `try_clear_wait_increase`, on fuel; none where the loop still runs when the fuel is used up.
unfoldable pub try_clear_wait_increase : ℕ → DispManager → Option DispManager
unfolding WaitIncreaseList.is_first_exist raise_first
try_clear_wait_increase zero m = none
try_clear_wait_increase (suc k) m = elim (WaitIncreaseList.is_first_exist m.lhead_wait_increase) [
  | none ↦ some m
  | some p ↦
      let (m', is_continue) = raise_first m p in
      let rest = try_clear_wait_increase k m' in if is_continue then rest else some m'
]

-- `set_quota_new`
unfoldable pub set_quota_new : DispManager → ℕ → ℕ → Run (DispManager × ℕ)
unfolding AppNode.update_token_quota_new enqueue
set_quota_new m cost p = do
  (m', n, q) ← AppNode.update_token_quota_new (λ m'. enqueue m' p) m (m.nodes p) cost
  returns (record m' { nodes = λ x. if x == p then n else m'.nodes x }, q)

-- `add_rs_to_upctx`; its assert holds, since ids and nodes are not null.
unfoldable pub add_rs_to_upctx : (ℕ → AppNode) → TokenUpdate → ℕ → ℕ → TokenUpdate
unfolding TokenUpdate.add_resource
add_rs_to_upctx nodes ctx id pri = TokenUpdate.add_resource ctx pri (nodes pri)

-- `update_nodes_token_quota_new`
unfoldable pub update_nodes_token_quota_new : DispManager → Run DispManager
unfolding HashTable.for_each add_rs_to_upctx TokenUpdate.update set_quota_new
update_nodes_token_quota_new m = do
  let ctx = HashTable.for_each (add_rs_to_upctx m.nodes) m.update_ctx m.tab.buckets
  (m', ctx') ← TokenUpdate.update set_quota_new m ctx
  returns (record m' { update_ctx = ctx' })
