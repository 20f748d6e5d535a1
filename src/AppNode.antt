-- ===== src/AppNode.antt =====
-- sysqos_app_node.c, sysqos_update_node.c: what the dispatcher knows of one applicant. Each
-- function holds the node's spin lock throughout, so it is one step. The functions that it is given
-- (`try_alloc_func`, `erase_func`, `insert_func`) act on a state of the caller's, `S`.
pub mod Requests
pub mod Quota
pub mod Tests
use datastor_qos.Base.{
  ℕ, suc, zero, ℤ, pos, negsuc, min, ◌≡◌, Bool, true, false, Option, none, some, add64, sub64, ltb,
  leb, ◌==◌, eqb_ℤ, if◌then◌else◌,
}
use datastor_qos.Interface.{QosError, ok, too_big_cost, App2Dispatch, Dispatch2App, fifo_depth}
use datastor_qos.Run.{Run, returns, assert, ◌>>=◌, ◌>>◌}

-- `limit_t`
pub record Limit : Type 0 where
  pub min_units : ℕ
  pub max_units : ℕ

-- `update_node_t`, without its list link
pub record UpdateNode : Type 0 where
  pub weight : ℕ
  pub tmp_token_quota : ℕ
  pub token_base : ℕ

-- `app_node_t`: the link `list_wait_increase` is a position in the list of the manager.
pub record AppNode : Type 0 where
  pub updatenode : UpdateNode
  pub token_inuse : ℕ
  pub token_quota : ℕ
  pub token_quota_new : ℕ
  pub press : ℕ
  pub limit : Limit
  pub version : ℤ
  pub fence_id : ℕ

-- `++version`; the overflow of a `long` is undefined.
abbrev pub next_version : ℤ → ℤ
next_version (pos n) = pos (suc n)
next_version (negsuc zero) = pos 0
next_version (negsuc (suc n)) = negsuc n

-- `update_node_init`
unfoldable pub update_node_init : ℕ → Limit → ℕ → UpdateNode
update_node_init token_quota limit press = record {
  weight = press;
  tmp_token_quota = sub64 token_quota (min limit.min_units token_quota);
  token_base = min limit.min_units token_quota;
}

-- `appnode_init_val`, as `app_node_init` calls it
unfoldable pub init : ℕ → ℕ → AppNode
unfolding update_node_init
init min_units fence_id =
    let limit : Limit = record { min_units = min_units; max_units = 0 } in
    record {
      updatenode = update_node_init 0 limit 0;
      token_inuse = 0;
      token_quota = 0;
      token_quota_new = 0;
      press = 0;
      limit = limit;
      version = pos 0;
      fence_id = fence_id;
    }

pub record Allocation : Type 0 where
  pub err : QosError
  pub node : AppNode
  pub fence : Option ℕ  -- what is written through `pfence_id`

-- `dtn_alloc`
unfoldable pub alloc : AppNode → ℕ → Allocation
alloc n cost =
    if ltb n.token_quota (add64 n.token_inuse cost)
    then record { err = too_big_cost; node = n; fence = none }
    else record {
      err = ok;
      node = record n { token_inuse = add64 n.token_inuse cost };
      fence = some n.fence_id;
    }

-- `dtn_free`
unfoldable pub free : AppNode → ℕ → ℕ → Run AppNode
free n cost fence_id =
    if n.fence_id == fence_id
    then (do
      assert (ltb n.token_inuse cost)
      returns (record n { token_inuse = sub64 n.token_inuse cost }))
    else returns n

unfoldable pub get_protocol : AppNode → Dispatch2App
get_protocol n = record { token_quota = min n.token_quota_new n.token_quota; version = n.version }

unfoldable pub init_update_node : AppNode → AppNode
unfolding update_node_init
init_update_node n = record n { updatenode = update_node_init n.token_quota n.limit n.press }

-- `update_token_quota`: the node itself is only read.
unfoldable pub update_token_quota {ℓ} :
    {S : Type ℓ} → (S → ℕ → S × ℕ) → (S → S) → S → AppNode → S × Bool
update_token_quota try_alloc_func erase_func s n =
    if ltb n.token_quota n.token_quota_new
    then (let (s', got) = try_alloc_func s (sub64 n.token_quota_new n.token_quota) in
        if got == sub64 n.token_quota_new n.token_quota then (erase_func s', true) else (s', false))
    else (s, true)

unfoldable pub new_quota_under_limit : AppNode → ℕ → ℕ
new_quota_under_limit n q = if ltb 0 n.limit.max_units then min n.limit.max_units q else q

-- `update_token_quota_new_base`, which `update_token_quota_new_down` only calls
unfoldable pub update_token_quota_new_base : AppNode → ℕ → AppNode
update_token_quota_new_base n q = record n { token_quota_new = q; version = next_version n.version }

-- `update_token_quota_new`: the state and node after it, and the value that was set.
unfoldable pub update_token_quota_new {ℓ} :
    {S : Type ℓ} → (S → S) → S → AppNode → ℕ → Run (S × AppNode × ℕ)
unfolding new_quota_under_limit update_token_quota_new_base
update_token_quota_new insert_func s n wanted = do
  assert (leb n.limit.min_units wanted)
  let q = new_quota_under_limit n wanted
  let s' = if ltb n.token_quota_new q then insert_func s else s
  let n' = if n.token_quota_new == q then n else update_token_quota_new_base n q
  assert (leb n.limit.min_units q)
  returns (s', record n' { token_quota_new = q }, q)

-- `update_quota_after_rcvd`: the node, and the size that is reported as free.
unfoldable pub update_quota_after_rcvd : AppNode → ℕ → AppNode × ℕ
update_quota_after_rcvd n confirm_token =
    let new_quota = min confirm_token n.token_quota_new in
    if ltb n.token_quota new_quota
    then (record n { token_quota = new_quota }, sub64 new_quota n.token_quota)
    else (n, 0)

-- `rcvd`: `*free_size` keeps the value that the caller gave it where nothing is written.
unfoldable pub rcvd : AppNode → App2Dispatch → ℕ → AppNode × ℕ × Bool
unfolding update_quota_after_rcvd
rcvd n a2d free_size =
    if eqb_ℤ a2d.version n.version
    then (let (n', size) =
          update_quota_after_rcvd (record n { press = fifo_depth a2d.press }) a2d.token_in_use in
        (n', size, false))
    else (n, free_size, false)
