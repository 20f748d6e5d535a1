-- ===== src/TokenGlobal.antt =====
-- sysqos_token_global.c: the dispatcher's pools of tokens. The locks are marked as missing in the
-- source; each function is one step.
pub mod Bounds
pub mod Conservation
pub mod Admission
pub mod Tests
use datastor_qos.Base.{
  ℕ, min, max, ◌≡◌, Bool, true, false, ◌||◌, add64, sub64, ltb, leb, if◌then◌else◌,
}
use datastor_qos.Interface.{QosError, ok, too_many_nodes, is_error}
use datastor_qos.Run.{Run, returns, assert, ◌>>=◌, ◌>>◌}
use datastor_qos.AppNode.{AppNode}

pub record TokenGlobal : Type 0 where
  pub default_token_min : ℕ
  pub token_total : ℕ
  pub token_free : ℕ
  pub token_used_static : ℕ
  pub token_dynamic : ℕ
  pub token_dynamic_new : ℕ
  pub app_token_rsvr : ℕ
  pub app_num_max : ℕ
  pub app_num_cur : ℕ
  pub app_max_token_rsvr : ℕ

-- `token_global_init_value`
unfoldable pub init : ℕ → ℕ → TokenGlobal
init max_node_nr min_per_node = record {
  default_token_min = min_per_node;
  token_total = 0;
  token_free = 0;
  token_used_static = 0;
  token_dynamic = 0;
  token_dynamic_new = 0;
  app_token_rsvr = 0;
  app_num_max = max_node_nr;
  app_num_cur = 0;
  app_max_token_rsvr = 0;
}

-- `set_max_rsvr`, by `set_max_rsvr_nolock`
unfoldable pub set_max_rsvr : TokenGlobal → ℕ → TokenGlobal
set_max_rsvr t app_max_rsvr =
    if ltb app_max_rsvr t.app_token_rsvr
    then record t { app_max_token_rsvr = app_max_rsvr; app_token_rsvr = app_max_rsvr }
    else record t { app_max_token_rsvr = app_max_rsvr }

unfoldable pub check_up_app_num : TokenGlobal → QosError × TokenGlobal
check_up_app_num t =
    if ltb (add64 t.app_num_cur 1) t.app_num_max
      || ltb t.token_total (add64 t.token_used_static t.default_token_min)
    then (too_many_nodes, t)
    else (ok, record t { app_num_cur = add64 t.app_num_cur 1 })

-- What the three `alloc_from_*` functions write to the node.
abbrev pub give : AppNode → ℕ → AppNode
give n tokens = record n {
  token_quota = add64 n.token_quota tokens;
  token_quota_new = add64 n.token_quota tokens;
}

unfoldable pub alloc_from_rsvr : TokenGlobal → AppNode → Run (TokenGlobal × AppNode)
alloc_from_rsvr t n = do
  assert (leb n.token_quota t.default_token_min)
  let tokens = min t.app_token_rsvr (sub64 t.default_token_min n.token_quota)
  returns (
    record t {
      app_token_rsvr = sub64 t.app_token_rsvr tokens;
      token_used_static = add64 t.token_used_static tokens;
    },
    give n tokens,
  )

unfoldable pub alloc_from_free : TokenGlobal → AppNode → Run (TokenGlobal × AppNode)
alloc_from_free t n = do
  assert (leb n.token_quota t.default_token_min)
  let tokens = min t.token_free (sub64 t.default_token_min n.token_quota)
  returns (
    record t {
      token_free = sub64 t.token_free tokens;
      token_used_static = add64 t.token_used_static tokens;
    },
    give n tokens,
  )

unfoldable pub alloc_from_dynamic : TokenGlobal → AppNode → Run (TokenGlobal × AppNode)
alloc_from_dynamic t n = do
  assert (leb n.token_quota t.default_token_min)
  let tokens = sub64 t.default_token_min n.token_quota
  returns (record t { token_dynamic_new = sub64 t.token_dynamic_new tokens }, give n tokens)

unfoldable pub free_to_rsvr : TokenGlobal → AppNode → TokenGlobal × AppNode
free_to_rsvr t n =
    let tokens = min (sub64 t.app_max_token_rsvr t.app_token_rsvr) n.token_quota in
    (
      record t { app_token_rsvr = add64 t.app_token_rsvr tokens },
      record n { token_quota = sub64 n.token_quota tokens },
    )

unfoldable pub free_to_dynamic : TokenGlobal → AppNode → Run (TokenGlobal × AppNode)
free_to_dynamic t n = do
  let static = sub64 t.token_used_static (max t.default_token_min n.token_quota)
  assert (leb t.token_dynamic_new t.token_dynamic)
  let tokens = min (sub64 t.token_dynamic t.token_dynamic_new) (sub64 n.token_quota static)
  returns (
    record t { token_used_static = static; token_dynamic = add64 t.token_dynamic tokens },
    record n { token_quota = sub64 n.token_quota tokens },
  )

unfoldable pub free_to_free : TokenGlobal → AppNode → TokenGlobal
free_to_free t n = record t { token_free = add64 t.token_free n.token_quota }

-- `online`: a break leaves the pools and the node as they are.
unfoldable pub online : TokenGlobal → AppNode → Run (QosError × TokenGlobal × AppNode)
unfolding check_up_app_num alloc_from_rsvr alloc_from_free alloc_from_dynamic
online t n =
    let (err, t₀) = check_up_app_num t in
    if is_error err then returns (err, t₀, n) else (do
      (t₁, n₁) ← alloc_from_rsvr t₀ n
      (t₂, n₂) ← alloc_from_free t₁ n₁
      (t₃, n₃) ← alloc_from_dynamic t₂ n₂
      returns (ok, t₃, n₃))

unfoldable pub offline : TokenGlobal → AppNode → Run (TokenGlobal × AppNode)
unfolding free_to_rsvr free_to_dynamic free_to_free
offline t n = do
  assert (ltb 0 t.app_num_cur)
  let (t₁, n₁) = free_to_rsvr (record t { app_num_cur = sub64 t.app_num_cur 1 }) n
  (t₂, n₂) ← free_to_dynamic t₁ n₁
  returns (free_to_free t₂ n₂, n₂)

unfoldable pub try_alloc : TokenGlobal → ℕ → TokenGlobal × ℕ
try_alloc t cost =
    (record t { token_free = sub64 t.token_free (min t.token_free cost) }, min t.token_free cost)

-- `gfree`
unfoldable pub free : TokenGlobal → ℕ → TokenGlobal
free t cost =
    if ltb t.token_dynamic_new t.token_dynamic
    then (let tokens = min (sub64 t.token_dynamic t.token_dynamic_new) cost in
        record t {
          token_dynamic = sub64 t.token_dynamic tokens;
          token_used_static = add64 t.token_used_static tokens;
          token_free = add64 t.token_free (sub64 cost tokens);
        })
    else record t { token_free = add64 t.token_free cost }

unfoldable pub increase : TokenGlobal → ℕ → TokenGlobal
increase t units = record t {
  token_free = add64 t.token_free units;
  token_total = add64 t.token_total units;
  token_dynamic_new = add64 t.token_dynamic_new units;
  token_dynamic = add64 t.token_dynamic units;
}

unfoldable pub could_decrease : TokenGlobal → ℕ → Bool
could_decrease t units =
    if ltb (sub64 (min t.token_dynamic t.token_dynamic_new) units)
      (sub64 t.app_max_token_rsvr t.app_token_rsvr)
    then false
    else true

unfoldable pub try_decrease : TokenGlobal → ℕ → Bool × TokenGlobal
unfolding could_decrease
try_decrease t units =
    if could_decrease t units
    then (
      true,
      record t {
        token_dynamic_new = sub64 t.token_dynamic_new units;
        token_dynamic = sub64 t.token_dynamic units;
        token_free = sub64 t.token_free (min units t.token_free);
        token_total = sub64 t.token_total units;
      },
    )
    else (false, t)
