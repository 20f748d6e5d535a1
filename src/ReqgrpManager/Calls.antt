-- ===== src/ReqgrpManager/Calls.antt =====
-- sysqos_token_reqgrp_manager.c: the calls of the application, `get_token_grp` and `put_token_grp`.
use datastor_qos.Base.{
  ℕ, suc, Bool, true, false, Option, none, some, List, [], ◌∷◌, ◌++◌, if◌then◌else◌, is_some,
}
use datastor_qos.Interface.{QosError, memory, is_error, Resource}
use datastor_qos.Run.{Run, returns, ◌>>=◌}
use datastor_qos.MemoryCache
use datastor_qos.MemoryCache.{MemoryCache}
use datastor_qos.HashTable
use datastor_qos.HashTable.{Keys, Table}
use datastor_qos.TokenReqgrp
use datastor_qos.TokenReqgrp.{Stat, TokenReq, TokenReqgrp, Store, update}
use datastor_qos.DispatchNode
use datastor_qos.DispatchNode.{DispatchNode, Outcome}
use datastor_qos.ReqgrpManager.{
  ReqgrpManager, Answer, end_token_grps, is_refusal, put_item, put_outcome, node_online,
  node_offline,
}

module _ (keys : Keys) where
  -- `check_node_in_when_get`
  unfoldable pub check_node_in : ReqgrpManager → List Resource → Run ReqgrpManager
  unfolding HashTable.find node_online
  check_node_in m [] = returns m
  check_node_in m (r ∷ rs) = do
    found ← HashTable.find keys m.app_node_table r.id
    m' ← (if is_some found then returns m else node_online keys m r.id)
    check_node_in m' rs

  -- `try_to_alloc_from_manager_nolock` of the request at `rip`, of the group at `g`
  unfoldable pub try_to_alloc : ReqgrpManager → ℕ → ℕ → Run (QosError × ReqgrpManager)
  unfolding HashTable.find DispatchNode.alloc_resource TokenReqgrp.to_failed
  try_to_alloc m g rip = do
    found ← HashTable.find keys m.app_node_table (m.store.req rip).rs.id
    returns (elim found [
      | none ↦ let (err, s) = TokenReqgrp.to_failed m.store g rip in (err, record m { store = s })
      | some p ↦
          let (err, n, s) = DispatchNode.alloc_resource (m.items p) m.store rip in
          (err, put_item m p n s)
    ])

  -- `try_to_get_tokens`: the error is that of the last request.
  unfoldable pub try_to_get_tokens :
      ReqgrpManager → ℕ → List ℕ → QosError → Run (QosError × ReqgrpManager)
  unfolding try_to_alloc
  try_to_get_tokens m g [] err = returns (err, m)
  try_to_get_tokens m g (p ∷ ps) err = do
    (err', m') ← try_to_alloc m g p
    try_to_get_tokens m' g ps err'

  -- `try_to_free_to_manager_nolock`
  unfoldable pub try_to_free : ReqgrpManager → ℕ → List ℕ → Run (ReqgrpManager × List ℕ)
  unfolding HashTable.find DispatchNode.free_resource
  try_to_free m rip groups = do
    found ← HashTable.find keys m.app_node_table (m.store.req rip).rs.id
    returns (elim found [
      | none ↦ (m, groups)
      | some p ↦
          let r = DispatchNode.free_resource (m.items p) m.store rip groups in
          (put_outcome m p r, r.groups)
    ])

  -- `try_to_put_tokens`: only requests that got their tokens give them back.
  unfoldable pub try_to_put_tokens : ReqgrpManager → List ℕ → List ℕ → Run (ReqgrpManager × List ℕ)
  unfolding try_to_free
  try_to_put_tokens m [] groups = returns (m, groups)
  try_to_put_tokens m (p ∷ ps) groups = do
    (m', groups') ← (elim (m.store.req p).stat [
      | Stat.got ↦ try_to_free m p groups
      | _ ↦ returns (m, groups)
    ])
    try_to_put_tokens m' ps groups'

  -- `check_node_out_when_put`
  unfoldable pub check_node_out : ReqgrpManager → List Resource → Run (ReqgrpManager × List Answer)
  unfolding HashTable.find node_offline
  check_node_out m [] = returns (m, [])
  check_node_out m (r ∷ rs) = do
    found ← HashTable.find keys m.app_node_table r.id
    (m', before) ← (if is_some found then node_offline keys m r.id else returns (m, []))
    (m'', after) ← check_node_out m' rs
    returns (m'', before ++ after)

  -- `put_token_grp` of the group at `g`, with the resources whose nodes failed
  unfoldable pub put_token_grp :
      ReqgrpManager → ℕ → List Resource → Run (ReqgrpManager × List Answer)
  unfolding check_node_out try_to_put_tokens end_token_grps TokenReqgrp.exit
  put_token_grp m g fail_rs = do
    (m₁, before) ← check_node_out m fail_rs
    (m₂, groups) ← try_to_put_tokens m₁ (m₁.store.grp g).members []
    let (s, cache) = TokenReqgrp.exit m₂.store m₂.resource_cache g
    returns (
      record m₂ {
        store = s;
        resource_cache = cache;
        token_grp_cache = MemoryCache.free m₂.token_grp_cache;
      },
      before ++ end_token_grps m₂.store groups,
    )

  -- The end of `get_token_grp`: a group that is refused is put back.
  unfoldable pub put_if :
      Bool → QosError → ReqgrpManager → ℕ → Run (QosError × ReqgrpManager × List Answer)
  unfolding put_token_grp
  put_if false err m g = returns (err, m, [])
  put_if true err m g = do (m', answers) ← put_token_grp m g []; returns (err, m', answers)

  -- The part of `get_token_grp` after the dispatchers came online
  unfoldable pub ask_tokens : ReqgrpManager → ℕ → Run (QosError × ReqgrpManager × List Answer)
  unfolding try_to_get_tokens put_if is_refusal
  ask_tokens m g = do
    (err, m') ← try_to_get_tokens m g (m.store.grp g).members QosError.ok
    put_if (is_refusal err) err m' g

  -- `get_token_grp`: the error, what is written through `pp_token_grp` (none for a null pointer), the
  -- manager, and the answers to other groups. The resources are in the order of the list head that the
  -- function links in.
  unfoldable pub get_token_grp :
      ReqgrpManager → List Resource → ℕ → Run (QosError × Option ℕ × ReqgrpManager × List Answer)
  unfolding check_node_in ask_tokens TokenReqgrp.init_group
  get_token_grp m rs pri =
      let (given, grp_cache) = MemoryCache.alloc m.token_grp_cache true in
      elim given [
        | false ↦ returns (memory, none, m, [])
        | true ↦
            let g = m.next_grp in
            let (err, s, cache) = TokenReqgrp.init_group m.store m.resource_cache g rs pri in
            let m₁ = record m {
              store = s;
              next_grp = suc g;
              resource_cache = cache;
              token_grp_cache = grp_cache;
            } in
            elim (is_error err) [
              | true ↦
                  returns
                    (memory, some g, record m₁ { token_grp_cache = MemoryCache.free grp_cache }, [])
              | false ↦ do
                m₂ ← check_node_in m₁ rs
                (err', m₃, answers) ← ask_tokens m₂ g
                returns (err', some g, m₃, answers)
            ]
      ]
