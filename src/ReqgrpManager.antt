-- ===== src/ReqgrpManager.antt =====
-- sysqos_token_reqgrp_manager.c, `token_reqgrp_manager_t`: the applicant's side as a whole. The table maps
-- the id of a dispatcher to an item, a pointer to its `dispatch_node_t`. The functions run one after the
-- other: each takes the manager's lock, and no other thread comes between two locked parts. The answers
-- that `token_grp_got` of the application is called with are returned as a list.
pub mod Calls
pub mod Queued
pub mod Told
pub mod Awaits
pub mod Nodes
pub mod Leaving
pub mod Received
pub mod Messages
pub mod ComeIn
pub mod Tries
pub mod Handed
pub mod Groups
pub mod Puts
pub mod PutsBack
pub mod Returned
pub mod Asked
pub mod Refusals
pub mod Evolves
pub mod Life
pub mod Tests
use datastor_qos.Base.{
  ℕ, zero, suc, ◌+◌, ◌-◌, ◌*◌, ◌/◌, ◌%◌, ◌^◌, ◌≤◌, ◌<◌, min, max, ◌≡◌, refl, sym, ap, subst, ◌∙◌,
  ◌≢◌, ◌↔◌, ◌⊎◌, inl, inr, Bool, true, false, not, ◌&&◌, ◌||◌, Option, none, some, List, [], ◌∷◌,
  ◌++◌, map, arith, length, sum_of, All, length-append, sum_of-append, ltb, leb, ◌==◌,
  if◌then◌else◌, ==_refl, eq_of_==, ne_of_==, lt_of_ltb, le_of_ltb, Bool-cases, Option-cases,
  lt-ltb, pos_or_zero, is_some, IsWord, add64, sub64, mul64, add32, sub32, sub64-eq-sub,
  add64-eq-add, ℤ, pos, negsuc, pos_part, neg_part, ltb_ℤ, eqb_ℤ, ◌<ℤ◌, eq_of_parts,
}
use datastor_qos.Interface.{
  QosError, ok, pending, failed_node, memory, is_error, Resource, App2Dispatch, Dispatch2App,
}
use datastor_qos.Run.{Run, returns, assert, ◌>>=◌, ◌>>◌}
use datastor_qos.MemoryCache
use datastor_qos.MemoryCache.{MemoryCache}
use datastor_qos.SafeRwList.{is_ok}
use datastor_qos.HashTable
use datastor_qos.HashTable.{Keys, Table}
use datastor_qos.TokenReqgrp
use datastor_qos.TokenReqgrp.{Stat, TokenReq, TokenReqgrp, Store, update}
use datastor_qos.DispatchNode
use datastor_qos.DispatchNode.{DispatchNode, Outcome}

-- `items` is the memory of `manager_item_cache`: no live item stands at `next_item` or above; nor a live
-- group of `store` at `next_grp` or above.
pub record ReqgrpManager : Type 0 where
  pub store : Store
  pub next_grp : ℕ
  pub items : ℕ → DispatchNode
  pub next_item : ℕ
  pub token_grp_cache : MemoryCache
  pub resource_cache : MemoryCache
  pub app_node_table : Table ℕ
  pub manager_item_cache : MemoryCache
  pub version : ℕ

-- The arguments of one call of `token_grp_got`
pub record Answer : Type 0 where
  pub token_grp : ℕ
  pub pri : ℕ
  pub err : QosError

-- `end_token_grps`
unfoldable pub end_token_grps : Store → List ℕ → List Answer
end_token_grps s [] = []
end_token_grps s (g ∷ gs) =
    record { token_grp = g; pri = (s.grp g).pri; err = (s.grp g).err } ∷ end_token_grps s gs

-- `err && err != QOS_ERROR_PENDING`
unfoldable pub is_refusal : QosError → Bool
is_refusal QosError.ok = false
is_refusal pending = false
is_refusal _ = true

-- An operation's outcome at an item, put back.
abbrev pub put_item : ReqgrpManager → ℕ → DispatchNode → Store → ReqgrpManager
put_item m p n s = record m { store = s; items = update m.items p n }

abbrev pub put_outcome : ReqgrpManager → ℕ → Outcome → ReqgrpManager
put_outcome m p r = put_item m p r.node r.store

module _ (keys : Keys) where
  -- `node_online`: initialising the node succeeds.
  unfoldable pub node_online : ReqgrpManager → ℕ → Run ReqgrpManager
  unfolding HashTable.insert DispatchNode.init
  node_online m id =
      let (given, cache) = MemoryCache.alloc m.manager_item_cache true in
      elim given [
        | false ↦ returns m
        | true ↦ do
          (err, table) ← HashTable.insert keys m.app_node_table id m.next_item
          returns (
              if is_ok err
              then record m {
                manager_item_cache = cache;
                version = add32 m.version 1;
                app_node_table = table;
                items = update m.items m.next_item (DispatchNode.init m.version);
                next_item = suc m.next_item;
              }
              else record m {
                manager_item_cache = MemoryCache.free cache;
                version = add32 m.version 1;
                app_node_table = table;
              })
      ]

  -- `node_offline`
  unfoldable pub node_offline : ReqgrpManager → ℕ → Run (ReqgrpManager × List Answer)
  unfolding HashTable.find HashTable.erase DispatchNode.pop_all end_token_grps
  node_offline m id = do
    found ← HashTable.find keys m.app_node_table id
    elim found [
      | none ↦ returns (m, [])
      | some p ↦ do
        let r = DispatchNode.pop_all (m.items p) m.store []
        (err, old, table) ← HashTable.erase keys m.app_node_table id
        assert (is_ok err)
        returns (
          record (put_outcome m p r) {
            app_node_table = table;
            manager_item_cache = MemoryCache.free m.manager_item_cache;
          },
          end_token_grps r.store r.groups,
        )
    ]

  -- `node_reset`
  unfoldable pub node_reset : ReqgrpManager → ℕ → Run ReqgrpManager
  unfolding HashTable.find DispatchNode.reset
  node_reset m id = do
    found ← HashTable.find keys m.app_node_table id
    returns
        (elim found [ none ↦ m | some p ↦ put_item m p (DispatchNode.reset (m.items p)) m.store ])

  -- `rcvd`. The `continue` after `node_online` leaves the loop, whose condition is 0: the message is not
  -- looked at again.
  unfoldable pub rcvd : ReqgrpManager → ℕ → Dispatch2App → Run (ReqgrpManager × List Answer)
  unfolding HashTable.find DispatchNode.resource_changed node_online node_reset end_token_grps
  rcvd m id dta = do
    found ← HashTable.find keys m.app_node_table id
    elim found [
      | none ↦ do m' ← node_online m id; returns (m', [])
      | some p ↦ do
        let (r, is_reset) = DispatchNode.resource_changed (m.items p) m.store dta []
        let m' = put_outcome m p r
        m'' ← (if is_reset then node_reset m' id else returns m')
        returns (m'', end_token_grps m''.store r.groups)
    ]

  -- `snd_msg_buf`: what is written to the buffer.
  unfoldable pub snd_msg_buf : ReqgrpManager → ℕ → Run (QosError × Option App2Dispatch)
  unfolding HashTable.find DispatchNode.get_protocol
  snd_msg_buf m id = do
    found ← HashTable.find keys m.app_node_table id
    returns (elim found [
      | none ↦ (failed_node, none)
      | some p ↦ (QosError.ok, some (DispatchNode.get_protocol (m.items p)))
    ])

-- The sizes that the compiler gives to `token_reqgrp_t`, `token_req_t` and `dispatch_node_t`
pub record Sizes : Type 0 where
  pub token_grp : ℕ
  pub token_req : ℕ
  pub dispatch_node : ℕ

-- `token_reqgrp_manager_init`, where memory and locks are given. No object is live.
unfoldable pub init : Sizes → Store → (ℕ → DispatchNode) → ℕ → ℕ → ℕ → ℕ → Run ReqgrpManager
unfolding HashTable.alloc_table MemoryCache.init
init sizes store items tab_len max_token_grp_num max_resource_num max_node_num = do
  table ← HashTable.alloc_table tab_len max_node_num
  returns (record {
    store = store;
    next_grp = 0;
    items = items;
    next_item = 0;
    token_grp_cache = MemoryCache.init sizes.token_grp max_token_grp_num;
    resource_cache = MemoryCache.init sizes.token_req max_resource_num;
    app_node_table = table;
    manager_item_cache = MemoryCache.init sizes.dispatch_node max_node_num;
    version = 0;
  })
