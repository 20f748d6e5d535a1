-- ===== src/DispManager/Events.antt =====
-- sysqos_dispatch_manager.c: applicants that come and go, their messages, and the tokens they take and
-- give back. The functions run one after the other; creating a node's lock succeeds.
use datastor_qos.Base.{
  ℕ, suc, Bool, true, false, Option, none, some, ltb, ◌==◌, if◌then◌else◌, add64,
}
use datastor_qos.Interface.{QosError, failed_node, is_error, Resource, App2Dispatch, Dispatch2App}
use datastor_qos.Run.{null_dereference, assertion_failed, out_of_fuel, Run, returns, aborts, ◌>>=◌}
use datastor_qos.MemoryCache
use datastor_qos.MemoryCache.{MemoryCache}
use datastor_qos.SafeRwList.{is_ok}
use datastor_qos.HashTable
use datastor_qos.HashTable.{Keys, Table}
use datastor_qos.AppNode
use datastor_qos.AppNode.{AppNode}
use datastor_qos.CountController
use datastor_qos.CountController.{CountController}
use datastor_qos.FenceExecutor
use datastor_qos.FenceExecutor.{FenceExecutor}
use datastor_qos.TokenGlobal
use datastor_qos.TokenGlobal.{TokenGlobal}
use datastor_qos.TokenUpdate
use datastor_qos.WaitIncreaseList
use datastor_qos.DispManager.{DispManager, try_clear_wait_increase, update_nodes_token_quota_new}

-- `sysqos_disp_manager_t`; no live node stands at `next_node` or above.
pub record Manager : Type 0 where
  pub round : DispManager
  pub token_node_cache : MemoryCache
  pub next_node : ℕ
  pub default_token_min : ℕ
  pub fence_id : ℕ
  pub cnt_controller : CountController
  pub executor : FenceExecutor

abbrev pub set_tokens : Manager → TokenGlobal → Manager
set_tokens m t = record m { round = record m.round { tokens = t } }

-- A node written through its pointer.
abbrev pub set_node : Manager → ℕ → AppNode → Manager
set_node m p n = record m {
  round = record m.round { nodes = λ x. if x == p then n else m.round.nodes x };
}

-- `try_clear_wait_increase`, where running out of fuel stands for running on.
unfoldable pub clear_waiting : ℕ → Manager → Run Manager
unfolding try_clear_wait_increase
clear_waiting fuel m = elim (try_clear_wait_increase fuel m.round) [
  | none ↦ aborts out_of_fuel
  | some r ↦ returns (record m { round = r })
]

-- `manager->executor.execute(…)`
unfoldable pub execute_update : Manager → Run Manager
unfolding FenceExecutor.execute update_nodes_token_quota_new
execute_update m = do
  let (x, r) =
      FenceExecutor.execute (λ r. r >>= update_nodes_token_quota_new) m.executor (returns m.round)
  round ← r
  returns (record m { executor = x; round = round })

-- `update_policy`
unfoldable pub update_policy : ℕ → Manager → Bool → Run (Manager × Bool)
unfolding CountController.clear CountController.test_cnt execute_update clear_waiting
update_policy fuel m is_direct =
    let (counter, due) =
      if is_direct
      then (CountController.clear m.cnt_controller, true)
      else CountController.test_cnt m.cnt_controller in
    let m₁ = record m { cnt_controller = counter } in
    elim due [
      | false ↦ returns (m₁, false)
      | true ↦ do m₂ ← execute_update m₁; m₃ ← clear_waiting fuel m₂; returns (m₃, true)
    ]

-- `resource_increase` and `resource_reduce`
unfoldable pub resource_increase : ℕ → Manager → ℕ → Run Manager
unfolding TokenGlobal.increase update_policy
resource_increase fuel m cost = do
  (m', _) ← update_policy fuel (set_tokens m (TokenGlobal.increase m.round.tokens cost)) true
  returns m'

unfoldable pub resource_reduce : ℕ → Manager → ℕ → Run Manager
unfolding TokenGlobal.try_decrease update_policy
resource_reduce fuel m cost =
    let (is_success, t) = TokenGlobal.try_decrease m.round.tokens cost in
    elim is_success [
      | false ↦ returns (set_tokens m t)
      | true ↦ do (m', _) ← update_policy fuel (set_tokens m t) true; returns m'
    ]

module _ (keys : Keys) where
  -- `node_reset`: no function sets `node->reset`, and a new node is all zero.
  unfoldable pub node_reset : ℕ → Manager → ℕ → Run Manager
  unfolding HashTable.find update_policy
  node_reset fuel m id = do
    found ← HashTable.find keys m.round.tab id
    elim found [
      | none ↦ do (m', _) ← update_policy fuel m true; returns m'
      | some p ↦ aborts null_dereference
    ]

  -- The end of `node_online` after `find` failed and before `update_policy`, with a unit of the cache
  -- reserved for `node`.
  unfoldable pub link_in : Manager → ℕ → AppNode → Run (Manager × Bool)
  unfolding TokenGlobal.online TokenGlobal.offline HashTable.insert
  link_in m id node = do
    (err, t, n) ← TokenGlobal.online m.round.tokens node
    elim (is_error err) [
      | true ↦ returns (
        record (set_tokens m t) { token_node_cache = MemoryCache.free m.token_node_cache },
        false,
      )
      | false ↦ do
        (again, tab) ← HashTable.insert keys m.round.tab id m.next_node
        let m' = set_node m m.next_node n
        elim (is_ok again) [
          | true ↦ returns (
            record m' {
              round = record m'.round { tokens = t; tab = tab };
              next_node = suc m.next_node;
            },
            true,
          )
          | false ↦ do
            (t', _) ← TokenGlobal.offline t n
            returns (
              record m {
                round = record m.round { tokens = t'; tab = tab };
                token_node_cache = MemoryCache.free m.token_node_cache;
              },
              false,
            )
        ]
    ]

  -- `node_online` up to `update_policy`, and whether it is called
  unfoldable pub admit : Manager → ℕ → Run (Manager × Bool)
  unfolding HashTable.find AppNode.init link_in
  admit m id =
      let (given, cache) = MemoryCache.alloc m.token_node_cache true in
      elim given [
        | false ↦ returns (m, false)
        | true ↦ do
          let m' = record m { token_node_cache = cache; fence_id = add64 m.fence_id 1 }
          found ← HashTable.find keys m.round.tab id
          elim found [
            | some _ ↦ returns (record m' { token_node_cache = MemoryCache.free cache }, false)
            | none ↦ link_in m' id (AppNode.init m.default_token_min m.fence_id)
          ]
      ]

  unfoldable pub node_online : ℕ → Manager → ℕ → Run Manager
  unfolding admit update_policy
  node_online fuel m id = do
    (m', is_in) ← admit m id
    elim is_in [ false ↦ returns m' | true ↦ do (m'', _) ← update_policy fuel m' true; returns m'' ]

  -- `node_offline`: the table writes nothing through the null pointer that it is given, so `node` is
  -- null, which the list of waiting nodes asserts that it is not.
  unfoldable pub node_offline : Manager → ℕ → Run Manager
  unfolding HashTable.erase
  node_offline m id = do
    (err, _, tab) ← HashTable.erase keys m.round.tab id
    elim (is_ok err) [
      | false ↦ returns (record m { round = record m.round { tab = tab } })
      | true ↦ aborts assertion_failed
    ]

  -- `check_online`
  unfoldable pub check_online : ℕ → Manager → ℕ → Run Manager
  unfolding HashTable.find node_online
  check_online fuel m id = do
    found ← HashTable.find keys m.round.tab id
    elim found [ none ↦ node_online fuel m id | some _ ↦ returns m ]

  -- `alloc_tokens`, with what is written through `fence_id`
  unfoldable pub alloc_tokens : ℕ → Manager → Resource → Run (QosError × Option ℕ × Manager)
  unfolding check_online HashTable.find AppNode.alloc
  alloc_tokens fuel m rs = do
    m' ← check_online fuel m rs.id
    found ← HashTable.find keys m'.round.tab rs.id
    returns (elim found [
      | none ↦ (failed_node, none, m')
      | some p ↦
          let a = AppNode.alloc (m'.round.nodes p) rs.cost in (a.err, a.fence, set_node m' p a.node)
    ])

  -- `free_tokens`
  unfoldable pub free_tokens : Manager → Resource → ℕ → Bool → Run Manager
  unfolding node_offline HashTable.find AppNode.free
  free_tokens m rs fence_id true = node_offline m rs.id
  free_tokens m rs fence_id false = do
    found ← HashTable.find keys m.round.tab rs.id
    elim found [
      | none ↦ returns m
      | some p ↦ do n ← AppNode.free (m.round.nodes p) rs.cost fence_id; returns (set_node m p n)
    ]

  -- `node_rcvd`: what is found to be free, and whether to reset; none where the node is not known.
  unfoldable pub node_rcvd : Manager → ℕ → App2Dispatch → Run (Option (ℕ × Bool) × Manager)
  unfolding HashTable.find AppNode.rcvd
  node_rcvd m id a2d = do
    found ← HashTable.find keys m.round.tab id
    returns (elim found [
      | none ↦ (none, m)
      | some p ↦
          let (n, free_size, is_reset) = AppNode.rcvd (m.round.nodes p) a2d 0 in
          (some (free_size, is_reset), set_node m p n)
    ])

  -- `rcvd`: `a2d` is what the stack holds, since the message is not copied to it.
  unfoldable pub rcvd : ℕ → Manager → ℕ → App2Dispatch → Run Manager
  unfolding check_online node_rcvd node_reset update_policy TokenGlobal.free clear_waiting
  rcvd fuel m id a2d = do
    m₁ ← check_online fuel m id
    (told, m₂) ← node_rcvd m₁ id a2d
    elim told [
      | none ↦ returns m₂
      | some (new_free_size, is_reset) ↦ elim is_reset [
        | true ↦ do m₃ ← node_reset fuel m₂ id; (m₄, _) ← update_policy fuel m₃ true; returns m₄
        | false ↦ elim (ltb 0 new_free_size) [
          | true ↦
              clear_waiting fuel (set_tokens m₂ (TokenGlobal.free m₂.round.tokens new_free_size))
          | false ↦ do (m₃, _) ← update_policy fuel m₂ false; returns m₃
        ]
      ]
    ]

  -- `snd_msg_buf`: what is written to the buffer.
  unfoldable pub snd_msg_buf : Manager → ℕ → Run (QosError × Option Dispatch2App)
  unfolding HashTable.find AppNode.get_protocol
  snd_msg_buf m id = do
    found ← HashTable.find keys m.round.tab id
    returns (elim found [
      | none ↦ (failed_node, none)
      | some p ↦ (QosError.ok, some (AppNode.get_protocol (m.round.nodes p)))
    ])

-- `sysqos_disp_manager_init`, where memory and locks are given; `rebalance_ratio` is not used.
unfoldable pub init : ℕ → (ℕ → AppNode) → ℕ → ℕ → ℕ → ℕ → Run Manager
unfolding HashTable.alloc_table WaitIncreaseList.init TokenGlobal.init MemoryCache.init
    CountController.init FenceExecutor.init TokenUpdate.init
init node_size nodes table_len max_node_num update_interval min_rs_num = do
  tab ← HashTable.alloc_table table_len max_node_num
  returns (record {
    round = record {
      tokens = TokenGlobal.init max_node_num min_rs_num;
      lhead_wait_increase = WaitIncreaseList.init;
      tab = tab;
      nodes = nodes;
      update_ctx = TokenUpdate.init;
    };
    token_node_cache = MemoryCache.init node_size max_node_num;
    next_node = 0;
    default_token_min = min_rs_num;
    fence_id = 0;
    cnt_controller = CountController.init update_interval;
    executor = FenceExecutor.init;
  })
