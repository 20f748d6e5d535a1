-- ===== src/DispManager/Tests.antt =====
-- sysqos_dispatch_manager.c: runs of the loop that raises quotas, and of the manager's calls.
use datastor_qos.Base.{ℕ, ◌+◌, refl, none, true, List, [], ◌∷◌, arith, pos}
use datastor_qos.Run.{Ends}
use datastor_qos.MemoryCache
use datastor_qos.WaitIncreaseList.{unlink}
use datastor_qos.TokenUpdate
use datastor_qos.SafeRwList
use datastor_qos.HashTable.View.{view}
use datastor_qos.HashTable.Buckets.{at}
use datastor_qos.CountController
use datastor_qos.FenceExecutor
use datastor_qos.HashTable.Tests.{remainders, table, table-IsValid}
use datastor_qos.DispManager.Events.{Manager, alloc_tokens, admit, update_policy}
use datastor_qos.DispManager.Coming.{IsValid, node_of, Admits, admit-Admits}
use datastor_qos.DispManager.Leaving.{Leaves, node_offline-Leaves}
use datastor_qos.DispManager.Tokens.{Takes, alloc_tokens-Takes}
use datastor_qos.DispManager.Frames.{IsPolicy, update_policy-IsPolicy}
use datastor_qos.DispManager.Policy.{IfReturns, IsDone, update_policy-IsDone}
use datastor_qos.DispManager.{DispManager, try_clear_wait_increase}
use datastor_qos.DispManager.Waiting.{Raised, try_clear-Raised}

-- Nodes with 20 tokens that are to have some more, with 8 tokens free.
abbrev manager : List ℕ → ℕ → DispManager
manager waiting more = record {
  tokens = record {
    default_token_min = 10;
    token_total = 200;
    token_free = 8;
    token_used_static = 20;
    token_dynamic = 0;
    token_dynamic_new = 0;
    app_token_rsvr = 0;
    app_num_max = 3;
    app_num_cur = 2;
    app_max_token_rsvr = 0;
  };
  lhead_wait_increase = record { head = waiting; left = none };
  tab = record { cache = MemoryCache.init 32 4; buckets = [] };
  nodes = λ p. record {
    updatenode = record { weight = 0; tmp_token_quota = 0; token_base = 0 };
    token_inuse = 0;
    token_quota = 20;
    token_quota_new = 20 + more;
    press = 4;
    limit = record { min_units = 10; max_units = 0 };
    version = pos 0;
    fence_id = 7;
  };
  update_ctx = TokenUpdate.init;
}

-- The tokens cover the first node, and the second gets the rest for nothing.
try_clear-Raised_example :
    Raised
      (manager (3 ∷ 5 ∷ []) 6)
      (3 ∷ 5 ∷ [])
      (try_clear_wait_increase 3 (manager (3 ∷ 5 ∷ []) 6))
try_clear-Raised_example =
    try_clear-Raised (3 ∷ 5 ∷ []) (manager (3 ∷ 5 ∷ []) 6) refl
      (
        omega arith,
        omega arith,
        unfold unlink in refl,
        (omega arith, omega arith, unfold unlink in refl, tt),
      )
      (omega arith)

-- The manager of nodes with 20 tokens, of which applicant 7 is known, at pointer 99.
abbrev known : Manager
known = record {
  round = record (manager [] 0) { tab = table 4 };
  token_node_cache = record { unit_size = 128; cache_unit = 4; alloc_cnt = 1; free_cnt = 0 };
  next_node = 100;
  default_token_min = 10;
  fence_id = 8;
  cnt_controller = CountController.init 3;
  executor = FenceExecutor.init;
}

known-IsValid : IsValid remainders known
known-IsValid = record {
  table = table-IsValid 4 (omega arith) (omega arith);
  cache = ground arith;
  level = ground arith;
  limit = refl;
  default = omega arith;
  rsvr = omega arith;
  free = omega arith;
}

-- Of at most three nodes two are online: the count lets one more in.
admit-Admits_example : Ends (admit remainders known 8) (Admits remainders known 8)
admit-Admits_example = admit-Admits remainders known 8 known-IsValid

node_offline-Leaves_example : Leaves remainders known 7 (node_of remainders known 7)
node_offline-Leaves_example =
    node_offline-Leaves remainders known 7 (table-IsValid 4 (omega arith) (omega arith))

alloc_tokens-Takes_example :
    Ends
      (alloc_tokens remainders 5 known (record { id = 7; cost = 6 }))
      (Takes remainders known (record { id = 7; cost = 6 }) 99)
unfolding view at SafeRwList.find
alloc_tokens-Takes_example =
    alloc_tokens-Takes remainders 5 known (record { id = 7; cost = 6 }) 99
      (table-IsValid 4 (omega arith) (omega arith)) refl (omega arith)

update_policy-IsDone_example :
    IfReturns (update_policy 5 (record known { round = manager [] 0 }) true) (λ r. IsDone r.0)
update_policy-IsDone_example = update_policy-IsDone 5 (record known { round = manager [] 0 })

update_policy-IsPolicy_example :
    IfReturns
      (update_policy 5 (record known { round = manager [] 0 }) true)
      (λ r. IsPolicy (record known { round = manager [] 0 }) r.0)
update_policy-IsPolicy_example =
    update_policy-IsPolicy 5 (record known { round = manager [] 0 }) true
