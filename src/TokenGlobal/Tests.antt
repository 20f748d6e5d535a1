-- ===== src/TokenGlobal/Tests.antt =====
-- sysqos_token_global.c: runs on concrete pools.
use datastor_qos.Base.{ℕ, ◌+◌, ◌%◌, ◌^◌, ◌≡◌, refl, some, List, [], ◌∷◌, arith, pos}
use datastor_qos.Interface.{too_many_nodes}
use datastor_qos.Run.{Ends, returns}
use datastor_qos.AppNode.{AppNode}
use datastor_qos.TokenGlobal.{TokenGlobal, init, online, offline, try_alloc, free, increase}
use datastor_qos.TokenGlobal.Bounds.{
  IsBounded, Call, allocs, frees, increases, step, run, run-init-IsBounded,
}
use datastor_qos.TokenGlobal.Conservation.{offline-conserves}
use datastor_qos.TokenGlobal.Admission.{run-init-refuses}

abbrev pools : TokenGlobal
pools = record {
  default_token_min = 10;
  token_total = 200;
  token_free = 50;
  token_used_static = 20;
  token_dynamic = 80;
  token_dynamic_new = 60;
  app_token_rsvr = 30;
  app_num_max = 1;
  app_num_cur = 1;
  app_max_token_rsvr = 40;
}

pools-IsBounded : IsBounded pools
pools-IsBounded = record {
  reserve = omega arith;
  limit = omega arith;
  free = omega arith;
  dynamic = omega arith;
  dynamic_new = omega arith;
  static = omega arith;
}

abbrev node : ℕ → AppNode
node quota = record {
  updatenode = record { weight = 0; tmp_token_quota = 0; token_base = 0 };
  token_inuse = 0;
  token_quota = quota;
  token_quota_new = quota;
  press = 4;
  limit = record { min_units = 10; max_units = 0 };
  version = pos 0;
  fence_id = 7;
}

-- The pools after some calls on new ones.
abbrev pools_raised : TokenGlobal
pools_raised = record {
  default_token_min = 10;
  token_total = 90;
  token_free = 80;
  token_used_static = 0;
  token_dynamic = 90;
  token_dynamic_new = 90;
  app_token_rsvr = 0;
  app_num_max = 5;
  app_num_cur = 0;
  app_max_token_rsvr = 0;
}

abbrev calls : List Call
calls = increases 90 ∷ allocs 30 ∷ frees 20 ∷ []

run-calls : run (init 5 10) calls ≡ some pools_raised
unfolding run init step try_alloc free increase
run-calls = refl

offline-conserves_example : Ends (offline pools (node 25)) (λ r.
    (r.0.app_token_rsvr + r.0.token_dynamic + r.0.token_free) % 2 ^ 64
    ≡ (30 + 80 + 50 + 25) % 2 ^ 64)
offline-conserves_example =
    offline-conserves pools (node 25) pools-IsBounded (omega arith) (omega arith) (omega arith)

run-init-IsBounded_example : IsBounded pools_raised
run-init-IsBounded_example =
    run-init-IsBounded 5 10 calls pools_raised (omega arith, (omega arith, (omega arith, tt)))
      run-calls

run-init-refuses_example :
    online pools_raised (node 0) ≡ returns (too_many_nodes, pools_raised, node 0)
run-init-refuses_example = run-init-refuses 5 10 calls pools_raised (node 0) (omega arith) run-calls
