-- ===== src/TokenReqgrp/Tests.antt =====
-- sysqos_token_reqgrp.c: a group of two requests.
use datastor_qos.Base.{◌≡◌, refl, inl, inr, true, false, List, [], ◌∷◌, arith}
use datastor_qos.Interface.{pending, failed_node, Resource}
use datastor_qos.MemoryCache
use datastor_qos.MemoryCache.{MemoryCache}
use datastor_qos.MemoryCache.Counting
use datastor_qos.TokenReqgrp.{init, Store, init_group}
use datastor_qos.TokenReqgrp.Counts.{waiting, failures}
use datastor_qos.TokenReqgrp.Once.{
  IsGroup, Verdict, deliver, deliver_all, AnsweredOnce, deliver_all-AnsweredOnce,
}
use mathlib.Core.List.{Permᴰ}
use datastor_qos.TokenReqgrp.Order.{deliver_all-perm}
use datastor_qos.TokenReqgrp.Init.{Made, init_group-Made}

-- Two undecided requests, at 0 and 1, of the group at 0.
abbrev store : Store
store = record {
  req = λ p. record { stat = init; node_id = 0; token_grp = 0; rs = record { id = p; cost = 3 } };
  grp = λ g. record {
    members = 1 ∷ 0 ∷ [];
    req_pending_nr = 2;
    req_total_nr = 2;
    pri = 0;
    err = pending;
    failed_exist = false;
  };
  next = 2;
}

store-IsGroup : IsGroup store 0
unfolding waiting failures
store-IsGroup = record {
  bound = 2;
  distinct = (omega arith, (omega arith, tt));
  counted = refl;
  small = omega arith;
  marked = λ _. refl;
}

-- The second request got its tokens twice, then the first failed.
abbrev verdicts : List Verdict
verdicts =
    record { rip = 1; good = true }
    ∷ record { rip = 1; good = true }
    ∷ record { rip = 0; good = false }
    ∷ []

deliver_all-verdicts : (deliver_all store 0 verdicts).0 ≡ failed_node ∷ []
unfolding deliver_all deliver
deliver_all-verdicts = refl

deliver_all-AnsweredOnce_example :
    AnsweredOnce store 0 (deliver_all store 0 verdicts).0 (deliver_all store 0 verdicts).1
deliver_all-AnsweredOnce_example =
    deliver_all-AnsweredOnce store 0 verdicts store-IsGroup
      (inl refl, (inl refl, (inr (inl refl), tt))) (unfold waiting in (omega arith))

-- Tokens for the second request and a failure of the first, in both orders.
abbrev one_each : List Verdict
one_each = record { rip = 1; good = true } ∷ record { rip = 0; good = false } ∷ []

abbrev one_each_reversed : List Verdict
one_each_reversed = record { rip = 0; good = false } ∷ record { rip = 1; good = true } ∷ []

deliver_all-perm_example : deliver_all store 0 one_each ≡ deliver_all store 0 one_each_reversed
deliver_all-perm_example =
    deliver_all-perm store 0 one_each one_each_reversed store-IsGroup
      ((inl refl, refl), ((inr (inl refl), refl), tt))
      (((λ same. omega (arith, same)), tt), (tt, tt)) (Permᴰ.swap refl refl)

abbrev resources : List Resource
resources = record { id = 4; cost = 2 } ∷ record { id = 5; cost = 1 } ∷ []

init_group-Made_example :
    Made (MemoryCache.init 32 8) 3 2 (init_group store (MemoryCache.init 32 8) 3 resources 0)
init_group-Made_example =
    init_group-Made store (MemoryCache.init 32 8) 3 resources 0
      (Counting.init-IsValid 32 8 (omega arith)) (omega arith)
