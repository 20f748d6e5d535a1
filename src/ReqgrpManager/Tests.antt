-- ===== src/ReqgrpManager/Tests.antt =====
-- sysqos_token_reqgrp_manager.c: runs of a manager that knows one dispatcher.
use datastor_qos.Base.{
  false, Bool-cases, ◌==◌, if◌then◌else◌, eq_of_==, sym, subst, ℕ, ◌*◌, refl, inl, inr, List, [],
  ◌∷◌, arith, length, pos,
}
use datastor_qos.Interface.{QosError, pending}
use datastor_qos.TokenReqgrp.{Store, init, got}
use datastor_qos.TokenReqgrp.Counts.{waiting, failures}
use datastor_qos.TokenReqgrp.Whole.{IsStore, IsLive}
use datastor_qos.Run.{Ends}
use datastor_qos.HashTable.Tests.{remainders, table, table-IsValid}
use datastor_qos.BaseNode
use datastor_qos.DispatchNode.Tests.{pair, pair-IsStore}
use datastor_qos.ReqgrpManager.{ReqgrpManager, node_online, node_offline, rcvd}
use datastor_qos.ReqgrpManager.Calls.{check_node_in, put_token_grp}
use datastor_qos.ReqgrpManager.Nodes.{IsValid, ComesOnline, node_online-ComesOnline}
use datastor_qos.ReqgrpManager.Leaving.{GoesOffline, node_offline-GoesOffline}
use datastor_qos.ReqgrpManager.Messages.{Receives, rcvd-Receives}
use datastor_qos.ReqgrpManager.ComeIn.{ComeIn, check_node_in-ComeIn}
use datastor_qos.ReqgrpManager.Calls.{ask_tokens}
use datastor_qos.ReqgrpManager.Refusals.{Asks, ask_tokens-Asks}
use datastor_qos.ReqgrpManager.PutsBack.{PutsBack, put_token_grp-PutsBack}

-- Group 0 has its tokens, group 1 waits for some.
abbrev served : Store
served = record {
  req = λ p. record {
    stat = if p == 2 then init else got;
    node_id = 0;
    token_grp = if p == 2 then 1 else 0;
    rs = record { id = 7; cost = 2 };
  };
  grp = λ g. record {
    members = if g == 0 then 1 ∷ 0 ∷ [] else if g == 1 then 2 ∷ [] else [];
    req_pending_nr = if g == 1 then 1 else 0;
    req_total_nr = 2;
    pri = 5;
    err = if g == 1 then pending else QosError.ok;
    failed_exist = false;
  };
  next = 3;
}

first-IsLive : IsLive served 0
unfolding waiting failures
first-IsLive = record {
  group = record {
    bound = 2;
    distinct = (omega arith, (omega arith, tt));
    counted = refl;
    small = omega arith;
    marked = λ _. refl;
  };
  back = (refl, (refl, tt));
}

second-IsLive : IsLive served 1
unfolding waiting failures
second-IsLive = record {
  group = record {
    bound = 3;
    distinct = (omega arith, tt);
    counted = refl;
    small = omega arith;
    marked = λ _. refl;
  };
  back = (refl, tt);
}

served-IsStore : IsStore served
served-IsStore g = elim (Bool-cases (g == 0)) [
  | inl zeroth ↦ inr (subst (IsLive served) (sym (eq_of_== g 0 zeroth)) first-IsLive)
  | inr other ↦ elim (Bool-cases (g == 1)) [
    | inl next ↦ inr (subst (IsLive served) (sym (eq_of_== g 1 next)) second-IsLive)
    | inr none_of ↦ inl (rw (other, none_of) refl)
  ]
]

-- A manager whose items have 4 tokens and some requests that wait.
abbrev pub manager : List ℕ → ReqgrpManager
manager queue = record {
  store = pair;
  next_grp = 1;
  items = λ p. record {
    base_node = record BaseNode.init { token_quota = 4; token_quota_new = 4 };
    lhead_nodereq = record { token_list = queue; press = 3 * length queue };
    fence_id = 0;
  };
  next_item = 100;
  token_grp_cache = record { unit_size = 64; cache_unit = 4; alloc_cnt = 1; free_cnt = 0 };
  resource_cache = record { unit_size = 64; cache_unit = 4; alloc_cnt = 2; free_cnt = 0 };
  app_node_table = table 4;
  manager_item_cache = record { unit_size = 64; cache_unit = 4; alloc_cnt = 1; free_cnt = 0 };
  version = 1;
}

waits-IsValid : IsValid remainders (manager (1 ∷ []))
waits-IsValid = record {
  table = table-IsValid 4 (omega arith) (omega arith);
  cache = ground arith;
  level = ground arith;
  limit = refl;
  groups = pair-IsStore;
  waiting = λ p. (inl refl, tt);
}

pub idle-IsValid : IsValid remainders (manager [])
idle-IsValid = record {
  table = table-IsValid 4 (omega arith) (omega arith);
  cache = ground arith;
  level = ground arith;
  limit = refl;
  groups = pair-IsStore;
  waiting = λ p. tt;
}

node_online-ComesOnline_example :
    Ends (node_online remainders (manager []) 8) (ComesOnline remainders (manager []) 8)
node_online-ComesOnline_example = node_online-ComesOnline remainders (manager []) 8 idle-IsValid

node_offline-GoesOffline_example :
    Ends
      (node_offline remainders (manager (1 ∷ [])) 7)
      (GoesOffline remainders (manager (1 ∷ [])) 7)
node_offline-GoesOffline_example =
    node_offline-GoesOffline remainders (manager (1 ∷ [])) 7 waits-IsValid

rcvd-Receives_example :
    Ends
      (rcvd remainders (manager (1 ∷ [])) 7 (record { token_quota = 9; version = pos 1 }))
      (Receives remainders (manager (1 ∷ [])) 7 (record { token_quota = 9; version = pos 1 }))
rcvd-Receives_example =
    rcvd-Receives remainders (manager (1 ∷ [])) 7 (record { token_quota = 9; version = pos 1 })
      waits-IsValid

check_node_in-ComeIn_example :
    Ends
      (check_node_in remainders
        (manager [])
        (record { id = 8; cost = 2 } ∷ record { id = 7; cost = 3 } ∷ []))
      (ComeIn remainders
        (manager [])
        (record { id = 8; cost = 2 } ∷ record { id = 7; cost = 3 } ∷ []))
check_node_in-ComeIn_example =
    check_node_in-ComeIn remainders (manager [])
      (record { id = 8; cost = 2 } ∷ record { id = 7; cost = 3 } ∷ []) idle-IsValid

ask_tokens-Asks_example :
    Ends (ask_tokens remainders (manager []) 0) (Asks remainders (manager []) 0)
ask_tokens-Asks_example =
    ask_tokens-Asks remainders (manager []) 0 2 1 (0 ∷ []) idle-IsValid refl
      (omega arith, (omega arith, tt)) ((inl refl, refl, refl), ((inr (inl refl), refl, refl), tt))
      (λ x. tt) (ground arith) (ground arith) (ground arith) (ground arith)

-- The tokens of group 0 come back, and those of group 1 are found.
abbrev serving : ReqgrpManager
serving = record (manager (2 ∷ [])) {
  store = served;
  items = λ p. record {
    base_node = record BaseNode.init { token_inuse = 4; token_quota = 4; token_quota_new = 4 };
    lhead_nodereq = record { token_list = 2 ∷ []; press = 2 };
    fence_id = 0;
  };
}

serving-IsValid : IsValid remainders serving
serving-IsValid = record {
  table = table-IsValid 4 (omega arith) (omega arith);
  cache = ground arith;
  level = ground arith;
  limit = refl;
  groups = served-IsStore;
  waiting = λ p. (inl refl, tt);
}

put_token_grp-PutsBack_example :
    Ends (put_token_grp remainders serving 0 []) (PutsBack remainders serving 0)
put_token_grp-PutsBack_example =
    put_token_grp-PutsBack remainders serving 0 serving-IsValid (ground arith) (ground arith)
      (ground arith) (ground arith) (λ p. ((λ same. omega (arith, same)), tt))
