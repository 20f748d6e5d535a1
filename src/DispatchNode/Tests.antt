-- ===== src/DispatchNode/Tests.antt =====
-- sysqos_dispatch_node.c: runs on a node with requests that wait.
use datastor_qos.Base.{
  ℕ, ◌+◌, ◌*◌, ◌%◌, ◌^◌, ◌≡◌, refl, inl, inr, Bool-cases, ◌==◌, if◌then◌else◌, false, List, [], ◌∷◌,
  arith, length, sum_of, pos,
}
use datastor_qos.Interface.{pending}
use datastor_qos.BaseNode.Shrink.{IsSmooth}
use datastor_qos.NodereqList.{cost}
use datastor_qos.NodereqList
use datastor_qos.TokenReqgrp.{Stat, Store}
use datastor_qos.DispatchNode.{
  DispatchNode, init, alloc_resource, free_resource, get_protocol, resource_increased,
}
use datastor_qos.DispatchNode.Serving.{AreDecided, Served, resource_increased-Served}
use datastor_qos.DispatchNode.Press.{Event, alloc, free, run, SameCosts, run-get_protocol}
use datastor_qos.DispatchNode.Fence.{free_resource_fenced}
use datastor_qos.TokenReqgrp.Counts.{waiting, failures}
use datastor_qos.TokenReqgrp.Whole.{IsStore}
use datastor_qos.DispatchNode.Liveness.{resource_changed-serves_all}
use datastor_qos.DispatchNode.{resource_changed}
use datastor_qos.DispatchNode.Alloc.{Alloced, alloc_resource-Alloced}

-- Undecided requests of cost 3, each the one member of its group.
abbrev store : Store
store = record {
  req = λ p. record {
    stat = Stat.init;
    node_id = 0;
    token_grp = p;
    rs = record { id = p; cost = 3 };
  };
  grp = λ g. record {
    members = g ∷ [];
    req_pending_nr = 1;
    req_total_nr = 1;
    pri = 0;
    err = pending;
    failed_exist = false;
  };
  next = 9;
}

-- A node with 8 tokens, some in use, and some requests that wait.
abbrev node : ℕ → List ℕ → ℕ → DispatchNode
node inuse waiting fence = record {
  base_node = record {
    token_inuse = inuse;
    token_quota = 8;
    token_quota_new = 8;
    respond_step = 5;
    version = pos 1;
  };
  lhead_nodereq = record { token_list = waiting; press = 3 * length waiting };
  fence_id = fence;
}

smooth : (inuse fence : ℕ) (waiting : List ℕ) → IsSmooth (node inuse waiting fence).base_node
smooth i f ws = record { word = omega arith; falling = omega arith; roomy = omega arith }

resource_increased_two :
    (resource_increased (node 1 (4 ∷ 5 ∷ 6 ∷ []) 2) store []).node.lhead_nodereq.token_list ≡ 6 ∷ []
unfolding resource_increased
resource_increased_two = refl

resource_increased-Served_example :
    Served
      (node 1 (4 ∷ 5 ∷ 6 ∷ []) 2)
      store
      []
      (resource_increased (node 1 (4 ∷ 5 ∷ 6 ∷ []) 2) store [])
resource_increased-Served_example = resource_increased-Served (node 1 (4 ∷ 5 ∷ 6 ∷ []) 2) store []

abbrev events : List Event
events = alloc 0 ∷ alloc 1 ∷ alloc 2 ∷ alloc 3 ∷ alloc 4 ∷ free 0 ∷ []

run-get_protocol_example :
    let (n, s') = run (init 2, store) events in
    ((get_protocol n).press ≡ sum_of (cost s') n.lhead_nodereq.token_list % 2 ^ 16)
    × SameCosts store s'
run-get_protocol_example = run-get_protocol store 2 events (λ p. omega arith)

free_resource_fenced_example :
    let s' = (alloc_resource (node 1 [] 2) store 4).2 in
    free_resource (node 0 [] 3) s' 4 [] ≡ record { node = node 0 [] 3; store = s'; groups = [] }
free_resource_fenced_example =
    free_resource_fenced (node 1 [] 2) (node 0 [] 3) store 4 [] (λ e. omega (arith, e))

-- What waits costs 70000, of which the message has 16 bits.
get_protocol_cut :
    (get_protocol
      (record (node 0 [] 2) { lhead_nodereq = record { token_list = []; press = 70000 } })).press
    ≡ 4464
unfolding get_protocol NodereqList.get_press
get_protocol_cut = refl

-- The first of two requests of a group, with all tokens in use.
abbrev pub pair : Store
pair = record {
  req = λ p. record {
    stat = Stat.init;
    node_id = 0;
    token_grp = 0;
    rs = record { id = 7; cost = 3 };
  };
  grp = λ g. record {
    members = if g == 0 then 1 ∷ 0 ∷ [] else [];
    req_pending_nr = 2;
    req_total_nr = 2;
    pri = 5;
    err = pending;
    failed_exist = false;
  };
  next = 2;
}

pub pair-IsStore : IsStore pair
unfolding waiting failures
pair-IsStore g = elim (Bool-cases (g == 0)) [
  | inl here ↦ rw here (
      inr (record {
        group = record {
          bound = 2;
          distinct = rw here (omega arith, (omega arith, tt));
          counted = rw here refl;
          small = rw here (omega arith);
          marked = λ _. rw here refl;
        };
        back = rw here (ground arith);
      }))
  | inr there ↦ rw there (inl refl)
]

alloc_resource-Alloced_example : Alloced pair 1 (alloc_resource (node 7 (0 ∷ []) 2) pair 1)
alloc_resource-Alloced_example =
    alloc_resource-Alloced (node 7 (0 ∷ []) 2) pair 1 pair-IsStore (inl refl) (inr (inl refl), tt)

-- Two requests of 3 tokens wait where 7 are in use, and 13 are announced.
resource_changed-serves_all_example :
    let r =
      (resource_changed
        (node 7 (1 ∷ 0 ∷ []) 2)
        pair
        (record { token_quota = 13; version = pos 2 })
        []).0 in
    (r.node.lhead_nodereq.token_list ≡ [])
    × AreDecided r.store (1 ∷ 0 ∷ [])
    × (r.node.base_node.token_inuse ≡ 7 + 6)
resource_changed-serves_all_example =
    resource_changed-serves_all (node 7 (1 ∷ 0 ∷ []) 2) pair
      (record { token_quota = 13; version = pos 2 }) (omega arith) (omega arith) (omega arith)
      (omega arith)
