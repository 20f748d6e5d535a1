-- ===== src/ReqgrpManager/Tries.antt =====
-- sysqos_token_reqgrp_manager.c: one request of a group asks for its tokens.
use datastor_qos.Base.{
  ℕ, ◌≡◌, refl, subst, ◌≢◌, inl, inr, ◌⊎◌, false, none, some, ◌==◌, ==_refl, eq_of_==, Bool-cases,
  Option-cases, arith,
}
use datastor_qos.Interface.{QosError}
use datastor_qos.Run.{returns, Ends}
use datastor_qos.HashTable
use datastor_qos.HashTable.{Keys}
use datastor_qos.TokenReqgrp.Counts.{Has}
use datastor_qos.TokenReqgrp.Keeps.{to_failed_decides}
use datastor_qos.TokenReqgrp.{is_init, Store, to_failed}
use datastor_qos.TokenReqgrp.Whole.{IsListed}
use datastor_qos.TokenReqgrp.Since.{Since, Since-IsListed}
use datastor_qos.DispatchNode
use datastor_qos.DispatchNode.{DispatchNode, is_final}
use datastor_qos.DispatchNode.Reports.{AreListed-later}
use datastor_qos.DispatchNode.Alloc.{
  Queues, alloc_resource-Queues, Answers, Alloced, answered, alloc_resource-Alloced,
  to_failed-Alloced,
}
use datastor_qos.ReqgrpManager.{ReqgrpManager, put_item}
use datastor_qos.ReqgrpManager.Calls.{try_to_alloc}
use datastor_qos.ReqgrpManager.Nodes.{IsValid, item_of}
use datastor_qos.ReqgrpManager.Received.{found-item}

module _ (keys : Keys) where
  -- What one attempt did to the manager.
  pub record Tries (m : ReqgrpManager) (p : ℕ) (r : QosError × ReqgrpManager) : Type 0 where
    pub valid : IsValid keys r.1
    pub since : Since m.store r.1.store (answered m.store p r.0)
    pub others : (q : ℕ) → q ≢ p → (r.1.store.req q).stat ≡ (m.store.req q).stat
    pub outcome : Answers m.store p r.0 r.1.store
    pub queues : (x : ℕ) → Queues (m.items x) m.store p (r.1.items x, r.1.store)
    pub resources : r.1.resource_cache ≡ m.resource_cache
    pub grps : r.1.token_grp_cache ≡ m.token_grp_cache
    pub counter : r.1.next_grp ≡ m.next_grp
    pub table : r.1.app_node_table ≡ m.app_node_table
    pub items : r.1.next_item ≡ m.next_item
    pub placed :
        (is_init (r.1.store.req p).stat ≡ false)
        ⊎ ((x : ℕ) × (id : ℕ) × (item_of keys m id ≡ some x)
            × Has p (r.1.items x).lhead_nodereq.token_list)
    pub touched : (x : ℕ) × ((y : ℕ) → y ≢ x → r.1.items y ≡ m.items y)

  Alloced-Tries :
      (m : ReqgrpManager) (p q id : ℕ) (r : QosError × DispatchNode × Store)
      → IsValid keys m
      → item_of keys m id ≡ some q
      → Alloced m.store p r
      → Queues (m.items q) m.store p (r.1, r.2)
      → Tries m p (r.0, put_item m q r.1 r.2)
  Alloced-Tries m p q id r v known a queue = record {
    valid = record {
      table = v.table;
      cache = v.cache;
      level = v.level;
      limit = v.limit;
      groups = a.since.store;
      waiting = λ x. elim (Bool-cases (x == q)) [
        | inl here ↦ rw here a.waits
        | inr there ↦ rw there (
            AreListed-later m.store r.2 (m.items x).lhead_nodereq.token_list
              (λ y. Since-IsListed m.store r.2 (answered m.store p r.0) y a.since) (v.waiting x))
      ];
    };
    since = a.since;
    others = a.others;
    outcome = a.outcome;
    queues = λ x. elim (Bool-cases (x == q)) [
      | inl here ↦ rw (eq_of_== x q here, ==_refl q) queue
      | inr there ↦ rw there (inl refl)
    ];
    resources = refl;
    grps = refl;
    counter = refl;
    table = refl;
    items = refl;
    placed = elim a.placed [
      | inl decided ↦ inl decided
      | inr there ↦ inr (q, id, known, rw (==_refl q) there)
    ];
    touched = (q, λ y far. ground arith);
  }

  decided-Tries :
      (m : ReqgrpManager) (p : ℕ) (e : QosError) (s : Store)
      → IsValid keys m
      → is_init (s.req p).stat ≡ false
      → Alloced m.store p (e, m.items 0, s)
      → Tries m p (e, record m { store = s })
  decided-Tries m p e s v decided a = record {
    valid = record {
      table = v.table;
      cache = v.cache;
      level = v.level;
      limit = v.limit;
      groups = a.since.store;
      waiting = λ x.
          AreListed-later m.store s (m.items x).lhead_nodereq.token_list
            (λ y. Since-IsListed m.store s (answered m.store p e) y a.since) (v.waiting x);
    };
    since = a.since;
    others = a.others;
    outcome = a.outcome;
    queues = λ x. inl refl;
    resources = refl;
    grps = refl;
    counter = refl;
    table = refl;
    items = refl;
    placed = inl decided;
    touched = (0, λ y far. refl);
  }

  try-unknown :
      (m : ReqgrpManager) (g p : ℕ)
      → HashTable.find keys m.app_node_table (m.store.req p).rs.id ≡ returns none
      → let (err, s) = to_failed m.store g p in
        try_to_alloc keys m g p ≡ returns (err, record m { store = s })
  unfolding try_to_alloc
  try-unknown m g p e = rw (e, try_to_alloc) refl

  try-known :
      (m : ReqgrpManager) (g p q : ℕ)
      → HashTable.find keys m.app_node_table (m.store.req p).rs.id ≡ returns (some q)
      → let (err, n, s) = DispatchNode.alloc_resource (m.items q) m.store p in
        try_to_alloc keys m g p ≡ returns (err, put_item m q n s)
  unfolding try_to_alloc
  try-known m g p q e = rw (e, try_to_alloc) refl

  pub try_to_alloc-Tries :
      (m : ReqgrpManager) (g p : ℕ)
      → IsValid keys m
      → IsListed m.store p
      → (m.store.req p).token_grp ≡ g
      → Ends (try_to_alloc keys m g p) (Tries m p)
  try_to_alloc-Tries m g p v one here =
      let id = (m.store.req p).rs.id in
      elim (Option-cases (item_of keys m id)) [
        | inl e ↦ rw (try-unknown m g p (found-item keys m id none v e)) (
            subst
              (λ x.
                Tries m p
                  ((to_failed m.store x p).0, record m { store = (to_failed m.store x p).1 }))
              here
              (decided-Tries m p (to_failed m.store (m.store.req p).token_grp p).0
                (to_failed m.store (m.store.req p).token_grp p).1 v
                (to_failed_decides m.store (m.store.req p).token_grp p)
                (to_failed-Alloced (m.items 0) m.store p v.groups one (v.waiting 0))))
        | inr (q, e) ↦ rw (try-known m g p q (found-item keys m id (some q) v e)) (
            Alloced-Tries m p q id (DispatchNode.alloc_resource (m.items q) m.store p) v e
              (alloc_resource-Alloced (m.items q) m.store p v.groups one (v.waiting q))
              (alloc_resource-Queues (m.items q) m.store p))
      ]
