-- ===== src/ReqgrpManager/Puts.antt =====
-- sysqos_token_reqgrp_manager.c: putting a group back.
use datastor_qos.Base.{
  ℕ, ◌≡◌, refl, sym, subst, ◌∙◌, ◌≢◌, ◌⊎◌, inl, inr, none, some, List, [], ◌∷◌, ◌++◌, All, ◌==◌,
  Bool-cases, Option-cases,
}
use datastor_qos.Run.{returns, Ends, Ends-Returns}
use datastor_qos.HashTable
use datastor_qos.HashTable.{Keys}
use datastor_qos.TokenReqgrp.{Stat, init, got, failed, Store}
use datastor_qos.TokenReqgrp.Whole.{IsListed}
use datastor_qos.TokenReqgrp.Since.{Since}
use datastor_qos.BaseNode
use datastor_qos.NodereqList.{cost}
use datastor_qos.DispatchNode
use datastor_qos.DispatchNode.{DispatchNode, Outcome}
use datastor_qos.DispatchNode.Serving.{resource_increased-Served}
use datastor_qos.DispatchNode.Taken.{free_resource-Hands}
use datastor_qos.DispatchNode.Reports.{AreListed-later, free_resource-Since}
use datastor_qos.ReqgrpManager.{ReqgrpManager, put_outcome}
use datastor_qos.ReqgrpManager.Calls.{try_to_free, try_to_put_tokens}
use datastor_qos.ReqgrpManager.Nodes.{IsValid, item_of}
use datastor_qos.ReqgrpManager.Received.{found-item}
use datastor_qos.ReqgrpManager.Awaits.{StillWaits, StillWaits-trans, hand-StillWaits}
use datastor_qos.ReqgrpManager.Queued.{IsQueued, take-AreQueued}

-- No request of a list belongs to the group.
abbrev pub Away : Store → ℕ → List ℕ → Type 0
Away s g = All (λ q. (s.req q).token_grp ≢ g)

Away-append : (s : Store) (g : ℕ) (ps qs : List ℕ) → Away s g (ps ++ qs) → Away s g qs
Away-append s g [] qs h = h
Away-append s g (p ∷ ps) qs h = Away-append s g ps qs h.1

Away-later :
    (s s' : Store) (g : ℕ) (ps : List ℕ)
    → ((q : ℕ) → (s'.req q).token_grp ≡ (s.req q).token_grp)
    → Away s g ps
    → Away s' g ps
Away-later s s' g [] same h = tt
Away-later s s' g (p ∷ ps) same h = ((λ e. h.0 (sym (same p) ∙ e)), Away-later s s' g ps same h.1)

-- What is left in the queue waited there before.
free_resource-Away :
    (n : DispatchNode) (s : Store) (p g : ℕ) (gs : List ℕ)
    → Away s g n.lhead_nodereq.token_list
    → Away s g (DispatchNode.free_resource n s p gs).node.lhead_nodereq.token_list
unfolding DispatchNode.free_resource
free_resource-Away n s p g gs h = elim (Bool-cases ((s.req p).node_id == n.fence_id)) [
  | inl ours ↦
      let served =
        resource_increased-Served (record n { base_node = BaseNode.free n.base_node (cost s p) }) s
          gs in
      rw ours (Away-append s g served.served _ (subst (Away s g) served.split h))
  | inr older ↦ rw older h
]

pub got-cases : (x : Stat) → (x ≡ got) ⊎ ((x ≡ init) ⊎ (x ≡ failed))
got-cases init = inr (inl refl)
got-cases got = inl refl
got-cases failed = inr (inr refl)

module _ (keys : Keys) where
  -- A manager in the middle of giving tokens back, with the groups that were answered so far.
  pub record Putting (s₀ : Store) (g : ℕ) (m₀ : ReqgrpManager) (r : ReqgrpManager × List ℕ)
      : Type 0 where
    pub valid : IsValid keys r.0
    pub since : Since s₀ r.0.store r.1
    pub away : (p : ℕ) → Away r.0.store g (r.0.items p).lhead_nodereq.token_list
    pub resources : r.0.resource_cache ≡ m₀.resource_cache
    pub grps : r.0.token_grp_cache ≡ m₀.token_grp_cache
    pub counter : r.0.next_grp ≡ m₀.next_grp
    pub queued : IsQueued m₀ → IsQueued r.0
    pub still : StillWaits keys m₀ r.0

  pub free-unknown :
      (m : ReqgrpManager) (rip : ℕ) (gs : List ℕ)
      → HashTable.find keys m.app_node_table (m.store.req rip).rs.id ≡ returns none
      → try_to_free keys m rip gs ≡ returns (m, gs)
  unfolding try_to_free
  free-unknown m rip gs e = rw (e, try_to_free) refl

  pub free-known :
      (m : ReqgrpManager) (rip p : ℕ) (gs : List ℕ)
      → HashTable.find keys m.app_node_table (m.store.req rip).rs.id ≡ returns (some p)
      → let r = DispatchNode.free_resource (m.items p) m.store rip gs in
        try_to_free keys m rip gs ≡ returns (put_outcome m p r, r.groups)
  unfolding try_to_free
  free-known m rip p gs e = rw (e, try_to_free) refl

  pub freed-Putting :
      (s₀ : Store) (g : ℕ) (m₀ m : ReqgrpManager) (p rip : ℕ) (gs : List ℕ)
      → Putting s₀ g m₀ (m, gs)
      → let r = DispatchNode.free_resource (m.items p) m.store rip gs in
        Putting s₀ g m₀ (put_outcome m p r, r.groups)
  freed-Putting s₀ g m₀ m p rip gs c =
      let r = DispatchNode.free_resource (m.items p) m.store rip gs in
      let (since, listed) =
        free_resource-Since (m.items p) s₀ m.store rip gs c.since (c.valid.waiting p) in
      let same : (q : ℕ) → (r.store.req q).token_grp ≡ (m.store.req q).token_grp =
        λ q. since.keeps.grp q ∙ sym (c.since.keeps.grp q) in
      let stays : (q : ℕ) → IsListed m.store q → IsListed r.store q = λ q h.
        rw
          (
            same q,
            since.members (m.store.req q).token_grp
                ∙ sym (c.since.members (m.store.req q).token_grp),
          )
          h in
      record {
        valid = record {
          table = c.valid.table;
          cache = c.valid.cache;
          level = c.valid.level;
          limit = c.valid.limit;
          groups = since.store;
          waiting = λ q. elim (Bool-cases (q == p)) [
            | inl here ↦ rw here listed
            | inr there ↦ rw there (
                AreListed-later m.store r.store (m.items q).lhead_nodereq.token_list stays
                  (c.valid.waiting q))
          ];
        };
        since = since;
        away = λ q. elim (Bool-cases (q == p)) [
          | inl here ↦ rw here (
              Away-later m.store r.store g _ same
                (free_resource-Away (m.items p) m.store rip g gs (c.away p)))
          | inr there ↦ rw there (Away-later m.store r.store g _ same (c.away q))
        ];
        resources = c.resources;
        grps = c.grps;
        counter = c.counter;
        queued = λ q.
            take-AreQueued m.store m.items p r
              (free_resource-Hands (m.items p) m.store rip gs).takes (c.queued q);
        still =
            StillWaits-trans keys (free_resource-Hands (m.items p) m.store rip gs).keeps c.still
              (hand-StillWaits keys m p r (free_resource-Hands (m.items p) m.store rip gs));
      }

  free-Putting :
      (s₀ : Store) (g : ℕ) (m₀ m : ReqgrpManager) (rip : ℕ) (gs : List ℕ)
      → Putting s₀ g m₀ (m, gs)
      → Ends (try_to_free keys m rip gs) (Putting s₀ g m₀)
  free-Putting s₀ g m₀ m rip gs c =
      let id = (m.store.req rip).rs.id in
      elim (Option-cases (item_of keys m id)) [
        | inl e ↦ rw (free-unknown m rip gs (found-item keys m id none c.valid e)) c
        | inr (p, e) ↦
            rw (free-known m rip p gs (found-item keys m id (some p) c.valid e))
              (freed-Putting s₀ g m₀ m p rip gs c)
      ]

  pub put-got :
      (m : ReqgrpManager) (p : ℕ) (ps gs : List ℕ) (r : ReqgrpManager × List ℕ)
      → (m.store.req p).stat ≡ got
      → try_to_free keys m p gs ≡ returns r
      → try_to_put_tokens keys m (p ∷ ps) gs ≡ try_to_put_tokens keys r.0 ps r.1
  unfolding try_to_put_tokens
  put-got m p ps gs r e f = rw (e, f, try_to_put_tokens) refl

  pub put-other :
      (m : ReqgrpManager) (p : ℕ) (ps gs : List ℕ)
      → ((m.store.req p).stat ≡ init) ⊎ ((m.store.req p).stat ≡ failed)
      → try_to_put_tokens keys m (p ∷ ps) gs ≡ try_to_put_tokens keys m ps gs
  unfolding try_to_put_tokens
  put-other m p ps gs (inl e) = rw (e, try_to_put_tokens) refl
  put-other m p ps gs (inr e) = rw (e, try_to_put_tokens) refl

  pub put-Putting :
      (s₀ : Store) (g : ℕ) (m₀ m : ReqgrpManager) (ps gs : List ℕ)
      → Putting s₀ g m₀ (m, gs)
      → Ends (try_to_put_tokens keys m ps gs) (Putting s₀ g m₀)
  put-Putting s₀ g m₀ m [] gs c = unfold try_to_put_tokens in c
  put-Putting s₀ g m₀ m (p ∷ ps) gs c = elim (got-cases (m.store.req p).stat) [
    | inl e ↦
        let (r, f, c') =
          Ends-Returns (try_to_free keys m p gs) (Putting s₀ g m₀)
            (free-Putting s₀ g m₀ m p gs c) in
        rw (put-got m p ps gs r e f) (put-Putting s₀ g m₀ r.0 ps r.1 c')
    | inr e ↦ rw (put-other m p ps gs e) (put-Putting s₀ g m₀ m ps gs c)
  ]
