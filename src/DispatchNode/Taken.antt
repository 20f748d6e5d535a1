-- ===== src/DispatchNode/Taken.antt =====
-- sysqos_dispatch_node.c: the requests that an operation of a node takes off its queue, and the others.
use datastor_qos.Base.{
  ℕ, ◌≡◌, refl, false, sym, ap, subst, ◌∙◌, inl, inr, List, [], ◌∷◌, ◌++◌, arith, ◌==◌, Bool-cases,
}
use datastor_qos.Interface.{Dispatch2App}
use datastor_qos.BaseNode
use datastor_qos.BaseNode.{BaseNode}
use datastor_qos.NodereqList
use datastor_qos.NodereqList.{cost}
use datastor_qos.TokenReqgrp.{is_init, Store, to_got, to_failed}
use datastor_qos.TokenReqgrp.Counts.{Has}
use datastor_qos.TokenReqgrp.Keeps.{Keeps, Keeps-refl}
use datastor_qos.DispatchNode.{
  DispatchNode, Outcome, resource_increased, resource_changed, hand_over, fail_all, pop_all,
  free_resource,
}
use datastor_qos.DispatchNode.Serving.{
  hand_all-Keeps, fail_all-Keeps, AreDecided, hand_all_decides, fail_all_decides, hand_all, node_of,
  resource_increased-Served,
}

-- A first part of the queue was taken off, and no other request was decided.
pub record Takes (n : DispatchNode) (s : Store) (r : Outcome) : Type 0 where
  pub taken : List ℕ
  pub split : n.lhead_nodereq.token_list ≡ taken ++ r.node.lhead_nodereq.token_list
  pub stat : (q : ℕ) → ¬ Has q taken → (r.store.req q).stat ≡ (s.req q).stat

-- What was taken off was decided.
pub record Hands (n : DispatchNode) (s : Store) (r : Outcome) : Type 0 where
  pub takes : Takes n s r
  pub keeps : Keeps s r.store
  pub decided : (q : ℕ) → Has q takes.taken → is_init (r.store.req q).stat ≡ false

pub decided_at :
    (s : Store) (ps : List ℕ) (q : ℕ) → AreDecided s ps → Has q ps → is_init (s.req q).stat ≡ false
decided_at s [] q d h = absurd h
decided_at s (p ∷ ps) q d (inl e) = subst (λ x. is_init (s.req x).stat ≡ false) e d.0
decided_at s (p ∷ ps) q d (inr h) = decided_at s ps q d.1 h

nothing_taken :
    (n n' : DispatchNode) (s : Store) (gs : List ℕ)
    → n'.lhead_nodereq ≡ n.lhead_nodereq
    → Hands n s (record { node = n'; store = s; groups = gs })
nothing_taken n n' s gs e = record {
  takes = record { taken = []; split = ap (λ l. l.token_list) (sym e); stat = λ q far. refl };
  keeps = Keeps-refl s;
  decided = λ q h. absurd h;
}

hand_over-stat :
    (s : Store) (gs : List ℕ) (p q : ℕ)
    → ¬ p ≡ q
    → ((hand_over s gs p).0.req q).stat ≡ (s.req q).stat
unfolding hand_over to_got
hand_over-stat s gs p q far = ground arith

hand_all-stat :
    (s : Store) (gs ps : List ℕ) (q : ℕ)
    → ¬ Has q ps
    → ((hand_all s gs ps).0.req q).stat ≡ (s.req q).stat
unfolding hand_all
hand_all-stat s gs [] q far = refl
hand_all-stat s gs (p ∷ ps) q far =
    let (s', gs') = hand_over s gs p in
    hand_all-stat s' gs' ps q (λ h. far (inr h)) ∙ hand_over-stat s gs p q (λ e. far (inl e))

to_failed-stat :
    (s : Store) (g p q : ℕ) → ¬ p ≡ q → ((to_failed s g p).1.req q).stat ≡ (s.req q).stat
unfolding to_failed
to_failed-stat s g p q far = ground arith

fail_all-stat :
    (s : Store) (ps gs : List ℕ) (q : ℕ)
    → ¬ Has q ps
    → ((fail_all s ps gs).0.req q).stat ≡ (s.req q).stat
unfolding fail_all
fail_all-stat s [] gs q far = refl
fail_all-stat s (p ∷ ps) gs q far =
    fail_all-stat (to_failed s (s.req p).token_grp p).1 ps _ q (λ h. far (inr h))
    ∙ to_failed-stat s (s.req p).token_grp p q (λ e. far (inl e))

resource_increased-Hands :
    (b : BaseNode) (n : DispatchNode) (s : Store) (gs : List ℕ)
    → Hands n s (resource_increased (record n { base_node = b }) s gs)
resource_increased-Hands b n s gs =
    let served = resource_increased-Served (record n { base_node = b }) s gs in
    record {
      takes = record {
        taken = served.served;
        split = served.split;
        stat = λ q far.
            ap (λ x. (x.0.req q).stat) served.handed ∙ hand_all-stat s gs served.served q far;
      };
      keeps = subst (λ x. Keeps s x.0) (sym served.handed) (hand_all-Keeps s gs served.served);
      decided = λ q h.
          ap (λ x. is_init (x.0.req q).stat) served.handed
          ∙ decided_at (hand_all s gs served.served).0 served.served q
              (hand_all_decides s gs served.served) h;
    }

pub resource_changed-Hands :
    (n : DispatchNode) (s : Store) (dta : Dispatch2App) → Hands n s (resource_changed n s dta []).0
unfolding resource_changed
resource_changed-Hands n s dta =
    let u = BaseNode.check_update n.base_node dta.token_quota dta.version in
    elim (Bool-cases u.increased) [
      | inl grew ↦ rw grew (resource_increased-Hands u.node n s [])
      | inr kept ↦ rw kept (nothing_taken n (record n { base_node = u.node }) s [] refl)
    ]

pub free_resource-Hands :
    (n : DispatchNode) (s : Store) (p : ℕ) (gs : List ℕ) → Hands n s (free_resource n s p gs)
unfolding free_resource
free_resource-Hands n s p gs = elim (Bool-cases ((s.req p).node_id == n.fence_id)) [
  | inl ours ↦ rw ours (resource_increased-Hands (BaseNode.free n.base_node (cost s p)) n s gs)
  | inr older ↦ rw older (nothing_taken n n s gs refl)
]

pub append-nil : (ps : List ℕ) → ps ≡ ps ++ []
append-nil [] = refl
append-nil (p ∷ ps) = ap (λ l. p ∷ l) (append-nil ps)

pop_all_at-Hands :
    (b : BaseNode) (ps : List ℕ) (w f : ℕ) (s : Store)
    → Hands (node_of b ps w f) s (pop_all (node_of b ps w f) s [])
unfolding pop_all NodereqList.pop_all
pop_all_at-Hands b [] w f s = record {
  takes = record { taken = []; split = refl; stat = fail_all-stat s [] [] };
  keeps = fail_all-Keeps s [] [];
  decided = λ q h. absurd h;
}
pop_all_at-Hands b (p ∷ ps) w f s = record {
  takes = record {
    taken = p ∷ ps;
    split = append-nil (p ∷ ps);
    stat = fail_all-stat s (p ∷ ps) [];
  };
  keeps = fail_all-Keeps s (p ∷ ps) [];
  decided =
      λ q h. decided_at (fail_all s (p ∷ ps) []).0 (p ∷ ps) q (fail_all_decides s (p ∷ ps) []) h;
}

pub pop_all-Hands : (n : DispatchNode) (s : Store) → Hands n s (pop_all n s [])
pop_all-Hands n s =
    pop_all_at-Hands n.base_node n.lhead_nodereq.token_list n.lhead_nodereq.press n.fence_id s
