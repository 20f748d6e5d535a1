-- ===== src/DispatchNode/Reports.antt =====
-- sysqos_dispatch_node.c: the groups that the operations of a node report.
use datastor_qos.Base.{
  ℕ, zero, suc, ◌≡◌, ◌≢◌, inl, inr, true, false, List, [], ◌∷◌, arith, length, All, ◌==◌,
  if◌then◌else◌, Bool-cases, sub64,
}
use datastor_qos.Interface.{QosError, pending, is_error, Dispatch2App}
use datastor_qos.BaseNode
use datastor_qos.BaseNode.{BaseNode}
use datastor_qos.NodereqList
use datastor_qos.NodereqList.{NodereqList, cost}
use datastor_qos.TokenReqgrp.{Store, to_got, to_failed}
use datastor_qos.TokenReqgrp.Whole.{
  IsStore, IsListed, to_got-IsDecision, to_failed-IsDecision, decision-IsListed, IsDecision,
}
use datastor_qos.TokenReqgrp.Since.{Since, Since-refl, decision-Since, report-Since}
use datastor_qos.DispatchNode.{
  DispatchNode, Outcome, serve, resource_increased, resource_changed, hand_over, fail_all, pop_all,
  free_resource, is_final, is_failed_node, granted,
}
use datastor_qos.DispatchNode.Serving.{node_of}

-- The requests of a list are in the lists of their groups.
abbrev pub AreListed : Store → List ℕ → Type 0
AreListed s = All (IsListed s)

pub AreListed-later :
    (s s' : Store) (ps : List ℕ)
    → ((q : ℕ) → IsListed s q → IsListed s' q)
    → AreListed s ps
    → AreListed s' ps
AreListed-later s s' [] f h = tt
AreListed-later s s' (p ∷ ps) f h = (f p h.0, AreListed-later s s' ps f h.1)

pub is_final-ne-pending : (e : QosError) → is_final e ≡ true → e ≢ pending
is_final-ne-pending e h same = ground arith

is_failed_node-ne-pending : (e : QosError) → is_failed_node e ≡ true → e ≢ pending
is_failed_node-ne-pending e h same = ground arith

pub unfinal-pending :
    (s : Store) (p : ℕ) (e : QosError) (s' : Store)
    → IsDecision s p e s'
    → is_final e ≡ false
    → e ≡ pending
unfinal-pending s p e s' d waits = elim d.decides.answered [
  | inl (same, _, _) ↦ same
  | inr (_, _, _, inl (fine, _)) ↦ ground arith
  | inr (_, _, _, inr failed) ↦ ground arith
]

to_failed-pending :
    (s : Store) (g p : ℕ)
    → is_failed_node (to_failed s g p).0 ≡ false
    → (to_failed s g p).0 ≡ pending
unfolding to_failed
to_failed-pending s g p waits = ground arith

hand_over-Since :
    (s₀ s : Store) (gs : List ℕ) (p : ℕ)
    → Since s₀ s gs
    → IsListed s p
    → Since s₀ (hand_over s gs p).0 (hand_over s gs p).1
unfolding hand_over
hand_over-Since s₀ s gs p c h =
    let d = to_got-IsDecision s p c.store h in
    let (e, s') = to_got s (s.req p).token_grp p in
    elim (Bool-cases (is_final e)) [
      | inl final ↦ rw final (report-Since s₀ s s' gs p e c h d (is_final-ne-pending e final))
      | inr waits ↦
          rw waits (decision-Since s₀ s s' gs p e c h d (unfinal-pending s p e s' d waits))
    ]

hand_over-IsListed :
    (s : Store) (gs : List ℕ) (p : ℕ)
    → IsStore s
    → IsListed s p
    → (q : ℕ) → IsListed s q
    → IsListed (hand_over s gs p).0 q
unfolding hand_over
hand_over-IsListed s gs p v h =
    decision-IsListed s (to_got s (s.req p).token_grp p).1 p (to_got s (s.req p).token_grp p).0 v h
      (to_got-IsDecision s p v h)

serve-Since :
    (fuel : ℕ) (b : BaseNode) (q : List ℕ) (w f : ℕ) (s₀ s : Store) (gs : List ℕ)
    → Since s₀ s gs
    → AreListed s q
    → let r = serve fuel (node_of b q w f) s gs in
      Since s₀ r.store r.groups × AreListed r.store r.node.lhead_nodereq.token_list
unfolding serve
serve-Since zero b q w f s₀ s gs c h = (c, h)
serve-Since (suc k) b [] w f s₀ s gs c h = (c, h)
serve-Since (suc k) b (p ∷ ps) w f s₀ s gs c h =
    let b' = (BaseNode.try_alloc b (cost s p)).1 in
    let (s', gs') = hand_over s gs p in
    let (c', h') =
      serve-Since k b' ps (sub64 w (cost s p)) f s₀ s' gs' (hand_over-Since s₀ s gs p c h.0)
        (AreListed-later s s' ps (hand_over-IsListed s gs p c.store h.0) h.1) in
    elim (Bool-cases (is_error (BaseNode.try_alloc b (cost s p)).0)) [
      | inl refused ↦ rw refused (c, h)
      | inr granted ↦ rw granted (c', h')
    ]

-- What an operation of a node did to the requests and groups, and the requests that it left waiting.
abbrev pub Reports : Store → Outcome → Type 0
Reports s r = Since s r.store r.groups × AreListed r.store r.node.lhead_nodereq.token_list

increased-Reports :
    (b : BaseNode) (n : DispatchNode) (s : Store)
    → IsStore s
    → AreListed s n.lhead_nodereq.token_list
    → Reports s (resource_increased (record n { base_node = b }) s [])
unfolding resource_increased
increased-Reports b n s v h =
    serve-Since (length n.lhead_nodereq.token_list) b n.lhead_nodereq.token_list
      n.lhead_nodereq.press n.fence_id s s [] (Since-refl s v) h

pub resource_changed-Reports :
    (n : DispatchNode) (s : Store) (dta : Dispatch2App)
    → IsStore s
    → AreListed s n.lhead_nodereq.token_list
    → Reports s (resource_changed n s dta []).0
unfolding resource_changed
resource_changed-Reports n s dta v h =
    let u = BaseNode.check_update n.base_node dta.token_quota dta.version in
    elim (Bool-cases u.increased) [
      | inl grew ↦ rw grew (increased-Reports u.node n s v h)
      | inr kept ↦ rw kept (Since-refl s v, h)
    ]

pub free_resource-Since :
    (n : DispatchNode) (s₀ s : Store) (p : ℕ) (gs : List ℕ)
    → Since s₀ s gs
    → AreListed s n.lhead_nodereq.token_list
    → let r = free_resource n s p gs in
      Since s₀ r.store r.groups × AreListed r.store r.node.lhead_nodereq.token_list
unfolding free_resource resource_increased
free_resource-Since n s₀ s p gs c h = elim (Bool-cases ((s.req p).node_id == n.fence_id)) [
  | inl ours ↦ rw ours (
      serve-Since (length n.lhead_nodereq.token_list) (BaseNode.free n.base_node (cost s p))
        n.lhead_nodereq.token_list n.lhead_nodereq.press n.fence_id s₀ s gs c h)
  | inr older ↦ rw older (c, h)
]

fail_one-Since :
    (s₀ s : Store) (gs : List ℕ) (p : ℕ)
    → Since s₀ s gs
    → IsListed s p
    → let (e, s') = to_failed s (s.req p).token_grp p in
      Since s₀ s' (if is_failed_node e then (s.req p).token_grp ∷ gs else gs)
fail_one-Since s₀ s gs p c h =
    let d = to_failed-IsDecision s p c.store h in
    let (e, s') = to_failed s (s.req p).token_grp p in
    elim (Bool-cases (is_failed_node e)) [
      | inl final ↦ rw final (report-Since s₀ s s' gs p e c h d (is_failed_node-ne-pending e final))
      | inr waits ↦
          rw waits
            (decision-Since s₀ s s' gs p e c h d (to_failed-pending s (s.req p).token_grp p waits))
    ]

fail_all-Since :
    (s₀ s : Store) (ps gs : List ℕ)
    → Since s₀ s gs
    → AreListed s ps
    → Since s₀ (fail_all s ps gs).0 (fail_all s ps gs).1
unfolding fail_all
fail_all-Since s₀ s [] gs c h = c
fail_all-Since s₀ s (p ∷ ps) gs c h =
    let d = to_failed-IsDecision s p c.store h.0 in
    let (e, s') = to_failed s (s.req p).token_grp p in
    fail_all-Since s₀ s' ps (if is_failed_node e then (s.req p).token_grp ∷ gs else gs)
      (fail_one-Since s₀ s gs p c h.0)
      (AreListed-later s s' ps (decision-IsListed s s' p e c.store h.0 d) h.1)

pop_all_at-Reports :
    (b : BaseNode) (q : List ℕ) (w f : ℕ) (s : Store)
    → IsStore s
    → AreListed s q
    → Reports s (pop_all (node_of b q w f) s [])
unfolding pop_all NodereqList.pop_all
pop_all_at-Reports b [] w f s v h = (fail_all-Since s s [] [] (Since-refl s v) tt, tt)
pop_all_at-Reports b (p ∷ ps) w f s v h = (fail_all-Since s s (p ∷ ps) [] (Since-refl s v) h, tt)

pub pop_all-Reports :
    (n : DispatchNode) (s : Store)
    → IsStore s
    → AreListed s n.lhead_nodereq.token_list
    → Reports s (pop_all n s [])
pop_all-Reports n s v h =
    pop_all_at-Reports n.base_node n.lhead_nodereq.token_list n.lhead_nodereq.press n.fence_id s v h
