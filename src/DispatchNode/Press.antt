-- ===== src/DispatchNode/Press.antt =====
-- sysqos_dispatch_node.c: the pressure that a node reports.
use datastor_qos.Base.{
  ℕ, zero, suc, ◌%◌, ◌^◌, ◌≡◌, refl, ap, ◌∙◌, inl, inr, List, [], ◌∷◌, arith, length, sum_of,
  sum_of-append, ◌==◌, Bool-cases, IsWord, sub64,
}
use datastor_qos.Interface.{is_error, Dispatch2App}
use datastor_qos.BaseNode
use datastor_qos.BaseNode.{BaseNode}
use datastor_qos.NodereqList
use datastor_qos.NodereqList.{NodereqList, cost}
use datastor_qos.TokenReqgrp.{Store, set_req, to_got}
use datastor_qos.DispatchNode.{
  DispatchNode, serve, resource_increased, resource_changed, hand_over, fail_all, pop_all, reset,
  alloc_resource, free_resource, get_protocol, init,
}
use datastor_qos.TokenReqgrp.Keeps.{Keeps, to_got-Keeps}
use datastor_qos.DispatchNode.Serving.{fail_all-Keeps, hand_over-Keeps, node_of}

-- The pressure is the sum of the costs on the list, as a word.
abbrev pub IsPress : Store → NodereqList → Type 0
IsPress s l = l.press ≡ sum_of (cost s) l.token_list % 2 ^ 64

-- Costs are words, as their type says.
abbrev pub AreWords : Store → Type 0
AreWords s = (p : ℕ) → IsWord (cost s p)

-- What every operation of a node keeps: no cost changes, and the pressure stays right.
abbrev pub SameCosts : Store → Store → Type 0
SameCosts s s' = (p : ℕ) → cost s' p ≡ cost s p

sum_of-same :
    (s s' : Store) (ps : List ℕ) → SameCosts s s' → sum_of (cost s') ps ≡ sum_of (cost s) ps
sum_of-same s s' [] k = refl
sum_of-same s s' (p ∷ ps) k = omega (arith, k p, sum_of-same s s' ps k)

Keeps-same : (s s' : Store) → Keeps s s' → SameCosts s s'
Keeps-same s s' k p = ap (λ r. r.cost) (k.rs p)

serve-IsPress :
    (fuel : ℕ) (b : BaseNode) (q : List ℕ) (w f : ℕ) (s : Store) (gs : List ℕ)
    → AreWords s
    → IsPress s (node_of b q w f).lhead_nodereq
    → let r = serve fuel (node_of b q w f) s gs in
      SameCosts s r.store × IsPress r.store r.node.lhead_nodereq
unfolding serve
serve-IsPress zero b q w f s gs words e = (λ p. refl, e)
serve-IsPress (suc k) b [] w f s gs words e = (λ p. refl, e)
serve-IsPress (suc k) b (p ∷ ps) w f s gs words e =
    let b' = (BaseNode.try_alloc b (cost s p)).1 in
    let w' = sub64 w (cost s p) in
    let (s', gs') = hand_over s gs p in
    let same = Keeps-same s s' (hand_over-Keeps s gs p) in
    let e' : IsPress s' (node_of b' ps w' f).lhead_nodereq =
      omega (arith, e, words p, sum_of-same s s' ps same) in
    let (same', press) =
      serve-IsPress k b' ps w' f s' gs' (λ x. omega (arith, same x, words x)) e' in
    elim (Bool-cases (is_error (BaseNode.try_alloc b (cost s p)).0)) [
      | inl refused ↦ rw refused (λ x. refl, e)
      | inr granted ↦ rw granted (λ x. same' x ∙ same x, press)
    ]

-- The operations that a manager calls on a node, on its requests.
pub data Event : Type 0 where
  alloc free : ℕ → Event
  changed : Dispatch2App → Event
  fail resets : Event

-- One operation, and many in turn; the node and the store after them.
unfoldable pub step : DispatchNode × Store → Event → DispatchNode × Store
unfolding alloc_resource free_resource resource_changed pop_all reset
step (n, s) (alloc p) = ((alloc_resource n s p).1, (alloc_resource n s p).2)
step (n, s) (free p) = ((free_resource n s p []).node, (free_resource n s p []).store)
step (n, s) (changed dta) =
    ((resource_changed n s dta []).0.node, (resource_changed n s dta []).0.store)
step (n, s) fail = ((pop_all n s []).node, (pop_all n s []).store)
step (n, s) resets = (reset n, s)

unfoldable pub run : DispatchNode × Store → List Event → DispatchNode × Store
unfolding step
run x [] = x
run x (e ∷ es) = run (step x e) es

abbrev Holds : Store → DispatchNode × Store → Type 0
Holds s (n', s') = SameCosts s s' × IsPress s' n'.lhead_nodereq

increased-Holds :
    (b : BaseNode) (n : DispatchNode) (s : Store)
    → AreWords s
    → IsPress s n.lhead_nodereq
    → let r = resource_increased (record n { base_node = b }) s [] in
      SameCosts s r.store × IsPress r.store r.node.lhead_nodereq
unfolding resource_increased
increased-Holds b n s words e =
    serve-IsPress (length n.lhead_nodereq.token_list) b n.lhead_nodereq.token_list
      n.lhead_nodereq.press n.fence_id s [] words e

-- The request with its node noted.
abbrev noted : DispatchNode → Store → ℕ → Store
noted n s p = set_req s p (record (s.req p) { node_id = n.fence_id })

noted-same : (n : DispatchNode) (s : Store) (p : ℕ) → SameCosts s (noted n s p)
noted-same n s p q = ground arith

same-IsPress : (s s' : Store) (l : NodereqList) → SameCosts s s' → IsPress s l → IsPress s' l
same-IsPress s s' l same e = omega (arith, e, sum_of-same s s' l.token_list same)

push_back-IsPress :
    (s : Store) (l : NodereqList) (p : ℕ) → IsPress s l → IsPress s (NodereqList.push_back l s p)
unfolding NodereqList.push_back
push_back-IsPress s l p e = omega (arith, e, sum_of-append (cost s) l.token_list (p ∷ []))

alloc_resource-Holds :
    (n : DispatchNode) (s : Store) (p : ℕ)
    → IsPress s n.lhead_nodereq
    → Holds s (step (n, s) (alloc p))
unfolding step alloc_resource
alloc_resource-Holds n s p e =
    let s₁ = noted n s p in
    let same = noted-same n s p in
    let e₁ = same-IsPress s s₁ n.lhead_nodereq same e in
    let g = (s₁.req p).token_grp in
    let got = Keeps-same s₁ (to_got s₁ g p).1 (to_got-Keeps s₁ g p) in
    let e₂ = same-IsPress s₁ (to_got s₁ g p).1 n.lhead_nodereq got e₁ in
    let b = (BaseNode.try_alloc n.base_node (cost s₁ p)).1 in
    elim (Bool-cases (is_error (BaseNode.try_alloc n.base_node (cost s₁ p)).0)) [
      | inl refused ↦ elim (Bool-cases (is_error (BaseNode.try_alloc b (cost s₁ p)).0)) [
        | inl again ↦ rw (refused, again) ((λ q. same q), push_back-IsPress s₁ n.lhead_nodereq p e₁)
        | inr now ↦ rw (refused, now) ((λ q. got q ∙ same q), e₂)
      ]
      | inr granted ↦ rw granted ((λ q. got q ∙ same q), e₂)
    ]

pop_all-Holds :
    (b : BaseNode) (q : List ℕ) (w f : ℕ) (s : Store)
    → IsPress s (node_of b q w f).lhead_nodereq
    → let r = pop_all (node_of b q w f) s [] in
      SameCosts s r.store × IsPress r.store r.node.lhead_nodereq
unfolding pop_all NodereqList.pop_all
pop_all-Holds b [] w f s e = (Keeps-same s (fail_all s [] []).0 (fail_all-Keeps s [] []), e)
pop_all-Holds b (p ∷ ps) w f s e =
    (Keeps-same s (fail_all s (p ∷ ps) []).0 (fail_all-Keeps s (p ∷ ps) []), omega arith)

step-Holds :
    (n : DispatchNode) (s : Store) (e : Event)
    → AreWords s
    → IsPress s n.lhead_nodereq
    → Holds s (step (n, s) e)
unfolding step free_resource resource_changed reset fail_all
step-Holds n s (alloc p) words e = alloc_resource-Holds n s p e
step-Holds n s (free p) words e =
    let b = BaseNode.free n.base_node (cost s p) in
    elim (Bool-cases ((s.req p).node_id == n.fence_id)) [
      | inl ours ↦ rw ours (increased-Holds b n s words e)
      | inr older ↦ rw older ((λ q. refl), e)
    ]
step-Holds n s (changed dta) words e =
    let u = BaseNode.check_update n.base_node dta.token_quota dta.version in
    elim (Bool-cases u.increased) [
      | inl grew ↦ rw grew (increased-Holds u.node n s words e)
      | inr kept ↦ rw kept ((λ q. refl), e)
    ]
step-Holds n s fail words e =
    pop_all-Holds n.base_node n.lhead_nodereq.token_list n.lhead_nodereq.press n.fence_id s e
step-Holds n s resets words e = ((λ p. refl), e)

run-Holds :
    (n : DispatchNode) (s : Store) (es : List Event)
    → AreWords s
    → IsPress s n.lhead_nodereq
    → Holds s (run (n, s) es)
unfolding run
run-Holds n s [] words e = ((λ p. refl), e)
run-Holds n s (x ∷ es) words e =
    let (same, e') = step-Holds n s x words e in
    let (n', s') = step (n, s) x in
    let (same', end) = run-Holds n' s' es (λ p. omega (arith, words p, same p)) e' in
    ((λ p. same' p ∙ same p), end)

-- After any operations on a node that was set up, where the costs are words, the pressure it reports is
-- the sum of the costs of the requests that wait, cut to 16 bits; and the costs are as they were.
pub run-get_protocol :
    (s : Store) (version : ℕ) (es : List Event)
    → AreWords s
    → let (n, s') = run (init version, s) es in
      ((get_protocol n).press ≡ sum_of (cost s') n.lhead_nodereq.token_list % 2 ^ 16)
      × SameCosts s s'
unfolding init get_protocol NodereqList.get_press
run-get_protocol s version es words =
    let (same, e) = run-Holds (init version) s es words refl in (omega (arith, e), same)
