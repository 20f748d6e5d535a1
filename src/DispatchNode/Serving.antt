-- ===== src/DispatchNode/Serving.antt =====
-- sysqos_dispatch_node.c: serving and failing the waiting requests.
use datastor_qos.Base.{
  ℕ, suc, ◌+◌, ◌≡◌, refl, sym, ap, ◌∙◌, ◌⊎◌, inl, inr, false, List, [], ◌∷◌, ◌++◌, map, arith,
  length, sum_of, All, sub64,
}
use datastor_qos.Interface.{ok, pending}
use datastor_qos.BaseNode
use datastor_qos.BaseNode.{BaseNode}
use datastor_qos.BaseNode.Alloc.{grant}
use datastor_qos.NodereqList
use datastor_qos.NodereqList.{NodereqList, cost}
use datastor_qos.TokenReqgrp.{Store, to_failed, is_init}
use datastor_qos.TokenReqgrp.Keeps.{
  Keeps, Keeps-refl, Keeps-trans, to_got-Keeps, to_failed-Keeps, to_got_decides, to_failed_decides,
}
use datastor_qos.DispatchNode.{
  DispatchNode, Outcome, serve, resource_increased, hand_over, fail_all, pop_all,
}

-- Requests handed over one after the other, and failed one after the other.
unfoldable pub hand_all : Store → List ℕ → List ℕ → Store × List ℕ
unfolding hand_over
hand_all s groups [] = (s, groups)
hand_all s groups (p ∷ ps) = hand_all (hand_over s groups p).0 (hand_over s groups p).1 ps

pub hand_over-Keeps : (s : Store) (gs : List ℕ) (p : ℕ) → Keeps s (hand_over s gs p).0
unfolding hand_over
hand_over-Keeps s gs p = to_got-Keeps s (s.req p).token_grp p

hand_over_decides :
    (s : Store) (gs : List ℕ) (p : ℕ) → is_init ((hand_over s gs p).0.req p).stat ≡ false
unfolding hand_over
hand_over_decides s gs p = to_got_decides s (s.req p).token_grp p

abbrev pub AreDecided : Store → List ℕ → Type 0
AreDecided s = All (λ p. is_init (s.req p).stat ≡ false)

pub hand_all-Keeps : (s : Store) (gs ps : List ℕ) → Keeps s (hand_all s gs ps).0
unfolding hand_all
hand_all-Keeps s gs [] = Keeps-refl s
hand_all-Keeps s gs (p ∷ ps) =
    Keeps-trans (hand_over-Keeps s gs p)
      (hand_all-Keeps (hand_over s gs p).0 (hand_over s gs p).1 ps)

pub hand_all_decides : (s : Store) (gs ps : List ℕ) → AreDecided (hand_all s gs ps).0 ps
unfolding hand_all
hand_all_decides s gs [] = tt
hand_all_decides s gs (p ∷ ps) =
    let (s', gs') = hand_over s gs p in
    let d = hand_over_decides s gs p in
    (ap is_init ((hand_all-Keeps s' gs' ps).stat p d) ∙ d, hand_all_decides s' gs' ps)

pub fail_all-Keeps : (s : Store) (ps gs : List ℕ) → Keeps s (fail_all s ps gs).0
unfolding fail_all
fail_all-Keeps s [] gs = Keeps-refl s
fail_all-Keeps s (p ∷ ps) gs =
    Keeps-trans (to_failed-Keeps s (s.req p).token_grp p)
      (fail_all-Keeps (to_failed s (s.req p).token_grp p).1 ps _)

pub fail_all_decides : (s : Store) (ps gs : List ℕ) → AreDecided (fail_all s ps gs).0 ps
unfolding fail_all
fail_all_decides s [] gs = tt
fail_all_decides s (p ∷ ps) gs =
    let s' = (to_failed s (s.req p).token_grp p).1 in
    let d = to_failed_decides s (s.req p).token_grp p in
    (ap is_init ((fail_all-Keeps s' ps _).stat p d) ∙ d, fail_all_decides s' ps _)

-- The costs of requests, and their sum.
abbrev pub costs : Store → List ℕ → List ℕ
costs s = map (cost s)

pub costs-kept : (s s' : Store) (ps : List ℕ) → Keeps s s' → costs s' ps ≡ costs s ps
costs-kept s s' [] k = refl
costs-kept s s' (p ∷ ps) k =
    let e : cost s' p ≡ cost s p = ap (λ r. r.cost) (k.rs p) in
    let ih : costs s' ps ≡ costs s ps = costs-kept s s' ps k in rw (e, ih)

pub sum_of-kept :
    (s s' : Store) (ps : List ℕ) → Keeps s s' → sum_of (cost s') ps ≡ sum_of (cost s) ps
sum_of-kept s s' [] k = refl
sum_of-kept s s' (p ∷ ps) k =
    let e : cost s' p ≡ cost s p = ap (λ r. r.cost) (k.rs p) in
    let ih : sum_of (cost s') ps ≡ sum_of (cost s) ps = sum_of-kept s s' ps k in rw (e, ih)

-- A first part of the waiting list was granted by the quota, in order, and handed over; serving
-- stopped at the end of the list or at a request that does not fit.
pub record Served (n : DispatchNode) (s : Store) (gs : List ℕ) (r : Outcome) : Type 0 where
  pub served : List ℕ
  pub split : n.lhead_nodereq.token_list ≡ served ++ r.node.lhead_nodereq.token_list
  pub granted : grant n.base_node (costs s served) ≡ (r.node.base_node, sum_of (cost s) served)
  pub handed : (r.store, r.groups) ≡ hand_all s gs served
  pub stopped :
      (r.node.lhead_nodereq.token_list ≡ [])
      ⊎ ((p : ℕ) × (ps : List ℕ) × (r.node.lhead_nodereq.token_list ≡ p ∷ ps)
          × (BaseNode.try_alloc r.node.base_node (cost r.store p) ≡ (pending, r.node.base_node)))
  pub fence : r.node.fence_id ≡ n.fence_id

try_alloc-cases :
    (b : BaseNode) (c : ℕ)
    → (BaseNode.try_alloc b c ≡ (ok, BaseNode.commit_alloc b c))
      ⊎ (BaseNode.try_alloc b c ≡ (pending, b))
unfolding BaseNode.try_alloc
try_alloc-cases b c = ground arith

-- A node from its parts.
abbrev pub node_of : BaseNode → List ℕ → ℕ → ℕ → DispatchNode
node_of b q press fence = record {
  base_node = b;
  lhead_nodereq = record { token_list = q; press = press };
  fence_id = fence;
}

module _ (b : BaseNode) (p : ℕ) (ps : List ℕ) (w f : ℕ) (s : Store) (gs : List ℕ) where
  pub serve-fits :
      (k : ℕ)
      → BaseNode.try_alloc b (cost s p) ≡ (ok, BaseNode.commit_alloc b (cost s p))
      → serve (suc k) (node_of b (p ∷ ps) w f) s gs
        ≡ serve k
            (node_of (BaseNode.commit_alloc b (cost s p)) ps (sub64 w (cost s p)) f)
            (hand_over s gs p).0
            (hand_over s gs p).1
  unfolding serve
  serve-fits k e = rw e

  serve-short :
      (k : ℕ)
      → BaseNode.try_alloc b (cost s p) ≡ (pending, b)
      → serve (suc k) (node_of b (p ∷ ps) w f) s gs
        ≡ record { node = node_of b (p ∷ ps) w f; store = s; groups = gs }
  unfolding serve
  serve-short k e = rw e

grant-cons :
    (b : BaseNode) (c total : ℕ) (cs : List ℕ) (b' : BaseNode)
    → BaseNode.try_alloc b c ≡ (ok, BaseNode.commit_alloc b c)
    → grant (BaseNode.commit_alloc b c) cs ≡ (b', total)
    → grant b (c ∷ cs) ≡ (b', c + total)
unfolding grant
grant-cons b c total cs b' e h = rw (e, h)

serve-Served :
    (b : BaseNode) (q : List ℕ) (w f : ℕ) (s : Store) (gs : List ℕ)
    → Served (node_of b q w f) s gs (serve (length q) (node_of b q w f) s gs)
unfolding serve hand_all grant
serve-Served b [] w f s gs = record {
  served = [];
  split = refl;
  granted = refl;
  handed = refl;
  stopped = inl refl;
  fence = refl;
}
serve-Served b (p ∷ ps) w f s gs = elim (try_alloc-cases b (cost s p)) [
  | inl fits ↦
      let b' = BaseNode.commit_alloc b (cost s p) in
      let (s', gs') = hand_over s gs p in
      let ih = serve-Served b' ps (sub64 w (cost s p)) f s' gs' in
      let k = hand_over-Keeps s gs p in
      let r = serve (length ps) (node_of b' ps (sub64 w (cost s p)) f) s' gs' in
      rw (serve-fits b p ps w f s gs (length ps) fits) (record {
        served = p ∷ ih.served;
        split = ap (λ l. p ∷ l) ih.split;
        granted = grant-cons b (cost s p) (sum_of (cost s) ih.served) (costs s ih.served) _ fits (
            ap (grant b') (sym (costs-kept s s' ih.served k))
            ∙ ih.granted
            ∙ ap (λ c. (r.node.base_node, c)) (sum_of-kept s s' ih.served k));
        handed = ih.handed;
        stopped = ih.stopped;
        fence = ih.fence;
      })
  | inr short ↦ rw (serve-short b p ps w f s gs (length ps) short) (record {
    served = [];
    split = refl;
    granted = refl;
    handed = refl;
    stopped = inr (p, ps, refl, short);
    fence = refl;
  })
]

-- When a quota grows or tokens come back, waiting requests are served in the order in which they
-- came: a first part of the list is granted and handed over, one by one, and what is left is empty or
-- starts with a request that the quota still does not cover.
pub resource_increased-Served :
    (n : DispatchNode) (s : Store) (gs : List ℕ) → Served n s gs (resource_increased n s gs)
unfolding resource_increased
resource_increased-Served n s gs =
    serve-Served n.base_node n.lhead_nodereq.token_list n.lhead_nodereq.press n.fence_id s gs

decided_at :
    (b : BaseNode) (q : List ℕ) (w f : ℕ) (s : Store) (gs : List ℕ)
    → AreDecided (pop_all (node_of b q w f) s gs).store q
unfolding pop_all NodereqList.pop_all
decided_at b [] w f s gs = tt
decided_at b (p ∷ ps) w f s gs = fail_all_decides s (p ∷ ps) gs

pub pop_all-AreDecided :
    (n : DispatchNode) (s : Store) (gs : List ℕ)
    → AreDecided (pop_all n s gs).store n.lhead_nodereq.token_list
pop_all-AreDecided n s gs =
    decided_at n.base_node n.lhead_nodereq.token_list n.lhead_nodereq.press n.fence_id s gs

pop_all_at :
    (b : BaseNode) (q : List ℕ) (w f : ℕ) (s : Store) (gs : List ℕ)
    → (q ≡ [] → w ≡ 0)
    → let r = pop_all (node_of b q w f) s gs in
      (r.node.lhead_nodereq ≡ NodereqList.init) × (r.node.base_node ≡ b) × AreDecided r.store q
unfolding pop_all NodereqList.pop_all NodereqList.init
pop_all_at b [] w f s gs h = (ap (λ x. record { token_list = []; press = x }) (h refl), refl, tt)
pop_all_at b (p ∷ ps) w f s gs h = (refl, refl, fail_all_decides s (p ∷ ps) gs)

-- On a node whose pressure is 0 where nothing waits: failing all of its requests empties its list and its pressure, leaves its tokens as they are,
-- and leaves none of the requests undecided.
pub pop_all_decides :
    (n : DispatchNode) (s : Store) (gs : List ℕ)
    → (n.lhead_nodereq.token_list ≡ [] → n.lhead_nodereq.press ≡ 0)
    → let r = pop_all n s gs in
      (r.node.lhead_nodereq ≡ NodereqList.init)
      × (r.node.base_node ≡ n.base_node)
      × AreDecided r.store n.lhead_nodereq.token_list
unfolding pop_all NodereqList.pop_all NodereqList.init
pop_all_decides n s gs =
    pop_all_at n.base_node n.lhead_nodereq.token_list n.lhead_nodereq.press n.fence_id s gs
