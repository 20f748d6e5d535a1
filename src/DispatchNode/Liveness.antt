-- ===== src/DispatchNode/Liveness.antt =====
-- sysqos_dispatch_node.c: a larger quota, and the requests that wait for it.
use datastor_qos.Base.{
  ℕ, ◌+◌, ◌≤◌, ◌<◌, ◌≡◌, refl, true, false, List, [], ◌∷◌, arith, length, sum_of, IsWord, sub64, ℤ,
  ◌<ℤ◌,
}
use datastor_qos.Interface.{ok, Dispatch2App}
use datastor_qos.BaseNode
use datastor_qos.BaseNode.{BaseNode}
use datastor_qos.NodereqList.{cost}
use datastor_qos.TokenReqgrp.{Store}
use datastor_qos.DispatchNode.{
  DispatchNode, Outcome, serve, hand_over, resource_increased, resource_changed,
}
use datastor_qos.DispatchNode.Serving.{
  AreDecided, node_of, serve-fits, hand_all, hand_all_decides, hand_over-Keeps, sum_of-kept,
}

fits :
    (b : BaseNode) (c : ℕ)
    → IsWord b.token_quota
    → b.token_inuse + c ≤ b.token_quota
    → BaseNode.try_alloc b c ≡ (ok, BaseNode.commit_alloc b c)
unfolding BaseNode.try_alloc
fits b c w h = ground arith

-- An allocation where the quota is not falling leaves the quota.
after_fit :
    (b : BaseNode) (c : ℕ)
    → IsWord b.token_quota
    → b.token_quota ≤ b.token_quota_new
    → b.token_inuse + c ≤ b.token_quota
    → let b' = BaseNode.commit_alloc b c in
      (b'.token_quota ≡ b.token_quota)
      × (b'.token_quota_new ≡ b.token_quota_new)
      × (b'.token_inuse ≡ b.token_inuse + c)
unfolding BaseNode.commit_alloc
after_fit b c w up h = ground arith

-- Every request was handed over, in order, and its tokens are in use.
abbrev AllHanded : BaseNode → List ℕ → Store → List ℕ → Outcome → Type 0
AllHanded b q s gs r =
    (r.node.lhead_nodereq.token_list ≡ [])
    × (r.store ≡ (hand_all s gs q).0)
    × (r.node.base_node.token_inuse ≡ b.token_inuse + sum_of (cost s) q)

serve-AllHanded :
    (b : BaseNode) (q : List ℕ) (w f : ℕ) (s : Store) (gs : List ℕ)
    → IsWord b.token_quota
    → b.token_quota ≤ b.token_quota_new
    → b.token_inuse + sum_of (cost s) q ≤ b.token_quota
    → AllHanded b q s gs (serve (length q) (node_of b q w f) s gs)
unfolding serve hand_all
serve-AllHanded b [] w f s gs word up h = (refl, refl, omega arith)
serve-AllHanded b (p ∷ ps) w f s gs word up h =
    let b' = BaseNode.commit_alloc b (cost s p) in
    let (s', gs') = hand_over s gs p in
    let same = sum_of-kept s s' ps (hand_over-Keeps s gs p) in
    let (quota, new, inuse) = after_fit b (cost s p) word up (omega arith) in
    let ih =
      serve-AllHanded b' ps (sub64 w (cost s p)) f s' gs' (rw quota word)
        (omega (arith, quota, new, up)) (omega (arith, h, quota, inuse, same)) in
    rw (serve-fits b p ps w f s gs (length ps) (fits b (cost s p) word (omega arith)))
      (ih.0, ih.1, omega (arith, ih.2, inuse, same))

check_update-grows :
    (b : BaseNode) (total : ℕ) (v : ℤ)
    → b.version <ℤ v
    → b.token_quota < total
    → BaseNode.check_update b total v ≡ record {
      node = record b { token_quota = total; token_quota_new = total; version = v };
      increased = true;
      is_reset = false;
    }
unfolding BaseNode.check_update BaseNode.adopt
check_update-grows b total v newer more = ground arith

-- A newer message that raises the quota to what is in use and what waits together leaves nothing
-- waiting: every request of the queue is decided, and its tokens are counted as in use.
pub resource_changed-serves_all :
    (n : DispatchNode) (s : Store) (dta : Dispatch2App)
    → n.base_node.version <ℤ dta.version
    → n.base_node.token_quota < dta.token_quota
    → IsWord dta.token_quota
    → n.base_node.token_inuse + sum_of (cost s) n.lhead_nodereq.token_list ≤ dta.token_quota
    → let r = (resource_changed n s dta []).0 in
      (r.node.lhead_nodereq.token_list ≡ [])
      × AreDecided r.store n.lhead_nodereq.token_list
      × (r.node.base_node.token_inuse
          ≡ n.base_node.token_inuse + sum_of (cost s) n.lhead_nodereq.token_list)
unfolding resource_changed resource_increased
resource_changed-serves_all n s dta newer more word enough =
    let b = record n.base_node {
      token_quota = dta.token_quota;
      token_quota_new = dta.token_quota;
      version = dta.version;
    } in
    let q = n.lhead_nodereq.token_list in
    let all = serve-AllHanded b q n.lhead_nodereq.press n.fence_id s [] word (omega arith) enough in
    rw (check_update-grows n.base_node dta.token_quota dta.version newer more)
      (all.0, rw all.1 (hand_all_decides s [] q), all.2)
