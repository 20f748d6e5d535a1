-- ===== src/DispatchNode/Fence.antt =====
-- sysqos_dispatch_node.c: requests of one life of a node and of another.
use datastor_qos.Base.{
  ℕ, ◌+◌, ◌≤◌, ◌<◌, ◌≡◌, refl, ◌∙◌, ◌≢◌, ◌⊎◌, false, List, [], ◌∷◌, ◌++◌, arith, ==_refl, IsWord,
}
use datastor_qos.Interface.{pending}
use datastor_qos.BaseNode
use datastor_qos.BaseNode.{BaseNode}
use datastor_qos.BaseNode.Shrink.{IsSmooth}
use datastor_qos.NodereqList
use datastor_qos.NodereqList.{NodereqList, cost}
use datastor_qos.TokenReqgrp.{Store, to_got, is_init}
use datastor_qos.DispatchNode.{
  DispatchNode, serve, resource_increased, alloc_resource, free_resource,
}

-- On a node whose quota is at least the announced one, and that at least one step, and where no sum
-- wraps: a new request is noted for this life of the node. Where the quota covers it, it is decided, its
-- cost is in use, and nothing is queued; otherwise it waits behind the others and no token moves.
pub alloc_resource_outcome :
    (n : DispatchNode) (s : Store) (p : ℕ)
    → IsSmooth n.base_node
    → IsWord (cost s p + n.base_node.token_inuse)
    → let (err, n', s') = alloc_resource n s p in
      ((s'.req p).node_id ≡ n.fence_id)
      × (((cost s p + n.base_node.token_inuse ≤ n.base_node.token_quota)
            × (is_init (s'.req p).stat ≡ false)
            × (n'.base_node.token_inuse ≡ n.base_node.token_inuse + cost s p)
            × (n'.lhead_nodereq ≡ n.lhead_nodereq))
          ⊎ ((n.base_node.token_quota < cost s p + n.base_node.token_inuse)
              × (err ≡ pending)
              × (n'.base_node ≡ n.base_node)
              × (n'.lhead_nodereq.token_list ≡ n.lhead_nodereq.token_list ++ p ∷ [])))
unfolding alloc_resource BaseNode.try_alloc to_got NodereqList.push_back
alloc_resource_outcome n s p smooth w = ground arith

-- Tokens that one life of a node granted or queued do not reach a life with another fence: giving
-- them back there changes neither the node, nor the requests, nor the groups that were answered.
pub free_resource_fenced :
    (n m : DispatchNode) (s : Store) (p : ℕ) (gs : List ℕ)
    → n.fence_id ≢ m.fence_id
    → let s' = (alloc_resource n s p).2 in
      free_resource m s' p gs ≡ record { node = m; store = s'; groups = gs }
unfolding alloc_resource free_resource to_got
free_resource_fenced n m s p gs d = ground arith

record Granted (n : DispatchNode) (s : Store) (p : ℕ) (n' : DispatchNode) (s' : Store)
    : Type 0 where
  ours : (s'.req p).node_id ≡ n'.fence_id
  list : n'.lhead_nodereq.token_list ≡ n.lhead_nodereq.token_list
  inuse : n'.base_node.token_inuse ≡ n.base_node.token_inuse + cost s p
  same : cost s' p ≡ cost s p

alloc_resource-Granted :
    (n : DispatchNode) (s : Store) (p : ℕ)
    → IsSmooth n.base_node
    → IsWord (cost s p + n.base_node.token_inuse)
    → cost s p + n.base_node.token_inuse ≤ n.base_node.token_quota
    → Granted n s p (alloc_resource n s p).1 (alloc_resource n s p).2
unfolding alloc_resource BaseNode.try_alloc to_got
alloc_resource-Granted n s p smooth w fits = record {
  ours = ground arith;
  list = ground arith;
  inuse = ground arith;
  same = ground arith;
}

free_resource_alone :
    (n : DispatchNode) (s : Store) (p : ℕ) (gs : List ℕ)
    → (s.req p).node_id ≡ n.fence_id
    → n.lhead_nodereq.token_list ≡ []
    → free_resource n s p gs ≡ record {
      node = record n { base_node = BaseNode.free n.base_node (cost s p) };
      store = s;
      groups = gs;
    }
unfolding free_resource resource_increased serve
free_resource_alone n s p gs ours e = rw (ours, ==_refl n.fence_id, e) refl

-- On a node whose quota is at least the announced one, and that at least one step, where nothing waits and the quota covers a request without wrapping, giving its tokens back after it was granted
-- leaves as much in use as before, and answers nobody else.
pub free-alloc_resource :
    (n : DispatchNode) (s : Store) (p : ℕ)
    → IsSmooth n.base_node
    → IsWord (cost s p + n.base_node.token_inuse)
    → cost s p + n.base_node.token_inuse ≤ n.base_node.token_quota
    → n.lhead_nodereq.token_list ≡ []
    → let (err, n', s') = alloc_resource n s p in
      let r = free_resource n' s' p [] in
      (r.node.base_node.token_inuse ≡ n.base_node.token_inuse) × (r.groups ≡ [])
unfolding BaseNode.free
free-alloc_resource n s p smooth w fits e =
    let (err, n', s') = alloc_resource n s p in
    let a = alloc_resource-Granted n s p smooth w fits in
    let back = free_resource_alone n' s' p [] a.ours (a.list ∙ e) in
    rw back (omega (arith, a.inuse, a.same, w), refl)
