-- ===== src/ReqgrpManager/Returned.antt =====
-- sysqos_token_reqgrp_manager.c: the tokens that a group gives back to its dispatchers.
use datastor_qos.Base.{
  ℕ, ◌≡◌, refl, sym, ap, subst, ◌∙◌, inl, inr, Bool, true, false, ◌&&◌, Option, none, some, List,
  [], ◌∷◌, ◌++◌, arith, All, ◌==◌, if◌then◌else◌, Bool-cases, Option-cases, eq_of_==, sub64,
}
use datastor_qos.Run.{Ends}
use datastor_qos.HashTable.{Keys}
use datastor_qos.BaseNode
use datastor_qos.NodereqList.{cost}
use datastor_qos.TokenReqgrp.{Stat, got, Store, to_got}
use datastor_qos.TokenReqgrp.Counts.{Has}
use datastor_qos.DispatchNode.{DispatchNode, free_resource, resource_increased, serve, hand_over}
use datastor_qos.DispatchNode.Serving.{hand_all, resource_increased-Served}
use datastor_qos.DispatchNode.Taken.{free_resource-Hands}
use datastor_qos.ReqgrpManager.{ReqgrpManager, put_outcome}
use datastor_qos.ReqgrpManager.Calls.{try_to_put_tokens}
use datastor_qos.ReqgrpManager.Nodes.{item_of}
use datastor_qos.ReqgrpManager.Received.{found-item}
use datastor_qos.ReqgrpManager.Puts.{
  Away, Putting, got-cases, put-got, put-other, free-known, free-unknown, freed-Putting,
}

abbrev pub is_got : Stat → Bool
is_got got = true
is_got _ = false

abbrev pub is_item : Option ℕ → ℕ → Bool
is_item none x = false
is_item (some p) x = p == x

-- A node at which nothing waits serves nothing.
abbrev freed : DispatchNode → Store → ℕ → DispatchNode
freed n s p =
    if (s.req p).node_id == n.fence_id
    then record n { base_node = BaseNode.free n.base_node (cost s p) }
    else n

free_idle :
    (n : DispatchNode) (s : Store) (p : ℕ) (gs : List ℕ)
    → n.lhead_nodereq.token_list ≡ []
    → free_resource n s p gs ≡ record { node = freed n s p; store = s; groups = gs }
unfolding free_resource resource_increased serve
free_idle n s p gs e = elim (Bool-cases ((s.req p).node_id == n.fence_id)) [
  | inl ours ↦ rw (ours, e) refl
  | inr older ↦ rw older refl
]

freed-inuse :
    (n : DispatchNode) (s : Store) (p : ℕ)
    → (freed n s p).base_node.token_inuse ≡ (
        if (s.req p).node_id == n.fence_id
        then sub64 n.base_node.token_inuse (cost s p)
        else n.base_node.token_inuse)
unfolding BaseNode.free
freed-inuse n s p = ground arith

free-fence :
    (n : DispatchNode) (s : Store) (p : ℕ) (gs : List ℕ)
    → (free_resource n s p gs).node.fence_id ≡ n.fence_id
unfolding free_resource
free-fence n s p gs = elim (Bool-cases ((s.req p).node_id == n.fence_id)) [
  | inl ours ↦
      rw ours
        (resource_increased-Served (record n { base_node = BaseNode.free n.base_node (cost s p) }) s
          gs).fence
  | inr older ↦ rw older refl
]

hand_over-node_id :
    (s : Store) (gs : List ℕ) (p q : ℕ) → ((hand_over s gs p).0.req q).node_id ≡ (s.req q).node_id
unfolding hand_over to_got
hand_over-node_id s gs p q = ground arith

hand_all-node_id :
    (s : Store) (gs ps : List ℕ) (q : ℕ) → ((hand_all s gs ps).0.req q).node_id ≡ (s.req q).node_id
unfolding hand_all
hand_all-node_id s gs [] q = refl
hand_all-node_id s gs (p ∷ ps) q =
    let (s', gs') = hand_over s gs p in hand_all-node_id s' gs' ps q ∙ hand_over-node_id s gs p q

free-node_id :
    (n : DispatchNode) (s : Store) (p : ℕ) (gs : List ℕ) (q : ℕ)
    → ((free_resource n s p gs).store.req q).node_id ≡ (s.req q).node_id
unfolding free_resource
free-node_id n s p gs q = elim (Bool-cases ((s.req p).node_id == n.fence_id)) [
  | inl ours ↦
      let served =
        resource_increased-Served (record n { base_node = BaseNode.free n.base_node (cost s p) }) s
          gs in
      rw ours (ap (λ x. (x.0.req q).node_id) served.handed ∙ hand_all-node_id s gs served.served q)
  | inr older ↦ rw older refl
]

Away-not :
    (s : Store) (g : ℕ) (ps qs : List ℕ) (q : ℕ)
    → Away s g (ps ++ qs)
    → (s.req q).token_grp ≡ g
    → ¬ Has q ps
Away-not s g [] qs q away mine h = h
Away-not s g (p ∷ ps) qs q away mine (inl e) = away.0 (ap (λ x. (s.req x).token_grp) e ∙ mine)
Away-not s g (p ∷ ps) qs q away mine (inr h) = Away-not s g ps qs q away.1 mine h

-- Freeing at a node where no request of the group waits decides none of the group.
free-stat :
    (n : DispatchNode) (s : Store) (p g : ℕ) (gs : List ℕ) (q : ℕ)
    → Away s g n.lhead_nodereq.token_list
    → (s.req q).token_grp ≡ g
    → ((free_resource n s p gs).store.req q).stat ≡ (s.req q).stat
free-stat n s p g gs q away mine =
    let takes = (free_resource-Hands n s p gs).takes in
    takes.stat q (Away-not s g takes.taken _ q (subst (Away s g) takes.split away) mine)

module _ (keys : Keys) where
  -- Whether the request at `p` got its tokens from the dispatcher at the item `x`, in its present life.
  abbrev pub is_from : ReqgrpManager → ℕ → ℕ → Bool
  is_from m x p =
      is_got (m.store.req p).stat
      && is_item (item_of keys m (m.store.req p).rs.id) x
      && ((m.store.req p).node_id == (m.items x).fence_id)

  -- A number of tokens less the costs of those requests of a list that got theirs from `x`.
  abbrev pub given_back : ReqgrpManager → ℕ → ℕ → List ℕ → ℕ
  given_back m x n [] = n
  given_back m x n (p ∷ ps) =
      given_back m x (if is_from m x p then sub64 n (cost m.store p) else n) ps

  -- While the group at `g` is put back, what decides on its tokens is as it was, and nothing waits at `x`.
  pub record IsAs (m₀ : ReqgrpManager) (g x : ℕ) (m : ReqgrpManager) : Type 0 where
    pub table : m.app_node_table ≡ m₀.app_node_table
    pub fence : (m.items x).fence_id ≡ (m₀.items x).fence_id
    pub rs : (q : ℕ) → (m.store.req q).rs ≡ (m₀.store.req q).rs
    pub node_id : (q : ℕ) → (m.store.req q).node_id ≡ (m₀.store.req q).node_id
    pub grp : (q : ℕ) → (m.store.req q).token_grp ≡ (m₀.store.req q).token_grp
    pub stat :
        (q : ℕ) → (m₀.store.req q).token_grp ≡ g → (m.store.req q).stat ≡ (m₀.store.req q).stat
    pub idle : (m.items x).lhead_nodereq.token_list ≡ []

  pub IsAs-refl :
      (m : ReqgrpManager) (g x : ℕ) → (m.items x).lhead_nodereq.token_list ≡ [] → IsAs m g x m
  IsAs-refl m g x idle = record {
    table = refl;
    fence = refl;
    rs = λ q. refl;
    node_id = λ q. refl;
    grp = λ q. refl;
    stat = λ q mine. refl;
    idle = idle;
  }

  abbrev pub inuse_at : ReqgrpManager → ℕ → ℕ
  inuse_at m x = (m.items x).base_node.token_inuse

  is_from-IsAs :
      (m₀ m : ReqgrpManager) (g x p : ℕ)
      → IsAs m₀ g x m
      → (m₀.store.req p).token_grp ≡ g
      → is_from m x p ≡ is_from m₀ x p
  is_from-IsAs m₀ m g x p a mine = rw (a.stat p mine, a.rs p, a.node_id p, a.fence, a.table) refl

  freed-IsAs :
      (m₀ m : ReqgrpManager) (s₀ : Store) (g x p rip : ℕ) (gs : List ℕ)
      → Putting keys s₀ g m₀ (m, gs)
      → IsAs m₀ g x m
      → IsAs m₀ g x (put_outcome m p (free_resource (m.items p) m.store rip gs))
  freed-IsAs m₀ m s₀ g x p rip gs c a =
      let n = m.items p in
      let keeps = (free_resource-Hands n m.store rip gs).keeps in
      record {
        table = a.table;
        fence = elim (Bool-cases (x == p)) [
          | inl here ↦ rw here (
              free-fence n m.store rip gs
              ∙ ap (λ y. (m.items y).fence_id) (sym (eq_of_== x p here))
              ∙ a.fence)
          | inr there ↦ rw there a.fence
        ];
        rs = λ q. keeps.rs q ∙ a.rs q;
        node_id = λ q. free-node_id n m.store rip gs q ∙ a.node_id q;
        grp = λ q. keeps.grp q ∙ a.grp q;
        stat = λ q mine. free-stat n m.store rip g gs q (c.away p) (a.grp q ∙ mine) ∙ a.stat q mine;
        idle = elim (Bool-cases (x == p)) [
          | inl here ↦
              let empty =
                subst (λ y. (m.items y).lhead_nodereq.token_list ≡ []) (eq_of_== x p here) a.idle in
              rw here (rw (free_idle n m.store rip gs empty) (ground (arith, empty)))
          | inr there ↦ rw there a.idle
        ];
      }

  abbrev less : ReqgrpManager → ℕ → ℕ → ℕ → ℕ
  less m x n p = if is_from m x p then sub64 n (cost m.store p) else n

  -- What is in use at `x` after the request at `rip`, which got its tokens, was freed at `p`.
  freed-less :
      (m : ReqgrpManager) (x p rip : ℕ) (gs : List ℕ)
      → (m.items x).lhead_nodereq.token_list ≡ []
      → (m.store.req rip).stat ≡ got
      → item_of keys m (m.store.req rip).rs.id ≡ some p
      → ((put_outcome m p (free_resource (m.items p) m.store rip gs)).items x).base_node.token_inuse
        ≡ less m x (inuse_at m x) rip
  freed-less m x p rip gs empty has e = elim (Bool-cases (x == p)) [
    | inl here ↦
        let same : x ≡ p = eq_of_== x p here in
        let back : (p == x) ≡ true = ground (arith, same) in
        let at_p = subst (λ y. (m.items y).lhead_nodereq.token_list ≡ []) same empty in
        rw (here, has, e, back)
          (rw (free_idle (m.items p) m.store rip gs at_p) (
            freed-inuse (m.items p) m.store rip
            ∙ ap
                (λ y.
                  if (m.store.req rip).node_id == (m.items y).fence_id
                  then sub64 (inuse_at m y) (cost m.store rip)
                  else inuse_at m y)
                (sym same)))
    | inr there ↦ let far : (p == x) ≡ false = ground (arith, there) in rw (there, has, e, far) refl
  ]

  none-less :
      (m : ReqgrpManager) (x n rip : ℕ)
      → item_of keys m (m.store.req rip).rs.id ≡ none
      → n ≡ less m x n rip
  none-less m x n rip e = rw e (ground arith)

  other-less :
      (m : ReqgrpManager) (x n rip : ℕ) → is_got (m.store.req rip).stat ≡ false → n ≡ less m x n rip
  other-less m x n rip e = rw e refl

  less-IsAs :
      (m₀ m : ReqgrpManager) (g x n rip : ℕ)
      → IsAs m₀ g x m
      → (m₀.store.req rip).token_grp ≡ g
      → less m x n rip ≡ less m₀ x n rip
  less-IsAs m₀ m g x n rip a mine =
      ap (λ b. if b then sub64 n (cost m.store rip) else n) (is_from-IsAs m₀ m g x rip a mine)
      ∙ ap (λ y. if is_from m₀ x rip then sub64 n y.cost else n) (a.rs rip)

  -- Putting a list of requests back returns, and leaves at `x` the number `n` in use less what they got.
  abbrev pub Leaves : ReqgrpManager → ReqgrpManager → ℕ → List ℕ → List ℕ → ℕ → Type 0
  Leaves m₀ m x ps gs n =
      Ends (try_to_put_tokens keys m ps gs) (λ r. inuse_at r.0 x ≡ given_back m₀ x n ps)

  -- Putting the requests of a group back takes at a dispatcher where nothing waits the costs of those off
  -- that got their tokens from it.
  pub put-given_back :
      (s₀ : Store) (g : ℕ) (m₀ m : ReqgrpManager) (x : ℕ) (ps gs : List ℕ)
      → Putting keys s₀ g m₀ (m, gs)
      → IsAs m₀ g x m
      → All (λ p. (m₀.store.req p).token_grp ≡ g) ps
      → Leaves m₀ m x ps gs (inuse_at m x)
  put-given_back s₀ g m₀ m x [] gs c a mine = unfold try_to_put_tokens in refl
  put-given_back s₀ g m₀ m x (p ∷ ps) gs c a mine =
      let n = inuse_at m x in
      let same = less-IsAs m₀ m g x n p a mine.0 in
      elim (got-cases (m.store.req p).stat) [
        | inr e ↦
            let idle : is_got (m.store.req p).stat ≡ false = ground (arith, e) in
            rw (put-other keys m p ps gs e) (
              subst (Leaves m₀ m x ps gs) (other-less m x n p idle ∙ same)
                (put-given_back s₀ g m₀ m x ps gs c a mine.1))
        | inl has ↦ elim (Option-cases (item_of keys m (m.store.req p).rs.id)) [
          | inl e ↦
              let freed_none =
                free-unknown keys m p gs (found-item keys m (m.store.req p).rs.id none c.valid e) in
              rw (put-got keys m p ps gs (m, gs) has freed_none) (
                subst (Leaves m₀ m x ps gs) (none-less m x n p e ∙ same)
                  (put-given_back s₀ g m₀ m x ps gs c a mine.1))
          | inr (y, e) ↦
              let o = free_resource (m.items y) m.store p gs in
              let m' = put_outcome m y o in
              let freed_some =
                free-known keys m p y gs
                  (found-item keys m (m.store.req p).rs.id (some y) c.valid e) in
              rw (put-got keys m p ps gs (m', o.groups) has freed_some) (
                subst (Leaves m₀ m' x ps o.groups) (freed-less m x y p gs a.idle has e ∙ same) (
                  put-given_back s₀ g m₀ m' x ps o.groups (freed-Putting keys s₀ g m₀ m y p gs c)
                    (freed-IsAs m₀ m s₀ g x y p gs c a) mine.1))
        ]
      ]
