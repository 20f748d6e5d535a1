-- ===== src/DispManager/Rounds.antt =====
-- sysqos_dispatch_manager.c: what sharing out the quotas leaves as it was.
use datastor_qos.Base.{
  ℕ, ◌≤◌, ◌<◌, ◌≡◌, refl, sym, ap, subst, ◌∙◌, ◌⊎◌, inl, inr, Bool, true, false, List, [], ◌∷◌,
  arith, ltb, leb, ◌==◌, if◌then◌else◌, eq_of_==, Bool-cases, sub64,
}
use datastor_qos.Run.{Run, returns, assert, ◌>>◌}
use datastor_qos.AppNode
use datastor_qos.AppNode.{AppNode}
use datastor_qos.HashTable
use datastor_qos.TokenUpdate
use datastor_qos.TokenUpdate.{TokenUpdate, Entry}
use datastor_qos.DispManager.{
  DispManager, set_quota_new, enqueue, update_nodes_token_quota_new, add_rs_to_upctx,
}
use datastor_qos.DispManager.Policy.{IfReturns, IfReturns-bind, IfReturns-any}

-- A node that was at most announced another quota, which is within its limit.
pub record IsAnnounced (n n' : AppNode) : Type 0 where
  pub inuse : n'.token_inuse ≡ n.token_inuse
  pub quota : n'.token_quota ≡ n.token_quota
  pub limit : n'.limit ≡ n.limit
  pub fence : n'.fence_id ≡ n.fence_id
  pub announced :
      (n'.token_quota_new ≡ n.token_quota_new)
      ⊎ ((n.limit.min_units ≤ n'.token_quota_new)
          × (0 < n.limit.max_units → n'.token_quota_new ≤ n.limit.max_units))

pub IsAnnounced-refl : (n : AppNode) → IsAnnounced n n
IsAnnounced-refl n = record {
  inuse = refl;
  quota = refl;
  limit = refl;
  fence = refl;
  announced = inl refl;
}

IsAnnounced-trans : (a b c : AppNode) → IsAnnounced a b → IsAnnounced b c → IsAnnounced a c
IsAnnounced-trans a b c f g = record {
  inuse = g.inuse ∙ f.inuse;
  quota = g.quota ∙ f.quota;
  limit = g.limit ∙ f.limit;
  fence = g.fence ∙ f.fence;
  announced = elim g.announced [
    | inl same ↦ elim f.announced [
      | inl old ↦ inl (same ∙ old)
      | inr (low, high) ↦
          inr (omega (arith, low, same), λ h. let top = high h in omega (arith, top, same))
    ]
    | inr (low, high) ↦
        let e = ap (λ l. l.min_units) f.limit in
        let k = ap (λ l. l.max_units) f.limit in
        inr (
          omega (arith, low, e),
          λ h. let top = high (omega (arith, h, k)) in omega (arith, top, k),
        )
  ];
}

-- The quota that is announced where `wanted` was asked for, and the node then.
abbrev limited : AppNode → ℕ → ℕ
limited n wanted = AppNode.new_quota_under_limit n wanted

limited-le :
    (n : AppNode) (wanted : ℕ) → 0 < n.limit.max_units → limited n wanted ≤ n.limit.max_units
unfolding AppNode.new_quota_under_limit
limited-le n wanted h = ground arith

abbrev announced_node : AppNode → ℕ → AppNode
announced_node n q =
    let n' = if n.token_quota_new == q then n else AppNode.update_token_quota_new_base n q in
    record n' { token_quota_new = q }

node-IsAnnounced :
    (n : AppNode) (wanted : ℕ)
    → leb n.limit.min_units (limited n wanted) ≡ true
    → IsAnnounced n (announced_node n (limited n wanted))
unfolding AppNode.update_token_quota_new_base
node-IsAnnounced n wanted low =
    let within : n.limit.min_units ≤ limited n wanted = ground arith in
    elim (Bool-cases (n.token_quota_new == limited n wanted)) [
      | inl same ↦ rw same (record {
        inuse = refl;
        quota = refl;
        limit = refl;
        fence = refl;
        announced = inr (within, limited-le n wanted);
      })
      | inr other ↦ rw other (record {
        inuse = refl;
        quota = refl;
        limit = refl;
        fence = refl;
        announced = inr (within, limited-le n wanted);
      })
    ]

either :
    {S : Type 0} (f : S → S) (s : S) (b : Bool)
    → ((if b then f s else s) ≡ s) ⊎ ((if b then f s else s) ≡ f s)
either f s true = inr refl
either f s false = inl refl

new-shape :
    {S : Type 0} (f : S → S) (s : S) (n : AppNode) (wanted : ℕ)
    → AppNode.update_token_quota_new f s n wanted ≡ (
        assert (leb n.limit.min_units wanted)
        >> (assert (leb n.limit.min_units (limited n wanted))
            >> returns (
              if ltb n.token_quota_new (limited n wanted) then f s else s,
              announced_node n (limited n wanted),
              limited n wanted,
            )))
unfolding AppNode.update_token_quota_new
new-shape f s n wanted = refl

new-IsAnnounced :
    {S : Type 0} (f : S → S) (s : S) (n : AppNode) (wanted : ℕ)
    → IfReturns
        (AppNode.update_token_quota_new f s n wanted)
        (λ r. IsAnnounced n r.1 × ((r.0 ≡ s) ⊎ (r.0 ≡ f s)))
new-IsAnnounced f s n wanted = elim (Bool-cases (leb n.limit.min_units wanted)) [
  | inr below ↦ rw (new-shape f s n wanted, below) tt
  | inl enough ↦ elim (Bool-cases (leb n.limit.min_units (limited n wanted))) [
    | inr below ↦ rw (new-shape f s n wanted, enough, below) tt
    | inl low ↦
        rw (new-shape f s n wanted, enough, low)
          (node-IsAnnounced n wanted low, either f s (ltb n.token_quota_new (limited n wanted)))
  ]
]

-- A round under way since `m₀`: the table and the pools are as they were, and each node was at most
-- announced another quota.
pub record IsRound (m₀ m : DispManager) : Type 0 where
  pub tab : m.tab ≡ m₀.tab
  pub tokens : m.tokens ≡ m₀.tokens
  pub nodes : (p : ℕ) → IsAnnounced (m₀.nodes p) (m.nodes p)

IsRound-refl : (m : DispManager) → IsRound m m
IsRound-refl m = record { tab = refl; tokens = refl; nodes = λ p. IsAnnounced-refl (m.nodes p) }

enqueued :
    (m m' : DispManager) (p : ℕ)
    → (m' ≡ m) ⊎ (m' ≡ enqueue m p)
    → (m'.tab ≡ m.tab) × (m'.tokens ≡ m.tokens) × (m'.nodes ≡ m.nodes)
unfolding enqueue
enqueued m m' p (inl e) = (ap (λ x. x.tab) e, ap (λ x. x.tokens) e, ap (λ x. x.nodes) e)
enqueued m m' p (inr e) = (ap (λ x. x.tab) e, ap (λ x. x.tokens) e, ap (λ x. x.nodes) e)

set_quota-IsRound :
    (m₀ m : DispManager) (cost p : ℕ)
    → IsRound m₀ m
    → IfReturns (set_quota_new m cost p) (λ r. IsRound m₀ r.0)
unfolding set_quota_new
set_quota-IsRound m₀ m cost p c =
    IfReturns-bind (AppNode.update_token_quota_new (λ m'. enqueue m' p) m (m.nodes p) cost) _ _ _
      (new-IsAnnounced (λ m'. enqueue m' p) m (m.nodes p) cost)
      (λ r (a, which).
        let (tab, tokens, nodes) = enqueued m r.0 p which in
        record {
          tab = tab ∙ c.tab;
          tokens = tokens ∙ c.tokens;
          nodes = λ x. elim (Bool-cases (x == p)) [
            | inl here ↦
                let e = eq_of_== x p here in
                rw here (
                  IsAnnounced-trans (m₀.nodes x) (m.nodes x) r.1 (c.nodes x)
                    (subst (λ y. IsAnnounced (m.nodes y) r.1) (sym e) a))
            | inr far ↦
                rw far (subst (IsAnnounced (m₀.nodes x)) (sym (ap (λ f. f x) nodes)) (c.nodes x))
          ];
        })

-- What every setting of a quota keeps, the round keeps.
module _ {S : Type 0} (set_new : S → ℕ → ℕ → Run (S × ℕ)) (Inv : S → Type 0)
    (keeps : (s : S) (c p : ℕ) → Inv s → IfReturns (set_new s c p) (λ r. Inv r.0)) where
  quota-Inv :
      (s : S) (e : Entry) (total weight : ℕ)
      → Inv s
      → IfReturns (TokenUpdate.update_node_quota set_new s e total weight) (λ r. Inv r.0)
  unfolding TokenUpdate.update_node_quota
  quota-Inv s e total weight i =
      IfReturns-bind (assert (ltb 0 weight)) _ (λ _. Unit {0}) _ (IfReturns-any _)
        (λ _ _.
          IfReturns-bind (set_new s _ e.node) _ (λ r. Inv r.0) _ (keeps s _ e.node i) (λ r j. j))

  left-Inv :
      (s : S) (e : Entry) (left : ℕ)
      → Inv s
      → IfReturns (TokenUpdate.update_node_quota_left set_new s e left) (λ r. Inv r.0)
  unfolding TokenUpdate.update_node_quota_left
  left-Inv s e left i =
      IfReturns-bind (set_new s _ e.node) _ (λ r. Inv r.0) _ (keeps s _ e.node i) (λ r j. j)

  first_pass-Inv :
      (s : S) (es : List Entry) (total weight left : ℕ)
      → Inv s
      → IfReturns (TokenUpdate.first_pass set_new s es total weight left) (λ r. Inv r.0)
  unfolding TokenUpdate.first_pass
  first_pass-Inv s [] total weight left i = i
  first_pass-Inv s (e ∷ es) total weight left i =
      IfReturns-bind (TokenUpdate.update_node_quota set_new s e total weight) _ (λ r. Inv r.0) _
        (quota-Inv s e total weight i)
        (λ r j. elim (Bool-cases (sub64 left r.2 == 0)) [
          | inl done ↦ rw done j
          | inr more ↦ rw more (
              IfReturns-bind (TokenUpdate.first_pass set_new r.0 es total weight (sub64 left r.2)) _
                (λ x. Inv x.0) _ (first_pass-Inv r.0 es total weight (sub64 left r.2) j) (λ x k. k))
        ])

  second_pass-Inv :
      (s : S) (es : List Entry) (left : ℕ)
      → Inv s
      → IfReturns (TokenUpdate.second_pass set_new s es left) (λ r. Inv r.0)
  unfolding TokenUpdate.second_pass
  second_pass-Inv s [] left i = i
  second_pass-Inv s (e ∷ es) left i =
      IfReturns-bind (TokenUpdate.update_node_quota_left set_new s e left) _ (λ r. Inv r.0) _
        (left-Inv s e left i)
        (λ r j. elim (Bool-cases (sub64 left r.2 == 0)) [
          | inl done ↦ rw done j
          | inr more ↦ rw more (
              IfReturns-bind (TokenUpdate.second_pass set_new r.0 es (sub64 left r.2)) _
                (λ x. Inv x.0) _ (second_pass-Inv r.0 es (sub64 left r.2) j) (λ x k. k))
        ])

  update-Inv :
      (s : S) (ctx : TokenUpdate)
      → Inv s
      → IfReturns (TokenUpdate.update set_new s ctx) (λ r. Inv r.0)
  unfolding TokenUpdate.update
  update-Inv s ctx i =
      IfReturns-bind
        (TokenUpdate.first_pass set_new s ctx.lhead_update_node (TokenUpdate.left_base ctx)
          (TokenUpdate.update_weight ctx) (TokenUpdate.left_base ctx))
        _ (λ r. Inv r.0) _
        (first_pass-Inv s ctx.lhead_update_node (TokenUpdate.left_base ctx)
          (TokenUpdate.update_weight ctx) (TokenUpdate.left_base ctx) i)
        (λ r j.
          IfReturns-bind (TokenUpdate.second_pass set_new r.0 r.1 r.2) _ (λ x. Inv x.0) _
            (second_pass-Inv r.0 r.1 r.2 j) (λ x k. k))

pub update_nodes-IsRound :
    (m : DispManager) → IfReturns (update_nodes_token_quota_new m) (IsRound m)
unfolding update_nodes_token_quota_new
update_nodes-IsRound m =
    let ctx = HashTable.for_each (add_rs_to_upctx m.nodes) m.update_ctx m.tab.buckets in
    IfReturns-bind (TokenUpdate.update set_quota_new m ctx) _ (λ r. IsRound m r.0) _
      (update-Inv set_quota_new (IsRound m) (set_quota-IsRound m) m ctx (IsRound-refl m))
      (λ r c. record { tab = c.tab; tokens = c.tokens; nodes = c.nodes })
