-- ===== src/TokenUpdate/Totals.antt =====
-- sysqos_token_update.c: what is summed up before a round, and what the round takes for the tokens
-- that it can share.
use datastor_qos.Base.{
  ℕ, ◌+◌, ◌-◌, ◌*◌, ◌%◌, ◌^◌, ◌≤◌, ◌<◌, min, ◌≡◌, List, [], ◌∷◌, arith, length, sum_of, All, IsWord,
}
use datastor_qos.AppNode
use datastor_qos.AppNode.{AppNode}
use datastor_qos.TokenUpdate.{
  TokenUpdate, add_resource, insert_by_weight, init, left_base, update_weight,
}

-- The nodes are added one after the other, each under its position.
unfoldable pub add_all : TokenUpdate → List (ℕ × AppNode) → TokenUpdate
unfolding add_resource
add_all ctx [] = ctx
add_all ctx ((p, n) ∷ ns) = add_all (add_resource ctx p n) ns

-- The part of a node's quota that is its base, and the rest.
abbrev pub base : ℕ × AppNode → ℕ
base x = min x.1.limit.min_units x.1.token_quota

abbrev pub rest : ℕ × AppNode → ℕ
rest x = x.1.token_quota - base x

abbrev pub quota : ℕ × AppNode → ℕ
quota x = x.1.token_quota

abbrev pub press : ℕ × AppNode → ℕ
press x = x.1.press

record Sums (ctx ctx' : TokenUpdate) (ns : List (ℕ × AppNode)) : Type 0 where
  weights : ctx'.total_weight ≡ (ctx.total_weight + sum_of press ns) % 2 ^ 64
  total : ctx'.token_total ≡ (ctx.token_total + sum_of rest ns) % 2 ^ 64
  static : ctx'.token_static ≡ (ctx.token_static + sum_of base ns) % 2 ^ 64
  members : length ctx'.lhead_update_node ≡ length ctx.lhead_update_node + length ns

-- The fields are words.
abbrev Holds : TokenUpdate → Type 0
Holds ctx = IsWord ctx.total_weight × IsWord ctx.token_total × IsWord ctx.token_static

abbrev AreWords : List (ℕ × AppNode) → Type 0
AreWords = All (λ x. IsWord x.1.token_quota)

add_resource-Sums :
    (ctx : TokenUpdate) (p : ℕ) (n : AppNode)
    → IsWord n.token_quota
    → Holds (add_resource ctx p n) × Sums ctx (add_resource ctx p n) ((p, n) ∷ [])
unfolding add_resource AppNode.init_update_node insert_by_weight
add_resource-Sums ctx p n w = (
  (omega arith, omega arith, omega arith),
  record {
    weights = omega arith;
    total = omega (arith, w);
    static = omega arith;
    members = omega arith;
  },
)

add_all-Sums :
    (ctx : TokenUpdate) (ns : List (ℕ × AppNode))
    → Holds ctx
    → AreWords ns
    → Sums ctx (add_all ctx ns) ns
unfolding add_all
add_all-Sums ctx [] h w = record {
  weights = omega (arith, h);
  total = omega (arith, h);
  static = omega (arith, h);
  members = omega arith;
}
add_all-Sums ctx ((p, n) ∷ ns) h w =
    let (h', one) = add_resource-Sums ctx p n w.0 in
    let ih = add_all-Sums (add_resource ctx p n) ns h' w.1 in
    record {
      weights = omega (arith, ih.weights, one.weights);
      total = omega (arith, ih.total, one.total);
      static = omega (arith, ih.static, one.static);
      members = omega (arith, ih.members, one.members);
    }

sum_of-quota : (ns : List (ℕ × AppNode)) → sum_of base ns + sum_of rest ns ≡ sum_of quota ns
sum_of-quota [] = omega arith
sum_of-quota (x ∷ ns) = omega (arith, sum_of-quota ns)

base-eq-quota :
    (ns : List (ℕ × AppNode))
    → All (λ x. IsWord (quota x) × (quota x ≤ x.1.limit.min_units)) ns
    → (sum_of base ns ≡ sum_of quota ns) × AreWords ns
base-eq-quota [] low = (omega arith, tt)
base-eq-quota (x ∷ ns) low =
    let (ih, w) = base-eq-quota ns low.1 in (omega (arith, low.0, ih), (low.0.0, w))

-- The bases of the nodes are taken off twice: a round over any nodes shares the sum of their quotas,
-- less twice the sum of their bases, as a word, by the sum of their pressures.
pub add_all-left_base :
    (ns : List (ℕ × AppNode))
    → All (λ x. IsWord x.1.token_quota) ns
    → let ctx = add_all init ns in
      ((left_base ctx + 2 * sum_of base ns) % 2 ^ 64 ≡ sum_of quota ns % 2 ^ 64)
      × (update_weight ctx ≡ sum_of press ns % 2 ^ 64)
      × (length ctx.lhead_update_node ≡ length ns)
unfolding left_base update_weight init
add_all-left_base ns w =
    let s = add_all-Sums init ns (omega arith, omega arith, omega arith) w in
    (
      omega (arith, s.total, s.static, sum_of-quota ns),
      omega (arith, s.weights),
      omega (arith, s.members),
    )

-- Where every node has no more than its minimum and they have some tokens together, but less than a
-- word, the tokens to share wrap round to almost all words.
pub left_base_wraps :
    (ns : List (ℕ × AppNode))
    → All (λ x. IsWord x.1.token_quota × (x.1.token_quota ≤ x.1.limit.min_units)) ns
    → 0 < sum_of quota ns
    → IsWord (sum_of quota ns)
    → left_base (add_all init ns) ≡ 2 ^ 64 - sum_of quota ns
unfolding left_base init
left_base_wraps ns low some_on w =
    let (all, words) = base-eq-quota ns low in
    let s = add_all-Sums init ns (omega arith, omega arith, omega arith) words in
    omega (arith, s.total, s.static, sum_of-quota ns, all, some_on, w)
