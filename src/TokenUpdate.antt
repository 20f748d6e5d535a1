-- ===== src/TokenUpdate.antt =====
-- sysqos_token_update.c, `token_update_ctx_t`: one round that shares the tokens of the nodes by their
-- pressure. The nodes' `update_node_t` are entries of the list; `set_quota_new` is given by the
-- caller and acts on a state of the caller's, `S`.
pub mod Shares
pub mod Totals
pub mod Tests
use datastor_qos.Base.{
  ℕ, zero, suc, ◌+◌, ◌-◌, ◌*◌, ◌/◌, ◌%◌, ◌^◌, ◌≤◌, ◌<◌, min, max, ◌≡◌, refl, sym, ap, subst, ◌∙◌,
  ◌≢◌, ◌↔◌, ◌⊎◌, inl, inr, Bool, true, false, not, ◌&&◌, ◌||◌, Option, none, some, List, [], ◌∷◌,
  ◌++◌, map, arith, length, sum_of, All, length-append, sum_of-append, ltb, leb, ◌==◌,
  if◌then◌else◌, ==_refl, eq_of_==, ne_of_==, lt_of_ltb, le_of_ltb, Bool-cases, Option-cases,
  lt-ltb, pos_or_zero, is_some, IsWord, add64, sub64, mul64, add32, sub32, sub64-eq-sub,
  add64-eq-add, ℤ, pos, negsuc, pos_part, neg_part, ltb_ℤ, eqb_ℤ, ◌<ℤ◌, eq_of_parts,
}
use datastor_qos.AppNode
use datastor_qos.AppNode.{AppNode, UpdateNode}
use datastor_qos.Run.{Run, returns, assert, ◌>>=◌, ◌>>◌}

-- An `update_node_t` on the list, with the node that it is part of.
pub record Entry : Type 0 where
  pub node : ℕ
  pub updatenode : UpdateNode

pub record TokenUpdate : Type 0 where
  pub total_weight : ℕ
  pub token_total : ℕ
  pub token_static : ℕ
  pub lhead_update_node : List Entry

-- `token_update_init_val`, and what `clear` sets
unfoldable pub init : TokenUpdate
init = record { total_weight = 0; token_total = 0; token_static = 0; lhead_update_node = [] }

-- `insert_by_weight`
unfoldable pub insert_by_weight : TokenUpdate → Entry → TokenUpdate
insert_by_weight ctx e = record ctx {
  lhead_update_node = e ∷ ctx.lhead_update_node;
  total_weight = add64 ctx.total_weight e.updatenode.weight;
}

-- `add_resource` of the node at `p`. It also subtracts the result of the unlocking, which is 0.
unfoldable pub add_resource : TokenUpdate → ℕ → AppNode → TokenUpdate
unfolding AppNode.init_update_node insert_by_weight
add_resource ctx p n =
    let u = (AppNode.init_update_node n).updatenode in
    let ctx' = insert_by_weight ctx (record { node = p; updatenode = u }) in
    record ctx' {
      token_total = add64 ctx'.token_total u.tmp_token_quota;
      token_static = add64 ctx'.token_static u.token_base;
    }

-- `update_token_left_base` and `update_weight`
unfoldable pub left_base : TokenUpdate → ℕ
left_base ctx = sub64 ctx.token_total ctx.token_static

unfoldable pub update_weight : TokenUpdate → ℕ
update_weight ctx = ctx.total_weight

abbrev with_quota : Entry → ℕ → Entry
with_quota e q = record e { updatenode = record e.updatenode { tmp_token_quota = q } }

module _ {ℓ} {S : Type ℓ} (set_quota_new : S → ℕ → ℕ → Run (S × ℕ)) where
  -- `update_node_quota`: the state, the entry, and the tokens that it consumed.
  unfoldable pub update_node_quota : S → Entry → ℕ → ℕ → Run (S × Entry × ℕ)
  update_node_quota s e token_total total_weight = do
    assert (ltb 0 total_weight)
    let share = mul64 token_total e.updatenode.weight / total_weight
    let e' = with_quota e (add64 share e.updatenode.token_base)
    (s', real) ← set_quota_new s e'.updatenode.tmp_token_quota e.node
    returns (s', e', sub64 real e.updatenode.token_base)

  -- `update_node_quota_left`
  unfoldable pub update_node_quota_left : S → Entry → ℕ → Run (S × Entry × ℕ)
  update_node_quota_left s e token_left = do
    let e' = with_quota e (add64 e.updatenode.tmp_token_quota token_left)
    (s', real) ← set_quota_new s e'.updatenode.tmp_token_quota e.node
    returns (s', e', sub64 real e.updatenode.tmp_token_quota)

  -- The two loops of `update`. `token_left <= 0` on an `unsigned long` is `token_left == 0`.
  unfoldable pub first_pass : S → List Entry → ℕ → ℕ → ℕ → Run (S × List Entry × ℕ)
  unfolding update_node_quota
  first_pass s [] token_total total_weight left = returns (s, [], left)
  first_pass s (e ∷ es) token_total total_weight left = do
    (s', e', used) ← update_node_quota s e token_total total_weight
    elim (sub64 left used == 0) [
      | true ↦ returns (s', e' ∷ es, sub64 left used)
      | false ↦ do
        (s'', es', left') ← first_pass s' es token_total total_weight (sub64 left used)
        returns (s'', e' ∷ es', left')
    ]

  unfoldable pub second_pass : S → List Entry → ℕ → Run (S × List Entry × ℕ)
  unfolding update_node_quota_left
  second_pass s [] left = returns (s, [], left)
  second_pass s (e ∷ es) left = do
    (s', e', used) ← update_node_quota_left s e left
    elim (sub64 left used == 0) [
      | true ↦ returns (s', e' ∷ es, sub64 left used)
      | false ↦ do
        (s'', es', left') ← second_pass s' es (sub64 left used)
        returns (s'', e' ∷ es', left')
    ]

  -- `update`
  unfoldable pub update : S → TokenUpdate → Run (S × TokenUpdate)
  unfolding left_base update_weight first_pass second_pass init
  update s ctx = do
    let token_total = left_base ctx
    (s', es, left) ← first_pass s ctx.lhead_update_node token_total (update_weight ctx) token_total
    (s'', es', left') ← second_pass s' es left
    returns (s'', init)
