-- ===== src/DispManager/Tokens.antt =====
-- sysqos_dispatch_manager.c: tokens that a known applicant takes and gives back.
use datastor_qos.Base.{
  ℕ, ◌+◌, ◌≤◌, ◌<◌, ◌≡◌, refl, ap, subst, ◌∙◌, ◌≢◌, ◌⊎◌, inl, inr, Bool, true, false, Option, none,
  some, arith, ltb, ==_refl, lt_of_ltb, le_of_ltb, Bool-cases, IsWord, add64, add64-eq-add,
}
use datastor_qos.Interface.{QosError, ok, too_big_cost, Resource}
use datastor_qos.Run.{assertion_failed, returns, aborts, ◌>>=◌, Ends}
use datastor_qos.HashTable
use datastor_qos.HashTable.{Keys}
use datastor_qos.HashTable.View
use datastor_qos.HashTable.View.{find-view}
use datastor_qos.AppNode
use datastor_qos.AppNode.{AppNode}
use datastor_qos.DispManager.Events.{Manager, set_node, check_online, alloc_tokens, free_tokens}
use datastor_qos.DispManager.Coming.{node_of}
use datastor_qos.DispManager.Leaving.{Leaves, node_offline-Leaves}

held_aborts :
    (n : AppNode) (cost fence_id : ℕ)
    → fence_id ≡ n.fence_id
    → cost ≤ n.token_inuse
    → AppNode.free n cost fence_id ≡ aborts assertion_failed
unfolding AppNode.free
held_aborts n cost fence_id e held = ground arith

module _ (keys : Keys) (m : Manager) (rs : Resource) (p : ℕ) (v : View.IsValid keys m.round.tab)
    (known : node_of keys m rs.id ≡ some p) where
  found : HashTable.find keys m.round.tab rs.id ≡ returns (some p)
  found = find-view keys rs.id v ∙ ap (λ x. returns x) known

  alloc-known :
      (fuel : ℕ)
      → let a = AppNode.alloc (m.round.nodes p) rs.cost in
        alloc_tokens keys fuel m rs ≡ returns (a.err, a.fence, set_node m p a.node)
  unfolding alloc_tokens check_online
  alloc-known fuel = rw (found, alloc_tokens, check_online) (rw found refl)

  free-known :
      (fence_id : ℕ)
      → free_tokens keys m rs fence_id false
        ≡ (AppNode.free (m.round.nodes p) rs.cost fence_id >>= λ n. returns (set_node m p n))
  unfolding free_tokens
  free-known fence_id = rw (found, free_tokens) refl

  -- Giving tokens back that are held.
  free_held :
      (fence_id : ℕ) (is_fail : Bool)
      → fence_id ≡ (m.round.nodes p).fence_id
      → rs.cost ≤ (m.round.nodes p).token_inuse
      → free_tokens keys m rs fence_id is_fail ≡ aborts assertion_failed
  unfolding free_tokens
  free_held fence_id true e held =
      subst (Leaves keys m rs.id) known (node_offline-Leaves keys m rs.id v)
  free_held fence_id false e held =
      free-known fence_id
      ∙ ap (λ r. r >>= λ n. returns (set_node m p n))
          (held_aborts (m.round.nodes p) rs.cost fence_id e held)

-- What an allocation by the applicant at `p` comes to: its tokens, with the number of its life, and
-- then the process ends when they are given back, as failed or not; or the error that its quota is too
-- small for it, which it is, and nothing changed.
pub record Takes (keys : Keys) (m : Manager) (rs : Resource) (p : ℕ)
    (r : QosError × Option ℕ × Manager) : Type 0 where
  pub tokens : r.2.round.tokens ≡ m.round.tokens
  pub others : (q : ℕ) → q ≢ p → r.2.round.nodes q ≡ m.round.nodes q
  pub outcome :
      ((r.0 ≡ ok)
        × (r.1 ≡ some (m.round.nodes p).fence_id)
        × ((r.2.round.nodes p).token_inuse ≡ (m.round.nodes p).token_inuse + rs.cost)
        × ((r.2.round.nodes p).token_inuse ≤ (r.2.round.nodes p).token_quota)
        × ((is_fail : Bool)
            → free_tokens keys r.2 rs (m.round.nodes p).fence_id is_fail ≡ aborts assertion_failed))
      ⊎ ((r.0 ≡ too_big_cost)
          × (r.1 ≡ none)
          × ((m.round.nodes p).token_quota < (m.round.nodes p).token_inuse + rs.cost)
          × (r.2.round.nodes p ≡ m.round.nodes p))

module _ (keys : Keys) (fuel : ℕ) (m : Manager) (rs : Resource) (p : ℕ)
    (v : View.IsValid keys m.round.tab) (known : node_of keys m rs.id ≡ some p)
    (small : IsWord ((m.round.nodes p).token_inuse + rs.cost)) where
  n : AppNode
  n = m.round.nodes p

  written : (x : AppNode) (q : ℕ) → q ≢ p → (set_node m p x).round.nodes q ≡ m.round.nodes q
  written x q far = ground arith

  took :
      ltb n.token_quota (add64 n.token_inuse rs.cost) ≡ false
      → let a = AppNode.alloc n rs.cost in Takes keys m rs p (a.err, a.fence, set_node m p a.node)
  unfolding AppNode.alloc n
  took fits =
      let given = record n { token_inuse = add64 n.token_inuse rs.cost } in
      let m' = set_node m p given in
      let here : m'.round.nodes p ≡ given = rw (==_refl p) refl in
      let inuse : given.token_inuse ≡ n.token_inuse + rs.cost = add64-eq-add _ _ small in
      rw fits (record {
        tokens = refl;
        others = written given;
        outcome = inl (
          refl,
          refl,
          rw here inuse,
          rw here (le_of_ltb _ _ fits),
          λ is_fail.
              free_held keys m' rs p v known n.fence_id is_fail (rw here refl)
                (rw (here, inuse) (omega arith)),
        );
      })

  refused :
      ltb n.token_quota (add64 n.token_inuse rs.cost) ≡ true
      → let a = AppNode.alloc n rs.cost in Takes keys m rs p (a.err, a.fence, set_node m p a.node)
  unfolding AppNode.alloc n
  refused big = rw big (record {
    tokens = refl;
    others = written n;
    outcome = inr (refl, refl, ground (arith, small, lt_of_ltb _ _ big), rw (==_refl p) refl);
  })

  -- With a valid table, an applicant that is known, whose tokens in use and the cost add up to a word,
  -- asks for tokens: it gets them, and has no more than its quota; or they would be more than its quota,
  -- it is told so, and its node stays as it is. The pools and all other nodes stay as they are. Giving
  -- back the tokens that it got ends the process, as failed or not.
  pub alloc_tokens-Takes : Ends (alloc_tokens keys fuel m rs) (Takes keys m rs p)
  unfolding n
  alloc_tokens-Takes =
      rw (alloc-known keys m rs p v known fuel)
        (elim (Bool-cases (ltb n.token_quota (add64 n.token_inuse rs.cost))) [
          | inl big ↦ refused big
          | inr fits ↦ took fits
        ])
