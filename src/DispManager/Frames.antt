-- ===== src/DispManager/Frames.antt =====
-- sysqos_dispatch_manager.c: what a call of the policy leaves as it was.
use datastor_qos.Base.{
  ℕ, zero, suc, ◌≡◌, refl, sym, ap, subst, ◌∙◌, inl, inr, Bool, true, false, Option, none, some,
  arith, if◌then◌else◌, Bool-cases, Option-cases,
}
use datastor_qos.Run.{Run, returns, ◌>>=◌}
use datastor_qos.AppNode
use datastor_qos.AppNode.{AppNode}
use datastor_qos.WaitIncreaseList
use datastor_qos.DispManager.{
  try_clear_wait_increase, raise_first, global_try_alloc, wait_increase_erase, DispManager,
  update_nodes_token_quota_new,
}
use datastor_qos.CountController
use datastor_qos.CountController.{CountController}
use datastor_qos.FenceExecutor
use datastor_qos.DispManager.Events.{Manager, execute_update, clear_waiting, update_policy}
use datastor_qos.DispManager.Waiting.{try_clear-none, try_clear-cons}
use datastor_qos.DispManager.Rounds.{IsAnnounced, IsAnnounced-refl, IsRound, update_nodes-IsRound}
use datastor_qos.DispManager.Policy.{IfReturns_mono, IfReturns, IfReturns-bind}

-- Raising a quota that waits only moves tokens out of the free pool: no node is written to.
IsRaise : DispManager → DispManager → Type 0
IsRaise m m' = (m'.tab ≡ m.tab) × (m'.nodes ≡ m.nodes)

raise_first-IsRaise : (m : DispManager) (p : ℕ) → IsRaise m (raise_first m p).0
unfolding IsRaise raise_first AppNode.update_token_quota global_try_alloc wait_increase_erase
raise_first-IsRaise m p = ground arith

IsRaise-trans : (a b c : DispManager) → IsRaise a b → IsRaise b c → IsRaise a c
unfolding IsRaise
IsRaise-trans a b c f g = (g.0 ∙ f.0, g.1 ∙ f.1)

abbrev RaisedTo : DispManager → Option DispManager → Type 0
RaisedTo m none = Unit {0}
RaisedTo m (some m') = IsRaise m m'

RaisedTo-later :
    (a b : DispManager) (r : Option DispManager) → IsRaise a b → RaisedTo b r → RaisedTo a r
RaisedTo-later a b none f g = tt
RaisedTo-later a b (some c) f g = IsRaise-trans a b c f g

RaisedTo-if :
    (m m' : DispManager) (r : Option DispManager) (b : Bool)
    → IsRaise m m'
    → RaisedTo m' r
    → RaisedTo m (if b then r else some m')
RaisedTo-if m m' r true f g = RaisedTo-later m m' r f g
RaisedTo-if m m' r false f g = f

try_clear-RaisedTo : (fuel : ℕ) (m : DispManager) → RaisedTo m (try_clear_wait_increase fuel m)
unfolding try_clear_wait_increase IsRaise
try_clear-RaisedTo zero m = tt
try_clear-RaisedTo (suc k) m =
    elim (Option-cases (WaitIncreaseList.is_first_exist m.lhead_wait_increase)) [
      | inl empty ↦ subst (RaisedTo m) (sym (try_clear-none k m empty)) (refl, refl)
      | inr (p, e) ↦ subst (RaisedTo m) (sym (try_clear-cons k m p e)) (
          RaisedTo-if m (raise_first m p).0 (try_clear_wait_increase k (raise_first m p).0)
            (raise_first m p).1 (raise_first-IsRaise m p)
            (try_clear-RaisedTo k (raise_first m p).0))
    ]

-- What a call of the policy leaves: the table and the rest of the manager, and of each node all but what it
-- is announced.
pub record IsPolicy (m m' : Manager) : Type 0 where
  pub tab : m'.round.tab ≡ m.round.tab
  pub nodes : (p : ℕ) → IsAnnounced (m.round.nodes p) (m'.round.nodes p)
  pub next_node : m'.next_node ≡ m.next_node
  pub cache : m'.token_node_cache ≡ m.token_node_cache
  pub lives : m'.fence_id ≡ m.fence_id

executed-IsPolicy : (m : Manager) → IfReturns (execute_update m) (IsPolicy m)
unfolding execute_update FenceExecutor.execute
executed-IsPolicy m = elim (Bool-cases m.executor.is_exe) [
  | inl set ↦ rw set (record {
    tab = refl;
    nodes = λ p. IsAnnounced-refl (m.round.nodes p);
    next_node = refl;
    cache = refl;
    lives = refl;
  })
  | inr clear ↦ rw clear (
      IfReturns-bind (update_nodes_token_quota_new m.round) _ (IsRound m.round) _
        (update_nodes-IsRound m.round)
        (λ r c. record {
          tab = c.tab;
          nodes = c.nodes;
          next_node = refl;
          cache = refl;
          lives = refl;
        }))
]

raised-IsPolicy :
    (m m' : Manager) (r : DispManager)
    → IsPolicy m m'
    → IsRaise m'.round r
    → IsPolicy m (record m' { round = r })
unfolding IsRaise
raised-IsPolicy m m' r c (tab, nodes) = record {
  tab = tab ∙ c.tab;
  nodes = λ p. subst (IsAnnounced (m.round.nodes p)) (sym (ap (λ f. f p) nodes)) (c.nodes p);
  next_node = c.next_node;
  cache = c.cache;
  lives = c.lives;
}

cleared-IsPolicy :
    (fuel : ℕ) (m m' : Manager) → IsPolicy m m' → IfReturns (clear_waiting fuel m') (IsPolicy m)
unfolding clear_waiting
cleared-IsPolicy fuel m m' c = elim (Option-cases (try_clear_wait_increase fuel m'.round)) [
  | inl stuck ↦ rw (stuck, IfReturns) tt
  | inr (r, done) ↦
      rw (done, IfReturns)
        (raised-IsPolicy m m' r c
          (subst (RaisedTo m'.round) done (try_clear-RaisedTo fuel m'.round)))
]

-- The call after the counter was asked.
policy_when : ℕ → Manager → Bool → Run (Manager × Bool)
policy_when fuel m due = elim due [
  | false ↦ returns (m, false)
  | true ↦ do m₂ ← execute_update m; m₃ ← clear_waiting fuel m₂; returns (m₃, true)
]

asked_counter : Manager → Bool → CountController × Bool
asked_counter m is_direct =
    if is_direct
    then (CountController.clear m.cnt_controller, true)
    else CountController.test_cnt m.cnt_controller

policy-shape :
    (fuel : ℕ) (m : Manager) (is_direct : Bool)
    → update_policy fuel m is_direct
      ≡ policy_when fuel
          (record m { cnt_controller = (asked_counter m is_direct).0 })
          (asked_counter m is_direct).1
unfolding update_policy policy_when asked_counter
policy-shape fuel m is_direct = refl

counted-IsPolicy :
    (m x : Manager) (c : CountController)
    → IsPolicy (record m { cnt_controller = c }) x
    → IsPolicy m x
counted-IsPolicy m x c d = record {
  tab = d.tab;
  nodes = d.nodes;
  next_node = d.next_node;
  cache = d.cache;
  lives = d.lives;
}

when-IsPolicy :
    (fuel : ℕ) (m : Manager) (due : Bool) → IfReturns (policy_when fuel m due) (λ r. IsPolicy m r.0)
unfolding policy_when
when-IsPolicy fuel m false = record {
  tab = refl;
  nodes = λ p. IsAnnounced-refl (m.round.nodes p);
  next_node = refl;
  cache = refl;
  lives = refl;
}
when-IsPolicy fuel m true =
    IfReturns-bind (execute_update m) _ (IsPolicy m) _ (executed-IsPolicy m) (λ m₂ c.
      IfReturns-bind (clear_waiting fuel m₂) _ (IsPolicy m) _ (cleared-IsPolicy fuel m m₂ c)
        (λ m₃ d. d))

-- A call of the policy that returns, whether it is direct or counted, leaves the table of nodes, the cache and
-- the numbers of lives as they were, and of each node the tokens in use, the granted quota, the limits and the
-- number of its life: it only announces quotas, and one that is announced anew is not below the least number
-- of units of the node, nor above a limit that is set.
pub update_policy-IsPolicy :
    (fuel : ℕ) (m : Manager) (is_direct : Bool)
    → IfReturns (update_policy fuel m is_direct) (λ r. IsPolicy m r.0)
update_policy-IsPolicy fuel m is_direct =
    let c = (asked_counter m is_direct).0 in
    let m₁ = record m { cnt_controller = c } in
    let due = (asked_counter m is_direct).1 in
    rw (policy-shape fuel m is_direct) (
      IfReturns_mono (policy_when fuel m₁ due) (λ r. IsPolicy m₁ r.0) (λ r. IsPolicy m r.0)
        (when-IsPolicy fuel m₁ due) (λ r d. counted-IsPolicy m r.0 c d))
