-- ===== src/DispManager/Policy.antt =====
-- sysqos_dispatch_manager.c: how often the quotas are shared out.
use datastor_qos.Base.{ℕ, ◌≡◌, refl, inl, inr, true, Bool-cases, Option-cases}
use datastor_qos.Run.{Run, returns, aborts, ◌>>=◌}
use datastor_qos.CountController
use datastor_qos.FenceExecutor
use datastor_qos.FenceExecutor.{FenceExecutor}
use datastor_qos.DispManager.{DispManager, try_clear_wait_increase, update_nodes_token_quota_new}
use datastor_qos.DispManager.Events.{Manager, execute_update, clear_waiting, update_policy}

-- What holds of the result of a call, where it returns.
abbrev pub IfReturns : {A : Type 0} → Run A → (A → Type 0) → Type 0
IfReturns (returns a) P = P a
IfReturns (aborts f) P = Unit {0}

pub IfReturns-bind :
    {A B : Type 0} (r : Run A) (f : A → Run B) (P : A → Type 0) (Q : B → Type 0)
    → IfReturns r P
    → ((a : A) → P a → IfReturns (f a) Q)
    → IfReturns (r >>= f) Q
IfReturns-bind (returns a) f P Q h k = k a h
IfReturns-bind (aborts x) f P Q h k = tt

pub IfReturns-any : {A : Type 0} (r : Run A) → IfReturns r (λ _. Unit {0})
IfReturns-any (returns a) = tt
IfReturns-any (aborts f) = tt

pub IfReturns_mono :
    {A : Type 0} (r : Run A) (P Q : A → Type 0)
    → IfReturns r P
    → ((a : A) → P a → Q a)
    → IfReturns r Q
IfReturns_mono (returns a) P Q h k = k a h
IfReturns_mono (aborts f) P Q h k = tt

executed : (m : Manager) → m.executor.is_exe ≡ true → execute_update m ≡ returns m
unfolding execute_update FenceExecutor.execute
executed m e = rw e refl

executes : (m : Manager) → IfReturns (execute_update m) (λ m'. m'.executor.is_exe ≡ true)
unfolding execute_update FenceExecutor.execute update_nodes_token_quota_new
executes m = elim (Bool-cases m.executor.is_exe) [
  | inl set ↦ rw (executed m set) set
  | inr clear ↦ rw clear (
      IfReturns-bind (update_nodes_token_quota_new m.round) _ (λ _. Unit {0}) _ (IfReturns-any _)
        (λ r _. refl))
]

clear-executor :
    (fuel : ℕ) (m : Manager)
    → m.executor.is_exe ≡ true
    → IfReturns (clear_waiting fuel m) (λ m'. m'.executor.is_exe ≡ true)
unfolding clear_waiting
clear-executor fuel m e = elim (Option-cases (try_clear_wait_increase fuel m.round)) [
  | inl stuck ↦ rw (stuck, IfReturns) tt
  | inr (r, done) ↦ rw (done, IfReturns) e
]

-- Nothing that the manager has makes it share the quotas out again.
abbrev pub IsDone : Manager → Type 0
IsDone m =
    (round : DispManager)
    → execute_update (record m { round = round }) ≡ returns (record m { round = round })

-- The executor never lets a round run twice: after a direct call of the policy that returned, no later
-- call shares the quotas out, whatever the pools, the nodes and the table come to be.
pub update_policy-IsDone :
    (fuel : ℕ) (m : Manager) → IfReturns (update_policy fuel m true) (λ r. IsDone r.0)
unfolding update_policy execute_update clear_waiting
update_policy-IsDone fuel m =
    let counted = record m { cnt_controller = CountController.clear m.cnt_controller } in
    IfReturns-bind (execute_update counted) _ (λ m'. m'.executor.is_exe ≡ true) (λ r. IsDone r.0)
      (executes counted)
      (λ m₂ e.
        IfReturns-bind (clear_waiting fuel m₂) _ (λ m'. m'.executor.is_exe ≡ true) (λ r. IsDone r.0)
          (clear-executor fuel m₂ e) (λ m₃ e. λ round. executed (record m₃ { round = round }) e))
