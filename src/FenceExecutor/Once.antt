-- ===== src/FenceExecutor/Once.antt =====
-- fence_executor.c: calls in turn, and the flag.
use datastor_qos.Base.{ℕ, zero, suc, ◌≡◌, refl, ap, true}
use datastor_qos.FenceExecutor.{FenceExecutor, init, execute}

-- Calls of `execute` in turn.
unfoldable pub execute_all {ℓ} : {S : Type ℓ} → (S → S) → FenceExecutor → S → ℕ → FenceExecutor × S
unfolding execute
execute_all func x s zero = (x, s)
execute_all func x s (suc k) = execute_all func (execute func x s).0 (execute func x s).1 k

execute_all_shut :
    {S : Type 0} (func : S → S) (s : S) (k : ℕ)
    → execute_all func (record { is_exe = true }) s k ≡ (record { is_exe = true }, s)
unfolding execute_all execute
execute_all_shut func s zero = refl
execute_all_shut func s (suc k) = execute_all_shut func s k

-- However often an executor is called, one call after the other, its function runs once in all.
pub execute_all-init :
    {S : Type 0} (func : S → S) (s : S) (k : ℕ) → (execute_all func init s (suc k)).1 ≡ func s
unfolding execute_all execute init
execute_all-init func s k = ap (λ r. r.1) (execute_all_shut func (func s) k)
