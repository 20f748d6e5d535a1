-- ===== src/FenceExecutor/Tests.antt =====
-- fence_executor.c: three calls of a function that counts.
use datastor_qos.Base.{suc, ◌≡◌, refl, true}
use datastor_qos.FenceExecutor.{init, execute}

execute_first : execute suc init 0 ≡ (record { is_exe = true }, 1)
unfolding execute init
execute_first = refl
