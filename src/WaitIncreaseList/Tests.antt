-- ===== src/WaitIncreaseList/Tests.antt =====
-- sysqos_waitincrease_list.c: a run on a concrete list.
use datastor_qos.Base.{◌≡◌, refl, [], ◌∷◌}
use datastor_qos.WaitIncreaseList.{init, enqueue}
use datastor_qos.WaitIncreaseList.Order.{enqueues, run, count, run-waits}

enqueue_again : (enqueue (enqueue (enqueue init 1) 2) 1).head ≡ 2 ∷ 1 ∷ []
unfolding enqueue init
enqueue_again = refl

run-waits_example : count 1 (run init (enqueues 1 ∷ enqueues 2 ∷ enqueues 1 ∷ [])).head ≡ 1
run-waits_example = run-waits 1 (enqueues 1 ∷ enqueues 2 ∷ enqueues 1 ∷ [])
