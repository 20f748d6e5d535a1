-- ===== src/CountController/Tests.antt =====
-- count_controller.c: a run with an interval of 2.
use datastor_qos.Base.{◌+◌, ◌*◌, ◌≤◌, ◌≡◌, refl, false, arith}
use datastor_qos.CountController.{init, test_cnt}
use datastor_qos.CountController.Period.{test_all, test_all-period}

test_cnt_first : (test_cnt (init 2)).1 ≡ false
unfolding test_cnt init
test_cnt_first = refl

test_all-period_example :
    let (c', passed) = test_all (init 2) 7 in
    ((init 2).cnt + 7 ≡ passed * ((init 2).max_cnt + 1) + c'.cnt)
    × (c'.cnt ≤ (init 2).max_cnt)
    × (c'.max_cnt ≡ (init 2).max_cnt)
test_all-period_example = test_all-period (init 2) 7 (unfold init in (omega arith))
