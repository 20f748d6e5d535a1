-- ===== src/CountController/Period.antt =====
-- count_controller.c: how often a call is let through.
use datastor_qos.Base.{
  ℕ, zero, suc, ◌+◌, ◌*◌, ◌≤◌, ◌≡◌, refl, inl, inr, arith, ltb, if◌then◌else◌, lt_of_ltb, le_of_ltb,
  Bool-cases,
}
use datastor_qos.CountController.{CountController, test_cnt, up_cnt}

-- Calls in turn: the controller after them, and how many were let through.
unfoldable pub test_all : CountController → ℕ → CountController × ℕ
unfolding test_cnt
test_all c zero = (c, 0)
test_all c (suc k) =
    let (c', passed) = test_all (test_cnt c).0 k in (c', (if (test_cnt c).1 then 1 else 0) + passed)

-- From a count within the interval: of any number of calls in turn, one in every `max_cnt + 1` is let through: calls and count add up
-- to the whole periods that passed and the count that is left.
pub test_all-period :
    (c : CountController) (k : ℕ)
    → c.cnt ≤ c.max_cnt
    → let (c', passed) = test_all c k in
      (c.cnt + k ≡ passed * (c.max_cnt + 1) + c'.cnt)
      × (c'.cnt ≤ c.max_cnt)
      × (c'.max_cnt ≡ c.max_cnt)
unfolding test_all test_cnt up_cnt
test_all-period c zero h = (omega arith, h, refl)
test_all-period c (suc k) h = elim (Bool-cases (ltb c.cnt c.max_cnt)) [
  | inl less ↦
      let less' = lt_of_ltb c.cnt c.max_cnt less in
      let ih = test_all-period (record c { cnt = c.cnt + 1 }) k (omega (arith, less')) in
      rw less (omega (arith, ih), ih.1, ih.2)
  | inr full ↦
      let ih = test_all-period (record c { cnt = 0 }) k (omega arith) in
      rw full (omega (arith, ih, h, le_of_ltb c.cnt c.max_cnt full), ih.1, ih.2)
]
