-- ===== src/CountController.antt =====
-- count_controller.c, `count_controller_t`: lets one of every so many calls through. `test_cnt` is one
-- step: its compare-and-swap repeats until no other thread came between. The interval is not
-- negative.
pub mod Period
pub mod Tests
use datastor_qos.Base.{
  ℕ, zero, suc, ◌+◌, ◌-◌, ◌*◌, ◌/◌, ◌%◌, ◌^◌, ◌≤◌, ◌<◌, min, max, ◌≡◌, refl, sym, ap, subst, ◌∙◌,
  ◌≢◌, ◌↔◌, ◌⊎◌, inl, inr, Bool, true, false, not, ◌&&◌, ◌||◌, Option, none, some, List, [], ◌∷◌,
  ◌++◌, map, arith, length, sum_of, All, length-append, sum_of-append, ltb, leb, ◌==◌,
  if◌then◌else◌, ==_refl, eq_of_==, ne_of_==, lt_of_ltb, le_of_ltb, Bool-cases, Option-cases,
  lt-ltb, pos_or_zero, is_some, IsWord, add64, sub64, mul64, add32, sub32, sub64-eq-sub,
  add64-eq-add, ℤ, pos, negsuc, pos_part, neg_part, ltb_ℤ, eqb_ℤ, ◌<ℤ◌, eq_of_parts,
}

pub record CountController : Type 0 where
  pub cnt : ℕ
  pub max_cnt : ℕ

-- `count_controller_init`
unfoldable pub init : ℕ → CountController
init interval_cnt = record { cnt = 0; max_cnt = interval_cnt }

-- `up_cnt`, with `*is_max`
unfoldable pub up_cnt : ℕ → ℕ → ℕ × Bool
up_cnt cnt max_cnt = if ltb cnt max_cnt then (cnt + 1, false) else (0, true)

unfoldable pub test_cnt : CountController → CountController × Bool
unfolding up_cnt
test_cnt c = let (cnt', is_max) = up_cnt c.cnt c.max_cnt in (record c { cnt = cnt' }, is_max)

unfoldable pub clear : CountController → CountController
clear c = record c { cnt = 0 }
