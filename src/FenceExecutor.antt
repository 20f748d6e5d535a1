-- ===== src/FenceExecutor.antt =====
-- fence_executor.c, `fence_executor_t`: runs a function where no other thread runs it. The function
-- acts on a state of the caller's; the flag is set by one compare-and-swap.
pub mod Once
pub mod Tests
use datastor_qos.Base.{
  ℕ, zero, suc, ◌+◌, ◌-◌, ◌*◌, ◌/◌, ◌%◌, ◌^◌, ◌≤◌, ◌<◌, min, max, ◌≡◌, refl, sym, ap, subst, ◌∙◌,
  ◌≢◌, ◌↔◌, ◌⊎◌, inl, inr, Bool, true, false, not, ◌&&◌, ◌||◌, Option, none, some, List, [], ◌∷◌,
  ◌++◌, map, arith, length, sum_of, All, length-append, sum_of-append, ltb, leb, ◌==◌,
  if◌then◌else◌, ==_refl, eq_of_==, ne_of_==, lt_of_ltb, le_of_ltb, Bool-cases, Option-cases,
  lt-ltb, pos_or_zero, is_some, IsWord, add64, sub64, mul64, add32, sub32, sub64-eq-sub,
  add64-eq-add, ℤ, pos, negsuc, pos_part, neg_part, ltb_ℤ, eqb_ℤ, ◌<ℤ◌, eq_of_parts,
}

pub record FenceExecutor : Type 0 where
  pub is_exe : Bool

-- `fence_executor_init`; `func` is an argument of `execute`.
unfoldable pub init : FenceExecutor
init = record { is_exe = false }

unfoldable pub execute {ℓ} : {S : Type ℓ} → (S → S) → FenceExecutor → S → FenceExecutor × S
execute func x s = if x.is_exe then (x, s) else (record { is_exe = true }, func s)
