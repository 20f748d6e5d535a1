-- ===== src/ReqgrpManager/Told.antt =====
-- sysqos_token_reqgrp_manager.c: the answers that an event gives.
use datastor_qos.Base.{
  ℕ, ◌≤◌, ◌<◌, ◌≡◌, refl, sym, ap, subst, ◌∙◌, ◌≢◌, inl, inr, true, List, [], ◌∷◌, map, arith, All,
  ◌==◌, eq_of_==, ne_of_==, Bool-cases,
}
use datastor_qos.TokenReqgrp.{Store}
use datastor_qos.TokenReqgrp.Counts.{Has, Distinct, waiting}
use datastor_qos.TokenReqgrp.Keeps.{Keeps}
use datastor_qos.TokenReqgrp.Whole.{waiting_mono, IsComplete}
use datastor_qos.TokenReqgrp.Since.{IsReported}
use datastor_qos.DispatchNode.{is_final}
use datastor_qos.ReqgrpManager.{Answer, end_token_grps}

-- How many requests of a group are undecided.
abbrev pub undecided_at : Store → ℕ → ℕ
undecided_at s g = waiting s.req (s.grp g).members

abbrev pub told : List Answer → List ℕ
told = map (λ a. a.token_grp)

-- Every group of a kind that had something undecided before and has nothing after is answered.
abbrev pub AllTold : Store → Store → List Answer → (ℕ → Type 0) → Type 0
AllTold s s' answers P =
    (g : ℕ) → P g → 0 < undecided_at s g → undecided_at s' g ≡ 0 → Has g (told answers)

-- An answer to a group that had something undecided before, and has nothing after.
abbrev pub IsAnswer : Store → Store → Answer → Type 0
IsAnswer s s' a =
    (0 < undecided_at s a.token_grp) × (undecided_at s' a.token_grp ≡ 0) × (is_final a.err ≡ true)

-- The answers of an event: each to another group, which had something undecided before and nothing after,
-- and each is OK or FAILEDNODE.
pub record Tells (s s' : Store) (answers : List Answer) : Type 0 where
  pub each : All (IsAnswer s s') answers
  pub once : Distinct (told answers)

pub Tells-nil : (s s' : Store) → Tells s s' []
Tells-nil s s' = record { each = tt; once = tt }

complete-is_final : (s : Store) (g : ℕ) → IsComplete s g → is_final (s.grp g).err ≡ true
complete-is_final s g c = elim c.answer [
  | inl (fine, _) ↦ ap is_final fine
  | inr failed ↦ ap is_final failed
]

pub told-end_token_grps : (s : Store) (gs : List ℕ) → told (end_token_grps s gs) ≡ gs
unfolding end_token_grps
told-end_token_grps s [] = refl
told-end_token_grps s (g ∷ gs) = ap (λ l. g ∷ l) (told-end_token_grps s gs)

reported-Distinct : (s₀ s : Store) (gs : List ℕ) → IsReported s₀ s gs → Distinct gs
reported-Distinct s₀ s [] r = tt
reported-Distinct s₀ s (g ∷ gs) r = (r.2, reported-Distinct s₀ s gs r.3)

module _ (s₀ s s' : Store) (less : (g : ℕ) → undecided_at s g ≡ 0 → undecided_at s' g ≡ 0) where
  reported-each : (gs : List ℕ) → IsReported s₀ s gs → All (IsAnswer s₀ s') (end_token_grps s gs)
  unfolding end_token_grps
  reported-each [] r = tt
  reported-each (g ∷ gs) r =
      ((r.0, less g r.1.decided, complete-is_final s g r.1), reported-each gs r.3)

  -- The groups that were reported, answered in a store that counts no more than theirs.
  pub reported-Tells : (gs : List ℕ) → IsReported s₀ s gs → Tells s₀ s' (end_token_grps s gs)
  reported-Tells gs r = record {
    each = reported-each gs r;
    once = subst Distinct (sym (told-end_token_grps s gs)) (reported-Distinct s₀ s gs r);
  }

each-before :
    (s₀ s s' : Store) (answers : List Answer)
    → ((g : ℕ) → undecided_at s g ≤ undecided_at s₀ g)
    → All (IsAnswer s s') answers
    → All (IsAnswer s₀ s') answers
each-before s₀ s s' [] less e = tt
each-before s₀ s s' (a ∷ answers) less e =
    ((omega (arith, e.0, less a.token_grp), e.0.1, e.0.2), each-before s₀ s s' answers less e.1)

-- The answers as they are told of an older store.
pub Tells-before :
    (s₀ s s' : Store) (answers : List Answer)
    → ((g : ℕ) → undecided_at s g ≤ undecided_at s₀ g)
    → Tells s s' answers
    → Tells s₀ s' answers
Tells-before s₀ s s' answers less t = record {
  each = each-before s₀ s s' answers less t.each;
  once = t.once;
}

pub undecided_at_mono :
    (s s' : Store) (g : ℕ)
    → Keeps s s'
    → (s'.grp g).members ≡ (s.grp g).members
    → undecided_at s' g ≤ undecided_at s g
undecided_at_mono s s' g k e =
    subst (λ ps. waiting s'.req ps ≤ undecided_at s g) (sym e)
      (waiting_mono s s' (s.grp g).members k)

pub undecided_at-nil : (s : Store) (g : ℕ) → (s.grp g).members ≡ [] → undecided_at s g ≡ 0
unfolding waiting
undecided_at-nil s g e = ap (waiting s.req) e

-- After a group was dropped, no group has more undecided requests.
pub dropped-less :
    (s s' : Store) (g : ℕ)
    → Keeps s s'
    → ((h : ℕ) → h ≢ g → (s'.grp h).members ≡ (s.grp h).members)
    → (s'.grp g).members ≡ []
    → (h : ℕ) → undecided_at s' h ≤ undecided_at s h
dropped-less s s' g k others gone h = elim (Bool-cases (h == g)) [
  | inl here ↦
      let z = undecided_at-nil s' h (ap (λ x. (s'.grp x).members) (eq_of_== h g here) ∙ gone) in
      omega (arith, z)
  | inr far ↦ undecided_at_mono s s' h k (others h (ne_of_== h g far))
]
