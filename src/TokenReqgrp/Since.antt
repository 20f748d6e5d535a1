-- ===== src/TokenReqgrp/Since.antt =====
-- sysqos_token_reqgrp.c: a store after several decisions, and the groups that were reported.
use datastor_qos.Base.{ℕ, ◌<◌, ◌≡◌, refl, sym, ap, subst, ◌∙◌, ◌≢◌, inl, inr, List, [], ◌∷◌, arith}
use datastor_qos.Interface.{QosError, ok, pending, failed_node}
use datastor_qos.TokenReqgrp.{Store}
use datastor_qos.TokenReqgrp.Counts.{Has, waiting, failures}
use datastor_qos.TokenReqgrp.Keeps.{Keeps, Keeps-refl, Keeps-trans}
use datastor_qos.TokenReqgrp.Whole.{
  BelongTo, IsLive, IsStore, IsListed, SameMembers, waiting_mono, IsDecision, IsComplete, eq_or_ne,
  decision-others, decision-SameMembers, decision-IsStore, decision-IsComplete, decision-answered,
}

-- Groups that were reported since some store: each had something undecided then, is complete now, and
-- is there once.
abbrev pub IsReported : Store → Store → List ℕ → Type 0
IsReported s₀ s [] = Unit {0}
IsReported s₀ s (g ∷ gs) =
    (0 < waiting s₀.req (s₀.grp g).members) × IsComplete s g × (¬ Has g gs) × IsReported s₀ s gs

reported-IsComplete :
    (s₀ s : Store) (g : ℕ) (gs : List ℕ) → IsReported s₀ s gs → Has g gs → IsComplete s g
reported-IsComplete s₀ s g [] r h = absurd h
reported-IsComplete s₀ s g (x ∷ gs) r (inl same) = subst (IsComplete s) same r.1
reported-IsComplete s₀ s g (x ∷ gs) r (inr h) = reported-IsComplete s₀ s g gs r.3 h

-- What decisions have made of a store since it was `s₀`, with the groups reported since.
pub record Since (s₀ s : Store) (gs : List ℕ) : Type 0 where
  pub store : IsStore s
  pub keeps : Keeps s₀ s
  pub members : SameMembers s₀ s
  pub reported : IsReported s₀ s gs
  pub all :
      (g : ℕ)
      → 0 < waiting s₀.req (s₀.grp g).members
      → waiting s.req (s.grp g).members ≡ 0
      → Has g gs

pub Since-refl : (s : Store) → IsStore s → Since s s []
Since-refl s v = record {
  store = v;
  keeps = Keeps-refl s;
  members = λ g. refl;
  reported = tt;
  all = λ g w z. omega (arith, w, z);
}

pub Since-IsListed :
    (s₀ s : Store) (gs : List ℕ) (p : ℕ) → Since s₀ s gs → IsListed s₀ p → IsListed s p
Since-IsListed s₀ s gs p c h = rw (c.keeps.grp p, c.members (s₀.req p).token_grp) h

IsReported-later :
    (s₀ s s' : Store) (gs : List ℕ)
    → ((g : ℕ) → IsComplete s g → IsComplete s' g)
    → IsReported s₀ s gs
    → IsReported s₀ s' gs
IsReported-later s₀ s s' [] f r = tt
IsReported-later s₀ s s' (g ∷ gs) f r = (r.0, f g r.1, r.2, IsReported-later s₀ s s' gs f r.3)

ok-ne-pending : ok ≢ pending
ok-ne-pending e = ground arith

failed_node-ne-pending : failed_node ≢ pending
failed_node-ne-pending e = ground arith

-- One more decision, which reports its group or not.
module _ (s₀ s s' : Store) (gs : List ℕ) (p : ℕ) (e : QosError) (c : Since s₀ s gs)
    (h : IsListed s p) (d : IsDecision s p e s') where
  -- Of a decision that answered nothing, no group became complete.
  pending-all :
      e ≡ pending
      → (x : ℕ) → 0 < waiting s₀.req (s₀.grp x).members
      → waiting s'.req (s'.grp x).members ≡ 0
      → Has x gs
  pending-all waits x w z = elim (eq_or_ne (s.req p).token_grp x) [
    | inr far ↦ c.all x w (sym (decision-others s s' p e c.store h d x far) ∙ z)
    | inl near ↦ elim d.decides.answered [
      | inl (_, _, inl some_left) ↦
          let same = ap (waiting s'.req) d.decides.members in
          let none_left = subst (λ y. waiting s'.req (s'.grp y).members ≡ 0) (sym near) z in
          absurd (omega (arith, some_left, same, none_left))
      | inl (_, _, inr before) ↦
          c.all x w (subst (λ y. waiting s.req (s.grp y).members ≡ 0) near before)
      | inr (_, _, _, inl (fine, _)) ↦ absurd (ok-ne-pending (sym fine ∙ waits))
      | inr (_, _, _, inr failed) ↦ absurd (failed_node-ne-pending (sym failed ∙ waits))
    ]
  ]

  reported-all :
      (x : ℕ)
      → 0 < waiting s₀.req (s₀.grp x).members
      → waiting s'.req (s'.grp x).members ≡ 0
      → Has x ((s.req p).token_grp ∷ gs)
  reported-all x w z = elim (eq_or_ne (s.req p).token_grp x) [
    | inl near ↦ inl near
    | inr far ↦ inr (c.all x w (sym (decision-others s s' p e c.store h d x far) ∙ z))
  ]

  pub decision-Since : e ≡ pending → Since s₀ s' gs
  decision-Since waits = record {
    store = decision-IsStore s s' p e c.store h d;
    keeps = Keeps-trans c.keeps d.keeps;
    members = λ g. decision-SameMembers s s' p e c.store h d g ∙ c.members g;
    reported = IsReported-later s₀ s s' gs (decision-IsComplete s s' p e c.store h d) c.reported;
    all = pending-all waits;
  }

  pub report-Since : e ≢ pending → Since s₀ s' ((s.req p).token_grp ∷ gs)
  report-Since final =
      let (w, done) = decision-answered s s' p e c.store h d final in
      let g = (s.req p).token_grp in
      let before : 0 < waiting s₀.req (s₀.grp g).members = omega (
        arith,
        w,
        waiting_mono s₀ s (s₀.grp g).members c.keeps,
        ap (waiting s.req) (c.members g),
      ) in
      record {
        store = decision-IsStore s s' p e c.store h d;
        keeps = Keeps-trans c.keeps d.keeps;
        members = λ x. decision-SameMembers s s' p e c.store h d x ∙ c.members x;
        reported = (
          before,
          done,
          (λ again. omega (arith, w, (reported-IsComplete s₀ s g gs c.reported again).decided)),
          IsReported-later s₀ s s' gs (decision-IsComplete s s' p e c.store h d) c.reported,
        );
        all = reported-all;
      }

IsReported-from :
    (s₀ s s' : Store) (gs : List ℕ)
    → ((g : ℕ) → waiting s.req (s.grp g).members ≡ waiting s₀.req (s₀.grp g).members)
    → IsReported s s' gs
    → IsReported s₀ s' gs
IsReported-from s₀ s s' [] same r = tt
IsReported-from s₀ s s' (g ∷ gs) same r =
    (omega (arith, r.0, same g), r.1, r.2, IsReported-from s₀ s s' gs same r.3)

-- What decisions have made of a store that counts as an older one did.
pub Since-from :
    (s₀ s s' : Store) (gs : List ℕ)
    → Since s₀ s []
    → ((g : ℕ) → waiting s.req (s.grp g).members ≡ waiting s₀.req (s₀.grp g).members)
    → Since s s' gs
    → Since s₀ s' gs
Since-from s₀ s s' gs before same after = record {
  store = after.store;
  keeps = Keeps-trans before.keeps after.keeps;
  members = λ g. after.members g ∙ before.members g;
  reported = IsReported-from s₀ s s' gs same after.reported;
  all = λ g w z. after.all g (omega (arith, w, same g)) z;
}

-- A store in which requests were changed in nothing that groups count.
module _ (s s' : Store) (e : s'.grp ≡ s.grp) (stat : (q : ℕ) → (s'.req q).stat ≡ (s.req q).stat)
    (back : (q : ℕ) → (s'.req q).token_grp ≡ (s.req q).token_grp) where
  pub waiting-stat : (ps : List ℕ) → waiting s'.req ps ≡ waiting s.req ps
  unfolding waiting
  waiting-stat [] = refl
  waiting-stat (p ∷ ps) = let ih = waiting-stat ps in rw (stat p, ih) refl

  failures-stat : (ps : List ℕ) → failures s'.req ps ≡ failures s.req ps
  unfolding failures
  failures-stat [] = refl
  failures-stat (p ∷ ps) = let ih = failures-stat ps in rw (stat p, ih) refl

  BelongTo-stat : (g : ℕ) (ps : List ℕ) → BelongTo s g ps → BelongTo s' g ps
  BelongTo-stat g [] b = tt
  BelongTo-stat g (p ∷ ps) b = (back p ∙ b.0, BelongTo-stat g ps b.1)

  relabel-IsLive : (g : ℕ) → IsLive s g → IsLive s' g
  relabel-IsLive g live =
      let same : s'.grp g ≡ s.grp g = ap (λ f. f g) e in
      let w = waiting-stat (s.grp g).members in
      let f = failures-stat (s.grp g).members in
      record {
        group = record {
          bound = live.group.bound;
          distinct = rw same live.group.distinct;
          counted = rw (same, w) live.group.counted;
          small = rw (same, w) live.group.small;
          marked = rw (same, f) live.group.marked;
        };
        back = rw same (BelongTo-stat g (s.grp g).members live.back);
      }

  pub relabel-IsStore : IsStore s → IsStore s'
  relabel-IsStore v g = elim (v g) [
    | inl empty ↦ inl (ap (λ f. (f g).members) e ∙ empty)
    | inr live ↦ inr (relabel-IsLive g live)
  ]
