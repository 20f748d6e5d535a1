-- ===== src/TokenReqgrp/Whole.antt =====
-- sysqos_token_reqgrp.c: one decision in a store of several groups.
use datastor_qos.Base.{
  ℕ, ◌≤◌, ◌<◌, ◌≡◌, refl, sym, ap, subst, ◌∙◌, ◌≢◌, ◌⊎◌, inl, inr, List, [], ◌∷◌, arith, All,
}
use datastor_qos.Interface.{QosError, ok, pending, failed_node}
use datastor_qos.TokenReqgrp.{TokenReq, Store, to_got, to_failed}
use datastor_qos.TokenReqgrp.Counts.{Has, waiting, failures}
use datastor_qos.TokenReqgrp.Keeps.{Keeps, to_got-Keeps, to_failed-Keeps}
use datastor_qos.TokenReqgrp.Once.{IsGroup, Decides, to_got-Decides, to_failed-Decides}

-- Every request of a list belongs to a group.
abbrev pub BelongTo : Store → ℕ → List ℕ → Type 0
BelongTo s g = All (λ p. (s.req p).token_grp ≡ g)

-- A group in use: its counts are right, and its requests point back to it.
pub record IsLive (s : Store) (g : ℕ) : Type 0 where
  pub group : IsGroup s g
  pub back : BelongTo s g (s.grp g).members

-- Every group is in use, or has no member.
abbrev pub IsStore : Store → Type 0
IsStore s = (g : ℕ) → ((s.grp g).members ≡ []) ⊎ IsLive s g

-- A request that its group lists.
abbrev pub IsListed : Store → ℕ → Type 0
IsListed s p = Has p (s.grp (s.req p).token_grp).members

-- Every group has the requests it had.
abbrev pub SameMembers : Store → Store → Type 0
SameMembers s s' = (g : ℕ) → (s'.grp g).members ≡ (s.grp g).members

-- Only one request and its group were written to.
pub record Local (s : Store) (g p : ℕ) (s' : Store) : Type 0 where
  pub req : (q : ℕ) → q ≢ p → s'.req q ≡ s.req q
  pub grp : (h : ℕ) → h ≢ g → s'.grp h ≡ s.grp h

to_got-Local : (s : Store) (g p : ℕ) → Local s g p (to_got s g p).1
unfolding to_got
to_got-Local s g p = record { req = λ q d. ground arith; grp = λ h d. ground arith }

to_failed-Local : (s : Store) (g p : ℕ) → Local s g p (to_failed s g p).1
unfolding to_failed
to_failed-Local s g p = record { req = λ q d. ground arith; grp = λ h d. ground arith }

pub waiting-same :
    (f f' : ℕ → TokenReq) (ps : List ℕ) → All (λ p. f' p ≡ f p) ps → waiting f' ps ≡ waiting f ps
unfolding waiting
waiting-same f f' [] e = refl
waiting-same f f' (p ∷ ps) e = let ih = waiting-same f f' ps e.1 in rw (e.0, ih) refl

failures-same :
    (f f' : ℕ → TokenReq) (ps : List ℕ) → All (λ p. f' p ≡ f p) ps → failures f' ps ≡ failures f ps
unfolding failures
failures-same f f' [] e = refl
failures-same f f' (p ∷ ps) e = let ih = failures-same f f' ps e.1 in rw (e.0, ih) refl

pub waiting_mono : (s s' : Store) (ps : List ℕ) → Keeps s s' → waiting s'.req ps ≤ waiting s.req ps
unfolding waiting
waiting_mono s s' [] k = omega arith
waiting_mono s s' (p ∷ ps) k = ground (arith, waiting_mono s s' ps k, k.stat p)

Same :
    (s s' : Store) (g h p : ℕ) (ps : List ℕ)
    → Local s g p s'
    → (s.req p).token_grp ≡ g
    → g ≢ h
    → BelongTo s h ps
    → All (λ q. s'.req q ≡ s.req q) ps
Same s s' g h p [] l e d b = tt
Same s s' g h p (q ∷ ps) l e d b = (
  l.req q (λ same. d (sym e ∙ ap (λ x. (s.req x).token_grp) (sym same) ∙ b.0)),
  Same s s' g h p ps l e d b.1,
)

BelongTo-kept :
    (s s' : Store) (g : ℕ) (ps : List ℕ) → Keeps s s' → BelongTo s g ps → BelongTo s' g ps
BelongTo-kept s s' g [] k b = tt
BelongTo-kept s s' g (p ∷ ps) k b = (k.grp p ∙ b.0, BelongTo-kept s s' g ps k b.1)

-- One decision on a request of a group in use.
pub record IsDecision (s : Store) (p : ℕ) (e : QosError) (s' : Store) : Type 0 where
  pub keeps : Keeps s s'
  pub local : Local s (s.req p).token_grp p s'
  pub decides : Decides s (s.req p).token_grp e s'

listed-IsLive : (s : Store) (p : ℕ) → IsStore s → IsListed s p → IsLive s (s.req p).token_grp
listed-IsLive s p v h = elim (v (s.req p).token_grp) [
  | inl empty ↦ absurd (subst (Has p) empty h)
  | inr live ↦ live
]

pub to_got-IsDecision :
    (s : Store) (p : ℕ)
    → IsStore s
    → IsListed s p
    → IsDecision s p (to_got s (s.req p).token_grp p).0 (to_got s (s.req p).token_grp p).1
to_got-IsDecision s p v h = record {
  keeps = to_got-Keeps s (s.req p).token_grp p;
  local = to_got-Local s (s.req p).token_grp p;
  decides = to_got-Decides s (s.req p).token_grp p (listed-IsLive s p v h).group h;
}

pub to_failed-IsDecision :
    (s : Store) (p : ℕ)
    → IsStore s
    → IsListed s p
    → IsDecision s p (to_failed s (s.req p).token_grp p).0 (to_failed s (s.req p).token_grp p).1
to_failed-IsDecision s p v h = record {
  keeps = to_failed-Keeps s (s.req p).token_grp p;
  local = to_failed-Local s (s.req p).token_grp p;
  decides = to_failed-Decides s (s.req p).token_grp p (listed-IsLive s p v h).group h;
}

pub frame-IsGroup :
    (s s' : Store) (h : ℕ)
    → s'.grp h ≡ s.grp h
    → All (λ q. s'.req q ≡ s.req q) (s.grp h).members
    → IsGroup s h
    → IsGroup s' h
frame-IsGroup s s' h e same v =
    let w = waiting-same s.req s'.req (s.grp h).members same in
    let f = failures-same s.req s'.req (s.grp h).members same in
    record {
      bound = v.bound;
      distinct = rw e v.distinct;
      counted = rw (e, w) v.counted;
      small = rw (e, w) v.small;
      marked = rw (e, f) v.marked;
    }

-- A group is decided, with OK only if no request failed.
pub record IsComplete (s : Store) (g : ℕ) : Type 0 where
  pub decided : waiting s.req (s.grp g).members ≡ 0
  pub answer :
      (((s.grp g).err ≡ ok) × (failures s.req (s.grp g).members ≡ 0))
      ⊎ ((s.grp g).err ≡ failed_node)

frame-IsComplete :
    (s s' : Store) (h : ℕ)
    → s'.grp h ≡ s.grp h
    → All (λ q. s'.req q ≡ s.req q) (s.grp h).members
    → IsComplete s h
    → IsComplete s' h
frame-IsComplete s s' h e same v =
    let w = waiting-same s.req s'.req (s.grp h).members same in
    let f = failures-same s.req s'.req (s.grp h).members same in
    record { decided = rw (e, w) v.decided; answer = rw (e, f) v.answer }

pub eq_or_ne : (a b : ℕ) → (a ≡ b) ⊎ (a ≢ b)
eq_or_ne a b = ground arith

module _ (s s' : Store) (p : ℕ) (e : QosError) (v : IsStore s) (h : IsListed s p)
    (d : IsDecision s p e s') where
  g : ℕ
  g = (s.req p).token_grp

  unchanged : (x : ℕ) → g ≢ x → All (λ q. s'.req q ≡ s.req q) (s.grp x).members
  unfolding g
  unchanged x far = elim (v x) [
    | inl empty ↦ rw empty tt
    | inr live ↦ Same s s' g x p (s.grp x).members d.local refl far live.back
  ]

  -- Another group counts what it counted.
  pub decision-others :
      (x : ℕ)
      → (s.req p).token_grp ≢ x
      → waiting s'.req (s'.grp x).members ≡ waiting s.req (s.grp x).members
  unfolding g
  decision-others x far =
      ap (λ r. waiting s'.req r.members) (d.local.grp x (λ same. far (sym same)))
      ∙ waiting-same s.req s'.req (s.grp x).members (unchanged x far)

  -- The groups stay what they are.
  pub decision-SameMembers : SameMembers s s'
  unfolding g
  decision-SameMembers x = elim (eq_or_ne g x) [
    | inl near ↦ subst (λ y. (s'.grp y).members ≡ (s.grp y).members) near d.decides.members
    | inr far ↦ ap (λ r. r.members) (d.local.grp x (λ same. far (sym same)))
  ]

  decision-IsLive : (x : ℕ) → IsLive s x → IsLive s' x
  unfolding g
  decision-IsLive x live = record {
    group = elim (eq_or_ne g x) [
      | inl near ↦ subst (IsGroup s') near d.decides.group
      | inr far ↦
          frame-IsGroup s s' x (d.local.grp x (λ same. far (sym same))) (unchanged x far) live.group
    ];
    back = rw (decision-SameMembers x) (BelongTo-kept s s' x (s.grp x).members d.keeps live.back);
  }

  pub decision-IsStore : IsStore s'
  decision-IsStore x = elim (v x) [
    | inl empty ↦ inl (decision-SameMembers x ∙ empty)
    | inr live ↦ inr (decision-IsLive x live)
  ]

  pub decision-IsListed : (q : ℕ) → IsListed s q → IsListed s' q
  decision-IsListed q listed = rw (d.keeps.grp q, decision-SameMembers (s.req q).token_grp) listed

  stays : IsComplete s g → IsComplete s' g
  unfolding g
  stays c =
      let (w, f) = d.decides.fixed c.decided in
      record {
        decided = rw d.decides.members w;
        answer = elim d.decides.answered [
          | inl (_, kept, _) ↦ rw (kept, d.decides.members, f) c.answer
          | inr (some_left, _, _, _) ↦ absurd (omega (arith, some_left, c.decided))
        ];
      }

  -- A complete group stays complete, with its answer.
  pub decision-IsComplete : (x : ℕ) → IsComplete s x → IsComplete s' x
  unfolding g
  decision-IsComplete x c = elim (eq_or_ne g x) [
    | inl near ↦ subst (IsComplete s') near (stays (subst (IsComplete s) (sym near) c))
    | inr far ↦ frame-IsComplete s s' x (d.local.grp x (λ same. far (sym same))) (unchanged x far) c
  ]

  -- The group that was decided last: it had something undecided, and is complete.
  pub decision-answered :
      e ≢ pending
      → (0 < waiting s.req (s.grp (s.req p).token_grp).members) × IsComplete s' (s.req p).token_grp
  decision-answered final = elim d.decides.answered [
    | inl (waits, _, _) ↦ absurd (final waits)
    | inr (w, none_left, kept, how) ↦ (
      w,
      record {
        decided = rw d.decides.members none_left;
        answer = elim how [
          | inl (fine, no_failure) ↦ inl (kept ∙ fine, rw d.decides.members no_failure)
          | inr failed ↦ inr (kept ∙ failed)
        ];
      },
    )
  ]
