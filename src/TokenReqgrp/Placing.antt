-- ===== src/TokenReqgrp/Placing.antt =====
-- sysqos_token_reqgrp.c: what building a group leaves of a store of several groups.
use datastor_qos.Base.{
  ℕ, ◌≤◌, ◌<◌, ◌≡◌, refl, sym, ap, subst, ◌∙◌, ◌≢◌, ◌⊎◌, inl, inr, true, List, [], ◌∷◌, arith, All,
  Bool-cases, ◌==◌, eq_of_==, ne_of_==,
}
use datastor_qos.Interface.{is_error, Resource}
use datastor_qos.MemoryCache
use datastor_qos.MemoryCache.{MemoryCache}
use datastor_qos.TokenReqgrp.{
  init, Store, set_grp, exit, add_member, init_rip_list, normal_val, init_group,
}
use datastor_qos.TokenReqgrp.Counts.{Falls, Has, Has-lt, waiting}
use datastor_qos.TokenReqgrp.Once.{IsGroup}
use datastor_qos.TokenReqgrp.Init.{placed, init_rip_list-cons}
use datastor_qos.TokenReqgrp.Whole.{
  IsLive, IsStore, IsListed, BelongTo, frame-IsGroup, waiting-same,
}

-- Undecided requests of a group that stand at or above a place.
abbrev pub AreNew : ℕ → Store → ℕ → List ℕ → Type 0
AreNew n s g = All (λ q. (n ≤ q) × ((s.req q).token_grp ≡ g) × ((s.req q).stat ≡ init))

-- A store in which a group was put together since it was `s`: older requests and other groups are as they
-- were.
pub record Placed (s : Store) (g : ℕ) (s' : Store) : Type 0 where
  pub req : (q : ℕ) → q < s.next → s'.req q ≡ s.req q
  pub grp : (h : ℕ) → h ≢ g → s'.grp h ≡ s.grp h
  pub next : s.next ≤ s'.next
  pub falls : Falls s'.next (s'.grp g).members
  pub members : AreNew s.next s' g (s'.grp g).members

AreNew-later :
    (n k : ℕ) (s : Store) (g : ℕ) (r : Resource) (ps : List ℕ)
    → Falls k ps
    → k ≤ s.next
    → AreNew n s g ps
    → AreNew n (add_member (placed s g r) g s.next) g ps
unfolding add_member
AreNew-later n k s g r [] f le a = tt
AreNew-later n k s g r (p ∷ ps) f le a = (
  (a.0.0, ground (arith, f.0, a.0), ground (arith, f.0, a.0)),
  AreNew-later n p s g r ps f.1 (omega (arith, f.0)) a.1,
)

added-members :
    (s : Store) (g : ℕ) (r : Resource)
    → ((add_member (placed s g r) g s.next).grp g).members ≡ s.next ∷ (s.grp g).members
unfolding add_member
added-members s g r = ground arith

added-new :
    (n : ℕ) (s : Store) (g : ℕ) (r : Resource)
    → n ≤ s.next
    → AreNew n (add_member (placed s g r) g s.next) g (s.next ∷ [])
unfolding add_member
added-new n s g r le = ((le, ground arith, ground arith), tt)

add-Placed :
    (s₀ s : Store) (g : ℕ) (r : Resource)
    → Placed s₀ g s
    → Placed s₀ g (add_member (placed s g r) g s.next)
unfolding add_member
add-Placed s₀ s g r b = record {
  req = λ q old. ground (arith, b.req q old, b.next);
  grp = λ h far. ground (arith, b.grp h far);
  next = ground (arith, b.next);
  falls = ground (arith, b.falls);
  members = rw (added-members s g r) (
    (added-new s₀.next s g r b.next).0,
    AreNew-later s₀.next s.next s g r (s.grp g).members b.falls (omega arith) b.members,
  );
}

init_rip_list-Placed :
    (s₀ s : Store) (c : MemoryCache) (g : ℕ) (rs : List Resource)
    → Placed s₀ g s
    → Placed s₀ g (init_rip_list s c g rs).1
unfolding init_rip_list
init_rip_list-Placed s₀ s c g [] b = b
init_rip_list-Placed s₀ s c g (r ∷ rs) b =
    let ih =
      init_rip_list-Placed s₀ (add_member (placed s g r) g s.next) (MemoryCache.alloc c true).1 g rs
        (add-Placed s₀ s g r b) in
    elim (Bool-cases (MemoryCache.alloc c true).0) [
      | inl y ↦ rw (init_rip_list-cons s c g r rs, y) ih
      | inr z ↦ rw (init_rip_list-cons s c g r rs, z) b
    ]

start-Placed : (s : Store) (g pri : ℕ) → Placed s g (set_grp s g (normal_val pri))
unfolding normal_val
start-Placed s g pri = record {
  req = λ q old. refl;
  grp = λ h far. ground arith;
  next = omega arith;
  falls = ground arith;
  members = ground arith;
}

dropped-Placed :
    (s s' : Store) (c : MemoryCache) (g : ℕ) → Placed s g s' → Placed s g (exit s' c g).0
unfolding exit
dropped-Placed s s' c g b = record {
  req = b.req;
  grp = λ h far. ground (arith, b.grp h far);
  next = b.next;
  falls = ground arith;
  members = ground arith;
}

pub init_group-Placed :
    (s : Store) (c : MemoryCache) (g : ℕ) (rs : List Resource) (pri : ℕ)
    → Placed s g (init_group s c g rs pri).1
unfolding init_group
init_group-Placed s c g rs pri =
    let r = init_rip_list (set_grp s g (normal_val pri)) c g rs in
    let b = init_rip_list-Placed s (set_grp s g (normal_val pri)) c g rs (start-Placed s g pri) in
    elim (Bool-cases (is_error r.0)) [
      | inl failed ↦ rw failed (dropped-Placed s r.1 r.2 g b)
      | inr fine ↦ rw fine b
    ]

-- What was so of the groups there are.
module _ (s s' : Store) (g : ℕ) (b : Placed s g s') where
  pub old_same : (k : ℕ) (ps : List ℕ) → Falls k ps → k ≤ s.next → All (λ q. s'.req q ≡ s.req q) ps
  old_same k [] f le = tt
  old_same k (p ∷ ps) f le = (b.req p (omega (arith, f.0)), old_same p ps f.1 (omega (arith, f.0)))

  BelongTo-old :
      (h : ℕ) (ps : List ℕ) → All (λ q. s'.req q ≡ s.req q) ps → BelongTo s h ps → BelongTo s' h ps
  BelongTo-old h [] e l = tt
  BelongTo-old h (p ∷ ps) e l = (ap (λ x. x.token_grp) e.0 ∙ l.0, BelongTo-old h ps e.1 l.1)

  -- A group that was there counts what it counted.
  pub waiting-old :
      (h : ℕ)
      → h ≢ g
      → Falls s.next (s.grp h).members
      → waiting s'.req (s'.grp h).members ≡ waiting s.req (s.grp h).members
  waiting-old h far f =
      ap (λ x. waiting s'.req x.members) (b.grp h far)
      ∙ waiting-same s.req s'.req (s.grp h).members
          (old_same s.next (s.grp h).members f (omega arith))

  old-IsLive : (h : ℕ) → h ≢ g → Falls s.next (s.grp h).members → IsLive s h → IsLive s' h
  old-IsLive h far f live =
      let same = old_same s.next (s.grp h).members f (omega arith) in
      record {
        group = frame-IsGroup s s' h (b.grp h far) same live.group;
        back = rw (b.grp h far) (BelongTo-old h (s.grp h).members same live.back);
      }

  back_of : (ps : List ℕ) → AreNew s.next s' g ps → BelongTo s' g ps
  back_of [] a = tt
  back_of (p ∷ ps) a = (a.0.1, back_of ps a.1)

  pub placed-IsStore :
      IsStore s
      → ((h : ℕ) → Falls s.next (s.grp h).members)
      → ((s'.grp g).members ≡ []) ⊎ IsGroup s' g
      → IsStore s'
  placed-IsStore v f here h = elim (Bool-cases (h == g)) [
    | inl same ↦
        subst (λ x. ((s'.grp x).members ≡ []) ⊎ IsLive s' x) (sym (eq_of_== h g same))
          (elim here [
            | inl empty ↦ inl empty
            | inr group ↦
                inr (record { group = group; back = back_of (s'.grp g).members b.members })
          ])
    | inr other ↦
        let far = ne_of_== h g other in
        elim (v h) [
          | inl empty ↦ inl (ap (λ x. x.members) (b.grp h far) ∙ empty)
          | inr live ↦ inr (old-IsLive h far (f h) live)
        ]
  ]

  -- A request that waited for another group is still listed.
  pub placed-IsListed :
      ((h : ℕ) → Falls s.next (s.grp h).members)
      → (s.grp g).members ≡ []
      → (q : ℕ) → IsListed s q
      → IsListed s' q
  placed-IsListed f empty q l =
      let h = (s.req q).token_grp in
      let old : s'.req q ≡ s.req q = b.req q (Has-lt q (s.grp h).members (f h) l) in
      let far : h ≢ g = λ e. subst (Has q) (ap (λ x. (s.grp x).members) e ∙ empty) l in
      subst (λ x. Has q (s'.grp x).members) (sym (ap (λ x. x.token_grp) old))
        (subst (λ x. Has q x.members) (sym (b.grp h far)) l)
