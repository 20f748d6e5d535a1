-- ===== src/ReqgrpManager/Life/Held.antt =====
-- sysqos_token_reqgrp_manager.c: a group that the application holds no longer.
use datastor_qos.Base.{
  ℕ, suc, ◌+◌, ◌≤◌, ◌<◌, ◌≡◌, refl, sym, ap, subst, ◌∙◌, ◌≢◌, inl, inr, true, false, List, [], ◌∷◌,
  arith, length, sum_of, ◌==◌, if◌then◌else◌, eq_of_==, ne_of_==, ==_refl, Bool-cases,
}
use datastor_qos.MemoryCache.Counting
use datastor_qos.HashTable.{Keys}
use datastor_qos.TokenReqgrp.{Store}
use datastor_qos.TokenReqgrp.Counts.{Falls, Has, Distinct}
use datastor_qos.TokenReqgrp.Keeps.{Keeps}
use datastor_qos.ReqgrpManager.{ReqgrpManager}
use datastor_qos.ReqgrpManager.Nodes.{IsValid}
use datastor_qos.ReqgrpManager.Queued.{IsQueued}
use datastor_qos.ReqgrpManager.Life.{IsRunning, members_at, size_at}

-- The groups held without one.
abbrev pub without : ℕ → List ℕ → List ℕ
without g [] = []
without g (h ∷ hs) = if h == g then hs else h ∷ without g hs

pub without-head : (g : ℕ) (hs : List ℕ) → without g (g ∷ hs) ≡ hs
without-head g hs = ap (λ b. if b then hs else g ∷ without g hs) (==_refl g)

without-here : (g h : ℕ) (hs : List ℕ) → (h == g) ≡ true → without g (h ∷ hs) ≡ hs
without-here g h hs e = ap (λ b. if b then hs else h ∷ without g hs) e

without-there : (g h : ℕ) (hs : List ℕ) → (h == g) ≡ false → without g (h ∷ hs) ≡ h ∷ without g hs
without-there g h hs e = ap (λ b. if b then hs else h ∷ without g hs) e

Has-without : (g x : ℕ) (hs : List ℕ) → Has x (without g hs) → Has x hs
Has-without g x [] k = k
Has-without g x (h ∷ hs) k = elim (Bool-cases (h == g)) [
  | inl here ↦ inr (subst (Has x) (without-here g h hs here) k)
  | inr far ↦ elim (subst (Has x) (without-there g h hs far) k) [
    | inl e ↦ inl e
    | inr there ↦ inr (Has-without g x hs there)
  ]
]

Distinct-without : (g : ℕ) (hs : List ℕ) → Distinct hs → Distinct (without g hs)
Distinct-without g [] d = tt
Distinct-without g (h ∷ hs) d = elim (Bool-cases (h == g)) [
  | inl here ↦ subst Distinct (sym (without-here g h hs here)) d.1
  | inr far ↦
      subst Distinct (sym (without-there g h hs far))
        ((λ k. d.0 (Has-without g h hs k)), Distinct-without g hs d.1)
]

without-gone : (g : ℕ) (hs : List ℕ) → Distinct hs → ¬ Has g (without g hs)
without-gone g [] d k = k
without-gone g (h ∷ hs) d k = elim (Bool-cases (h == g)) [
  | inl here ↦
      d.0 (
        subst (λ x. Has x hs) (sym (eq_of_== h g here))
          (subst (Has g) (without-here g h hs here) k))
  | inr far ↦ elim (subst (Has g) (without-there g h hs far) k) [
    | inl e ↦ ne_of_== h g far e
    | inr there ↦ without-gone g hs d.1 there
  ]
]

without-stays : (g x : ℕ) (hs : List ℕ) → x ≢ g → Has x hs → Has x (without g hs)
without-stays g x [] far k = k
without-stays g x (h ∷ hs) far k = elim (Bool-cases (h == g)) [
  | inl here ↦
      subst (Has x) (sym (without-here g h hs here))
        (elim k [ inl e ↦ absurd (far (sym e ∙ eq_of_== h g here)) | inr there ↦ there ])
  | inr other ↦
      subst (Has x) (sym (without-there g h hs other))
        (elim k [ inl e ↦ inl e | inr there ↦ inr (without-stays g x hs far there) ])
]

pub sum_of-without :
    (f : ℕ → ℕ) (g : ℕ) (hs : List ℕ) → Has g hs → sum_of f (without g hs) + f g ≡ sum_of f hs
sum_of-without f g [] k = absurd k
sum_of-without f g (h ∷ hs) k = elim (Bool-cases (h == g)) [
  | inl here ↦
      let e = ap (sum_of f) (without-here g h hs here) in
      let same = ap f (eq_of_== h g here) in omega (arith, e, same)
  | inr far ↦
      let e = ap (sum_of f) (without-there g h hs far) in
      elim k [
        | inl here ↦ absurd (ne_of_== h g far here)
        | inr there ↦ let ih = sum_of-without f g hs there in omega (arith, e, ih)
      ]
]

pub length-without : (g : ℕ) (hs : List ℕ) → Has g hs → suc (length (without g hs)) ≡ length hs
length-without g [] k = absurd k
length-without g (h ∷ hs) k = elim (Bool-cases (h == g)) [
  | inl here ↦ let e = ap length (without-here g h hs here) in omega (arith, e)
  | inr far ↦
      let e = ap length (without-there g h hs far) in
      elim k [
        | inl here ↦ absurd (ne_of_== h g far here)
        | inr there ↦ let ih = length-without g hs there in omega (arith, e, ih)
      ]
]

-- Sums over groups that are as they were.
pub sizes-kept :
    (s s' : Store) (gs : List ℕ)
    → ((h : ℕ) → Has h gs → members_at s' h ≡ members_at s h)
    → sum_of (size_at s') gs ≡ sum_of (size_at s) gs
sizes-kept s s' [] e = refl
sizes-kept s s' (g ∷ gs) e =
    let one = ap length (e g (inl refl)) in
    let rest = sizes-kept s s' gs (λ h k. e h (inr k)) in omega (arith, one, rest)

module _ (keys : Keys) (m m' : ReqgrpManager) (held : List ℕ) (g : ℕ) (v : IsRunning keys m held)
    (h : Has g held) (k : Keeps m.store m'.store) (counter : m'.next_grp ≡ m.next_grp)
    (others : (x : ℕ) → x ≢ g → members_at m'.store x ≡ members_at m.store x)
    (gone : members_at m'.store g ≡ []) where
  dropped_units :
      sum_of (size_at m'.store) (without g held) + size_at m.store g ≡ sum_of (size_at m.store) held
  dropped_units =
      let same = sizes-kept m.store m'.store (without g held) (λ x there.
        others x (λ e. without-gone g held v.once (subst (λ y. Has y (without g held)) e there))) in
      let sum = sum_of-without (size_at m.store) g held h in omega (arith, same, sum)

  -- The manager after a group was dropped.
  pub dropped-IsRunning :
      IsValid keys m'
      → IsQueued m'
      → Counting.IsValid m'.resource_cache
      → Counting.IsValid m'.token_grp_cache
      → Counting.live m'.resource_cache + size_at m.store g ≡ Counting.live m.resource_cache
      → suc (Counting.live m'.token_grp_cache) ≡ Counting.live m.token_grp_cache
      → IsRunning keys m' (without g held)
  dropped-IsRunning valid queued resources grps units grp_units = record {
    valid = valid;
    queued = queued;
    fresh = λ x. elim (Bool-cases (x == g)) [
      | inl here ↦
          subst (Falls m'.store.next) (sym (ap (members_at m'.store) (eq_of_== x g here) ∙ gone)) tt
      | inr far ↦
          subst (λ ps. Falls m'.store.next ps) (sym (others x (ne_of_== x g far)))
            (subst (λ n. Falls n (members_at m.store x)) (sym k.next) (v.fresh x))
    ];
    unmade = λ x new. elim (Bool-cases (x == g)) [
      | inl here ↦ ap (members_at m'.store) (eq_of_== x g here) ∙ gone
      | inr far ↦ others x (ne_of_== x g far) ∙ v.unmade x (subst (λ n. n ≤ x) counter new)
    ];
    resources = resources;
    grps = grps;
    units = omega (arith, units, v.units, dropped_units);
    grp_units = let n = length-without g held h in omega (arith, grp_units, v.grp_units, n);
    unheld = λ x far. elim (Bool-cases (x == g)) [
      | inl here ↦ ap (members_at m'.store) (eq_of_== x g here) ∙ gone
      | inr other ↦
          let ne = ne_of_== x g other in
          others x ne ∙ v.unheld x (λ there. far (without-stays g x held ne there))
    ];
    once = Distinct-without g held v.once;
    made = λ x there. subst (λ n. x < n) (sym counter) (v.made x (Has-without g x held there));
  }
