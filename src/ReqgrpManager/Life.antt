-- ===== src/ReqgrpManager/Life.antt =====
-- sysqos_token_reqgrp_manager.c: a manager in use, with the groups that the application holds.
pub mod Held
pub mod Places
pub mod Gets
pub mod Obtains
pub mod Puts
pub mod Starts
pub mod History
pub mod Endings
pub mod Tests
use datastor_qos.Base.{
  ℕ, zero, suc, ◌+◌, ◌-◌, ◌*◌, ◌/◌, ◌%◌, ◌^◌, ◌≤◌, ◌<◌, min, max, ◌≡◌, refl, sym, ap, subst, ◌∙◌,
  ◌≢◌, ◌↔◌, ◌⊎◌, inl, inr, Bool, true, false, not, ◌&&◌, ◌||◌, Option, none, some, List, [], ◌∷◌,
  ◌++◌, map, arith, length, sum_of, All, length-append, sum_of-append, ltb, leb, ◌==◌,
  if◌then◌else◌, ==_refl, eq_of_==, ne_of_==, lt_of_ltb, le_of_ltb, Bool-cases, Option-cases,
  lt-ltb, pos_or_zero, is_some, IsWord, add64, sub64, mul64, add32, sub32, sub64-eq-sub,
  add64-eq-add, ℤ, pos, negsuc, pos_part, neg_part, ltb_ℤ, eqb_ℤ, ◌<ℤ◌, eq_of_parts,
}
use datastor_qos.MemoryCache.Counting
use datastor_qos.HashTable.{Keys}
use datastor_qos.TokenReqgrp.{Store}
use datastor_qos.TokenReqgrp.Counts.{
  Falls, Falls-mono, Has, Distinct, Distinct-append, waiting, Has-append_left, Has-append_right,
}
use datastor_qos.TokenReqgrp.Whole.{SameMembers}
use datastor_qos.DispatchNode.{is_final}
use datastor_qos.ReqgrpManager.{ReqgrpManager, Answer}
use datastor_qos.ReqgrpManager.Nodes.{IsValid}
use datastor_qos.ReqgrpManager.Awaits.{AreItems, AllWait, StillWaits, still-AllWait}
use datastor_qos.ReqgrpManager.Queued.{IsQueued, Continues}
use datastor_qos.ReqgrpManager.Told.{
  undecided_at, undecided_at_mono, undecided_at-nil, told, IsAnswer, Tells, AllTold, Tells-nil,
}
use datastor_qos.ReqgrpManager.Evolves.{IsAnswerSince, Evolves, later-each}

-- The requests of a group.
abbrev pub members_at : Store → ℕ → List ℕ
members_at s g = (s.grp g).members

abbrev pub size_at : Store → ℕ → ℕ
size_at s g = length (members_at s g)

-- A manager in use. Exactly the groups that the application holds have requests, the caches have exactly
-- those groups and their requests out, and what waits is undecided and waits once.
pub record IsRunning (keys : Keys) (m : ReqgrpManager) (held : List ℕ) : Type 0 where
  pub valid : IsValid keys m
  pub queued : IsQueued m
  pub fresh : (g : ℕ) → Falls m.store.next (members_at m.store g)
  pub unmade : (g : ℕ) → m.next_grp ≤ g → members_at m.store g ≡ []
  pub resources : Counting.IsValid m.resource_cache
  pub grps : Counting.IsValid m.token_grp_cache
  pub units : Counting.live m.resource_cache ≡ sum_of (size_at m.store) held
  pub grp_units : Counting.live m.token_grp_cache ≡ length held
  pub unheld : (g : ℕ) → ¬ Has g held → members_at m.store g ≡ []
  pub once : Distinct held
  pub made : (g : ℕ) → Has g held → g < m.next_grp

-- No request is lost: each that is undecided waits at a dispatcher that the table knows.
abbrev pub NoneLost : Keys → ReqgrpManager → Type 0
NoneLost keys m = AreItems keys m × AllWait keys m []

module _ (keys : Keys) where
  pub Continues-NoneLost :
      (m m' : ReqgrpManager)
      → StillWaits keys m m'
      → Continues m m'
      → NoneLost keys m
      → NoneLost keys m'
  Continues-NoneLost m m' w c (items, all) = (
    w.items items,
    still-AllWait keys m m' w c.keeps (λ g p h. subst (Has p) (c.members g) h) items [] all,
  )

  -- A group with something undecided was made.
  pub made_of :
      (m : ReqgrpManager) (held : List ℕ) (g : ℕ)
      → IsRunning keys m held
      → 0 < undecided_at m.store g
      → g < m.next_grp
  made_of m held g v some_left = elim (Bool-cases (ltb g m.next_grp)) [
    | inl old ↦ lt_of_ltb _ _ old
    | inr new ↦
        let z = undecided_at-nil m.store g (v.unmade g (le_of_ltb _ _ new)) in
        absurd (omega (arith, z, some_left))
  ]

  tells-each :
      (m m' : ReqgrpManager) (held : List ℕ) (xs : List Answer)
      → IsRunning keys m held
      → m.next_grp ≤ m'.next_grp
      → All (IsAnswer m.store m'.store) xs
      → All (IsAnswerSince m m') xs
  tells-each m m' held [] v grows e = tt
  tells-each m m' held (a ∷ xs) v grows e =
      let made = made_of m held a.token_grp v e.0.0 in
      (((λ _. e.0.0), omega (arith, made), e.0.1, e.0.2), tells-each m m' held xs v grows e.1)

  pub tells-Evolves :
      (m m' : ReqgrpManager) (held : List ℕ) (xs : List Answer)
      → IsRunning keys m held
      → m.next_grp ≤ m'.next_grp
      → ((g : ℕ) → g < m.next_grp → undecided_at m'.store g ≤ undecided_at m.store g)
      → Tells m.store m'.store xs
      → AllTold m.store m'.store xs (λ g. g < m.next_grp)
      → Evolves m m' xs
  tells-Evolves m m' held xs v grows falls t all = record {
    grows = grows;
    falls = falls;
    each = tells-each m m' held xs v grows t.each;
    all = all;
    once = t.once;
  }

  -- Events without an answer, and then one that answers all groups but a new one.
  pub then-Evolves :
      (m₀ m m' : ReqgrpManager) (held : List ℕ) (xs : List Answer) (g : ℕ)
      → IsRunning keys m held
      → Evolves m₀ m []
      → m₀.next_grp ≤ g
      → m.next_grp ≤ m'.next_grp
      → ((h : ℕ) → undecided_at m'.store h ≤ undecided_at m.store h)
      → Tells m.store m'.store xs
      → AllTold m.store m'.store xs (λ h. h ≢ g)
      → Evolves m₀ m' xs
  then-Evolves m₀ m m' held xs g v e new grows falls t all = record {
    grows = omega (arith, e.grows, grows);
    falls =
        λ h old. let first = e.falls h old in let second = falls h in omega (arith, first, second);
    each = later-each m₀ m m' xs e.grows e.falls (tells-each m m' held xs v grows t.each);
    all = λ h old w z. elim (pos_or_zero (undecided_at m.store h)) [
      | inl left ↦ all h (λ same. omega (arith, old, new, same)) left z
      | inr done ↦ absurd (e.all h old w done)
    ];
    once = t.once;
  }

  sizes-same :
      (s s' : Store) (gs : List ℕ)
      → SameMembers s s'
      → sum_of (size_at s') gs ≡ sum_of (size_at s) gs
  sizes-same s s' [] e = refl
  sizes-same s s' (g ∷ gs) e =
      let one = ap length (e g) in let rest = sizes-same s s' gs e in omega (arith, one, rest)

  -- An event that makes no group and drops none.
  pub Continues-IsRunning :
      (m m' : ReqgrpManager) (held : List ℕ)
      → IsRunning keys m held
      → IsValid keys m'
      → Continues m m'
      → IsRunning keys m' held
  Continues-IsRunning m m' held v valid c = record {
    valid = valid;
    queued = c.queued v.queued;
    fresh = λ g.
        subst (λ ps. Falls m'.store.next ps) (sym (c.members g))
          (subst (λ n. Falls n (members_at m.store g)) (sym c.keeps.next) (v.fresh g));
    unmade = λ g new. c.members g ∙ v.unmade g (subst (λ n. n ≤ g) c.counter new);
    resources = rw c.resources v.resources;
    grps = rw c.grps v.grps;
    units =
        ap Counting.live c.resources ∙ v.units ∙ sym (sizes-same m.store m'.store held c.members);
    grp_units = ap Counting.live c.grps ∙ v.grp_units;
    unheld = λ g far. c.members g ∙ v.unheld g far;
    once = v.once;
    made = λ g h. subst (λ n. g < n) (sym c.counter) (v.made g h);
  }

  pub Continues-Evolves :
      (m m' : ReqgrpManager) (held : List ℕ) (xs : List Answer)
      → IsRunning keys m held
      → Continues m m'
      → Tells m.store m'.store xs
      → AllTold m.store m'.store xs (λ g. g < m.next_grp)
      → Evolves m m' xs
  Continues-Evolves m m' held xs v c t all =
      tells-Evolves m m' held xs v (omega (arith, c.counter))
        (λ g old. undecided_at_mono m.store m'.store g c.keeps (c.members g)) t all

  -- An event that gives no answer, as the store is what it was.
  pub silent-Evolves :
      (m m' : ReqgrpManager) (held : List ℕ)
      → IsRunning keys m held
      → Continues m m'
      → m'.store ≡ m.store
      → Evolves m m' []
  silent-Evolves m m' held v c e =
      Continues-Evolves m m' held [] v c (Tells-nil m.store m'.store)
        (λ g _ w z. let same = ap (λ s. undecided_at s g) e in omega (arith, w, z, same))
