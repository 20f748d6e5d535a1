-- ===== src/ReqgrpManager/Life/Gets.antt =====
-- sysqos_token_reqgrp_manager.c: a manager in use gets the tokens of a new group.
use datastor_qos.Base.{
  ℕ, suc, ◌+◌, ◌≤◌, ◌<◌, ◌≡◌, ◌≢◌, refl, sym, ap, subst, ◌∙◌, ◌⊎◌, inl, inr, true, false, Option,
  none, some, All, List, [], ◌∷◌, arith, length, Bool-cases, if◌then◌else◌, ◌==◌, eq_of_==,
  ne_of_==,
}
use datastor_qos.Interface.{QosError, ok, pending, failed_node}
use datastor_qos.Run.{returns, Ends, Ends_mono}
use datastor_qos.MemoryCache.Counting
use datastor_qos.HashTable.{Keys}
use datastor_qos.TokenReqgrp.{TokenReq, Store, Stat}
use datastor_qos.TokenReqgrp.Whole.{IsComplete}
use datastor_qos.TokenReqgrp.Counts.{Has, Falls, waiting, failures}
use datastor_qos.TokenReqgrp.Placing.{AreNew}
use datastor_qos.ReqgrpManager.{ReqgrpManager, Answer, is_refusal}
use datastor_qos.ReqgrpManager.Calls.{ask_tokens, try_to_get_tokens, put_if}
use datastor_qos.ReqgrpManager.Groups.{AreOpen}
use datastor_qos.ReqgrpManager.Refusals.{Asks, ask_tokens-Asks}
use datastor_qos.ReqgrpManager.Puts.{Away}
use datastor_qos.ReqgrpManager.Awaits.{AreItems, AllWait}
use datastor_qos.ReqgrpManager.Queued.{queue_at}
use datastor_qos.ReqgrpManager.Told.{
  undecided_at, undecided_at_mono, undecided_at-nil, dropped-less,
}
use datastor_qos.ReqgrpManager.Life.{NoneLost, IsRunning, then-Evolves, members_at, size_at}
use datastor_qos.ReqgrpManager.Evolves.{Evolves}
use datastor_qos.ReqgrpManager.Life.Held.{without-head, dropped-IsRunning, sizes-kept}

-- The groups that the application holds after `get_token_grp`.
abbrev pub holds : List ℕ → QosError → Option ℕ → List ℕ
holds held err none = held
holds held err (some g) = if is_refusal err then held else g ∷ held

holds-granted :
    (held : List ℕ) (err : QosError) (g : ℕ)
    → is_refusal err ≡ false
    → holds held err (some g) ≡ g ∷ held
holds-granted held err g e = ap (λ b. if b then held else g ∷ held) e

holds-refused :
    (held : List ℕ) (err : QosError) (g : ℕ)
    → is_refusal err ≡ true
    → holds held err (some g) ≡ held
holds-refused held err g e = ap (λ b. if b then held else g ∷ held) e

-- The new requests of a group, in a store with the same requests and groups, are open.
pub open_of :
    (keys : Keys) (n : ℕ) (s : Store) (g : ℕ) (ps : List ℕ)
    → AreNew n s g ps
    → ((q : ℕ) → Has q ps → Has q (members_at s g))
    → AreOpen keys s g ps
open_of keys n s g [] a h = tt
open_of keys n s g (p ∷ ps) a h =
    ((h p (inl refl), a.0.1, a.0.2), open_of keys n s g ps a.1 (λ q there. h q (inr there)))

-- Each request of a group got its tokens.
abbrev pub HasAll : Store → ℕ → Type 0
HasAll s g = All (λ p. (s.req p).stat ≡ Stat.got) (members_at s g)

-- Requests of which none is undecided and none failed all got their tokens.
decided-got :
    (f : ℕ → TokenReq) (ps : List ℕ)
    → waiting f ps ≡ 0
    → failures f ps ≡ 0
    → All (λ p. (f p).stat ≡ Stat.got) ps
unfolding waiting failures
decided-got f [] none_waits none_failed = tt
decided-got f (p ∷ ps) none_waits none_failed =
    (ground arith, decided-got f ps (omega (arith, none_waits)) (omega (arith, none_failed)))

ok-ne-failed_node : ok ≢ failed_node
ok-ne-failed_node e = ground arith

complete-HasAll : (s : Store) (g : ℕ) → IsComplete s g → (s.grp g).err ≡ ok → HasAll s g
complete-HasAll s g c e = elim c.answer [
  | inl (_, none_failed) ↦ decided-got s.req (members_at s g) c.decided none_failed
  | inr failed ↦ absurd (ok-ne-failed_node (sym e ∙ failed))
]

module _ (keys : Keys) where
  -- A group was asked for: each of its requests got its tokens, or some will be answered, or a dispatcher failed, or
  -- there was no memory for it.
  abbrev pub GetsOf : ℕ → ℕ → QosError × ReqgrpManager → Type 0
  GetsOf g n r =
      ((r.0 ≡ ok) × (size_at r.1.store g ≡ n) × (undecided_at r.1.store g ≡ 0) × HasAll r.1.store g)
      ⊎ ((r.0 ≡ pending) × (size_at r.1.store g ≡ n) × (0 < undecided_at r.1.store g))
      ⊎ ((r.0 ≡ failed_node) × (size_at r.1.store g ≡ 0))

  -- The part of the call after the group was built.
  pub record Asking (m : ReqgrpManager) (held : List ℕ) (g : ℕ)
      (r : QosError × ReqgrpManager × List Answer) : Type 0 where
    pub runs : IsRunning keys r.1 (holds held r.0 (some g))
    pub evolves : (m₀ : ReqgrpManager) → m₀.next_grp ≤ g → Evolves m₀ m [] → Evolves m₀ r.1 r.2
    pub waits : AreItems keys m → AllWait keys m (members_at m.store g) → NoneLost keys r.1
    pub outcome : GetsOf g (size_at m.store g) (r.0, r.1)

  asks_nothing :
      (m : ReqgrpManager) (g : ℕ)
      → members_at m.store g ≡ []
      → ask_tokens keys m g ≡ returns (ok, m, [])
  unfolding ask_tokens try_to_get_tokens put_if is_refusal
  asks_nothing m g e = rw e refl

  empty-Asking :
      (m : ReqgrpManager) (held : List ℕ) (g : ℕ)
      → IsRunning keys m (g ∷ held)
      → members_at m.store g ≡ []
      → Ends (ask_tokens keys m g) (Asking m held g)
  unfolding is_refusal
  empty-Asking m held g v nothing = rw (asks_nothing m g nothing) (record {
    runs = v;
    evolves = λ m₀ new e. e;
    waits = λ i w. (i, subst (AllWait keys m) nothing w);
    outcome = inl (
      refl,
      refl,
      undecided_at-nil m.store g nothing,
      subst (All (λ p. (m.store.req p).stat ≡ Stat.got)) (sym nothing) tt,
    );
  })

  granted-Asking :
      (m : ReqgrpManager) (held : List ℕ) (g : ℕ) (r : QosError × ReqgrpManager × List Answer)
      → IsRunning keys m (g ∷ held)
      → Asks keys m g r
      → is_refusal r.0 ≡ false
      → IsRunning keys r.1 (g ∷ held)
  granted-Asking m held g r v a granted =
      let (same, units, grp_units) = a.held granted in
      let members : (h : ℕ) → members_at r.1.store h ≡ members_at m.store h = λ h.
        elim (Bool-cases (h == g)) [
          | inl here ↦
              subst (λ x. members_at r.1.store x ≡ members_at m.store x) (sym (eq_of_== h g here))
                same
          | inr far ↦ a.others h (ne_of_== h g far)
        ] in
      record {
        valid = a.valid;
        queued = a.queued v.queued;
        fresh = λ h.
            subst (λ ps. Falls r.1.store.next ps) (sym (members h))
              (subst (λ n. Falls n (members_at m.store h)) (sym a.keeps.next) (v.fresh h));
        unmade = λ h new. members h ∙ v.unmade h (subst (λ n. n ≤ h) a.counter new);
        resources = a.caches.0;
        grps = a.caches.1;
        units =
            ap Counting.live units
            ∙ v.units
            ∙ sym (sizes-kept m.store r.1.store (g ∷ held) (λ h _. members h));
        grp_units = ap Counting.live grp_units ∙ v.grp_units;
        unheld = λ h far. members h ∙ v.unheld h far;
        once = v.once;
        made = λ h there. subst (λ n. h < n) (sym a.counter) (v.made h there);
      }

  -- A group that was refused is gone.
  abbrev Gone : ReqgrpManager → ℕ → QosError × ReqgrpManager × List Answer → Type 0
  Gone m g r =
      (r.0 ≡ failed_node)
      × (members_at r.1.store g ≡ [])
      × (Counting.live r.1.resource_cache + size_at m.store g ≡ Counting.live m.resource_cache)
      × (suc (Counting.live r.1.token_grp_cache) ≡ Counting.live m.token_grp_cache)

  asked-cases :
      (m : ReqgrpManager) (g : ℕ) (r : QosError × ReqgrpManager × List Answer)
      → Asks keys m g r
      → (is_refusal r.0 ≡ false) ⊎ Gone m g r
  unfolding is_refusal
  asked-cases m g r a = elim a.outcome [
    | inl (e, _, _, _) ↦ inl (rw e refl)
    | inr (inl (e, _, _)) ↦ inl (rw e refl)
    | inr (inr gone) ↦ inr gone
  ]

  asked-falls :
      (m : ReqgrpManager) (g : ℕ) (r : QosError × ReqgrpManager × List Answer)
      → Asks keys m g r
      → (h : ℕ) → undecided_at r.1.store h ≤ undecided_at m.store h
  asked-falls m g r a h = elim (asked-cases m g r a) [
    | inr (_, gone, _, _) ↦ dropped-less m.store r.1.store g a.keeps a.others gone h
    | inl granted ↦ elim (Bool-cases (h == g)) [
      | inl here ↦
          let e = eq_of_== h g here in
          undecided_at_mono m.store r.1.store h a.keeps
            (subst (λ x. members_at r.1.store x ≡ members_at m.store x) (sym e) (a.held granted).0)
      | inr far ↦ undecided_at_mono m.store r.1.store h a.keeps (a.others h (ne_of_== h g far))
    ]
  ]

  asked-outcome :
      (m : ReqgrpManager) (g : ℕ) (r : QosError × ReqgrpManager × List Answer)
      → Asks keys m g r
      → GetsOf g (size_at m.store g) (r.0, r.1)
  unfolding is_refusal
  asked-outcome m g r a = elim a.outcome [
    | inl (e, _, kept, complete) ↦ inl (
      e,
      ap length (a.held (rw e refl)).0,
      complete.decided,
      complete-HasAll r.1.store g complete kept,
    )
    | inr (inl (e, _, some_left)) ↦ inr (inl (e, ap length (a.held (rw e refl)).0, some_left))
    | inr (inr (e, gone, _, _)) ↦ inr (inr (e, ap length gone))
  ]

  asked-IsRunning :
      (m : ReqgrpManager) (held : List ℕ) (g : ℕ) (r : QosError × ReqgrpManager × List Answer)
      → IsRunning keys m (g ∷ held)
      → Asks keys m g r
      → IsRunning keys r.1 (holds held r.0 (some g))
  unfolding is_refusal
  asked-IsRunning m held g r v a = elim (asked-cases m g r a) [
    | inl granted ↦
        subst (IsRunning keys r.1) (sym (holds-granted held r.0 g granted))
          (granted-Asking m held g r v a granted)
    | inr (e, gone, units, grps) ↦
        subst (IsRunning keys r.1)
          (without-head g held ∙ sym (holds-refused held r.0 g (rw e refl)))
          (dropped-IsRunning keys m r.1 (g ∷ held) g v (inl refl) a.keeps a.counter a.others gone
            a.valid (a.queued v.queued) a.caches.0 a.caches.1 units grps)
  ]

  asked-Asking :
      (m : ReqgrpManager) (held : List ℕ) (g : ℕ) (r : QosError × ReqgrpManager × List Answer)
      → IsRunning keys m (g ∷ held)
      → Asks keys m g r
      → Asking m held g r
  asked-Asking m held g r v a = record {
    runs = asked-IsRunning m held g r v a;
    evolves = λ m₀ new e.
        then-Evolves keys m₀ m r.1 (g ∷ held) r.2 g v e new (omega (arith, a.counter))
          (asked-falls m g r a) a.told a.all;
    waits = a.waits;
    outcome = asked-outcome m g r a;
  }

  -- A manager in use asks for the tokens of a group that was just built.
  pub ask-Asking :
      (m : ReqgrpManager) (held : List ℕ) (g : ℕ) (ps : List ℕ)
      → IsRunning keys m (g ∷ held)
      → members_at m.store g ≡ ps
      → AreOpen keys m.store g ps
      → ((x : ℕ) → Away m.store g (queue_at m.items x))
      → Ends (ask_tokens keys m g) (Asking m held g)
  ask-Asking m held g [] v e new away = empty-Asking m held g v e
  ask-Asking m held g (p ∷ ps) v e new away =
      Ends_mono (ask_tokens keys m g) (Asks keys m g) (Asking m held g)
        (ask_tokens-Asks keys m g m.store.next p ps v.valid e
          (subst (λ l. Falls m.store.next l) e (v.fresh g)) new away v.resources
          (omega (arith, v.units)) v.grps (omega (arith, v.grp_units)))
        (λ r a. asked-Asking m held g r v a)
