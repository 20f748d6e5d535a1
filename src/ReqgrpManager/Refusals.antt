-- ===== src/ReqgrpManager/Refusals.antt =====
-- sysqos_token_reqgrp_manager.c: the tokens of a new group are asked for, and a group that is refused is
-- put back.
use datastor_qos.Base.{
  ℕ, suc, ◌+◌, ◌≤◌, ◌<◌, ◌≡◌, refl, sym, ap, subst, ◌∙◌, ◌≢◌, ◌⊎◌, inl, inr, true, false, List, [],
  ◌∷◌, arith, length, ◌==◌, eq_of_==, ne_of_==, Bool-cases,
}
use datastor_qos.Interface.{QosError, ok, pending, failed_node}
use datastor_qos.Run.{returns, Ends, Ends-Returns}
use datastor_qos.MemoryCache.Counting
use datastor_qos.HashTable.{Keys}
use datastor_qos.TokenReqgrp.Counts.{Falls, Has, waiting}
use datastor_qos.TokenReqgrp.Whole.{IsComplete}
use datastor_qos.DispatchNode.{is_final}
use datastor_qos.ReqgrpManager.{ReqgrpManager, Answer, is_refusal}
use datastor_qos.ReqgrpManager.Calls.{try_to_get_tokens, put_token_grp, put_if, ask_tokens}
use datastor_qos.ReqgrpManager.Nodes.{IsValid}
use datastor_qos.ReqgrpManager.Groups.{AreOpen, Gets, try_to_get_tokens-Gets}
use datastor_qos.ReqgrpManager.Awaits.{AllWait, AreItems, still-AllWait}
use datastor_qos.ReqgrpManager.Queued.{IsQueued}
use datastor_qos.TokenReqgrp.Keeps.{Keeps, Keeps-trans}
use datastor_qos.ReqgrpManager.Told.{AllTold, Tells, Tells-nil, Tells-before, undecided_at_mono}
use datastor_qos.ReqgrpManager.Puts.{Away}
use datastor_qos.ReqgrpManager.PutsBack.{
  PutsBack, PutsBack-Tells, PutsBack-told, put_token_grp-PutsBack,
}
use datastor_qos.ReqgrpManager.Asked.{Unasked-Away, Away-Unasked, Asked, ask-Asked}

final-ok : (e : QosError) → is_final e ≡ true → is_refusal e ≡ false → e ≡ ok
unfolding is_refusal
final-ok e final granted = ground arith

final-failed_node : (e : QosError) → is_final e ≡ true → is_refusal e ≡ true → e ≡ failed_node
unfolding is_refusal
final-failed_node e final refused = ground arith

true_ne_false : ¬ (true ≡ false)
true_ne_false e = ground arith

refusal-ne-pending : (e : QosError) → is_refusal e ≡ true → e ≢ pending
unfolding is_refusal
refusal-ne-pending e refused waits = ground arith

module _ (keys : Keys) where
  -- How asking for the tokens of a group ended: it has them all; or something is undecided, and it will be
  -- answered later; or it was refused, and is put back.
  pub record Asks (m : ReqgrpManager) (g : ℕ) (r : QosError × ReqgrpManager × List Answer)
      : Type 0 where
    pub valid : IsValid keys r.1
    pub counter : r.1.next_grp ≡ m.next_grp
    pub caches : Counting.IsValid r.1.resource_cache × Counting.IsValid r.1.token_grp_cache
    pub keeps : Keeps m.store r.1.store
    pub others : (h : ℕ) → h ≢ g → (r.1.store.grp h).members ≡ (m.store.grp h).members
    pub queued : IsQueued m → IsQueued r.1
    pub told : Tells m.store r.1.store r.2
    pub all : AllTold m.store r.1.store r.2 (λ h. h ≢ g)
    pub waits :
        AreItems keys m
        → AllWait keys m (m.store.grp g).members
        → AreItems keys r.1 × AllWait keys r.1 []
    pub held :
        is_refusal r.0 ≡ false
        → ((r.1.store.grp g).members ≡ (m.store.grp g).members)
          × (r.1.resource_cache ≡ m.resource_cache)
          × (r.1.token_grp_cache ≡ m.token_grp_cache)
    pub outcome :
        ((r.0 ≡ ok) × (r.2 ≡ []) × ((r.1.store.grp g).err ≡ ok) × IsComplete r.1.store g)
        ⊎ ((r.0 ≡ pending) × (r.2 ≡ []) × (0 < waiting r.1.store.req (r.1.store.grp g).members))
        ⊎ ((r.0 ≡ failed_node)
            × ((r.1.store.grp g).members ≡ [])
            × (Counting.live r.1.resource_cache + length (m.store.grp g).members
                ≡ Counting.live m.resource_cache)
            × (suc (Counting.live r.1.token_grp_cache) ≡ Counting.live m.token_grp_cache))

  put_if-refused :
      (m m' : ReqgrpManager) (g : ℕ) (err : QosError) (answers : List Answer)
      → put_token_grp keys m g [] ≡ returns (m', answers)
      → put_if keys true err m g ≡ returns (err, m', answers)
  unfolding put_if
  put_if-refused m m' g err answers f = rw (f, put_if) refl

  asked :
      (m : ReqgrpManager) (g : ℕ) (r : QosError × ReqgrpManager)
      → try_to_get_tokens keys m g (m.store.grp g).members ok ≡ returns r
      → ask_tokens keys m g ≡ put_if keys (is_refusal r.0) r.0 r.1 g
  unfolding ask_tokens
  asked m g r e = rw (e, ask_tokens) refl

  asks-granted :
      (m : ReqgrpManager) (g : ℕ) (r : QosError × ReqgrpManager)
      → try_to_get_tokens keys m g (m.store.grp g).members ok ≡ returns r
      → is_refusal r.0 ≡ false
      → ask_tokens keys m g ≡ returns (r.0, r.1, [])
  asks-granted m g r e granted =
      asked m g r e ∙ ap (λ b. put_if keys b r.0 r.1 g) granted ∙ (unfold put_if in refl)

  asks-refused :
      (m m'' : ReqgrpManager) (g : ℕ) (r : QosError × ReqgrpManager) (answers : List Answer)
      → try_to_get_tokens keys m g (m.store.grp g).members ok ≡ returns r
      → is_refusal r.0 ≡ true
      → put_token_grp keys r.1 g [] ≡ returns (m'', answers)
      → ask_tokens keys m g ≡ returns (r.0, m'', answers)
  asks-refused m m'' g r answers e refused f =
      asked m g r e
      ∙ ap (λ b. put_if keys b r.0 r.1 g) refused
      ∙ put_if-refused r.1 m'' g r.0 answers f

  granted-Asks :
      (m : ReqgrpManager) (g : ℕ) (r : QosError × ReqgrpManager)
      → is_refusal r.0 ≡ false
      → Gets keys m g r
      → Asked keys m g (m.store.grp g).members r
      → Counting.IsValid m.resource_cache
      → Counting.IsValid m.token_grp_cache
      → Asks m g (r.0, r.1, [])
  granted-Asks m g r granted c a resources grps = record {
    valid = c.valid;
    counter = a.counter;
    caches = (rw a.resources resources, rw a.grps grps);
    keeps = c.keeps;
    others = λ h far. c.members h;
    queued = a.queued;
    told = Tells-nil m.store r.1.store;
    waits = a.waits;
    all = λ h far w z. let left = a.calm h far w in absurd (omega (arith, left, z));
    held = λ _. (c.members g, a.resources, a.grps);
    outcome = elim c.outcome [
      | inl (final, kept, complete) ↦
          let fine : r.0 ≡ ok = final-ok r.0 final granted in
          inl (fine, refl, kept ∙ fine, complete)
      | inr (waits, some_left) ↦ inr (inl (waits, refl, some_left))
    ];
  }

  refused-IsComplete :
      (m : ReqgrpManager) (g : ℕ) (r : QosError × ReqgrpManager)
      → is_refusal r.0 ≡ true
      → Gets keys m g r
      → IsComplete r.1.store g
  refused-IsComplete m g r refused c = elim c.outcome [
    | inl (_, _, complete) ↦ complete
    | inr (waits, _) ↦ absurd (refusal-ne-pending r.0 refused waits)
  ]

  pub put_back_members :
      (m m' : ReqgrpManager) (g : ℕ)
      → ((h : ℕ) → h ≢ g → (m'.store.grp h).members ≡ (m.store.grp h).members)
      → (m'.store.grp g).members ≡ []
      → (h p : ℕ) → Has p (m'.store.grp h).members
      → Has p (m.store.grp h).members
  put_back_members m m' g others gone h p k = elim (Bool-cases (h == g)) [
    | inl here ↦
        absurd (subst (Has p) (ap (λ x. (m'.store.grp x).members) (eq_of_== h g here) ∙ gone) k)
    | inr far ↦ subst (Has p) (others h (ne_of_== h g far)) k
  ]

  refused-failed_node :
      (m : ReqgrpManager) (g : ℕ) (r : QosError × ReqgrpManager)
      → is_refusal r.0 ≡ true
      → Gets keys m g r
      → r.0 ≡ failed_node
  refused-failed_node m g r refused c = elim c.outcome [
    | inl (final, _, _) ↦ final-failed_node r.0 final refused
    | inr (waits, _) ↦ absurd (refusal-ne-pending r.0 refused waits)
  ]

  refused-Asks :
      (m : ReqgrpManager) (g : ℕ) (r : QosError × ReqgrpManager)
      → try_to_get_tokens keys m g (m.store.grp g).members ok ≡ returns r
      → is_refusal r.0 ≡ true
      → Gets keys m g r
      → Asked keys m g (m.store.grp g).members r
      → Counting.IsValid m.resource_cache
      → length (m.store.grp g).members ≤ Counting.live m.resource_cache
      → Counting.IsValid m.token_grp_cache
      → 0 < Counting.live m.token_grp_cache
      → Ends (ask_tokens keys m g) (Asks m g)
  refused-Asks m g r e refused c a resources enough grps some_grp =
      let complete = refused-IsComplete m g r refused c in
      let same = ap length (c.members g) in
      let units = ap Counting.live a.resources in
      let grp_units = ap Counting.live a.grps in
      let ((m'', answers), f, back) =
        Ends-Returns (put_token_grp keys r.1 g []) (PutsBack keys r.1 g) (
          put_token_grp-PutsBack keys r.1 g c.valid (rw a.resources resources)
            (omega (arith, enough, same, units)) (rw a.grps grps)
            (omega (arith, some_grp, grp_units))
            (λ x.
              Unasked-Away r.1.store g [] _ complete.decided (c.valid.waiting x) (a.queues x))) in
      rw (asks-refused m m'' g r answers e refused f) (record {
        valid = back.valid;
        counter = back.counter ∙ a.counter;
        caches = back.caches;
        keeps = Keeps-trans c.keeps back.keeps;
        others = λ h far. back.others h far ∙ c.members h;
        queued = λ q. back.queued (a.queued q);
        told =
            Tells-before m.store r.1.store m''.store answers
              (λ h. undecided_at_mono m.store r.1.store h c.keeps (c.members h))
              (PutsBack-Tells keys r.1 g (m'', answers) back);
        waits = λ i w.
            let (items, all) = a.waits i w in
            (
              back.still.items items,
              still-AllWait keys r.1 m'' back.still back.keeps
                  (put_back_members r.1 m'' g back.others back.gone) items [] all,
            );
        all = λ h far w z. PutsBack-told keys r.1 g (m'', answers) back h far (a.calm h far w) z;
        held = λ granted. absurd (true_ne_false (sym refused ∙ granted));
        outcome = inr (
            inr (
              refused-failed_node m g r refused c,
              back.gone,
              omega (arith, back.resources, same, units),
              omega (arith, back.grps, grp_units),
            ));
      })

  -- In a valid manager with valid caches, the tokens of a new group are asked for, of which every request
  -- is undecided and none waits at a node yet. This never ends the process, and leaves a valid manager:
  -- the group has all of its tokens and is complete; or it is pending, and something of it is undecided;
  -- or it is refused, and its requests and itself went back to the caches. Every other group keeps its
  -- requests, and is answered if it became decided. Where what waits was undecided and waited once, it is
  -- so still; where all undecided requests but those of the group waited at known dispatchers, all do.
  pub ask_tokens-Asks :
      (m : ReqgrpManager) (g n p : ℕ) (ps : List ℕ)
      → IsValid keys m
      → (m.store.grp g).members ≡ p ∷ ps
      → Falls n (p ∷ ps)
      → AreOpen keys m.store g (p ∷ ps)
      → ((x : ℕ) → Away m.store g (m.items x).lhead_nodereq.token_list)
      → Counting.IsValid m.resource_cache
      → length (m.store.grp g).members ≤ Counting.live m.resource_cache
      → Counting.IsValid m.token_grp_cache
      → 0 < Counting.live m.token_grp_cache
      → Ends (ask_tokens keys m g) (Asks m g)
  ask_tokens-Asks m g n p ps v members falls unasked away resources enough grps some_grp =
      let (r, e, c) =
        Ends-Returns (try_to_get_tokens keys m g (p ∷ ps) ok) (Gets keys m g)
          (try_to_get_tokens-Gets keys m g n p ps ok v falls unasked) in
      let queues =
        subst (λ x. Ends x (Asked keys m g (p ∷ ps))) e
          (ask-Asked keys m g n (p ∷ ps) ok v falls unasked
            (λ x. Away-Unasked m.store g (p ∷ ps) _ (away x))) in
      let queues' = subst (λ l. Asked keys m g l r) (sym members) queues in
      let e' : try_to_get_tokens keys m g (m.store.grp g).members ok ≡ returns r = rw members e in
      elim (Bool-cases (is_refusal r.0)) [
        | inl refused ↦ refused-Asks m g r e' refused c queues' resources enough grps some_grp
        | inr granted ↦
            rw (asks-granted m g r e' granted) (granted-Asks m g r granted c queues' resources grps)
      ]
