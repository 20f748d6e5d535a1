-- ===== src/ReqgrpManager/Asked.antt =====
-- sysqos_token_reqgrp_manager.c: the queues and the other groups, while tokens are asked for.
use datastor_qos.Base.{
  ℕ, ◌<◌, ◌≡◌, refl, sym, ap, subst, ◌∙◌, ◌≢◌, inl, inr, List, [], ◌∷◌, ◌++◌, arith, All,
  if◌then◌else◌, Bool-cases, pos_or_zero,
}
use datastor_qos.Interface.{QosError}
use datastor_qos.Run.{Ends, Ends_mono, Ends-Returns}
use datastor_qos.HashTable.{Keys}
use datastor_qos.TokenReqgrp.{init, Store}
use datastor_qos.TokenReqgrp.Counts.{Falls, Has, Has-lt, waiting, waiting_pos}
use datastor_qos.DispatchNode.{is_final}
use datastor_qos.DispatchNode.Alloc.{answered}
use datastor_qos.DispatchNode.Reports.{AreListed}
use datastor_qos.ReqgrpManager.{ReqgrpManager}
use datastor_qos.ReqgrpManager.Calls.{try_to_alloc, try_to_get_tokens}
use datastor_qos.ReqgrpManager.Nodes.{IsValid}
use datastor_qos.ReqgrpManager.Tries.{Tries, try_to_alloc-Tries}
use datastor_qos.ReqgrpManager.Groups.{AreOpen, AreOpen-later, open-IsListed, get-cons, get-nil}
use datastor_qos.ReqgrpManager.Awaits.{AllWait, AreItems}
use datastor_qos.ReqgrpManager.Queued.{IsQueued}
use datastor_qos.ReqgrpManager.Handed.{tried-IsQueued, tried-AllWait, tried-AreItems}
use datastor_qos.ReqgrpManager.Told.{undecided_at}
use datastor_qos.ReqgrpManager.Puts.{Away}

-- The requests of the group in a queue are undecided, and not among those that are still to be asked for.
abbrev pub Unasked : Store → ℕ → List ℕ → List ℕ → Type 0
Unasked s g ps = All (λ q. (s.req q).token_grp ≡ g → ((s.req q).stat ≡ init) × (¬ Has q ps))

pub Away-Unasked : (s : Store) (g : ℕ) (ps qs : List ℕ) → Away s g qs → Unasked s g ps qs
Away-Unasked s g ps [] a = tt
Away-Unasked s g ps (q ∷ qs) a = ((λ e. absurd (a.0 e)), Away-Unasked s g ps qs a.1)

-- Where nothing of the group is undecided, none of it waits.
pub Unasked-Away :
    (s : Store) (g : ℕ) (ps qs : List ℕ)
    → waiting s.req (s.grp g).members ≡ 0
    → AreListed s qs
    → Unasked s g ps qs
    → Away s g qs
Unasked-Away s g ps [] z l u = tt
Unasked-Away s g ps (q ∷ qs) z l u = (
  λ e.
      let some_left =
        waiting_pos s.req q (s.grp g).members (subst (λ x. Has q (s.grp x).members) e l.0)
          (u.0 e).0 in
      omega (arith, some_left, z),
  Unasked-Away s g ps qs z l.1 u.1,
)

Unasked-append :
    (s : Store) (g p : ℕ) (ps qs : List ℕ)
    → Unasked s g ps qs
    → ((s.req p).stat ≡ init) × (¬ Has p ps)
    → Unasked s g ps (qs ++ p ∷ [])
Unasked-append s g p ps [] u one = ((λ _. one), tt)
Unasked-append s g p ps (q ∷ qs) u one = (u.0, Unasked-append s g p ps qs u.1 one)

module _ (keys : Keys) where
  module _ (m : ReqgrpManager) (g p : ℕ) (ps : List ℕ) (r : QosError × ReqgrpManager)
      (t : Tries keys m p r) where
    Unasked-old : (qs : List ℕ) → Unasked m.store g (p ∷ ps) qs → Unasked r.1.store g ps qs
    Unasked-old [] u = tt
    Unasked-old (q ∷ qs) u = (
      λ e.
          let (still, not_there) = u.0 (sym (t.since.keeps.grp q) ∙ e) in
          (t.others q (λ same. not_there (inl (sym same))) ∙ still, λ there. not_there (inr there)),
      Unasked-old qs u.1,
    )

    Unasked-step :
        (m.store.req p).stat ≡ init
        → ¬ Has p ps
        → ((x : ℕ) → Unasked m.store g (p ∷ ps) (m.items x).lhead_nodereq.token_list)
        → (x : ℕ) → Unasked r.1.store g ps (r.1.items x).lhead_nodereq.token_list
    Unasked-step e new u x = elim (t.queues x) [
      | inl same ↦ rw same (Unasked-old _ (u x))
      | inr (longer, stat) ↦
          rw longer (Unasked-append r.1.store g p ps _ (Unasked-old _ (u x)) (stat ∙ e, new))
    ]

  -- A request that is still to be asked for waits nowhere.
  Unasked-new :
      (s : Store) (g p : ℕ) (ps qs : List ℕ)
      → (s.req p).token_grp ≡ g
      → Unasked s g (p ∷ ps) qs
      → ¬ Has p qs
  Unasked-new s g p ps [] e u h = h
  Unasked-new s g p ps (q ∷ qs) e u (inl same) =
      (u.0 (ap (λ x. (s.req x).token_grp) same ∙ e)).1 (inl (sym same))
  Unasked-new s g p ps (q ∷ qs) e u (inr h) = Unasked-new s g p ps qs e u.1 h

  answered-one :
      (s : Store) (p h : ℕ) (e : QosError) → Has h (answered s p e) → (s.req p).token_grp ≡ h
  answered-one s p h e k = elim (Bool-cases (is_final e)) [
    | inl final ↦
        elim (subst (Has h) (ap (λ b. if b then (s.req p).token_grp ∷ [] else []) final) k) [
          | inl same ↦ same
          | inr none_left ↦ absurd none_left
        ]
    | inr waits ↦
        absurd (subst (Has h) (ap (λ b. if b then (s.req p).token_grp ∷ [] else []) waits) k)
  ]

  -- Another group that had something undecided has it still.
  tried_calm :
      (m : ReqgrpManager) (g p : ℕ) (r : QosError × ReqgrpManager)
      → Tries keys m p r
      → (m.store.req p).token_grp ≡ g
      → (h : ℕ) → h ≢ g
      → 0 < undecided_at m.store h
      → 0 < undecided_at r.1.store h
  tried_calm m g p r t e h far w = elim (pos_or_zero (undecided_at r.1.store h)) [
    | inl left ↦ left
    | inr z ↦ absurd (far (sym (answered-one m.store p h r.0 (t.since.all h w z)) ∙ e))
  ]

  -- After the tokens were asked for.
  pub record Asked (m : ReqgrpManager) (g : ℕ) (ps : List ℕ) (r : QosError × ReqgrpManager)
      : Type 0 where
    pub queues : (x : ℕ) → Unasked r.1.store g [] (r.1.items x).lhead_nodereq.token_list
    pub resources : r.1.resource_cache ≡ m.resource_cache
    pub grps : r.1.token_grp_cache ≡ m.token_grp_cache
    pub counter : r.1.next_grp ≡ m.next_grp
    pub queued : IsQueued m → IsQueued r.1
    pub waits : AreItems keys m → AllWait keys m ps → AreItems keys r.1 × AllWait keys r.1 []
    pub calm : (h : ℕ) → h ≢ g → 0 < undecided_at m.store h → 0 < undecided_at r.1.store h

  pub ask-Asked :
      (m : ReqgrpManager) (g n : ℕ) (ps : List ℕ) (err : QosError)
      → IsValid keys m
      → Falls n ps
      → AreOpen keys m.store g ps
      → ((x : ℕ) → Unasked m.store g ps (m.items x).lhead_nodereq.token_list)
      → Ends (try_to_get_tokens keys m g ps err) (Asked m g ps)
  ask-Asked m g n [] err v f o u = rw (get-nil keys m g err) (record {
    queues = u;
    resources = refl;
    grps = refl;
    counter = refl;
    queued = λ q. q;
    calm = λ h far w. w;
    waits = λ i w. (i, w);
  })
  ask-Asked m g n (p ∷ ps) err v f (h, rest) u =
      let (r, e, t) =
        Ends-Returns (try_to_alloc keys m g p) (Tries keys m p)
          (try_to_alloc-Tries keys m g p v (open-IsListed keys m.store g p h.0 h.1) h.1) in
      let more = AreOpen-later keys m g p p ps r t f.1 (omega arith) rest in
      let new : ¬ Has p ps = λ there. omega (arith, Has-lt {n = p} p ps f.1 there) in
      let ih = ask-Asked r.1 g p ps r.0 t.valid f.1 more (Unasked-step m g p ps r t h.2 new u) in
      rw (get-cons keys m g p ps err r e) (
        Ends_mono (try_to_get_tokens keys r.1 g ps r.0) (Asked r.1 g ps) (Asked m g (p ∷ ps)) ih
          (λ r' a. record {
            queues = a.queues;
            resources = a.resources ∙ t.resources;
            grps = a.grps ∙ t.grps;
            counter = a.counter ∙ t.counter;
            waits =
                λ i w. a.waits (tried-AreItems keys m p r t i) (tried-AllWait keys m p ps r t w);
            calm = λ x far w. a.calm x far (tried_calm m g p r t h.1 x far w);
            queued = λ q.
                a.queued
                  (tried-IsQueued keys m p r t (λ x. Unasked-new m.store g p ps _ h.1 (u x)) q h.2);
          }))
