-- ===== src/DispatchNode/Alloc.antt =====
-- sysqos_dispatch_node.c: handing a request to a node, and what its group is told.
use datastor_qos.Base.{
  ==_refl, ℕ, ◌<◌, ◌≡◌, refl, sym, ap, subst, ◌∙◌, ◌≢◌, ◌⊎◌, inl, inr, true, false, List, [], ◌∷◌,
  ◌++◌, arith, if◌then◌else◌, Bool-cases, pos_or_zero,
}
use datastor_qos.Interface.{QosError, pending, is_error}
use datastor_qos.BaseNode
use datastor_qos.BaseNode.{BaseNode}
use datastor_qos.NodereqList
use datastor_qos.NodereqList.{NodereqList, cost}
use datastor_qos.TokenReqgrp.{is_init, Store, set_req, to_got, to_failed}
use datastor_qos.TokenReqgrp.Counts.{Has, waiting}
use datastor_qos.TokenReqgrp.Keeps.{to_got_decides, to_failed_decides}
use datastor_qos.TokenReqgrp.Whole.{
  IsStore, IsListed, IsDecision, to_got-IsDecision, to_failed-IsDecision,
}
use datastor_qos.TokenReqgrp.Since.{
  Since, Since-refl, decision-Since, report-Since, relabel-IsStore, Since-IsListed, waiting-stat,
  Since-from,
}
use datastor_qos.DispatchNode.{DispatchNode, alloc_resource, is_final, granted}
use datastor_qos.DispatchNode.Reports.{
  AreListed, AreListed-later, is_final-ne-pending, unfinal-pending,
}

-- Noting the node of a request changes nothing that the groups count.
abbrev noted : DispatchNode → Store → ℕ → Store
noted n s p = set_req s p (record (s.req p) { node_id = n.fence_id })

noted-Since : (n : DispatchNode) (s : Store) (p : ℕ) → IsStore s → Since s (noted n s p) []
noted-Since n s p v = record {
  store = relabel-IsStore s (noted n s p) refl (λ q. ground arith) (λ q. ground arith) v;
  keeps = record {
    rs = λ q. ground arith;
    grp = λ q. ground arith;
    stat = λ q e. ground arith;
    next = refl;
  };
  members = λ g. refl;
  reported = tt;
  all = λ g w z.
      let same =
        waiting-stat s (noted n s p) refl (λ q. ground arith) (λ q. ground arith)
          (s.grp g).members in
      omega (arith, w, z, same);
}

AreListed-append :
    (s : Store) (ps : List ℕ) (p : ℕ) → AreListed s ps → IsListed s p → AreListed s (ps ++ p ∷ [])
AreListed-append s [] p h one = (one, tt)
AreListed-append s (q ∷ ps) p h one = (h.0, AreListed-append s ps p h.1 one)

refused-pending :
    (b : BaseNode) (c : ℕ)
    → is_error (BaseNode.try_alloc b c).0 ≡ true
    → (BaseNode.try_alloc b c).0 ≡ pending
unfolding BaseNode.try_alloc
refused-pending b c e = ground arith

-- The group of a request that was handed to a node, if this decided it.
abbrev pub answered : Store → ℕ → QosError → List ℕ
answered s p err = if is_final err then (s.req p).token_grp ∷ [] else []

-- The group of a request after it was handed to a node: it was answered, with the error that it keeps;
-- or nothing was, and something is undecided, unless nothing was before.
abbrev pub AnswersOf : Store → QosError → Store → ℕ → Type 0
AnswersOf s err s' g =
    ((is_final err ≡ true) × ((s'.grp g).err ≡ err))
    ⊎ ((err ≡ pending)
        × ((0 < waiting s'.req (s.grp g).members) ⊎ (waiting s.req (s.grp g).members ≡ 0)))

abbrev pub Answers : Store → ℕ → QosError → Store → Type 0
Answers s p err s' = AnswersOf s err s' (s.req p).token_grp

-- What an allocation did: the request is decided, or waits; and no other was decided.
pub record Alloced (s : Store) (p : ℕ) (r : QosError × DispatchNode × Store) : Type 0 where
  pub since : Since s r.2 (answered s p r.0)
  pub waits : AreListed r.2 r.1.lhead_nodereq.token_list
  pub others : (q : ℕ) → q ≢ p → (r.2.req q).stat ≡ (s.req q).stat
  pub placed : (is_init (r.2.req p).stat ≡ false) ⊎ Has p r.1.lhead_nodereq.token_list
  pub outcome : Answers s p r.0 r.2

decision-Answers :
    (s : Store) (p : ℕ) (e : QosError) (s' : Store) → IsDecision s p e s' → Answers s p e s'
decision-Answers s p e s' d = elim d.decides.answered [
  | inl (h, _, w) ↦ inr (h, w)
  | inr (_, _, h, inl (fine, _)) ↦ inl (rw fine refl, h)
  | inr (_, _, h, inr failed) ↦ inl (rw failed refl, h)
]

-- A request that was decided at once.
decision-Alloced :
    (n : DispatchNode) (s : Store) (p : ℕ) (e : QosError) (s' : Store)
    → IsStore s
    → IsListed s p
    → AreListed s n.lhead_nodereq.token_list
    → IsDecision s p e s'
    → is_init (s'.req p).stat ≡ false
    → Alloced s p (e, n, s')
decision-Alloced n s p e s' v one h d decided =
    let since : Since s s' (answered s p e) = elim (Bool-cases (is_final e)) [
      | inl final ↦
          rw final (report-Since s s s' [] p e (Since-refl s v) one d (is_final-ne-pending e final))
      | inr waits ↦
          rw waits
            (decision-Since s s s' [] p e (Since-refl s v) one d (unfinal-pending s p e s' d waits))
    ] in
    record {
      since = since;
      waits =
          AreListed-later s s' n.lhead_nodereq.token_list
            (λ q. Since-IsListed s s' (answered s p e) q since) h;
      others = λ q far. ap (λ r. r.stat) (d.local.req q far);
      placed = inl decided;
      outcome = decision-Answers s p e s' d;
    }

-- A decision on a listed request.
pub to_failed-Alloced :
    (n : DispatchNode) (s : Store) (p : ℕ)
    → IsStore s
    → IsListed s p
    → AreListed s n.lhead_nodereq.token_list
    → let (err, s') = to_failed s (s.req p).token_grp p in Alloced s p (err, n, s')
to_failed-Alloced n s p v one h =
    let d = to_failed-IsDecision s p v one in
    decision-Alloced n s p (to_failed s (s.req p).token_grp p).0
      (to_failed s (s.req p).token_grp p).1 v one h d (to_failed_decides s (s.req p).token_grp p)

granted-Alloced :
    (n : DispatchNode) (s : Store) (p : ℕ)
    → IsStore s
    → IsListed s p
    → AreListed s n.lhead_nodereq.token_list
    → Alloced s p (granted n s p)
granted-Alloced n s p v one h =
    decision-Alloced n s p (to_got s (s.req p).token_grp p).0 (to_got s (s.req p).token_grp p).1 v
      one h (to_got-IsDecision s p v one) (to_got_decides s (s.req p).token_grp p)

-- What is so after noting the node was so before.
noted-Alloced :
    (n : DispatchNode) (s : Store) (p : ℕ) (r : QosError × DispatchNode × Store)
    → IsStore s
    → Alloced (noted n s p) p r
    → Alloced s p r
noted-Alloced n s p r v a =
    let s₁ = noted n s p in
    let c = noted-Since n s p v in
    let here : (s₁.req p).token_grp ≡ (s.req p).token_grp = c.keeps.grp p in
    let same = waiting-stat s s₁ refl (λ q. ground arith) (λ q. ground arith) in
    record {
      since =
          subst (λ g. Since s r.2 (if is_final r.0 then g ∷ [] else [])) here
            (Since-from s s₁ r.2 (answered s₁ p r.0) c (λ g. same (s.grp g).members) a.since);
      waits = a.waits;
      others = λ q far. a.others q far ∙ ground arith;
      placed = a.placed;
      outcome = elim (subst (AnswersOf s₁ r.0 r.2) here a.outcome) [
        | inl final ↦ inl final
        | inr (e, inl w) ↦ inr (e, inl w)
        | inr (e, inr z) ↦ inr (e, inr (sym (same (s.grp (s.req p).token_grp).members) ∙ z))
      ];
    }

has-append : (ps : List ℕ) (p : ℕ) → Has p (ps ++ p ∷ [])
has-append [] p = inl refl
has-append (q ∷ ps) p = inr (has-append ps p)

-- A request that nothing was free for.
queued-Alloced :
    (n m : DispatchNode) (s : Store) (p : ℕ)
    → IsStore s
    → IsListed s p
    → AreListed s n.lhead_nodereq.token_list
    → m.lhead_nodereq.token_list ≡ n.lhead_nodereq.token_list ++ p ∷ []
    → Alloced s p (pending, m, s)
queued-Alloced n m s p v one h at_end = record {
  since = Since-refl s v;
  waits = rw at_end (AreListed-append s n.lhead_nodereq.token_list p h one);
  others = λ q far. refl;
  placed = inr (rw at_end (has-append n.lhead_nodereq.token_list p));
  outcome = inr (
    refl,
    elim (pos_or_zero (waiting s.req (s.grp (s.req p).token_grp).members)) [
      | inl some_left ↦ inl some_left
      | inr none_left ↦ inr none_left
    ],
  );
}

-- A request handed to a node, of a group in use, is decided or waits in the node's queue, and no other
-- request is decided. The call answers for its group, which is complete then and keeps the error that
-- is returned; or it answers that the group is pending, and something of the group is undecided then,
-- unless nothing was before.
pub alloc_resource-Alloced :
    (n : DispatchNode) (s : Store) (p : ℕ)
    → IsStore s
    → IsListed s p
    → AreListed s n.lhead_nodereq.token_list
    → Alloced s p (alloc_resource n s p)
unfolding alloc_resource NodereqList.push_back
alloc_resource-Alloced n s p v one h =
    let s₁ = noted n s p in
    let c = noted-Since n s p v in
    let one₁ = Since-IsListed s s₁ [] p c one in
    let h₁ = AreListed-later s s₁ n.lhead_nodereq.token_list (λ q. Since-IsListed s s₁ [] q c) h in
    let b = (BaseNode.try_alloc n.base_node (cost s₁ p)).1 in
    elim (Bool-cases (is_error (BaseNode.try_alloc n.base_node (cost s₁ p)).0)) [
      | inl refused ↦ elim (Bool-cases (is_error (BaseNode.try_alloc b (cost s₁ p)).0)) [
        | inl again ↦
            let queued = record n {
              base_node = (BaseNode.try_alloc b (cost s₁ p)).1;
              lhead_nodereq = NodereqList.push_back n.lhead_nodereq s₁ p;
            } in
            let why = refused-pending b (cost s₁ p) again in
            rw (refused, again, why)
              (noted-Alloced n s p (pending, queued, s₁) v
                (queued-Alloced n queued s₁ p c.store one₁ h₁ refl))
        | inr now ↦
            let later = record n { base_node = (BaseNode.try_alloc b (cost s₁ p)).1 } in
            rw (refused, now)
              (noted-Alloced n s p (granted later s₁ p) v
                (granted-Alloced later s₁ p c.store one₁ h₁))
      ]
      | inr fine ↦
          let now = record n { base_node = b } in
          rw fine
            (noted-Alloced n s p (granted now s₁ p) v (granted-Alloced now s₁ p c.store one₁ h₁))
    ]

-- The queue of a node after it was handed a request: as before, or with the request at its end, and then
-- this is as undecided as it was.
abbrev pub Queues : DispatchNode → Store → ℕ → DispatchNode × Store → Type 0
Queues n s p r =
    (r.0.lhead_nodereq.token_list ≡ n.lhead_nodereq.token_list)
    ⊎ ((r.0.lhead_nodereq.token_list ≡ n.lhead_nodereq.token_list ++ p ∷ [])
        × ((r.1.req p).stat ≡ (s.req p).stat))

pub alloc_resource-Queues :
    (n : DispatchNode) (s : Store) (p : ℕ)
    → Queues n s p ((alloc_resource n s p).1, (alloc_resource n s p).2)
unfolding alloc_resource NodereqList.push_back
alloc_resource-Queues n s p =
    let s₁ = noted n s p in
    let b = (BaseNode.try_alloc n.base_node (cost s₁ p)).1 in
    elim (Bool-cases (is_error (BaseNode.try_alloc n.base_node (cost s₁ p)).0)) [
      | inl refused ↦ elim (Bool-cases (is_error (BaseNode.try_alloc b (cost s₁ p)).0)) [
        | inl again ↦ rw (refused, again) (inr (refl, rw (==_refl p) refl))
        | inr now ↦ rw (refused, now) (inl refl)
      ]
      | inr fine ↦ rw fine (inl refl)
    ]
