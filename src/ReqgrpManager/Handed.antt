-- ===== src/ReqgrpManager/Handed.antt =====
-- sysqos_token_reqgrp_manager.c: the queues after one more request asked for its tokens.
use datastor_qos.Base.{
  ◌<◌, false, ap, List, ℕ, ◌≡◌, sym, subst, ◌∙◌, ◌⊎◌, inl, inr, [], ◌∷◌, ◌==◌, eq_of_==, ne_of_==,
  Bool-cases,
}
use datastor_qos.Interface.{QosError}
use datastor_qos.TokenReqgrp.{init}
use datastor_qos.TokenReqgrp.Counts.{
  Has, Distinct, Distinct-append, Has-append_cases, Has-append_left,
}
use datastor_qos.HashTable.{Keys}
use datastor_qos.ReqgrpManager.{ReqgrpManager}
use datastor_qos.TokenReqgrp.{is_init}
use datastor_qos.TokenReqgrp.Whole.{eq_or_ne}
use datastor_qos.HashTable.View.{view}
use datastor_qos.ReqgrpManager.Awaits.{AllWait, AreItems, undecided_only}
use datastor_qos.ReqgrpManager.Queued.{IsQueued, queue_at}
use datastor_qos.ReqgrpManager.Tries.{Tries}

module _ (keys : Keys) where
  module _ (m : ReqgrpManager) (p : ℕ) (r : QosError × ReqgrpManager) (t : Tries keys m p r)
      (new : (x : ℕ) → ¬ Has p (queue_at m.items x)) where
    -- What waits now waited before, or is the request that was handed over.
    came :
        (y q : ℕ)
        → Has q (queue_at r.1.items y)
        → Has q (queue_at m.items y) ⊎ ((p ≡ q) × (y ≡ t.touched.0))
    came y q h = elim (Bool-cases (y == t.touched.0)) [
      | inr far ↦
          let same = t.touched.1 y (ne_of_== y t.touched.0 far) in
          inl (subst (λ n. Has q n.lhead_nodereq.token_list) same h)
      | inl here ↦ elim (t.queues y) [
        | inl same ↦ inl (subst (Has q) same h)
        | inr (longer, _) ↦
            elim (Has-append_cases q (queue_at m.items y) (p ∷ []) (subst (Has q) longer h)) [
              | inl old ↦ inl old
              | inr (inl e) ↦ inr (e, eq_of_== y t.touched.0 here)
              | inr (inr never) ↦ absurd never
            ]
      ]
    ]

    tried-once : IsQueued m → (y : ℕ) → Distinct (queue_at r.1.items y)
    tried-once v y = elim (t.queues y) [
      | inl same ↦ subst Distinct (sym same) (v.once y)
      | inr (longer, _) ↦ subst Distinct (sym longer) (
          Distinct-append (queue_at m.items y) (p ∷ []) (v.once y) ((λ never. never), tt)
            (λ q old now. elim now [
              | inl e ↦ new y (subst (λ z. Has z (queue_at m.items y)) (sym e) old)
              | inr never ↦ never
            ]))
    ]

    tried_undecided :
        IsQueued m
        → (m.store.req p).stat ≡ init
        → (y q : ℕ) → Has q (queue_at r.1.items y)
        → (r.1.store.req q).stat ≡ init
    tried_undecided v e y q h = elim (t.queues y) [
      | inl same ↦
          let old = subst (Has q) same h in
          t.others q (λ z. new y (subst (λ x. Has x (queue_at m.items y)) z old))
          ∙ v.undecided y q old
      | inr (longer, stat) ↦
          elim (Has-append_cases q (queue_at m.items y) (p ∷ []) (subst (Has q) longer h)) [
            | inl old ↦
                t.others q (λ z. new y (subst (λ x. Has x (queue_at m.items y)) z old))
                ∙ v.undecided y q old
            | inr (inl here) ↦ subst (λ x. (r.1.store.req x).stat ≡ init) here (stat ∙ e)
            | inr (inr never) ↦ absurd never
          ]
    ]

    pub tried-IsQueued : IsQueued m → (m.store.req p).stat ≡ init → IsQueued r.1
    tried-IsQueued v e = record {
      undecided = tried_undecided v e;
      once = tried-once v;
      apart = λ y z q h k. elim (came y q h) [
        | inl old_y ↦ elim (came z q k) [
          | inl old_z ↦ v.apart y z q old_y old_z
          | inr (here, _) ↦
              absurd (new y (subst (λ x. Has x (queue_at m.items y)) (sym here) old_y))
        ]
        | inr (here, at_y) ↦ elim (came z q k) [
          | inl old_z ↦ absurd (new z (subst (λ x. Has x (queue_at m.items z)) (sym here) old_z))
          | inr (_, at_z) ↦ at_y ∙ sym at_z
        ]
      ];
    }

  -- The request that was handed over is decided or waits, and the others wait where they did.
  pub tried-AllWait :
      (m : ReqgrpManager) (p : ℕ) (ps : List ℕ) (r : QosError × ReqgrpManager)
      → Tries keys m p r
      → AllWait keys m (p ∷ ps)
      → AllWait keys r.1 ps
  tried-AllWait m p ps r t all g q h e far = elim (eq_or_ne p q) [
    | inl here ↦ elim t.placed [
      | inl decided ↦ absurd (
          undecided_only (r.1.store.req q).stat e
            (subst (λ x. is_init (r.1.store.req x).stat ≡ false) here decided))
      | inr (x, id, known, there) ↦ (
        x,
        id,
        ap (λ u. view keys u id) t.table ∙ known,
        subst (λ y. Has y (queue_at r.1.items x)) here there,
      )
    ]
    | inr other ↦
        let (x, id, known, there) =
          all g q (subst (Has q) (t.since.members g) h)
            (sym (t.others q (λ same. other (sym same))) ∙ e)
            (λ k. elim k [ inl same ↦ other same | inr later ↦ far later ]) in
        (
          x,
          id,
          ap (λ u. view keys u id) t.table ∙ known,
          elim (t.queues x) [
            | inl same ↦ subst (Has q) (sym same) there
            | inr (longer, _) ↦
                subst (Has q) (sym longer) (Has-append_left q (queue_at m.items x) (p ∷ []) there)
          ],
        )
  ]

  pub tried-AreItems :
      (m : ReqgrpManager) (p : ℕ) (r : QosError × ReqgrpManager)
      → Tries keys m p r
      → AreItems keys m
      → AreItems keys r.1
  tried-AreItems m p r t a id x e =
      subst (λ n. x < n) (sym t.items) (a id x (sym (ap (λ u. view keys u id) t.table) ∙ e))
