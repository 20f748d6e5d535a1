-- ===== src/ReqgrpManager/Groups.antt =====
-- sysqos_token_reqgrp_manager.c: getting the tokens of a group.
use datastor_qos.Base.{
  ℕ, ◌≤◌, ◌<◌, ◌≡◌, refl, sym, subst, ◌∙◌, ◌⊎◌, inl, inr, true, List, [], ◌∷◌, arith, All,
}
use datastor_qos.Interface.{QosError, pending}
use datastor_qos.Run.{returns, Ends, Ends_mono, Ends-Returns}
use datastor_qos.HashTable.{Keys}
use datastor_qos.TokenReqgrp.{init, Store}
use datastor_qos.TokenReqgrp.Counts.{Falls, Has, waiting, waiting_pos}
use datastor_qos.TokenReqgrp.Keeps.{Keeps, Keeps-trans}
use datastor_qos.TokenReqgrp.Whole.{IsListed, IsComplete, SameMembers}
use datastor_qos.DispatchNode.{is_final}
use datastor_qos.ReqgrpManager.{ReqgrpManager}
use datastor_qos.ReqgrpManager.Calls.{try_to_alloc, try_to_get_tokens}
use datastor_qos.ReqgrpManager.Nodes.{IsValid}
use datastor_qos.ReqgrpManager.Tries.{Tries, try_to_alloc-Tries}

module _ (keys : Keys) where
  -- Undecided requests of a group.
  abbrev pub AreOpen : Store → ℕ → List ℕ → Type 0
  AreOpen s g =
      All (λ q. Has q (s.grp g).members × ((s.req q).token_grp ≡ g) × ((s.req q).stat ≡ init))

  -- What is left when the tokens of a group were asked for: the error returned is the group's answer,
  -- which it keeps, and the group is complete; or the group is pending, and something is undecided.
  pub record Gets (m : ReqgrpManager) (g : ℕ) (r : QosError × ReqgrpManager) : Type 0 where
    pub valid : IsValid keys r.1
    pub keeps : Keeps m.store r.1.store
    pub members : SameMembers m.store r.1.store
    pub outcome :
        ((is_final r.0 ≡ true) × ((r.1.store.grp g).err ≡ r.0) × IsComplete r.1.store g)
        ⊎ ((r.0 ≡ pending) × (0 < waiting r.1.store.req (r.1.store.grp g).members))

  Tries-Gets :
      (m : ReqgrpManager) (p : ℕ) (r : QosError × ReqgrpManager)
      → let g = (m.store.req p).token_grp in
        0 < waiting m.store.req (m.store.grp g).members → Tries keys m p r → Gets m g r
  Tries-Gets m p r w t = record {
    valid = t.valid;
    keeps = t.since.keeps;
    members = t.since.members;
    outcome = elim t.outcome [
      | inl (final, kept) ↦
          let reported = rw final at t.since.reported in inl (final, kept, reported.1)
      | inr (e, inl some_left) ↦ inr (e, rw (t.since.members (m.store.req p).token_grp) some_left)
      | inr (e, inr none_left) ↦ absurd (omega (arith, w, none_left))
    ];
  }

  pub AreOpen-later :
      (m : ReqgrpManager) (g p n : ℕ) (ps : List ℕ) (r : QosError × ReqgrpManager)
      → Tries keys m p r
      → Falls n ps
      → n ≤ p
      → AreOpen m.store g ps
      → AreOpen r.1.store g ps
  AreOpen-later m g p n [] r t f le h = tt
  AreOpen-later m g p n (q ∷ qs) r t f le (h, rest) = (
    (rw (t.since.members g) h.0, t.since.keeps.grp q ∙ h.1, t.others q (λ e. omega arith) ∙ h.2),
    AreOpen-later m g p q qs r t f.1 (omega arith) rest,
  )

  Gets-trans :
      (m m' : ReqgrpManager) (g : ℕ) (r : QosError × ReqgrpManager)
      → Keeps m.store m'.store
      → SameMembers m.store m'.store
      → Gets m' g r
      → Gets m g r
  Gets-trans m m' g r k s c = record {
    valid = c.valid;
    keeps = Keeps-trans k c.keeps;
    members = λ x. c.members x ∙ s x;
    outcome = c.outcome;
  }

  pub get-cons :
      (m : ReqgrpManager) (g p : ℕ) (ps : List ℕ) (err : QosError) (r : QosError × ReqgrpManager)
      → try_to_alloc keys m g p ≡ returns r
      → try_to_get_tokens keys m g (p ∷ ps) err ≡ try_to_get_tokens keys r.1 g ps r.0
  unfolding try_to_get_tokens
  get-cons m g p ps err r e = rw (e, try_to_get_tokens) refl

  pub open-IsListed :
      (s : Store) (g p : ℕ) → Has p (s.grp g).members → (s.req p).token_grp ≡ g → IsListed s p
  open-IsListed s g p h e = rw e h

  pub get-nil :
      (m : ReqgrpManager) (g : ℕ) (err : QosError)
      → try_to_get_tokens keys m g [] err ≡ returns (err, m)
  unfolding try_to_get_tokens
  get-nil m g err = refl

  -- Asking a valid manager for the tokens of some undecided requests of a group, of which there is at
  -- least one, never ends the process. The error that is returned is that of the last request: it is
  -- PENDING exactly where the group has something undecided then, and the group's own answer otherwise.
  pub try_to_get_tokens-Gets :
      (m : ReqgrpManager) (g n p : ℕ) (ps : List ℕ) (err : QosError)
      → IsValid keys m
      → Falls n (p ∷ ps)
      → AreOpen m.store g (p ∷ ps)
      → Ends (try_to_get_tokens keys m g (p ∷ ps) err) (Gets m g)
  try_to_get_tokens-Gets m g n p [] err v f (h, _) =
      let (r, e, t) =
        Ends-Returns (try_to_alloc keys m g p) (Tries keys m p)
          (try_to_alloc-Tries keys m g p v (open-IsListed m.store g p h.0 h.1) h.1) in
      let w = waiting_pos m.store.req p (m.store.grp g).members h.0 h.2 in
      let gets =
        Tries-Gets m p r (subst (λ x. 0 < waiting m.store.req (m.store.grp x).members) (sym h.1) w)
          t in
      rw (get-cons m g p [] err r e, get-nil r.1 g r.0) (subst (λ x. Gets m x r) h.1 gets)
  try_to_get_tokens-Gets m g n p (q ∷ qs) err v f (h, rest) =
      let (r, e, t) =
        Ends-Returns (try_to_alloc keys m g p) (Tries keys m p)
          (try_to_alloc-Tries keys m g p v (open-IsListed m.store g p h.0 h.1) h.1) in
      let more = AreOpen-later m g p p (q ∷ qs) r t f.1 (omega arith) rest in
      rw (get-cons m g p (q ∷ qs) err r e) (
        Ends_mono (try_to_get_tokens keys r.1 g (q ∷ qs) r.0) (Gets r.1 g) (Gets m g)
          (try_to_get_tokens-Gets r.1 g p q qs r.0 t.valid f.1 more)
          (λ r'. Gets-trans m r.1 g r' t.since.keeps t.since.members))
