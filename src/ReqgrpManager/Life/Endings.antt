-- ===== src/ReqgrpManager/Life/Endings.antt =====
-- sysqos_token_reqgrp_manager.c: dispatchers that go offline, until none is known.
use datastor_qos.Base.{
  ℕ, ◌<◌, ◌≡◌, refl, sym, ap, subst, ◌∙◌, ◌⊎◌, inl, inr, true, false, none, some, List, [], ◌∷◌,
  map, arith, Bool-cases, Option-cases, if◌then◌else◌,
}
use datastor_qos.Run.{Ends, Ends_mono, Ends-bind, Ends-Returns}
use datastor_qos.HashTable.{Keys}
use datastor_qos.HashTable.View.{view_congr}
use datastor_qos.TokenReqgrp.{is_init, TokenReq}
use datastor_qos.TokenReqgrp.Counts.{Has, Distinct, waiting}
use datastor_qos.ReqgrpManager.{ReqgrpManager, Answer, node_offline}
use datastor_qos.ReqgrpManager.Nodes.{item_of}
use datastor_qos.ReqgrpManager.Leaving.{GoesOffline, node_offline-GoesOffline}
use datastor_qos.ReqgrpManager.Awaits.{init_of, none-some}
use datastor_qos.ReqgrpManager.Told.{undecided_at, told}
use datastor_qos.ReqgrpManager.Life.{IsRunning, NoneLost, members_at, made_of}
use datastor_qos.ReqgrpManager.Evolves.{Evolves-refl, Evolves-trans}
use datastor_qos.ReqgrpManager.Life.History.{
  System, Event, goes_offline, step, run, AreAllowed, GoesOn, step-GoesOn, run-cons,
}

differ : ¬ true ≡ false
differ e = ground arith

waiting_none :
    (f : ℕ → TokenReq) (ps : List ℕ)
    → ((p : ℕ) → Has p ps → is_init (f p).stat ≡ false)
    → waiting f ps ≡ 0
unfolding waiting
waiting_none f [] d = refl
waiting_none f (p ∷ ps) d =
    let ih = waiting_none f ps (λ q h. d q (inr h)) in rw (d p (inl refl), ih) refl

-- Dispatchers go offline, one after the other.
abbrev pub leave_all : List ℕ → List Event
leave_all = map goes_offline

module _ (keys : Keys) where
  -- An id that is the same as one of a list.
  abbrev pub IsAmong : ℕ → List ℕ → Type 0
  IsAmong q [] = ⊥
  IsAmong q (id ∷ ids) = (keys.cmp.same id q ≡ true) ⊎ IsAmong q ids

  -- With no dispatcher known, no request is undecided.
  alone-decided :
      (m : ReqgrpManager)
      → NoneLost keys m
      → ((q : ℕ) → item_of keys m q ≡ none)
      → (g : ℕ) → undecided_at m.store g ≡ 0
  alone-decided m n unknown g = waiting_none m.store.req (members_at m.store g) (λ p h.
      elim (Bool-cases (is_init (m.store.req p).stat)) [
        | inr decided ↦ decided
        | inl undecided ↦
            let (x, id, known, _) =
              n.1 g p h (init_of (m.store.req p).stat undecided) (λ never. never) in
            absurd (none-some (sym (unknown id) ∙ known))
      ])

  leaves_unknown :
      (m : ReqgrpManager) (id : ℕ) (r : ReqgrpManager × List Answer)
      → GoesOffline keys m id r
      → (q : ℕ) → (item_of keys m q ≡ none) ⊎ (keys.cmp.same id q ≡ true)
      → item_of keys r.0 q ≡ none
  leaves_unknown m id r o q h = elim o.known [
    | inl (unknown, same) ↦ ap (λ x. item_of keys x q) same ∙ (elim h [
      | inl e ↦ e
      | inr this ↦ sym (view_congr keys m.app_node_table id q this) ∙ unknown
    ])
    | inr (p, _, reads, _) ↦ reads q ∙ (elim (Bool-cases (keys.cmp.same id q)) [
      | inl this ↦ ap (λ b. if b then none else item_of keys m q) this
      | inr other ↦
          ap (λ b. if b then none else item_of keys m q) other
          ∙ (elim h [ inl e ↦ e | inr this ↦ absurd (differ (sym this ∙ other)) ])
    ])
  ]

  step-leaves :
      (s : System) (id : ℕ)
      → IsRunning keys s.manager s.held
      → Ends (step keys s (goes_offline id)) (λ r.
        (q : ℕ)
        → (item_of keys s.manager q ≡ none) ⊎ (keys.cmp.same id q ≡ true)
        → item_of keys r.0.manager q ≡ none)
  unfolding step
  step-leaves s id v =
      Ends-bind (node_offline keys s.manager id) _ (GoesOffline keys s.manager id) _
        (node_offline-GoesOffline keys s.manager id v.valid) (leaves_unknown s.manager id)

  leave_all-AreAllowed : (s : System) (ids : List ℕ) → AreAllowed keys s (leave_all ids)
  leave_all-AreAllowed s [] = tt
  leave_all-AreAllowed s (id ∷ ids) = (tt, λ r e. leave_all-AreAllowed r.0 ids)

  -- After all of a list went offline, they are unknown, and so is what was.
  abbrev Left : System → List ℕ → System × List Answer → Type 0
  Left s ids r =
      (q : ℕ)
      → (item_of keys s.manager q ≡ none) ⊎ IsAmong q ids
      → item_of keys r.0.manager q ≡ none

  run-leaves :
      (s : System) (ids : List ℕ)
      → IsRunning keys s.manager s.held
      → Ends (run keys s (leave_all ids)) (λ r. GoesOn keys s r × Left s ids r)
  run-leaves s [] v =
      unfold run in
      ((v, Evolves-refl s.manager, λ n. n), λ q h. elim h [ inl e ↦ e | inr never ↦ absurd never ])
  run-leaves s (id ∷ ids) v =
      let (r, f, one) =
        Ends-Returns (step keys s (goes_offline id)) (GoesOn keys s)
          (step-GoesOn keys s (goes_offline id) v tt) in
      let gone =
        subst
          (λ x. Ends x (λ r'.
            (q : ℕ)
            → (item_of keys s.manager q ≡ none) ⊎ (keys.cmp.same id q ≡ true)
            → item_of keys r'.0.manager q ≡ none))
          f (step-leaves s id v) in
      let (r', f', (more, left)) =
        Ends-Returns (run keys r.0 (leave_all ids)) (λ x. GoesOn keys r.0 x × Left r.0 ids x)
          (run-leaves r.0 ids one.0) in
      rw (run-cons keys s (goes_offline id) (leave_all ids) r r' f f') (
        (
          more.0,
          Evolves-trans s.manager r.0.manager r'.0.manager r.1 r'.1 one.1 more.1,
          λ n. more.2 (one.2 n),
        ),
        λ q h. elim h [
          | inl unknown ↦ left q (inl (gone q (inl unknown)))
          | inr (inl this) ↦ left q (inl (gone q (inr this)))
          | inr (inr later) ↦ left q (inr later)
        ],
      )

  -- In a manager in use of which no request is lost, when all dispatchers that the table knows go offline,
  -- in any order, every group that had something undecided is answered, each once, and nothing is
  -- undecided any more.
  pub leave_all-answers :
      (s : System) (ids : List ℕ)
      → IsRunning keys s.manager s.held
      → NoneLost keys s.manager
      → ((q x : ℕ) → item_of keys s.manager q ≡ some x → IsAmong q ids)
      → Ends (run keys s (leave_all ids)) (λ r.
        ((g : ℕ) → 0 < undecided_at s.manager.store g → Has g (told r.1))
        × Distinct (told r.1)
        × ((g : ℕ) → undecided_at r.0.manager.store g ≡ 0))
  leave_all-answers s ids v n all =
      Ends_mono (run keys s (leave_all ids)) (λ r. GoesOn keys s r × Left s ids r) _
        (run-leaves s ids v)
        (λ r (goes, left).
          let unknown : (q : ℕ) → item_of keys r.0.manager q ≡ none = λ q.
            left q (elim (Option-cases (item_of keys s.manager q)) [
              | inl e ↦ inl e
              | inr (x, e) ↦ inr (all q x e)
            ]) in
          let decided = alone-decided r.0.manager (goes.2 n) unknown in
          (
            λ g w. goes.1.all g (made_of keys s.manager s.held g v w) w (decided g),
            goes.1.once,
            decided,
          ))
