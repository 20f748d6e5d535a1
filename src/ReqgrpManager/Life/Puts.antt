-- ===== src/ReqgrpManager/Life/Puts.antt =====
-- sysqos_token_reqgrp_manager.c: dispatchers of a manager in use go offline, and groups are put back.
use datastor_qos.Base.{
  ℕ, ◌<◌, ◌≡◌, refl, sym, subst, ◌≢◌, inl, inr, none, some, List, [], ◌∷◌, ◌++◌, arith,
  Option-cases, if◌then◌else◌, is_some,
}
use datastor_qos.Interface.{Resource}
use datastor_qos.Run.{returns, ◌>>=◌, Run-cases, Ends, Ends_mono, Ends-bind, Ends-Returns}
use datastor_qos.HashTable
use datastor_qos.HashTable.{Keys}
use datastor_qos.TokenReqgrp.{Store}
use datastor_qos.TokenReqgrp.Counts.{Has, waiting_pos}
use datastor_qos.DispatchNode.Reports.{AreListed}
use datastor_qos.ReqgrpManager.{ReqgrpManager, Answer, node_offline}
use datastor_qos.ReqgrpManager.Calls.{check_node_out, put_token_grp, try_to_put_tokens}
use datastor_qos.ReqgrpManager.Nodes.{item_of}
use datastor_qos.ReqgrpManager.Leaving.{AreAnswers, GoesOffline, node_offline-GoesOffline}
use datastor_qos.ReqgrpManager.Received.{found-item}
use datastor_qos.ReqgrpManager.Puts.{Away}
use datastor_qos.ReqgrpManager.PutsBack.{
  PutsBack-told, PutsBack, PutsBack-Tells, put_token_grp-PutsBack,
}
use datastor_qos.ReqgrpManager.Awaits.{still-AllWait}
use datastor_qos.ReqgrpManager.Refusals.{put_back_members}
use datastor_qos.ReqgrpManager.Queued.{queue_at}
use datastor_qos.ReqgrpManager.Told.{
  undecided_at, Tells, AllTold, told, told-end_token_grps, reported-Tells, dropped-less,
}
use datastor_qos.ReqgrpManager.Life.{
  NoneLost, Continues-NoneLost, IsRunning, tells-Evolves, Continues-IsRunning, Continues-Evolves,
  size_at,
}
use datastor_qos.ReqgrpManager.Evolves.{Evolves, Evolves-refl, Evolves-trans}
use datastor_qos.ReqgrpManager.Life.Held.{
  without, sum_of-without, length-without, dropped-IsRunning,
}

pub Away-Has :
    (s : Store) (g : ℕ) (ps : List ℕ) → ((q : ℕ) → Has q ps → (s.req q).token_grp ≢ g) → Away s g ps
Away-Has s g [] f = tt
Away-Has s g (p ∷ ps) f = (f p (inl refl), Away-Has s g ps (λ q h. f q (inr h)))

pub listed_at :
    (s : Store) (ps : List ℕ) (q : ℕ)
    → AreListed s ps
    → Has q ps
    → Has q (s.grp (s.req q).token_grp).members
listed_at s [] q l h = absurd h
listed_at s (p ∷ ps) q l (inl e) = subst (λ x. Has x (s.grp (s.req x).token_grp).members) e l.0
listed_at s (p ∷ ps) q l (inr h) = listed_at s ps q l.1 h

module _ (keys : Keys) where
  -- A manager in use, after an event that gave some answers.
  abbrev pub Runs : ReqgrpManager → List ℕ → ReqgrpManager × List Answer → Type 0
  Runs m held r =
      IsRunning keys r.0 held × Evolves m r.0 r.1 × (NoneLost keys m → NoneLost keys r.0)

  pub answers-Tells :
      (s s' : Store) (answers : List Answer) → AreAnswers keys s s' answers → Tells s s' answers
  answers-Tells s s' answers a =
      subst (Tells s s') (sym a.sent) (reported-Tells s s' s' (λ g z. z) a.groups a.reported)

  pub answers-told :
      (s s' : Store) (answers : List Answer) (P : ℕ → Type 0)
      → AreAnswers keys s s' answers
      → AllTold s s' answers P
  answers-told s s' answers P a g _ w z =
      subst (λ xs. Has g (told xs)) (sym a.sent)
        (subst (Has g) (sym (told-end_token_grps s' a.groups)) (a.all g w z))

  pub offline-Runs :
      (m : ReqgrpManager) (held : List ℕ) (id : ℕ)
      → IsRunning keys m held
      → Ends (node_offline keys m id) (Runs m held)
  offline-Runs m held id v =
      Ends_mono (node_offline keys m id) (GoesOffline keys m id) (Runs m held)
        (node_offline-GoesOffline keys m id v.valid)
        (λ r o. (
          Continues-IsRunning keys m r.0 held v o.valid o.continues,
          Continues-Evolves keys m r.0 held r.1 v o.continues
              (answers-Tells m.store r.0.store r.1 o.answers)
              (answers-told m.store r.0.store r.1 (λ g. g < m.next_grp) o.answers),
          Continues-NoneLost keys m r.0 o.still o.continues,
        ))

  out-cons :
      (m : ReqgrpManager) (r : Resource) (rs : List Resource)
      → check_node_out keys m (r ∷ rs) ≡ (
          HashTable.find keys m.app_node_table r.id >>= λ found.
          (if is_some found then node_offline keys m r.id else returns (m, [])) >>= λ x.
          check_node_out keys x.0 rs >>= λ y. returns (y.0, x.1 ++ y.1))
  unfolding check_node_out
  out-cons m r rs = refl

  out-known :
      (m m' m'' : ReqgrpManager) (r : Resource) (rs : List Resource) (p : ℕ)
      (before after : List Answer)
      → HashTable.find keys m.app_node_table r.id ≡ returns (some p)
      → node_offline keys m r.id ≡ returns (m', before)
      → check_node_out keys m' rs ≡ returns (m'', after)
      → check_node_out keys m (r ∷ rs) ≡ returns (m'', before ++ after)
  out-known m m' m'' r rs p before after e f h = rw (out-cons m r rs, e, f, h) refl

  out-unknown :
      (m m'' : ReqgrpManager) (r : Resource) (rs : List Resource) (after : List Answer)
      → HashTable.find keys m.app_node_table r.id ≡ returns none
      → check_node_out keys m rs ≡ returns (m'', after)
      → check_node_out keys m (r ∷ rs) ≡ returns (m'', after)
  unfolding check_node_out
  out-unknown m m'' r rs after e h = rw (e, h, check_node_out) refl

  check_node_out-Runs :
      (m : ReqgrpManager) (held : List ℕ) (rs : List Resource)
      → IsRunning keys m held
      → Ends (check_node_out keys m rs) (Runs m held)
  check_node_out-Runs m held [] v = unfold check_node_out in (v, Evolves-refl m, λ n. n)
  check_node_out-Runs m held (r ∷ rs) v = elim (Option-cases (item_of keys m r.id)) [
    | inl e ↦
        let ((m'', after), f, ih) =
          Ends-Returns (check_node_out keys m rs) (Runs m held) (check_node_out-Runs m held rs v) in
        rw (out-unknown m m'' r rs after (found-item keys m r.id none v.valid e) f) ih
    | inr (p, e) ↦
        let ((m', before), off, one) =
          Ends-Returns (node_offline keys m r.id) (Runs m held) (offline-Runs m held r.id v) in
        let ((m'', after), f, ih) =
          Ends-Returns (check_node_out keys m' rs) (Runs m' held)
            (check_node_out-Runs m' held rs one.0) in
        rw
          (out-known m m' m'' r rs p before after (found-item keys m r.id (some p) v.valid e) off f)
          (ih.0, Evolves-trans m m' m'' before after one.1 ih.1, λ n. ih.2 (one.2 n))
  ]

  -- What waits is not of a group that is decided.
  decided-Away :
      (m : ReqgrpManager) (held : List ℕ) (g : ℕ)
      → IsRunning keys m held
      → undecided_at m.store g ≡ 0
      → (x : ℕ) → Away m.store g (queue_at m.items x)
  decided-Away m held g v z x = Away-Has m.store g (queue_at m.items x) (λ q h e.
      let listed = listed_at m.store (queue_at m.items x) q (v.valid.waiting x) h in
      let some_left =
        waiting_pos m.store.req q (m.store.grp g).members
          (subst (λ y. Has q (m.store.grp y).members) e listed) (v.queued.undecided x q h) in
      omega (arith, some_left, z))

  put_back-Runs :
      (m : ReqgrpManager) (held : List ℕ) (g : ℕ)
      → IsRunning keys m held
      → Has g held
      → undecided_at m.store g ≡ 0
      → Ends (put_token_grp keys m g []) (Runs m (without g held))
  put_back-Runs m held g v h z =
      let sum = sum_of-without (size_at m.store) g held h in
      let count = length-without g held h in
      Ends_mono (put_token_grp keys m g []) (PutsBack keys m g) (Runs m (without g held))
        (put_token_grp-PutsBack keys m g v.valid v.resources (omega (arith, sum, v.units)) v.grps
          (omega (arith, count, v.grp_units)) (decided-Away m held g v z))
        (λ r b. (
          dropped-IsRunning keys m r.0 held g v h b.keeps b.counter b.others b.gone b.valid
              (b.queued v.queued) b.caches.0 b.caches.1 b.resources b.grps,
          tells-Evolves keys m r.0 held r.1 v (omega (arith, b.counter))
              (λ x _. dropped-less m.store r.0.store g b.keeps b.others b.gone x)
              (PutsBack-Tells keys m g r b)
              (λ x _ w y.
                PutsBack-told keys m g r b x
                  (λ e.
                    let none_left = subst (λ u. undecided_at m.store u ≡ 0) (sym e) z in
                    omega (arith, w, none_left))
                  w y),
          λ n.
              let (items, all) = n in
              (
                b.still.items items,
                still-AllWait keys m r.0 b.still b.keeps
                    (put_back_members keys m r.0 g b.others b.gone) items [] all,
              ),
        ))

  put-after :
      (m m₁ : ReqgrpManager) (g : ℕ) (rs : List Resource) (before : List Answer)
      → check_node_out keys m rs ≡ returns (m₁, before)
      → put_token_grp keys m g rs
        ≡ (put_token_grp keys m₁ g [] >>= λ r. returns (r.0, before ++ r.1))
  unfolding put_token_grp
  put-after m m₁ g rs before e =
      elim (Run-cases (try_to_put_tokens keys m₁ (m₁.store.grp g).members [])) [
        | inl (r, f) ↦ rw (e, put_token_grp, check_node_out, f) refl
        | inr (x, f) ↦ rw (e, put_token_grp, check_node_out, f) refl
      ]

  -- A manager in use puts a group back that the application holds and of which nothing is undecided, after
  -- the dispatchers that failed went offline.
  pub put-Runs :
      (m : ReqgrpManager) (held : List ℕ) (g : ℕ) (rs : List Resource)
      → IsRunning keys m held
      → Has g held
      → undecided_at m.store g ≡ 0
      → Ends (put_token_grp keys m g rs) (Runs m (without g held))
  put-Runs m held g rs v h z =
      let ((m₁, before), e, one) =
        Ends-Returns (check_node_out keys m rs) (Runs m held) (check_node_out-Runs m held rs v) in
      let less = one.1.falls g (v.made g h) in
      rw (put-after m m₁ g rs before e) (
        Ends-bind (put_token_grp keys m₁ g []) (λ r. returns (r.0, before ++ r.1))
          (Runs m₁ (without g held)) (Runs m (without g held))
          (put_back-Runs m₁ held g one.0 h (omega (arith, less, z)))
          (λ r two. (two.0, Evolves-trans m m₁ r.0 before r.1 one.1 two.1, λ n. two.2 (one.2 n))))
