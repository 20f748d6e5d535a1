-- ===== src/ReqgrpManager/Life/History.antt =====
-- sysqos_token_reqgrp_manager.c: everything that the application and the network do with a manager, in
-- any order.
use datastor_qos.Base.{
  ℕ, ◌^◌, ◌<◌, ◌≡◌, refl, inl, inr, none, some, List, [], ◌∷◌, ◌++◌, length, Option-cases,
}
use datastor_qos.Interface.{Resource, Dispatch2App}
use datastor_qos.Run.{Run, returns, ◌>>=◌, Ends, Ends_mono, Ends-bind, Ends-Returns}
use datastor_qos.HashTable
use datastor_qos.HashTable.{Keys}
use datastor_qos.TokenReqgrp.Counts.{Has}
use datastor_qos.DispatchNode
use datastor_qos.ReqgrpManager.{
  ReqgrpManager, Answer, node_online, node_offline, node_reset, rcvd, put_item,
}
use datastor_qos.ReqgrpManager.Calls.{get_token_grp, put_token_grp}
use datastor_qos.ReqgrpManager.Nodes.{IsValid, item_of, ComesOnline, node_online-ComesOnline}
use datastor_qos.ReqgrpManager.Messages.{Receives, rcvd-Receives, reset-known}
use datastor_qos.ReqgrpManager.Received.{
  reset-Continues, reset-waiting, reset-StillWaits, found-item,
}
use datastor_qos.ReqgrpManager.Told.{undecided_at}
use datastor_qos.ReqgrpManager.Life.{
  NoneLost, Continues-NoneLost, IsRunning, Continues-IsRunning, Continues-Evolves, silent-Evolves,
}
use datastor_qos.ReqgrpManager.Evolves.{Evolves, Evolves-refl, Evolves-trans}
use datastor_qos.ReqgrpManager.Life.Held.{without}
use datastor_qos.ReqgrpManager.Life.Gets.{holds}
use datastor_qos.ReqgrpManager.Life.Puts.{Runs, offline-Runs, answers-Tells, answers-told, put-Runs}
use datastor_qos.ReqgrpManager.Life.Obtains.{Obtains, get_token_grp-Obtains}

-- A manager and the groups that the application holds.
pub record System : Type 0 where
  pub manager : ReqgrpManager
  pub held : List ℕ

-- The events of the network and the calls of the application.
pub data Event : Type 0 where
  comes_online goes_offline resets : ℕ → Event
  sends : ℕ → Dispatch2App → Event
  asks : List Resource → ℕ → Event
  gives_back : ℕ → List Resource → Event

-- What an event leaves, and the answers it gives.
abbrev unchanged_held : System → ReqgrpManager × List Answer → System × List Answer
unchanged_held s r = (record s { manager = r.0 }, r.1)

unfoldable pub step : Keys → System → Event → Run (System × List Answer)
unfolding node_online node_offline node_reset rcvd get_token_grp put_token_grp
step keys s (comes_online id) =
    node_online keys s.manager id >>= λ m. returns (unchanged_held s (m, []))
step keys s (goes_offline id) = node_offline keys s.manager id >>= λ r. returns (unchanged_held s r)
step keys s (resets id) = node_reset keys s.manager id >>= λ m. returns (unchanged_held s (m, []))
step keys s (sends id dta) = rcvd keys s.manager id dta >>= λ r. returns (unchanged_held s r)
step keys s (asks rs pri) = get_token_grp keys s.manager rs pri >>= λ r.
    returns (record { manager = r.2; held = holds s.held r.0 r.1 }, r.3)
step keys s (gives_back g fail_rs) = put_token_grp keys s.manager g fail_rs >>= λ r.
    returns (record { manager = r.0; held = without g s.held }, r.1)

-- The application asks for fewer than 2 ^ 31 resources, and gives back what it holds and was answered.
abbrev pub IsAllowed : System → Event → Type 0
IsAllowed s (asks rs pri) = length rs < 2 ^ 31
IsAllowed s (gives_back g fail_rs) = Has g s.held × (undecided_at s.manager.store g ≡ 0)
IsAllowed s _ = Unit {0}

-- One event after the other, with all answers.
unfoldable pub run : Keys → System → List Event → Run (System × List Answer)
unfolding step
run keys s [] = returns (s, [])
run keys s (e ∷ es) = do
  (s', before) ← step keys s e
  (s'', after) ← run keys s' es
  returns (s'', before ++ after)

abbrev pub AreAllowed : Keys → System → List Event → Type 0
AreAllowed keys s [] = Unit {0}
AreAllowed keys s (e ∷ es) =
    IsAllowed s e
    × ((r : System × List Answer) → step keys s e ≡ returns r → AreAllowed keys r.0 es)

module _ (keys : Keys) where
  -- A system in use, after events that gave some answers.
  abbrev pub GoesOn : System → System × List Answer → Type 0
  GoesOn s r =
      IsRunning keys r.0.manager r.0.held
      × Evolves s.manager r.0.manager r.1
      × (NoneLost keys s.manager → NoneLost keys r.0.manager)

  online-Runs :
      (m : ReqgrpManager) (held : List ℕ) (id : ℕ)
      → IsRunning keys m held
      → Ends (node_online keys m id) (λ m'. Runs keys m held (m', []))
  online-Runs m held id v =
      Ends_mono (node_online keys m id) (ComesOnline keys m id) (λ m'. Runs keys m held (m', []))
        (node_online-ComesOnline keys m id v.valid)
        (λ m' c. (
          Continues-IsRunning keys m m' held v c.valid c.continues,
          silent-Evolves keys m m' held v c.continues c.store,
          Continues-NoneLost keys m m' c.still c.continues,
        ))

  reset-IsValid :
      (m : ReqgrpManager) (p : ℕ)
      → IsValid keys m
      → IsValid keys (put_item m p (DispatchNode.reset (m.items p)) m.store)
  reset-IsValid m p v = record {
    table = v.table;
    cache = v.cache;
    level = v.level;
    limit = v.limit;
    groups = v.groups;
    waiting = reset-waiting keys m p v.waiting;
  }

  reset-unknown :
      (m : ReqgrpManager) (id : ℕ)
      → HashTable.find keys m.app_node_table id ≡ returns none
      → node_reset keys m id ≡ returns m
  unfolding node_reset
  reset-unknown m id e = rw (e, node_reset) refl

  reset-Runs :
      (m : ReqgrpManager) (held : List ℕ) (id : ℕ)
      → IsRunning keys m held
      → Ends (node_reset keys m id) (λ m'. Runs keys m held (m', []))
  reset-Runs m held id v = elim (Option-cases (item_of keys m id)) [
    | inl e ↦
        rw (reset-unknown m id (found-item keys m id none v.valid e)) (v, Evolves-refl m, λ n. n)
    | inr (p, e) ↦
        let c = reset-Continues keys m p in
        let m' = put_item m p (DispatchNode.reset (m.items p)) m.store in
        rw (reset-known keys m id p (found-item keys m id (some p) v.valid e)) (
          Continues-IsRunning keys m m' held v (reset-IsValid m p v.valid) c,
          silent-Evolves keys m m' held v c refl,
          Continues-NoneLost keys m m' (reset-StillWaits keys m p) c,
        )
  ]

  rcvd-Runs :
      (m : ReqgrpManager) (held : List ℕ) (id : ℕ) (dta : Dispatch2App)
      → IsRunning keys m held
      → Ends (rcvd keys m id dta) (Runs keys m held)
  rcvd-Runs m held id dta v =
      Ends_mono (rcvd keys m id dta) (Receives keys m id dta) (Runs keys m held)
        (rcvd-Receives keys m id dta v.valid)
        (λ r c. (
          Continues-IsRunning keys m r.0 held v c.valid c.continues,
          Continues-Evolves keys m r.0 held r.1 v c.continues
              (answers-Tells keys m.store r.0.store r.1 c.answers)
              (answers-told keys m.store r.0.store r.1 (λ g. g < m.next_grp) c.answers),
          Continues-NoneLost keys m r.0 c.still c.continues,
        ))

  -- Each event that may happen to a manager in use returns, whatever the ids, messages and resources are,
  -- and leaves a manager in use: what waits is undecided and waits once, only the groups that the
  -- application holds then have requests, and the caches have exactly those out. Every answer is to a
  -- group that had something undecided, if it was there before, and has nothing undecided now, each to
  -- another one; each group that was there and lost its last undecided request is answered; and no group
  -- that was there has more undecided requests than before. Where no request was lost before, none is
  -- lost: each undecided request waits at a dispatcher that the table knows.
  pub step-GoesOn :
      (s : System) (e : Event)
      → IsRunning keys s.manager s.held
      → IsAllowed s e
      → Ends (step keys s e) (GoesOn s)
  unfolding step
  step-GoesOn s (comes_online id) v h =
      Ends-bind (node_online keys s.manager id) (λ m. returns (unchanged_held s (m, [])))
        (λ m'. Runs keys s.manager s.held (m', [])) (GoesOn s) (online-Runs s.manager s.held id v)
        (λ m' w. w)
  step-GoesOn s (goes_offline id) v h =
      Ends-bind (node_offline keys s.manager id) (λ r. returns (unchanged_held s r))
        (Runs keys s.manager s.held) (GoesOn s) (offline-Runs keys s.manager s.held id v) (λ r w. w)
  step-GoesOn s (resets id) v h =
      Ends-bind (node_reset keys s.manager id) (λ m. returns (unchanged_held s (m, [])))
        (λ m'. Runs keys s.manager s.held (m', [])) (GoesOn s) (reset-Runs s.manager s.held id v)
        (λ m' w. w)
  step-GoesOn s (sends id dta) v h =
      Ends-bind (rcvd keys s.manager id dta) (λ r. returns (unchanged_held s r))
        (Runs keys s.manager s.held) (GoesOn s) (rcvd-Runs s.manager s.held id dta v) (λ r w. w)
  step-GoesOn s (asks rs pri) v h =
      Ends-bind (get_token_grp keys s.manager rs pri)
        (λ r. returns (record { manager = r.2; held = holds s.held r.0 r.1 }, r.3))
        (Obtains keys s.manager s.held (length rs)) (GoesOn s)
        (get_token_grp-Obtains keys s.manager s.held rs pri v h)
        (λ r o. (o.runs, o.evolves, o.kept))
  step-GoesOn s (gives_back g fail_rs) v h =
      Ends-bind (put_token_grp keys s.manager g fail_rs)
        (λ r. returns (record { manager = r.0; held = without g s.held }, r.1))
        (Runs keys s.manager (without g s.held)) (GoesOn s)
        (put-Runs keys s.manager s.held g fail_rs v h.0 h.1) (λ r w. w)

  pub run-cons :
      (s : System) (e : Event) (es : List Event) (r r' : System × List Answer)
      → step keys s e ≡ returns r
      → run keys r.0 es ≡ returns r'
      → run keys s (e ∷ es) ≡ returns (r'.0, r.1 ++ r'.1)
  unfolding run
  run-cons s e es r r' f h = rw (f, run, h) refl

  -- Any sequence of events that may happen to a manager in use, in any order and of any length, returns
  -- and leaves a manager in use. Over the whole sequence no group is answered twice, and every group that
  -- was there at the start with something undecided, and has nothing undecided at the end, is answered. Where no undecided request was lost at the start, each
  -- waits at a known dispatcher at the end.
  pub run-GoesOn :
      (s : System) (es : List Event)
      → IsRunning keys s.manager s.held
      → AreAllowed keys s es
      → Ends (run keys s es) (GoesOn s)
  run-GoesOn s [] v h = unfold run in (v, Evolves-refl s.manager, λ n. n)
  run-GoesOn s (e ∷ es) v h =
      let (r, f, one) = Ends-Returns (step keys s e) (GoesOn s) (step-GoesOn s e v h.0) in
      let (r', f', more) =
        Ends-Returns (run keys r.0 es) (GoesOn r.0) (run-GoesOn r.0 es one.0 (h.1 r f)) in
      rw (run-cons s e es r r' f f') (
        more.0,
        Evolves-trans s.manager r.0.manager r'.0.manager r.1 r'.1 one.1 more.1,
        λ n. more.2 (one.2 n),
      )
