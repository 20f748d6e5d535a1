-- ===== src/ReqgrpManager/Messages.antt =====
-- sysqos_token_reqgrp_manager.c: messages from dispatchers.
use datastor_qos.Base.{
  ℕ, ◌≡◌, refl, ap, ◌∙◌, ◌≢◌, ◌⊎◌, inl, inr, none, some, List, [], arith, Bool-cases, Option-cases,
}
use datastor_qos.Interface.{Dispatch2App}
use datastor_qos.Run.{returns, ◌>>=◌, Ends, Ends-Returns}
use datastor_qos.HashTable
use datastor_qos.HashTable.{Keys, Table}
use datastor_qos.TokenReqgrp.Counts.{waiting}
use datastor_qos.TokenReqgrp.Whole.{SameMembers}
use datastor_qos.DispatchNode
use datastor_qos.DispatchNode.{DispatchNode, Outcome}
use datastor_qos.DispatchNode.Reports.{resource_changed-Reports}
use datastor_qos.ReqgrpManager.{
  ReqgrpManager, Answer, node_online, node_reset, rcvd, end_token_grps, put_item, put_outcome,
}
use datastor_qos.ReqgrpManager.Nodes.{IsValid, item_of, ComesOnline, node_online-ComesOnline}
use datastor_qos.ReqgrpManager.Leaving.{AreAnswers}
use datastor_qos.ReqgrpManager.Awaits.{StillWaits}
use datastor_qos.ReqgrpManager.Queued.{Continues}
use datastor_qos.ReqgrpManager.Received.{
  found-item, after_rcvd, after-waiting, after-fields, after-Continues, after-StillWaits,
}

module _ (keys : Keys) where
  pub reset-known :
      (m : ReqgrpManager) (id p : ℕ)
      → HashTable.find keys m.app_node_table id ≡ returns (some p)
      → node_reset keys m id ≡ returns (put_item m p (DispatchNode.reset (m.items p)) m.store)
  unfolding node_reset
  reset-known m id p e = rw (e, node_reset) refl

  rcvd-known :
      (m : ReqgrpManager) (id p : ℕ) (dta : Dispatch2App)
      → HashTable.find keys m.app_node_table id ≡ returns (some p)
      → let (r, is_reset) = DispatchNode.resource_changed (m.items p) m.store dta [] in
        rcvd keys m id dta ≡ returns (after_rcvd keys m p dta, end_token_grps r.store r.groups)
  unfolding rcvd
  rcvd-known m id p dta e =
      let (r, is_reset) = DispatchNode.resource_changed (m.items p) m.store dta [] in
      elim (Bool-cases is_reset) [
        | inl resets ↦ rw (e, rcvd, resets, reset-known (put_outcome m p r) id p e) refl
        | inr goes_on ↦ rw (e, rcvd, goes_on) refl
      ]

  rcvd-unknown :
      (m : ReqgrpManager) (id : ℕ) (dta : Dispatch2App)
      → HashTable.find keys m.app_node_table id ≡ returns none
      → rcvd keys m id dta ≡ (node_online keys m id >>= λ m'. returns (m', []))
  unfolding rcvd node_online
  rcvd-unknown m id dta e = rw (e, rcvd) refl

  -- A message of a dispatcher: of one that was unknown, it only brought it online, whatever it says; of
  -- one that was known, the table says of every id what it said, and the groups whose last undecided
  -- request now has its tokens were answered.
  pub record Receives (m : ReqgrpManager) (id : ℕ) (dta : Dispatch2App)
      (r : ReqgrpManager × List Answer) : Type 0 where
    pub valid : IsValid keys r.0
    pub continues : Continues m r.0
    pub still : StillWaits keys m r.0
    pub members : SameMembers m.store r.0.store
    pub answers : AreAnswers keys m.store r.0.store r.1
    pub known :
        ((item_of keys m id ≡ none)
          × ComesOnline keys m id r.0
          × ((other : Dispatch2App) → rcvd keys m id other ≡ returns r))
        ⊎ ((p : ℕ) × (item_of keys m id ≡ some p)
            × ((q : ℕ) → item_of keys r.0 q ≡ item_of keys m q)
            × ((q : ℕ) → q ≢ p → r.0.items q ≡ m.items q))

  known-Receives :
      (m : ReqgrpManager) (id p : ℕ) (dta : Dispatch2App)
      → IsValid keys m
      → item_of keys m id ≡ some p
      → Ends (rcvd keys m id dta) (Receives m id dta)
  known-Receives m id p dta v e =
      let r = (DispatchNode.resource_changed (m.items p) m.store dta []).0 in
      let done = resource_changed-Reports (m.items p) m.store dta v.groups (v.waiting p) in
      let (table, cache, store, others) = after-fields keys m p dta in
      rw (rcvd-known m id p dta (found-item keys m id (some p) v e)) (record {
        valid = record {
          table = rw table v.table;
          cache = rw cache v.cache;
          level = rw (table, cache) v.level;
          limit = rw (table, cache) v.limit;
          groups = rw store done.0.store;
          waiting = after-waiting keys m p dta v;
        };
        continues = after-Continues keys m p dta v;
        still = after-StillWaits keys m p dta;
        members = rw store done.0.members;
        answers = record {
          groups = r.groups;
          reported = rw store done.0.reported;
          all = rw store done.0.all;
          sent = rw store refl;
        };
        known = inr (p, e, λ q. rw table refl, others);
      })

  unknown-Receives :
      (m : ReqgrpManager) (id : ℕ) (dta : Dispatch2App) (m' : ReqgrpManager)
      → HashTable.find keys m.app_node_table id ≡ returns none
      → item_of keys m id ≡ none
      → node_online keys m id ≡ returns m'
      → ComesOnline keys m id m'
      → Ends (rcvd keys m id dta) (Receives m id dta)
  unknown-Receives m id dta m' unknown e on c =
      let lost : (other : Dispatch2App) → rcvd keys m id other ≡ returns (m', []) =
        λ other. rcvd-unknown m id other unknown ∙ ap (λ r. r >>= λ m'. returns (m', [])) on in
      rw (lost dta) (record {
        valid = c.valid;
        continues = c.continues;
        still = c.still;
        members = λ g. rw c.store refl;
        answers = record {
          groups = [];
          reported = tt;
          all = λ g w z.
              let same = ap (λ s. waiting s.req (s.grp g).members) c.store in
              omega (arith, w, z, same);
          sent = unfold end_token_grps in refl;
        };
        known = inl (e, c, lost);
      })

  -- In a valid manager, a message of a dispatcher never ends the process, and leaves a valid
  -- manager. Of a dispatcher that was unknown, any message does the same: it only brings it
  -- online. Of one that was known, it leaves the table and the other items as they were, and the
  -- groups that it completes are answered, each once; what waited and is undecided still waits.
  pub rcvd-Receives :
      (m : ReqgrpManager) (id : ℕ) (dta : Dispatch2App)
      → IsValid keys m
      → Ends (rcvd keys m id dta) (Receives m id dta)
  rcvd-Receives m id dta v = elim (Option-cases (item_of keys m id)) [
    | inl e ↦
        let (m', on, c) =
          Ends-Returns (node_online keys m id) (ComesOnline keys m id)
            (node_online-ComesOnline keys m id v) in
        unknown-Receives m id dta m' (found-item keys m id none v e) e on c
    | inr (p, e) ↦ known-Receives m id p dta v e
  ]
