-- ===== src/ReqgrpManager/Received.antt =====
-- sysqos_token_reqgrp_manager.c: the item that a message was for.
use datastor_qos.Base.{
  ℕ, ◌≡◌, refl, sym, ap, ◌∙◌, ◌≢◌, inl, inr, Option, [], arith, ◌==◌, if◌then◌else◌, eq_of_==,
  Bool-cases,
}
use datastor_qos.Interface.{Dispatch2App}
use datastor_qos.Run.{returns}
use datastor_qos.HashTable
use datastor_qos.HashTable.{Keys, Table}
use datastor_qos.HashTable.View.{find-view}
use datastor_qos.TokenReqgrp.{update}
use datastor_qos.DispatchNode
use datastor_qos.DispatchNode.{DispatchNode, Outcome}
use datastor_qos.DispatchNode.Taken.{resource_changed-Hands}
use datastor_qos.DispatchNode.Reports.{AreListed, resource_changed-Reports}
use datastor_qos.ReqgrpManager.{ReqgrpManager, put_item, put_outcome}
use datastor_qos.ReqgrpManager.Nodes.{IsValid, item_of}
use datastor_qos.ReqgrpManager.Leaving.{put_outcome-waiting}
use datastor_qos.ReqgrpManager.Awaits.{
  StillWaits, StillWaits-trans, same-StillWaits, hand-StillWaits,
}
use datastor_qos.ReqgrpManager.Queued.{
  queue_at, queue-here, queue-there, Continues, Continues-trans, take-AreQueued, take-Has,
  same-Takes,
}
use datastor_qos.TokenReqgrp.Keeps.{Keeps-refl}

module _ (keys : Keys) where
  pub found-item :
      (m : ReqgrpManager) (id : ℕ) (o : Option ℕ)
      → IsValid keys m
      → item_of keys m id ≡ o
      → HashTable.find keys m.app_node_table id ≡ returns o
  found-item m id o v e = find-view keys id v.table ∙ ap (λ x. returns x) e

  -- The item that a message was for, after it.
  abbrev pub after_rcvd : ReqgrpManager → ℕ → Dispatch2App → ReqgrpManager
  after_rcvd m p dta =
      let (r, is_reset) = DispatchNode.resource_changed (m.items p) m.store dta [] in
      let m' = put_outcome m p r in
      if is_reset then put_item m' p (DispatchNode.reset (m'.items p)) m'.store else m'

  pub reset-waiting :
      (m : ReqgrpManager) (p : ℕ)
      → ((q : ℕ) → AreListed m.store (m.items q).lhead_nodereq.token_list)
      → (q : ℕ)
      → AreListed m.store
          (update m.items p (DispatchNode.reset (m.items p)) q).lhead_nodereq.token_list
  unfolding DispatchNode.reset
  reset-waiting m p h q = elim (Bool-cases (q == p)) [
    | inl here ↦ rw here (h p)
    | inr there ↦ rw there (h q)
  ]

  pub after-waiting :
      (m : ReqgrpManager) (p : ℕ) (dta : Dispatch2App)
      → IsValid keys m
      → (q : ℕ)
      → AreListed (after_rcvd m p dta).store ((after_rcvd m p dta).items q).lhead_nodereq.token_list
  after-waiting m p dta v =
      let (r, is_reset) = DispatchNode.resource_changed (m.items p) m.store dta [] in
      let w =
        put_outcome-waiting keys m p r v
          (resource_changed-Reports (m.items p) m.store dta v.groups (v.waiting p)) in
      elim (Bool-cases is_reset) [
        | inl resets ↦ rw resets (reset-waiting (put_outcome m p r) p w)
        | inr goes_on ↦ rw goes_on w
      ]

  pub after-fields :
      (m : ReqgrpManager) (p : ℕ) (dta : Dispatch2App)
      → let m' = after_rcvd m p dta in
        (m'.app_node_table ≡ m.app_node_table)
        × (m'.manager_item_cache ≡ m.manager_item_cache)
        × (m'.store ≡ (DispatchNode.resource_changed (m.items p) m.store dta []).0.store)
        × ((q : ℕ) → q ≢ p → m'.items q ≡ m.items q)
  after-fields m p dta =
      let is_reset = (DispatchNode.resource_changed (m.items p) m.store dta []).1 in
      elim (Bool-cases is_reset) [
        | inl resets ↦ rw resets (refl, refl, refl, λ q h. ground arith)
        | inr goes_on ↦ rw goes_on (refl, refl, refl, λ q h. ground arith)
      ]

  reset-same :
      (n : DispatchNode)
      → (DispatchNode.reset n).lhead_nodereq.token_list ≡ n.lhead_nodereq.token_list
  unfolding DispatchNode.reset
  reset-same n = refl

  -- A node that was reset keeps its queue.
  pub reset-Continues :
      (m : ReqgrpManager) (p : ℕ)
      → Continues m (put_item m p (DispatchNode.reset (m.items p)) m.store)
  reset-Continues m p = record {
    counter = refl;
    resources = refl;
    grps = refl;
    keeps = Keeps-refl m.store;
    members = λ g. refl;
    queued =
        take-AreQueued m.store m.items p
          (record { node = DispatchNode.reset (m.items p); store = m.store; groups = [] })
          (same-Takes (m.items p) (DispatchNode.reset (m.items p)) m.store
            (reset-same (m.items p)));
    waited =
        take-Has m.store m.items p
          (record { node = DispatchNode.reset (m.items p); store = m.store; groups = [] })
          (same-Takes (m.items p) (DispatchNode.reset (m.items p)) m.store
            (reset-same (m.items p)));
  }

  pub reset-StillWaits :
      (m : ReqgrpManager) (p : ℕ)
      → StillWaits keys m (put_item m p (DispatchNode.reset (m.items p)) m.store)
  reset-StillWaits m p =
      same-StillWaits keys m (put_item m p (DispatchNode.reset (m.items p)) m.store) (λ q. refl)
        (λ x. elim (Bool-cases (x == p)) [
          | inl here ↦
              queue-here m.items p x (DispatchNode.reset (m.items p)) here
              ∙ reset-same (m.items p)
              ∙ sym (ap (queue_at m.items) (eq_of_== x p here))
          | inr far ↦ queue-there m.items p x (DispatchNode.reset (m.items p)) far
        ])
        (omega arith)

  changed-Continues :
      (m : ReqgrpManager) (p : ℕ) (dta : Dispatch2App)
      → IsValid keys m
      → Continues m (put_outcome m p (DispatchNode.resource_changed (m.items p) m.store dta []).0)
  changed-Continues m p dta v =
      let done = resource_changed-Reports (m.items p) m.store dta v.groups (v.waiting p) in
      record {
        counter = refl;
        resources = refl;
        grps = refl;
        keeps = done.0.keeps;
        members = done.0.members;
        queued =
            take-AreQueued m.store m.items p
              (DispatchNode.resource_changed (m.items p) m.store dta []).0
              (resource_changed-Hands (m.items p) m.store dta).takes;
        waited =
            take-Has m.store m.items p (DispatchNode.resource_changed (m.items p) m.store dta []).0
              (resource_changed-Hands (m.items p) m.store dta).takes;
      }

  pub after-Continues :
      (m : ReqgrpManager) (p : ℕ) (dta : Dispatch2App)
      → IsValid keys m
      → Continues m (after_rcvd m p dta)
  after-Continues m p dta v =
      let (r, is_reset) = DispatchNode.resource_changed (m.items p) m.store dta [] in
      let first = changed-Continues m p dta v in
      elim (Bool-cases is_reset) [
        | inl resets ↦ rw resets (Continues-trans first (reset-Continues (put_outcome m p r) p))
        | inr goes_on ↦ rw goes_on first
      ]

  pub after-StillWaits :
      (m : ReqgrpManager) (p : ℕ) (dta : Dispatch2App) → StillWaits keys m (after_rcvd m p dta)
  after-StillWaits m p dta =
      let (r, is_reset) = DispatchNode.resource_changed (m.items p) m.store dta [] in
      let first = hand-StillWaits keys m p r (resource_changed-Hands (m.items p) m.store dta) in
      elim (Bool-cases is_reset) [
        | inl resets ↦ rw resets (
            StillWaits-trans keys (Keeps-refl r.store) first
              (reset-StillWaits (put_outcome m p r) p))
        | inr goes_on ↦ rw goes_on first
      ]
