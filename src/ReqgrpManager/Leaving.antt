-- ===== src/ReqgrpManager/Leaving.antt =====
-- sysqos_token_reqgrp_manager.c: dispatchers that go offline.
use datastor_qos.Base.{
  ℕ, ◌<◌, ◌≡◌, refl, sym, ap, subst, ◌∙◌, ◌⊎◌, inl, inr, Option, none, some, List, [], arith, ◌==◌,
  if◌then◌else◌, Bool-cases,
}
use datastor_qos.Run.{returns, Ends, Returns}
use datastor_qos.MemoryCache
use datastor_qos.MemoryCache.{MemoryCache}
use datastor_qos.MemoryCache.Counting
use datastor_qos.SafeRwList.{RwError}
use datastor_qos.HashTable
use datastor_qos.HashTable.{Keys, Table}
use datastor_qos.HashTable.Writes.{erase-Erased, Erased}
use datastor_qos.HashTable.View.{find-view}
use datastor_qos.TokenReqgrp.{Store, update}
use datastor_qos.TokenReqgrp.Whole.{SameMembers}
use datastor_qos.TokenReqgrp.Since.{IsReported, Since-IsListed}
use datastor_qos.TokenReqgrp.Counts.{Has, waiting}
use datastor_qos.DispatchNode
use datastor_qos.DispatchNode.{DispatchNode, Outcome}
use datastor_qos.DispatchNode.Reports.{AreListed, AreListed-later, Reports, pop_all-Reports}
use datastor_qos.DispatchNode.Taken.{pop_all-Hands, decided_at}
use datastor_qos.DispatchNode.Serving.{AreDecided, pop_all-AreDecided}
use datastor_qos.ReqgrpManager.{ReqgrpManager, Answer, node_offline, end_token_grps, put_outcome}
use datastor_qos.ReqgrpManager.Nodes.{IsValid, item_of}
use datastor_qos.ReqgrpManager.Awaits.{StillWaits, StillWaits-refl, unlink-StillWaits}
use datastor_qos.ReqgrpManager.Queued.{Continues, Continues-refl, take-AreQueued, take-Has}

module _ (keys : Keys) where
  -- The answers that an application gets: one for each group that had something undecided before and
  -- nothing now, which is complete, with the error that the group keeps.
  pub record AreAnswers (s₀ s : Store) (answers : List Answer) : Type 0 where
    pub groups : List ℕ
    pub reported : IsReported s₀ s groups
    pub all :
        (g : ℕ)
        → 0 < waiting s₀.req (s₀.grp g).members
        → waiting s.req (s.grp g).members ≡ 0
        → Has g groups
    pub sent : answers ≡ end_token_grps s groups

  -- A dispatcher that went offline: it was not known and nothing happened; or its item, on which
  -- nothing waits any more, is unknown now, and all others are as before.
  pub record GoesOffline (m : ReqgrpManager) (id : ℕ) (r : ReqgrpManager × List Answer)
      : Type 0 where
    pub valid : IsValid keys r.0
    pub continues : Continues m r.0
    pub still : StillWaits keys m r.0
    pub since : SameMembers m.store r.0.store
    pub answers : AreAnswers m.store r.0.store r.1
    pub known :
        ((item_of keys m id ≡ none) × (r.0 ≡ m))
        ⊎ ((p : ℕ) × (item_of keys m id ≡ some p)
            × ((q : ℕ)
                → item_of keys r.0 q ≡ (if keys.cmp.same id q then none else item_of keys m q))
            × AreDecided r.0.store (m.items p).lhead_nodereq.token_list)

  -- An outcome at an item leaves all waiting requests listed.
  pub put_outcome-waiting :
      (m : ReqgrpManager) (p : ℕ) (r : Outcome)
      → IsValid keys m
      → Reports m.store r
      → (q : ℕ) → AreListed r.store (update m.items p r.node q).lhead_nodereq.token_list
  put_outcome-waiting m p r v (c, h) q = elim (Bool-cases (q == p)) [
    | inl here ↦ rw here h
    | inr there ↦ rw there (
        AreListed-later m.store r.store (m.items q).lhead_nodereq.token_list
          (λ x. Since-IsListed m.store r.store r.groups x c) (v.waiting q))
  ]

  -- The manager after an item was unlinked.
  abbrev removed : ReqgrpManager → ℕ → Outcome → Table ℕ → ReqgrpManager
  removed m p r table = record (put_outcome m p r) {
    app_node_table = table;
    manager_item_cache = MemoryCache.free m.manager_item_cache;
  }

  offline-none :
      (m : ReqgrpManager) (id : ℕ)
      → HashTable.find keys m.app_node_table id ≡ returns none
      → node_offline keys m id ≡ returns (m, [])
  unfolding node_offline
  offline-none m id e = rw (e, node_offline) refl

  offline-some :
      (m : ReqgrpManager) (id p : ℕ) (old : Option ℕ) (table : Table ℕ)
      → HashTable.find keys m.app_node_table id ≡ returns (some p)
      → HashTable.erase keys m.app_node_table id ≡ returns (RwError.ok, old, table)
      → let r = DispatchNode.pop_all (m.items p) m.store [] in
        node_offline keys m id ≡ returns (removed m p r table, end_token_grps r.store r.groups)
  unfolding node_offline
  offline-some m id p old table e f = rw (e, f, node_offline) refl

  offline_cases :
      (m : ReqgrpManager) (id : ℕ) (o : Option ℕ)
      → IsValid keys m
      → item_of keys m id ≡ o
      → Ends (node_offline keys m id) (GoesOffline m id)
  offline_cases m id none v e =
      let found = find-view keys id v.table ∙ ap (λ x. returns x) e in
      rw (offline-none m id found) (record {
        valid = v;
        continues = Continues-refl m;
        still = StillWaits-refl keys m;
        since = λ g. refl;
        answers = record {
          groups = [];
          reported = tt;
          all = λ g w z. omega (arith, w, z);
          sent = unfold end_token_grps in refl;
        };
        known = inl (e, refl);
      })
  offline_cases m id (some p) v e =
      let found = find-view keys id v.table ∙ ap (λ x. returns x) e in
      let ((err, old, table), eq, (_, w, live, same)) =
        subst
          (λ o.
            Returns (HashTable.erase keys m.app_node_table id)
              (Erased keys m.app_node_table v.table id o))
          e (erase-Erased keys m.app_node_table v.table id) in
      let r = DispatchNode.pop_all (m.items p) m.store [] in
      let done = pop_all-Reports (m.items p) m.store v.groups (v.waiting p) in
      let back = Counting.free-live m.manager_item_cache v.cache (omega (arith, live, v.level)) in
      rw (offline-some m id p old table found (eq ∙ ap (λ x. returns (x, old, table)) w.error))
        (record {
          valid = record {
            table = w.valid;
            cache = back.0;
            level = omega (arith, live, v.level, back.2);
            limit = back.1 ∙ v.limit ∙ sym same;
            groups = done.0.store;
            waiting = put_outcome-waiting m p r v done;
          };
          continues = record {
            counter = refl;
            resources = refl;
            grps = refl;
            keeps = done.0.keeps;
            members = done.0.members;
            queued = take-AreQueued m.store m.items p r (pop_all-Hands (m.items p) m.store).takes;
            waited = take-Has m.store m.items p r (pop_all-Hands (m.items p) m.store).takes;
          };
          still =
              unlink-StillWaits keys m id p r.node (removed m p r table) e w.reads refl refl (λ q h.
                decided_at r.store (m.items p).lhead_nodereq.token_list q
                  (pop_all-AreDecided (m.items p) m.store []) h);
          since = done.0.members;
          answers = record {
            groups = r.groups;
            reported = done.0.reported;
            all = done.0.all;
            sent = refl;
          };
          known = inr (p, e, w.reads, pop_all-AreDecided (m.items p) m.store []);
        })

  -- In a valid manager, taking a dispatcher offline never ends the process, and leaves a valid
  -- manager. Either the dispatcher was unknown, and nothing changed; or its id is unknown now and
  -- all others are as before, and every request that waited there is decided. Exactly the groups
  -- that became decided are answered: each had something undecided, is complete now, and is answered
  -- once. What waited elsewhere waits still.
  pub node_offline-GoesOffline :
      (m : ReqgrpManager) (id : ℕ)
      → IsValid keys m
      → Ends (node_offline keys m id) (GoesOffline m id)
  node_offline-GoesOffline m id v = offline_cases m id (item_of keys m id) v refl
