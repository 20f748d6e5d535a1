-- ===== src/ReqgrpManager/Nodes.antt =====
-- sysqos_token_reqgrp_manager.c: dispatchers that come online.
use datastor_qos.Base.{
  ℕ, suc, ◌≤◌, ◌<◌, ◌≡◌, refl, sym, ap, subst, ◌∙◌, ◌⊎◌, inl, inr, true, false, Option, none, some,
  [], arith, ltb, ◌==◌, if◌then◌else◌, lt_of_ltb, le_of_ltb, Bool-cases, lt-ltb, is_some, add32,
}
use datastor_qos.Run.{returns, Ends, Returns}
use datastor_qos.MemoryCache
use datastor_qos.MemoryCache.{MemoryCache}
use datastor_qos.MemoryCache.Counting
use datastor_qos.SafeRwList.{RwError}
use datastor_qos.HashTable
use datastor_qos.HashTable.{Keys, Table}
use datastor_qos.HashTable.View
use datastor_qos.HashTable.Writes.{insert-Inserted, Inserted}
use datastor_qos.HashTable.View.{view, find-view}
use datastor_qos.TokenReqgrp.{update}
use datastor_qos.TokenReqgrp.Whole.{IsStore}
use datastor_qos.NodereqList
use datastor_qos.DispatchNode
use datastor_qos.DispatchNode.{DispatchNode, Outcome}
use datastor_qos.DispatchNode.Reports.{AreListed}
use datastor_qos.ReqgrpManager.{ReqgrpManager, node_online}
use datastor_qos.ReqgrpManager.Awaits.{
  StillWaits, StillWaits-refl, link-StillWaits, same-StillWaits,
}
use datastor_qos.ReqgrpManager.Queued.{
  Continues, Continues-refl, take-AreQueued, take-Has, emptied-Takes,
}
use datastor_qos.TokenReqgrp.Keeps.{Keeps-refl}

module _ (keys : Keys) where
  -- The table and the cache of items count alike; groups and waiting requests fit together.
  pub record IsValid (m : ReqgrpManager) : Type 0 where
    pub table : View.IsValid keys m.app_node_table
    pub cache : Counting.IsValid m.manager_item_cache
    pub level : Counting.live m.manager_item_cache ≡ Counting.live m.app_node_table.cache
    pub limit : m.manager_item_cache.cache_unit ≡ m.app_node_table.cache.cache_unit
    pub groups : IsStore m.store
    pub waiting : (p : ℕ) → AreListed m.store (m.items p).lhead_nodereq.token_list

  -- What the table says of an id.
  abbrev pub item_of : ReqgrpManager → ℕ → Option ℕ
  item_of m id = view keys m.app_node_table id

  -- A dispatcher that came online: the table knows it as a new item, and all others as before; or it was
  -- known, or there is no room, and the table says of every id what it said.
  pub record ComesOnline (m : ReqgrpManager) (id : ℕ) (m' : ReqgrpManager) : Type 0 where
    pub valid : IsValid m'
    pub store : m'.store ≡ m.store
    pub continues : Continues m m'
    pub still : StillWaits keys m m'
    pub unit : m'.manager_item_cache.cache_unit ≡ m.manager_item_cache.cache_unit
    pub grows : Counting.live m.manager_item_cache ≤ Counting.live m'.manager_item_cache
    pub known :
        ((item_of m id ≡ none)
          × ((q : ℕ)
              → item_of m' q ≡ (if keys.cmp.same id q then some m.next_item else item_of m q)))
        ⊎ (((is_some (item_of m id) ≡ true)
              ⊎ (m.manager_item_cache.cache_unit ≤ Counting.live m.manager_item_cache))
            × ((q : ℕ) → item_of m' q ≡ item_of m q))

  view-buckets : (t u : Table ℕ) (q : ℕ) → t.buckets ≡ u.buckets → view keys t q ≡ view keys u q
  unfolding view
  view-buckets t u q e = ap (λ bs. view keys (record u { buckets = bs }) q) e

  -- The manager after a new item was linked in, and after it was given back.
  abbrev added : ReqgrpManager → Table ℕ → ReqgrpManager
  added m table = record m {
    manager_item_cache = (MemoryCache.alloc m.manager_item_cache true).1;
    version = add32 m.version 1;
    app_node_table = table;
    items = update m.items m.next_item (DispatchNode.init m.version);
    next_item = suc m.next_item;
  }

  abbrev not_added : ReqgrpManager → Table ℕ → ReqgrpManager
  not_added m table = record m {
    manager_item_cache = MemoryCache.free (MemoryCache.alloc m.manager_item_cache true).1;
    version = add32 m.version 1;
    app_node_table = table;
  }

  init-empty : (v : ℕ) → (DispatchNode.init v).lhead_nodereq.token_list ≡ []
  unfolding DispatchNode.init NodereqList.init
  init-empty v = refl

  added-Continues : (m : ReqgrpManager) (table : Table ℕ) → Continues m (added m table)
  added-Continues m table = record {
    counter = refl;
    resources = refl;
    grps = refl;
    keeps = Keeps-refl m.store;
    members = λ g. refl;
    queued =
        take-AreQueued m.store m.items m.next_item
          (record { node = DispatchNode.init m.version; store = m.store; groups = [] })
          (emptied-Takes (m.items m.next_item) (DispatchNode.init m.version) m.store
            (init-empty m.version));
    waited =
        take-Has m.store m.items m.next_item
          (record { node = DispatchNode.init m.version; store = m.store; groups = [] })
          (emptied-Takes (m.items m.next_item) (DispatchNode.init m.version) m.store
            (init-empty m.version));
  }

  not_added-Continues : (m : ReqgrpManager) (table : Table ℕ) → Continues m (not_added m table)
  not_added-Continues m table = record {
    counter = refl;
    resources = refl;
    grps = refl;
    keeps = Keeps-refl m.store;
    members = λ g. refl;
    queued = λ q. q;
    waited = λ x p h. h;
  }

  module _ (m : ReqgrpManager) (id : ℕ)
      (given : (MemoryCache.alloc m.manager_item_cache true).0 ≡ true) where
    online-ok :
        (table : Table ℕ)
        → HashTable.insert keys m.app_node_table id m.next_item ≡ returns (RwError.ok, table)
        → node_online keys m id ≡ returns (added m table)
    unfolding node_online
    online-ok table e = rw (given, e, node_online) refl

    online-exist :
        (table : Table ℕ)
        → HashTable.insert keys m.app_node_table id m.next_item ≡ returns (RwError.exist, table)
        → node_online keys m id ≡ returns (not_added m table)
    unfolding node_online
    online-exist table e = rw (given, e, node_online) refl

  online-full :
      (m : ReqgrpManager) (id : ℕ)
      → (MemoryCache.alloc m.manager_item_cache true).0 ≡ false
      → node_online keys m id ≡ returns m
  unfolding node_online
  online-full m id e = rw (e, node_online) refl

  added-waiting :
      (m : ReqgrpManager) (p : ℕ)
      → ((q : ℕ) → AreListed m.store (m.items q).lhead_nodereq.token_list)
      → AreListed m.store
          (update m.items m.next_item (DispatchNode.init m.version) p).lhead_nodereq.token_list
  unfolding DispatchNode.init
  added-waiting m p h = elim (Bool-cases (p == m.next_item)) [
    | inl new ↦ rw new tt
    | inr old ↦ rw old (h p)
  ]

  online_cases :
      (m : ReqgrpManager) (id : ℕ) (o : Option ℕ)
      → IsValid m
      → item_of m id ≡ o
      → Counting.live m.manager_item_cache < m.manager_item_cache.cache_unit
      → Ends (node_online keys m id) (ComesOnline m id)
  online_cases m id none v e room =
      let (valid, unit, given, count) = Counting.alloc-live m.manager_item_cache v.cache in
      let granted = given ∙ lt-ltb _ _ room in
      let counted = rw granted at count in
      let inserted =
        insert-Inserted keys m.app_node_table v.table id m.next_item
          (omega (arith, room, v.level, v.limit)) in
      let ((err, table), eq, (w, (live, same))) =
        subst
          (λ o.
            Returns (HashTable.insert keys m.app_node_table id m.next_item)
              (Inserted keys m.app_node_table v.table id m.next_item o))
          e inserted in
      rw (online-ok m id granted table (eq ∙ ap (λ x. returns (x, table)) w.error)) (record {
        valid = record {
          table = w.valid;
          cache = valid;
          level = omega (arith, counted, live, v.level);
          limit = unit ∙ v.limit ∙ sym same;
          groups = v.groups;
          waiting = λ p. added-waiting m p v.waiting;
        };
        store = refl;
        continues = added-Continues m table;
        still =
            link-StillWaits keys m id (DispatchNode.init m.version) (added m table) e w.reads refl
              refl;
        unit = unit;
        grows = omega (arith, counted);
        known = inl (e, w.reads);
      })
  online_cases m id (some x) v e room =
      let (valid, unit, given, count) = Counting.alloc-live m.manager_item_cache v.cache in
      let granted = given ∙ lt-ltb _ _ room in
      let counted = rw granted at count in
      let back =
        Counting.free-live (MemoryCache.alloc m.manager_item_cache true).1 valid
          (omega (arith, counted)) in
      let inserted =
        insert-Inserted keys m.app_node_table v.table id m.next_item
          (omega (arith, room, v.level, v.limit)) in
      let ((err, table), eq, (exists, buckets, tv, (live, same))) =
        subst
          (λ o.
            Returns (HashTable.insert keys m.app_node_table id m.next_item)
              (Inserted keys m.app_node_table v.table id m.next_item o))
          e inserted in
      rw (online-exist m id granted table (eq ∙ ap (λ x. returns (x, table)) exists)) (record {
        valid = record {
          table = tv;
          cache = back.0;
          level = omega (arith, counted, live, v.level, back.2);
          limit = back.1 ∙ unit ∙ v.limit ∙ sym same;
          groups = v.groups;
          waiting = v.waiting;
        };
        store = refl;
        continues = not_added-Continues m table;
        still =
            same-StillWaits keys m (not_added m table)
              (λ q. view-buckets table m.app_node_table q buckets) (λ x. refl) (omega arith);
        unit = back.1 ∙ unit;
        grows = omega (arith, counted, back.2);
        known = inr (inl (ap is_some e), λ q. view-buckets table m.app_node_table q buckets);
      })

  -- In a valid manager, bringing a dispatcher online never ends the process, and leaves a valid
  -- manager with the requests and groups as they were. Either the dispatcher was unknown, and the
  -- table knows its id as a new item and every other id as before; or it was known or there is no
  -- room, and the table says of every id what it said. What waits waited before, and where the items
  -- that the table knows were made before, what waited at a known one waits still.
  pub node_online-ComesOnline :
      (m : ReqgrpManager) (id : ℕ) → IsValid m → Ends (node_online keys m id) (ComesOnline m id)
  node_online-ComesOnline m id v =
      let (_, _, given, _) = Counting.alloc-live m.manager_item_cache v.cache in
      elim (Bool-cases (ltb (Counting.live m.manager_item_cache) m.manager_item_cache.cache_unit)) [
        | inl room ↦ online_cases m id (item_of m id) v refl (lt_of_ltb _ _ room)
        | inr full ↦ rw (online-full m id (given ∙ full)) (record {
          valid = v;
          store = refl;
          continues = Continues-refl m;
          still = StillWaits-refl keys m;
          unit = refl;
          grows = omega arith;
          known = inr (inr (le_of_ltb _ _ full), λ q. refl);
        })
      ]
