-- ===== src/ReqgrpManager/ComeIn.antt =====
-- sysqos_token_reqgrp_manager.c: the dispatchers that a group names are brought online.
use datastor_qos.Base.{
  ℕ, ◌≤◌, ◌≡◌, refl, ap, ◌∙◌, ◌⊎◌, inl, inr, true, none, some, List, [], ◌∷◌, arith, All,
  Bool-cases, Option-cases, is_some,
}
use datastor_qos.Interface.{Resource}
use datastor_qos.Run.{returns, Ends, Ends_mono, Ends-Returns}
use datastor_qos.MemoryCache.Counting
use datastor_qos.HashTable
use datastor_qos.HashTable.{Keys}
use datastor_qos.ReqgrpManager.{ReqgrpManager, node_online}
use datastor_qos.ReqgrpManager.Calls.{check_node_in}
use datastor_qos.ReqgrpManager.Nodes.{IsValid, item_of, ComesOnline, node_online-ComesOnline}
use datastor_qos.ReqgrpManager.Received.{found-item}
use datastor_qos.ReqgrpManager.Awaits.{StillWaits, StillWaits-refl, StillWaits-trans}
use datastor_qos.ReqgrpManager.Queued.{Continues, Continues-refl, Continues-trans}

module _ (keys : Keys) where
  -- Dispatchers brought online: each is known, or there is no room for one more.
  pub record ComeIn (m : ReqgrpManager) (rs : List Resource) (m' : ReqgrpManager) : Type 0 where
    pub valid : IsValid keys m'
    pub store : m'.store ≡ m.store
    pub continues : Continues m m'
    pub still : StillWaits keys m m'
    pub unit : m'.manager_item_cache.cache_unit ≡ m.manager_item_cache.cache_unit
    pub grows : Counting.live m.manager_item_cache ≤ Counting.live m'.manager_item_cache
    pub stay : (q : ℕ) → is_some (item_of keys m q) ≡ true → is_some (item_of keys m' q) ≡ true
    pub known :
        All (λ r. is_some (item_of keys m' r.id) ≡ true) rs
        ⊎ (m'.manager_item_cache.cache_unit ≤ Counting.live m'.manager_item_cache)

  ComeIn-refl : (m : ReqgrpManager) → IsValid keys m → ComeIn m [] m
  ComeIn-refl m v = record {
    valid = v;
    store = refl;
    continues = Continues-refl m;
    still = StillWaits-refl keys m;
    unit = refl;
    grows = omega arith;
    stay = λ q h. h;
    known = inl tt;
  }

  online-stay :
      (m m' : ReqgrpManager) (id : ℕ)
      → ComesOnline keys m id m'
      → (q : ℕ) → is_some (item_of keys m q) ≡ true
      → is_some (item_of keys m' q) ≡ true
  online-stay m m' id c q h = elim c.known [
    | inl (_, reads) ↦ elim (Bool-cases (keys.cmp.same id q)) [
      | inl new ↦ rw (reads q, new) refl
      | inr old ↦ rw (reads q, old) h
    ]
    | inr (_, reads) ↦ rw (reads q) h
  ]

  online-known :
      (m m' : ReqgrpManager) (id : ℕ)
      → ComesOnline keys m id m'
      → (is_some (item_of keys m' id) ≡ true)
        ⊎ (m.manager_item_cache.cache_unit ≤ Counting.live m.manager_item_cache)
  online-known m m' id c = elim c.known [
    | inl (_, reads) ↦ inl (rw (reads id, keys.cmp.same_refl id) refl)
    | inr (inl known, reads) ↦ inl (rw (reads id) known)
    | inr (inr full, _) ↦ inr full
  ]

  in-nil : (m : ReqgrpManager) → check_node_in keys m [] ≡ returns m
  unfolding check_node_in
  in-nil m = refl

  in-known :
      (m : ReqgrpManager) (r : Resource) (rs : List Resource) (p : ℕ)
      → HashTable.find keys m.app_node_table r.id ≡ returns (some p)
      → check_node_in keys m (r ∷ rs) ≡ check_node_in keys m rs
  unfolding check_node_in
  in-known m r rs p e = rw (e, check_node_in) refl

  in-unknown :
      (m m' : ReqgrpManager) (r : Resource) (rs : List Resource)
      → HashTable.find keys m.app_node_table r.id ≡ returns none
      → node_online keys m r.id ≡ returns m'
      → check_node_in keys m (r ∷ rs) ≡ check_node_in keys m' rs
  unfolding check_node_in
  in-unknown m m' r rs e on = rw (e, on, check_node_in) refl

  ComeIn-cons :
      (m m' m'' : ReqgrpManager) (r : Resource) (rs : List Resource)
      → ComesOnline keys m r.id m'
      → ComeIn m' rs m''
      → ComeIn m (r ∷ rs) m''
  ComeIn-cons m m' m'' r rs c i = record {
    valid = i.valid;
    store = i.store ∙ c.store;
    continues = Continues-trans c.continues i.continues;
    still = StillWaits-trans keys i.continues.keeps c.still i.still;
    unit = i.unit ∙ c.unit;
    grows = omega (arith, i.grows, c.grows);
    stay = λ q h. i.stay q (online-stay m m' r.id c q h);
    known = elim i.known [
      | inr full ↦ inr full
      | inl all ↦ elim (online-known m m' r.id c) [
        | inl one ↦ inl (i.stay r.id one, all)
        | inr full ↦ inr (omega (arith, full, i.grows, c.grows, i.unit, c.unit))
      ]
    ];
  }

  ComeIn-known :
      (m m' : ReqgrpManager) (r : Resource) (rs : List Resource)
      → is_some (item_of keys m r.id) ≡ true
      → ComeIn m rs m'
      → ComeIn m (r ∷ rs) m'
  ComeIn-known m m' r rs e i = record {
    valid = i.valid;
    store = i.store;
    continues = i.continues;
    still = i.still;
    unit = i.unit;
    grows = i.grows;
    stay = i.stay;
    known = elim i.known [ inl all ↦ inl (i.stay r.id e, all) | inr full ↦ inr full ];
  }

  -- Before the tokens of a group are asked for, every dispatcher that it names is brought online, in
  -- whatever order and however often they are named, unless there is no room for one more item. The call
  -- never ends the process, keeps the manager valid, and those that were online stay so; what waited at a
  -- known dispatcher waits still.
  pub check_node_in-ComeIn :
      (m : ReqgrpManager) (rs : List Resource)
      → IsValid keys m
      → Ends (check_node_in keys m rs) (ComeIn m rs)
  check_node_in-ComeIn m [] v = rw (in-nil m) (ComeIn-refl m v)
  check_node_in-ComeIn m (r ∷ rs) v = elim (Option-cases (item_of keys m r.id)) [
    | inl e ↦
        let (m', on, c) =
          Ends-Returns (node_online keys m r.id) (ComesOnline keys m r.id)
            (node_online-ComesOnline keys m r.id v) in
        rw (in-unknown m m' r rs (found-item keys m r.id none v e) on) (
          Ends_mono (check_node_in keys m' rs) (ComeIn m' rs) (ComeIn m (r ∷ rs))
            (check_node_in-ComeIn m' rs c.valid) (λ m''. ComeIn-cons m m' m'' r rs c))
    | inr (p, e) ↦ rw (in-known m r rs p (found-item keys m r.id (some p) v e)) (
        Ends_mono (check_node_in keys m rs) (ComeIn m rs) (ComeIn m (r ∷ rs))
          (check_node_in-ComeIn m rs v) (λ m''. ComeIn-known m m'' r rs (ap is_some e)))
  ]
