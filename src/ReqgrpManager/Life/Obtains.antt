-- ===== src/ReqgrpManager/Life/Obtains.antt =====
-- sysqos_token_reqgrp_manager.c: `get_token_grp` as one call of a manager in use.
use datastor_qos.Base.{
  ℕ, suc, ◌+◌, ◌^◌, ◌≤◌, ◌<◌, ◌≡◌, ◌≢◌, refl, sym, ap, subst, ◌∙◌, ◌⊎◌, inl, inr, true, false,
  Option, none, some, List, [], ◌∷◌, arith, length, Bool-cases, le_of_ltb,
}
use datastor_qos.Interface.{QosError, memory, is_error, Resource}
use datastor_qos.Run.{returns, ◌>>=◌, Ends, Ends-bind}
use datastor_qos.MemoryCache
use datastor_qos.MemoryCache.{MemoryCache}
use datastor_qos.MemoryCache.Counting
use datastor_qos.HashTable.{Keys}
use datastor_qos.TokenReqgrp.{Store, init_group}
use datastor_qos.TokenReqgrp.Once.{IsGroup}
use datastor_qos.TokenReqgrp.Init.{init_group-Made}
use datastor_qos.TokenReqgrp.Placing.{AreNew, Placed, init_group-Placed}
use datastor_qos.ReqgrpManager.{ReqgrpManager, Answer, is_refusal}
use datastor_qos.ReqgrpManager.Calls.{check_node_in, ask_tokens, get_token_grp}
use datastor_qos.ReqgrpManager.ComeIn.{ComeIn, check_node_in-ComeIn}
use datastor_qos.ReqgrpManager.Puts.{Away}
use datastor_qos.ReqgrpManager.Awaits.{AllWait, still-AllWait}
use datastor_qos.ReqgrpManager.Queued.{queue_at}
use datastor_qos.TokenReqgrp.Counts.{Has, Has-lt}
use datastor_qos.ReqgrpManager.Life.{
  NoneLost, IsRunning, Continues-IsRunning, silent-Evolves, members_at, size_at,
}
use datastor_qos.ReqgrpManager.Evolves.{Evolves, Evolves-refl, Evolves-trans}
use datastor_qos.ReqgrpManager.Life.Places.{
  with_group, waits_old, old_undecided, built-IsRunning, unbuilt-IsRunning,
}
use datastor_qos.ReqgrpManager.Life.Puts.{Away-Has}
use datastor_qos.ReqgrpManager.Life.Gets.{holds, GetsOf, Asking, ask-Asking, open_of}

module _ (keys : Keys) where
  -- How `get_token_grp` ended, for a group of `n` resources: there was no memory for it, and the application
  -- holds what it held; or what is at the pointer is the next group, whose requests all got their tokens, or
  -- will be answered, or which was refused.
  pub record Obtains (m : ReqgrpManager) (held : List ℕ) (n : ℕ)
      (r : QosError × Option ℕ × ReqgrpManager × List Answer) : Type 0 where
    pub runs : IsRunning keys r.2 (holds held r.0 r.1)
    pub evolves : Evolves m r.2 r.3
    pub kept : NoneLost keys m → NoneLost keys r.2
    pub outcome :
        ((r.0 ≡ memory)
          × ((m.token_grp_cache.cache_unit ≤ Counting.live m.token_grp_cache)
              ⊎ (m.resource_cache.cache_unit < Counting.live m.resource_cache + n)))
        ⊎ ((r.1 ≡ some m.next_grp) × GetsOf keys m.next_grp n (r.0, r.2))

  module _ (m : ReqgrpManager) (held : List ℕ) (rs : List Resource) (pri : ℕ)
      (v : IsRunning keys m held) where
    abbrev built : QosError × Store × MemoryCache
    built = init_group m.store m.resource_cache m.next_grp rs pri

    abbrev taken : MemoryCache
    taken = (MemoryCache.alloc m.token_grp_cache true).1

    get-full :
        (MemoryCache.alloc m.token_grp_cache true).0 ≡ false
        → get_token_grp keys m rs pri ≡ returns (memory, none, m, [])
    unfolding get_token_grp
    get-full e = rw (e, get_token_grp) refl

    get-short :
        (MemoryCache.alloc m.token_grp_cache true).0 ≡ true
        → is_error built.0 ≡ true
        → get_token_grp keys m rs pri
          ≡ returns (
            memory,
            some m.next_grp,
            record m {
              store = built.1;
              next_grp = suc m.next_grp;
              resource_cache = built.2;
              token_grp_cache = MemoryCache.free taken;
            },
            [],
          )
    unfolding get_token_grp
    get-short e f = rw (e, f, get_token_grp) refl

    abbrev start : ReqgrpManager
    start = with_group m built.1 built.2 taken

    get-made :
        (MemoryCache.alloc m.token_grp_cache true).0 ≡ true
        → is_error built.0 ≡ false
        → get_token_grp keys m rs pri ≡ (
            check_node_in keys start rs >>= λ m₂.
            ask_tokens keys m₂ m.next_grp >>= λ r. returns (r.0, some m.next_grp, r.1, r.2))
    unfolding get_token_grp
    get-made e f = rw (e, f, get_token_grp) refl

    b : Placed m.store m.next_grp built.1
    b = init_group-Placed m.store m.resource_cache m.next_grp rs pri

    -- What waits in a manager that went on from the one with the group is of older groups.
    still-Away :
        (m₂ : ReqgrpManager)
        (here : (members_at built.1 m.next_grp ≡ []) ⊎ IsGroup built.1 m.next_grp)
        → ComeIn keys start rs m₂
        → (x : ℕ) → Away m₂.store m.next_grp (queue_at m₂.items x)
    still-Away m₂ here c x = Away-Has m₂.store m.next_grp (queue_at m₂.items x) (λ q h e.
        let (same, far) =
          waits_old keys m held built.1 built.2 taken v b here x q (c.continues.waited x q h) in
        far (sym (ap (λ y. y.token_grp) same) ∙ sym (ap (λ s. (s.req q).token_grp) c.store) ∙ e))

    start-Evolves :
        (s : Store) (rc gc : MemoryCache)
        (here : (members_at s m.next_grp ≡ []) ⊎ IsGroup s m.next_grp)
        → Placed m.store m.next_grp s
        → Evolves m (with_group m s rc gc) []
    start-Evolves s rc gc here p = record {
      grows = omega arith;
      falls = λ g old. let e = old_undecided keys m held s rc gc v p here g old in omega (arith, e);
      each = tt;
      all = λ g old x z.
          let e = old_undecided keys m held s rc gc v p here g old in omega (arith, e, x, z);
      once = tt;
    }

    -- The requests of older groups wait where they did.
    start-AllWait :
        (rc gc : MemoryCache)
        → AllWait keys m []
        → AllWait keys (with_group m built.1 rc gc) (members_at built.1 m.next_grp)
    start-AllWait rc gc all h q k e far =
        let ne : h ≢ m.next_grp = λ same. far (subst (λ x. Has q (members_at built.1 x)) same k) in
        let old = subst (λ x. Has q x.members) (b.grp h ne) k in
        let same = b.req q (Has-lt q (members_at m.store h) (v.fresh h) old) in
        all h q old (sym (ap (λ x. x.stat) same) ∙ e) (λ never. never)

    full-Obtains :
        (MemoryCache.alloc m.token_grp_cache true).0 ≡ false
        → Ends (get_token_grp keys m rs pri) (Obtains m held (length rs))
    full-Obtains e =
        let (_, _, given, _) = Counting.alloc-live m.token_grp_cache v.grps in
        rw (get-full e) (record {
          runs = v;
          evolves = Evolves-refl m;
          kept = λ n. n;
          outcome = inl (refl, inl (le_of_ltb _ _ (sym given ∙ e)));
        })

    short-Obtains :
        (MemoryCache.alloc m.token_grp_cache true).0 ≡ true
        → built.0 ≡ memory
        → members_at built.1 m.next_grp ≡ []
        → Counting.IsValid built.2
        → Counting.live built.2 ≡ Counting.live m.resource_cache
        → m.resource_cache.cache_unit < Counting.live m.resource_cache + length rs
        → Ends (get_token_grp keys m rs pri) (Obtains m held (length rs))
    unfolding is_refusal
    short-Obtains e f gone valid units few =
        let (tv, _, _, more) = Counting.alloc-live m.token_grp_cache v.grps in
        let counted = rw e at more in
        let (fv, _, less) = Counting.free-live taken tv (omega (arith, counted)) in
        let back : Counting.live (MemoryCache.free taken) ≡ Counting.live m.token_grp_cache =
          omega (arith, counted, less) in
        rw (get-short e (ap is_error f)) (record {
          runs =
              unbuilt-IsRunning keys m held built.1 built.2 (MemoryCache.free taken) v b (inl gone)
                gone valid fv units back;
          evolves = start-Evolves built.1 built.2 (MemoryCache.free taken) (inl gone) b;
          kept = λ n.
              let (items, all) = n in
              (
                items,
                subst (AllWait keys (with_group m built.1 built.2 (MemoryCache.free taken))) gone
                    (start-AllWait built.2 (MemoryCache.free taken) all),
              );
          outcome = inl (refl, inr few);
        })

    online-Obtains :
        (m₂ : ReqgrpManager)
        → (here : (members_at built.1 m.next_grp ≡ []) ⊎ IsGroup built.1 m.next_grp)
        → IsRunning keys start (m.next_grp ∷ held)
        → size_at built.1 m.next_grp ≡ length rs
        → ComeIn keys start rs m₂
        → Ends
            (ask_tokens keys m₂ m.next_grp >>= λ r. returns (r.0, some m.next_grp, r.1, r.2))
            (Obtains m held (length rs))
    online-Obtains m₂ here w size c =
        let v₂ = Continues-IsRunning keys start m₂ (m.next_grp ∷ held) w c.valid c.continues in
        let e₂ =
          Evolves-trans m start m₂ [] [] (start-Evolves built.1 built.2 taken here b)
            (silent-Evolves keys start m₂ (m.next_grp ∷ held) w c.continues c.store) in
        let new =
          subst (λ s. AreNew m.store.next s m.next_grp (members_at s m.next_grp)) (sym c.store)
            b.members in
        let asked =
          ask-Asking keys m₂ held m.next_grp (members_at m₂.store m.next_grp) v₂ refl
            (open_of keys m.store.next m₂.store m.next_grp (members_at m₂.store m.next_grp) new
              (λ q h. h))
            (still-Away m₂ here c) in
        let n : size_at m₂.store m.next_grp ≡ length rs =
          ap (λ s. size_at s m.next_grp) c.store ∙ size in
        Ends-bind (ask_tokens keys m₂ m.next_grp) (λ r. returns (r.0, some m.next_grp, r.1, r.2))
          (Asking keys m₂ held m.next_grp) (Obtains m held (length rs)) asked
          (λ r a. record {
            runs = a.runs;
            evolves = a.evolves m (omega arith) e₂;
            kept = λ n.
                let (items, all) = n in
                a.waits (c.still.items items) (
                  subst (λ s. AllWait keys m₂ (members_at s m.next_grp)) (sym c.store)
                    (still-AllWait keys start m₂ c.still c.continues.keeps
                      (λ h p k. subst (Has p) (c.continues.members h) k) items
                      (members_at built.1 m.next_grp) (start-AllWait built.2 taken all)));
            outcome = inr (refl, subst (λ k. GetsOf keys m.next_grp k (r.0, r.1)) n a.outcome);
          })

    made-Obtains :
        (MemoryCache.alloc m.token_grp_cache true).0 ≡ true
        → is_error built.0 ≡ false
        → IsGroup built.1 m.next_grp
        → size_at built.1 m.next_grp ≡ length rs
        → Counting.IsValid built.2
        → Counting.live built.2 ≡ Counting.live m.resource_cache + length rs
        → Ends (get_token_grp keys m rs pri) (Obtains m held (length rs))
    made-Obtains e f group size valid units =
        let (tv, _, _, more) = Counting.alloc-live m.token_grp_cache v.grps in
        let counted = rw e at more in
        let w : IsRunning keys start (m.next_grp ∷ held) =
          built-IsRunning keys m held built.1 built.2 taken v b (inr group) valid tv
            (omega (arith, units, size)) (omega (arith, counted)) in
        rw (get-made e f) (
          Ends-bind (check_node_in keys start rs)
            (λ m₂. ask_tokens keys m₂ m.next_grp >>= λ r. returns (r.0, some m.next_grp, r.1, r.2))
            (ComeIn keys start rs) (Obtains m held (length rs))
            (check_node_in-ComeIn keys start rs w.valid)
            (λ m₂ c. online-Obtains m₂ (inr group) w size c))

  -- In a manager in use, `get_token_grp` for fewer than 2 ^ 31 resources never ends the process, whatever
  -- dispatchers they name, and leaves a manager in use. There was no memory for the group, and the
  -- application holds what it held; or the group is the next one, each of whose requests got its
  -- tokens (OK), or will be answered (PENDING, and something is undecided), or which was refused as a
  -- dispatcher failed (FAILEDNODE), has no request any more and is not held. The groups that the call
  -- answers are answered each once, no older group has more undecided
  -- requests than before, and one that becomes decided is answered. Where no request was lost before,
  -- none is lost.
  pub get_token_grp-Obtains :
      (m : ReqgrpManager) (held : List ℕ) (rs : List Resource) (pri : ℕ)
      → IsRunning keys m held
      → length rs < 2 ^ 31
      → Ends (get_token_grp keys m rs pri) (Obtains m held (length rs))
  get_token_grp-Obtains m held rs pri v few =
      let made = init_group-Made m.store m.resource_cache m.next_grp rs pri v.resources few in
      elim (Bool-cases (MemoryCache.alloc m.token_grp_cache true).0) [
        | inr full ↦ full-Obtains m held rs pri v full
        | inl given ↦ elim made.outcome [
          | inl (e, group, size, _, units) ↦
              made-Obtains m held rs pri v given (ap is_error e) group size made.cache units
          | inr (e, gone, units, short) ↦
              short-Obtains m held rs pri v given e gone made.cache units short
        ]
      ]
