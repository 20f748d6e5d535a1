-- ===== src/ReqgrpManager/PutsBack.antt =====
-- sysqos_token_reqgrp_manager.c: what is left when a group was put back.
use datastor_qos.Base.{
  ℕ, suc, ◌+◌, ◌≤◌, ◌<◌, ◌≡◌, refl, ap, ◌≢◌, inl, inr, false, List, [], ◌∷◌, arith, length, All,
  ◌==◌, ==_refl, Bool-cases, eq_of_==, ne_of_==, subst, sym, ◌∙◌,
}
use datastor_qos.Run.{returns, Ends, Ends-Returns}
use datastor_qos.MemoryCache
use datastor_qos.MemoryCache.Counting
use datastor_qos.HashTable.{Keys}
use datastor_qos.TokenReqgrp
use datastor_qos.TokenReqgrp.{Stat, init, got, failed, TokenReq, Store, set_grp, update}
use datastor_qos.TokenReqgrp.Init.{clear_members-live}
use datastor_qos.TokenReqgrp.Whole.{IsStore, frame-IsGroup}
use datastor_qos.TokenReqgrp.Since.{Since-refl, IsReported}
use datastor_qos.DispatchNode.Reports.{AreListed}
use datastor_qos.ReqgrpManager.{ReqgrpManager, Answer, end_token_grps}
use datastor_qos.ReqgrpManager.Calls.{try_to_put_tokens, check_node_out, put_token_grp}
use datastor_qos.ReqgrpManager.Nodes.{IsValid}
use datastor_qos.TokenReqgrp.Keeps.{Keeps}
use datastor_qos.ReqgrpManager.Awaits.{StillWaits, StillWaits-refl}
use datastor_qos.ReqgrpManager.Queued.{IsQueued}
use datastor_qos.TokenReqgrp.Counts.{waiting, Has}
use datastor_qos.ReqgrpManager.Told.{
  AllTold, told, told-end_token_grps, Tells, reported-Tells, undecided_at, undecided_at-nil,
}
use datastor_qos.ReqgrpManager.Returned.{given_back, inuse_at, IsAs-refl, put-given_back}
use datastor_qos.ReqgrpManager.Puts.{Away, Putting, put-Putting}

-- A store whose group at `g` was taken apart.
abbrev dropped : Store → ℕ → Store
dropped s g = set_grp s g (record (s.grp g) { members = [] })

unchanged : (s : Store) (ps : List ℕ) → All (λ q. s.req q ≡ s.req q) ps
unchanged s [] = tt
unchanged s (p ∷ ps) = (refl, unchanged s ps)

ne_of : (a b : ℕ) → a ≢ b → (a == b) ≡ false
ne_of a b d = ground arith

dropped-IsStore : (s : Store) (g : ℕ) → IsStore s → IsStore (dropped s g)
dropped-IsStore s g v h = elim (Bool-cases (h == g)) [
  | inl here ↦ inl (rw here refl)
  | inr there ↦ elim (v h) [
    | inl empty ↦ inl (rw there empty)
    | inr live ↦ inr (record {
      group =
          frame-IsGroup s (dropped s g) h (rw there refl) (unchanged s (s.grp h).members)
            live.group;
      back = rw there live.back;
    })
  ]
]

dropped-AreListed :
    (s : Store) (g : ℕ) (ps : List ℕ) → Away s g ps → AreListed s ps → AreListed (dropped s g) ps
dropped-AreListed s g [] a h = tt
dropped-AreListed s g (p ∷ ps) a h =
    (rw (ne_of (s.req p).token_grp g a.0) h.0, dropped-AreListed s g ps a.1 h.1)

members_belong :
    (s : Store) (g : ℕ) → IsStore s → All (λ p. (s.req p).token_grp ≡ g) (s.grp g).members
members_belong s g v = elim (v g) [
  | inl empty ↦ subst (All (λ p. (s.req p).token_grp ≡ g)) (sym empty) tt
  | inr live ↦ live.back
]

module _ (keys : Keys) where
  put-equation :
      (m m₂ : ReqgrpManager) (g : ℕ) (gs : List ℕ)
      → try_to_put_tokens keys m (m.store.grp g).members [] ≡ returns (m₂, gs)
      → put_token_grp keys m g []
        ≡ returns (
          record m₂ {
            store = dropped m₂.store g;
            resource_cache = TokenReqgrp.clear_members (m₂.store.grp g).members m₂.resource_cache;
            token_grp_cache = MemoryCache.free m₂.token_grp_cache;
          },
          end_token_grps m₂.store gs,
        )
  unfolding put_token_grp check_node_out TokenReqgrp.exit
  put-equation m m₂ g gs e = rw (e, put_token_grp) refl

  -- A group that was put back: its requests and itself went back to the caches, what else waited still
  -- waits or was served by the tokens that came back, and the groups that this completed were answered.
  pub record PutsBack (m : ReqgrpManager) (g : ℕ) (r : ReqgrpManager × List Answer) : Type 0 where
    pub valid : IsValid keys r.0
    pub gone : (r.0.store.grp g).members ≡ []
    pub others : (h : ℕ) → h ≢ g → (r.0.store.grp h).members ≡ (m.store.grp h).members
    pub resources :
        Counting.live r.0.resource_cache + length (m.store.grp g).members
        ≡ Counting.live m.resource_cache
    pub grps : suc (Counting.live r.0.token_grp_cache) ≡ Counting.live m.token_grp_cache
    pub caches : Counting.IsValid r.0.resource_cache × Counting.IsValid r.0.token_grp_cache
    pub counter : r.0.next_grp ≡ m.next_grp
    pub keeps : Keeps m.store r.0.store
    pub queued : IsQueued m → IsQueued r.0
    pub still : StillWaits keys m r.0
    pub returned :
        (x : ℕ)
        → (m.items x).lhead_nodereq.token_list ≡ []
        → inuse_at keys r.0 x ≡ given_back keys m x (inuse_at keys m x) (m.store.grp g).members
    pub groups : List ℕ
    pub before : Store
    pub kept : (r.0.store.req ≡ before.req) × ((h : ℕ) → h ≢ g → r.0.store.grp h ≡ before.grp h)
    pub reported : IsReported m.store before groups
    pub all : (h : ℕ) → 0 < undecided_at m.store h → undecided_at before h ≡ 0 → Has h groups
    pub sent : r.1 ≡ end_token_grps before groups

  -- In a valid manager with valid caches that have the group and its requests out, where no
  -- request of the group waits at a node: putting the group back, with no dispatcher that failed,
  -- never ends the process, and leaves a valid manager. The group has no member, all other groups
  -- have theirs, the group and its requests went back to the caches, and the groups that the
  -- tokens completed are answered, each once. Each dispatcher at which nothing waits has as many tokens
  -- less in use, one request after the other and as a word, as those requests of the group cost that got
  -- theirs from it in its present life. Where what waits was undecided and waited once, it is so
  -- still, and what waited and is undecided still waits.
  pub put_token_grp-PutsBack :
      (m : ReqgrpManager) (g : ℕ)
      → IsValid keys m
      → Counting.IsValid m.resource_cache
      → length (m.store.grp g).members ≤ Counting.live m.resource_cache
      → Counting.IsValid m.token_grp_cache
      → 0 < Counting.live m.token_grp_cache
      → ((p : ℕ) → Away m.store g (m.items p).lhead_nodereq.token_list)
      → Ends (put_token_grp keys m g []) (PutsBack m g)
  put_token_grp-PutsBack m g v resources enough grps some_grp away =
      let start : Putting keys m.store g m (m, []) = record {
        valid = v;
        since = Since-refl m.store v.groups;
        away = away;
        resources = refl;
        grps = refl;
        counter = refl;
        queued = λ q. q;
        still = StillWaits-refl keys m;
      } in
      let ((m₂, gs), e, c) =
        Ends-Returns (try_to_put_tokens keys m (m.store.grp g).members [])
          (Putting keys m.store g m)
          (put-Putting keys m.store g m m (m.store.grp g).members [] start) in
      let same = c.since.members g in
      let given = ap length same in
      let units = ap Counting.live c.resources in
      let back =
        clear_members-live (m₂.store.grp g).members m₂.resource_cache (rw c.resources resources)
          (omega (arith, enough, given, units)) in
      let grp_units = ap Counting.live c.grps in
      let grp_back =
        Counting.free-live m₂.token_grp_cache (rw c.grps grps)
          (omega (arith, some_grp, grp_units)) in
      rw (put-equation m m₂ g gs e) (record {
        valid = record {
          table = c.valid.table;
          cache = c.valid.cache;
          level = c.valid.level;
          limit = c.valid.limit;
          groups = dropped-IsStore m₂.store g c.valid.groups;
          waiting = λ p.
              dropped-AreListed m₂.store g (m₂.items p).lhead_nodereq.token_list (c.away p)
                (c.valid.waiting p);
        };
        gone = rw (==_refl g) refl;
        others = λ h far. rw (ne_of h g far) (c.since.members h);
        kept = (refl, λ h far. rw (ne_of h g far) refl);
        resources = omega (arith, back.1, given, units);
        grps = omega (arith, grp_back.2, grp_units);
        caches = (back.0, grp_back.0);
        counter = c.counter;
        keeps = record {
          rs = c.since.keeps.rs;
          grp = c.since.keeps.grp;
          stat = c.since.keeps.stat;
          next = c.since.keeps.next;
        };
        queued = λ q.
            let q' = c.queued q in
            record { undecided = q'.undecided; once = q'.once; apart = q'.apart };
        still = record { items = c.still.items; waits = c.still.waits };
        returned = λ x idle.
            subst
              (λ y. Ends y (λ r.
                inuse_at keys r.0 x
                ≡ given_back keys m x (inuse_at keys m x) (m.store.grp g).members))
              e
              (put-given_back keys m.store g m m x (m.store.grp g).members [] start
                (IsAs-refl keys m g x idle) (members_belong m.store g v.groups));
        groups = gs;
        before = m₂.store;
        reported = c.since.reported;
        all = c.since.all;
        sent = refl;
      })

  same-undecided :
      (s s' : Store) (h : ℕ)
      → s'.req ≡ s.req
      → s'.grp h ≡ s.grp h
      → undecided_at s' h ≡ undecided_at s h
  same-undecided s s' h e f =
      ap (λ r. waiting r (s'.grp h).members) e ∙ ap (λ x. waiting s.req x.members) f

  -- Every other group that this completed is answered.
  pub PutsBack-told :
      (m : ReqgrpManager) (g : ℕ) (r : ReqgrpManager × List Answer)
      → PutsBack m g r
      → AllTold m.store r.0.store r.1 (λ h. h ≢ g)
  PutsBack-told m g r b h far w z =
      subst (λ a. Has h (told a)) (sym b.sent)
        (subst (Has h) (sym (told-end_token_grps b.before b.groups))
          (b.all h w (sym (same-undecided b.before r.0.store h b.kept.0 (b.kept.1 h far)) ∙ z)))

  -- The answers that putting a group back gives.
  pub PutsBack-Tells :
      (m : ReqgrpManager) (g : ℕ) (r : ReqgrpManager × List Answer)
      → PutsBack m g r
      → Tells m.store r.0.store r.1
  PutsBack-Tells m g r b = subst (Tells m.store r.0.store) (sym b.sent) (
      reported-Tells m.store b.before r.0.store
        (λ h z. elim (Bool-cases (h == g)) [
          | inl here ↦
              undecided_at-nil r.0.store h
                (ap (λ x. (r.0.store.grp x).members) (eq_of_== h g here) ∙ b.gone)
          | inr far ↦
              same-undecided b.before r.0.store h b.kept.0 (b.kept.1 h (ne_of_== h g far)) ∙ z
        ])
        b.groups b.reported)
