-- ===== src/ReqgrpManager/Life/Places.antt =====
-- sysqos_token_reqgrp_manager.c: a manager in use makes a group.
use datastor_qos.Base.{
  ℕ, suc, ◌+◌, ◌<◌, ◌≡◌, sym, ap, subst, ◌∙◌, ◌≢◌, ◌⊎◌, inl, inr, List, [], ◌∷◌, arith, sum_of,
  ◌==◌, eq_of_==, ne_of_==, Bool-cases,
}
use datastor_qos.MemoryCache.{MemoryCache}
use datastor_qos.MemoryCache.Counting
use datastor_qos.HashTable.{Keys}
use datastor_qos.TokenReqgrp.{Store}
use datastor_qos.TokenReqgrp.Counts.{Falls, Falls-mono, Has, Has-lt}
use datastor_qos.TokenReqgrp.Once.{IsGroup}
use datastor_qos.TokenReqgrp.Placing.{Placed, placed-IsStore, placed-IsListed, waiting-old}
use datastor_qos.DispatchNode.Reports.{AreListed-later}
use datastor_qos.ReqgrpManager.{ReqgrpManager}
use datastor_qos.ReqgrpManager.Nodes.{IsValid}
use datastor_qos.ReqgrpManager.Queued.{IsQueued, queue_at}
use datastor_qos.ReqgrpManager.Told.{undecided_at}
use datastor_qos.ReqgrpManager.Life.{IsRunning, members_at, size_at}
use datastor_qos.ReqgrpManager.Life.Held.{sizes-kept}
use datastor_qos.ReqgrpManager.Life.Puts.{listed_at}

-- The manager after the group at `next_grp` was built, or was not.
abbrev pub with_group : ReqgrpManager → Store → MemoryCache → MemoryCache → ReqgrpManager
with_group m s' rc gc = record m {
  store = s';
  next_grp = suc m.next_grp;
  resource_cache = rc;
  token_grp_cache = gc;
}

module _ (keys : Keys) (m : ReqgrpManager) (held : List ℕ) (s' : Store) (rc gc : MemoryCache)
    (v : IsRunning keys m held) (b : Placed m.store m.next_grp s')
    (here : ((s'.grp m.next_grp).members ≡ []) ⊎ IsGroup s' m.next_grp) where
  empty_yet : members_at m.store m.next_grp ≡ []
  empty_yet = v.unmade m.next_grp (omega arith)

  pub with_group-IsValid : IsValid keys (with_group m s' rc gc)
  with_group-IsValid = record {
    table = v.valid.table;
    cache = v.valid.cache;
    level = v.valid.level;
    limit = v.valid.limit;
    groups = placed-IsStore m.store s' m.next_grp b v.valid.groups v.fresh here;
    waiting = λ x.
        AreListed-later m.store s' (queue_at m.items x)
          (placed-IsListed m.store s' m.next_grp b v.fresh empty_yet) (v.valid.waiting x);
  }

  -- What waits is of an older group.
  pub waits_old :
      (x q : ℕ)
      → Has q (queue_at m.items x)
      → (s'.req q ≡ m.store.req q) × ((m.store.req q).token_grp ≢ m.next_grp)
  waits_old x q h =
      let l = listed_at m.store (queue_at m.items x) q (v.valid.waiting x) h in
      (
        b.req q (
            Has-lt q (members_at m.store (m.store.req q).token_grp)
              (v.fresh (m.store.req q).token_grp) l),
        λ e. subst (Has q) (ap (members_at m.store) e ∙ empty_yet) l,
      )

  pub with_group-IsQueued : IsQueued (with_group m s' rc gc)
  with_group-IsQueued = record {
    undecided = λ x q h. ap (λ r. r.stat) (waits_old x q h).0 ∙ v.queued.undecided x q h;
    once = v.queued.once;
    apart = v.queued.apart;
  }

  fresh_after : (g : ℕ) → Falls s'.next (members_at s' g)
  fresh_after g = elim (Bool-cases (g == m.next_grp)) [
    | inl same ↦
        subst (λ x. Falls s'.next (members_at s' x)) (sym (eq_of_== g m.next_grp same)) b.falls
    | inr far ↦
        subst (λ ps. Falls s'.next ps)
          (sym (ap (λ x. x.members) (b.grp g (ne_of_== g m.next_grp far))))
          (Falls-mono (members_at m.store g) b.next (v.fresh g))
  ]

  old_members : (g : ℕ) → g ≢ m.next_grp → members_at s' g ≡ members_at m.store g
  old_members g far = ap (λ x. x.members) (b.grp g far)

  old_sizes : sum_of (size_at s') held ≡ sum_of (size_at m.store) held
  old_sizes = sizes-kept m.store s' held (λ g h. old_members g (λ e. omega (arith, e, v.made g h)))

  pub old_undecided : (g : ℕ) → g < m.next_grp → undecided_at s' g ≡ undecided_at m.store g
  old_undecided g old =
      waiting-old m.store s' m.next_grp b g (λ e. omega (arith, e, old)) (v.fresh g)

  -- The group was built: the application may hold it.
  pub built-IsRunning :
      Counting.IsValid rc
      → Counting.IsValid gc
      → Counting.live rc ≡ Counting.live m.resource_cache + size_at s' m.next_grp
      → Counting.live gc ≡ suc (Counting.live m.token_grp_cache)
      → IsRunning keys (with_group m s' rc gc) (m.next_grp ∷ held)
  built-IsRunning resources grps units grp_units = record {
    valid = with_group-IsValid;
    queued = with_group-IsQueued;
    fresh = fresh_after;
    unmade = λ g new. old_members g (λ e. omega (arith, e, new)) ∙ v.unmade g (omega (arith, new));
    resources = resources;
    grps = grps;
    units = omega (arith, units, v.units, old_sizes);
    grp_units = omega (arith, grp_units, v.grp_units);
    unheld = λ g far. old_members g (λ e. far (inl (sym e))) ∙ v.unheld g (λ h. far (inr h));
    once = ((λ h. omega (arith, v.made m.next_grp h)), v.once);
    made = λ g h. elim h [
      | inl e ↦ omega (arith, e)
      | inr there ↦ let old = v.made g there in omega (arith, old)
    ];
  }

  -- The group was not built: the application holds what it held.
  pub unbuilt-IsRunning :
      members_at s' m.next_grp ≡ []
      → Counting.IsValid rc
      → Counting.IsValid gc
      → Counting.live rc ≡ Counting.live m.resource_cache
      → Counting.live gc ≡ Counting.live m.token_grp_cache
      → IsRunning keys (with_group m s' rc gc) held
  unbuilt-IsRunning gone resources grps units grp_units = record {
    valid = with_group-IsValid;
    queued = with_group-IsQueued;
    fresh = fresh_after;
    unmade = λ g new. old_members g (λ e. omega (arith, e, new)) ∙ v.unmade g (omega (arith, new));
    resources = resources;
    grps = grps;
    units = omega (arith, units, v.units, old_sizes);
    grp_units = omega (arith, grp_units, v.grp_units);
    unheld = λ g far. elim (Bool-cases (g == m.next_grp)) [
      | inl same ↦ ap (members_at s') (eq_of_== g m.next_grp same) ∙ gone
      | inr other ↦ old_members g (ne_of_== g m.next_grp other) ∙ v.unheld g far
    ];
    once = v.once;
    made = λ g h. let old = v.made g h in omega (arith, old);
  }
