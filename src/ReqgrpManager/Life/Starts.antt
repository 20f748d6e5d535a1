-- ===== src/ReqgrpManager/Life/Starts.antt =====
-- sysqos_token_reqgrp_manager.c: a manager that was just initialised.
use datastor_qos.Base.{ℕ, ◌<◌, ◌≡◌, refl, sym, subst, ◌∙◌, inl, none, [], IsWord}
use datastor_qos.Run.{returns, Ends}
use datastor_qos.MemoryCache
use datastor_qos.MemoryCache.Counting
use datastor_qos.HashTable
use datastor_qos.HashTable.{Keys, Table}
use datastor_qos.HashTable.Writes.{alloc_table-IsValid, cache_unit-init}
use datastor_qos.TokenReqgrp.{Store}
use datastor_qos.TokenReqgrp.Counts.{Falls, Has, Distinct}
use datastor_qos.DispatchNode.{DispatchNode}
use datastor_qos.DispatchNode.Reports.{AreListed}
use datastor_qos.ReqgrpManager.{ReqgrpManager, Sizes, init}
use datastor_qos.ReqgrpManager.Nodes.{item_of}
use datastor_qos.ReqgrpManager.Awaits.{none-some}
use datastor_qos.ReqgrpManager.Queued.{queue_at}
use datastor_qos.ReqgrpManager.Life.{NoneLost, IsRunning, members_at}

abbrev made : Sizes → Store → (ℕ → DispatchNode) → ℕ → ℕ → ℕ → Table ℕ → ReqgrpManager
made sizes store items grps resources nodes t = record {
  store = store;
  next_grp = 0;
  items = items;
  next_item = 0;
  token_grp_cache = MemoryCache.init sizes.token_grp grps;
  resource_cache = MemoryCache.init sizes.token_req resources;
  app_node_table = t;
  manager_item_cache = MemoryCache.init sizes.dispatch_node nodes;
  version = 0;
}

init-made :
    (sizes : Sizes) (store : Store) (items : ℕ → DispatchNode) (n grps resources nodes : ℕ)
    (t : Table ℕ)
    → HashTable.alloc_table n nodes ≡ returns t
    → init sizes store items n grps resources nodes
      ≡ returns (made sizes store items grps resources nodes t)
unfolding init
init-made sizes store items n grps resources nodes t e = rw (e, init) refl

-- A manager with a table of any positive length, for any numbers of groups, requests and dispatchers that
-- are machine words, is in use: the application holds nothing, no dispatcher is known,
-- and no request is lost.
pub init-IsRunning :
    (keys : Keys) (sizes : Sizes) (store : Store) (items : ℕ → DispatchNode)
    (tab_len max_grps max_resources max_nodes : ℕ)
    → 0 < tab_len
    → IsWord max_grps
    → IsWord max_resources
    → IsWord max_nodes
    → ((g : ℕ) → members_at store g ≡ [])
    → ((x : ℕ) → queue_at items x ≡ [])
    → Ends
        (init sizes store items tab_len max_grps max_resources max_nodes)
        (λ m. IsRunning keys m [] × ((id : ℕ) → item_of keys m id ≡ none) × NoneLost keys m)
init-IsRunning keys sizes store items n grps resources nodes long gw cw nw no_group no_request =
    let (t, e, (valid, empty, none_live, room)) = alloc_table-IsValid ℕ keys n nodes long nw in
    rw (init-made sizes store items n grps resources nodes t e) (
      record {
        valid = record {
          table = valid;
          cache = Counting.init-IsValid sizes.dispatch_node nodes nw;
          level = Counting.live-init sizes.dispatch_node nodes ∙ sym none_live;
          limit = cache_unit-init sizes.dispatch_node nodes ∙ sym room;
          groups = λ g. inl (no_group g);
          waiting = λ x. subst (AreListed store) (sym (no_request x)) tt;
        };
        queued = record {
          undecided = λ x p h. absurd (subst (Has p) (no_request x) h);
          once = λ x. subst Distinct (sym (no_request x)) tt;
          apart = λ x y p h k. absurd (subst (Has p) (no_request x) h);
        };
        fresh = λ g. subst (λ ps. Falls store.next ps) (sym (no_group g)) tt;
        unmade = λ g _. no_group g;
        resources = Counting.init-IsValid sizes.token_req resources cw;
        grps = Counting.init-IsValid sizes.token_grp grps gw;
        units = Counting.live-init sizes.token_req resources;
        grp_units = Counting.live-init sizes.token_grp grps;
        unheld = λ g _. no_group g;
        once = tt;
        made = λ g h. absurd h;
      },
      empty,
      (
        λ id x e. absurd (none-some (sym (empty id) ∙ e)),
        λ g p h e far. absurd (subst (Has p) (no_group g) h),
      ),
    )
