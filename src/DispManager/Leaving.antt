-- ===== src/DispManager/Leaving.antt =====
-- sysqos_dispatch_manager.c: applicants that go offline.
use datastor_qos.Base.{ℕ, ◌≡◌, refl, ap, ◌∙◌, Option, none, some, if◌then◌else◌}
use datastor_qos.Run.{assertion_failed, returns, aborts, Ends, Returns}
use datastor_qos.SafeRwList.{RwError}
use datastor_qos.HashTable
use datastor_qos.HashTable.{Keys, Table}
use datastor_qos.HashTable.View
use datastor_qos.HashTable.View.{view, find-view}
use datastor_qos.HashTable.Writes.{erase-Erased, Erased}
use datastor_qos.DispManager.Events.{Manager, node_offline}
use datastor_qos.DispManager.Coming.{node_of}

module _ (keys : Keys) where
  gone-none :
      (m : Manager) (id : ℕ) (tab : Table ℕ) (old : Option ℕ)
      → HashTable.erase keys m.round.tab id ≡ returns (RwError.notfound, old, tab)
      → node_offline keys m id ≡ returns (record m { round = record m.round { tab = tab } })
  unfolding node_offline
  gone-none m id tab old e = rw (e, node_offline) refl

  gone-some :
      (m : Manager) (id : ℕ) (tab : Table ℕ) (old : Option ℕ)
      → HashTable.erase keys m.round.tab id ≡ returns (RwError.ok, old, tab)
      → node_offline keys m id ≡ aborts assertion_failed
  unfolding node_offline
  gone-some m id tab old e = rw (e, node_offline) refl

  -- What taking an applicant offline comes to: the process ends where it is known; the table says what it
  -- said where it is not.
  abbrev pub Leaves : Manager → ℕ → Option ℕ → Type 0
  Leaves m id none = Ends (node_offline keys m id) (λ m'.
      ((q : ℕ) → node_of keys m' q ≡ (if keys.cmp.same id q then none else node_of keys m q))
      × (m'.round.tokens ≡ m.round.tokens)
      × (m'.token_node_cache ≡ m.token_node_cache))
  Leaves m id (some p) = node_offline keys m id ≡ aborts assertion_failed

  offline_cases :
      (m : Manager) (id : ℕ) (o : Option ℕ)
      → (v : View.IsValid keys m.round.tab) → node_of keys m id ≡ o
      → Returns (HashTable.erase keys m.round.tab id) (Erased keys m.round.tab v id o)
      → Leaves m id o
  offline_cases m id none v e ((err, old, tab), eq, (_, w, _, _)) =
      rw (gone-none m id tab old (eq ∙ ap (λ x. returns (x, old, tab)) w.error))
        (w.reads, refl, refl)
  offline_cases m id (some p) v e ((err, old, tab), eq, (_, w, _, _)) =
      gone-some m id tab old (eq ∙ ap (λ x. returns (x, old, tab)) w.error)

  -- Where the table is valid, taking an applicant offline ends the process exactly where the applicant is
  -- known, by the assertion of the list of waiting nodes; otherwise the table says what it said, and the
  -- pools and the cache of nodes are as they were.
  pub node_offline-Leaves :
      (m : Manager) (id : ℕ) → View.IsValid keys m.round.tab → Leaves m id (node_of keys m id)
  node_offline-Leaves m id v =
      offline_cases m id (node_of keys m id) v refl (erase-Erased keys m.round.tab v id)
