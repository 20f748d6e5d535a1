-- ===== src/ReqgrpManager/Awaits.antt =====
-- sysqos_token_reqgrp_manager.c: where the undecided requests wait.
use datastor_qos.Base.{
  ℕ, suc, ◌<◌, ◌≤◌, ◌≡◌, sym, ap, subst, ◌∙◌, inl, inr, true, false, none, some, List, arith, ◌==◌,
  eq_of_==, ne_of_==, Bool-cases, if◌then◌else◌,
}
use datastor_qos.HashTable.{Keys}
use datastor_qos.HashTable.View.{view, view_congr}
use datastor_qos.TokenReqgrp.{Stat, init, is_init, Store, update}
use datastor_qos.TokenReqgrp.Counts.{Has, Has-append_cases}
use datastor_qos.TokenReqgrp.Keeps.{Keeps}
use datastor_qos.DispatchNode.{DispatchNode, Outcome}
use datastor_qos.DispatchNode.Taken.{Hands}
use datastor_qos.ReqgrpManager.{ReqgrpManager, put_outcome}
use datastor_qos.ReqgrpManager.Queued.{queue_at, queue-here, queue-there}

pub init_of : (x : Stat) → is_init x ≡ true → x ≡ init
init_of x e = ground arith

pub undecided_only : (x : Stat) → x ≡ init → is_init x ≡ false → ⊥
undecided_only x e f = ground arith

some_inj : {a b : ℕ} → some a ≡ some b → a ≡ b
some_inj e = ground arith

pub none-some : {a : ℕ} → ¬ none ≡ some a
none-some e = ground arith

ne_below : (a b : ℕ) → a < b → (a == b) ≡ false
ne_below a b h = ground arith

still_init : (s s' : Store) (p : ℕ) → Keeps s s' → (s'.req p).stat ≡ init → (s.req p).stat ≡ init
still_init s s' p k e = elim (Bool-cases (is_init (s.req p).stat)) [
  | inl yes_init ↦ init_of (s.req p).stat yes_init
  | inr decided ↦ sym (k.stat p decided) ∙ e
]

module _ (keys : Keys) where
  -- A request waits at a dispatcher that the table knows.
  abbrev pub WaitsAt : ReqgrpManager → ℕ → Type 0
  WaitsAt m p =
      (x : ℕ) × (id : ℕ) × (view keys m.app_node_table id ≡ some x) × Has p (queue_at m.items x)

  -- The items that the table knows were made.
  abbrev pub AreItems : ReqgrpManager → Type 0
  AreItems m = (id x : ℕ) → view keys m.app_node_table id ≡ some x → x < m.next_item

  -- An event under which what waits, and is still undecided, waits still.
  pub record StillWaits (m m' : ReqgrpManager) : Type 0 where
    pub items : AreItems m → AreItems m'
    pub waits : AreItems m → (p : ℕ) → (m'.store.req p).stat ≡ init → WaitsAt m p → WaitsAt m' p

  pub StillWaits-refl : (m : ReqgrpManager) → StillWaits m m
  StillWaits-refl m = record { items = λ a. a; waits = λ a p e w. w }

  pub StillWaits-trans :
      {m m' m'' : ReqgrpManager}
      → Keeps m'.store m''.store
      → StillWaits m m'
      → StillWaits m' m''
      → StillWaits m m''
  StillWaits-trans {m} {m'} {m''} k a b = record {
    items = λ i. b.items (a.items i);
    waits =
        λ i p e w. b.waits (a.items i) p e (a.waits i p (still_init m'.store m''.store p k e) w);
  }

  -- An operation at one item, which decides what it takes off the queue.
  pub hand-StillWaits :
      (m : ReqgrpManager) (x : ℕ) (r : Outcome)
      → Hands (m.items x) m.store r
      → StillWaits m (put_outcome m x r)
  hand-StillWaits m x r h = record {
    items = λ a. a;
    waits = λ a p e (y, id, known, there). (
      y,
      id,
      known,
      (elim (Bool-cases (y == x)) [
        | inr far ↦ subst (Has p) (sym (queue-there m.items x y r.node far)) there
        | inl here ↦
            subst (Has p) (sym (queue-here m.items x y r.node here))
              (elim (Has-append_cases p h.takes.taken _
                (subst (Has p) (ap (queue_at m.items) (eq_of_== y x here) ∙ h.takes.split) there)) [
                  | inl taken ↦ absurd (undecided_only (r.store.req p).stat e (h.decided p taken))
                  | inr left ↦ left
                ])
      ]),
    );
  }

  -- A new item, linked in for an unknown id.
  pub link-StillWaits :
      (m : ReqgrpManager) (id : ℕ) (n : DispatchNode) (m' : ReqgrpManager)
      → view keys m.app_node_table id ≡ none
      → ((q : ℕ)
          → view keys m'.app_node_table q
            ≡ (if keys.cmp.same id q then some m.next_item else view keys m.app_node_table q))
      → m'.items ≡ update m.items m.next_item n
      → m'.next_item ≡ suc m.next_item
      → StillWaits m m'
  link-StillWaits m id n m' unknown reads items next = record {
    items = λ a q x e. elim (Bool-cases (keys.cmp.same id q)) [
      | inl same ↦
          let at_new : x ≡ m.next_item = some_inj (
            sym e
            ∙ reads q
            ∙ ap (λ b. if b then some m.next_item else view keys m.app_node_table q) same) in
          omega (arith, at_new, next)
      | inr other ↦
          let old = a q x (
            sym (
              reads q
              ∙ ap (λ b. if b then some m.next_item else view keys m.app_node_table q) other)
            ∙ e) in
          omega (arith, old, next)
    ];
    waits = λ a p e (x, q, known, there). elim (Bool-cases (keys.cmp.same id q)) [
      | inl same ↦
          absurd (none-some (sym unknown ∙ view_congr keys m.app_node_table id q same ∙ known))
      | inr other ↦
          let far : (x == m.next_item) ≡ false =
            (let old = a q x known in ne_below x m.next_item old) in
          (
            x,
            q,
            reads q
                ∙ ap (λ b. if b then some m.next_item else view keys m.app_node_table q) other
                ∙ known,
            (subst (λ f. Has p (queue_at f x)) (sym items)
                (subst (Has p) (sym (queue-there m.items m.next_item x n far)) there)),
          )
    ];
  }

  -- An item that was unlinked after all that waited there was decided.
  pub unlink-StillWaits :
      (m : ReqgrpManager) (id x : ℕ) (n : DispatchNode) (m' : ReqgrpManager)
      → view keys m.app_node_table id ≡ some x
      → ((q : ℕ)
          → view keys m'.app_node_table q
            ≡ (if keys.cmp.same id q then none else view keys m.app_node_table q))
      → m'.items ≡ update m.items x n
      → m'.next_item ≡ m.next_item
      → ((p : ℕ) → Has p (queue_at m.items x) → is_init (m'.store.req p).stat ≡ false)
      → StillWaits m m'
  unlink-StillWaits m id x n m' known reads items next decided =
      let other_reads : (q : ℕ)
          → keys.cmp.same id q ≡ false
          → view keys m'.app_node_table q ≡ view keys m.app_node_table q =
        λ q other. reads q ∙ ap (λ b. if b then none else view keys m.app_node_table q) other in
      record {
        items = λ a q y e. elim (Bool-cases (keys.cmp.same id q)) [
          | inl same ↦ absurd (
              none-some (
                sym (reads q ∙ ap (λ b. if b then none else view keys m.app_node_table q) same)
                ∙ e))
          | inr other ↦ subst (λ k. y < k) (sym next) (a q y (sym (other_reads q other) ∙ e))
        ];
        waits = λ a p e (y, q, at_y, there). elim (Bool-cases (y == x)) [
          | inl here ↦ absurd (
              undecided_only (m'.store.req p).stat e
                (decided p (subst (λ z. Has p (queue_at m.items z)) (eq_of_== y x here) there)))
          | inr far ↦ elim (Bool-cases (keys.cmp.same id q)) [
            | inl same ↦ absurd (
                ne_of_== y x far
                  (some_inj (sym at_y ∙ sym (view_congr keys m.app_node_table id q same) ∙ known)))
            | inr other ↦ (
              y,
              q,
              other_reads q other ∙ at_y,
              (subst (λ f. Has p (queue_at f y)) (sym items)
                  (subst (Has p) (sym (queue-there m.items x y n far)) there)),
            )
          ]
        ];
      }

  -- An event that leaves the table and the queues as they are.
  pub same-StillWaits :
      (m m' : ReqgrpManager)
      → ((q : ℕ) → view keys m'.app_node_table q ≡ view keys m.app_node_table q)
      → ((x : ℕ) → queue_at m'.items x ≡ queue_at m.items x)
      → m.next_item ≤ m'.next_item
      → StillWaits m m'
  same-StillWaits m m' reads queues next = record {
    items = λ a q x e. let old = a q x (sym (reads q) ∙ e) in omega (arith, old, next);
    waits =
        λ a p e (x, q, known, there). (x, q, reads q ∙ known, subst (Has p) (sym (queues x)) there);
  }

  -- Every undecided request of a group waits at a known dispatcher, but for some.
  abbrev pub AllWait : ReqgrpManager → List ℕ → Type 0
  AllWait m ps =
      (g p : ℕ)
      → Has p (m.store.grp g).members
      → (m.store.req p).stat ≡ init
      → ¬ Has p ps
      → WaitsAt m p

  pub still-AllWait :
      (m m' : ReqgrpManager)
      → StillWaits m m'
      → Keeps m.store m'.store
      → ((g p : ℕ) → Has p (m'.store.grp g).members → Has p (m.store.grp g).members)
      → AreItems m
      → (ps : List ℕ) → AllWait m ps
      → AllWait m' ps
  still-AllWait m m' w k members a ps all g p h e far =
      w.waits a p e (all g p (members g p h) (still_init m.store m'.store p k e) far)
