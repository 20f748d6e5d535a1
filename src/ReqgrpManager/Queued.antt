-- ===== src/ReqgrpManager/Queued.antt =====
-- sysqos_token_reqgrp_manager.c: the queues of all dispatchers together, and events that make no group.
use datastor_qos.Base.{
  ℕ, ◌≡◌, refl, sym, ap, subst, ◌∙◌, inl, inr, List, [], true, false, if◌then◌else◌, ◌==◌, eq_of_==,
  ne_of_==, Bool-cases,
}
use datastor_qos.TokenReqgrp.{init, Store, update}
use datastor_qos.TokenReqgrp.Counts.{
  Has, Distinct, Has-append_left, Has-append_right, Distinct-append_right, Distinct-apart,
}
use datastor_qos.TokenReqgrp.Keeps.{Keeps, Keeps-refl, Keeps-trans}
use datastor_qos.TokenReqgrp.Whole.{SameMembers}
use datastor_qos.DispatchNode.{DispatchNode, Outcome}
use datastor_qos.DispatchNode.Taken.{Takes, append-nil}
use datastor_qos.ReqgrpManager.{ReqgrpManager}

abbrev pub queue_at : (ℕ → DispatchNode) → ℕ → List ℕ
queue_at items x = (items x).lhead_nodereq.token_list

pub queue-here :
    (items : ℕ → DispatchNode) (x y : ℕ) (n : DispatchNode)
    → (y == x) ≡ true
    → queue_at (update items x n) y ≡ n.lhead_nodereq.token_list
queue-here items x y n e = ap (λ b. (if b then n else items y).lhead_nodereq.token_list) e

pub queue-there :
    (items : ℕ → DispatchNode) (x y : ℕ) (n : DispatchNode)
    → (y == x) ≡ false
    → queue_at (update items x n) y ≡ queue_at items y
queue-there items x y n e = ap (λ b. (if b then n else items y).lhead_nodereq.token_list) e

-- A request that waits is undecided, and waits once, in one queue.
pub record AreQueued (s : Store) (items : ℕ → DispatchNode) : Type 0 where
  pub undecided : (x p : ℕ) → Has p (queue_at items x) → (s.req p).stat ≡ init
  pub once : (x : ℕ) → Distinct (queue_at items x)
  pub apart : (x y p : ℕ) → Has p (queue_at items x) → Has p (queue_at items y) → x ≡ y

abbrev pub IsQueued : ReqgrpManager → Type 0
IsQueued m = AreQueued m.store m.items

module _ (s : Store) (items : ℕ → DispatchNode) (x : ℕ) (r : Outcome)
    (t : Takes (items x) s r) where
  -- What waits after an operation at one item waited before.
  pub take-Has : (y p : ℕ) → Has p (queue_at (update items x r.node) y) → Has p (queue_at items y)
  take-Has y p h = elim (Bool-cases (y == x)) [
    | inl here ↦
        subst (λ z. Has p (queue_at items z)) (sym (eq_of_== y x here))
          (subst (Has p) (sym t.split)
            (Has-append_right p t.taken _ (subst (Has p) (queue-here items x y r.node here) h)))
    | inr there ↦ subst (Has p) (queue-there items x y r.node there) h
  ]

  not_taken :
      AreQueued s items → (y p : ℕ) → Has p (queue_at (update items x r.node) y) → ¬ Has p t.taken
  not_taken q y p h there = elim (Bool-cases (y == x)) [
    | inl here ↦
        Distinct-apart p t.taken _ (subst Distinct t.split (q.once x))
          (subst (Has p) (queue-here items x y r.node here) h) there
    | inr far ↦ ne_of_== y x far (
        q.apart y x p (subst (Has p) (queue-there items x y r.node far) h)
          (subst (Has p) (sym t.split) (Has-append_left p t.taken _ there)))
  ]

  pub take-AreQueued : AreQueued s items → AreQueued r.store (update items x r.node)
  take-AreQueued q = record {
    undecided = λ y p h. t.stat p (not_taken q y p h) ∙ q.undecided y p (take-Has y p h);
    once = λ y. elim (Bool-cases (y == x)) [
      | inl here ↦
          subst Distinct (sym (queue-here items x y r.node here))
            (Distinct-append_right t.taken _ (subst Distinct t.split (q.once x)))
      | inr there ↦ subst Distinct (sym (queue-there items x y r.node there)) (q.once y)
    ];
    apart = λ y z p h k. q.apart y z p (take-Has y p h) (take-Has z p k);
  }

-- An item whose queue was replaced by an empty one, or by itself.
pub emptied-Takes :
    (n n' : DispatchNode) (s : Store)
    → n'.lhead_nodereq.token_list ≡ []
    → Takes n s (record { node = n'; store = s; groups = [] })
emptied-Takes n n' s e = record {
  taken = n.lhead_nodereq.token_list;
  split = rw e (append-nil n.lhead_nodereq.token_list);
  stat = λ q far. refl;
}

pub same-Takes :
    (n n' : DispatchNode) (s : Store)
    → n'.lhead_nodereq.token_list ≡ n.lhead_nodereq.token_list
    → Takes n s (record { node = n'; store = s; groups = [] })
same-Takes n n' s e = record { taken = []; split = sym e; stat = λ q far. refl }

-- What an event leaves as it was that makes no group and drops none.
pub record Continues (m m' : ReqgrpManager) : Type 0 where
  pub counter : m'.next_grp ≡ m.next_grp
  pub resources : m'.resource_cache ≡ m.resource_cache
  pub grps : m'.token_grp_cache ≡ m.token_grp_cache
  pub keeps : Keeps m.store m'.store
  pub members : SameMembers m.store m'.store
  pub queued : IsQueued m → IsQueued m'
  pub waited : (x p : ℕ) → Has p (queue_at m'.items x) → Has p (queue_at m.items x)

pub Continues-refl : (m : ReqgrpManager) → Continues m m
Continues-refl m = record {
  counter = refl;
  resources = refl;
  grps = refl;
  keeps = Keeps-refl m.store;
  members = λ g. refl;
  queued = λ q. q;
  waited = λ x p h. h;
}

pub Continues-trans :
    {m m' m'' : ReqgrpManager} → Continues m m' → Continues m' m'' → Continues m m''
Continues-trans a b = record {
  counter = b.counter ∙ a.counter;
  resources = b.resources ∙ a.resources;
  grps = b.grps ∙ a.grps;
  keeps = Keeps-trans a.keeps b.keeps;
  members = λ g. b.members g ∙ a.members g;
  queued = λ q. b.queued (a.queued q);
  waited = λ x p h. a.waited x p (b.waited x p h);
}
