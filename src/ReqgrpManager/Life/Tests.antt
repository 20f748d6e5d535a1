-- ===== src/ReqgrpManager/Life/Tests.antt =====
-- sysqos_token_reqgrp_manager.c: a manager in use that knows one dispatcher, and what happens to it.
use datastor_qos.Base.{
  ℕ, zero, suc, ◌<◌, ◌≡◌, refl, sym, ap, subst, ◌∙◌, ◌⊎◌, inl, inr, true, false, none, some, List,
  [], ◌∷◌, arith, ◌==◌, if◌then◌else◌, eq_of_==, Bool-cases,
}
use datastor_qos.Interface.{Resource}
use datastor_qos.Run.{Ends}
use datastor_qos.SafeRwList
use datastor_qos.HashTable.Buckets.{at}
use datastor_qos.HashTable.View.{view, home}
use datastor_qos.HashTable.Tests.{remainders, same_number, table}
use datastor_qos.DispatchNode.Reports.{AreListed}
use datastor_qos.ReqgrpManager.{ReqgrpManager}
use datastor_qos.TokenReqgrp.Counts.{Has, Distinct}
use datastor_qos.ReqgrpManager.Queued.{queue_at}
use datastor_qos.ReqgrpManager.Told.{undecided_at, told}
use datastor_qos.ReqgrpManager.Life.Endings.{leave_all, leave_all-answers}
use datastor_qos.TokenReqgrp.{Store}
use datastor_qos.TokenReqgrp.Counts.{Falls}
use datastor_qos.DispatchNode.Tests.{pair}
use datastor_qos.ReqgrpManager.{Sizes, init}
use datastor_qos.ReqgrpManager.Calls.{get_token_grp}
use datastor_qos.ReqgrpManager.Nodes.{item_of}
use datastor_qos.ReqgrpManager.Tests.{manager, idle-IsValid}
use datastor_qos.ReqgrpManager.Life.{NoneLost, IsRunning, members_at}
use datastor_qos.ReqgrpManager.Life.Obtains.{Obtains, get_token_grp-Obtains}
use datastor_qos.ReqgrpManager.Life.Starts.{init-IsRunning}
use datastor_qos.ReqgrpManager.Life.History.{
  System, Event, comes_online, goes_offline, asks, step, run, GoesOn, step-GoesOn, run-GoesOn,
}

-- Group 0 is held, and nothing waits.
other_groups : (g : ℕ) → (g == 0) ≡ false → members_at pair g ≡ []
other_groups g e = rw e refl

idle-IsRunning : IsRunning remainders (manager []) (0 ∷ [])
idle-IsRunning = record {
  valid = idle-IsValid;
  queued = record { undecided = λ x p h. absurd h; once = λ x. tt; apart = λ x y p h k. absurd h };
  fresh = λ g. elim (Bool-cases (g == 0)) [
    | inl here ↦
        subst (λ x. Falls 2 (members_at pair x)) (sym (eq_of_== g 0 here))
          (omega arith, (omega arith, tt))
    | inr far ↦ subst (Falls 2) (sym (other_groups g far)) tt
  ];
  unmade = λ g new. other_groups g (ground arith);
  resources = ground arith;
  grps = ground arith;
  units = ground arith;
  grp_units = ground arith;
  unheld = λ g far. elim (Bool-cases (g == 0)) [
    | inl here ↦ absurd (far (inl (sym (eq_of_== g 0 here))))
    | inr other ↦ other_groups g other
  ];
  once = ((λ h. h), tt);
  made = λ g h. elim h [ inl e ↦ omega (arith, e) | inr none_left ↦ absurd none_left ];
}

abbrev two_tokens : List Resource
two_tokens = record { id = 7; cost = 2 } ∷ record { id = 8; cost = 3 } ∷ []

get_token_grp-Obtains_example :
    Ends
      (get_token_grp remainders (manager []) two_tokens 5)
      (Obtains remainders (manager []) (0 ∷ []) 2)
get_token_grp-Obtains_example =
    get_token_grp-Obtains remainders (manager []) (0 ∷ []) two_tokens 5 idle-IsRunning (omega arith)

abbrev idle : System
idle = record { manager = manager []; held = 0 ∷ [] }

step-GoesOn_example : Ends (step remainders idle (goes_offline 7)) (GoesOn remainders idle)
step-GoesOn_example = step-GoesOn remainders idle (goes_offline 7) idle-IsRunning tt

abbrev day : List Event
day = comes_online 8 ∷ asks two_tokens 5 ∷ goes_offline 7 ∷ []

run-GoesOn_example : Ends (run remainders idle day) (GoesOn remainders idle)
run-GoesOn_example =
    run-GoesOn remainders idle day idle-IsRunning
      (tt, λ r e. (omega arith, λ r' f. (tt, λ x y. tt)))

abbrev unused : Store
unused = record { req = pair.req; grp = λ g. record (pair.grp g) { members = [] }; next = 0 }

abbrev sizes : Sizes
sizes = record { token_grp = 64; token_req = 64; dispatch_node = 64 }

init-IsRunning_example : Ends (init sizes unused (manager []).items 4 10 20 30) (λ m.
    IsRunning remainders m [] × ((id : ℕ) → item_of remainders m id ≡ none) × NoneLost remainders m)
init-IsRunning_example =
    init-IsRunning remainders sizes unused (manager []).items 4 10 20 30 (omega arith)
      (ground arith) (ground arith) (ground arith) (λ g. refl) (λ x. refl)

-- Both requests of group 0 wait at the one dispatcher that is known, 7, whose item is 99.
abbrev both : List ℕ
both = 1 ∷ 0 ∷ []

abbrev waits_both : ReqgrpManager
waits_both = record (manager []) {
  items = λ p. record ((manager []).items p) {
    lhead_nodereq = record { token_list = if p == 99 then both else []; press = 6 };
  };
}

queue_cases :
    (x : ℕ) → ((x ≡ 99) × (queue_at waits_both.items x ≡ both)) ⊎ (queue_at waits_both.items x ≡ [])
queue_cases x = elim (Bool-cases (x == 99)) [
  | inl here ↦ inl (eq_of_== x 99 here, ap (λ b. if b then both else []) here)
  | inr far ↦ inr (ap (λ b. if b then both else []) far)
]

at_item : (x p : ℕ) → Has p (queue_at waits_both.items x) → x ≡ 99
at_item x p h = elim (queue_cases x) [
  | inl (here, _) ↦ here
  | inr empty ↦ absurd (subst (Has p) empty h)
]

waits_once : (x : ℕ) → Distinct (queue_at waits_both.items x)
waits_once x = elim (queue_cases x) [
  | inl (_, e) ↦
      subst Distinct (sym e)
        ((λ h. elim h [ inl e ↦ omega (arith, e) | inr never ↦ never ]), ((λ h. h), tt))
  | inr e ↦ subst Distinct (sym e) tt
]

waits_listed : (x : ℕ) → AreListed pair (queue_at waits_both.items x)
waits_listed x = elim (queue_cases x) [
  | inl (_, e) ↦ subst (AreListed pair) (sym e) (inl refl, (inr (inl refl), tt))
  | inr e ↦ subst (AreListed pair) (sym e) tt
]

waits-IsRunning : IsRunning remainders waits_both (0 ∷ [])
waits-IsRunning = record {
  valid = record {
    table = idle-IsValid.table;
    cache = idle-IsValid.cache;
    level = idle-IsValid.level;
    limit = idle-IsValid.limit;
    groups = idle-IsValid.groups;
    waiting = waits_listed;
  };
  queued = record {
    undecided = λ x p h. refl;
    once = waits_once;
    apart = λ x y p h k. at_item x p h ∙ sym (at_item y p k);
  };
  fresh = idle-IsRunning.fresh;
  unmade = idle-IsRunning.unmade;
  resources = idle-IsRunning.resources;
  grps = idle-IsRunning.grps;
  units = idle-IsRunning.units;
  grp_units = idle-IsRunning.grp_units;
  unheld = idle-IsRunning.unheld;
  once = idle-IsRunning.once;
  made = idle-IsRunning.made;
}

found_at :
    (i q x : ℕ)
    → SafeRwList.find same_number (at (table 4).buckets i) q ≡ some x
    → (7 ≡ q) × (x ≡ 99)
unfolding SafeRwList.find at
found_at zero q x e = ground arith
found_at (suc zero) q x e = ground arith
found_at (suc (suc zero)) q x e = ground arith
found_at (suc (suc (suc i))) q x e = ground arith

only_seven : (q x : ℕ) → item_of remainders waits_both q ≡ some x → (7 ≡ q) × (x ≡ 99)
unfolding view
only_seven q x e = found_at (home remainders (table 4).buckets q) q x e

both_wait : (p : ℕ) → Has p both → Has p (queue_at waits_both.items 99)
both_wait p h = h

all_wait : NoneLost remainders waits_both
unfolding view SafeRwList.find at
all_wait = (
  λ id x e. let found = only_seven id x e in omega (arith, found),
  λ g p h e far. (
    99,
    7,
    refl,
    elim (Bool-cases (g == 0)) [
      | inl here ↦ subst (λ y. Has p (members_at pair y)) (eq_of_== g 0 here) h
      | inr other ↦ absurd (subst (Has p) (other_groups g other) h)
    ],
  ),
)

abbrev waiting_system : System
waiting_system = record { manager = waits_both; held = 0 ∷ [] }

leave_all-answers_example : Ends (run remainders waiting_system (leave_all (7 ∷ []))) (λ r.
    ((g : ℕ) → 0 < undecided_at pair g → Has g (told r.1))
    × Distinct (told r.1)
    × ((g : ℕ) → undecided_at r.0.manager.store g ≡ 0))
leave_all-answers_example =
    leave_all-answers remainders waiting_system (7 ∷ []) waits-IsRunning all_wait
      (λ q x e. inl (let found = only_seven q x e in subst (λ y. (7 == y) ≡ true) found.0 refl))
