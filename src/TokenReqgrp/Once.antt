-- ===== src/TokenReqgrp/Once.antt =====
-- sysqos_token_reqgrp.c: the answers to a group.
use datastor_qos.Base.{
  ℕ, ◌^◌, ◌≤◌, ◌<◌, ◌≡◌, refl, ◌⊎◌, inl, inr, Bool, true, false, List, [], ◌∷◌, arith, All,
  if◌then◌else◌, Bool-cases, pos_or_zero,
}
use datastor_qos.Interface.{QosError, ok, pending, failed_node}
use datastor_qos.TokenReqgrp.{Stat, init, got, failed, is_init, Store, to_got, to_failed}
use datastor_qos.TokenReqgrp.Counts.{Falls, Has, waiting, failures, decide_member}

-- The counts of a group agree with its members.
pub record IsGroup (s : Store) (g : ℕ) : Type 0 where
  pub bound : ℕ
  pub distinct : Falls bound (s.grp g).members
  pub counted : (s.grp g).req_pending_nr ≡ waiting s.req (s.grp g).members
  pub small : waiting s.req (s.grp g).members < 2 ^ 31
  pub marked : (s.grp g).failed_exist ≡ false → failures s.req (s.grp g).members ≡ 0

-- What one call did: nothing was answered, and something is undecided unless nothing was before; or
-- it decided the last request and answered, with OK only if no request failed.
pub record Decides (s : Store) (g : ℕ) (e : QosError) (s' : Store) : Type 0 where
  pub members : (s'.grp g).members ≡ (s.grp g).members
  pub group : IsGroup s' g
  pub grows : failures s.req (s.grp g).members ≤ failures s'.req (s.grp g).members
  pub kept : (s'.grp g).pri ≡ (s.grp g).pri
  pub fixed :
      waiting s.req (s.grp g).members ≡ 0
      → (waiting s'.req (s.grp g).members ≡ 0)
        × (failures s'.req (s.grp g).members ≡ failures s.req (s.grp g).members)
  pub answered :
      ((e ≡ pending)
        × ((s'.grp g).err ≡ (s.grp g).err)
        × ((0 < waiting s'.req (s.grp g).members) ⊎ (waiting s.req (s.grp g).members ≡ 0)))
      ⊎ ((0 < waiting s.req (s.grp g).members)
          × (waiting s'.req (s.grp g).members ≡ 0)
          × ((s'.grp g).err ≡ e)
          × (((e ≡ ok) × (failures s'.req (s.grp g).members ≡ 0)) ⊎ (e ≡ failed_node)))

Stat-cases : (x : Stat) → (x ≡ init) ⊎ (is_init x ≡ false)
Stat-cases init = inl refl
Stat-cases got = inr refl
Stat-cases failed = inr refl

module _ (s : Store) (g rip : ℕ) (v : IsGroup s g) (h : Has rip (s.grp g).members) where
  pub to_got-Decides : Decides s g (to_got s g rip).0 (to_got s g rip).1
  unfolding to_got
  to_got-Decides = elim (Stat-cases (s.req rip).stat) [
    | inl e ↦
        let change =
          decide_member s.req rip (record (s.req rip) { stat = got }) v.bound (s.grp g).members
            v.distinct h e refl in
        record {
          members = ground arith;
          group = record {
            bound = v.bound;
            distinct = ground arith;
            counted = ground (arith, change);
            small = ground (arith, change);
            marked = ground (arith, change);
          };
          grows = ground (arith, change);
          kept = ground arith;
          fixed = ground (arith, change);
          answered = ground (arith, change);
        }
    | inr e ↦
        let waits = pos_or_zero (waiting s.req (s.grp g).members) in
        record {
          members = ground arith;
          group = record {
            bound = v.bound;
            distinct = ground arith;
            counted = ground arith;
            small = ground arith;
            marked = ground arith;
          };
          grows = ground arith;
          kept = ground arith;
          fixed = ground arith;
          answered = ground (arith, waits);
        }
  ]

  pub to_failed-Decides : Decides s g (to_failed s g rip).0 (to_failed s g rip).1
  unfolding to_failed
  to_failed-Decides = elim (Stat-cases (s.req rip).stat) [
    | inl e ↦
        let change =
          decide_member s.req rip (record (s.req rip) { stat = failed }) v.bound (s.grp g).members
            v.distinct h e refl in
        record {
          members = ground arith;
          group = record {
            bound = v.bound;
            distinct = ground arith;
            counted = ground (arith, change);
            small = ground (arith, change);
            marked = ground (arith, change);
          };
          grows = ground (arith, change);
          kept = ground arith;
          fixed = ground (arith, change);
          answered = ground (arith, change);
        }
    | inr e ↦
        let waits = pos_or_zero (waiting s.req (s.grp g).members) in
        record {
          members = ground arith;
          group = record {
            bound = v.bound;
            distinct = ground arith;
            counted = ground arith;
            small = ground arith;
            marked = ground arith;
          };
          grows = ground arith;
          kept = ground arith;
          fixed = ground arith;
          answered = ground (arith, waits);
        }
  ]

-- A verdict on a request of a group: tokens got, or failed.
pub record Verdict : Type 0 where
  pub rip : ℕ
  pub good : Bool

unfoldable pub deliver : Store → ℕ → Verdict → QosError × Store
unfolding to_got to_failed
deliver s g x = if x.good then to_got s g x.rip else to_failed s g x.rip

abbrev pub is_answer : QosError → Bool
is_answer pending = false
is_answer _ = true

-- Verdicts in the order in which they arrive: the answers that were returned, and the store.
unfoldable pub deliver_all : Store → ℕ → List Verdict → List QosError × Store
deliver_all s g [] = ([], s)
deliver_all s g (x ∷ xs) =
    let (es, s') = deliver_all (deliver s g x).1 g xs in
    (if is_answer (deliver s g x).0 then (deliver s g x).0 ∷ es else es, s')

pub deliver-Decides :
    (s : Store) (g : ℕ) (x : Verdict)
    → IsGroup s g
    → Has x.rip (s.grp g).members
    → Decides s g (deliver s g x).0 (deliver s g x).1
unfolding deliver
deliver-Decides s g x v h = elim (Bool-cases x.good) [
  | inl e ↦ rw e (to_got-Decides s g x.rip v h)
  | inr e ↦ rw e (to_failed-Decides s g x.rip v h)
]

abbrev pub AreMembers : List ℕ → List Verdict → Type 0
AreMembers ps = All (λ x. Has x.rip ps)

-- The outcome of all verdicts, from a group with something undecided.
abbrev pub AnsweredOnce : (s : Store) → ℕ → List QosError → Store → Type 0
AnsweredOnce s g es s' =
    ((es ≡ []) × (0 < waiting s'.req (s.grp g).members) × ((s'.grp g).err ≡ (s.grp g).err))
    ⊎ ((es ≡ (s'.grp g).err ∷ [])
        × (waiting s'.req (s.grp g).members ≡ 0)
        × ((((s'.grp g).err ≡ ok) × (failures s'.req (s.grp g).members ≡ 0))
            ⊎ ((s'.grp g).err ≡ failed_node)))

-- A group that is decided stays as it is.
deliver_all_after :
    (s : Store) (g : ℕ) (xs : List Verdict)
    → IsGroup s g
    → AreMembers (s.grp g).members xs
    → waiting s.req (s.grp g).members ≡ 0
    → let (es, s') = deliver_all s g xs in
      (es ≡ [])
      × (waiting s'.req (s.grp g).members ≡ 0)
      × (failures s'.req (s.grp g).members ≡ failures s.req (s.grp g).members)
      × ((s'.grp g).err ≡ (s.grp g).err)
unfolding deliver_all
deliver_all_after s g [] v h z = (refl, z, refl, refl)
deliver_all_after s g (x ∷ xs) v h z =
    let d = deliver-Decides s g x v h.0 in
    let s' = (deliver s g x).1 in
    let (w, f) = d.fixed z in
    let (a, b, c, e) = deliver_all_after s' g xs d.group (rw d.members h.1) (rw d.members w) in
    ground (arith, d.answered, d.members)

-- Whatever verdicts on its members reach a group with something undecided, in any order and also more
-- than once on one request, one answer is returned in all, when the last request is decided, and it is
-- the error that the group keeps: OK only if no request failed. Until then nothing is answered.
pub deliver_all-AnsweredOnce :
    (s : Store) (g : ℕ) (xs : List Verdict)
    → IsGroup s g
    → AreMembers (s.grp g).members xs
    → 0 < waiting s.req (s.grp g).members
    → AnsweredOnce s g (deliver_all s g xs).0 (deliver_all s g xs).1
unfolding deliver_all
deliver_all-AnsweredOnce s g [] v h w = inl (refl, w, refl)
deliver_all-AnsweredOnce s g (x ∷ xs) v h w =
    let d = deliver-Decides s g x v h.0 in
    let s' = (deliver s g x).1 in
    let members' : AreMembers (s'.grp g).members xs = rw d.members h.1 in
    elim d.answered [
      | inl (e, same, inl more) ↦
          let ih = deliver_all-AnsweredOnce s' g xs d.group members' (rw d.members more) in
          ground (arith, ih, d.members)
      | inl (e, same, inr none_left) ↦ absurd (omega arith)
      | inr (w₀, none_left, e, how) ↦
          let rest = deliver_all_after s' g xs d.group members' (rw d.members none_left) in
          ground (arith, rest, d.members)
    ]
