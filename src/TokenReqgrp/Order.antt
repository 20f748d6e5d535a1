-- ===== src/TokenReqgrp/Order.antt =====
-- sysqos_token_reqgrp.c: the order in which verdicts arrive.
use datastor_qos.Base.{
  ℕ, ◌^◌, ◌≤◌, ◌<◌, ◌≡◌, refl, sym, ap, subst, ◌∙◌, ◌≢◌, inl, inr, Bool, true, false, not, ◌||◌,
  List, [], ◌∷◌, arith, All, ◌==◌, if◌then◌else◌, eq_of_==, Bool-cases, sub32,
}
use mathlib.Core.List.{Permᴰ}
use datastor_qos.Interface.{QosError, ok, pending, failed_node}
use datastor_qos.TokenReqgrp.{init, TokenReqgrp, Store, to_got, to_failed}
use datastor_qos.TokenReqgrp.Counts.{Has, waiting_two}
use datastor_qos.TokenReqgrp.Once.{
  IsGroup, deliver-Decides, Verdict, deliver, deliver_all, is_answer,
}

-- Two stores that read the same.
abbrev Reads : Store → Store → Type 0
Reads s t = ((q : ℕ) → s.req q ≡ t.req q) × ((h : ℕ) → s.grp h ≡ t.grp h) × (s.next ≡ t.next)

to_got-next : (s : Store) (g p : ℕ) → (to_got s g p).1.next ≡ s.next
unfolding to_got
to_got-next s g p = ground arith

to_failed-next : (s : Store) (g p : ℕ) → (to_failed s g p).1.next ≡ s.next
unfolding to_failed
to_failed-next s g p = ground arith

deliver-next : (s : Store) (g : ℕ) (x : Verdict) → (deliver s g x).1.next ≡ s.next
unfolding deliver
deliver-next s g x = elim (Bool-cases x.good) [
  | inl good ↦ rw good (to_got-next s g x.rip)
  | inr bad ↦ rw bad (to_failed-next s g x.rip)
]

both-next :
    (s : Store) (g p q : ℕ) (a b : Bool)
    → (deliver
        (deliver s g (record { rip = p; good = a })).1
        g
        (record { rip = q; good = b })).1.next
      ≡ (deliver
          (deliver s g (record { rip = q; good = b })).1
          g
          (record { rip = p; good = a })).1.next
both-next s g p q a b =
    deliver-next _ g _ ∙ deliver-next s g _ ∙ sym (deliver-next s g _) ∙ sym (deliver-next _ g _)

-- What a verdict on an undecided request makes of its group.
abbrev after : TokenReqgrp → Bool → TokenReqgrp
after x good =
    let left = sub32 x.req_pending_nr 1 in
    let failure = x.failed_exist || not good in
    record x {
      req_pending_nr = left;
      failed_exist = failure;
      err = if left == 0 then (if failure then failed_node else ok) else x.err;
    }

deliver-after :
    (s : Store) (g p : ℕ) (good : Bool)
    → (s.req p).stat ≡ init
    → (deliver s g (record { rip = p; good = good })).1.grp g ≡ after (s.grp g) good
unfolding deliver to_got to_failed
deliver-after s g p true e = ground arith
deliver-after s g p false e = ground arith

deliver_elsewhere :
    (s : Store) (g h : ℕ) (x : Verdict) → (h == g) ≡ false → (deliver s g x).1.grp h ≡ s.grp h
unfolding deliver to_got to_failed
deliver_elsewhere s g h x e = elim (Bool-cases x.good) [
  | inl good ↦ rw good (ground arith)
  | inr bad ↦ rw bad (ground arith)
]

deliver-stat :
    (s : Store) (g p q : ℕ) (good : Bool)
    → p ≢ q
    → (deliver s g (record { rip = p; good = good })).1.req q ≡ s.req q
unfolding deliver to_got to_failed
deliver-stat s g p q true far = ground arith
deliver-stat s g p q false far = ground arith

then-grp :
    (s : Store) (g p q : ℕ)
    → p ≢ q
    → (s.req p).stat ≡ init
    → (s.req q).stat ≡ init
    → (a b : Bool)
    → (deliver
          (deliver s g (record { rip = p; good = a })).1
          g
          (record { rip = q; good = b })).1.grp
        g
      ≡ after (after (s.grp g) a) b
then-grp s g p q far open_p open_q a b =
    deliver-after _ g q b (ap (λ r. r.stat) (deliver-stat s g p q a far) ∙ open_q)
    ∙ ap (λ x. after x b) (deliver-after s g p a open_p)

after_comm :
    (x : TokenReqgrp) (a b : Bool)
    → 2 ≤ x.req_pending_nr
    → x.req_pending_nr < 2 ^ 31
    → after (after x a) b ≡ after (after x b) a
after_comm x true true two few = refl
after_comm x false false two few = refl
after_comm x true false two few = ground arith
after_comm x false true two few = ground arith

module _ (s : Store) (g p q : ℕ) (far : p ≢ q) (open_p : (s.req p).stat ≡ init)
    (open_q : (s.req q).stat ≡ init) where
  abbrev both : Bool → Bool → QosError × Store
  both a b = deliver (deliver s g (record { rip = p; good = a })).1 g (record { rip = q; good = b })

  abbrev other : Bool → Bool → QosError × Store
  other a b =
      deliver (deliver s g (record { rip = q; good = b })).1 g (record { rip = p; good = a })

  both-req : (a b : Bool) (x : ℕ) → (both a b).1.req x ≡ (other a b).1.req x
  unfolding deliver to_got to_failed
  both-req true true x = ground arith
  both-req true false x = ground arith
  both-req false true x = ground arith
  both-req false false x = ground arith

  module _ (two : 2 ≤ (s.grp g).req_pending_nr) (few : (s.grp g).req_pending_nr < 2 ^ 31) where
    first : (a : Bool) → (deliver s g (record { rip = p; good = a })).0 ≡ pending
    unfolding deliver to_got to_failed
    first true = ground arith
    first false = ground arith

    both-grp : (a b : Bool) (h : ℕ) → (both a b).1.grp h ≡ (other a b).1.grp h
    both-grp a b h = elim (Bool-cases (h == g)) [
      | inl here ↦
          let e = eq_of_== h g here in
          rw e (
            then-grp s g p q far open_p open_q a b
            ∙ after_comm (s.grp g) a b two few
            ∙ sym (then-grp s g q p (λ same. far (sym same)) open_q open_p b a))
      | inr there ↦
          deliver_elsewhere _ g h _ there
          ∙ deliver_elsewhere s g h _ there
          ∙ sym (deliver_elsewhere s g h _ there)
          ∙ sym (deliver_elsewhere _ g h _ there)
    ]

    both-answer : (a b : Bool) → (both a b).0 ≡ (other a b).0
    unfolding deliver to_got to_failed
    both-answer true true = ground arith
    both-answer true false = ground arith
    both-answer false true = ground arith
    both-answer false false = ground arith

    both-store : (a b : Bool) → (both a b).1 ≡ (other a b).1
    both-store a b = λ i. record {
      req = λ x. both-req a b x i;
      grp = λ h. both-grp a b h i;
      next = both-next s g p q a b i;
    }

-- Verdicts on undecided members of a group, of which no two are on the same request.
abbrev OnOpen : Store → ℕ → List Verdict → Type 0
OnOpen s g = All (λ x. Has x.rip (s.grp g).members × ((s.req x.rip).stat ≡ init))

abbrev pub Apart : List Verdict → Type 0
Apart [] = Unit {0}
Apart (x ∷ xs) = All (λ y. x.rip ≢ y.rip) xs × Apart xs

All-perm : (P : Verdict → Type 0) {xs ys : List Verdict} → Permᴰ xs ys → All P xs → All P ys
All-perm P Permᴰ.nil h = tt
All-perm P (Permᴰ.cons e d) h = (subst P e h.0, All-perm P d h.1)
All-perm P (Permᴰ.swap e f) (a, (b, rest)) = (subst P f b, (subst P e a, rest))
All-perm P (Permᴰ.trans d f) h = All-perm P f (All-perm P d h)

abbrev FarFrom : Verdict → List Verdict → Type 0
FarFrom x = All (λ y. x.rip ≢ y.rip)

Apart-perm : {xs ys : List Verdict} → Permᴰ xs ys → Apart xs → Apart ys
Apart-perm Permᴰ.nil h = tt
Apart-perm {ys = b ∷ l₂} (Permᴰ.cons {a = a} e d) (far, rest) =
    (subst (λ v. FarFrom v l₂) e (All-perm (λ y. a.rip ≢ y.rip) d far), Apart-perm d rest)
Apart-perm {ys = a' ∷ b' ∷ l} (Permᴰ.swap e f) ((ab, far_a), (far_b, rest)) = (
  (
    λ same. ab (ap (λ v. v.rip) e ∙ sym same ∙ sym (ap (λ v. v.rip) f)),
    subst (λ v. FarFrom v l) f far_b,
  ),
  (subst (λ v. FarFrom v l) e far_a, rest),
)
Apart-perm (Permᴰ.trans d f) h = Apart-perm f (Apart-perm d h)

-- The verdicts that are left are still on undecided members.
OnOpen-deliver :
    (s : Store) (g : ℕ) (x : Verdict) (xs : List Verdict)
    → IsGroup s g
    → Has x.rip (s.grp g).members
    → FarFrom x xs
    → OnOpen s g xs
    → OnOpen (deliver s g x).1 g xs
OnOpen-deliver s g x [] v h far o = tt
OnOpen-deliver s g x (y ∷ ys) v h (far, fars) ((member, undecided), o) =
    let d = deliver-Decides s g x v h in
    (
      (rw d.members member, ap (λ r. r.stat) (deliver-stat s g x.rip y.rip x.good far) ∙ undecided),
      OnOpen-deliver s g x ys v h fars o,
    )

deliver_all-cons :
    (s : Store) (g : ℕ) (x : Verdict) (xs : List Verdict)
    → deliver_all s g (x ∷ xs) ≡ (
      if is_answer (deliver s g x).0
          then (deliver s g x).0 ∷ (deliver_all (deliver s g x).1 g xs).0
          else (deliver_all (deliver s g x).1 g xs).0,
      (deliver_all (deliver s g x).1 g xs).1,
    )
unfolding deliver_all
deliver_all-cons s g x xs = refl

-- The answers, and the store, after one that was answered with `e` and left `t`.
abbrev told : ℕ → List Verdict → QosError → Store → List QosError × Store
told g xs e t = (
  if is_answer e then e ∷ (deliver_all t g xs).0 else (deliver_all t g xs).0,
  (deliver_all t g xs).1,
)

-- Two verdicts on different undecided members, in either order.
deliver_all_swap :
    (s : Store) (g : ℕ) (x y : Verdict) (xs : List Verdict)
    → IsGroup s g
    → OnOpen s g (x ∷ y ∷ xs)
    → x.rip ≢ y.rip
    → deliver_all s g (x ∷ y ∷ xs) ≡ deliver_all s g (y ∷ x ∷ xs)
unfolding deliver_all
deliver_all_swap s g x y xs v ((hx, ox), ((hy, oy), _)) far =
    let two = waiting_two s.req x.rip y.rip v.bound (s.grp g).members v.distinct hx hy far ox oy in
    let many : 2 ≤ (s.grp g).req_pending_nr = omega (arith, v.counted, two) in
    let few : (s.grp g).req_pending_nr < 2 ^ 31 = omega (arith, v.counted, v.small) in
    let back : y.rip ≢ x.rip = λ same. far (sym same) in
    rw
      (
        first s g x.rip y.rip far ox oy many few x.good,
        first s g y.rip x.rip back oy ox many few y.good,
      )
      (λ i.
        told g xs (both-answer s g x.rip y.rip far ox oy many few x.good y.good i)
          (both-store s g x.rip y.rip far ox oy many few x.good y.good i))

-- However the verdicts on undecided members of a group are ordered, one for each, the answers that are
-- returned and the store that is left are the same.
pub deliver_all-perm :
    (s : Store) (g : ℕ) (xs ys : List Verdict)
    → IsGroup s g
    → OnOpen s g xs
    → Apart xs
    → Permᴰ xs ys
    → deliver_all s g xs ≡ deliver_all s g ys
unfolding deliver_all
deliver_all-perm s g [] [] v o apart Permᴰ.nil = refl
deliver_all-perm s g (x ∷ xs) (y ∷ ys) v o apart (Permᴰ.cons e d) =
    let (err, s') = deliver s g x in
    let group = (deliver-Decides s g x v o.0.0).group in
    let ih =
      deliver_all-perm s' g xs ys group (OnOpen-deliver s g x xs v o.0.0 apart.0 o.1) apart.1 d in
    ap (λ r. (if is_answer err then err ∷ r.0 else r.0, r.1)) ih
    ∙ ap (λ z. deliver_all s g (z ∷ ys)) e
deliver_all-perm s g (x ∷ y ∷ xs) (y' ∷ x' ∷ ys) v o apart (Permᴰ.swap e f) =
    deliver_all_swap s g x y xs v o apart.0.0
    ∙ ap (λ z. deliver_all s g (z ∷ x ∷ xs)) f
    ∙ ap (λ z. deliver_all s g (y' ∷ z ∷ xs)) e
deliver_all-perm s g xs ys v o apart (Permᴰ.trans {l₂ = zs} d f) =
    deliver_all-perm s g xs zs v o apart d
    ∙ deliver_all-perm s g zs ys v
        (All-perm (λ x. Has x.rip (s.grp g).members × ((s.req x.rip).stat ≡ init)) d o)
        (Apart-perm d apart) f
