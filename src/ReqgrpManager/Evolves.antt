-- ===== src/ReqgrpManager/Evolves.antt =====
-- sysqos_token_reqgrp_manager.c: the answers of several events, one after the other.
use datastor_qos.Base.{
  ℕ, ◌≤◌, ◌<◌, ◌≡◌, refl, sym, ap, subst, inl, inr, true, List, [], ◌∷◌, ◌++◌, arith, All,
  pos_or_zero,
}
use datastor_qos.TokenReqgrp.Counts.{
  Has, Distinct, Distinct-append, Has-append_left, Has-append_right,
}
use datastor_qos.DispatchNode.{is_final}
use datastor_qos.ReqgrpManager.{ReqgrpManager, Answer}
use datastor_qos.ReqgrpManager.Told.{undecided_at, told, AllTold}

-- An answer to a group that had something undecided, if it was there, and has nothing any more.
abbrev pub IsAnswerSince : ReqgrpManager → ReqgrpManager → Answer → Type 0
IsAnswerSince m m' a =
    (a.token_grp < m.next_grp → 0 < undecided_at m.store a.token_grp)
    × (a.token_grp < m'.next_grp)
    × (undecided_at m'.store a.token_grp ≡ 0)
    × (is_final a.err ≡ true)

-- What events did to a manager: no group that was there has more undecided requests than before, and
-- the answers are each to another group, of which nothing is undecided any more; and each group that was
-- there, and became decided, is answered.
pub record Evolves (m m' : ReqgrpManager) (answers : List Answer) : Type 0 where
  pub grows : m.next_grp ≤ m'.next_grp
  pub falls : (g : ℕ) → g < m.next_grp → undecided_at m'.store g ≤ undecided_at m.store g
  pub each : All (IsAnswerSince m m') answers
  pub all : AllTold m.store m'.store answers (λ g. g < m.next_grp)
  pub once : Distinct (told answers)

pub Evolves-refl : (m : ReqgrpManager) → Evolves m m []
Evolves-refl m = record {
  grows = omega arith;
  falls = λ g h. omega arith;
  each = tt;
  all = λ g h w z. omega (arith, w, z);
  once = tt;
}

earlier-each :
    (m m' m'' : ReqgrpManager) (xs : List Answer)
    → m'.next_grp ≤ m''.next_grp
    → ((g : ℕ) → g < m'.next_grp → undecided_at m''.store g ≤ undecided_at m'.store g)
    → All (IsAnswerSince m m') xs
    → All (IsAnswerSince m m'') xs
earlier-each m m' m'' [] grows falls e = tt
earlier-each m m' m'' (a ∷ xs) grows falls e =
    let less = falls a.token_grp e.0.1 in
    (
      (e.0.0, omega (arith, e.0.1), omega (arith, less, e.0.2), e.0.3),
      earlier-each m m' m'' xs grows falls e.1,
    )

pub later-each :
    (m m' m'' : ReqgrpManager) (xs : List Answer)
    → m.next_grp ≤ m'.next_grp
    → ((g : ℕ) → g < m.next_grp → undecided_at m'.store g ≤ undecided_at m.store g)
    → All (IsAnswerSince m' m'') xs
    → All (IsAnswerSince m m'') xs
later-each m m' m'' [] grows falls e = tt
later-each m m' m'' (a ∷ xs) grows falls e = (
  (
    λ old.
        let less = falls a.token_grp old in
        let some_left = e.0.0 (omega (arith, old)) in omega (arith, less, some_left),
    e.0.1,
    e.0.2,
    e.0.3,
  ),
  later-each m m' m'' xs grows falls e.1,
)

each-append :
    (m m' : ReqgrpManager) (xs ys : List Answer)
    → All (IsAnswerSince m m') xs
    → All (IsAnswerSince m m') ys
    → All (IsAnswerSince m m') (xs ++ ys)
each-append m m' [] ys e f = f
each-append m m' (a ∷ xs) ys e f = (e.0, each-append m m' xs ys e.1 f)

told-append : (xs ys : List Answer) → told (xs ++ ys) ≡ told xs ++ told ys
told-append [] ys = refl
told-append (a ∷ xs) ys = ap (λ l. a.token_grp ∷ l) (told-append xs ys)

told_answer :
    (m m' : ReqgrpManager) (g : ℕ) (xs : List Answer)
    → All (IsAnswerSince m m') xs
    → Has g (told xs)
    → (g < m.next_grp → 0 < undecided_at m.store g)
      × (g < m'.next_grp)
      × (undecided_at m'.store g ≡ 0)
told_answer m m' g [] e h = absurd h
told_answer m m' g (a ∷ xs) e (inl same) =
    subst
      (λ x.
        (x < m.next_grp → 0 < undecided_at m.store x)
        × (x < m'.next_grp)
        × (undecided_at m'.store x ≡ 0))
      same (e.0.0, e.0.1, e.0.2)
told_answer m m' g (a ∷ xs) e (inr h) = told_answer m m' g xs e.1 h

pub Evolves-trans :
    (m m' m'' : ReqgrpManager) (xs ys : List Answer)
    → Evolves m m' xs
    → Evolves m' m'' ys
    → Evolves m m'' (xs ++ ys)
Evolves-trans m m' m'' xs ys a b = record {
  grows = omega (arith, a.grows, b.grows);
  falls = λ g old.
      let first = a.falls g old in
      let second = b.falls g (omega (arith, old, a.grows)) in omega (arith, first, second);
  each =
      each-append m m'' xs ys (earlier-each m m' m'' xs b.grows b.falls a.each)
        (later-each m m' m'' ys a.grows a.falls b.each);
  all = λ g old w z.
      subst (Has g) (sym (told-append xs ys)) (elim (pos_or_zero (undecided_at m'.store g)) [
        | inl left ↦
            Has-append_right g (told xs) (told ys) (b.all g (omega (arith, old, a.grows)) left z)
        | inr done ↦ Has-append_left g (told xs) (told ys) (a.all g old w done)
      ]);
  once = subst Distinct (sym (told-append xs ys)) (
      Distinct-append (told xs) (told ys) a.once b.once (λ g h k.
        let (_, made, none_left) = told_answer m m' g xs a.each h in
        let (before, _, _) = told_answer m' m'' g ys b.each k in
        let some_left = before made in omega (arith, none_left, some_left)));
}
