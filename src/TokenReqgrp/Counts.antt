-- ===== src/TokenReqgrp/Counts.antt =====
-- sysqos_token_reqgrp.c: the members of a group, and how many are undecided and failed.
use datastor_qos.Base.{
  ℕ, ◌+◌, ◌≤◌, ◌<◌, ◌≡◌, ◌≢◌, ◌++◌, subst, sym, refl, ◌⊎◌, inl, inr, Bool, true, false, List, [],
  ◌∷◌, arith, if◌then◌else◌,
}
use datastor_qos.TokenReqgrp.{Stat, init, got, failed, is_init, TokenReq, update}

-- Distinct pointers below a bound, newest first, as `init_rip_list_by_rs_list` lists them.
abbrev pub Falls : ℕ → List ℕ → Type 0
Falls n [] = Unit {0}
Falls n (p ∷ ps) = (p < n) × Falls p ps

abbrev pub Has : ℕ → List ℕ → Type 0
Has p [] = ⊥
Has p (q ∷ qs) = (q ≡ p) ⊎ Has p qs

-- No element is there twice.
abbrev pub Distinct : List ℕ → Type 0
Distinct [] = Unit {0}
Distinct (p ∷ ps) = (¬ Has p ps) × Distinct ps

pub Has-append_left : (p : ℕ) (ps qs : List ℕ) → Has p ps → Has p (ps ++ qs)
Has-append_left p [] qs h = absurd h
Has-append_left p (x ∷ ps) qs (inl e) = inl e
Has-append_left p (x ∷ ps) qs (inr h) = inr (Has-append_left p ps qs h)

pub Has-append_right : (p : ℕ) (ps qs : List ℕ) → Has p qs → Has p (ps ++ qs)
Has-append_right p [] qs h = h
Has-append_right p (x ∷ ps) qs h = inr (Has-append_right p ps qs h)

pub Has-append_cases : (p : ℕ) (ps qs : List ℕ) → Has p (ps ++ qs) → Has p ps ⊎ Has p qs
Has-append_cases p [] qs h = inr h
Has-append_cases p (x ∷ ps) qs (inl e) = inl (inl e)
Has-append_cases p (x ∷ ps) qs (inr h) = elim (Has-append_cases p ps qs h) [
  | inl here ↦ inl (inr here)
  | inr there ↦ inr there
]

-- The parts of a list without repetition.
pub Distinct-append_right : (ps qs : List ℕ) → Distinct (ps ++ qs) → Distinct qs
Distinct-append_right [] qs d = d
Distinct-append_right (p ∷ ps) qs d = Distinct-append_right ps qs d.1

pub Distinct-apart : (p : ℕ) (ps qs : List ℕ) → Distinct (ps ++ qs) → Has p qs → ¬ Has p ps
Distinct-apart p [] qs d h there = there
Distinct-apart p (x ∷ ps) qs d h (inl e) =
    d.0 (subst (λ y. Has y (ps ++ qs)) (sym e) (Has-append_right p ps qs h))
Distinct-apart p (x ∷ ps) qs d h (inr there) = Distinct-apart p ps qs d.1 h there

pub Distinct-append :
    (ps qs : List ℕ)
    → Distinct ps
    → Distinct qs
    → ((p : ℕ) → Has p ps → ¬ Has p qs)
    → Distinct (ps ++ qs)
Distinct-append [] qs d e f = e
Distinct-append (p ∷ ps) qs d e f = (
  λ h. elim (Has-append_cases p ps qs h) [ inl here ↦ d.0 here | inr there ↦ f p (inl refl) there ],
  Distinct-append ps qs d.1 e (λ x h. f x (inr h)),
)

-- How many of the requests are undecided, and how many failed.
unfoldable pub waiting : (ℕ → TokenReq) → List ℕ → ℕ
waiting f [] = 0
waiting f (p ∷ ps) = (if is_init (f p).stat then 1 else 0) + waiting f ps

abbrev pub is_failed : Stat → Bool
is_failed failed = true
is_failed _ = false

unfoldable pub failures : (ℕ → TokenReq) → List ℕ → ℕ
failures f [] = 0
failures f (p ∷ ps) = (if is_failed (f p).stat then 1 else 0) + failures f ps

pub Falls-mono : {m n : ℕ} (ps : List ℕ) → m ≤ n → Falls m ps → Falls n ps
Falls-mono [] h b = tt
Falls-mono (p ∷ ps) h b = (omega arith, b.1)

pub Has-lt : {n : ℕ} (p : ℕ) (ps : List ℕ) → Falls n ps → Has p ps → p < n
Has-lt p [] f h = absurd h
Has-lt p (q ∷ qs) f (inl e) = omega arith
Has-lt p (q ∷ qs) f (inr h) = omega (arith, Has-lt {n = q} p qs f.1 h)

pub update_above :
    (f : ℕ → TokenReq) (p : ℕ) (r : TokenReq) (n : ℕ) (ps : List ℕ)
    → Falls n ps
    → n ≤ p
    → (waiting (update f p r) ps ≡ waiting f ps) × (failures (update f p r) ps ≡ failures f ps)
unfolding waiting failures
update_above f p r n [] b h = (refl, refl)
update_above f p r n (q ∷ qs) b h = ground (arith, update_above f p r q qs b.1)

-- Deciding one undecided member.
pub decide_member :
    (f : ℕ → TokenReq) (p : ℕ) (r : TokenReq) (n : ℕ) (ps : List ℕ)
    → Falls n ps
    → Has p ps
    → (f p).stat ≡ init
    → is_init r.stat ≡ false
    → (waiting (update f p r) ps + 1 ≡ waiting f ps)
      × (failures (update f p r) ps ≡ failures f ps + (if is_failed r.stat then 1 else 0))
unfolding waiting failures
decide_member f p r n [] b h e d = absurd h
decide_member f p r n (q ∷ qs) b (inl same) e d = ground (arith, update_above f p r q qs b.1)
decide_member f p r n (q ∷ qs) b (inr h) e d =
    ground (arith, decide_member f p r q qs b.1 h e d, Has-lt {n = q} p qs b.1 h)

pub waiting_pos :
    (f : ℕ → TokenReq) (p : ℕ) (ps : List ℕ) → Has p ps → (f p).stat ≡ init → 0 < waiting f ps
unfolding waiting
waiting_pos f p [] h e = absurd h
waiting_pos f p (q ∷ qs) (inl same) e = ground arith
waiting_pos f p (q ∷ qs) (inr h) e = ground (arith, waiting_pos f p qs h e)

-- Two undecided members.
pub waiting_two :
    (f : ℕ → TokenReq) (p q n : ℕ) (ps : List ℕ)
    → Falls n ps
    → Has p ps
    → Has q ps
    → p ≢ q
    → (f p).stat ≡ init
    → (f q).stat ≡ init
    → 2 ≤ waiting f ps
waiting_two f p q n ps b hp hq far ep eq =
    let r = record (f p) { stat = got } in
    let (one, _) = decide_member f p r n ps b hp ep refl in
    let more = waiting_pos (update f p r) q ps hq (ground arith) in omega (arith, one, more)
