-- ===== src/DispManager/Waiting.antt =====
-- sysqos_dispatch_manager.c: the loop that raises the quotas of waiting nodes.
use datastor_qos.Base.{
  ℕ, zero, suc, ◌+◌, ◌-◌, ◌≤◌, ◌<◌, ◌≡◌, refl, sym, ap, subst, ◌∙◌, ◌⊎◌, inl, inr, true, false,
  Option, none, some, List, [], ◌∷◌, ◌++◌, arith, length, sum_of, if◌then◌else◌, ==_refl, IsWord,
}
use datastor_qos.AppNode
use datastor_qos.AppNode.{AppNode}
use datastor_qos.TokenGlobal
use datastor_qos.TokenGlobal.{TokenGlobal}
use datastor_qos.WaitIncreaseList
use datastor_qos.WaitIncreaseList.{WaitIncreaseList, unlink, unlink_left}
use datastor_qos.DispManager.{
  DispManager, raise_first, try_clear_wait_increase, wait_increase_erase, global_try_alloc,
}

-- A first node that waits for nothing keeps the loop going for ever.
raise_first_satisfied :
    (m : DispManager) (p : ℕ)
    → (m.nodes p).token_quota_new ≤ (m.nodes p).token_quota
    → raise_first m p ≡ (m, true)
unfolding raise_first AppNode.update_token_quota
raise_first_satisfied m p h = ground arith

-- One round of the loop.
pub try_clear-cons :
    (k : ℕ) (m : DispManager) (p : ℕ)
    → WaitIncreaseList.is_first_exist m.lhead_wait_increase ≡ some p
    → try_clear_wait_increase (suc k) m ≡ (
        if (raise_first m p).1
        then try_clear_wait_increase k (raise_first m p).0
        else some (raise_first m p).0)
unfolding try_clear_wait_increase
try_clear-cons k m p first = rw (first, try_clear_wait_increase) refl

-- Where the first node in the list already has at least the quota announced to it, as after it was
-- announced a smaller one again, the loop never ends: no fuel is enough.
pub try_clear_forever :
    (fuel : ℕ) (m : DispManager) (p : ℕ)
    → WaitIncreaseList.is_first_exist m.lhead_wait_increase ≡ some p
    → (m.nodes p).token_quota_new ≤ (m.nodes p).token_quota
    → try_clear_wait_increase fuel m ≡ none
try_clear_forever zero m p first h = unfold try_clear_wait_increase in refl
try_clear_forever (suc k) m p first h =
    rw (try_clear-cons k m p first, raise_first_satisfied m p h) (try_clear_forever k m p first h)

-- What a node still lacks of the quota announced to it.
abbrev pub lack : (ℕ → AppNode) → ℕ → ℕ
lack nodes p = (nodes p).token_quota_new - (nodes p).token_quota

-- The tokens do not suffice for the first node: they are all taken, its quota stays as it is, and it
-- goes on waiting.
pub raise_first_short :
    (m : DispManager) (p : ℕ)
    → IsWord (m.nodes p).token_quota_new
    → m.tokens.token_free < lack m.nodes p
    → let (m', is_continue) = raise_first m p in
      (is_continue ≡ false)
      × (m'.tokens.token_free ≡ 0)
      × (m'.nodes ≡ m.nodes)
      × (m'.lhead_wait_increase ≡ m.lhead_wait_increase)
unfolding raise_first AppNode.update_token_quota global_try_alloc TokenGlobal.try_alloc
raise_first_short m p w short = ground arith

-- The tokens suffice for the first node: it gets what it lacks, is taken out of the list, and the
-- tokens it got are no longer free. Its own quota is raised only when it reports.
raise_first_enough :
    (m : DispManager) (p : ℕ)
    → IsWord (m.nodes p).token_quota_new
    → IsWord m.tokens.token_free
    → 0 < lack m.nodes p
    → lack m.nodes p ≤ m.tokens.token_free
    → let (m', is_continue) = raise_first m p in
      (is_continue ≡ true)
      × (m'.tokens.token_free + lack m.nodes p ≡ m.tokens.token_free)
      × (m'.nodes ≡ m.nodes)
      × (m'.lhead_wait_increase.head ≡ unlink p m.lhead_wait_increase.head)
unfolding raise_first AppNode.update_token_quota global_try_alloc TokenGlobal.try_alloc
    wait_increase_erase WaitIncreaseList.erase
raise_first_enough m p w free some_left enough = ground arith

-- The waiting nodes are different ones, and lack something.
abbrev pub AreWaiting : (ℕ → AppNode) → List ℕ → Type 0
AreWaiting nodes [] = Unit {0}
AreWaiting nodes (p ∷ ps) =
    IsWord (nodes p).token_quota_new × (0 < lack nodes p) × (unlink p ps ≡ ps) × AreWaiting nodes ps

-- Nodes served in their order, each for all that it lacks, until the list is empty or the tokens do
-- not cover the first node, which then takes the rest and still waits.
pub record Raised (m : DispManager) (waiting : List ℕ) (r : Option DispManager) : Type 0 where
  pub served : List ℕ
  pub left : List ℕ
  pub m' : DispManager
  pub ended : r ≡ some m'
  pub split : waiting ≡ served ++ left
  pub list : m'.lhead_wait_increase.head ≡ left
  pub nodes : m'.nodes ≡ m.nodes
  pub stopped :
      ((left ≡ []) × (m'.tokens.token_free + sum_of (lack m.nodes) served ≡ m.tokens.token_free))
      ⊎ ((p : ℕ) × (ps : List ℕ) × (left ≡ p ∷ ps)
          × (m'.tokens.token_free ≡ 0)
          × (sum_of (lack m.nodes) served ≤ m.tokens.token_free)
          × (m.tokens.token_free < sum_of (lack m.nodes) served + lack m.nodes p))

pub try_clear-none :
    (k : ℕ) (m : DispManager)
    → WaitIncreaseList.is_first_exist m.lhead_wait_increase ≡ none
    → try_clear_wait_increase (suc k) m ≡ some m
unfolding try_clear_wait_increase
try_clear-none k m first = rw (first, try_clear_wait_increase) refl

first-head :
    (l : WaitIncreaseList) (q : List ℕ)
    → l.head ≡ q
    → WaitIncreaseList.is_first_exist l ≡ (elim q [ [] ↦ none | p ∷ ps ↦ some p ])
unfolding WaitIncreaseList.is_first_exist
first-head l q e = rw e refl

covers : (a b : ℕ) → (a ≤ b) ⊎ (b < a)
covers a b = ground arith

unlink_self : (p : ℕ) (ps : List ℕ) → unlink p (p ∷ ps) ≡ unlink p ps
unfolding unlink
unlink_self p ps = rw (==_refl p) refl

-- Where the waiting nodes are different ones and each lacks something of a quota that is a word, the
-- loop ends, within one round more than there are nodes. A first part of them is served in order, each
-- for all that it lacks; then the list is empty and the free tokens have shrunk by just that, or they do
-- not cover the first node left, and are all gone. No node's record is changed.
pub try_clear-Raised :
    (q : List ℕ) (m : DispManager)
    → m.lhead_wait_increase.head ≡ q
    → AreWaiting m.nodes q
    → IsWord m.tokens.token_free
    → Raised m q (try_clear_wait_increase (suc (length q)) m)
try_clear-Raised [] m e w free = record {
  served = [];
  left = [];
  m' = m;
  ended = try_clear-none 0 m (first-head m.lhead_wait_increase [] e);
  split = refl;
  list = e;
  nodes = refl;
  stopped = inl (refl, omega arith);
}
try_clear-Raised (p ∷ ps) m e w free =
    let first = first-head m.lhead_wait_increase (p ∷ ps) e in
    let (m₁, goes_on) = raise_first m p in
    elim (covers (lack m.nodes p) m.tokens.token_free) [
      | inl enough ↦
          let r = raise_first_enough m p w.0 free w.1 enough in
          let head₁ = r.3 ∙ ap (unlink p) e ∙ unlink_self p ps ∙ w.2 in
          let ih =
            try_clear-Raised ps m₁ head₁ (subst (λ x. AreWaiting x ps) (sym r.2) w.3)
              (omega (arith, r.1, free)) in
          let same : sum_of (lack m₁.nodes) ih.served ≡ sum_of (lack m.nodes) ih.served =
            ap (λ x. sum_of (lack x) ih.served) r.2 in
          rw (try_clear-cons (suc (length ps)) m p first, r.0)
            (record {
              served = p ∷ ih.served;
              left = ih.left;
              m' = ih.m';
              ended = ih.ended;
              split = ap (λ l. p ∷ l) ih.split;
              list = ih.list;
              nodes = ih.nodes ∙ r.2;
              stopped = elim ih.stopped [
                | inl (a, b) ↦ inl (a, omega (arith, b, same, r.1))
                | inr (x, xs, a, b, c, d) ↦
                    let one : lack m₁.nodes x ≡ lack m.nodes x = ap (λ y. lack y x) r.2 in
                    inr (x, xs, a, b, omega (arith, c, same, r.1), omega (arith, d, one, same, r.1))
              ];
            })
      | inr short ↦
          let r = raise_first_short m p w.0 short in
          rw (try_clear-cons (suc (length ps)) m p first, r.0)
            (record {
              served = [];
              left = p ∷ ps;
              m' = m₁;
              ended = refl;
              split = refl;
              list = ap (λ l. l.head) r.3 ∙ e;
              nodes = r.2;
              stopped = inr (p, ps, refl, r.1, omega arith, omega (arith, short));
            })
    ]
