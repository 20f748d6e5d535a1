-- ===== src/TokenUpdate/Shares.antt =====
-- sysqos_token_update.c: how one round shares the tokens.
use datastor_qos.Base.{
  ℕ, ◌+◌, ◌-◌, ◌*◌, ◌/◌, ◌≤◌, ◌<◌, min, ◌≡◌, refl, ap, subst, ◌∙◌, ◌≢◌, ◌⊎◌, inl, inr, Bool, true,
  false, List, [], ◌∷◌, arith, sum_of, All, ◌==◌, if◌then◌else◌, eq_of_==, lt-ltb, IsWord, add64,
  sub64, mul64,
}
use native.Mathlib.Nat.{mod-eq_of_lt, div-mul-le_self, le_of_mul-le-mul_right}
use datastor_qos.Run.{Run, returns, aborts, assertion_failed, ◌>>=◌, Ends, Ends-bind, Ends_mono}
use datastor_qos.TokenUpdate.{
  TokenUpdate, Entry, update, first_pass, second_pass, update_node_quota, update_node_quota_left,
  update_weight, left_base, init,
}

abbrev pub weight : Entry → ℕ
weight e = e.updatenode.weight

entries-cases : (es : List Entry) → (es ≡ []) ⊎ ((e : Entry) × (r : List Entry) × (es ≡ e ∷ r))
entries-cases [] = inl refl
entries-cases (e ∷ es) = inr (e, es, refl)

first_idle :
    {S : Type 0} (set : S → ℕ → ℕ → Run (S × ℕ)) (s : S) (ctx : TokenUpdate) (e : Entry)
    (es : List Entry)
    → ctx.total_weight ≡ 0
    → ctx.lhead_update_node ≡ e ∷ es
    → update set s ctx ≡ aborts assertion_failed
unfolding update update_weight first_pass update_node_quota
first_idle set s ctx e es z some_on = rw (some_on, z) refl

-- A round over nodes that report no pressure ends the process: it would divide by their weight, 0.
pub update_idle :
    {S : Type 0} (set : S → ℕ → ℕ → Run (S × ℕ)) (s : S) (ctx : TokenUpdate)
    → ctx.total_weight ≡ 0
    → ctx.lhead_update_node ≢ []
    → update set s ctx ≡ aborts assertion_failed
unfolding update
update_idle set s ctx z d = elim (entries-cases ctx.lhead_update_node) [
  | inl none_on ↦ absurd (d none_on)
  | inr (e, es, some_on) ↦ first_idle set s ctx e es z some_on
]

-- The share of a node by its weight.
abbrev pub share : ℕ → ℕ → Entry → ℕ
share total weights e = total * weight e / weights

shares-mul : (es : List Entry) (t w : ℕ) → sum_of (share t w) es * w ≤ t * sum_of weight es
shares-mul [] t w = omega arith
shares-mul (e ∷ es) t w =
    let ih = shares-mul es t w in
    let one = div-mul-le_self (t * weight e) w in omega (arith, ih, one)

-- The shares are no more than what there is.
pub shares-le :
    (es : List Entry) (t w : ℕ) → 0 < w → sum_of weight es ≡ w → sum_of (share t w) es ≤ t
shares-le es t w h e =
    le_of_mul-le-mul_right (subst (λ x. sum_of (share t w) es * w ≤ t * x) e (shares-mul es t w)) h

-- Entries after the first loop: each node was told its share on top of its base, but for nodes
-- whose share is nothing.
abbrev pub AreShared : ℕ → ℕ → List Entry → List Entry → Type 0
AreShared t w [] [] = Unit {0}
AreShared t w (e ∷ es) (e' ∷ es') =
    (e'.node ≡ e.node)
    × (e'.updatenode.token_base ≡ e.updatenode.token_base)
    × ((e'.updatenode.tmp_token_quota ≡ share t w e + e.updatenode.token_base)
        ⊎ ((share t w e ≡ 0) × (e' ≡ e)))
    × AreShared t w es es'
AreShared t w _ _ = ⊥

AreShared-zero : (t w : ℕ) (es : List Entry) → sum_of (share t w) es ≡ 0 → AreShared t w es es
AreShared-zero t w [] z = tt
AreShared-zero t w (e ∷ es) z =
    (refl, refl, inr (omega (arith, z), refl), AreShared-zero t w es (omega (arith, z)))

-- No product and no quota of the round wraps.
abbrev pub AreSmall : ℕ → ℕ → List Entry → Type 0
AreSmall t w = All (λ e. IsWord (t * weight e) × IsWord (share t w e + e.updatenode.token_base))

-- A caller that sets every quota as it is asked to.
module _ {S : Type 0} (told : S → ℕ → ℕ → S) where
  abbrev pub obey : S → ℕ → ℕ → Run (S × ℕ)
  obey s q p = returns (told s q p, q)

  -- The entry with a quota noted.
  abbrev asked : Entry → ℕ → Entry
  asked e q = record e { updatenode = record e.updatenode { tmp_token_quota = q } }

  node-share :
      (s : S) (e : Entry) (t w : ℕ)
      → 0 < w
      → IsWord (t * weight e)
      → IsWord (share t w e + e.updatenode.token_base)
      → let q = share t w e + e.updatenode.token_base in
        update_node_quota obey s e t w ≡ returns (told s q e.node, asked e q, share t w e)
  unfolding update_node_quota
  node-share s e t w h m b =
      let product : mul64 t (weight e) ≡ t * weight e = mod-eq_of_lt m in
      let sum : add64 (share t w e) e.updatenode.token_base
          ≡ share t w e + e.updatenode.token_base =
        omega (arith, b) in
      let back : sub64 (share t w e + e.updatenode.token_base) e.updatenode.token_base
          ≡ share t w e =
        omega (arith, b) in
      rw (lt-ltb 0 w h, product, sum, back) refl

  -- The rest of the first loop, once it is known what is left after a node, and whether it is 0.
  abbrev goes_on : Bool → S → Entry → List Entry → ℕ → ℕ → ℕ → Run (S × List Entry × ℕ)
  goes_on b s' e' es t w left = elim b [
    | true ↦ returns (s', e' ∷ es, left)
    | false ↦ first_pass obey s' es t w left >>= λ r. returns (r.0, e' ∷ r.1, r.2)
  ]

  first_pass-cons :
      (s s' : S) (e e' : Entry) (es : List Entry) (t w left used : ℕ)
      → update_node_quota obey s e t w ≡ returns (s', e', used)
      → first_pass obey s (e ∷ es) t w left
        ≡ goes_on (sub64 left used == 0) s' e' es t w (sub64 left used)
  unfolding first_pass
  first_pass-cons s s' e e' es t w left used node = rw node refl

  goes_on-Ends :
      (b : Bool) (s' : S) (e' : Entry) (es : List Entry) (t w left : ℕ)
      (P : S × List Entry × ℕ → Type 0)
      → (b ≡ true → P (s', e' ∷ es, left))
      → (b ≡ false → Ends (first_pass obey s' es t w left) (λ r. P (r.0, e' ∷ r.1, r.2)))
      → Ends (goes_on b s' e' es t w left) P
  goes_on-Ends true s' e' es t w left P h k = h refl
  goes_on-Ends false s' e' es t w left P h k =
      Ends-bind (first_pass obey s' es t w left) _ _ P (k refl) (λ r x. x)

  first_pass-left :
      (s : S) (es : List Entry) (t w left : ℕ)
      → 0 < w
      → AreSmall t w es
      → IsWord left
      → sum_of (share t w) es ≤ left
      → Ends
          (first_pass obey s es t w left)
          (λ r. (r.2 + sum_of (share t w) es ≡ left) × AreShared t w es r.1)
  unfolding first_pass
  first_pass-left s [] t w left h small word enough = (omega arith, tt)
  first_pass-left s (e ∷ es) t w left h small word enough =
      let q = share t w e + e.updatenode.token_base in
      let left' = left - share t w e in
      let same : sub64 left (share t w e) ≡ left' = omega (arith, enough, word) in
      let ih =
        first_pass-left (told s q e.node) es t w left' h small.1 (omega (arith, word))
          (omega (arith, enough)) in
      rw
        (first_pass-cons s _ e _ es t w left _ (node-share s e t w h small.0.0 small.0.1)
          ∙ ap (λ l. goes_on (l == 0) (told s q e.node) (asked e q) es t w l) same)
        (goes_on-Ends (left' == 0) (told s q e.node) (asked e q) es t w left' _
          (λ spent.
            let z = eq_of_== left' 0 spent in
            (
              omega (arith, z, enough),
              (refl, refl, inl refl, AreShared-zero t w es (omega (arith, z, enough))),
            ))
          (λ more.
            Ends_mono (first_pass obey (told s q e.node) es t w left') _ _ ih
              (λ r h'. (omega (arith, h'.0, enough), (refl, refl, inl refl, h'.1)))))

  -- Where the caller sets every quota as asked, the first loop ends. What is left and the shares of the
  -- nodes make up the tokens of the round exactly, and each node was told its share by weight on top of
  -- its base, or has no share. The total weight is that of the nodes, positive, and nothing wraps.
  pub first_pass-AreShared :
      (s : S) (es : List Entry) (t : ℕ)
      → 0 < sum_of weight es
      → AreSmall t (sum_of weight es) es
      → IsWord t
      → Ends (first_pass obey s es t (sum_of weight es) t) (λ r.
        (r.2 + sum_of (share t (sum_of weight es)) es ≡ t) × AreShared t (sum_of weight es) es r.1)
  first_pass-AreShared s es t h small word =
      first_pass-left s es t (sum_of weight es) t h small word
        (shares-le es t (sum_of weight es) h refl)

-- A caller that keeps node 0 at no more than `m`, and notes what it sets.
abbrev pub real_quota : ℕ → ℕ → ℕ → ℕ
real_quota m q p = if p == 0 then min q m else q

abbrev pub capped : ℕ → List (ℕ × ℕ) → ℕ → ℕ → Run (List (ℕ × ℕ) × ℕ)
capped m log q p = returns ((p, real_quota m q p) ∷ log, real_quota m q p)

-- Two nodes of the same pressure, with no base.
abbrev pub pair_of : ℕ → TokenUpdate
pair_of t = record {
  total_weight = 2;
  token_total = 2 * t;
  token_static = 0;
  lhead_update_node =
      record { node = 0; updatenode = record { weight = 1; tmp_token_quota = 0; token_base = 0 } }
      ∷ record { node = 1; updatenode = record { weight = 1; tmp_token_quota = 0; token_base = 0 } }
      ∷ [];
}

-- A node that a limit keeps below its share makes the round give out more than there is: of `2 t`
-- tokens for two nodes, where one is kept at `m < t`, it gets `m` and the other `3 t - 2 m`.
pub update_overcommits :
    (t m : ℕ)
    → m < t
    → IsWord (4 * t)
    → update (capped m) [] (pair_of t)
      ≡ returns ((1, 3 * t - 2 * m) ∷ (0, m) ∷ (1, t) ∷ (0, m) ∷ [], init)
unfolding update left_base update_weight first_pass second_pass update_node_quota
    update_node_quota_left init
update_overcommits t m h w = ground arith
