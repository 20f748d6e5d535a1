-- ===== src/BaseNode/Shrink.antt =====
-- sysqos_dispatch_base_node.c: how a smaller quota is approached.
use datastor_qos.Base.{
  ℕ, ℤ, ◌+◌, ◌-◌, ◌*◌, ◌≤◌, ◌<◌, ◌^◌, max, ◌≡◌, List, [], ◌∷◌, ◌<ℤ◌, arith, suc, if◌then◌else◌,
  IsWord, Bool-cases, inl, inr,
}
use datastor_qos.Interface.{is_error}
use datastor_qos.BaseNode.{BaseNode, check_update, try_alloc}

-- Requests in turn: the node after them, and how many were granted.
unfoldable pub serve : BaseNode → List ℕ → BaseNode × ℕ
unfolding try_alloc
serve n [] = (n, 0)
serve n (c ∷ cs) =
    let (n', k) = serve (try_alloc n c).1 cs in
    (n', if is_error (try_alloc n c).0 then k else suc k)

-- A node whose quota can fall to the announced one without wrapping.
pub record IsSmooth (n : BaseNode) : Type 0 where
  pub word : IsWord n.token_quota
  pub falling : n.token_quota_new ≤ n.token_quota
  pub roomy : n.respond_step ≤ n.token_quota_new

pub try_alloc-IsSmooth : {n : BaseNode} (c : ℕ) → IsSmooth n → IsSmooth (try_alloc n c).1
unfolding try_alloc
try_alloc-IsSmooth c s = ground arith

pub try_alloc-quota :
    (n : BaseNode) (c : ℕ)
    → IsSmooth n
    → ((try_alloc n c).1.respond_step ≡ n.respond_step)
      × ((try_alloc n c).1.token_quota_new ≡ n.token_quota_new)
      × ((try_alloc n c).1.token_quota ≡ (
          if is_error (try_alloc n c).0
          then n.token_quota
          else max n.token_quota_new (n.token_quota - n.respond_step)))
unfolding try_alloc
try_alloc-quota n c s = ground arith

-- On a node whose quota is at least the announced one, and that at least one step: after any requests,
-- of which `k` were granted, the quota has come down by `k` steps, and never below the announced one.
pub serve-quota :
    (n : BaseNode) (cs : List ℕ)
    → IsSmooth n
    → (serve n cs).0.token_quota
      ≡ max n.token_quota_new (n.token_quota - (serve n cs).1 * n.respond_step)
unfolding serve
serve-quota n [] s = ground arith
serve-quota n (c ∷ cs) s =
    let (a, b, e) = try_alloc-quota n c s in
    let ih = serve-quota (try_alloc n c).1 cs (try_alloc-IsSmooth c s) in
    let ih' = rw (a, b) at ih in
    elim (Bool-cases (is_error (try_alloc n c).0)) [
      | inl no_room ↦ let same = rw no_room at e in rw no_room (omega (arith, ih', same))
      | inr room ↦ let lower = rw room at e in rw room (omega (arith, ih', lower))
    ]

-- Where the quota is smaller than one step, the subtraction wraps: a smaller total that is newer
-- raises the quota to nearly 2 ^ 64 in place of lowering it.
pub check_update_wraps :
    (n : BaseNode) (total : ℕ) (v : ℤ)
    → n.version <ℤ v
    → IsWord n.respond_step
    → total < n.token_quota
    → n.token_quota < n.respond_step
    → (check_update n total v).node.token_quota ≡ n.token_quota + 2 ^ 64 - n.respond_step
unfolding check_update
check_update_wraps n total v newer w less small = ground arith
