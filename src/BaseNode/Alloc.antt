-- ===== src/BaseNode/Alloc.antt =====
-- sysqos_dispatch_base_node.c: the accounting of tokens in use.
use datastor_qos.Base.{
  ℕ, ◌+◌, ◌≤◌, ◌<◌, max, ◌≡◌, ◌⊎◌, List, [], ◌∷◌, arith, if◌then◌else◌, IsWord, All, Bool-cases,
  inl, inr,
}
use datastor_qos.Interface.{ok, pending, is_error}
use datastor_qos.BaseNode.{BaseNode, try_alloc, check_alloc, commit_alloc, free}
use datastor_qos.BaseNode.Shrink.{IsSmooth, try_alloc-IsSmooth}

-- Requests in turn: the node after them, and the sum of the costs that were granted.
unfoldable pub grant : BaseNode → List ℕ → BaseNode × ℕ
unfolding try_alloc
grant n [] = (n, 0)
grant n (c ∷ cs) =
    let (n', total) = grant (try_alloc n c).1 cs in
    (n', if is_error (try_alloc n c).0 then total else c + total)

-- Room for any one request on top of `bound` without wrapping.
abbrev pub Fits : ℕ → List ℕ → Type 0
Fits bound = All (λ c. IsWord (c + bound))

try_alloc-inuse :
    (n : BaseNode) (c bound : ℕ)
    → IsSmooth n
    → IsWord (c + bound)
    → n.token_inuse ≤ bound
    → n.token_quota ≤ bound
    → let r = try_alloc n c in
      (r.1.token_inuse ≡ n.token_inuse + (if is_error r.0 then 0 else c))
      × (r.1.token_inuse ≤ bound)
      × (r.1.token_quota ≤ bound)
unfolding try_alloc
try_alloc-inuse n c bound s w used quota = ground arith

grant-inuse_below :
    (n : BaseNode) (cs : List ℕ) (bound : ℕ)
    → IsSmooth n
    → Fits bound cs
    → n.token_inuse ≤ bound
    → n.token_quota ≤ bound
    → ((grant n cs).0.token_inuse ≡ n.token_inuse + (grant n cs).1)
      × ((grant n cs).0.token_inuse ≤ bound)
unfolding grant
grant-inuse_below n [] bound s fit used quota = (omega arith, used)
grant-inuse_below n (c ∷ cs) bound s fit used quota =
    let (e, used', quota') = try_alloc-inuse n c bound s fit.0 used quota in
    let (sum, below) =
      grant-inuse_below (try_alloc n c).1 cs bound (try_alloc-IsSmooth c s) fit.1 used' quota' in
    elim (Bool-cases (is_error (try_alloc n c).0)) [
      | inl refused ↦ let same = rw refused at e in (rw refused (omega (arith, sum, same)), below)
      | inr granted ↦ let more = rw granted at e in (rw granted (omega (arith, sum, more)), below)
    ]

-- On a node whose quota is at least the announced one, and that at least one step, and where no sum
-- wraps: any requests raise the tokens in use by exactly what was granted, and never past the larger
-- of the quota and of what was in use before.
pub grant-inuse :
    (n : BaseNode) (cs : List ℕ)
    → IsSmooth n
    → Fits (max n.token_inuse n.token_quota) cs
    → ((grant n cs).0.token_inuse ≡ n.token_inuse + (grant n cs).1)
      × ((grant n cs).0.token_inuse ≤ max n.token_inuse n.token_quota)
grant-inuse n cs s fit =
    grant-inuse_below n cs (max n.token_inuse n.token_quota) s fit (omega arith) (omega arith)

-- With costs and tokens in use that are words, what was granted can be given back: the tokens in use are as before, and a refused request
-- changes nothing.
pub free-try_alloc :
    (n : BaseNode) (c : ℕ)
    → IsWord c
    → IsWord n.token_inuse
    → let r = try_alloc n c in
      ((r.0 ≡ ok) × ((free r.1 c).token_inuse ≡ n.token_inuse)) ⊎ ((r.0 ≡ pending) × (r.1 ≡ n))
unfolding try_alloc free
free-try_alloc n c w used = ground arith

-- Two threads that both pass the check before either commits are both told OK, where there is room
-- for each alone and not for both: the second request is not counted. (No sum wraps, and the quota is at
-- least the announced one, and that at least one step.)
pub alloc_race :
    (n : BaseNode) (a b : ℕ)
    → IsSmooth n
    → IsWord (a + b + n.token_inuse)
    → a + n.token_inuse ≤ n.token_quota
    → b + n.token_inuse ≤ n.token_quota
    → n.token_quota < a + b + n.token_inuse
    → (check_alloc n a ≡ ok)
      × (check_alloc n b ≡ ok)
      × ((commit_alloc (commit_alloc n a) b).token_inuse ≡ n.token_inuse + a)
unfolding check_alloc commit_alloc
alloc_race n a b s w fits_a fits_b short = ground arith
