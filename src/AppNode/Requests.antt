-- ===== src/AppNode/Requests.antt =====
-- sysqos_app_node.c: requests for tokens and their return.
use datastor_qos.Base.{
  ℕ, ◌+◌, ◌^◌, ◌≤◌, ◌<◌, ◌≡◌, refl, sym, subst, ◌∙◌, ◌≢◌, inl, inr, Bool, true, false, none, List,
  [], ◌∷◌, arith, All, if◌then◌else◌, Bool-cases, IsWord,
}
use datastor_qos.Interface.{QosError, ok}
use datastor_qos.Run.{returns, aborts, assertion_failed}
use datastor_qos.AppNode.{AppNode, alloc, free}

abbrev pub is_granted : QosError → Bool
is_granted ok = true
is_granted _ = false

-- The costs that are granted in turn, added up, and the node after them.
unfoldable pub grant : AppNode → List ℕ → AppNode × ℕ
grant n [] = (n, 0)
grant n (c ∷ cs) =
    let (n', total) = grant (alloc n c).node cs in
    (n', if is_granted (alloc n c).err then c + total else total)

alloc-inuse :
    (n : AppNode) (c : ℕ)
    → n.token_inuse ≤ n.token_quota
    → IsWord (c + n.token_quota)
    → let r = alloc n c in
      (r.node.token_inuse ≡ n.token_inuse + (if is_granted r.err then c else 0))
      × (r.node.token_inuse ≤ r.node.token_quota)
      × (r.node.token_quota ≡ n.token_quota)
unfolding alloc
alloc-inuse n c used w = ground arith

-- On a node within its quota, and where no sum wraps: any requests raise the tokens in use by exactly what was granted, and not past the quota, which
-- they leave alone.
pub grant-token_inuse :
    (n : AppNode) (cs : List ℕ)
    → n.token_inuse ≤ n.token_quota
    → All (λ c. IsWord (c + n.token_quota)) cs
    → let (n', total) = grant n cs in
      (n'.token_inuse ≡ n.token_inuse + total)
      × (n'.token_inuse ≤ n'.token_quota)
      × (n'.token_quota ≡ n.token_quota)
unfolding grant
grant-token_inuse n [] used w = (omega arith, used, refl)
grant-token_inuse n (c ∷ cs) used w =
    let (e, below, same) = alloc-inuse n c used w.0 in
    let (sum, below', same') =
      grant-token_inuse (alloc n c).node cs below
        (subst (λ q. All (λ c. IsWord (c + q)) cs) (sym same) w.1) in
    elim (Bool-cases (is_granted (alloc n c).err)) [
      | inl y ↦ let more = rw y at e in (rw y (omega (arith, sum, more)), below', same' ∙ same)
      | inr z ↦
          let none_more = rw z at e in (rw z (omega (arith, sum, none_more)), below', same' ∙ same)
    ]

-- A request whose sum with the tokens in use wraps is granted whatever its size, and lowers them.
pub alloc_overflow :
    (n : AppNode) (c : ℕ)
    → IsWord c
    → IsWord n.token_quota
    → n.token_inuse ≤ n.token_quota
    → 2 ^ 64 ≤ c + n.token_inuse
    → ((alloc n c).err ≡ ok) × ((alloc n c).node.token_inuse < n.token_inuse)
unfolding alloc
alloc_overflow n c w q used wraps = ground arith

-- The assertion of `free` is the wrong way round: tokens that were granted cannot be given back,
-- since the call with the fence that the grant returned ends the process.
pub free-alloc_aborts :
    (n : AppNode) (c : ℕ)
    → IsWord (n.token_inuse + c)
    → (alloc n c).err ≡ ok
    → free (alloc n c).node c n.fence_id ≡ aborts assertion_failed
unfolding alloc free
free-alloc_aborts n c w granted = ground arith

-- A return under another fence, which a node of the same name had before it went offline, leaves the
-- node as it is; so does a refused request.
pub stale_leaves :
    (n : AppNode) (c fence : ℕ)
    → n.fence_id ≢ fence
    → n.token_quota < c
    → IsWord (n.token_inuse + c)
    → (free n c fence ≡ returns n) × ((alloc n c).node ≡ n) × ((alloc n c).fence ≡ none)
unfolding free alloc
stale_leaves n c fence other big w = ground arith
