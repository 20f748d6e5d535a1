-- ===== src/BaseNode/Versions.antt =====
-- sysqos_dispatch_base_node.c: versions and the messages of the dispatcher.
use datastor_qos.Base.{
  ℕ, ℤ, pos_part, neg_part, ◌+◌, ◌≤◌, ◌<◌, ◌≡◌, refl, false, sym, ap, subst, ◌∙◌, List, [], ◌∷◌,
  ◌<ℤ◌, arith, if◌then◌else◌, IsWord,
}
use datastor_qos.Interface.{ok, Dispatch2App}
use datastor_qos.BaseNode.{BaseNode, check_update, commit_alloc, check_alloc, adopt, reset}

-- One message as `rcvd` of the managers handles it: a stale version makes the node start again.
unfoldable pub receive : BaseNode → Dispatch2App → BaseNode
unfolding check_update reset
receive n m =
    let u = check_update n m.token_quota m.version in if u.is_reset then reset u.node else u.node

unfoldable pub receive_all : BaseNode → List Dispatch2App → BaseNode
receive_all n [] = n
receive_all n (m ∷ ms) = receive_all (receive n m) ms

-- Versions that never fall along the list, from a bound on.
abbrev pub InOrder : ℤ → List Dispatch2App → Type 0
InOrder v [] = Unit {0}
InOrder v (m ∷ ms) =
    (pos_part v + neg_part m.version ≤ pos_part m.version + neg_part v) × InOrder m.version ms

-- The last version of a list of messages, or the given one.
abbrev pub last_version : ℤ → List Dispatch2App → ℤ
last_version v [] = v
last_version v (m ∷ ms) = last_version m.version ms

receive-version :
    (n : BaseNode) (m : Dispatch2App)
    → pos_part n.version + neg_part m.version ≤ pos_part m.version + neg_part n.version
    → (receive n m).version ≡ m.version
unfolding receive
receive-version n m h = ground arith

-- No message of a list, as they arrive in turn, is answered by a reset.
abbrev pub NeverReset : BaseNode → List Dispatch2App → Type 0
NeverReset n [] = Unit {0}
NeverReset n (m ∷ ms) =
    ((check_update n m.token_quota m.version).is_reset ≡ false) × NeverReset (receive n m) ms

receive-keeps :
    (n : BaseNode) (m : Dispatch2App)
    → pos_part n.version + neg_part m.version ≤ pos_part m.version + neg_part n.version
    → (check_update n m.token_quota m.version).is_reset ≡ false
unfolding check_update
receive-keeps n m h = ground arith

-- Messages that arrive in the order of their versions are never answered by a reset, and leave the
-- node at the version of the last one.
pub receive_all-version :
    (n : BaseNode) (ms : List Dispatch2App)
    → InOrder n.version ms
    → NeverReset n ms × ((receive_all n ms).version ≡ last_version n.version ms)
unfolding receive_all
receive_all-version n [] h = (tt, refl)
receive_all-version n (m ∷ ms) h =
    let e = receive-version n m h.0 in
    let (never, last) =
      receive_all-version (receive n m) ms (subst (λ v. InOrder v ms) (sym e) h.1) in
    ((receive-keeps n m h.0, never), last ∙ ap (λ v. last_version v ms) e)

-- A message that is not stale has no further effect when it arrives a second time.
pub receive_twice :
    (n : BaseNode) (m : Dispatch2App)
    → pos_part n.version + neg_part m.version ≤ pos_part m.version + neg_part n.version
    → receive (receive n m) m ≡ receive n m
unfolding receive
receive_twice n m h = ground arith

-- A newer total that equals the present quota does not cancel a decrease that is under way: the
-- next request that is granted, where the quota is a word of at least one step, takes the quota below the total just announced.
pub announced_lost :
    (n : BaseNode) (v : ℤ) (cost : ℕ)
    → n.version <ℤ v
    → 0 < n.respond_step
    → n.respond_step ≤ n.token_quota
    → IsWord n.token_quota
    → n.token_quota_new < n.token_quota
    → check_alloc (adopt n n.token_quota v).0 cost ≡ ok
    → ((check_update n n.token_quota v).node ≡ (adopt n n.token_quota v).0)
      × ((commit_alloc (adopt n n.token_quota v).0 cost).token_quota < n.token_quota)
unfolding check_update adopt check_alloc commit_alloc
announced_lost n v cost newer s small w shrinking fits = ground arith
