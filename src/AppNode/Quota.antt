-- ===== src/AppNode/Quota.antt =====
-- sysqos_app_node.c: how the quota of a node changes, and what the node is told.
use datastor_qos.Base.{
  ℕ, ◌-◌, ◌≤◌, ◌<◌, min, max, ◌≡◌, ◌≢◌, ◌⊎◌, false, arith, ltb, ◌==◌, if◌then◌else◌, IsWord,
}
use datastor_qos.Interface.{App2Dispatch, fifo_depth}
use datastor_qos.Run.{Ends}
use datastor_qos.AppNode.{AppNode, next_version, update_token_quota_new, rcvd}

-- What `update_token_quota_new` promises: the value set is what was wanted, cut to the maximum
-- where there is one; the version moves exactly when the announced quota does; and the node is put
-- on the waiting list exactly when the announced quota grows.
pub record SetsQuota {S : Type 0} (insert : S → S) (s : S) (n : AppNode) (wanted : ℕ)
    (r : S × AppNode × ℕ) : Type 0 where
  pub value : r.2 ≡ (if ltb 0 n.limit.max_units then min n.limit.max_units wanted else wanted)
  pub announced : r.1.token_quota_new ≡ r.2
  pub quota : r.1.token_quota ≡ n.token_quota
  pub version :
      r.1.version ≡ (if r.2 == n.token_quota_new then n.version else next_version n.version)
  pub queued : r.0 ≡ (if ltb n.token_quota_new r.2 then insert s else s)

-- With a minimum within the maximum, a quota that is at least the minimum is set as promised.
pub update_token_quota_new-SetsQuota :
    {S : Type 0} (insert : S → S) (s : S) (n : AppNode) (wanted : ℕ)
    → n.limit.min_units ≤ wanted
    → (n.limit.max_units ≡ 0) ⊎ (n.limit.min_units ≤ n.limit.max_units)
    → Ends (update_token_quota_new insert s n wanted) (SetsQuota insert s n wanted)
unfolding update_token_quota_new
update_token_quota_new-SetsQuota insert s n wanted low limits = ground arith

-- Where the announced quota is a word, a report from the applicant never lowers the quota, whatever it
-- confirms. A report of the node's
-- version takes the quota up to what it confirms, at most to the announced quota, where that is more
-- than the quota; what is called free is what was added, and the pressure is read. A report of another
-- version changes neither the node nor what the caller has as free. No report asks for a reset.
pub rcvd-quota_rises :
    (n : AppNode) (a2d : App2Dispatch) (size : ℕ)
    → IsWord n.token_quota_new
    → let (n', size', is_reset) = rcvd n a2d size in
      (n.token_quota ≤ n'.token_quota)
      × (n'.token_quota ≤ max n.token_quota n.token_quota_new)
      × (((a2d.version ≡ n.version)
            × (n'.token_quota ≡ max n.token_quota (min a2d.token_in_use n.token_quota_new))
            × (size' ≡ n'.token_quota - n.token_quota)
            × (n'.press ≡ fifo_depth a2d.press))
          ⊎ ((a2d.version ≢ n.version) × (n' ≡ n) × (size' ≡ size)))
      × (is_reset ≡ false)
unfolding rcvd
rcvd-quota_rises n a2d size w = ground arith

-- A decrease that was announced is lost: confirming it leaves the quota where it was and frees
-- nothing.
pub rcvd-shrink_ignored :
    (n : AppNode) (a2d : App2Dispatch) (size : ℕ)
    → a2d.version ≡ n.version
    → n.token_quota_new < n.token_quota
    → ((rcvd n a2d size).0.token_quota ≡ n.token_quota) × ((rcvd n a2d size).1 ≡ 0)
unfolding rcvd
rcvd-shrink_ignored n a2d size same smaller = ground arith
