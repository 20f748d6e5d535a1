-- ===== src/TokenGlobal/Conservation.antt =====
-- sysqos_token_global.c: where tokens go. Sums are taken modulo 2 ^ 64, as the code takes them.
use datastor_qos.Base.{
  ℕ, ◌+◌, ◌-◌, ◌%◌, ◌^◌, ◌≤◌, ◌<◌, min, ◌≡◌, ◌⊎◌, true, false, arith, ltb, if◌then◌else◌, IsWord,
}
use datastor_qos.Interface.{QosError, ok, too_many_nodes}
use datastor_qos.Run.{Ends}
use datastor_qos.AppNode.{AppNode}
use datastor_qos.TokenGlobal.{TokenGlobal, online, offline, free, increase, try_decrease}
use datastor_qos.TokenGlobal.Bounds.{IsBounded}

-- A node that goes offline from pools that count some node, and whose dynamic tokens are not to grow,
-- gives back exactly its quota, to the reserve, the dynamic tokens and the free tokens together.
pub offline-conserves :
    (t : TokenGlobal) (n : AppNode)
    → IsBounded t
    → IsWord n.token_quota
    → 0 < t.app_num_cur
    → t.token_dynamic_new ≤ t.token_dynamic
    → Ends (offline t n) (λ r.
      (r.0.app_token_rsvr + r.0.token_dynamic + r.0.token_free) % 2 ^ 64
      ≡ (t.app_token_rsvr + t.token_dynamic + t.token_free + n.token_quota) % 2 ^ 64)
unfolding offline
offline-conserves t n b w counted shrinks = ground arith

-- What coming online does: a node that is refused leaves everything as it is, and one that is let in
-- has the default quota, for which the tokens it lacked leave the pools.
abbrev pub ComesOnline : TokenGlobal → AppNode → QosError × TokenGlobal × AppNode → Type 0
ComesOnline t n (err, t', n') =
    ((err ≡ too_many_nodes) × (t' ≡ t) × (n' ≡ n))
    ⊎ ((err ≡ ok)
        × (n'.token_quota ≡ t.default_token_min)
        × (n'.token_quota_new ≡ t.default_token_min)
        × ((t'.app_token_rsvr + t'.token_free + t'.token_dynamic_new + t.default_token_min) % 2 ^ 64
            ≡ (t.app_token_rsvr + t.token_free + t.token_dynamic_new + n.token_quota) % 2 ^ 64))

-- A node with at most the default quota that asks to come online is answered. If it is refused,
-- nothing changes; if it is let in, it has exactly the default quota, and the tokens that it lacked
-- are taken from the reserve, the free tokens and the new dynamic tokens together.
pub online-ComesOnline :
    (t : TokenGlobal) (n : AppNode)
    → IsBounded t
    → IsWord t.default_token_min
    → n.token_quota ≤ t.default_token_min
    → Ends (online t n) (ComesOnline t n)
unfolding online
online-ComesOnline t n b m small = ground arith

-- In pools whose dynamic tokens are not to grow, tokens that come back are all accounted for, as static or as free, and first make up for what the
-- dynamic tokens have to shrink.
pub free-conserves :
    (t : TokenGlobal) (cost : ℕ)
    → IsBounded t
    → t.token_dynamic_new ≤ t.token_dynamic
    → IsWord cost
    → ((free t cost).token_used_static + (free t cost).token_free) % 2 ^ 64
        ≡ (t.token_used_static + t.token_free + cost) % 2 ^ 64
      × ((free t cost).token_dynamic - (free t cost).token_dynamic_new
          ≡ t.token_dynamic - t.token_dynamic_new - cost)
unfolding free
free-conserves t cost b gap w = ground arith

-- Where no sum wraps, what was added can be taken away again, exactly when the dynamic tokens cover what the reserve
-- still lacks; otherwise nothing changes.
pub try_decrease-increase :
    (t : TokenGlobal) (units : ℕ)
    → IsBounded t
    → IsWord (t.token_free + units)
    → IsWord (t.token_total + units)
    → IsWord (t.token_dynamic + units)
    → IsWord (t.token_dynamic_new + units)
    → try_decrease (increase t units) units ≡ (
        if ltb (min t.token_dynamic t.token_dynamic_new) (t.app_max_token_rsvr - t.app_token_rsvr)
        then (false, increase t units)
        else (true, t))
unfolding try_decrease increase
try_decrease-increase t units b f a d d' = ground arith

-- A decrease by more than the dynamic tokens is let through, because the guard's subtraction wraps,
-- and makes the dynamic tokens more, not fewer.
pub try_decrease_wraps :
    (t : TokenGlobal) (units : ℕ)
    → IsBounded t
    → IsWord units
    → t.token_dynamic_new ≤ t.token_dynamic
    → t.token_dynamic_new < units
    → t.app_max_token_rsvr + units ≤ t.token_dynamic_new + 2 ^ 64
    → ((try_decrease t units).0 ≡ true)
      × (t.token_dynamic_new < (try_decrease t units).1.token_dynamic_new)
unfolding try_decrease
try_decrease_wraps t units b w gap more room = ground arith
