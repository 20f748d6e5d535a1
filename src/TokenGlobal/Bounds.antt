-- ===== src/TokenGlobal/Bounds.antt =====
-- sysqos_token_global.c: the reserve and its limit, over all calls.
use datastor_qos.Base.{
  ℕ, ◌≤◌, ◌≡◌, subst, inl, inr, Option, none, some, List, [], ◌∷◌, arith, All, Option-cases, IsWord,
}
use datastor_qos.Interface.{QosError}
use datastor_qos.Run.{returns, aborts, Run-cases}
use datastor_qos.AppNode.{AppNode}
use datastor_qos.TokenGlobal.{
  TokenGlobal, init, set_max_rsvr, online, offline, try_alloc, free, increase, try_decrease,
}

-- Every field is a machine word, and the reserve is at most its limit.
pub record IsBounded (t : TokenGlobal) : Type 0 where
  pub reserve : t.app_token_rsvr ≤ t.app_max_token_rsvr
  pub limit : IsWord t.app_max_token_rsvr
  pub free : IsWord t.token_free
  pub dynamic : IsWord t.token_dynamic
  pub dynamic_new : IsWord t.token_dynamic_new
  pub static : IsWord t.token_used_static

-- The calls of the other components on the pools, with what they are given.
pub data Call : Type 0 where
  onlines offlines : AppNode → Call
  allocs frees increases decreases limits : ℕ → Call

-- The pools after a call; a call that aborts is not followed by another.
unfoldable pub step : TokenGlobal → Call → Option TokenGlobal
step t (onlines n) = elim (online t n) [ returns (_, t', _) ↦ some t' | aborts _ ↦ none ]
step t (offlines n) = elim (offline t n) [ returns (t', _) ↦ some t' | aborts _ ↦ none ]
step t (allocs cost) = some (try_alloc t cost).0
step t (frees cost) = some (free t cost)
step t (increases units) = some (increase t units)
step t (decreases units) = some (try_decrease t units).1
step t (limits n) = some (set_max_rsvr t n)

-- The argument of a call is a machine word, as the types of the C functions make it.
abbrev pub IsWordCall : Call → Type 0
IsWordCall (onlines n) = IsWord n.token_quota
IsWordCall (offlines n) = IsWord n.token_quota
IsWordCall (allocs cost) = IsWord cost
IsWordCall (frees cost) = IsWord cost
IsWordCall (increases units) = IsWord units
IsWordCall (decreases units) = IsWord units
IsWordCall (limits n) = IsWord n

offline-IsBounded :
    (t t' : TokenGlobal) (n n' : AppNode)
    → IsBounded t
    → IsWord n.token_quota
    → offline t n ≡ returns (t', n')
    → IsBounded t'
unfolding offline
offline-IsBounded t t' n n' b w e = ground arith

online-IsBounded :
    (t t' : TokenGlobal) (n n' : AppNode) (err : QosError)
    → IsBounded t
    → IsWord n.token_quota
    → online t n ≡ returns (err, t', n')
    → IsBounded t'
unfolding online
online-IsBounded t t' n n' err b w e = ground arith

step-IsBounded :
    (t t' : TokenGlobal) (c : Call) → IsBounded t → IsWordCall c → step t c ≡ some t' → IsBounded t'
unfolding step try_alloc free increase try_decrease set_max_rsvr
step-IsBounded t t' (onlines n) b w e = elim (Run-cases (online t n)) [
  | inl ((err, u, m), r) ↦
      let same : u ≡ t' = ground arith in subst IsBounded same (online-IsBounded t u n m err b w r)
  | inr (f, r) ↦ ground arith
]
step-IsBounded t t' (offlines n) b w e = elim (Run-cases (offline t n)) [
  | inl ((u, m), r) ↦
      let same : u ≡ t' = ground arith in subst IsBounded same (offline-IsBounded t u n m b w r)
  | inr (f, r) ↦ ground arith
]
step-IsBounded t t' (allocs cost) b w e = ground arith
step-IsBounded t t' (frees cost) b w e = ground arith
step-IsBounded t t' (increases units) b w e = ground arith
step-IsBounded t t' (decreases units) b w e = ground arith
step-IsBounded t t' (limits n) b w e = ground arith

-- Calls in turn; none when one of them aborts.
unfoldable pub run : TokenGlobal → List Call → Option TokenGlobal
run t [] = some t
run t (c ∷ cs) = elim (step t c) [ none ↦ none | some t' ↦ run t' cs ]

run-IsBounded :
    (t t' : TokenGlobal) (cs : List Call)
    → IsBounded t
    → All IsWordCall cs
    → run t cs ≡ some t'
    → IsBounded t'
unfolding run
run-IsBounded t t' [] b w e = ground arith
run-IsBounded t t' (c ∷ cs) b w e = elim (Option-cases (step t c)) [
  | inl none_left ↦ ground arith
  | inr (u, s) ↦ run-IsBounded u t' cs (step-IsBounded t u c b w.0 s) w.1 (ground arith)
]

-- After any calls on new pools, with words as arguments and with none that aborts, the reserve is
-- within its limit, and every pool is a machine word.
pub run-init-IsBounded :
    (max_node_nr min_per_node : ℕ) (cs : List Call) (t : TokenGlobal)
    → All IsWordCall cs
    → run (init max_node_nr min_per_node) cs ≡ some t
    → IsBounded t
unfolding init
run-init-IsBounded m k cs t w e = run-IsBounded (init m k) t cs (ground arith) w e
