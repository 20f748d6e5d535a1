-- ===== src/TokenGlobal/Admission.antt =====
-- sysqos_token_global.c: which nodes are let online.
use datastor_qos.Base.{
  ℕ, ◌+◌, ◌≤◌, ◌<◌, ◌≡◌, inl, inr, some, List, [], ◌∷◌, arith, Option-cases, IsWord,
}
use datastor_qos.Interface.{QosError, ok, too_many_nodes}
use datastor_qos.Run.{Run, returns, aborts}
use datastor_qos.AppNode.{AppNode}
use datastor_qos.TokenGlobal.{
  TokenGlobal, init, set_max_rsvr, online, offline, try_alloc, free, increase, try_decrease,
}
use datastor_qos.TokenGlobal.Bounds.{
  Call, onlines, offlines, allocs, frees, increases, decreases, limits, step, run,
}

-- The call let the node in, at the default quota, and counted `count` nodes.
abbrev pub LetsIn : Run (QosError × TokenGlobal × AppNode) → ℕ → ℕ → Type 0
LetsIn (returns (err, t, n)) count quota =
    (err ≡ ok) × (t.app_num_cur ≡ count) × (n.token_quota ≡ quota)
LetsIn (aborts f) count quota = ⊥

-- The count of nodes does not keep a node out once the limit is reached or passed: where the tokens
-- suffice it is let in, and counted past the limit.
pub online_past_limit :
    (t : TokenGlobal) (n : AppNode)
    → t.app_num_max ≤ t.app_num_cur
    → IsWord (t.app_num_cur + 1)
    → IsWord t.app_token_rsvr
    → IsWord t.token_free
    → IsWord t.default_token_min
    → IsWord (t.token_used_static + t.default_token_min)
    → t.token_used_static + t.default_token_min ≤ t.token_total
    → n.token_quota ≤ t.default_token_min
    → LetsIn (online t n) (t.app_num_cur + 1) t.default_token_min
unfolding online
online_past_limit t n past c r f m s enough small = ground arith

-- No node is online, and there are at least two places.
record IsShut (t : TokenGlobal) : Type 0 where
  none_online : t.app_num_cur ≡ 0
  places : 1 < t.app_num_max

IsShut-refuses :
    (t : TokenGlobal) (n : AppNode) → IsShut t → online t n ≡ returns (too_many_nodes, t, n)
unfolding online
IsShut-refuses t n s = ground arith

step-IsShut : (t t' : TokenGlobal) (c : Call) → IsShut t → step t c ≡ some t' → IsShut t'
unfolding step try_alloc free increase try_decrease set_max_rsvr offline
step-IsShut t t' (onlines n) s e = ground (arith, IsShut-refuses t n s)
step-IsShut t t' (offlines n) s e = ground arith
step-IsShut t t' (allocs cost) s e = ground arith
step-IsShut t t' (frees cost) s e = ground arith
step-IsShut t t' (increases units) s e = ground arith
step-IsShut t t' (decreases units) s e = ground arith
step-IsShut t t' (limits n) s e = ground arith

run-IsShut : (t t' : TokenGlobal) (cs : List Call) → IsShut t → run t cs ≡ some t' → IsShut t'
unfolding run
run-IsShut t t' [] s e = ground arith
run-IsShut t t' (c ∷ cs) s e = elim (Option-cases (step t c)) [
  | inl stuck ↦ ground arith
  | inr (u, r) ↦ run-IsShut u t' cs (step-IsShut t u c s r) (ground arith)
]

-- With places for at least two nodes, after any calls of which none aborts, a node that asks to come
-- online is refused, and nothing changes: no node ever gets online.
pub run-init-refuses :
    (max_node_nr min_per_node : ℕ) (cs : List Call) (t : TokenGlobal) (n : AppNode)
    → 1 < max_node_nr
    → run (init max_node_nr min_per_node) cs ≡ some t
    → online t n ≡ returns (too_many_nodes, t, n)
unfolding init
run-init-refuses m k cs t n places e =
    IsShut-refuses t n (run-IsShut (init m k) t cs (ground arith) e)
