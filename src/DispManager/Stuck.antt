-- ===== src/DispManager/Stuck.antt =====
-- sysqos_dispatch_manager.c: how a node that lacks nothing comes to wait.
use datastor_qos.Base.{ℕ}
use datastor_qos.Run.{Run, ◌>>=◌}
use datastor_qos.AppNode
use datastor_qos.AppNode.{AppNode}
use datastor_qos.WaitIncreaseList
use datastor_qos.WaitIncreaseList.{WaitIncreaseList, unlink_left}
use datastor_qos.DispManager.{DispManager, set_quota_new}

-- Two quotas announced to a node, one after the other.
abbrev pub announce_twice : DispManager → ℕ → ℕ → ℕ → Run (DispManager × ℕ)
announce_twice m p up down = set_quota_new m up p >>= λ r. set_quota_new r.0 down p
