-- ===== src/AppNode/Tests.antt =====
-- sysqos_app_node.c: runs on a concrete node.
use datastor_qos.Base.{suc, ◌-◌, ◌≤◌, ◌≡◌, refl, ◌≢◌, ◌⊎◌, inr, false, arith, pos}
use datastor_qos.Interface.{App2Dispatch}
use datastor_qos.Run.{Ends}
use datastor_qos.AppNode.{AppNode, alloc, rcvd, update_token_quota_new}
use datastor_qos.AppNode.Quota.{SetsQuota, update_token_quota_new-SetsQuota, rcvd-quota_rises}

-- A node with 20 tokens, of which 5 are in use, that is to come down to 12.
abbrev node : AppNode
node = record {
  updatenode = record { weight = 0; tmp_token_quota = 0; token_base = 0 };
  token_inuse = 5;
  token_quota = 20;
  token_quota_new = 12;
  press = 4;
  limit = record { min_units = 10; max_units = 50 };
  version = pos 2;
  fence_id = 7;
}

abbrev report : App2Dispatch
report = record { press = 9; version = pos 2; token_in_use = 11 }

alloc_node : (alloc node 15).node.token_inuse ≡ 20
unfolding alloc
alloc_node = refl

update_token_quota_new-SetsQuota_example :
    Ends (update_token_quota_new suc 0 node 60) (SetsQuota suc 0 node 60)
update_token_quota_new-SetsQuota_example =
    update_token_quota_new-SetsQuota suc 0 node 60 (omega arith) (inr (omega arith))

rcvd-quota_rises_example :
    let (n', size', is_reset) = rcvd node report 0 in
    (20 ≤ n'.token_quota)
    × (n'.token_quota ≤ 20)
    × (((pos 2 ≡ pos 2) × (n'.token_quota ≡ 20) × (size' ≡ n'.token_quota - 20) × (n'.press ≡ 9))
        ⊎ ((pos 2 ≢ pos 2) × (n' ≡ node) × (size' ≡ 0)))
    × (is_reset ≡ false)
rcvd-quota_rises_example = rcvd-quota_rises node report 0 (omega arith)
