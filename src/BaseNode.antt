-- ===== src/BaseNode.antt =====
-- sysqos_dispatch_base_node.c, `dispatch_base_node_t`: what an applicant knows of its quota at one
-- dispatcher. A function that takes the lock once is one step; `try_alloc_from_desc` takes it twice
-- and is given both as its two steps and as their sequence. Differences of versions are taken
-- without overflow, which C leaves undefined.
pub mod Versions
pub mod Shrink
pub mod Alloc
pub mod Tests
use datastor_qos.Base.{
  ℕ, ℤ, pos, ◌≡◌, Bool, true, false, max, add64, sub64, ltb, leb, ltb_ℤ, eqb_ℤ, if◌then◌else◌,
}
use datastor_qos.Interface.{
  QosError, ok, pending, is_error, Dispatch2App, min_rs_num, max_respond_step,
}

pub record BaseNode : Type 0 where
  pub token_inuse : ℕ
  pub token_quota : ℕ
  pub token_quota_new : ℕ
  pub respond_step : ℕ
  pub version : ℤ

-- `dispatch_base_node_init`; creating the lock succeeds.
unfoldable pub init : BaseNode
init = record {
  token_inuse = 0;
  token_quota = min_rs_num;
  token_quota_new = min_rs_num;
  respond_step = max_respond_step;
  version = pos 0;
}

unfoldable pub is_to_reset : BaseNode → ℤ → Bool
is_to_reset n new_ver = ltb_ℤ new_ver n.version

unfoldable pub is_version_same : BaseNode → ℤ → Bool
is_version_same n new_ver = eqb_ℤ new_ver n.version

-- `token_quota - respond_step`, which wraps, but not below the announced quota.
abbrev pub step_down : BaseNode → ℕ → ℕ
step_down n floor = max floor (sub64 n.token_quota n.respond_step)

-- The part of `check_update_total_version` under the write lock, for a newer version.
unfoldable pub adopt : BaseNode → ℕ → ℤ → BaseNode × Bool
adopt n new_total new_ver =
    if ltb n.token_quota new_total
    then (
      record n { token_quota = new_total; token_quota_new = new_total; version = new_ver },
      true,
    )
    else if ltb new_total n.token_quota
    then (
      record n {
        token_quota = step_down n new_total;
        token_quota_new = new_total;
        version = new_ver;
      },
      false,
    )
    else (record n { version = new_ver }, false)

pub record Update : Type 0 where
  pub node : BaseNode
  pub increased : Bool
  pub is_reset : Bool

-- `check_update_total_version`: the node, whether its quota grew, and `*is_reset`.
unfoldable pub check_update : BaseNode → ℕ → ℤ → Update
unfolding is_to_reset is_version_same adopt
check_update n new_total new_ver =
    if is_to_reset n new_ver
    then record { node = n; increased = false; is_reset = true }
    else if is_version_same n new_ver
    then record { node = n; increased = false; is_reset = false }
    else if ltb_ℤ n.version new_ver
    then record {
      node = (adopt n new_total new_ver).0;
      increased = (adopt n new_total new_ver).1;
      is_reset = false;
    }
    else record { node = n; increased = false; is_reset = false }

-- `check_alloc_from_desc`, under the read lock
unfoldable pub check_alloc : BaseNode → ℕ → QosError
check_alloc n cost = if ltb n.token_quota (add64 cost n.token_inuse) then pending else ok

-- The part of `try_alloc_from_desc` under the write lock.
unfoldable pub commit_alloc : BaseNode → ℕ → BaseNode
commit_alloc n cost =
    if leb (add64 cost n.token_inuse) n.token_quota
    then record n {
      token_inuse = add64 n.token_inuse cost;
      token_quota =
          if ltb n.token_quota_new n.token_quota
          then step_down n n.token_quota_new
          else n.token_quota;
    }
    else n

-- `try_alloc_from_desc`, with no other thread between its two locks
unfoldable pub try_alloc : BaseNode → ℕ → QosError × BaseNode
unfolding check_alloc commit_alloc
try_alloc n cost =
    if is_error (check_alloc n cost) then (check_alloc n cost, n) else (ok, commit_alloc n cost)

-- `free_to_desc`
unfoldable pub free : BaseNode → ℕ → BaseNode
free n cost = record n { token_inuse = sub64 n.token_inuse cost }

-- `get_currentversion` and `get_alloced`
unfoldable pub get_version : BaseNode → ℤ
get_version n = n.version

unfoldable pub get_token_inuse : BaseNode → ℕ
get_token_inuse n = n.token_inuse

-- `reset`: the tokens in use stay counted.
unfoldable pub reset : BaseNode → BaseNode
reset n = record n { token_quota = min_rs_num; token_quota_new = min_rs_num; version = pos 0 }
