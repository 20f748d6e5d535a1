-- ===== src/Interface.antt =====
-- sysqos_interface.h and sysqos_protocol.h: the error numbers, the resource that a request names,
-- and the two messages between an applicant and the dispatcher.
use datastor_qos.Base.{ℕ, ℤ, Bool, true, false, ◌-◌, ◌*◌, ◌%◌, ◌^◌}

-- The enumeration of `QOS_ERROR_*` values.
pub data QosError : Type 0 where
  ok pending failed_node too_big_cost too_small_buf null_pointer timeout : QosError
  no_such_source memory too_many_nodes unknown : QosError

-- `if ( err )`: every value but QOS_ERROR_OK is nonzero.
abbrev pub is_error : QosError → Bool
is_error ok = false
is_error _ = true

-- `resource_t`; the `void *` that names a node is a number.
pub record Resource : Type 0 where
  pub id : ℕ
  pub cost : ℕ

-- `PRESS_TYPE_BIT`
abbrev pub press_type_bit : ℕ
press_type_bit = 2

-- `PRESS_VAL_BIT`, `(sizeof(unsigned long)<<3 - PRESS_TYPE_BIT)`: C subtracts before it shifts, so words
-- of 8 bytes give 16.
abbrev pub press_val_bit : ℕ
press_val_bit = 8 * 2 ^ (3 - press_type_bit)

-- What the bit-field `fifo_press_t.depth` holds of a word.
abbrev pub fifo_depth : ℕ → ℕ
fifo_depth word = word % 2 ^ press_val_bit

-- `app2dispatch_t`: of the press union only the view `fifo.depth` is used, which is written and read
-- by `fifo_depth`.
pub record App2Dispatch : Type 0 where
  pub press : ℕ
  pub version : ℤ
  pub token_in_use : ℕ

-- `dispatch2app_t`
pub record Dispatch2App : Type 0 where
  pub token_quota : ℕ
  pub version : ℤ

-- `NODE_TABLE_HASH_LEN`, `MIN_RS_NUM` and `MMAX_RESPOND_STEP`
abbrev pub node_table_hash_len : ℕ
node_table_hash_len = 127

abbrev pub min_rs_num : ℕ
min_rs_num = 10

abbrev pub max_respond_step : ℕ
max_respond_step = 5
