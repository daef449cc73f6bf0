-- ===== src/Proto/Rpc/ErrorCode.antt =====
-- `RpcErrorCode` of twinleaf/src/tio/proto/rpc.rs, with the conversions that `num_enum` derives.
use twinleaf_rust.Shared.{ℕ, ◌≤◌, ◌≡◌, refl, arith, ◌==◌, if◌then◌else◌}

pub data RpcErrorCode : Type 0 where
  no_error undefined not_found malformed_request : RpcErrorCode
  wrong_size_args invalid_args read_only write_only : RpcErrorCode
  timeout busy wrong_device_state load_failed : RpcErrorCode
  load_rpc_failed save_failed save_write_failed internal : RpcErrorCode
  out_of_memory out_of_range : RpcErrorCode
  unknown : ℕ → RpcErrorCode

unfoldable pub code_from : ℕ → RpcErrorCode
code_from v =
    if v == 0
    then no_error
    else if v == 1
    then undefined
    else if v == 2
    then not_found
    else if v == 3
    then malformed_request
    else if v == 4
    then wrong_size_args
    else if v == 5
    then invalid_args
    else if v == 6
    then read_only
    else if v == 7
    then write_only
    else if v == 8
    then timeout
    else if v == 9
    then busy
    else if v == 10
    then wrong_device_state
    else if v == 11
    then load_failed
    else if v == 12
    then load_rpc_failed
    else if v == 13
    then save_failed
    else if v == 14
    then save_write_failed
    else if v == 15
    then internal
    else if v == 16
    then out_of_memory
    else if v == 17
    then out_of_range
    else unknown v

unfoldable pub code_into : RpcErrorCode → ℕ
code_into no_error = 0
code_into undefined = 1
code_into not_found = 2
code_into malformed_request = 3
code_into wrong_size_args = 4
code_into invalid_args = 5
code_into read_only = 6
code_into write_only = 7
code_into timeout = 8
code_into busy = 9
code_into wrong_device_state = 10
code_into load_failed = 11
code_into load_rpc_failed = 12
code_into save_failed = 13
code_into save_write_failed = 14
code_into internal = 15
code_into out_of_memory = 16
code_into out_of_range = 17
code_into (unknown v) = v

-- The codes that come from a u16: the catch-all holds no named one.
abbrev pub IsCode : RpcErrorCode → Type 0
IsCode (unknown v) = 18 ≤ v
IsCode no_error = Unit
IsCode _ = Unit

pub code_from-into : (c : RpcErrorCode) → IsCode c → code_from (code_into c) ≡ c
unfolding code_from code_into
code_from-into (unknown v) h = ground arith
code_from-into _ h = refl
