-- ===== src/Proxy/Event.antt =====
-- The events that the proxy reports: `Event` of twinleaf/src/tio/proxy.rs.
use twinleaf_rust.Shared.{ℕ, Bool, true, false}
use twinleaf_rust.Port.Errors.{RecvError}
use twinleaf_rust.Proto.Limits.{Error}
use twinleaf_rust.Proto.Rpc.ErrorCode.{RpcErrorCode}

pub data Event : Type 0 where
  sensor_connected sensor_disconnected sensor_reconnected : Event
  failed_to_connect failed_to_reconnect exiting : Event
  protocol_error : Error → Event
  fatal_error : RecvError → Event
  new_client : ℕ → Event
  rpc_remap : ℕ × ℕ → ℕ → Event
  rpc_restored : ℕ → ℕ × ℕ → Event
  rpc_restore_not_found : ℕ → Event
  rpc_client_not_found : ℕ → Event
  rpc_timeout : ℕ → Event
  rpc_cancel : ℕ → Event
  client_send_failed : ℕ → Event
  client_terminated : ℕ → Event
  root_device_restarted auto_rate_gave_up : Event
  auto_rate_queried : ℕ → Event
  auto_rate_rpc_error : RpcErrorCode → Event
  auto_rate_rpc_invalid : Event
  auto_rate_incompatible auto_rate_compatible : ℕ → Event
  auto_rate_wait : Event
  auto_rate_set set_rate : ℕ → Event
  set_rate_failed no_data : Event

unfoldable pub is_new_client : Event → Bool
is_new_client (new_client id) = true
is_new_client e = false
