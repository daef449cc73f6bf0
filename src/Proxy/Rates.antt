-- ===== src/Proxy/Rates.antt =====
-- The negotiation of the data rate in twinleaf/src/tio/proxy_core.rs: `RateChange`, the state of
-- `ProxyDevice` and what moves it. Readings of the clock are nanoseconds. `none` is a panic. The
-- events that are sent on the way are in the module of events, and the main loop sends them.
pub mod Progress
pub mod Replies
pub mod Events
use twinleaf_rust.Shared.{
  ℕ, ◌-◌, ◌≡◌, Bool, true, false, not, ◌||◌, [], ◌∷◌, length, ◌==◌, ltb, if◌then◌else◌, Bytes,
  u32_to_le, Result, ok, err, Option, some, none,
}
use twinleaf_rust.Text.{Text}
use twinleaf_rust.Port.Serial.{RateInfo}
use twinleaf_rust.Proto.Packet.{Packet}
use twinleaf_rust.Proto.Payload.{Payload, rpc_error}
use twinleaf_rust.Proto.Route.{root}
use twinleaf_rust.Proto.Rpc.ErrorCode.{RpcErrorCode}
use twinleaf_rust.Proto.Rpc.Reply.{RpcReplyPayload}
use twinleaf_rust.Proxy.Rpcs.{Rpcs, Forwarded, forward_to_device}
use twinleaf_rust.Util.{make_rpc_request}
use twinleaf_rust.Util.Values.{from_reply, word_reply}

pub data RateChange : Type 0 where
  do_nothing waiting_for_session query_device_rate waiting_device_rate : RateChange
  set_device_rate waiting_new_rate rate_changed gave_up : RateChange

pub record ProxyDevice : Type 0 where
  pub rate_info : Option RateInfo
  pub rate_change_state : RateChange
  pub last_rx : ℕ
  pub last_session : Option ℕ
  pub restarted : Bool

unfoldable pub needs_autonegotiation : RateChange → Bool
needs_autonegotiation do_nothing = false
needs_autonegotiation gave_up = false
needs_autonegotiation _ = true

unfoldable pub safe_to_forward : RateChange → Bool
safe_to_forward set_device_rate = false
safe_to_forward waiting_new_rate = false
safe_to_forward _ = true

-- Whether a session is another than the last one, if one was seen.
abbrev pub is_new_session : Option ℕ → ℕ → Bool
is_new_session none session = false
is_new_session (some old) session = not (session == old)

-- After a restart the negotiation begins again, where there is one.
unfoldable pub restarted_state : RateChange → RateChange
restarted_state do_nothing = do_nothing
restarted_state waiting_for_session = waiting_for_session
restarted_state _ = query_device_rate

-- A heartbeat of the root device with its session, for a device whose rate is not static.
unfoldable pub session_seen : ProxyDevice → ℕ → ProxyDevice
unfolding restarted_state
session_seen d session = elim d.rate_change_state [
  | waiting_for_session ↦ record d {
    last_session = some session;
    rate_change_state = query_device_rate;
  }
  | state ↦
      if is_new_session d.last_session session
      then record d {
        last_session = some session;
        rate_change_state = restarted_state state;
        restarted = true;
      }
      else record d { last_session = some session }
]

abbrev pub query_rate_rpc_id : ℕ
query_rate_rpc_id = 0x101

abbrev pub set_rate_rpc_id : ℕ
set_rate_rpc_id = 0x102

-- "dev.port.rate"
abbrev pub rate_rpc : Text
rate_rpc =
    b'd' ∷ b'e' ∷ b'v' ∷ b'.' ∷ b'p' ∷ b'o' ∷ b'r' ∷ b't' ∷ b'.' ∷ b'r' ∷ b'a' ∷ b't' ∷ b'e' ∷ []

-- "dev.port.rate.near"
abbrev pub near_rpc : Text
near_rpc =
    b'd' ∷ b'e' ∷ b'v' ∷ b'.' ∷ b'p' ∷ b'o' ∷ b'r' ∷ b't' ∷ b'.' ∷ b'r' ∷ b'a' ∷ b't' ∷ b'e' ∷ b'.'
    ∷ b'n' ∷ b'e' ∷ b'a' ∷ b'r' ∷ []

abbrev pub internal_error : Payload → Option RpcErrorCode
internal_error (rpc_error e) = some e.error
internal_error _ = none

unfoldable pub internal_answer : Option Forwarded → Option (Rpcs × Result (Unit {0}) RpcErrorCode)
internal_answer none = none
internal_answer (some f) = elim f.answer [
  | ok done ↦ some (f.rpcs, ok tt)
  | err epkt ↦ elim (internal_error epkt.payload) [
    | none ↦ none
    | some error ↦ some (f.rpcs, err error)
  ]
]

unfoldable pub send_internal_rpc :
    (Packet → Bool) → ℕ → Rpcs → Packet → Option (Rpcs × Result (Unit {0}) RpcErrorCode)
unfolding internal_answer
send_internal_rpc device now s pkt =
    internal_answer (forward_to_device (λ id. none) (some device) now s pkt 0)

-- The state after an internal RPC that was to lead to `next`.
abbrev pub rpc_sent :
    RateChange → Option (Rpcs × Result (Unit {0}) RpcErrorCode) → Option (RateChange × Rpcs)
rpc_sent next none = none
rpc_sent next (some (s, ok done)) = some (next, s)
rpc_sent next (some (s, err error)) = some (gave_up, s)

abbrev pub silence : ℕ
silence = 1000000000

-- `reset` is the port's answer to the default rate, which is expected to be a success.
unfoldable pub next_state :
    (Packet → Bool) → ℕ → Bool → ProxyDevice → Rpcs → Option (RateChange × Rpcs)
unfolding send_internal_rpc
next_state device now reset d s = elim d.rate_change_state [
  | query_device_rate ↦ elim d.rate_info [
    | none ↦ none
    | some rates ↦ rpc_sent waiting_device_rate (
        send_internal_rpc device now s
          (make_rpc_request near_rpc (u32_to_le rates.target_bps) query_rate_rpc_id root))
  ]
  | set_device_rate ↦
      if length s.rpc_map == 0
      then elim d.rate_info [
        | none ↦ none
        | some rates ↦ rpc_sent waiting_new_rate (
            send_internal_rpc device now s
              (make_rpc_request rate_rpc (u32_to_le rates.target_bps) set_rate_rpc_id root))
      ]
      else some (set_device_rate, s)
  | rate_changed ↦
      if ltb silence (now - d.last_rx)
      then elim d.rate_info [ none ↦ none | some rates ↦ if reset then some (gave_up, s) else none ]
      else some (rate_changed, s)
  | state ↦ some (state, s)
]

abbrev pub with_state : ProxyDevice → Option (RateChange × Rpcs) → Option (ProxyDevice × Rpcs)
with_state d none = none
with_state d (some (state, s)) = some (record d { rate_change_state = state }, s)

-- The events are `autonegotiation_events`, which `negotiate` of Core/Rounds sends with this step.
unfoldable pub autonegotiation :
    (Packet → Bool) → ℕ → Bool → ProxyDevice → Rpcs → Option (ProxyDevice × Rpcs)
unfolding next_state
autonegotiation device now reset d s = with_state d (next_state device now reset d s)

-- The rate that the device would use, and whether it is too far from the target. That test is in
-- floating point, and is a parameter.
unfoldable pub queried_state : (ℕ → ℕ → Bool) → ℕ → Result ℕ (Unit {0}) → RateChange
queried_state too_far target (ok value) =
    if value == 0 || too_far target value then gave_up else set_device_rate
queried_state too_far target (err e) = gave_up

-- `accepted` is the port's answer to the target rate.
unfoldable pub replied_state :
    (ℕ → ℕ → Bool) → Bool → ProxyDevice → RpcReplyPayload → Option RateChange
unfolding queried_state
replied_state too_far accepted d rep =
    if rep.id == query_rate_rpc_id
    then elim d.rate_info [
      | none ↦ some d.rate_change_state
      | some rates ↦ elim d.rate_change_state [
        | waiting_device_rate ↦
            some (queried_state too_far rates.target_bps (from_reply (word_reply 4) rep.reply))
        | state ↦ some state
      ]
    ]
    else if rep.id == set_rate_rpc_id
    then elim d.rate_info [
      | none ↦ some d.rate_change_state
      | some rates ↦ elim d.rate_change_state [
        | waiting_new_rate ↦ some (if accepted then rate_changed else gave_up)
        | state ↦ some state
      ]
    ]
    else none

-- The events are `reply_events`, which `internal_reply` of Core/Handlers sends with this step.
unfoldable pub internal_rpc_reply :
    (ℕ → ℕ → Bool) → Bool → ProxyDevice → RpcReplyPayload → Option ProxyDevice
unfolding replied_state
internal_rpc_reply too_far accepted d rep = elim (replied_state too_far accepted d rep) [
  | none ↦ none
  | some state ↦ some (record d { rate_change_state = state })
]

unfoldable pub internal_rpc_error : ProxyDevice → ProxyDevice
internal_rpc_error d = record d { rate_change_state = gave_up }
