-- ===== src/Proxy/Rates/Events.antt =====
-- The events that the negotiation of the data rate in twinleaf/src/tio/proxy_core.rs sends, in order.
use twinleaf_rust.Shared.{
  ℕ, Bool, List, [], ◌∷◌, ◌++◌, ◌-◌, ◌==◌, ltb, length, if◌then◌else◌, u32_to_le, Result, ok, err,
  Option, some, none, lookup,
}
use twinleaf_rust.Text.{Text}
use twinleaf_rust.Port.Serial.{RateInfo}
use twinleaf_rust.Proto.Packet.{Packet}
use twinleaf_rust.Proto.Route.{root}
use twinleaf_rust.Proto.Rpc.ErrorCode.{RpcErrorCode}
use twinleaf_rust.Proto.Rpc.ErrorReply.{RpcErrorPayload}
use twinleaf_rust.Proto.Rpc.Reply.{RpcReplyPayload}
use twinleaf_rust.Proxy.Event.{
  Event, rpc_remap, auto_rate_gave_up, auto_rate_queried, auto_rate_rpc_error,
  auto_rate_rpc_invalid, auto_rate_incompatible, auto_rate_compatible, auto_rate_wait,
  auto_rate_set, set_rate, no_data,
}
use twinleaf_rust.Proxy.Rates.{
  query_device_rate, waiting_device_rate, set_device_rate, waiting_new_rate, rate_changed,
  ProxyDevice, send_internal_rpc, silence, near_rpc, rate_rpc, query_rate_rpc_id, set_rate_rpc_id,
}
use twinleaf_rust.Proxy.Rpcs.{Rpcs, is_some}
use twinleaf_rust.Util.{make_rpc_request}
use twinleaf_rust.Util.Values.{from_reply, word_reply}

-- An RPC of the proxy's own, client 0, that is remapped and then sent, or not.
abbrev pub remapped : Rpcs → ℕ → List Event
remapped s id =
    if is_some (lookup s.next_rpc_id s.rpc_map) then [] else rpc_remap (0, id) s.next_rpc_id ∷ []

abbrev pub sent_or_not : Event → Option (Rpcs × Result (Unit {0}) RpcErrorCode) → List Event
sent_or_not e none = []
sent_or_not e (some (s, ok done)) = e ∷ []
sent_or_not e (some (s, err code)) = auto_rate_rpc_error code ∷ []

unfoldable pub rpc_events :
    (Packet → Bool) → ℕ → Rpcs → Text → ℕ → Event → Option RateInfo → List Event
rpc_events device now s name id e none = []
rpc_events device now s name id e (some rates) =
    remapped s id
    ++ sent_or_not e (
        send_internal_rpc device now s (make_rpc_request name (u32_to_le rates.target_bps) id root))

abbrev pub target_of : Option RateInfo → ℕ
target_of none = 0
target_of (some rates) = rates.target_bps

abbrev pub default_of : Option RateInfo → ℕ
default_of none = 0
default_of (some rates) = rates.default_bps

unfoldable pub autonegotiation_events : (Packet → Bool) → ℕ → ProxyDevice → Rpcs → List Event
unfolding rpc_events
autonegotiation_events device now d s = elim d.rate_change_state [
  | query_device_rate ↦
      rpc_events device now s near_rpc query_rate_rpc_id (auto_rate_queried (target_of d.rate_info))
        d.rate_info
  | set_device_rate ↦
      if length s.rpc_map == 0
      then rpc_events device now s rate_rpc set_rate_rpc_id (auto_rate_set (target_of d.rate_info))
          d.rate_info
      else auto_rate_wait ∷ []
  | rate_changed ↦
      if ltb silence (now - d.last_rx) then no_data ∷ set_rate (default_of d.rate_info) ∷ [] else []
  | state ↦ []
]

unfoldable pub queried_events : (ℕ → ℕ → Bool) → ℕ → Result ℕ (Unit {0}) → List Event
queried_events too_far target (err e) = auto_rate_rpc_invalid ∷ []
queried_events too_far target (ok value) =
    if value == 0
    then auto_rate_incompatible 0 ∷ auto_rate_gave_up ∷ []
    else if too_far target value
    then auto_rate_incompatible value ∷ auto_rate_gave_up ∷ []
    else auto_rate_compatible value ∷ []

unfoldable pub replied_events :
    (ℕ → ℕ → Bool) → Bool → ProxyDevice → RpcReplyPayload → RateInfo → List Event
unfolding queried_events
replied_events too_far accepted d rep rates =
    if rep.id == query_rate_rpc_id
    then elim d.rate_change_state [
      | waiting_device_rate ↦
          queried_events too_far rates.target_bps (from_reply (word_reply 4) rep.reply)
      | state ↦ []
    ]
    else if rep.id == set_rate_rpc_id
    then elim d.rate_change_state [
      | waiting_new_rate ↦
          set_rate rates.target_bps ∷ (if accepted then [] else auto_rate_gave_up ∷ [])
      | state ↦ []
    ]
    else []

unfoldable pub reply_events : (ℕ → ℕ → Bool) → Bool → ProxyDevice → RpcReplyPayload → List Event
unfolding replied_events
reply_events too_far accepted d rep = elim d.rate_info [
  | none ↦ []
  | some rates ↦ replied_events too_far accepted d rep rates
]

unfoldable pub error_events : RpcErrorPayload → Option ProxyDevice → List Event
error_events e none = auto_rate_rpc_error e.error ∷ []
error_events e (some d) = auto_rate_rpc_error e.error ∷ auto_rate_gave_up ∷ []
