-- ===== src/Proxy/Core.antt =====
-- The main loop of the proxy: `ProxyCore::run` of twinleaf/src/tio/proxy_core.rs and what it calls, one
-- handler for each thing that can be ready. What the channels, the port and the clock answer is a
-- parameter.
pub mod Handlers
pub mod Rounds
pub mod Delivery
pub mod Broadcast
pub mod Answering
pub mod Stuck
pub mod Negotiation
pub mod Cancelling
pub mod Forwarding
pub mod Clients
mod Tests
use twinleaf_rust.Shared.{
  ℕ, suc, ◌+◌, Bool, true, false, not, ◌&&◌, ◌||◌, List, [], ◌∷◌, ◌++◌, ◌==◌, if◌then◌else◌, length,
  Result, ok, err, ◌>>=◌, Option, some, none, lookup, remove, insert, member, set_insert,
}
use twinleaf_rust.Port.Errors.{RecvError, protocol}
use twinleaf_rust.Port.Serial.{RateInfo}
use twinleaf_rust.Proto.Packet.{Packet}
use twinleaf_rust.Proto.Rpc.ErrorCode.{RpcErrorCode, timeout, undefined}
use twinleaf_rust.Proxy.Client
use twinleaf_rust.Proxy.Client.{ProxyClient}
use twinleaf_rust.Proxy.Event.{
  Event, client_send_failed, client_terminated, rpc_timeout, rpc_cancel, is_new_client,
}
use twinleaf_rust.Proxy.Rates.{
  RateChange, do_nothing, waiting_for_session, ProxyDevice, autonegotiation, needs_autonegotiation,
}
use twinleaf_rust.Proxy.Rpcs.{RpcMapEntry, Rpcs}
use twinleaf_rust.Proxy.Rpcs
use twinleaf_rust.Proxy.Rpcs.Dispatch.{RpcMap, dispatch_rpc_errors, error_packet}

-- `events` went to the status queue, and `delivered` into the channels of clients.
pub record ProxyCore : Type 0 where
  pub rpcs : Rpcs
  pub clients : List (ℕ × ProxyClient)
  pub clients_to_drop : List ℕ
  pub next_client_id : ℕ
  pub device : Option ProxyDevice
  pub device_timeout : ℕ
  pub only_new_client : Bool
  pub events : List Event
  pub delivered : List (ℕ × Packet)

-- What lies outside answers in a round: whether the status queue takes an event, a client's channel a packet, and the device's port one;
-- what opening the port gives, with its rates; the answers to setting the rates; the test of rates in
-- floating point; and for how long the proxy tries to reconnect.
pub record Outside : Type 0 where
  pub status : Event → Bool
  pub tx : ℕ → Packet → Bool
  pub port : Packet → Bool
  pub connect : Option (Option RateInfo)
  pub reset_accepted : Bool
  pub target_accepted : Bool
  pub too_far : ℕ → ℕ → Bool
  pub reconnect_timeout : Option ℕ

-- A panic, or the end of the main loop.
pub data Halt : Type 0 where
  panicked finished : Halt

unfoldable pub new : Bool → ProxyCore
new notify_new_client_only = record {
  rpcs = Rpcs.new;
  clients = [];
  clients_to_drop = [];
  next_client_id = 1;
  device = none;
  device_timeout = 0;
  only_new_client = notify_new_client_only;
  events = [];
  delivered = [];
}

-- What a client's channel is given of a packet: `ProxyClient::send` with its channel left open.
unfoldable pub offered : ProxyClient → Packet → Option Packet
offered client packet = elim (Client.send client err packet) [
  | ok passed ↦ none
  | err given ↦ some given
]

-- The error of each cancelled RPC goes to its client, if it is still there. The clients that did
-- not take it are to be dropped.
unfoldable pub cancelled_event : RpcErrorCode → ℕ → Event
cancelled_event error rpc_id = elim error [ timeout ↦ rpc_timeout rpc_id | _ ↦ rpc_cancel rpc_id ]

-- The negotiation starts only for a port with rates that differ.
unfoldable pub first_state : Option RateInfo → RateChange
first_state none = do_nothing
first_state (some rates) =
    if rates.target_bps == rates.default_bps then do_nothing else waiting_for_session

unfoldable pub setup_device : ProxyCore → ℕ → Option (Option RateInfo) → ProxyCore × Bool
unfolding first_state
setup_device p now none = (p, false)
setup_device p now (some rates) = (
  record p {
    device = some (record {
      rate_info = rates;
      rate_change_state = first_state rates;
      last_rx = now;
      last_session = none;
      restarted = false;
    });
  },
  true,
)

unfoldable pub drop_clients : List ℕ → List (ℕ × ProxyClient) → List (ℕ × ProxyClient)
drop_clients [] clients = clients
drop_clients (client_id ∷ ids) clients = drop_clients ids (remove client_id clients)

module _ (o : Outside) where
  unfoldable pub send_event : ProxyCore → Event → Result ProxyCore Halt
  unfolding is_new_client
  send_event p event =
      if is_new_client event || not p.only_new_client
      then (if o.status event
          then ok (record p { events = p.events ++ (event ∷ []) })
          else err panicked)
      else ok p

  unfoldable pub send_events : ProxyCore → List Event → Result ProxyCore Halt
  unfolding send_event
  send_events p [] = ok p
  send_events p (e ∷ events) = do p ← send_event p e; send_events p events

  unfoldable pub drop_client : ProxyCore → ℕ → Result ProxyCore Halt
  unfolding send_event
  drop_client p client_id =
      if member client_id p.clients_to_drop
      then ok p
      else send_event (record p { clients_to_drop = set_insert client_id p.clients_to_drop })
          (client_terminated client_id)

  unfoldable pub drop_all : ProxyCore → List ℕ → Result ProxyCore Halt
  unfolding drop_client
  drop_all p [] = ok p
  drop_all p (client_id ∷ ids) = do p ← drop_client p client_id; drop_all p ids

  -- With whether the send failed.
  unfoldable pub put_into : ProxyCore → ℕ → Option Packet → ProxyCore × Bool
  put_into p client_id none = (p, false)
  put_into p client_id (some given) =
      if o.tx client_id given
      then (record p { delivered = p.delivered ++ ((client_id, given) ∷ []) }, false)
      else (p, true)

  unfoldable pub client_send : ProxyCore → ℕ → ProxyClient → Packet → ProxyCore × Bool
  unfolding offered put_into
  client_send p client_id client packet = put_into p client_id (offered client packet)

  unfoldable pub answer_cancelled :
      ProxyCore → RpcErrorCode → RpcMapEntry → Option ProxyClient → ProxyCore × List ℕ
  unfolding client_send
  answer_cancelled p error remap none = (p, [])
  answer_cancelled p error remap (some client) =
      let (p', failed) = client_send p remap.client client (error_packet error remap) in
      (p', if failed then remap.client ∷ [] else [])

  unfoldable pub answer_all : ProxyCore → RpcErrorCode → RpcMap → Result (ProxyCore × List ℕ) Halt
  unfolding answer_cancelled send_event cancelled_event
  answer_all p error [] = ok (p, [])
  answer_all p error ((rpc_id, remap) ∷ cancelled) = do
    p ← send_event p (cancelled_event error rpc_id)
    let (p, to_drop) = answer_cancelled p error remap (lookup remap.client p.clients)
    (p, more) ← answer_all p error cancelled
    ok (p, to_drop ++ more)

  unfoldable pub cancel_rpcs : ProxyCore → RpcErrorCode → Option ℕ → Result ProxyCore Halt
  unfolding answer_all drop_all
  cancel_rpcs p error until = elim (dispatch_rpc_errors until p.rpcs) [
    | none ↦ err panicked
    | some (cancelled, rpcs) ↦ (do
      (p, to_drop) ← answer_all (record p { rpcs = rpcs }) error cancelled
      drop_all p to_drop)
  ]

  abbrev pub cancel_active_rpcs : ProxyCore → Result ProxyCore Halt
  cancel_active_rpcs p = cancel_rpcs p undefined none

  unfoldable pub try_setup_device : ProxyCore → ℕ → ProxyCore × Bool
  unfolding setup_device
  try_setup_device p now = elim p.device [
    | some d ↦ (p, true)
    | none ↦ setup_device p now o.connect
  ]
