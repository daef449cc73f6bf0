-- ===== src/Proxy/Core/Clients.antt =====
-- What events, sends and cancelled RPCs leave of the proxy: its clients and its device.
pub mod Device
pub mod Rounds
pub mod Numbered
pub mod Run
use twinleaf_rust.Shared.{
  ℕ, suc, ◌≡◌, refl, Bool, true, false, not, ◌&&◌, ◌||◌, List, [], ◌∷◌, ◌++◌, ◌==◌, if◌then◌else◌,
  Bool-cases, Result, ok, err, ◌>>=◌, Option, some, none, inl, inr, lookup, remove, insert, member,
  set_insert, length,
}
use twinleaf_rust.Port.Errors.{RecvError, not_ready, disconnected, protocol, io}
use twinleaf_rust.Port.Serial.{RateInfo}
use twinleaf_rust.Proto.Packet.{Packet}
use twinleaf_rust.Proto.Payload.{Payload, rpc_request, rpc_reply, rpc_error}
use twinleaf_rust.Proto.Rpc.ErrorCode.{RpcErrorCode}
use twinleaf_rust.Proto.Rpc.Reply.{RpcReplyPayload}
use twinleaf_rust.Proxy.Client.{ProxyClient}
use twinleaf_rust.Proxy.Core.{
  ProxyCore, Outside, Halt, panicked, finished, send_event, send_events, drop_client, drop_all,
  put_into, client_send, offered, answer_cancelled, cancelled_event, answer_all, cancel_rpcs,
  setup_device, try_setup_device,
}
use twinleaf_rust.Proxy.Core.Handlers.{
  wire_id_of, with_id, internal_error, heard, restarts, has_static_rate, wait_for, internal_reply,
  internal_answered, after_send, answer_client, answered, broadcast_loop, broadcast, on_packet,
  try_recv, on_found, on_device,
}
use twinleaf_rust.Proxy.Event.{
  Event, is_new_client, client_terminated, client_send_failed, rpc_restored, rpc_client_not_found,
  rpc_restore_not_found, root_device_restarted, protocol_error, fatal_error, sensor_disconnected,
}
use twinleaf_rust.Proxy.Rates.{
  ProxyDevice, internal_rpc_reply, internal_rpc_error, query_rate_rpc_id, set_rate_rpc_id,
}
use twinleaf_rust.Proxy.Rpcs.{Rpcs, RpcMapEntry, rpc_restore}
use twinleaf_rust.Proxy.Rpcs.Dispatch.{RpcMap, dispatch_rpc_errors, error_packet}

-- What holds of a result, if there is one.
abbrev pub Holds : {A : Type 0} → (A → Type 0) → Result A Halt → Type 0
Holds Q (ok a) = Q a
Holds Q (err e) = Unit

pub Holds-bind :
    {A B : Type 0} (Q : A → Type 0) (R : B → Type 0) (r : Result A Halt) (k : A → Result B Halt)
    → Holds Q r
    → ((a : A) → Q a → Holds R (k a))
    → Holds R (r >>= k)
Holds-bind Q R (ok a) k h next = next a h
Holds-bind Q R (err e) k h next = tt

pub if-Holds :
    {A : Type 0} (Q : A → Type 0) (c : Bool) (a b : Result A Halt)
    → Holds Q a
    → Holds Q b
    → Holds Q (if c then a else b)
if-Holds Q true a b h k = h
if-Holds Q false a b h k = k

abbrev pub Only :
    (List (ℕ × ProxyClient) → ℕ → Type 0) → List (ℕ × ProxyClient) → ℕ → Option ProxyDevice → Type 0
Only I clients next device = I clients next

module _ (o : Outside) (I : List (ℕ × ProxyClient) → ℕ → Option ProxyDevice → Type 0) where
  -- What holds of the clients, the next id and the device.
  abbrev pub Has : ProxyCore → Type 0
  Has p = I p.clients p.next_client_id p.device

  abbrev pub HasWith : {B : Type 0} → ProxyCore × B → Type 0
  HasWith x = Has x.0

  pub send_event-Has : (p : ProxyCore) (e : Event) → Has p → Holds Has (send_event o p e)
  unfolding send_event
  send_event-Has p e h =
      if-Holds Has (is_new_client e || not p.only_new_client)
        (if o.status e then ok (record p { events = p.events ++ (e ∷ []) }) else err panicked)
        (ok p)
        (if-Holds Has (o.status e) (ok (record p { events = p.events ++ (e ∷ []) })) (err panicked)
          h tt)
        h

  pub send_events-Has :
      (p : ProxyCore) (events : List Event) → Has p → Holds Has (send_events o p events)
  unfolding send_events
  send_events-Has p [] h = h
  send_events-Has p (e ∷ events) h =
      Holds-bind Has Has (send_event o p e) (λ q. send_events o q events) (send_event-Has p e h)
        (λ q k. send_events-Has q events k)

  pub drop_client-Has : (p : ProxyCore) (id : ℕ) → Has p → Holds Has (drop_client o p id)
  unfolding drop_client
  drop_client-Has p id h =
      let q = record p { clients_to_drop = set_insert id p.clients_to_drop } in
      if-Holds Has (member id p.clients_to_drop) (ok p) (send_event o q (client_terminated id)) h
        (send_event-Has q (client_terminated id) h)

  drop_all-Has : (p : ProxyCore) (ids : List ℕ) → Has p → Holds Has (drop_all o p ids)
  unfolding drop_all
  drop_all-Has p [] h = h
  drop_all-Has p (id ∷ ids) h =
      Holds-bind Has Has (drop_client o p id) (λ q. drop_all o q ids) (drop_client-Has p id h)
        (λ q k. drop_all-Has q ids k)

  put_into-Has :
      (p : ProxyCore) (id : ℕ) (given : Option Packet) → Has p → Has (put_into o p id given).0
  unfolding put_into
  put_into-Has p id none h = h
  put_into-Has p id (some given) h = elim (Bool-cases (o.tx id given)) [
    | inl takes ↦ rw takes h
    | inr full ↦ rw full h
  ]

  pub client_send-Has :
      (p : ProxyCore) (id : ℕ) (client : ProxyClient) (packet : Packet)
      → Has p
      → Has (client_send o p id client packet).0
  unfolding client_send
  client_send-Has p id client packet h = put_into-Has p id (offered client packet) h

  answer_cancelled-Has :
      (p : ProxyCore) (error : RpcErrorCode) (remap : RpcMapEntry) (client : Option ProxyClient)
      → Has p
      → Has (answer_cancelled o p error remap client).0
  unfolding answer_cancelled
  answer_cancelled-Has p error remap none h = h
  answer_cancelled-Has p error remap (some client) h =
      client_send-Has p remap.client client (error_packet error remap) h

  answer_all-Has :
      (p : ProxyCore) (error : RpcErrorCode) (cancelled : RpcMap)
      → Has p
      → Holds HasWith (answer_all o p error cancelled)
  unfolding answer_all
  answer_all-Has p error [] h = h
  answer_all-Has p error ((rpc_id, remap) ∷ cancelled) h =
      Holds-bind Has HasWith (send_event o p (cancelled_event error rpc_id))
        (λ p. do
          let (p, to_drop) = answer_cancelled o p error remap (lookup remap.client p.clients)
          (p, more) ← answer_all o p error cancelled
          ok (p, to_drop ++ more))
        (send_event-Has p (cancelled_event error rpc_id) h)
        (λ q k.
          let (s, to_drop) = answer_cancelled o q error remap (lookup remap.client q.clients) in
          Holds-bind HasWith HasWith (answer_all o s error cancelled)
            (λ x. ok (x.0, to_drop ++ x.1))
            (answer_all-Has s error cancelled
              (answer_cancelled-Has q error remap (lookup remap.client q.clients) k))
            (λ x m. m))

  cancelled_rest :
      (p : ProxyCore) (error : RpcErrorCode) (found : Option (RpcMap × Rpcs))
      → Has p
      → Holds Has (elim found [
        | none ↦ err panicked
        | some (cancelled, rpcs) ↦ (do
          (p, to_drop) ← answer_all o (record p { rpcs = rpcs }) error cancelled
          drop_all o p to_drop)
      ])
  cancelled_rest p error none h = tt
  cancelled_rest p error (some (cancelled, rpcs)) h =
      Holds-bind HasWith Has (answer_all o (record p { rpcs = rpcs }) error cancelled)
        (λ x. drop_all o x.0 x.1) (answer_all-Has (record p { rpcs = rpcs }) error cancelled h)
        (λ x k. drop_all-Has x.0 x.1 k)

  pub cancel_rpcs-Has :
      (p : ProxyCore) (error : RpcErrorCode) (until : Option ℕ)
      → Has p
      → Holds Has (cancel_rpcs o p error until)
  unfolding cancel_rpcs
  cancel_rpcs-Has p error until h = cancelled_rest p error (dispatch_rpc_errors until p.rpcs) h
