-- ===== src/Proxy/Core/Clients/Device.antt =====
-- What the device's packets leave of the clients of the proxy.
use twinleaf_rust.Shared.{
  ℕ, Bool, true, false, ◌||◌, List, [], ◌∷◌, ◌==◌, if◌then◌else◌, Option-cases, ◌+◌, Result, ok,
  err, ◌>>=◌, Option, some, none, inl, inr, lookup,
}
use twinleaf_rust.Port.Errors.{RecvError, not_ready, disconnected, protocol, io}
use twinleaf_rust.Proto.Packet.{Packet}
use twinleaf_rust.Proto.Payload.{Payload, rpc_reply, rpc_error}
use twinleaf_rust.Proto.Rpc.Reply.{RpcReplyPayload}
use twinleaf_rust.Proxy.Client.{ProxyClient}
use twinleaf_rust.Proxy.Core.{
  ProxyCore, Outside, Halt, panicked, finished, send_event, drop_client, drop_all, client_send,
}
use twinleaf_rust.Proxy.Core.Handlers.{
  wire_id_of, with_id, internal_error, given_up, heard, restarts, has_static_rate, wait_for,
  internal_reply, internal_answered, after_send, answer_client, answered, broadcast_loop, broadcast,
  on_packet, try_recv, on_found, on_device,
}
use twinleaf_rust.Proxy.Event.{
  client_send_failed, rpc_restored, rpc_client_not_found, rpc_restore_not_found,
  root_device_restarted, protocol_error, fatal_error, sensor_disconnected,
}
use twinleaf_rust.Proxy.Rates.{ProxyDevice, internal_rpc_reply, query_rate_rpc_id, set_rate_rpc_id}
use twinleaf_rust.Proxy.Rpcs.{rpc_restore}
use twinleaf_rust.Proto.Rpc.ErrorReply.{RpcErrorPayload}
use twinleaf_rust.Proxy.Rates.Events.{reply_events, error_events}
use twinleaf_rust.Proxy.Core.{send_events}
use twinleaf_rust.Proxy.Core.Clients.{
  send_events-Has, Only, Holds, Holds-bind, if-Holds, Has, HasWith, send_event-Has, drop_client-Has,
  drop_all-Has, client_send-Has,
}

always : {A : Type 0} (r : Result A Halt) → Holds (λ a. Unit) r
always (ok a) = tt
always (err e) = tt

module _ (o : Outside) (I : List (ℕ × ProxyClient) → ℕ → Type 0) where
  replied-Has :
      (p : ProxyCore) (replied : Option ProxyDevice)
      → Has o (Only I) p
      → Holds
          (Has o (Only I))
          (elim replied [ none ↦ err panicked | some d' ↦ ok (record p { device = some d' }) ])
  replied-Has p none h = tt
  replied-Has p (some d') h = h

  internal_reply-Has :
      (p : ProxyCore) (d : Option ProxyDevice) (rep : RpcReplyPayload)
      → Has o (Only I) p
      → Holds (Has o (Only I)) (internal_reply o p d rep)
  unfolding internal_reply
  internal_reply-Has p none rep h =
      if-Holds (Has o (Only I)) (rep.id == query_rate_rpc_id || rep.id == set_rate_rpc_id) (ok p)
        (err panicked) h tt
  internal_reply-Has p (some d) rep h =
      Holds-bind (Has o (Only I)) (Has o (Only I))
        (send_events o p (reply_events o.too_far o.target_accepted d rep))
        (λ q. elim (internal_rpc_reply o.too_far o.target_accepted d rep) [
          | none ↦ err panicked
          | some d' ↦ ok (record q { device = some d' })
        ])
        (send_events-Has o (Only I) p (reply_events o.too_far o.target_accepted d rep) h)
        (λ q k. replied-Has q (internal_rpc_reply o.too_far o.target_accepted d rep) k)

  internal_error-Has :
      (p : ProxyCore) (e : RpcErrorPayload)
      → Has o (Only I) p
      → Holds (Has o (Only I)) (internal_error o p e)
  unfolding internal_error
  internal_error-Has p e h =
      Holds-bind (Has o (Only I)) (Has o (Only I)) (send_events o p (error_events e p.device))
        (λ q. ok (record q { device = given_up p.device }))
        (send_events-Has o (Only I) p (error_events e p.device) h) (λ q k. k)

  internal_answered-Has :
      (p : ProxyCore) (payload : Payload)
      → Has o (Only I) p
      → Holds (Has o (Only I)) (internal_answered o p payload)
  unfolding internal_answered
  internal_answered-Has p payload h =
      elim payload as (λ k. Holds (Has o (Only I)) (internal_answered o p k)) [
        | rpc_reply rep ↦ internal_reply-Has p p.device rep h
        | rpc_error e ↦ internal_error-Has p e h
        | _ ↦ tt
      ]

  pub after_send-Has :
      (x : ProxyCore × Bool) (id : ℕ)
      → HasWith o (Only I) x
      → Holds (Has o (Only I)) (after_send o x id)
  unfolding after_send
  after_send-Has (p, false) id h = h
  after_send-Has (p, true) id h =
      Holds-bind (Has o (Only I)) (Has o (Only I)) (send_event o p (client_send_failed id))
        (λ q. drop_client o q id) (send_event-Has o (Only I) p (client_send_failed id) h)
        (λ q k. drop_client-Has o (Only I) q id k)

  answer_client-Has :
      (p : ProxyCore) (packet : Packet) (wire_id client_id rpc_id : ℕ) (client : Option ProxyClient)
      → Has o (Only I) p
      → Holds (Has o (Only I)) (answer_client o p packet wire_id (client_id, rpc_id) client)
  unfolding answer_client
  answer_client-Has p packet wire_id client_id rpc_id none h =
      send_event-Has o (Only I) p (rpc_client_not_found client_id) h
  answer_client-Has p packet wire_id client_id rpc_id (some client) h =
      Holds-bind (Has o (Only I)) (Has o (Only I))
        (send_event o p (rpc_restored wire_id (client_id, rpc_id)))
        (λ q. after_send o (client_send o q client_id client packet) client_id)
        (send_event-Has o (Only I) p (rpc_restored wire_id (client_id, rpc_id)) h)
        (λ q k.
          after_send-Has (client_send o q client_id client packet) client_id
            (client_send-Has o (Only I) q client_id client packet k))

  answered-Has :
      (p : ProxyCore) (packet : Packet) (wire_id : ℕ) (found : Option (ℕ × ℕ))
      → Has o (Only I) p
      → Holds (Has o (Only I)) (answered o p packet wire_id found)
  unfolding answered
  answered-Has p packet wire_id none h =
      send_event-Has o (Only I) p (rpc_restore_not_found wire_id) h
  answered-Has p packet wire_id (some (client_id, rpc_id)) h =
      let answer = record packet { payload = with_id rpc_id packet.payload } in
      if-Holds (Has o (Only I)) (client_id == 0) (internal_answered o p answer.payload)
        (answer_client o p answer wire_id (client_id, rpc_id) (lookup client_id p.clients))
        (internal_answered-Has p answer.payload h)
        (answer_client-Has p answer wire_id client_id rpc_id (lookup client_id p.clients) h)

  broadcast_step-Has :
      (p : ProxyCore) (failed : Bool) (packet : Packet) (id : ℕ) (clients : List (ℕ × ProxyClient))
      → Has o (Only I) p
      → ((q : ProxyCore)
          → Has o (Only I) q
          → Holds (HasWith o (Only I)) (broadcast_loop o q packet clients))
      → Holds (HasWith o (Only I)) (elim failed [
        | false ↦ broadcast_loop o p packet clients
        | true ↦ (do
          q ← send_event o p (client_send_failed id)
          (r, to_drop) ← broadcast_loop o q packet clients
          ok (r, id ∷ to_drop))
      ])
  broadcast_step-Has p false packet id clients h next = next p h
  broadcast_step-Has p true packet id clients h next =
      Holds-bind (Has o (Only I)) (HasWith o (Only I)) (send_event o p (client_send_failed id))
        (λ q. broadcast_loop o q packet clients >>= λ x. ok (x.0, id ∷ x.1))
        (send_event-Has o (Only I) p (client_send_failed id) h)
        (λ q k.
          Holds-bind (HasWith o (Only I)) (HasWith o (Only I)) (broadcast_loop o q packet clients)
            (λ x. ok (x.0, id ∷ x.1)) (next q k) (λ x m. m))

  broadcast_loop-Has :
      (p : ProxyCore) (packet : Packet) (clients : List (ℕ × ProxyClient))
      → Has o (Only I) p
      → Holds (HasWith o (Only I)) (broadcast_loop o p packet clients)
  unfolding broadcast_loop
  broadcast_loop-Has p packet [] h = h
  broadcast_loop-Has p packet ((id, client) ∷ clients) h =
      let (q, failed) = client_send o p id client packet in
      broadcast_step-Has q failed packet id clients
        (client_send-Has o (Only I) p id client packet h)
        (λ r k. broadcast_loop-Has r packet clients k)

  broadcast-Has :
      (p : ProxyCore) (packet : Packet)
      → Has o (Only I) p
      → Holds (Has o (Only I)) (broadcast o p packet)
  unfolding broadcast
  broadcast-Has p packet h =
      Holds-bind (HasWith o (Only I)) (Has o (Only I)) (broadcast_loop o p packet p.clients)
        (λ x. drop_all o x.0 x.1) (broadcast_loop-Has p packet p.clients h)
        (λ x k. drop_all-Has o (Only I) x.0 x.1 k)

  on_packet-Has :
      (p : ProxyCore) (packet : Packet)
      → Has o (Only I) p
      → Holds (Has o (Only I)) (on_packet o p packet)
  unfolding on_packet
  on_packet-Has p packet h = elim (Option-cases (wire_id_of packet.payload)) [
    | inr (wire_id, e) ↦
        rw (e, on_packet)
          (let (rpcs, found) = rpc_restore p.rpcs wire_id packet.routing in
            answered-Has (record p { rpcs = rpcs }) packet wire_id found h)
    | inl e ↦ rw (e, on_packet) (broadcast-Has p packet h)
  ]

  try_recv-Has :
      (p : ProxyCore) (d : ProxyDevice) (now : ℕ) (found : Result Packet RecvError)
      → Has o (Only I) p
      → Holds (Has o (Only I)) (try_recv o p d now found)
  unfolding try_recv
  try_recv-Has p d now found h =
      let q = record p { device = some (heard d now found) } in
      if-Holds (Has o (Only I)) (has_static_rate d.rate_change_state) (ok p)
        (if restarts d found then send_event o q root_device_restarted else ok q) h
        (if-Holds (Has o (Only I)) (restarts d found) (send_event o q root_device_restarted) (ok q)
          (send_event-Has o (Only I) q root_device_restarted h) h)

  fatal-Has :
      (p : ProxyCore) (e : RecvError)
      → Holds (Has o (Only I)) (send_event o p (fatal_error e) >>= λ q. err finished)
  fatal-Has p e =
      Holds-bind (λ q. Unit) (Has o (Only I)) (send_event o p (fatal_error e)) (λ q. err finished)
        (always (send_event o p (fatal_error e))) (λ q k. tt)

  on_found-Has :
      (p : ProxyCore) (found : Result Packet RecvError)
      → Has o (Only I) p
      → Holds (Has o (Only I)) (on_found o p found)
  unfolding on_found
  on_found-Has p (ok packet) h = on_packet-Has p packet h
  on_found-Has p (err not_ready) h = fatal-Has p not_ready
  on_found-Has p (err disconnected) h = fatal-Has p disconnected
  on_found-Has p (err (protocol e)) h = send_event-Has o (Only I) p (protocol_error e) h
  on_found-Has p (err (io e)) h = fatal-Has p (io e)

  device_step-Has :
      (p : ProxyCore) (now : ℕ) (found : Result Packet RecvError)
      (k : ProxyCore → Result ProxyCore Halt) (device : Option ProxyDevice)
      → Has o (Only I) p
      → ((q : ProxyCore) → Has o (Only I) q → Holds (Has o (Only I)) (k q))
      → Holds (Has o (Only I)) (elim device [
        | none ↦ ok p
        | some d ↦ (do p ← try_recv o p d now found; p ← on_found o p found; k p)
      ])
  device_step-Has p now found k none h next = h
  device_step-Has p now found k (some d) h next =
      Holds-bind (Has o (Only I)) (Has o (Only I)) (try_recv o p d now found)
        (λ q. on_found o q found >>= k) (try_recv-Has p d now found h)
        (λ q m.
          Holds-bind (Has o (Only I)) (Has o (Only I)) (on_found o q found) k
            (on_found-Has q found m) next)

  pub on_device-Has :
      (p : ProxyCore) (now : ℕ) (arrivals : List (Result Packet RecvError)) (gone : Bool)
      → Has o (Only I) p
      → Holds (Has o (Only I)) (on_device o p now arrivals gone)
  unfolding on_device
  on_device-Has p now [] false h = h
  on_device-Has p now [] true h = elim (Option-cases p.device) [
    | inr (d, e) ↦ rw e (
        send_event-Has o (Only I)
          (record p { device = none; device_timeout = now + wait_for o.reconnect_timeout })
          sensor_disconnected h)
    | inl e ↦ rw e h
  ]
  on_device-Has p now (found ∷ later) gone h =
      device_step-Has p now found (λ r. on_device o r now later gone) p.device h
        (λ r m. on_device-Has r now later gone m)
