-- ===== src/Proxy/Core/Clients/Rounds.antt =====
-- The clients of the proxy over the rounds of its main loop.
use twinleaf_rust.Shared.{
  ℕ, Bool, true, false, List, [], ◌∷◌, ◌++◌, if◌then◌else◌, Result, ok, err, ◌>>=◌, Option, some,
  none, lookup,
}
use twinleaf_rust.Port.Serial.{RateInfo}
use twinleaf_rust.Proto.Packet.{Packet}
use twinleaf_rust.Proto.Payload.{Payload, rpc_request}
use twinleaf_rust.Proxy.Client.{ProxyClient}
use twinleaf_rust.Proxy.Core.{
  ProxyCore, Outside, Halt, panicked, finished, send_event, drop_client, client_send, cancel_rpcs,
  setup_device, try_setup_device,
}
use twinleaf_rust.Proxy.Core.Handlers.{after_send}
use twinleaf_rust.Proxy.Rates.{ProxyDevice}
use twinleaf_rust.Shared.{ltb}
use twinleaf_rust.Proto.Rpc.ErrorCode.{undefined}
use twinleaf_rust.Proxy.Core.Rounds.{
  remap_event, device_port, forwarded, received_from, forward_all, send_back, on_client, reconnect,
}
use twinleaf_rust.Proxy.Event.{rpc_remap, sensor_reconnected, failed_to_reconnect}
use twinleaf_rust.Proxy.Rpcs.{Forwarded, forward_to_device, is_some}
use twinleaf_rust.Proxy.Core.Clients.{
  Only, Holds, Holds-bind, if-Holds, Has, HasWith, send_event-Has, drop_client-Has, client_send-Has,
  cancel_rpcs-Has,
}
use twinleaf_rust.Proxy.Core.Clients.Device.{after_send-Has}

module _ (o : Outside) (I : List (ℕ × ProxyClient) → ℕ → Type 0) where
  remap_event-Has :
      (p : ProxyCore) (id : ℕ) (payload : Payload)
      → Has o (Only I) p
      → Holds (Has o (Only I)) (remap_event o p id payload)
  unfolding remap_event
  remap_event-Has p id payload h =
      elim payload as (λ k. Holds (Has o (Only I)) (remap_event o p id k)) [
        | rpc_request req ↦
            if-Holds (Has o (Only I)) (is_some (lookup p.rpcs.next_rpc_id p.rpcs.rpc_map)) (ok p)
              (send_event o p (rpc_remap (id, req.id) p.rpcs.next_rpc_id)) h
              (send_event-Has o (Only I) p (rpc_remap (id, req.id) p.rpcs.next_rpc_id) h)
        | _ ↦ h
      ]

  forwarded-Has :
      (p : ProxyCore) (f : Option Forwarded)
      → Has o (Only I) p
      → Holds (HasWith o (Only I)) (forwarded p f)
  unfolding forwarded
  forwarded-Has p none h = tt
  forwarded-Has p (some f) h = h

  forward_all-Has :
      (p : ProxyCore) (now id : ℕ) (packets : List Packet)
      → Has o (Only I) p
      → Holds (HasWith o (Only I)) (forward_all o p now id packets)
  unfolding forward_all
  forward_all-Has p now id [] h = h
  forward_all-Has p now id (packet ∷ packets) h =
      let given : ProxyCore → Option Forwarded = λ q.
        forward_to_device (λ k. lookup k q.clients) (device_port o q.device) now q.rpcs packet id in
      let rest : ProxyCore × List Packet → Result (ProxyCore × List Packet) Halt =
        λ x. forward_all o x.0 now id packets >>= λ y. ok (y.0, x.1 ++ y.1) in
      Holds-bind (Has o (Only I)) (HasWith o (Only I)) (remap_event o p id packet.payload)
        (λ q. forwarded q (given q) >>= rest) (remap_event-Has p id packet.payload h)
        (λ q k.
          Holds-bind (HasWith o (Only I)) (HasWith o (Only I)) (forwarded q (given q)) rest
            (forwarded-Has q (given q) k)
            (λ x m.
              Holds-bind (HasWith o (Only I)) (HasWith o (Only I))
                (forward_all o x.0 now id packets) (λ y. ok (y.0, x.1 ++ y.1))
                (forward_all-Has x.0 now id packets m) (λ y n. n)))

  send_back_step-Has :
      (p : ProxyCore) (failed : Bool) (id : ℕ) (client : ProxyClient) (packets : List Packet)
      → Has o (Only I) p
      → ((q : ProxyCore)
          → Has o (Only I) q
          → Holds (Has o (Only I)) (send_back o q id client packets))
      → Holds (Has o (Only I)) (elim failed [
        | true ↦ after_send o (p, true) id
        | false ↦ send_back o p id client packets
      ])
  send_back_step-Has p true id client packets h next = after_send-Has o I (p, true) id h
  send_back_step-Has p false id client packets h next = next p h

  send_back-Has :
      (p : ProxyCore) (id : ℕ) (client : ProxyClient) (packets : List Packet)
      → Has o (Only I) p
      → Holds (Has o (Only I)) (send_back o p id client packets)
  unfolding send_back
  send_back-Has p id client [] h = h
  send_back-Has p id client (packet ∷ packets) h =
      let (q, failed) = client_send o p id client packet in
      send_back_step-Has q failed id client packets
        (client_send-Has o (Only I) p id client packet h)
        (λ r k. send_back-Has r id client packets k)

  known_client-Has :
      (p : ProxyCore) (now id : ℕ) (packets : List Packet) (gone : Bool)
      (client : Option ProxyClient)
      → Has o (Only I) p
      → Holds (Has o (Only I)) (elim client [
        | none ↦ err panicked
        | some client ↦ (do
          p ← if gone then drop_client o p id else ok p
          (p, errors) ← forward_all o p now id (received_from client packets)
          send_back o p id client errors)
      ])
  known_client-Has p now id packets gone none h = tt
  known_client-Has p now id packets gone (some client) h =
      let rest : ProxyCore × List Packet → Result ProxyCore Halt =
        λ x. send_back o x.0 id client x.1 in
      Holds-bind (Has o (Only I)) (Has o (Only I)) (if gone then drop_client o p id else ok p)
        (λ q. forward_all o q now id (received_from client packets) >>= rest)
        (if-Holds (Has o (Only I)) gone (drop_client o p id) (ok p)
          (drop_client-Has o (Only I) p id h) h)
        (λ q k.
          Holds-bind (HasWith o (Only I)) (Has o (Only I))
            (forward_all o q now id (received_from client packets)) rest
            (forward_all-Has q now id (received_from client packets) k)
            (λ x m. send_back-Has x.0 id client x.1 m))

  pub on_client-Has :
      (p : ProxyCore) (now id : ℕ) (packets : List Packet) (gone : Bool)
      → Has o (Only I) p
      → Holds (Has o (Only I)) (on_client o p now id packets gone)
  unfolding on_client
  on_client-Has p now id packets gone h =
      known_client-Has p now id packets gone (lookup id p.clients) h

  setup_device-Has :
      (p : ProxyCore) (now : ℕ) (rates : Option (Option RateInfo))
      → Has o (Only I) p
      → Has o (Only I) (setup_device p now rates).0
  unfolding setup_device
  setup_device-Has p now none h = h
  setup_device-Has p now (some rates) h = h

  tried_device-Has :
      (p : ProxyCore) (now : ℕ) (device : Option ProxyDevice)
      → Has o (Only I) p
      → let x : ProxyCore × Bool = elim device [
        | some d ↦ (p, true)
        | none ↦ setup_device p now o.connect
      ] in
        Has o (Only I) x.0
  tried_device-Has p now none h = setup_device-Has p now o.connect h
  tried_device-Has p now (some d) h = h

  pub try_setup_device-Has :
      (p : ProxyCore) (now : ℕ) → Has o (Only I) p → Has o (Only I) (try_setup_device o p now).0
  unfolding try_setup_device
  try_setup_device-Has p now h = tried_device-Has p now p.device h

  pub ended-Has : (r : Result ProxyCore Halt) → Holds (Has o (Only I)) (r >>= λ q. err finished)
  ended-Has (ok q) = tt
  ended-Has (err e) = tt

  pub reconnect-Has :
      (p : ProxyCore) (now : ℕ) → Has o (Only I) p → Holds (Has o (Only I)) (reconnect o p now)
  unfolding reconnect
  reconnect-Has p now h =
      let next : ProxyCore × Bool → Result ProxyCore Halt = λ x.
        if x.1
        then send_event o x.0 sensor_reconnected
        else if ltb x.0.device_timeout now
        then (send_event o x.0 failed_to_reconnect >>= λ q. err finished)
        else ok x.0 in
      Holds-bind (Has o (Only I)) (Has o (Only I)) (cancel_rpcs o p undefined none)
        (λ q. next (try_setup_device o q now)) (cancel_rpcs-Has o (Only I) p undefined none h)
        (λ q k.
          let x = try_setup_device o q now in
          let m = try_setup_device-Has q now k in
          if-Holds (Has o (Only I)) x.1 (send_event o x.0 sensor_reconnected)
            (if ltb x.0.device_timeout now
              then (send_event o x.0 failed_to_reconnect >>= λ q. err finished)
              else ok x.0)
            (send_event-Has o (Only I) x.0 sensor_reconnected m)
            (if-Holds (Has o (Only I)) (ltb x.0.device_timeout now)
              (send_event o x.0 failed_to_reconnect >>= λ q. err finished) (ok x.0)
              (ended-Has (send_event o x.0 failed_to_reconnect)) m))
