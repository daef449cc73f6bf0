-- ===== src/Proxy/Core/Clients/Run.antt =====
-- The numbers of clients over a whole run of the proxy.
use twinleaf_rust.Shared.{
  ℕ, ◌≡◌, Bool, false, List, [], ◌∷◌, if◌then◌else◌, Result, ok, err, ◌>>=◌, Option, some, none,
  inl, inr, lookup,
}
use twinleaf_rust.Proxy.Client.{ProxyClient}
use twinleaf_rust.Proxy.Core.{
  ProxyCore, Outside, Halt, panicked, finished, send_event, cancel_rpcs, try_setup_device,
}
use twinleaf_rust.Proxy.Rates.{ProxyDevice}
use twinleaf_rust.Proxy.Rpcs.{Rpcs}
use twinleaf_rust.Shared.{◌<◌, arith, subst, Option-cases}
use twinleaf_rust.Proto.Rpc.ErrorCode.{timeout, undefined}
use twinleaf_rust.Proxy.Core.{drop_clients, new}
use twinleaf_rust.Proxy.Core.Rounds.{
  Ready, reads_clients, process_rpc_timeouts, reconnect, negotiate, with_device, before_select,
  on_ready, round, main_loop, connect_first, run,
}
use twinleaf_rust.Proxy.Event.{sensor_connected, failed_to_connect}
use twinleaf_rust.Proxy.Rates.{autonegotiation, needs_autonegotiation}
use twinleaf_rust.Proxy.Rates.Events.{autonegotiation_events}
use twinleaf_rust.Proxy.Core.{send_events}
use twinleaf_rust.Proxy.Core.Clients.{
  send_events-Has, Only, Holds, Holds-bind, if-Holds, HasWith, send_event-Has, cancel_rpcs-Has,
}
use twinleaf_rust.Proxy.Core.Clients.Rounds.{try_setup_device-Has, reconnect-Has, ended-Has}
use twinleaf_rust.Proxy.Core.Clients.Numbered.{
  IsNumbered, HasNumbers, on_ready-HasNumbers, new-HasNumbers, drop_clients-IsNumbered,
}

module _ (o : Outside) where
  negotiated :
      (p : ProxyCore) (found : Option (ProxyDevice × Rpcs))
      → HasNumbers o p
      → Holds (HasNumbers o) (elim found [
        | none ↦ err panicked
        | some (d', rpcs) ↦ ok (record p { device = some d'; rpcs = rpcs })
      ])
  negotiated p none h = tt
  negotiated p (some (d', rpcs)) h = h

  negotiate-HasNumbers :
      (p : ProxyCore) (now : ℕ) (d : ProxyDevice)
      → HasNumbers o p
      → Holds (HasNumbers o) (negotiate o p now d)
  unfolding negotiate
  negotiate-HasNumbers p now d h =
      let events = autonegotiation_events o.port now d p.rpcs in
      let next : ProxyCore → Result ProxyCore Halt = λ q.
        elim (autonegotiation o.port now o.reset_accepted d q.rpcs) [
          | none ↦ err panicked
          | some (d', rpcs) ↦ ok (record q { device = some d'; rpcs = rpcs })
        ] in
      if-Holds (HasNumbers o) (needs_autonegotiation d.rate_change_state)
        (send_events o p events >>= next) (ok (record p { device = some d }))
        (Holds-bind (HasNumbers o) (HasNumbers o) (send_events o p events) next
          (send_events-Has o (Only (IsNumbered o)) p events h)
          (λ q k. negotiated q (autonegotiation o.port now o.reset_accepted d q.rpcs) k))
        h

  with_device-HasNumbers :
      (p : ProxyCore) (now : ℕ) (device : Option ProxyDevice)
      → HasNumbers o p
      → Holds (HasNumbers o) (with_device o p now device)
  unfolding with_device
  with_device-HasNumbers p now none h = h
  with_device-HasNumbers p now (some d) h =
      Holds-bind (HasNumbers o) (HasNumbers o) (negotiate o p now (record d { restarted = false }))
        (λ q. if d.restarted then cancel_rpcs o q undefined none else ok q)
        (negotiate-HasNumbers p now (record d { restarted = false }) h)
        (λ q k.
          if-Holds (HasNumbers o) d.restarted (cancel_rpcs o q undefined none) (ok q)
            (cancel_rpcs-Has o (Only (IsNumbered o)) q undefined none k) k)

  connected :
      (p : ProxyCore) (now : ℕ) (device : Option ProxyDevice)
      → HasNumbers o p
      → Holds (HasNumbers o) (elim device [ none ↦ reconnect o p now | some d ↦ ok p ])
  connected p now none h = reconnect-Has o (IsNumbered o) p now h
  connected p now (some d) h = h

  before_select-HasNumbers :
      (p : ProxyCore) (now : ℕ)
      → HasNumbers o p
      → Holds (HasWith o (Only (IsNumbered o))) (before_select o p now)
  unfolding before_select process_rpc_timeouts
  before_select-HasNumbers p now h =
      let last : Bool → ProxyCore → Result (ProxyCore × Bool) Halt = λ safe q. ok (
        record q { clients = drop_clients q.clients_to_drop q.clients; clients_to_drop = [] },
        safe,
      ) in
      let next : ProxyCore → Result (ProxyCore × Bool) Halt =
        λ q. with_device o q now q.device >>= last (reads_clients q.device) in
      Holds-bind (HasNumbers o) (HasWith o (Only (IsNumbered o)))
        (cancel_rpcs o p timeout (some now))
        (λ q. (elim q.device [ none ↦ reconnect o q now | some d ↦ ok q ]) >>= next)
        (cancel_rpcs-Has o (Only (IsNumbered o)) p timeout (some now) h)
        (λ q k.
          Holds-bind (HasNumbers o) (HasWith o (Only (IsNumbered o)))
            (elim q.device [ none ↦ reconnect o q now | some d ↦ ok q ]) next
            (connected q now q.device k)
            (λ r m.
              Holds-bind (HasNumbers o) (HasWith o (Only (IsNumbered o)))
                (with_device o r now r.device) (last (reads_clients r.device))
                (with_device-HasNumbers r now r.device m)
                (λ s n. drop_clients-IsNumbered o s.clients_to_drop s.clients s.next_client_id n)))

  connect_first-HasNumbers :
      (p : ProxyCore) (now : ℕ) → HasNumbers o p → Holds (HasNumbers o) (connect_first o p now)
  unfolding connect_first
  connect_first-HasNumbers p now h =
      let x = try_setup_device o p now in
      let m = try_setup_device-Has o (IsNumbered o) p now h in
      if-Holds (HasNumbers o) x.1
        (send_event o x.0 sensor_connected >>= λ q. ok (record q { device_timeout = now }))
        (send_event o x.0 failed_to_connect >>= λ q. err finished)
        (Holds-bind (HasNumbers o) (HasNumbers o) (send_event o x.0 sensor_connected)
          (λ q. ok (record q { device_timeout = now }))
          (send_event-Has o (Only (IsNumbered o)) x.0 sensor_connected m) (λ q k. k))
        (ended-Has o (IsNumbered o) (send_event o x.0 failed_to_connect))

main_loop-HasNumbers :
    (o : Outside) (p : ProxyCore) (rounds : List (Outside × ℕ × Ready))
    → HasNumbers o p
    → Holds (HasNumbers o) (main_loop p rounds)
unfolding main_loop round
main_loop-HasNumbers o p [] h = h
main_loop-HasNumbers o p ((o', now, ready) ∷ later) h =
    Holds-bind (HasNumbers o) (HasNumbers o) (round o' p now ready) (λ q. main_loop q later)
      (Holds-bind (HasWith o (Only (IsNumbered o))) (HasNumbers o) (before_select o' p now)
        (λ x. on_ready o' x.0 now x.1 ready) (before_select-HasNumbers o' p now h)
        (λ x k. on_ready-HasNumbers o' x.0 now x.1 ready k))
      (λ q k. main_loop-HasNumbers o q later k)

run-Holds :
    (o : Outside) (p : ProxyCore) (now : ℕ) (rounds : List (Outside × ℕ × Ready))
    → HasNumbers o p
    → Holds (HasNumbers o) (run o p now rounds)
unfolding run
run-Holds o p now rounds h =
    Holds-bind (HasNumbers o) (HasNumbers o) (connect_first o p now) (λ q. main_loop q rounds)
      (connect_first-HasNumbers o p now h) (λ q k. main_loop-HasNumbers o q rounds k)

-- The proxy's own RPCs are told from those of clients by client 0, and a client's number is its own:
-- in every state that the main loop reaches from a new proxy, whatever is ready in its rounds, and
-- whatever the status queue, the channels of clients, the device's port and an attempt to connect
-- answer in each round, each client has a number of at least 1 that is below the next one to be given,
-- so a new client never takes the place of another.
pub run-IsNumbered :
    (o : Outside) (p' : ProxyCore) (only_new_client : Bool) (now : ℕ)
    (rounds : List (Outside × ℕ × Ready))
    → run o (new only_new_client) now rounds ≡ ok p'
    → ((id : ℕ) (client : ProxyClient)
        → lookup id p'.clients ≡ some client
        → (0 < id) × (id < p'.next_client_id))
      × (lookup p'.next_client_id p'.clients ≡ none)
run-IsNumbered o p' only_new_client now rounds result =
    let (low, numbers) =
      subst (Holds (HasNumbers o)) result
        (run-Holds o (new only_new_client) now rounds (new-HasNumbers o only_new_client)) in
    (
      numbers,
      elim (Option-cases (lookup p'.next_client_id p'.clients)) [
        | inl free ↦ free
        | inr (client, taken) ↦ absurd (omega (arith, (numbers p'.next_client_id client taken).1))
      ],
    )
