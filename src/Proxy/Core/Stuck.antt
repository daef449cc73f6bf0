-- ===== src/Proxy/Core/Stuck.antt =====
-- A negotiation whose own RPC gets no answer.
use twinleaf_rust.Shared.{
  ◌&&◌, ℕ, ◌≡◌, refl, sym, ap, ◌∙◌, subst, Bool, true, false, List, [], ◌∷◌, arith, Result, ok, err,
  ◌>>=◌, Option, some, none,
}
use twinleaf_rust.Port.Serial.{RateInfo}
use twinleaf_rust.Proto.Rpc.ErrorCode.{timeout}
use twinleaf_rust.Proxy.Core.{ProxyCore, Outside, Halt, cancel_rpcs, drop_clients}
use twinleaf_rust.Proxy.Core.Rounds.{
  Ready, timed_out, client_ready, new_clients_ready, device_ready, on_ready, round, main_loop,
  process_rpc_timeouts, reconnect, negotiate, with_device, before_select, reads_clients,
}
use twinleaf_rust.Proxy.Rates.Events.{autonegotiation_events}
use twinleaf_rust.Proxy.Core.{send_events}
use twinleaf_rust.Proxy.Rates.{
  waiting_new_rate, ProxyDevice, autonegotiation, next_state, needs_autonegotiation,
  safe_to_forward,
}
use twinleaf_rust.Proxy.Core.Clients.{Holds, Holds-bind, send_event-Has, cancel_rpcs-Has}
use twinleaf_rust.Proxy.Core.Handlers.{on_new_clients}
use twinleaf_rust.Proxy.Event.{exiting, new_client}
use twinleaf_rust.Proto.Rpc.ErrorCode.{RpcErrorCode}
use twinleaf_rust.Shared.{suc, insert}
use twinleaf_rust.Proxy.Core.{send_event, finished}
use twinleaf_rust.Proxy.Client.{ProxyClient}

-- The device's channel is not what is ready.
abbrev pub is_silent : Ready → Bool
is_silent (device_ready arrivals gone) = false
is_silent ready = true

abbrev pub device_silent : List (Outside × ℕ × Ready) → Bool
device_silent [] = true
device_silent ((o, now, ready) ∷ later) = is_silent ready && device_silent later

-- The device is left as it is.
abbrev Leaves : Option ProxyDevice → Result ProxyCore Halt → Type 0
Leaves d = Holds (λ p. p.device ≡ d)

Leaves-bind :
    (d : Option ProxyDevice) (r : Result ProxyCore Halt) (k : ProxyCore → Result ProxyCore Halt)
    → Leaves d r
    → ((p : ProxyCore) → p.device ≡ d → Leaves d (k p))
    → Leaves d (r >>= k)
Leaves-bind d = Holds-bind (λ p. p.device ≡ d) (λ p. p.device ≡ d)

not_read :
    (device : Option ProxyDevice) (d : ProxyDevice)
    → device ≡ some d
    → d.rate_change_state ≡ waiting_new_rate
    → reads_clients device ≡ false
unfolding reads_clients safe_to_forward
not_read device d there state = ap reads_clients there ∙ ap safe_to_forward state

module _ (o : Outside) where
  cancel_rpcs-Leaves :
      (d : Option ProxyDevice) (p : ProxyCore) (error : RpcErrorCode) (until : Option ℕ)
      → p.device ≡ d
      → Leaves d (cancel_rpcs o p error until)
  cancel_rpcs-Leaves d p error until h = cancel_rpcs-Has o (λ cs n x. x ≡ d) p error until h

  on_new_clients-Leaves :
      (d : Option ProxyDevice) (p : ProxyCore) (clients : List ProxyClient) (gone : Bool)
      → p.device ≡ d
      → Leaves d (on_new_clients o p clients gone)
  unfolding on_new_clients
  on_new_clients-Leaves d p [] false h = h
  on_new_clients-Leaves d p [] true h =
      Leaves-bind d (send_event o p exiting) (λ q. err finished)
        (send_event-Has o (λ cs n x. x ≡ d) p exiting h) (λ q k. tt)
  on_new_clients-Leaves d p (client ∷ clients) gone h =
      let event = new_client p.next_client_id in
      Leaves-bind d (send_event o p event)
        (λ q.
          on_new_clients o
            (record q {
              clients = insert p.next_client_id client q.clients;
              next_client_id = suc p.next_client_id;
            })
            clients gone)
        (send_event-Has o (λ cs n x. x ≡ d) p event h)
        (λ q k.
          on_new_clients-Leaves d
            (record q {
              clients = insert p.next_client_id client q.clients;
              next_client_id = suc p.next_client_id;
            })
            clients gone k)

  -- A device that waits for the answer to its rate.
  abbrev waiting_device : Option RateInfo → ℕ → Option ℕ → ProxyDevice
  waiting_device info last seen = record {
    rate_info = info;
    rate_change_state = waiting_new_rate;
    last_rx = last;
    last_session = seen;
    restarted = false;
  }

  with_device-waiting :
      (p : ProxyCore) (now : ℕ) (info : Option RateInfo) (last : ℕ) (seen : Option ℕ)
      → Leaves
          (some (waiting_device info last seen))
          (with_device o p now (some (waiting_device info last seen)))
  unfolding with_device negotiate needs_autonegotiation autonegotiation next_state send_events
      autonegotiation_events
  with_device-waiting p now info last seen = refl

  is_waiting :
      (d : ProxyDevice)
      → d.rate_change_state ≡ waiting_new_rate
      → d.restarted ≡ false
      → d ≡ waiting_device d.rate_info d.last_rx d.last_session
  is_waiting d state calm =
      ap (λ s. record d { rate_change_state = s }) state
      ∙ ap (λ b. record d { rate_change_state = waiting_new_rate; restarted = b }) calm

  with_device-Leaves :
      (p : ProxyCore) (now : ℕ) (d : ProxyDevice)
      → d.rate_change_state ≡ waiting_new_rate
      → d.restarted ≡ false
      → Leaves (some d) (with_device o p now (some d))
  with_device-Leaves p now d state calm =
      subst (λ x. Leaves (some x) (with_device o p now (some x))) (sym (is_waiting d state calm))
        (with_device-waiting p now d.rate_info d.last_rx d.last_session)

  connected_round :
      (p : ProxyCore) (now : ℕ) (device : Option ProxyDevice) (d : ProxyDevice)
      → device ≡ some d
      → ◌≡◌ {A = Result ProxyCore Halt}
          (elim device [ none ↦ reconnect o p now | some x ↦ ok p ])
          (ok p)
  connected_round p now none d e = absurd (ground arith)
  connected_round p now (some x) d e = refl

  -- What a round finds before it waits: the device as it is, and clients that are not read.
  abbrev IsHeld : ProxyDevice → Result (ProxyCore × Bool) Halt → Type 0
  IsHeld d (ok x) = (x.0.device ≡ some d) × (x.1 ≡ false)
  IsHeld d (err e) = Unit

  IsHeld-bind :
      (d : ProxyDevice) (r : Result ProxyCore Halt) (k : ProxyCore → Result (ProxyCore × Bool) Halt)
      → Leaves (some d) r
      → ((p : ProxyCore) → p.device ≡ some d → IsHeld d (k p))
      → IsHeld d (r >>= k)
  IsHeld-bind d (ok p) k h next = next p h
  IsHeld-bind d (err e) k h next = tt

  abbrev drop_clients_of : ProxyCore → Bool → ProxyCore × Bool
  drop_clients_of p safe =
      (record p { clients = drop_clients p.clients_to_drop p.clients; clients_to_drop = [] }, safe)

  after_timeouts :
      (p : ProxyCore) (now : ℕ) (d : ProxyDevice)
      → p.device ≡ some d
      → d.rate_change_state ≡ waiting_new_rate
      → d.restarted ≡ false
      → IsHeld d (do
        p ← elim p.device [ none ↦ reconnect o p now | some x ↦ ok p ]
        let safe = reads_clients p.device
        p ← with_device o p now p.device
        ok (drop_clients_of p safe))
  after_timeouts p now d there state calm = rw (connected_round p now p.device d there) (
      IsHeld-bind d (with_device o p now p.device)
        (λ q. ok (drop_clients_of q (reads_clients p.device)))
        (subst (λ x. Leaves (some d) (with_device o p now x)) (sym there)
          (with_device-Leaves p now d state calm))
        (λ q h. (h, not_read p.device d there state)))

  before_select-IsHeld :
      (p : ProxyCore) (now : ℕ) (d : ProxyDevice)
      → p.device ≡ some d
      → d.rate_change_state ≡ waiting_new_rate
      → d.restarted ≡ false
      → IsHeld d (before_select o p now)
  unfolding before_select process_rpc_timeouts
  before_select-IsHeld p now d there state calm =
      IsHeld-bind d (cancel_rpcs o p timeout (some now))
        (λ p. do
          p ← elim p.device [ none ↦ reconnect o p now | some x ↦ ok p ]
          let safe = reads_clients p.device
          p ← with_device o p now p.device
          ok (drop_clients_of p safe))
        (cancel_rpcs-Leaves (some d) p timeout (some now) there)
        (λ q same. after_timeouts q now d same state calm)

  on_ready-Leaves :
      (d : Option ProxyDevice) (p : ProxyCore) (now : ℕ) (ready : Ready)
      → p.device ≡ d
      → is_silent ready ≡ true
      → Leaves d (on_ready o p now false ready)
  unfolding on_ready
  on_ready-Leaves d p now timed_out h quiet = h
  on_ready-Leaves d p now (client_ready client_id packets gone) h quiet = h
  on_ready-Leaves d p now (new_clients_ready clients gone) h quiet =
      on_new_clients-Leaves d p clients gone h
  on_ready-Leaves d p now (device_ready arrivals gone) h quiet = absurd (ground arith)

  held_round :
      (d : ProxyDevice) (now : ℕ) (ready : Ready) (r : Result (ProxyCore × Bool) Halt)
      → IsHeld d r
      → is_silent ready ≡ true
      → Leaves (some d) (r >>= λ x. on_ready o x.0 now x.1 ready)
  held_round d now ready (err e) h quiet = tt
  held_round d now ready (ok (p, safe)) h quiet =
      rw (h.1) (on_ready-Leaves (some d) p now ready h.0 quiet)

main_loop-Leaves :
    (p : ProxyCore) (rounds : List (Outside × ℕ × Ready)) (d : ProxyDevice)
    → p.device ≡ some d
    → d.rate_change_state ≡ waiting_new_rate
    → d.restarted ≡ false
    → device_silent rounds ≡ true
    → Leaves (some d) (main_loop p rounds)
unfolding main_loop round
main_loop-Leaves p [] d there state calm quiet = there
main_loop-Leaves p ((o', now, ready) ∷ later) d there state calm quiet =
    Leaves-bind (some d) (round o' p now ready) (λ q. main_loop q later)
      (held_round o' d now ready (before_select o' p now)
        (before_select-IsHeld o' p now d there state calm) (ground arith))
      (λ q same. main_loop-Leaves q later d same state calm (ground arith))

-- A negotiation does not learn that its own RPC timed out. While the device waits for the answer to
-- its new rate and has not restarted, the rounds of the main loop leave the device as it is for as
-- long as nothing comes from it, at any times, with any RPCs in flight and whatever the channels and
-- the port answer in each round: it waits on, and the next round still does not read the channels of
-- the clients.
pub main_loop_waits :
    (p p' : ProxyCore) (rounds : List (Outside × ℕ × Ready)) (d : ProxyDevice)
    → p.device ≡ some d
    → d.rate_change_state ≡ waiting_new_rate
    → d.restarted ≡ false
    → device_silent rounds ≡ true
    → main_loop p rounds ≡ ok p'
    → (p'.device ≡ some d) × (reads_clients p'.device ≡ false)
main_loop_waits p p' rounds d there state calm quiet run =
    let same : p'.device ≡ some d =
      subst (Leaves (some d)) run (main_loop-Leaves p rounds d there state calm quiet) in
    (same, not_read p'.device d same state)
