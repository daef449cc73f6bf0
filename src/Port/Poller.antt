-- ===== src/Port/Poller.antt =====
-- The thread behind a port: `Port::poller_thread` of twinleaf/src/tio/port.rs, on unix. The raw port
-- is an interface, the trait `RawPort`; the poll's events, the clock and the answers of the callback
-- are parameters. Times are nanoseconds.
pub mod Interest
pub mod Note
pub mod Queue
mod Tests
use twinleaf_rust.Shared.{
  ℕ, zero, suc, ◌+◌, ◌-◌, Bool, true, false, not, ◌&&◌, ◌||◌, List, [], ◌∷◌, ◌++◌, ltb, ◌==◌,
  if◌then◌else◌, Bytes, Result, ok, err, ◌>>=◌, Option, some, none,
}
use twinleaf_rust.Port.Errors.{
  RecvError, not_ready, disconnected, protocol, SendError, must_drain, full, RateError, unsupported,
}
use twinleaf_rust.Proto.Limits.{Error, text}
use twinleaf_rust.Proto.Packet.{Packet}
use twinleaf_rust.Util.{make_empty_heartbeat}

-- `RawPort`, over the port's state. `startup_holdoff` reads the clock. `none` is a panic, as in the
-- ports' own models.
pub record RawPort {ℓ} (S : Type ℓ) : Type ℓ where
  pub recv : S → Option (S × Result Packet RecvError)
  pub send : S → Packet → Option (S × Result (Unit {0}) SendError)
  pub drain : S → Option (S × Result (Unit {0}) SendError)
  pub set_rate : S → ℕ → Option (S × Result (Unit {0}) RateError)
  pub max_send_interval : Option ℕ
  pub startup_holdoff : ℕ → S → Bool

pub data PacketOrControl : Type 0 where
  pkt : Packet → PacketOrControl
  set_rate : ℕ → PacketOrControl

-- `writable` is whether the raw port is registered for both interests. `queue` is what waits in the
-- tx channel; `passed` is what the callback was given, and `results` the answers to controls.
pub record Poller {ℓ} (S : Type ℓ) : Type ℓ where
  pub raw : S
  pub needs_draining : Bool
  pub needs_tx_queue_check : Bool
  pub startup : Bool
  pub writable : Bool
  pub last_sent : ℕ
  pub queue : List PacketOrControl
  pub tx_open : Bool
  pub passed : List (Result Packet RecvError)
  pub results : List (Result (Unit {0}) RateError)

-- A thread that has left its loop, has panicked, or received for longer than the fuel.
pub data Exit : Type 0 where
  stopped panicked out_of_fuel : Exit

-- An operation of the raw port, whose panic is the thread's.
abbrev pub or_panic {ℓ} : {A : Type ℓ} → Option A → Result A Exit
or_panic none = err panicked
or_panic (some a) = ok a

-- What the loop does next: it starts again, or polls with a timeout.
pub data Wait : Type 0 where
  again : Wait
  poll : Option ℕ → Wait

pub data Event : Type 0 where
  woken : Event
  ready : Bool → Event
  unexpected : ℕ → Event

-- The callback: whether it takes the result, and `results` are taken: the two channels' other ends.
pub record Outside : Type 0 where
  pub rx : Result Packet RecvError → Bool
  pub ctl_open : Bool

module _ {ℓ} {S : Type ℓ} (port : RawPort S) where
  unfoldable pub heartbeat_sent :
      Poller S → ℕ → ℕ → S × Result (Unit {0}) SendError → Result (Poller S × Wait) Exit
  heartbeat_sent p now max_interval (s, err must_drain) =
      ok (record p { raw = s; needs_draining = true; writable = true }, again)
  heartbeat_sent p now max_interval (s, err e) = err stopped
  heartbeat_sent p now max_interval (s, ok u) =
      ok (record p { raw = s; last_sent = now }, poll (some (max_interval + 1000000)))

  unfoldable pub interval_wait : Poller S → ℕ → Option ℕ → Result (Poller S × Wait) Exit
  unfolding heartbeat_sent
  interval_wait p now none = ok (p, poll none)
  interval_wait p now (some max_interval) =
      let until_hb = max_interval - (now - p.last_sent) in
      if until_hb == 0 || p.startup
      then or_panic (port.send p.raw make_empty_heartbeat) >>= heartbeat_sent p now max_interval
      else ok (p, poll (some (until_hb + 1000000)))

  -- The part of a round before the poll.
  unfoldable pub before_poll : Poller S → ℕ → Result (Poller S × Wait) Exit
  unfolding interval_wait
  before_poll p now =
      if p.needs_draining then ok (p, poll none) else interval_wait p now port.max_send_interval

  unfoldable pub drained : Poller S → ℕ → S × Result (Unit {0}) SendError → Result (Poller S) Exit
  drained p now (s, ok u) =
      ok (record p { raw = s; needs_draining = false; writable = false; last_sent = now })
  drained p now (s, err must_drain) = ok (record p { raw = s })
  drained p now (s, err e) = err stopped

  unfoldable pub is_text : RecvError → Bool
  is_text (protocol (text t)) = true
  is_text e = false

  unfoldable pub is_disconnected : RecvError → Bool
  is_disconnected disconnected = true
  is_disconnected e = false

  unfoldable pub pass : Outside → Poller S → Result Packet RecvError → Result (Poller S) Exit
  pass out p found =
      if out.rx found then ok (record p { passed = p.passed ++ (found ∷ []) }) else err stopped

  -- An error goes on to the callback, but for the startup, in which only text does.
  unfoldable pub pass_error : Outside → Poller S → RecvError → Result (Poller S) Exit
  unfolding pass is_text is_disconnected
  pass_error out p e = do
    p ← if not (is_text e) && p.startup then ok p else pass out p (err e)
    if is_disconnected e then err stopped else ok p

  -- What becomes of what was received. It is none when nothing is ready.
  unfoldable pub heard :
      Outside → Poller S → Result Packet RecvError → Option (Result (Poller S) Exit)
  unfolding pass pass_error
  heard out p (ok packet) = some (if p.startup then ok p else pass out p (ok packet))
  heard out p (err not_ready) = none
  heard out p (err e) = some (pass_error out p e)

  -- What is received in a round.
  unfoldable pub receive_loop : ℕ → Outside → Poller S → Result (Poller S) Exit
  unfolding heard
  receive_loop zero out p = err out_of_fuel
  receive_loop (suc fuel) out p = or_panic (port.recv p.raw) >>= λ received.
      let p' : Poller S = record p { raw = received.0 } in
      elim (heard out p' received.1) [ none ↦ ok p' | some next ↦ next >>= receive_loop fuel out ]

  -- An event, with whether the tx channel is to be checked.
  unfoldable pub on_writable : Poller S → ℕ → Result (Poller S) Exit
  unfolding drained
  on_writable p now =
      if p.needs_draining then or_panic (port.drain p.raw) >>= drained p now else err panicked

  unfoldable pub on_event :
      ℕ → Outside → ℕ → Poller S → Bool → Event → Result (Poller S × Bool) Exit
  unfolding on_writable receive_loop
  on_event fuel out now p check woken =
      if p.needs_draining || p.startup
      then ok (record p { needs_tx_queue_check = true }, check)
      else ok (p, true)
  on_event fuel out now p check (ready is_writable) = do
    p ← if is_writable then on_writable p now else ok p
    p ← receive_loop fuel out p
    ok (p, check)
  on_event fuel out now p check (unexpected x) = err panicked

  unfoldable pub on_events :
      ℕ → Outside → ℕ → Poller S → Bool → List Event → Result (Poller S × Bool) Exit
  unfolding on_event
  on_events fuel out now p check [] = ok (p, check)
  on_events fuel out now p check (e ∷ events) = do
    (p, check) ← on_event fuel out now p check e
    on_events fuel out now p check events

  unfoldable pub packet_sent :
      Poller S → ℕ → S × Result (Unit {0}) SendError → Result (Poller S) Exit
  packet_sent p now (s, ok u) = ok (record p { raw = s; last_sent = now })
  packet_sent p now (s, err must_drain) =
      ok (record p { raw = s; needs_draining = true; writable = true })
  packet_sent p now (s, err full) = ok (record p { raw = s })
  packet_sent p now (s, err e) = err stopped

  unfoldable pub rate_set :
      Outside → Poller S → S × Result (Unit {0}) RateError → Result (Poller S) Exit
  rate_set out p (s, result) =
      if out.ctl_open
      then ok (record p { raw = s; results = p.results ++ (result ∷ []) })
      else err stopped

  -- The tx channel is emptied.
  unfoldable pub tx_loop : Outside → ℕ → Poller S → List PacketOrControl → Result (Poller S) Exit
  unfolding packet_sent rate_set
  tx_loop out now p [] = if p.tx_open then ok (record p { queue = [] }) else err stopped
  tx_loop out now p (pkt packet ∷ queue) = do
    sent ← or_panic (port.send p.raw packet)
    p ← packet_sent p now sent
    tx_loop out now p queue
  tx_loop out now p (set_rate rate ∷ queue) = do
    set ← or_panic (port.set_rate p.raw rate)
    p ← rate_set out p set
    tx_loop out now p queue

  unfoldable pub check_tx : Outside → ℕ → Poller S × Bool → Result (Poller S) Exit
  unfolding tx_loop
  check_tx out now (p, check) =
      let late = not p.needs_draining && not p.startup && p.needs_tx_queue_check in
      let p' = record p { needs_tx_queue_check = if late then false else p.needs_tx_queue_check } in
      if late || check then tx_loop out now p' p'.queue else ok p'

  -- The part of a round behind the poll, with the events that it gave.
  unfoldable pub after_poll : ℕ → Outside → ℕ → Poller S → List Event → Result (Poller S) Exit
  unfolding on_events check_tx
  after_poll fuel out now p events = do
    let startup' = if p.startup then port.startup_holdoff now p.raw else false
    found ← on_events fuel out now (record p { startup = startup' }) false events
    check_tx out now found
