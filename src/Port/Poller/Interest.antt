-- ===== src/Port/Poller/Interest.antt =====
-- The interests that the thread behind a port registers for.
use twinleaf_rust.Shared.{
  ℕ, zero, suc, ◌≡◌, ◌≢◌, refl, ◌∙◌, Bool, true, false, not, ◌&&◌, ◌||◌, List, [], ◌∷◌, arith,
  if◌then◌else◌, Result, ok, err, ◌>>=◌, Option, some, none,
}
use twinleaf_rust.Port.Errors.{
  RecvError, not_ready, disconnected, protocol, io, SendError, must_drain, full, serialization,
}
use twinleaf_rust.Port.Poller.{
  RawPort, PacketOrControl, pkt, set_rate, Poller, Exit, or_panic, stopped, panicked, out_of_fuel,
  Event, woken, ready, unexpected, Outside, drained, is_text, is_disconnected, pass, pass_error,
  heard, receive_loop, on_writable, on_event, on_events, packet_sent, rate_set, tx_loop, check_tx,
  after_poll,
}
use twinleaf_rust.Proto.Packet.{Packet}

module _ {ℓ} {S : Type ℓ} (port : RawPort S) where
  -- Registered for writing while there is something to drain, and only then.
  abbrev pub IsRegistered : Poller S → Type 0
  IsRegistered p = p.needs_draining ≡ p.writable

  -- The raw port's operations do not panic.
  pub record IsCalm : Type ℓ where
    pub recv_answers : (s : S) → port.recv s ≢ none
    pub send_answers : (s : S) (packet : Packet) → port.send s packet ≢ none
    pub drain_answers : (s : S) → port.drain s ≢ none
    pub set_rate_answers : (s : S) (rate : ℕ) → port.set_rate s rate ≢ none

  -- No panic, and the registration is right again.
  abbrev pub IsSettled : Result (Poller S) Exit → Type 0
  IsSettled (ok p) = IsRegistered p
  IsSettled (err panicked) = ⊥
  IsSettled (err e) = Unit

  -- The poll reports what the port is registered for, on the two tokens.
  abbrev pub IsHonest : Poller S → Event → Type 0
  IsHonest p woken = Unit
  IsHonest p (ready true) = p.writable ≡ true
  IsHonest p (ready false) = Unit
  IsHonest p (unexpected x) = ⊥

  IsSettled-bind :
      (r : Result (Poller S) Exit) (k : Poller S → Result (Poller S) Exit)
      → IsSettled r
      → ((p : Poller S) → IsRegistered p → IsSettled (k p))
      → IsSettled (r >>= k)
  IsSettled-bind (ok p) k h next = next p h
  IsSettled-bind (err stopped) k h next = tt
  IsSettled-bind (err panicked) k h next = h
  IsSettled-bind (err out_of_fuel) k h next = tt

  or_panic-IsSettled :
      {A : Type ℓ} (r : Option A) (k : A → Result (Poller S) Exit)
      → r ≢ none
      → ((a : A) → IsSettled (k a))
      → IsSettled (or_panic r >>= k)
  or_panic-IsSettled none k h next = absurd (h refl)
  or_panic-IsSettled (some a) k h next = next a

  IsSettled-if :
      (c : Bool) (a b : Result (Poller S) Exit)
      → IsSettled a
      → IsSettled b
      → IsSettled (if c then a else b)
  IsSettled-if true a b h k = h
  IsSettled-if false a b h k = k

  IsSettled-then :
      (c : Bool) (a b : Result (Poller S) Exit)
      → c ≡ true
      → IsSettled a
      → IsSettled (if c then a else b)
  IsSettled-then true a b e h = h
  IsSettled-then false a b e h = absurd (ground arith)

  pass-IsSettled :
      (out : Outside) (p : Poller S) (found : Result Packet RecvError)
      → IsRegistered p
      → IsSettled (pass port out p found)
  unfolding pass
  pass-IsSettled out p found h = IsSettled-if (out.rx found) _ _ h tt

  pass_error-IsSettled :
      (out : Outside) (p : Poller S) (e : RecvError)
      → IsRegistered p
      → IsSettled (pass_error port out p e)
  unfolding pass_error
  pass_error-IsSettled out p e h =
      IsSettled-bind (if not (is_text port e) && p.startup then ok p else pass port out p (err e)) _
        (IsSettled-if (not (is_text port e) && p.startup) _ _ h (pass-IsSettled out p (err e) h))
        (λ q k. IsSettled-if (is_disconnected port e) _ _ tt k)

  abbrev Settles : Option (Result (Poller S) Exit) → Type 0
  Settles none = Unit
  Settles (some r) = IsSettled r

  heard-Settles :
      (out : Outside) (p : Poller S) (found : Result Packet RecvError)
      → IsRegistered p
      → Settles (heard port out p found)
  unfolding heard
  heard-Settles out p (ok packet) h =
      IsSettled-if p.startup _ _ h (pass-IsSettled out p (ok packet) h)
  heard-Settles out p (err not_ready) h = tt
  heard-Settles out p (err disconnected) h = pass_error-IsSettled out p disconnected h
  heard-Settles out p (err (protocol e)) h = pass_error-IsSettled out p (protocol e) h
  heard-Settles out p (err (io e)) h = pass_error-IsSettled out p (io e) h

  found-IsSettled :
      (p : Poller S) (found : Option (Result (Poller S) Exit))
      (k : Poller S → Result (Poller S) Exit)
      → IsRegistered p
      → Settles found
      → ((q : Poller S) → IsRegistered q → IsSettled (k q))
      → IsSettled (elim found [ none ↦ ok p | some next ↦ next >>= k ])
  found-IsSettled p none k h s next = h
  found-IsSettled p (some r) k h s next = IsSettled-bind r k s next

  receive_loop-IsSettled :
      (fuel : ℕ) (out : Outside) (p : Poller S)
      → IsCalm
      → IsRegistered p
      → IsSettled (receive_loop port fuel out p)
  unfolding receive_loop
  receive_loop-IsSettled zero out p calm h = tt
  receive_loop-IsSettled (suc fuel) out p calm h =
      or_panic-IsSettled (port.recv p.raw)
        (λ received.
          let q : Poller S = record p { raw = received.0 } in
          elim (heard port out q received.1) [
            | none ↦ ok q
            | some next ↦ next >>= receive_loop port fuel out
          ])
        (calm.recv_answers p.raw)
        (λ received.
          let q : Poller S = record p { raw = received.0 } in
          found-IsSettled q (heard port out q received.1) (receive_loop port fuel out) h
            (heard-Settles out q received.1 h) (λ t. receive_loop-IsSettled fuel out t calm))

  drained-IsSettled :
      (p : Poller S) (now : ℕ) (r : S × Result (Unit {0}) SendError)
      → IsRegistered p
      → IsSettled (drained port p now r)
  unfolding drained
  drained-IsSettled p now (s, ok u) h = refl
  drained-IsSettled p now (s, err must_drain) h = h
  drained-IsSettled p now (s, err full) h = tt
  drained-IsSettled p now (s, err SendError.disconnected) h = tt
  drained-IsSettled p now (s, err serialization) h = tt
  drained-IsSettled p now (s, err (SendError.io e)) h = tt

  on_writable-IsSettled :
      (p : Poller S) (now : ℕ)
      → IsCalm
      → IsRegistered p
      → p.writable ≡ true
      → IsSettled (on_writable port p now)
  unfolding on_writable
  on_writable-IsSettled p now calm h w =
      IsSettled-then p.needs_draining (or_panic (port.drain p.raw) >>= drained port p now)
        (err panicked) (h ∙ w)
        (or_panic-IsSettled (port.drain p.raw) (drained port p now) (calm.drain_answers p.raw)
          (λ r. drained-IsSettled p now r h))

  -- A state with the check of the queue that is asked for.
  abbrev IsSettledWith : Result (Poller S × Bool) Exit → Type 0
  IsSettledWith (ok x) = IsRegistered x.0
  IsSettledWith (err panicked) = ⊥
  IsSettledWith (err e) = Unit

  with_check :
      (r : Result (Poller S) Exit) (check : Bool)
      → IsSettled r
      → IsSettledWith (r >>= λ p. ok (p, check))
  with_check (ok p) check h = h
  with_check (err stopped) check h = tt
  with_check (err panicked) check h = h
  with_check (err out_of_fuel) check h = tt

  received-IsSettledWith :
      (fuel : ℕ) (out : Outside) (r : Result (Poller S) Exit) (check : Bool)
      → IsCalm
      → IsSettled r
      → IsSettledWith (r >>= λ p. receive_loop port fuel out p >>= λ q. ok (q, check))
  received-IsSettledWith fuel out (ok p) check calm h =
      with_check (receive_loop port fuel out p) check (receive_loop-IsSettled fuel out p calm h)
  received-IsSettledWith fuel out (err stopped) check calm h = tt
  received-IsSettledWith fuel out (err panicked) check calm h = h
  received-IsSettledWith fuel out (err out_of_fuel) check calm h = tt

  woken_settled :
      (c : Bool) (a b : Poller S × Bool)
      → IsRegistered a.0
      → IsRegistered b.0
      → IsSettledWith (if c then ok a else ok b)
  woken_settled true a b h k = h
  woken_settled false a b h k = k

  on_event-IsSettledWith :
      (fuel : ℕ) (out : Outside) (now : ℕ) (p : Poller S) (check : Bool) (e : Event)
      → IsCalm
      → IsRegistered p
      → IsHonest p e
      → IsSettledWith (on_event port fuel out now p check e)
  unfolding on_event
  on_event-IsSettledWith fuel out now p check woken calm h w =
      woken_settled (p.needs_draining || p.startup) _ _ h h
  on_event-IsSettledWith fuel out now p check (ready true) calm h w =
      received-IsSettledWith fuel out (on_writable port p now) check calm
        (on_writable-IsSettled p now calm h w)
  on_event-IsSettledWith fuel out now p check (ready false) calm h w =
      received-IsSettledWith fuel out (ok p) check calm h
  on_event-IsSettledWith fuel out now p check (unexpected x) calm h w = absurd w

  packet_sent-IsSettled :
      (p : Poller S) (now : ℕ) (r : S × Result (Unit {0}) SendError)
      → IsRegistered p
      → IsSettled (packet_sent port p now r)
  unfolding packet_sent
  packet_sent-IsSettled p now (s, ok u) h = h
  packet_sent-IsSettled p now (s, err must_drain) h = refl
  packet_sent-IsSettled p now (s, err full) h = h
  packet_sent-IsSettled p now (s, err SendError.disconnected) h = tt
  packet_sent-IsSettled p now (s, err serialization) h = tt
  packet_sent-IsSettled p now (s, err (SendError.io e)) h = tt

  tx_loop-IsSettled :
      (out : Outside) (now : ℕ) (p : Poller S) (queue : List PacketOrControl)
      → IsCalm
      → IsRegistered p
      → IsSettled (tx_loop port out now p queue)
  unfolding tx_loop rate_set
  tx_loop-IsSettled out now p [] calm h = IsSettled-if p.tx_open _ _ h tt
  tx_loop-IsSettled out now p (pkt packet ∷ queue) calm h =
      or_panic-IsSettled (port.send p.raw packet)
        (λ r. packet_sent port p now r >>= λ q. tx_loop port out now q queue)
        (calm.send_answers p.raw packet)
        (λ r.
          IsSettled-bind (packet_sent port p now r) (λ q. tx_loop port out now q queue)
            (packet_sent-IsSettled p now r h) (λ q k. tx_loop-IsSettled out now q queue calm k))
  tx_loop-IsSettled out now p (set_rate rate ∷ queue) calm h =
      or_panic-IsSettled (port.set_rate p.raw rate)
        (λ r. rate_set port out p r >>= λ q. tx_loop port out now q queue)
        (calm.set_rate_answers p.raw rate)
        (λ r.
          IsSettled-bind (rate_set port out p r) (λ q. tx_loop port out now q queue)
            (IsSettled-if out.ctl_open _ _ h tt) (λ q k. tx_loop-IsSettled out now q queue calm k))

  check_tx-IsSettled :
      (out : Outside) (now : ℕ) (r : Result (Poller S × Bool) Exit)
      → IsCalm
      → IsSettledWith r
      → IsSettled (r >>= check_tx port out now)
  unfolding check_tx
  check_tx-IsSettled out now (ok (p, check)) calm h =
      let late = not p.needs_draining && not p.startup && p.needs_tx_queue_check in
      let p' = record p { needs_tx_queue_check = if late then false else p.needs_tx_queue_check } in
      IsSettled-if (late || check) (tx_loop port out now p' p'.queue) (ok p')
        (tx_loop-IsSettled out now p' p'.queue calm h) h
  check_tx-IsSettled out now (err stopped) calm h = tt
  check_tx-IsSettled out now (err panicked) calm h = h
  check_tx-IsSettled out now (err out_of_fuel) calm h = tt

  IsHonest-with :
      (p : Poller S) (e : Event) (c : Bool) → IsHonest p e → IsHonest (record p { startup = c }) e
  IsHonest-with p woken c h = tt
  IsHonest-with p (ready true) c h = h
  IsHonest-with p (ready false) c h = tt
  IsHonest-with p (unexpected x) c h = h

  one_event :
      (fuel : ℕ) (out : Outside) (now : ℕ) (r : Result (Poller S × Bool) Exit)
      → IsSettledWith r
      → IsSettledWith (r >>= λ x. on_events port fuel out now x.0 x.1 [])
  unfolding on_events
  one_event fuel out now (ok x) h = h
  one_event fuel out now (err stopped) h = tt
  one_event fuel out now (err panicked) h = h
  one_event fuel out now (err out_of_fuel) h = tt

  -- The thread behind a port registers the raw port for writing exactly while it has something to
  -- drain: if that holds before a poll, the raw port's operations do not panic, and the poll reports an
  -- event that was registered for, then it holds after the round, if the thread is still there; and the
  -- round itself does not panic on the event or for want of something to drain.
  pub after_poll-IsSettled :
      (fuel : ℕ) (out : Outside) (now : ℕ) (p : Poller S) (e : Event)
      → IsCalm
      → p.needs_draining ≡ p.writable
      → IsHonest p e
      → IsSettled (after_poll port fuel out now p (e ∷ []))
  unfolding after_poll on_events
  after_poll-IsSettled fuel out now p e calm h w =
      let startup' = if p.startup then port.startup_holdoff now p.raw else false in
      let q : Poller S = record p { startup = startup' } in
      check_tx-IsSettled out now (on_events port fuel out now q false (e ∷ [])) calm (
        one_event fuel out now (on_event port fuel out now q false e)
          (on_event-IsSettledWith fuel out now q false e calm h (IsHonest-with p e startup' w)))
