-- ===== src/Port/Poller/Note.antt =====
-- What of a round of the thread behind a port leaves its note to look at the tx channel as it is.
use twinleaf_rust.Shared.{
  zero, suc, Option, some, none, ◌++◌, ℕ, ◌≡◌, Bool, true, false, not, ◌&&◌, [], ◌∷◌, if◌then◌else◌,
  Result, ok, err, ◌>>=◌,
}
use twinleaf_rust.Port.Errors.{
  RecvError, not_ready, disconnected, protocol, io, SendError, must_drain, full, serialization,
}
use twinleaf_rust.Port.Poller.{
  or_panic, stopped, panicked, is_text, is_disconnected, pass, pass_error, heard, receive_loop,
  drained, on_writable, RawPort, Poller, Exit, Outside,
}
use twinleaf_rust.Proto.Packet.{Packet}

-- A step that leaves the note as it is.
abbrev pub Keeps {ℓ} : {S : Type ℓ} → Bool → Result (Poller S) Exit → Type 0
Keeps note (ok p) = p.needs_tx_queue_check ≡ note
Keeps note (err e) = Unit

module _ {ℓ} {S : Type ℓ} (port : RawPort S) where
  Keeps-bind :
      (note : Bool) (r : Result (Poller S) Exit) (k : Poller S → Result (Poller S) Exit)
      → Keeps note r
      → ((p : Poller S) → p.needs_tx_queue_check ≡ note → Keeps note (k p))
      → Keeps note (r >>= k)
  Keeps-bind note (ok p) k h next = next p h
  Keeps-bind note (err e) k h next = tt

  or_panic-Keeps :
      {A : Type ℓ} (note : Bool) (r : Option A) (k : A → Result (Poller S) Exit)
      → ((a : A) → Keeps note (k a))
      → Keeps note (or_panic r >>= k)
  or_panic-Keeps note none k next = tt
  or_panic-Keeps note (some a) k next = next a

  if-Keeps :
      (note c : Bool) (a b : Result (Poller S) Exit)
      → Keeps note a
      → Keeps note b
      → Keeps note (if c then a else b)
  if-Keeps note true a b h k = h
  if-Keeps note false a b h k = k

  pass-Keeps :
      (note : Bool) (out : Outside) (p : Poller S) (found : Result Packet RecvError)
      → p.needs_tx_queue_check ≡ note
      → Keeps note (pass port out p found)
  unfolding pass
  pass-Keeps note out p found h =
      if-Keeps note (out.rx found) (ok (record p { passed = p.passed ++ (found ∷ []) }))
        (err stopped) h tt

  pass_error-Keeps :
      (note : Bool) (out : Outside) (p : Poller S) (e : RecvError)
      → p.needs_tx_queue_check ≡ note
      → Keeps note (pass_error port out p e)
  unfolding pass_error
  pass_error-Keeps note out p e h =
      Keeps-bind note (if not (is_text port e) && p.startup then ok p else pass port out p (err e))
        (λ q. if is_disconnected port e then err stopped else ok q)
        (if-Keeps note (not (is_text port e) && p.startup) (ok p) (pass port out p (err e)) h
          (pass-Keeps note out p (err e) h))
        (λ q k. if-Keeps note (is_disconnected port e) (err stopped) (ok q) tt k)

  heard_step-Keeps :
      (note : Bool) (out : Outside) (p : Poller S) (found : Result Packet RecvError)
      (k : Poller S → Result (Poller S) Exit)
      → p.needs_tx_queue_check ≡ note
      → ((q : Poller S) → q.needs_tx_queue_check ≡ note → Keeps note (k q))
      → Keeps note (elim (heard port out p found) [ none ↦ ok p | some next ↦ next >>= k ])
  unfolding heard
  heard_step-Keeps note out p (ok packet) k h next =
      Keeps-bind note (if p.startup then ok p else pass port out p (ok packet)) k
        (if-Keeps note p.startup (ok p) (pass port out p (ok packet)) h
          (pass-Keeps note out p (ok packet) h))
        next
  heard_step-Keeps note out p (err not_ready) k h next = h
  heard_step-Keeps note out p (err disconnected) k h next =
      Keeps-bind note (pass_error port out p disconnected) k
        (pass_error-Keeps note out p disconnected h) next
  heard_step-Keeps note out p (err (protocol e)) k h next =
      Keeps-bind note (pass_error port out p (protocol e)) k
        (pass_error-Keeps note out p (protocol e) h) next
  heard_step-Keeps note out p (err (io e)) k h next =
      Keeps-bind note (pass_error port out p (io e)) k (pass_error-Keeps note out p (io e) h) next

  pub receive_loop-Keeps :
      (note : Bool) (fuel : ℕ) (out : Outside) (p : Poller S)
      → p.needs_tx_queue_check ≡ note
      → Keeps note (receive_loop port fuel out p)
  unfolding receive_loop
  receive_loop-Keeps note zero out p h = tt
  receive_loop-Keeps note (suc fuel) out p h =
      or_panic-Keeps note (port.recv p.raw)
        (λ received.
          let q : Poller S = record p { raw = received.0 } in
          elim (heard port out q received.1) [
            | none ↦ ok q
            | some next ↦ next >>= receive_loop port fuel out
          ])
        (λ received.
          heard_step-Keeps note out (record p { raw = received.0 }) received.1
            (receive_loop port fuel out) h (λ q k. receive_loop-Keeps note fuel out q k))

  drained-Keeps :
      (note : Bool) (p : Poller S) (now : ℕ) (r : S × Result (Unit {0}) SendError)
      → p.needs_tx_queue_check ≡ note
      → Keeps note (drained port p now r)
  unfolding drained
  drained-Keeps note p now (s, ok u) h = h
  drained-Keeps note p now (s, err must_drain) h = h
  drained-Keeps note p now (s, err full) h = tt
  drained-Keeps note p now (s, err SendError.disconnected) h = tt
  drained-Keeps note p now (s, err serialization) h = tt
  drained-Keeps note p now (s, err (SendError.io e)) h = tt

  pub on_writable-Keeps :
      (note : Bool) (p : Poller S) (now : ℕ)
      → p.needs_tx_queue_check ≡ note
      → Keeps note (on_writable port p now)
  unfolding on_writable
  on_writable-Keeps note p now h =
      if-Keeps note p.needs_draining (or_panic (port.drain p.raw) >>= drained port p now)
        (err panicked)
        (or_panic-Keeps note (port.drain p.raw) (drained port p now)
          (λ r. drained-Keeps note p now r h))
        tt
