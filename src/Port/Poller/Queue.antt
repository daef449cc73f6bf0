-- ===== src/Port/Poller/Queue.antt =====
-- The tx channel that the thread behind a port empties.
use twinleaf_rust.Shared.{
  some, ℕ, ◌≡◌, refl, ◌∙◌, ap, subst, Bool, true, false, not, ◌&&◌, ◌||◌, List, [], ◌∷◌, map, arith,
  if◌then◌else◌, Bool-cases, Result, ok, err, ◌>>=◌, inl, inr, ◌⊎◌,
}
use twinleaf_rust.Port.Errors.{must_drain, full}
use twinleaf_rust.Port.Poller.{
  or_panic, Event, ready, unexpected, receive_loop, on_writable, RawPort, PacketOrControl, pkt,
  set_rate, Poller, Exit, woken, Outside, on_event, on_events, packet_sent, rate_set, tx_loop,
  check_tx, after_poll,
}
use twinleaf_rust.Port.Poller.Note.{Keeps, receive_loop-Keeps, on_writable-Keeps}
use twinleaf_rust.Proto.Packet.{Packet}

module _ {ℓ} {S : Type ℓ} (port : RawPort S) where
  -- The port turns down every packet until it is drained, as `RawPort::send` says.
  tx_loop_full :
      (out : Outside) (now : ℕ) (p : Poller S) (packets : List Packet)
      → p.tx_open ≡ true
      → ((packet : Packet) → port.send p.raw packet ≡ some (p.raw, err full))
      → tx_loop port out now p (map pkt packets) ≡ ok (record p { queue = [] })
  unfolding tx_loop packet_sent
  tx_loop_full out now p [] there h = rw there refl
  tx_loop_full out now p (packet ∷ packets) there h =
      ap
        (λ r. or_panic r >>= λ t.
          packet_sent port p now t >>= λ q. tx_loop port out now q (map pkt packets))
        (h packet)
      ∙ tx_loop_full out now p packets there h

  -- When a raw port takes a packet in part, and turns down every other until that one is drained, as
  -- `RawPort` says, then the packets that wait in the tx channel behind it are lost: they are taken
  -- off the channel without an error, and the port is left as it would be without them.
  pub tx_loop_loses :
      (out : Outside) (now : ℕ) (p : Poller S) (s : S) (packet : Packet) (packets : List Packet)
      → p.tx_open ≡ true
      → port.send p.raw packet ≡ some (s, err must_drain)
      → ((packet' : Packet) → port.send s packet' ≡ some (s, err full))
      → tx_loop port out now p (pkt packet ∷ map pkt packets)
        ≡ ok (record p { raw = s; needs_draining = true; writable = true; queue = [] })
  unfolding tx_loop packet_sent
  tx_loop_loses out now p s packet packets there first h =
      ap
        (λ r. or_panic r >>= λ t.
          packet_sent port p now t >>= λ q. tx_loop port out now q (map pkt packets))
        first
      ∙ tx_loop_full out now (record p { raw = s; needs_draining = true; writable = true }) packets
          there h

  abbrev Empties : Result (Poller S) Exit → Type 0
  Empties (ok p) = p.queue ≡ []
  Empties (err e) = Unit

  Empties-bind :
      {A : Type ℓ} (r : Result A Exit) (k : A → Result (Poller S) Exit)
      → ((a : A) → Empties (k a))
      → Empties (r >>= k)
  Empties-bind (ok a) k next = next a
  Empties-bind (err e) k next = tt

  tx_loop-Empties :
      (out : Outside) (now : ℕ) (p : Poller S) (queue : List PacketOrControl)
      → Empties (tx_loop port out now p queue)
  unfolding tx_loop
  tx_loop-Empties out now p [] = elim (Bool-cases p.tx_open) [
    | inl there ↦ rw there refl
    | inr gone ↦ rw gone tt
  ]
  tx_loop-Empties out now p (pkt packet ∷ queue) =
      Empties-bind (or_panic (port.send p.raw packet))
        (λ t. packet_sent port p now t >>= λ q. tx_loop port out now q queue)
        (λ t.
          Empties-bind (packet_sent port p now t) (λ q. tx_loop port out now q queue)
            (λ q. tx_loop-Empties out now q queue))
  tx_loop-Empties out now p (set_rate rate ∷ queue) =
      Empties-bind (or_panic (port.set_rate p.raw rate))
        (λ t. rate_set port out p t >>= λ q. tx_loop port out now q queue)
        (λ t.
          Empties-bind (rate_set port out p t) (λ q. tx_loop port out now q queue)
            (λ q. tx_loop-Empties out now q queue))

  -- The tx channel is empty, or there is a note to look at it and the port cannot be written to yet.
  abbrev pub Served : Poller S → Type 0
  Served p =
      (p.queue ≡ []) ⊎ (p.needs_tx_queue_check ≡ true) × ((p.needs_draining || p.startup) ≡ true)

  abbrev Serves : Result (Poller S) Exit → Type 0
  Serves (ok p) = Served p
  Serves (err e) = Unit

  emptied : (r : Result (Poller S) Exit) → Empties r → Serves r
  emptied (ok p) h = inl h
  emptied (err e) h = tt

  if-Serves :
      (c : Bool) (a b : Result (Poller S) Exit)
      → Serves a
      → (c ≡ false → Serves b)
      → Serves (if c then a else b)
  if-Serves true a b h k = h
  if-Serves false a b h k = k refl

  -- The channel is to be looked at, in this round or by a note.
  abbrev Noted : Poller S → Bool → Type 0
  Noted p check = (check ≡ true) ⊎ (p.needs_tx_queue_check ≡ true)

  abbrev NotedWith : Result (Poller S × Bool) Exit → Type 0
  NotedWith (ok x) = Noted x.0 x.1
  NotedWith (err e) = Unit

  check_tx-Serves :
      (out : Outside) (now : ℕ) (r : Result (Poller S × Bool) Exit)
      → NotedWith r
      → Serves (r >>= check_tx port out now)
  unfolding check_tx
  check_tx-Serves out now (err e) h = tt
  check_tx-Serves out now (ok (q, check)) h =
      let late = not q.needs_draining && not q.startup && q.needs_tx_queue_check in
      let q' = record q { needs_tx_queue_check = if late then false else q.needs_tx_queue_check } in
      if-Serves (late || check) (tx_loop port out now q' q'.queue) (ok q')
        (emptied (tx_loop port out now q' q'.queue) (tx_loop-Empties out now q' q'.queue))
        (λ idle. inr (held q.needs_draining q.startup q.needs_tx_queue_check check h idle))
    where
      held :
          (draining startup note check : Bool)
          → (check ≡ true) ⊎ (note ≡ true)
          → ((not draining && not startup && note) || check) ≡ false
          → ((if not draining && not startup && note then false else note) ≡ true)
            × ((draining || startup) ≡ true)
      held true startup note check (inl e) idle = absurd (ground arith)
      held true startup note check (inr e) idle = (e, refl)
      held false true note check (inl e) idle = absurd (ground arith)
      held false true note check (inr e) idle = (e, refl)
      held false false note check (inl e) idle = absurd (ground arith)
      held false false note check (inr e) idle = absurd (ground arith)

  with_check-Noted :
      (note check : Bool) (r : Result (Poller S) Exit)
      → (check ≡ true) ⊎ (note ≡ true)
      → Keeps note r
      → NotedWith (r >>= λ q. ok (q, check))
  with_check-Noted note check (ok q) (inl e) h = inl e
  with_check-Noted note check (ok q) (inr e) h = inr (h ∙ e)
  with_check-Noted note check (err e) n h = tt

  received-Noted :
      (fuel : ℕ) (out : Outside) (note check : Bool) (r : Result (Poller S) Exit)
      → (check ≡ true) ⊎ (note ≡ true)
      → Keeps note r
      → NotedWith (r >>= λ p. receive_loop port fuel out p >>= λ q. ok (q, check))
  received-Noted fuel out note check (ok p) n h =
      with_check-Noted note check (receive_loop port fuel out p) n
        (receive_loop-Keeps port note fuel out p h)
  received-Noted fuel out note check (err e) n h = tt

  woken_noted :
      (c : Bool) (p : Poller S) (check : Bool)
      → NotedWith (if c then ok (record p { needs_tx_queue_check = true }, check) else ok (p, true))
  woken_noted true p check = inr refl
  woken_noted false p check = inl refl

  abbrev pub is_wakeup : Event → Bool
  is_wakeup woken = true
  is_wakeup e = false

  abbrev pub has_wakeup : List Event → Bool
  has_wakeup [] = false
  has_wakeup (e ∷ events) = is_wakeup e || has_wakeup events

  on_event-Noted :
      (fuel : ℕ) (out : Outside) (now : ℕ) (p : Poller S) (check : Bool) (e : Event)
      → Noted p check ⊎ (is_wakeup e ≡ true)
      → NotedWith (on_event port fuel out now p check e)
  unfolding on_event
  on_event-Noted fuel out now p check woken n = woken_noted (p.needs_draining || p.startup) p check
  on_event-Noted fuel out now p check (ready true) (inl n) =
      received-Noted fuel out p.needs_tx_queue_check check (on_writable port p now) n
        (on_writable-Keeps port p.needs_tx_queue_check p now refl)
  on_event-Noted fuel out now p check (ready false) (inl n) =
      received-Noted fuel out p.needs_tx_queue_check check (ok p) n refl
  on_event-Noted fuel out now p check (ready writable) (inr n) = absurd (ground arith)
  on_event-Noted fuel out now p check (unexpected x) n = tt

  events_after :
      (fuel : ℕ) (out : Outside) (now : ℕ) (events : List Event) (r : Result (Poller S × Bool) Exit)
      → NotedWith r
      → ((q : Poller S) (check : Bool)
          → Noted q check
          → NotedWith (on_events port fuel out now q check events))
      → NotedWith (r >>= λ x. on_events port fuel out now x.0 x.1 events)
  events_after fuel out now events (ok x) h next = next x.0 x.1 h
  events_after fuel out now events (err e) h next = tt

  on_events-Noted :
      (fuel : ℕ) (out : Outside) (now : ℕ) (p : Poller S) (check : Bool) (events : List Event)
      → Noted p check
      → NotedWith (on_events port fuel out now p check events)
  unfolding on_events
  on_events-Noted fuel out now p check [] n = n
  on_events-Noted fuel out now p check (e ∷ events) n =
      events_after fuel out now events (on_event port fuel out now p check e)
        (on_event-Noted fuel out now p check e (inl n))
        (λ q c k. on_events-Noted fuel out now q c events k)

  untouched :
      (fuel : ℕ) (out : Outside) (now : ℕ) (events : List Event) (r : Result (Poller S × Bool) Exit)
      → ((q : Poller S) (check : Bool) → NotedWith (on_events port fuel out now q check events))
      → NotedWith (r >>= λ x. on_events port fuel out now x.0 x.1 events)
  untouched fuel out now events (ok x) next = next x.0 x.1
  untouched fuel out now events (err e) next = tt

  wakeup-Noted :
      (fuel : ℕ) (out : Outside) (now : ℕ) (p : Poller S) (check : Bool) (events : List Event)
      → has_wakeup events ≡ true
      → NotedWith (on_events port fuel out now p check events)
  unfolding on_events
  wakeup-Noted fuel out now p check [] h = absurd (ground arith)
  wakeup-Noted fuel out now p check (woken ∷ events) h =
      events_after fuel out now events (on_event port fuel out now p check woken)
        (on_event-Noted fuel out now p check woken (inr refl))
        (λ q c k. on_events-Noted fuel out now q c events k)
  wakeup-Noted fuel out now p check (e ∷ events) h =
      untouched fuel out now events (on_event port fuel out now p check e)
        (λ q c. wakeup-Noted fuel out now q c events h)

  -- No wakeup of the thread behind a port is lost. If there is one among the events of a round, or a
  -- note of one was left before, then after the round, whatever its events are and if the thread is
  -- still there, the tx channel is empty, or the note stands and the port is draining or in its startup.
  -- So the first round that ends with a port that is neither has emptied the channel.
  pub after_poll-Served :
      (fuel : ℕ) (out : Outside) (now : ℕ) (p p' : Poller S) (events : List Event)
      → (p.needs_tx_queue_check ≡ true) ⊎ (has_wakeup events ≡ true)
      → after_poll port fuel out now p events ≡ ok p'
      → Served p'
  unfolding after_poll
  after_poll-Served fuel out now p p' events h e =
      let startup' = if p.startup then port.startup_holdoff now p.raw else false in
      let q : Poller S = record p { startup = startup' } in
      subst Serves e (
        check_tx-Serves out now (on_events port fuel out now q false events) (elim h [
          | inl note ↦ on_events-Noted fuel out now q false events (inr note)
          | inr wakes ↦ wakeup-Noted fuel out now q false events wakes
        ]))
