-- ===== src/Tool/Firmware/Rounds.antt =====
-- The rounds of an upload of firmware.
use twinleaf_rust.Shared.{
  ℕ, suc, ◌+◌, ◌-◌, ◌≡◌, ◌≢◌, ◌⊎◌, ◌≤◌, ◌<◌, refl, sym, ◌∙◌, arith, Bool, true, false, not, ◌||◌,
  List, [], ◌∷◌, length, ltb, ◌==◌, if◌then◌else◌, Bytes, ok, err, ◌>>=◌, Option, some, none, inl,
  inr,
}
use twinleaf_rust.Data.Stop.{panicked, unwrap}
use twinleaf_rust.Proto.Packet.{Packet}
use twinleaf_rust.Proto.Payload.{Payload, rpc_reply, rpc_error}
use twinleaf_rust.Proxy.Port
use twinleaf_rust.Proxy.Port.{Port, RecvError, recv_would_block, recv_disconnected}
use twinleaf_rust.Tool.Firmware.{
  Upload, max_chunks_in_flight, send_chunk, may_send, on_answer, tried, receive, step,
}
use twinleaf_rust.Tool.Firmware.Chunks.{replies, reply_id, replies-append, numbers, numbers_last}
use twinleaf_rust.Shared.{append_assoc, append-nil, ap, ◌++◌, Result}
use twinleaf_rust.Data.Stop.{Stop, out_of_fuel}
use twinleaf_rust.Tool.Firmware.Uploading.{
  IsUploading, Holds, Holds-bind, if-Holds, Awaits, Took, send_chunk-Holds,
}

pub true_not_false : ◌≡◌ true false → ⊥
true_not_false e = ground arith

module _ (firmware_data : Bytes) (start : Port) where
  abbrev pub Going : Upload → Type 0
  Going = IsUploading firmware_data start

  -- Something else than a reply arrives, or nothing.
  moved :
      (u : Upload) (port : Port) (more : List (Option Packet))
      → Going u
      → port.sent ≡ u.port.sent
      → u.port.arrivals ≡ more ++ port.arrivals
      → replies more ≡ []
      → Going (record u { port = port })
  moved u port more h same took quiet = record {
    chunks = h.chunks;
    whole = h.whole;
    small = h.small;
    count = h.count;
    sent = same ∙ h.sent;
    heard = h.heard ++ more;
    arrived =
        h.arrived ∙ ap (λ t. h.heard ++ t) took ∙ sym (append_assoc h.heard more port.arrivals);
    replied =
        replies-append h.heard more
        ∙ ap (λ t. replies h.heard ++ t) quiet
        ∙ append-nil (replies h.heard)
        ∙ h.replied;
    acked = h.acked;
    in_flight = h.in_flight;
    all_sent = h.all_sent;
  }

  -- The reply arrives that is waited for.
  acknowledged :
      (u : Upload) (port : Port) (more : List (Option Packet))
      → Going u
      → port.sent ≡ u.port.sent
      → u.port.arrivals ≡ more ++ port.arrivals
      → replies more ≡ u.next_ack_chunk ∷ []
      → u.next_ack_chunk < u.next_send_chunk
      → Going (record u { port = port; next_ack_chunk = suc u.next_ack_chunk })
  acknowledged u port more h same took reply waits = record {
    chunks = h.chunks;
    whole = h.whole;
    small = h.small;
    count = h.count;
    sent = same ∙ h.sent;
    heard = h.heard ++ more;
    arrived =
        h.arrived ∙ ap (λ t. h.heard ++ t) took ∙ sym (append_assoc h.heard more port.arrivals);
    replied =
        let number : u.next_ack_chunk ≡ 0 + u.next_ack_chunk = omega arith in
        replies-append h.heard more
        ∙ ap (λ t. replies h.heard ++ t) reply
        ∙ ap (λ t. t ++ (u.next_ack_chunk ∷ [])) h.replied
        ∙ ap (λ (n : ℕ). numbers 0 u.next_ack_chunk ++ (n ∷ [])) number
        ∙ sym (numbers_last 0 u.next_ack_chunk);
    acked = omega (arith, waits);
    in_flight = omega (arith, h.in_flight);
    all_sent = h.all_sent;
  }

  -- Whether more may be sent, and what is known if not.
  abbrev Asked : Upload → Bool → Type 0
  Asked u sends =
      (sends ≡ true → u.next_send_chunk < u.next_ack_chunk + 2)
      × (sends ≡ false → (u.more_to_send ≡ false) ⊎ (u.next_ack_chunk + 2 ≤ u.next_send_chunk))

  may_send-Holds : (u : Upload) → Holds firmware_data start (Asked u) (may_send u)
  unfolding may_send
  may_send-Holds u =
      let flying = ltb (u.next_send_chunk - u.next_ack_chunk) max_chunks_in_flight in
      if-Holds firmware_data start (Asked u) (not u.more_to_send) (ok false)
        (if ltb u.next_send_chunk u.next_ack_chunk then err panicked else ok flying)
        (λ e. (λ t. absurd (ground arith), λ f. inl (ground arith)))
        (λ e.
          if-Holds firmware_data start (Asked u) (ltb u.next_send_chunk u.next_ack_chunk)
            (err panicked) (ok flying) (λ t. tt)
            (λ right. (λ t. ground arith, λ f. inr (ground arith))))

  -- A packet behind moments at which the channel was empty.
  on_answer-Holds :
      (n : ℕ) (u : Upload) (port : Port) (more : List (Option Packet)) (payload : Payload)
      → Going u
      → u.next_ack_chunk < u.next_send_chunk
      → length port.arrivals < n
      → port.sent ≡ u.port.sent
      → u.port.arrivals ≡ more ++ port.arrivals
      → replies more ≡ reply_id payload
      → Holds firmware_data start
          (Took firmware_data start n)
          (on_answer (record u { port = port }) payload)
  unfolding on_answer
  on_answer-Holds n u port more payload h waits fewer same took =
      elim payload
        as (λ k.
          replies more ≡ reply_id k
          → Holds firmware_data start (Took firmware_data start n)
              (on_answer (record u { port = port }) k)) [
                | rpc_reply rep ↦ λ e.
                    if-Holds firmware_data start (Took firmware_data start n)
                      (not (rep.id == u.next_ack_chunk) || u.next_ack_chunk == 65535) (err panicked)
                      (ok (record u { port = port; next_ack_chunk = suc u.next_ack_chunk }))
                      (λ b. tt)
                      (λ b.
                        let id : rep.id ≡ u.next_ack_chunk = ground arith in
                        (
                          acknowledged u port more h same took (e ∙ ap (λ (k : ℕ). k ∷ []) id)
                              waits,
                          fewer,
                        ))
                | rpc_error x ↦ λ e. tt
                | _ ↦ λ e. (moved u port more h same took e, fewer)
              ]

  tried-Holds :
      (n : ℕ) (u : Upload) (arrivals : List (Option Packet))
      → Going u
      → u.next_ack_chunk < u.next_send_chunk
      → u.port.arrivals ≡ arrivals
      → length arrivals ≤ n
      → Holds firmware_data start (Took firmware_data start n) (
          tried
            (record u { port = record u.port { arrivals = (Port.try_next arrivals).1 } })
            (Port.try_next arrivals).0)
  unfolding tried Port.try_next
  tried-Holds n u [] h waits e enough = tt
  tried-Holds n u (none ∷ later) h waits e enough = (
    moved u (record u.port { arrivals = later }) (none ∷ []) h refl e refl,
    omega (arith, enough),
  )
  tried-Holds n u (some pkt ∷ later) h waits e enough =
      on_answer-Holds n u (record u.port { arrivals = later }) (some pkt ∷ []) pkt.payload h waits
        (omega (arith, enough)) refl e (append-nil (reply_id pkt.payload))

  -- A packet from the port, with the port behind it.
  abbrev Given : ℕ → Port → List (Option Packet) → Packet × Port → Type 0
  Given n p arrivals x =
      (x.1.sent ≡ p.sent)
      × (length x.1.arrivals < n)
      × ((more : List (Option Packet)) × (arrivals ≡ more ++ x.1.arrivals)
          × (replies more ≡ reply_id x.0.payload))

  Given-later :
      (n : ℕ) (p : Port) (later : List (Option Packet)) (r : Result (Packet × Port) Stop)
      → Holds firmware_data start (Given n p later) r
      → Holds firmware_data start (Given n p (none ∷ later)) r
  Given-later n p later (ok x) (same, fewer, (more, took, reply)) =
      (same, fewer, (none ∷ more, ap (λ t. none ∷ t) took, reply))
  Given-later n p later (err panicked) h = tt
  Given-later n p later (err out_of_fuel) h = h

  recv-Holds :
      (n : ℕ) (p : Port) (arrivals : List (Option Packet))
      → length arrivals ≤ n
      → Holds firmware_data start (Given n p arrivals) (
          unwrap
            (do (pkt, later) ← Port.next_packet arrivals; ok (pkt, record p { arrivals = later })))
  unfolding Port.next_packet
  recv-Holds n p [] enough = tt
  recv-Holds n p (none ∷ later) enough =
      Given-later n p later _ (recv-Holds n p later (omega (arith, enough)))
  recv-Holds n p (some pkt ∷ later) enough =
      (refl, omega (arith, enough), (some pkt ∷ [], refl, append-nil (reply_id pkt.payload)))

  receive-Holds :
      (n : ℕ) (more : Bool) (u : Upload)
      → Awaits firmware_data start n u
      → Holds firmware_data start (Took firmware_data start n) (receive more u)
  unfolding receive Port.try_recv Port.recv
  receive-Holds n true u (h, waits, enough) = tried-Holds n u u.port.arrivals h waits refl enough
  receive-Holds n false u (h, waits, enough) =
      Holds-bind firmware_data start (Given n u.port u.port.arrivals) (Took firmware_data start n)
        (unwrap (Port.recv u.port)) (λ x. on_answer (record u { port = x.1 }) x.0.payload)
        (recv-Holds n u.port u.port.arrivals enough)
        (λ x (same, fewer, (more, took, reply)).
          on_answer-Holds n u x.1 more x.0.payload h waits fewer same took reply)

  sent_some :
      (u : Upload) (sends : Bool)
      → Going u
      → (u.more_to_send ≡ true) ⊎ (u.next_ack_chunk ≢ u.next_send_chunk)
      → Asked u sends
      → Holds firmware_data start
          (Awaits firmware_data start (length u.port.arrivals))
          (if sends then send_chunk firmware_data u else ok u)
  sent_some u sends h going asked =
      if-Holds firmware_data start (Awaits firmware_data start (length u.port.arrivals)) sends
        (send_chunk firmware_data u) (ok u)
        (λ e. send_chunk-Holds firmware_data start u h (asked.0 e))
        (λ e. (h, waiting (asked.1 e), omega arith))
    where
      waiting :
          (u.more_to_send ≡ false) ⊎ (u.next_ack_chunk + 2 ≤ u.next_send_chunk)
          → u.next_ack_chunk < u.next_send_chunk
      waiting (inr full) = omega (arith, full)
      waiting (inl done) = elim going [
        | inl more ↦ absurd (true_not_false (sym more ∙ done))
        | inr apart ↦ omega (arith, h.acked, apart)
      ]

  -- A round keeps the invariant and takes an arrival, or panics.
  pub step-Holds :
      (u : Upload)
      → Going u
      → (u.more_to_send ≡ true) ⊎ (u.next_ack_chunk ≢ u.next_send_chunk)
      → Holds firmware_data start
          (Took firmware_data start (length u.port.arrivals))
          (step firmware_data u)
  unfolding step
  step-Holds u h going =
      let n = length u.port.arrivals in
      Holds-bind firmware_data start (Asked u) (Took firmware_data start n) (may_send u)
        (λ sends. (if sends then send_chunk firmware_data u else ok u) >>= λ v.
          may_send v >>= λ more. receive more v)
        (may_send-Holds u)
        (λ sends asked.
          Holds-bind firmware_data start (Awaits firmware_data start n) (Took firmware_data start n)
            (if sends then send_chunk firmware_data u else ok u)
            (λ v. may_send v >>= λ more. receive more v) (sent_some u sends h going asked)
            (λ v waits.
              Holds-bind firmware_data start (Asked v) (Took firmware_data start n) (may_send v)
                (λ more. receive more v) (may_send-Holds v)
                (λ more a. receive-Holds n more v waits)))
