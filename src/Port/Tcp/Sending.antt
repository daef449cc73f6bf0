-- ===== src/Port/Tcp/Sending.antt =====
-- A packet goes out whole: what the socket does not take is kept for `drain`.
use twinleaf_rust.Shared.{
  ℕ, ◌≡◌, refl, ap, ◌∙◌, true, ◌++◌, append-nil, length, length-drop, drop, take, take_all,
  take-append-drop, Bytes, Result, ok, err, some, inl, inr, arith, ◌≤◌, ◌<◌, ◌==◌, if◌then◌else◌,
  Bool-cases,
}
use twinleaf_rust.Port.Errors.{
  IoError, would_block, not_connected, invalid_data, invalid_input, broken_pipe, other, SendError,
  must_drain, full,
}
use twinleaf_rust.Port.IoBuf
use twinleaf_rust.Port.IoBuf.{IoBuf, bytes, size, iobuf_size}
use twinleaf_rust.Port.IoBuf.Idle.{bytes_idle, add_data_idle}
use twinleaf_rust.Port.IoBuf.Streams.{IsWriter}
use twinleaf_rust.Port.Tcp.{Port, keep_rest, after_write, send}
use twinleaf_rust.Proto.Packet
use twinleaf_rust.Proto.Packet.{Packet}
use twinleaf_rust.Proto.Packet.RoundTrip.{length-serialize}
use twinleaf_rust.Proto.Payload.Size.{IsSendable}

-- How the bytes of a packet are split between the socket and the buffer, by the socket's answer.
abbrev pub Sent : Result ℕ IoError → Bytes → Port → Port → Result (Unit {0}) SendError → Type 0
Sent (ok n) raw p p' a =
    (take n raw ++ bytes p'.txbuf ≡ raw) × (a ≡ (if n == length raw then ok tt else err must_drain))
Sent (err would_block) raw p p' a = (bytes p'.txbuf ≡ raw) × (a ≡ err must_drain)
Sent (err not_connected) raw p p' a = (bytes p'.txbuf ≡ raw) × (a ≡ err must_drain)
Sent (err e) raw p p' a = (p' ≡ p) × (a ≡ err (SendError.io e))

module _ (p : Port) (v : IoBuf.IsValid p.txbuf) (idle : size p.txbuf ≡ 0) where
  -- Up to 4096 bytes fit in the idle buffer.
  keep_rest_fits :
      (d : Bytes)
      → length d ≤ iobuf_size
      → (p' : Port) × (keep_rest p (IoBuf.add_data p.txbuf d) ≡ some (p', err must_drain))
        × IoBuf.IsValid p'.txbuf
        × (bytes p'.txbuf ≡ d)
        × (p'.rxbuf ≡ p.rxbuf)
  keep_rest_fits d h =
      let (valid, all_held, fine) = add_data_idle p.txbuf v idle d h in
      (
        record p { txbuf = (IoBuf.add_data p.txbuf d).0 },
        keep_rest_ok (IoBuf.add_data p.txbuf d) fine,
        valid,
        all_held,
        refl,
      )
    where
      keep_rest_ok :
          (r : IoBuf × Result (Unit {0}) ℕ)
          → r.1 ≡ ok tt
          → keep_rest p r ≡ some (record p { txbuf = r.0 }, err must_drain)
      keep_rest_ok (b, ok t) e = unfold keep_rest in refl
      keep_rest_ok (b, err n) e = cc

  after_write-Sent :
      (raw : Bytes) (r : Result ℕ IoError)
      → length raw ≤ iobuf_size
      → ((n : ℕ) → r ≡ ok n → n ≤ length raw)
      → (p' : Port) × (a : Result (Unit {0}) SendError) × (after_write p raw r ≡ some (p', a))
        × IoBuf.IsValid p'.txbuf
        × Sent r raw p p' a
  unfolding after_write
  after_write-Sent raw (ok n) h lim = elim (Bool-cases (n == length raw)) [
    | inl whole ↦ (
      p,
      ok tt,
      rw whole refl,
      v,
      (
        ap (λ t. take n raw ++ t) (bytes_idle p.txbuf v idle)
            ∙ append-nil (take n raw)
            ∙ take_all n raw (ground arith),
        rw whole refl,
      ),
    )
    | inr part ↦
        let short = length-drop n raw in
        let (p', kept, valid, held, rx) = keep_rest_fits (drop n raw) (omega arith) in
        (
          p',
          err must_drain,
          rw part kept,
          valid,
          (ap (λ t. take n raw ++ t) held ∙ take-append-drop n raw, rw part refl),
        )
  ]
  after_write-Sent raw (err would_block) h lim =
      let (p', kept, valid, held, rx) = keep_rest_fits raw h in
      (p', err must_drain, kept, valid, (held, refl))
  after_write-Sent raw (err not_connected) h lim =
      let (p', kept, valid, held, rx) = keep_rest_fits raw h in
      (p', err must_drain, kept, valid, (held, refl))
  after_write-Sent raw (err invalid_data) h lim = (p, _, refl, v, (refl, refl))
  after_write-Sent raw (err invalid_input) h lim = (p, _, refl, v, (refl, refl))
  after_write-Sent raw (err broken_pipe) h lim = (p, _, refl, v, (refl, refl))
  after_write-Sent raw (err other) h lim = (p, _, refl, v, (refl, refl))

  -- Of a packet that can be serialised, whose method name, if any, is shorter than 64 KiB, and on an
  -- idle port with a well-formed buffer whose socket takes no more than it is offered: unless the
  -- socket fails for good, the bytes that it took and those that are kept for `drain` are together the
  -- packet's, in order, and the answer says whether a drain is needed. Where it fails, with invalid
  -- data or input, a broken pipe or another error, nothing is kept, the port is unchanged, and the
  -- answer is the error. What is kept fits the buffer, so that the port does not panic.
  pub send_whole :
      (pkt : Packet) (raw : Bytes) (writer : Bytes → Result ℕ IoError)
      → IsWriter writer
      → IsSendable pkt.payload
      → Packet.serialize pkt ≡ ok raw
      → (p' : Port) × (a : Result (Unit {0}) SendError) × (send p writer pkt ≡ some (p', a))
        × IoBuf.IsValid p'.txbuf
        × Sent (writer raw) raw p p' a
  send_whole pkt raw writer lim h e =
      let small = length-serialize pkt raw e h in
      let (p', a, done, valid, sent) =
        after_write-Sent raw (writer raw) (omega arith) (λ n k. lim raw n k) in
      (p', a, send_idle pkt raw writer e ∙ done, valid, sent)
    where
      send_idle :
          (pkt : Packet) (raw : Bytes) (writer : Bytes → Result ℕ IoError)
          → Packet.serialize pkt ≡ ok raw
          → send p writer pkt ≡ after_write p raw (writer raw)
      send_idle pkt raw writer e =
          unfold send IoBuf.empty IoBuf.size in
          let ordered = v.ordered in
          let level : (p.txbuf.start == p.txbuf.end) ≡ true = ground arith in rw level (rw e refl)

-- While bytes wait in the buffer no packet is taken on: the port is unchanged.
pub send_full :
    (p : Port) (pkt : Packet) (writer : Bytes → Result ℕ IoError)
    → IoBuf.IsValid p.txbuf
    → 0 < size p.txbuf
    → send p writer pkt ≡ some (p, err full)
unfolding send
send_full p pkt writer v h = unfold IoBuf.empty IoBuf.size in ground arith
