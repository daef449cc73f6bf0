-- ===== src/Port/Serial/Safety.antt =====
-- That the serial port consumes no more than it has, and ends no frame that is too short.
use twinleaf_rust.Shared.{
  ℕ, ◌+◌, ◌-◌, ◌≤◌, ◌≡◌, ◌≢◌, refl, false, not, ◌&&◌, [], ◌∷◌, arith, length, ltb, Bool-cases, inl,
  inr, Bytes, take, drop, length-drop, ok, err, some, none, Result, Option,
}
use twinleaf_rust.Port.Errors.{IoError, RecvError, not_ready}
use twinleaf_rust.Port.IoBuf
use twinleaf_rust.Port.IoBuf.{IoBuf, bytes, size}
use twinleaf_rust.Port.IoBuf.Queue.{length-bytes}
use twinleaf_rust.Port.IoBuf.Streams.{IsReader, refill_lem}
use twinleaf_rust.Port.Serial.{
  Port, Scan, scan_start, take_byte, advance, frame_parsed, received_crc, crc_checked, end_frame,
  scan, consumed, recv_buffered, startup_holdoff, stale_time, drop_stale, recv_refilled, recv_with,
  recv,
}
use twinleaf_rust.Port.Serial.Frames.{consumed_few}
use twinleaf_rust.Proto.Limits.{Error, need_more}
use twinleaf_rust.Proto.Packet
use twinleaf_rust.Proto.Packet.{Packet}
use twinleaf_rust.Proto.Packet.Prefix.{deserialize_no_panic}

frame_parsed_answers :
    (pkt : Bytes) (len : ℕ) (o : Option (Result (Packet × ℕ) Error))
    → o ≢ none
    → frame_parsed pkt len o ≢ none
unfolding frame_parsed
frame_parsed_answers pkt len none h e = h refl
frame_parsed_answers pkt len (some (ok (tio_pkt, n))) h e = ground arith
frame_parsed_answers pkt len (some (err need_more)) h e = cc
frame_parsed_answers pkt len (some (err x)) h e = cc

crc_checked_answers :
    (checksum : Bytes → ℕ) (pkt : Bytes) (len : ℕ) (crc : Option ℕ)
    → crc ≢ none
    → crc_checked checksum pkt len crc ≢ none
unfolding crc_checked
crc_checked_answers checksum pkt len none h e = h refl
crc_checked_answers checksum pkt len (some crc) h e =
    let answers =
      frame_parsed_answers pkt len (Packet.deserialize (take len pkt))
        (deserialize_no_panic (take len pkt)) in
    ground (arith, answers)

-- A frame of four bytes at least has a CRC.
received_crc_there :
    (pkt : Bytes) → 4 ≤ length pkt → received_crc (drop (length pkt - 4) pkt) ≢ none
unfolding received_crc
received_crc_there pkt h e = ground (arith, length-drop (length pkt - 4) pkt)

end_frame_answers : (checksum : Bytes → ℕ) (pkt : Bytes) → end_frame checksum pkt ≢ none
unfolding end_frame
end_frame_answers checksum pkt e =
    let len = length pkt - 4 in
    let answers = λ (h : 4 ≤ length pkt).
      crc_checked_answers checksum pkt len (received_crc (drop len pkt))
        (received_crc_there pkt h) in
    ground (arith, answers)

take_byte-consume_to : (s : Scan) (c : ℕ) → (take_byte s c).consume_to ≡ s.consume_to
unfolding take_byte
take_byte-consume_to s c = ground arith

advance-consume_to :
    (offset : ℕ) (s : Scan) (c : ℕ)
    → s.consume_to ≤ offset
    → (advance offset s c).consume_to ≤ offset + 1
unfolding advance
advance-consume_to offset s c h = ground (arith, take_byte-consume_to s c)

-- The scan never consumes more than there is, and always has an answer.
scan_bound :
    (checksum : Bytes → ℕ) (ds : Bytes) (offset : ℕ) (s : Scan)
    → s.consume_to ≤ offset
    → ((scan checksum ds offset s).0 ≤ offset + length ds) × ((scan checksum ds offset s).1 ≢ none)
unfolding scan
scan_bound checksum [] offset s h = (omega arith, cc)
scan_bound checksum (c ∷ ds) offset s h =
    let next =
      scan_bound checksum ds (offset + 1) (advance offset s c) (advance-consume_to offset s c h) in
    let answers = end_frame_answers checksum s.pkt in ground (arith, next)

-- A receiver's step: it answers, and leaves a well-formed buffer.
abbrev pub Steps : Option (Port × Result Packet RecvError) → Type 0
Steps r =
    (p' : Port) × (res : Result Packet RecvError) × (r ≡ some (p', res)) × IoBuf.IsValid p'.rxbuf

recv_buffered-Steps :
    (checksum : Bytes → ℕ) (p : Port) → IoBuf.IsValid p.rxbuf → Steps (recv_buffered checksum p)
unfolding recv_buffered
recv_buffered-Steps checksum p v =
    let (few, answers) = scan_bound checksum (bytes p.rxbuf) 0 scan_start (omega arith) in
    go (scan checksum (bytes p.rxbuf) 0 scan_start) (omega (arith, length-bytes p.rxbuf v, few))
      answers
  where
    go :
        (r : ℕ × Option (Result Packet RecvError))
        → r.0 ≤ size p.rxbuf
        → r.1 ≢ none
        → Steps (consumed p r)
    go (n, none) few answers = absurd (answers refl)
    go (n, some res) few answers =
        let (p', done, valid, left) = consumed_few p v n res few in (p', res, done, valid)

kept-IsValid :
    {p p' : Port} {a b : Result Packet RecvError}
    → ◌≡◌ {A = Option (Port × Result Packet RecvError)} (some (p, a)) (some (p', b))
    → IoBuf.IsValid p'.rxbuf
    → IoBuf.IsValid p.rxbuf
kept-IsValid {p} {p'} e v = let same : p ≡ p' = ground arith in rw same v

flush-IsValid : (b : IoBuf) → IoBuf.IsValid b → IoBuf.IsValid (IoBuf.flush b)
flush-IsValid b v =
    unfold IoBuf.flush in record { whole = v.whole; ordered = omega arith; inside = omega arith }

module _ (checksum : Bytes → ℕ) (reader : ℕ → Result Bytes IoError) (now later : ℕ) where
  recv_refilled-Steps :
      (p : Port) (r : IoBuf × Result (Unit {0}) RecvError)
      → IoBuf.IsValid r.0
      → Steps (recv_refilled checksum p now later r)
  unfolding recv_refilled
  recv_refilled-Steps p (b, err e) v = (_, _, refl, v)
  recv_refilled-Steps p (b, ok done) v = elim (Bool-cases (p.first_rx && not (IoBuf.empty b))) [
    | inl first ↦ elim (Bool-cases (startup_holdoff p later)) [
      | inl early ↦ (
        record p { rxbuf = IoBuf.flush b; first_rx = false },
        err not_ready,
        rw (first, early) refl,
        flush-IsValid b v,
      )
      | inr running ↦
          rw (first, running)
            (recv_buffered-Steps checksum (record p { rxbuf = b; first_rx = false; last_rx = now })
              v)
    ]
    | inr known ↦ rw known (recv_buffered-Steps checksum (record p { rxbuf = b; last_rx = now }) v)
  ]

  drop_stale-IsValid : (p : Port) → IoBuf.IsValid p.rxbuf → IoBuf.IsValid (drop_stale p now)
  drop_stale-IsValid p v = elim (Bool-cases (ltb stale_time (now - p.last_rx))) [
    | inl stale ↦ unfold drop_stale in rw stale (flush-IsValid p.rxbuf v)
    | inr fresh ↦ unfold drop_stale in rw fresh v
  ]

  recv_with-Steps :
      (r : Option (Port × Result Packet RecvError))
      → IsReader reader
      → Steps r
      → Steps (recv_with checksum reader now later r)
  unfolding recv_with
  recv_with-Steps none lim (p', res, e, v) = absurd (let bad = e in cc)
  recv_with-Steps (some (p, err not_ready)) lim (p', res, e, v) =
      let valid : IoBuf.IsValid p.rxbuf = kept-IsValid e v in
      let (filled, held, answered) =
        refill_lem (drop_stale p now) (drop_stale-IsValid p valid) reader lim in
      recv_refilled-Steps p _ filled
  recv_with-Steps (some (p, res')) lim (p', res, e, v) = (p, res', refl, kept-IsValid e v)

  -- Whatever arrives and whenever it does, on a port with a well-formed buffer and a line that gives no
  -- more than it is asked for: no consumption of the buffer and no end of a frame panics in `recv`,
  -- which answers and leaves a well-formed buffer for the next call.
  pub recv-Steps :
      (p : Port)
      → IoBuf.IsValid p.rxbuf
      → IsReader reader
      → Steps (recv checksum p reader now later)
  unfolding recv
  recv-Steps p v lim = recv_with-Steps _ lim (recv_buffered-Steps checksum p v)
