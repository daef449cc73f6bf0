-- ===== src/Port/Serial/Sending.antt =====
-- A frame goes out whole on the serial line: what the line does not take is kept for `drain`.
use twinleaf_rust.Shared.{
  ℕ, ◌≡◌, refl, ap, ◌∙◌, true, [], ◌∷◌, ◌++◌, append-nil, length, length-append, length-drop, drop,
  take, take_all, take-append-drop, Bytes, u32_to_le, Result, ok, err, Option, some, inl, inr,
  arith, ◌+◌, ◌*◌, ◌≤◌, ◌==◌, if◌then◌else◌, Bool-cases,
}
use twinleaf_rust.Port.Errors.{IoError, would_block, SendError, must_drain}
use twinleaf_rust.Port.IoBuf
use twinleaf_rust.Port.IoBuf.{IoBuf, bytes, size, iobuf_size}
use twinleaf_rust.Port.IoBuf.Idle.{bytes_idle, add_data_idle}
use twinleaf_rust.Port.IoBuf.Streams.{IsWriter}
use twinleaf_rust.Port.Serial.{Port}
use twinleaf_rust.Port.Serial.Sender.{stuff, with_crc, encoded, keep_rest, after_write, send}
use twinleaf_rust.Proto.Packet
use twinleaf_rust.Proto.Packet.{Packet}
use twinleaf_rust.Proto.Packet.RoundTrip.{length-serialize}
use twinleaf_rust.Proto.Payload.Size.{IsSendable}

length-stuff : (ds : Bytes) → length (stuff ds) ≤ 2 * length ds
unfolding stuff
length-stuff [] = omega arith
length-stuff (c ∷ ds) = ground (arith, length-stuff ds)

length-encoded :
    (checksum : Bytes → ℕ) (raw : Bytes) → length (encoded checksum raw) ≤ 2 * length raw + 10
unfolding encoded with_crc
length-encoded checksum raw =
    let framed = raw ++ u32_to_le (checksum raw) in
    omega (
      arith,
      length-stuff framed,
      length-append raw (u32_to_le (checksum raw)),
      length-append (stuff framed) (0xC0 ∷ []),
    )

-- How a frame is split between the line and the buffer, by the line's answer.
abbrev pub Sent : Result ℕ IoError → Bytes → Port → Port → Result (Unit {0}) SendError → Type 0
Sent (ok n) frame p p' a =
    (take n frame ++ bytes p'.txbuf ≡ frame)
    × (a ≡ (if n == length frame then ok tt else err must_drain))
Sent (err would_block) frame p p' a = (bytes p'.txbuf ≡ frame) × (a ≡ err must_drain)
Sent (err e) frame p p' a = (p' ≡ p) × (a ≡ err (SendError.io e))

-- A step of the sender from `p` that ends in `Sent`, with a well-formed buffer.
abbrev pub Writes :
    Port → Option (Port × Result (Unit {0}) SendError) → Result ℕ IoError → Bytes → Type 0
Writes p r answer frame =
    (p' : Port) × (a : Result (Unit {0}) SendError) × (r ≡ some (p', a))
    × IoBuf.IsValid p'.txbuf
    × Sent answer frame p p' a

module _ (p : Port) (v : IoBuf.IsValid p.txbuf) (idle : size p.txbuf ≡ 0) where
  keep_rest_ok :
      (r : IoBuf × Result (Unit {0}) ℕ)
      → r.1 ≡ ok tt
      → keep_rest p r ≡ some (record p { txbuf = r.0 }, err must_drain)
  unfolding keep_rest
  keep_rest_ok (b, ok t) e = refl
  keep_rest_ok (b, err n) e = cc

  keep_rest_fits :
      (d : Bytes)
      → length d ≤ iobuf_size
      → (p' : Port) × (keep_rest p (IoBuf.add_data p.txbuf d) ≡ some (p', err must_drain))
        × IoBuf.IsValid p'.txbuf
        × (bytes p'.txbuf ≡ d)
  keep_rest_fits d h =
      let (valid, held, fine) = add_data_idle p.txbuf v idle d h in
      (record p { txbuf = (IoBuf.add_data p.txbuf d).0 }, keep_rest_ok _ fine, valid, held)

  after_write-Writes :
      (frame : Bytes) (r : Result ℕ IoError)
      → length frame ≤ iobuf_size
      → ((n : ℕ) → r ≡ ok n → n ≤ length frame)
      → Writes p (after_write p frame r) r frame
  unfolding after_write
  after_write-Writes frame (ok n) h lim = elim (Bool-cases (n == length frame)) [
    | inl whole ↦
        let all_sent =
          ap (λ t. take n frame ++ t) (bytes_idle p.txbuf v idle)
          ∙ append-nil (take n frame)
          ∙ take_all n frame (ground arith) in
        (p, ok tt, rw whole refl, v, (all_sent, rw whole refl))
    | inr part ↦
        let short = length-drop n frame in
        let (p', kept, valid, held) = keep_rest_fits (drop n frame) (omega arith) in
        let together = ap (λ t. take n frame ++ t) held ∙ take-append-drop n frame in
        (p', err must_drain, rw part kept, valid, (together, rw part refl))
  ]
  after_write-Writes frame (err would_block) h lim =
      let (p', kept, valid, held) = keep_rest_fits frame h in
      (p', err must_drain, kept, valid, (held, refl))
  after_write-Writes frame (err e) h lim = (p, err (SendError.io e), refl, v, (refl, refl))

  -- Of a packet that can be serialised, whose method name, if any, is shorter than 64 KiB, and on an
  -- idle port with a well-formed buffer whose line takes no more than it is offered: where the line
  -- takes bytes or would block, the bytes that it took and those that are kept for `drain` are
  -- together the packet's frame, in order, and the answer says whether a drain is needed. On any other
  -- error nothing is kept, the port is unchanged, and the answer is the error. Neither the stuffing
  -- nor the CRC makes a frame too long for the buffer, so that the port does not panic.
  pub serial_send_whole :
      (checksum : Bytes → ℕ) (pkt : Packet) (raw : Bytes) (writer : Bytes → Result ℕ IoError)
      → IsWriter writer
      → IsSendable pkt.payload
      → Packet.serialize pkt ≡ ok raw
      → let frame = encoded checksum raw in
        Writes p (send checksum p writer pkt) (writer frame) frame
  serial_send_whole checksum pkt raw writer lim h e =
      let small = length-serialize pkt raw e h in
      let (p', a, done, valid, sent) =
        after_write-Writes (encoded checksum raw) (writer (encoded checksum raw))
          (omega (arith, length-encoded checksum raw)) (λ n k. lim (encoded checksum raw) n k) in
      (p', a, send_idle ∙ done, valid, sent)
    where
      send_idle :
          send checksum p writer pkt
          ≡ after_write p (encoded checksum raw) (writer (encoded checksum raw))
      send_idle =
          unfold send IoBuf.empty IoBuf.size in
          let ordered = v.ordered in
          let level : (p.txbuf.start == p.txbuf.end) ≡ true = ground arith in rw level (rw e refl)
