-- ===== src/Port/Serial/Frames.antt =====
-- Frames off the serial line.
use twinleaf_rust.Shared.{
  ℕ, ◌+◌, ◌-◌, ◌≤◌, ◌<◌, ◌≡◌, refl, ap, sym, ◌∙◌, true, false, [], ◌∷◌, ◌++◌, append-nil,
  append_assoc, arith, length, length-append, take-append, drop, drop-append, le→ltb, Bool-cases,
  inl, inr, ◌==◌, ==_iff, Bytes, u32_to_le, u32_le, IsU32, ok, err, some, Result,
}
use twinleaf_rust.Port.Errors.{RecvError, protocol}
use twinleaf_rust.Port.IoBuf
use twinleaf_rust.Port.IoBuf.{IoBuf, bytes, size}
use twinleaf_rust.Port.IoBuf.Queue.{consume_few, consumed-IsValid, bytes-consumed, length-bytes}
use twinleaf_rust.Port.Serial.{
  Port, scan_start, unprintable, is_newline, frame_parsed, end_frame, max_frame, scan, consumed,
  recv_buffered,
}
use twinleaf_rust.Port.Serial.Sender.{stuff, with_crc, encoded}
use twinleaf_rust.Port.Serial.Slip.{
  binary, stuff_mark, stuff_esc, stuff_plain, same_end, scan-stuff, scan_first_plain,
  scan_first_pair,
}
use twinleaf_rust.Proto.Limits.{packet_too_small}
use twinleaf_rust.Proto.Packet
use twinleaf_rust.Proto.Packet.{Packet}
use twinleaf_rust.Proto.Packet.RoundTrip.{packet_round_trip, length-serialize}
use twinleaf_rust.Proto.Payload.WellFormed.{IsWellFormed}
use twinleaf_rust.Proto.Payload.Size.{IsSendable}

-- A first byte that no line of text has, so that what follows is a frame.
pub record IsBinary (d : ℕ) : Type 0 where
  pub no_text : unprintable d ≡ true
  pub no_newline : is_newline d ≡ false

-- A frame at the front of the buffer is unstuffed, and consumed with its delimiter.
pub scan-frame :
    (checksum : Bytes → ℕ) (d : ℕ) (ds rest : Bytes)
    → IsBinary d
    → 1 + length ds < max_frame
    → scan checksum (stuff (d ∷ ds) ++ (0xC0 ∷ rest)) 0 scan_start
      ≡ (length (stuff (d ∷ ds)) + 1, end_frame checksum (d ∷ ds))
scan-frame checksum d ds rest h fits =
    let behind = stuff ds ++ (0xC0 ∷ rest) in
    let next = scan-stuff checksum ds (d ∷ []) rest in
    elim (Bool-cases (d == 0xC0)) [
      | inl mark ↦
          let same = (==_iff d 0xC0).0 mark in
          ap (λ x. scan checksum (stuff (x ∷ ds) ++ (0xC0 ∷ rest)) 0 scan_start) same
          ∙ rw (stuff_mark ds) (scan_first_pair checksum behind 0xDC refl)
          ∙ ap (λ x. scan checksum behind 2 (binary (x ∷ []) 0)) (sym same)
          ∙ next 2 0 (omega arith)
          ∙ same_end checksum (rw (same, stuff_mark ds) (omega arith)) refl
      | inr other ↦ elim (Bool-cases (d == 0xDB)) [
        | inl esc ↦
            let same = (==_iff d 0xDB).0 esc in
            ap (λ x. scan checksum (stuff (x ∷ ds) ++ (0xC0 ∷ rest)) 0 scan_start) same
            ∙ rw (stuff_esc ds) (scan_first_pair checksum behind 0xDD refl)
            ∙ ap (λ x. scan checksum behind 2 (binary (x ∷ []) 0)) (sym same)
            ∙ next 2 0 (omega arith)
            ∙ same_end checksum (rw (same, stuff_esc ds) (omega arith)) refl
        | inr plain ↦ rw (stuff_plain d ds other plain) (
            scan_first_plain checksum behind d h.no_text h.no_newline other plain
            ∙ next 1 0 (omega arith)
            ∙ same_end checksum (omega arith) refl)
      ]
    ]

-- The frame of a packet gives the packet.
end_frame-with_crc :
    (checksum : Bytes → ℕ) (pkt : Packet) (raw : Bytes)
    → IsU32 (checksum raw)
    → Packet.serialize pkt ≡ ok raw
    → IsWellFormed pkt.payload
    → 4 ≤ length raw
    → end_frame checksum (with_crc checksum raw) ≡ some (ok (record pkt { ttl = 0 }))
unfolding end_frame with_crc frame_parsed
end_frame-with_crc checksum pkt raw word e w big =
    let crc = u32_to_le (checksum raw) in
    let size = length-append raw crc in
    let len : length (raw ++ crc) - 4 ≡ length raw = omega arith in
    let parsed = rw (append-nil raw) at (packet_round_trip pkt raw [] e w) in
    rw (le→ltb (length (raw ++ crc)) 8 (omega arith), len)
      (rw (drop-append (length raw) raw crc refl, take-append (length raw) raw crc refl)
        (rw (parsed, u32_le (checksum raw) word) (ground arith)))

-- The scan's answer, with its bytes taken off the buffer.
module _ (p : Port) (v : IoBuf.IsValid p.rxbuf) where
  pub consumed_few :
      (n : ℕ) (res : Result Packet RecvError)
      → n ≤ size p.rxbuf
      → (p' : Port) × (consumed p (n, some res) ≡ some (p', res))
        × IoBuf.IsValid p'.rxbuf
        × (bytes p'.rxbuf ≡ drop n (bytes p.rxbuf))
  unfolding consumed
  consumed_few n res few = (
    record p { rxbuf = record (p.rxbuf) { start = p.rxbuf.start + n } },
    rw (consume_few p.rxbuf v n few, consumed) refl,
    consumed-IsValid p.rxbuf v n few,
    bytes-consumed p.rxbuf v n,
  )

-- `p` answers `res`, and `rest` stays in its buffer.
abbrev pub Takes : (Bytes → ℕ) → Port → Result Packet RecvError → Bytes → Port → Type 0
Takes checksum p res rest p' =
    (recv_buffered checksum p ≡ some (p', res)) × IoBuf.IsValid p'.rxbuf × (bytes p'.rxbuf ≡ rest)

recv_buffered-Takes :
    (checksum : Bytes → ℕ) (p : Port) (front rest : Bytes) (res : Result Packet RecvError)
    → IoBuf.IsValid p.rxbuf
    → bytes p.rxbuf ≡ front ++ rest
    → scan checksum (front ++ rest) 0 scan_start ≡ (length front, some res)
    → (p' : Port) × Takes checksum p res rest p'
unfolding recv_buffered
recv_buffered-Takes checksum p front rest res v e s =
    let few : length front ≤ size p.rxbuf =
      omega (arith, length-bytes p.rxbuf v, ap length e, length-append front rest) in
    let (p', done, valid, left) = consumed_few p v (length front) res few in
    let behind = left ∙ ap (drop (length front)) e ∙ drop-append (length front) front rest refl in
    (p', (rw (e, s) done, valid, behind))

-- A frame at the front of a well-formed buffer that begins with no character of a text and is no
-- longer than the longest packet with its CRC is answered by what `end_frame` says of its unstuffed
-- bytes, and it alone is consumed, damaged or not: what follows it stays for the next call.
pub recv_buffered_frame :
    (checksum : Bytes → ℕ) (p : Port) (d : ℕ) (ds rest : Bytes) (res : Result Packet RecvError)
    → IoBuf.IsValid p.rxbuf
    → bytes p.rxbuf ≡ stuff (d ∷ ds) ++ (0xC0 ∷ rest)
    → IsBinary d
    → 1 + length ds < max_frame
    → end_frame checksum (d ∷ ds) ≡ some res
    → (p' : Port) × Takes checksum p res rest p'
recv_buffered_frame checksum p d ds rest res v e binary_first fits answer =
    let cut = append_assoc (stuff (d ∷ ds)) (0xC0 ∷ []) rest in
    let size = length-append (stuff (d ∷ ds)) (0xC0 ∷ []) in
    let scanned = scan-frame checksum d ds rest binary_first fits in
    recv_buffered-Takes checksum p (stuff (d ∷ ds) ++ (0xC0 ∷ [])) rest res v (e ∙ sym cut)
      (ap (λ t. scan checksum t 0 scan_start) cut ∙ scanned ∙ rw (answer, size) refl)

-- The delimiter in front of a frame ends an empty one, which is too small.
recv_buffered_delimiter :
    (checksum : Bytes → ℕ) (p : Port) (rest : Bytes)
    → IoBuf.IsValid p.rxbuf
    → bytes p.rxbuf ≡ 0xC0 ∷ rest
    → (p' : Port) × Takes checksum p (err (protocol (packet_too_small []))) rest p'
recv_buffered_delimiter checksum p rest v e =
    recv_buffered-Takes checksum p (0xC0 ∷ []) rest (err (protocol (packet_too_small []))) v e
      (unfold scan is_newline end_frame in refl)

-- What `send` encodes comes out of the buffer as two answers: the delimiter in front is an empty
-- packet that is too small, then the packet follows, but for its ttl. Both are consumed, and what
-- follows them stays. The buffer and the payload are well-formed, a method name is shorter than
-- 64 KiB, the CRC is any function to 32 bits, and the packet's type is no character of a text.
pub recv_buffered-encoded :
    (checksum : Bytes → ℕ) (p : Port) (pkt : Packet) (d : ℕ) (raw rest : Bytes)
    → IoBuf.IsValid p.rxbuf
    → bytes p.rxbuf ≡ encoded checksum (d ∷ raw) ++ rest
    → Packet.serialize pkt ≡ ok (d ∷ raw)
    → IsWellFormed pkt.payload
    → IsSendable pkt.payload
    → IsBinary d
    → IsU32 (checksum (d ∷ raw))
    → (p' : Port) × (p'' : Port) × (behind : Bytes) × Takes checksum p
        (err (protocol (packet_too_small [])))
        behind
        p'
      × Takes checksum p' (ok (record pkt { ttl = 0 })) rest p''
unfolding encoded with_crc
recv_buffered-encoded checksum p pkt d raw rest v e s w sendable binary_first word =
    let limits = length-serialize pkt (d ∷ raw) s sendable in
    let crc = u32_to_le (checksum (d ∷ raw)) in
    let behind = stuff (d ∷ (raw ++ crc)) ++ (0xC0 ∷ rest) in
    let cut = append_assoc (stuff (d ∷ (raw ++ crc))) (0xC0 ∷ []) rest in
    let (p', (first, valid, left)) =
      recv_buffered_delimiter checksum p behind v (e ∙ ap (λ t. 0xC0 ∷ t) cut) in
    let (p'', taken) =
      recv_buffered_frame checksum p' d (raw ++ crc) rest (ok (record pkt { ttl = 0 })) valid left
        binary_first (omega (arith, length-append raw crc))
        (end_frame-with_crc checksum pkt (d ∷ raw) word s w (omega arith)) in
    (p', p'', behind, (first, valid, left), taken)
