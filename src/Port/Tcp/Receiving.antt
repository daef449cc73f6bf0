-- ===== src/Port/Tcp/Receiving.antt =====
-- Packets out of the received bytes.
use twinleaf_rust.Shared.{
  ℕ, ◌≡◌, ◌≢◌, refl, ap, ◌∙◌, List, [], ◌∷◌, ◌++◌, map, append_assoc, length, drop, drop-append,
  Bytes, Result, ok, err, some, none, Option-cases, inl, inr, arith, ◌≤◌, ◌+◌,
}
use twinleaf_rust.Port.IoBuf
use twinleaf_rust.Port.IoBuf.{IoBuf, bytes, size}
use twinleaf_rust.Port.IoBuf.Queue.{length-bytes, consume_few, consumed-IsValid, bytes-consumed}
use twinleaf_rust.Port.Tcp.{Port, take_packet, recv_buffered}
use twinleaf_rust.Proto.Limits.{Error}
use twinleaf_rust.Proto.Packet
use twinleaf_rust.Proto.Packet.{Packet}
use twinleaf_rust.Proto.Packet.Prefix.{deserialize_takes, deserialize_no_panic}
use twinleaf_rust.Proto.Packet.RoundTrip.{packet_round_trip}
use twinleaf_rust.Proto.Payload.WellFormed.{IsWellFormed}

-- A parsed packet is taken off the buffer, and what follows it stays.
recv_buffered_packet :
    (p : Port) (pkt : Packet) (n : ℕ)
    → IoBuf.IsValid p.rxbuf
    → Packet.deserialize (bytes p.rxbuf) ≡ some (ok (pkt, n))
    → (p' : Port) × (recv_buffered p ≡ some (p', ok pkt))
      × IoBuf.IsValid p'.rxbuf
      × (bytes p'.rxbuf ≡ drop n (bytes p.rxbuf))
      × (p'.txbuf ≡ p.txbuf)
unfolding recv_buffered
recv_buffered_packet p pkt n v e =
    let few : n ≤ size p.rxbuf =
      omega (arith, deserialize_takes _ pkt n e, length-bytes p.rxbuf v) in
    (
      record p { rxbuf = record (p.rxbuf) { start = p.rxbuf.start + n } },
      rw e (rw (consume_few p.rxbuf v n few, take_packet) refl),
      consumed-IsValid p.rxbuf v n few,
      bytes-consumed p.rxbuf v n,
      refl,
    )

-- No bytes make the receiver panic.
recv_buffered_cases :
    (p : Port) (r : Result (Packet × ℕ) Error)
    → IoBuf.IsValid p.rxbuf
    → Packet.deserialize (bytes p.rxbuf) ≡ some r
    → recv_buffered p ≢ none
recv_buffered_cases p (err x) v e k = unfold recv_buffered in let h = rw e at k in cc
recv_buffered_cases p (ok (pkt, n)) v e k = let done = (recv_buffered_packet p pkt n v e).1 in cc

-- Whatever bytes a well-formed buffer holds, the port answers: no packet is longer than the buffer's bytes.
pub recv_buffered_no_panic : (p : Port) → IoBuf.IsValid p.rxbuf → recv_buffered p ≢ none
recv_buffered_no_panic p v = elim (Option-cases (Packet.deserialize (bytes p.rxbuf))) [
  | inl bad ↦ absurd (deserialize_no_panic (bytes p.rxbuf) bad)
  | inr (r, e) ↦ recv_buffered_cases p r v e
]

-- The bytes of a run of packets, one behind the other.
pub data Wire : List Packet → Bytes → Type 0 where
  nil : Wire [] []
  cons :
      {pkts : List Packet} {rest : Bytes} (pkt : Packet) (raw : Bytes)
      → Packet.serialize pkt ≡ ok raw
      → IsWellFormed pkt.payload
      → Wire pkts rest
      → Wire (pkt ∷ pkts) (raw ++ rest)

-- What calls of `recv_buffered` that answer with these packets lead to.
pub data Receives : Port → List Packet → Port → Type 0 where
  none_left : (p : Port) → Receives p [] p
  receive :
      {p : Port} {pkts : List Packet} {r : Port} (q : Port) (pkt : Packet)
      → recv_buffered p ≡ some (q, ok pkt)
      → Receives q pkts r
      → Receives p (pkt ∷ pkts) r

-- A packet as the far end sees it.
abbrev pub sent_form : Packet → Packet
sent_form pkt = record pkt { ttl = 0 }

-- Serialised packets with well-formed payloads that stand in a well-formed buffer, with any bytes
-- behind them, come out one for one and in order, but for their ttl, and those bytes stay.
pub Wire-Receives :
    {pkts : List Packet} {wire : Bytes} (p : Port) (rest : Bytes)
    → IoBuf.IsValid p.rxbuf
    → Wire pkts wire
    → bytes p.rxbuf ≡ wire ++ rest
    → (q : Port) × Receives p (map sent_form pkts) q
      × IoBuf.IsValid q.rxbuf
      × (bytes q.rxbuf ≡ rest)
Wire-Receives p rest v nil e = (p, none_left p, v, e)
Wire-Receives p rest v (cons {rest = more} pkt raw s w wire) e =
    let there = e ∙ append_assoc raw more rest in
    let parsed = ap Packet.deserialize there ∙ packet_round_trip pkt raw (more ++ rest) s w in
    let (q, done, v', left, tx) = recv_buffered_packet p (sent_form pkt) (length raw) v parsed in
    let behind = left ∙ ap (drop (length raw)) there ∙ drop-append (length raw) raw _ refl in
    let (r, received, v'', end) = Wire-Receives q rest v' wire behind in
    (r, receive q (sent_form pkt) done received, v'', end)
