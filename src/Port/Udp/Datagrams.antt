-- ===== src/Port/Udp/Datagrams.antt =====
-- What comes out of a datagram.
use twinleaf_rust.Shared.{
  ℕ, ◌+◌, ◌≤◌, ◌<◌, ◌≡◌, ◌≢◌, refl, [], ◌++◌, append-nil, arith, length, take, take_all,
  length-append, ◌==◌, if◌then◌else◌, Bytes, Result, ok, err, some, none, Option-cases, inl, inr,
}
use twinleaf_rust.Port.Errors.{invalid_data, RecvError, not_ready, protocol}
use twinleaf_rust.Port.Udp.{datagram_error, recv_size, recv_parsed, recv}
use twinleaf_rust.Proto.Limits.{Error, need_more, packet_too_small}
use twinleaf_rust.Proto.Packet
use twinleaf_rust.Proto.Packet.{Packet}
use twinleaf_rust.Proto.Packet.Prefix.{deserialize_front_waits, deserialize_no_panic}
use twinleaf_rust.Proto.Packet.RoundTrip.{packet_round_trip}
use twinleaf_rust.Proto.Payload.WellFormed.{IsWellFormed}

-- A datagram that holds a serialised packet with a well-formed payload and nothing else is received as that packet, but for its ttl.
-- With more bytes behind the packet, up to the 1024 that are read, it is refused as invalid data.
pub recv-serialize :
    (pkt : Packet) (raw more : Bytes)
    → Packet.serialize pkt ≡ ok raw
    → IsWellFormed pkt.payload
    → length raw + length more ≤ recv_size
    → recv (ok (raw ++ more))
      ≡ some (
          if length more == 0 then ok (record pkt { ttl = 0 }) else err (RecvError.io invalid_data))
unfolding recv recv_parsed
recv-serialize pkt raw more e w fits =
    let all = take_all recv_size (raw ++ more) (omega (arith, length-append raw more)) in
    rw all (rw (packet_round_trip pkt raw more e w) (ground (arith, length-append raw more)))

datagram_error_final : (got : Bytes) (e : Error) → datagram_error got e ≢ not_ready
datagram_error_final got need_more = cc
datagram_error_final got e = cc

recv_parsed_answers :
    (got : Bytes) (r : Result (Packet × ℕ) Error)
    → (recv_parsed got (some r) ≢ none) × (recv_parsed got (some r) ≢ some (err not_ready))
unfolding recv_parsed
recv_parsed_answers got (ok (pkt, n)) = ground arith
recv_parsed_answers got (err e) = (cc, λ same. datagram_error_final got e (ground arith))

-- A datagram is always an answer: its reception neither panics nor reports that nothing is ready.
pub recv_answers :
    (datagram : Bytes) → (recv (ok datagram) ≢ none) × (recv (ok datagram) ≢ some (err not_ready))
unfolding recv
recv_answers datagram =
    let got = take recv_size datagram in
    elim (Option-cases (Packet.deserialize got)) [
      | inl bad ↦ absurd (deserialize_no_panic got bad)
      | inr (r, e) ↦ rw e (recv_parsed_answers got r)
    ]

-- A serialised packet with a well-formed payload that is cut in its datagram is refused as too small, with the bytes that came.
pub recv_cut :
    (pkt : Packet) (front more : Bytes)
    → Packet.serialize pkt ≡ ok (front ++ more)
    → IsWellFormed pkt.payload
    → 0 < length more
    → length front ≤ recv_size
    → recv (ok front) ≡ some (err (protocol (packet_too_small front)))
unfolding recv recv_parsed
recv_cut pkt front more e w some_missing fits =
    let whole = packet_round_trip pkt (front ++ more) [] e w in
    let same = append-nil (front ++ more) in
    let size = length-append front more in
    let waits =
      deserialize_front_waits front more (record pkt { ttl = 0 }) (length (front ++ more))
        (rw same at whole) (omega arith) in
    rw (take_all recv_size front fits) (rw waits refl)
