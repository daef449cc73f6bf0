-- ===== src/Proto/Packet/Prefix.antt =====
-- Reading packets from a stream: how much is taken, that more bytes behind a packet change nothing,
-- and that the front part of a packet waits for the rest.
use twinleaf_rust.Shared.{
  ℕ, ◌-◌, ◌≤◌, ◌<◌, ◌≡◌, ◌≢◌, ap, sym, ◌∙◌, ◌++◌, reverse, arith, length, length-take,
  length-reverse, drop, le→ltb, get_or-append, slice, slice-append, Bytes, ok, err, Result-cases,
  inl, inr, some, none,
}
use twinleaf_rust.Proto.Limits.{need_more}
use twinleaf_rust.Proto.Header
use twinleaf_rust.Proto.Header.{TioPktHdr, packet_size, payload_offset, routing_offset}
use twinleaf_rust.Proto.Header.Bounds.{
  Accepts, deserialize-Accepts, Accepts-deserialize, deserialize_front, Accepts-append,
  packet_size-Accepts, routing_size-Accepts, packet_size_split, routing_offset_ge,
}
use twinleaf_rust.Proto.Route
use twinleaf_rust.Proto.Payload
use twinleaf_rust.Proto.Packet.{Packet, with_route, deserialize}
use twinleaf_rust.Proto.Packet.FullData.{read_as-Agrees}

hops : TioPktHdr → Bytes → Bytes
hops h raw = slice (routing_offset h) (packet_size h) raw

-- The parts of a successful parse.
record Parses (raw : Bytes) (p : Packet) (n : ℕ) : Type 0 where
  hdr : TioPktHdr
  accepts : Accepts raw hdr
  reads :
      Payload.deserialize hdr (slice (payload_offset hdr) (routing_offset hdr) raw) raw
      ≡ ok p.payload
  route : p.routing ≡ record { route = reverse (hops hdr raw) }
  ttl : p.ttl ≡ Header.ttl hdr
  size : n ≡ packet_size hdr

length-hops : (raw : Bytes) (h : TioPktHdr) → Accepts raw h → length (hops h raw) ≤ 8
unfolding hops
length-hops raw h a = omega (
  arith,
  length-take (packet_size h - routing_offset h) (drop (routing_offset h) raw),
  packet_size_split h,
  routing_size-Accepts raw h a,
  a.routing_fits,
)

from_bytes-hops :
    (raw : Bytes) (h : TioPktHdr)
    → Accepts raw h
    → Route.from_bytes (hops h raw) ≡ ok (record { route = reverse (hops h raw) })
unfolding Route.from_bytes
from_bytes-hops raw h a = rw (le→ltb 8 (length (hops h raw)) (length-hops raw h a))

with_route-eq :
    (h : TioPktHdr) (q : Payload.Payload) (r : Route.DeviceRoute) (p : Packet) (n : ℕ)
    → with_route h q (ok r) ≡ some (ok (p, n))
    → (q ≡ p.payload) × (p.routing ≡ r) × (p.ttl ≡ Header.ttl h) × (n ≡ packet_size h)
unfolding with_route
with_route-eq h q r p n e = ground arith

deserialize-Parses :
    (raw : Bytes) (p : Packet) (n : ℕ) → deserialize raw ≡ some (ok (p, n)) → Parses raw p n
unfolding deserialize hops
deserialize-Parses raw p n e = elim (Result-cases (Header.deserialize raw)) [
  | inr (x, h) ↦ let k = rw h at e in cc
  | inl (hdr, h) ↦
      let a = deserialize-Accepts raw hdr h in
      let body = slice (payload_offset hdr) (routing_offset hdr) raw in
      elim (Result-cases (Payload.deserialize hdr body raw)) [
        | inr (x, r) ↦ let k = rw (h, r) at e in cc
        | inl (q, r) ↦
            let k = rw (h, r, from_bytes-hops raw hdr a) at e in
            let (payload, route, ttl, size) = with_route-eq hdr q _ p n k in
            record {
              hdr = hdr;
              accepts = a;
              reads = r ∙ ap ok payload;
              route = route;
              ttl = ttl;
              size = size;
            }
      ]
]

Parses-deserialize :
    (raw : Bytes) (p : Packet) (n : ℕ) → Parses raw p n → deserialize raw ≡ some (ok (p, n))
unfolding deserialize with_route hops
Parses-deserialize raw p n s =
    rw (Accepts-deserialize raw s.hdr s.accepts) (
      rw s.reads
        (rw (from_bytes-hops raw s.hdr s.accepts) (ground (arith, s.route, s.ttl, s.size))))

Parses-append : (raw more : Bytes) (p : Packet) (n : ℕ) → Parses raw p n → Parses (raw ++ more) p n
unfolding hops Payload.deserialize payload_offset
Parses-append raw more p n s =
    let h = s.hdr in
    let size = packet_size-Accepts raw h s.accepts in
    let split = packet_size_split h in
    let there = s.accepts.packet_there in
    let same = get_or-append raw more 0 0 (omega (arith, s.accepts.header_there)) in
    record {
      hdr = h;
      accepts = Accepts-append raw more h s.accepts;
      reads =
          rw (slice-append 4 (routing_offset h) raw more (routing_offset_ge h) (omega arith))
            (read_as-Agrees raw (raw ++ more) (sym same) _ _ _ p.payload s.reads);
      route =
          rw (slice-append (routing_offset h) (packet_size h) raw more (omega arith) (omega arith))
            s.route;
      ttl = s.ttl;
      size = s.size;
    }

-- What a successful parse takes: a header at least, at most the 512 bytes of the largest packet,
-- and no more than there is. The route has at most 8 hops.
pub deserialize_takes :
    (raw : Bytes) (p : Packet) (n : ℕ)
    → deserialize raw ≡ some (ok (p, n))
    → (4 ≤ n) × (n ≤ length raw) × (n ≤ 512) × (length p.routing.route ≤ 8)
deserialize_takes raw p n e =
    let s = deserialize-Parses raw p n e in
    let size = packet_size-Accepts raw s.hdr s.accepts in
    let a = s.accepts.packet_there in
    let b = s.accepts.payload_fits in
    let c = s.accepts.routing_fits in
    let hop_count = ap (λ (x : Route.DeviceRoute). length x.route) s.route in
    let few = length-hops raw s.hdr s.accepts in
    let back = length-reverse (hops s.hdr raw) in
    let same = s.size in (omega arith, omega arith, omega arith, omega arith)

-- Bytes that follow a packet change nothing: the same packet is read, and as many bytes taken.
pub deserialize-append :
    (raw more : Bytes) (p : Packet) (n : ℕ)
    → deserialize raw ≡ some (ok (p, n))
    → deserialize (raw ++ more) ≡ some (ok (p, n))
deserialize-append raw more p n e =
    Parses-deserialize _ p n (Parses-append raw more p n (deserialize-Parses raw p n e))

-- The front of a packet's bytes, however short, is answered with the wish for more.
pub deserialize_front_waits :
    (front more : Bytes) (p : Packet) (n : ℕ)
    → deserialize (front ++ more) ≡ some (ok (p, n))
    → length front < n
    → deserialize front ≡ some (err need_more)
unfolding deserialize
deserialize_front_waits front more p n e short =
    let s = deserialize-Parses (front ++ more) p n e in
    let size = packet_size-Accepts (front ++ more) s.hdr s.accepts in
    rw (deserialize_front front more s.hdr s.accepts (omega (arith, s.size)))

-- The `expect` on the route never fails.
pub deserialize_no_panic : (raw : Bytes) → deserialize raw ≢ none
unfolding deserialize hops with_route
deserialize_no_panic raw e = elim (Result-cases (Header.deserialize raw)) [
  | inr (x, h) ↦ let k = rw h at e in cc
  | inl (hdr, h) ↦
      let a = deserialize-Accepts raw hdr h in
      let body = slice (payload_offset hdr) (routing_offset hdr) raw in
      elim (Result-cases (Payload.deserialize hdr body raw)) [
        | inr (x, r) ↦ let k = rw (h, r) at e in cc
        | inl (q, r) ↦ let k = rw (h, r, from_bytes-hops raw hdr a) at e in cc
      ]
]
