-- ===== src/Proto/Packet/RoundTrip.antt =====
-- Reading back a packet that `Packet::serialize` wrote, with anything behind it.
use twinleaf_rust.Shared.{
  ℕ, suc, ◌+◌, ◌-◌, ◌≤◌, ◌≡◌, refl, true, ◌∷◌, ◌++◌, reverse, arith, length, length-append,
  length-reverse, append_assoc, slice, take-append, drop-append, Bytes, byte, zero-bit_or,
  low_nibble, ◌%◌, ◌/◌, ok, >>=-eq-ok, some,
}
use mathlib.Core.List.{reverse-reverse}
use twinleaf_rust.Proto.Header
use twinleaf_rust.Proto.Header.{TioPktHdr, pkt_type_from, pkt_type_valid}
use twinleaf_rust.Proto.Header.Bounds.{pkt_type_valid-IsReserved, Accepts, Accepts-deserialize}
use twinleaf_rust.Proto.Frame.{framed}
use twinleaf_rust.Proto.Route
use twinleaf_rust.Proto.Route.{DeviceRoute}
use twinleaf_rust.Proto.Payload
use twinleaf_rust.Proto.Payload.Size.{IsSendable, serialize-IsFramed}
use twinleaf_rust.Proto.Payload.RoundTrip.{serialize-Framing}
use twinleaf_rust.Proto.Payload.WellFormed.{IsWellFormed}
use twinleaf_rust.Proto.Packet.{Packet, deserialize, serialize}

-- A whole packet: the framed body with the route's length in the header and its hops at the end.
abbrev pub routed : ℕ → Bytes → DeviceRoute → Bytes
routed ty body r =
    ty ∷ length r.route ∷ length body % 256 ∷ length body / 256 % 256 ∷ (body ++ reverse r.route)

serialize-routed :
    (ty : ℕ) (body : Bytes) (r : DeviceRoute) (raw : Bytes)
    → Route.serialize r (framed ty body) ≡ ok raw
    → (raw ≡ routed ty body r) × (length r.route ≤ 8)
unfolding Route.serialize
serialize-routed ty body r raw e = ground (arith, zero-bit_or (length r.route % 256))

abbrev hdr_of : ℕ → Bytes → DeviceRoute → TioPktHdr
hdr_of ty body r = record {
  pkt_type = ty;
  routing_size_and_ttl = length r.route;
  payload_size = length body;
}

module _ (ty : ℕ) (body : Bytes) (r : DeviceRoute) (rest : Bytes) (fits : length body ≤ 500)
    (near : length r.route ≤ 8) where
  routed-Accepts :
      pkt_type_valid (pkt_type_from ty) ≡ true
      → Accepts (routed ty body r ++ rest) (hdr_of ty body r)
  routed-Accepts valid =
      let k = low_nibble (length r.route) (omega arith) in
      let n = length-append (body ++ reverse r.route) rest in
      let m = length-append body (reverse r.route) in
      let l = length-reverse r.route in
      record {
        read = ground arith;
        type_free = (pkt_type_valid-IsReserved ty).0 valid;
        header_there = omega arith;
        routing_fits = omega arith;
        payload_fits = omega arith;
        packet_there = omega arith;
      }

  routed_body : slice 4 (4 + length body) (routed ty body r ++ rest) ≡ body
  routed_body =
      rw (append_assoc body (reverse r.route) rest)
        (take-append (4 + length body - 4) body (reverse r.route ++ rest) (omega arith))

  routed_hops :
      slice (4 + length body) (4 + length body + length r.route) (routed ty body r ++ rest)
      ≡ reverse r.route
  routed_hops =
      let e : 4 + length body ≡ suc (suc (suc (suc (length body)))) = omega arith in
      rw (e, append_assoc body (reverse r.route) rest)
        (rw (drop-append (length body) body (reverse r.route ++ rest) refl)
          (take-append _ (reverse r.route) rest (omega (arith, length-reverse r.route))))

from_bytes-reverse :
    (r : DeviceRoute) → length r.route ≤ 8 → Route.from_bytes (reverse r.route) ≡ ok r
unfolding Route.from_bytes
from_bytes-reverse r h = rw (length-reverse r.route, reverse-reverse r.route) (ground arith)

deserialize-routed :
    (p : Payload.Payload) (r : DeviceRoute) (ty : ℕ) (body rest : Bytes)
    → length body ≤ 500
    → length r.route ≤ 8
    → pkt_type_valid (pkt_type_from ty) ≡ true
    → ((h : TioPktHdr) (full_data : Bytes)
        → h.pkt_type ≡ ty
        → byte full_data 0 ≡ ty
        → Payload.deserialize h body full_data ≡ ok p)
    → deserialize (routed ty body r ++ rest)
      ≡ some (ok (record { payload = p; routing = r; ttl = 0 }, length (routed ty body r)))
unfolding deserialize Header.ttl Header.packet_size
deserialize-routed p r ty body rest fits near valid reads =
    let nibble = low_nibble (length r.route) (omega arith) in
    let small : length r.route % 16 ≡ length r.route = omega arith in
    rw (Accepts-deserialize _ (hdr_of ty body r) (routed-Accepts ty body r rest fits near valid)) (
      rw (routed_body ty body r rest fits near) (
        rw (reads (hdr_of ty body r) _ refl refl) (
          rw (nibble, small)
            (rw (routed_hops ty body r rest fits near) (
              rw (from_bytes-reverse r near) (
                ground (
                  arith,
                  nibble,
                  small,
                  length-append body (reverse r.route),
                  length-reverse r.route,
                )))))))

-- Reading back what `serialize` wrote, with any bytes behind it: the packet is the one written,
-- but for its ttl, which is not sent, and exactly its bytes are taken. The payload is well-formed:
-- its fields are in their ranges, its texts are UTF-8, a catch-all stands for no named value, stream
-- data are not empty, metadata of a known kind carry no unknown variable part, and the fixed part of
-- metadata of an unknown kind tells its own size.
pub packet_round_trip :
    (p : Packet) (raw rest : Bytes)
    → serialize p ≡ ok raw
    → IsWellFormed p.payload
    → deserialize (raw ++ rest) ≡ some (ok (record p { ttl = 0 }, length raw))
unfolding serialize
packet_round_trip p raw rest e w =
    let (ret, s, q) = >>=-eq-ok (Payload.serialize p.payload) _ e in
    let f = serialize-Framing p.payload ret s w in
    let (shape, near) = serialize-routed f.ty f.body p.routing raw (rw f.shape at q) in
    rw shape
      (deserialize-routed p.payload p.routing f.ty f.body rest f.fits near f.type_valid f.reads)

-- Whatever is serialised fits the limits of the protocol, provided that a method's name fits the
-- 16 bits of its length.
pub length-serialize :
    (p : Packet) (raw : Bytes)
    → serialize p ≡ ok raw
    → IsSendable p.payload
    → (4 ≤ length raw) × (length raw ≤ 512)
unfolding serialize
length-serialize p raw e h =
    let (ret, s, q) = >>=-eq-ok (Payload.serialize p.payload) _ e in
    let f = serialize-IsFramed p.payload ret s h in
    let (shape, near) = serialize-routed f.ty f.body p.routing raw (rw f.shape at q) in
    let both = length-append f.body (reverse p.routing.route) in
    let back = length-reverse p.routing.route in
    let size = f.fits in rw shape (omega arith, omega arith)
