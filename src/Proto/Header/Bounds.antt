-- ===== src/Proto/Header/Bounds.antt =====
-- What `TioPktHdr::deserialize` accepts, and what it has checked when it does.
use twinleaf_rust.Shared.{
  ℕ, ◌⊎◌, ◌+◌, ◌≤◌, ◌<◌, ◌≡◌, ◌↔◌, refl, ap, true, ◌++◌, arith, length, Bytes, byte, u16_from_le,
  bit_and, ok, err, length-append, get_or-append,
}
use twinleaf_rust.Proto.Limits.{need_more}
use twinleaf_rust.Proto.Header.{
  TioPktHdr, pkt_type_from, pkt_type_into-from, pkt_type_valid, packet_size, routing_size,
  routing_offset, deserialize,
}

-- The header of the bytes, if it is one that is accepted.
abbrev pub header_of : Bytes → TioPktHdr
header_of raw = record {
  pkt_type = byte raw 0;
  routing_size_and_ttl = byte raw 1;
  payload_size = u16_from_le (byte raw 2) (byte raw 3);
}

-- The types that no packet may have: 0 is invalid, and 9, 10 and 13 are reserved.
abbrev pub IsReserved : ℕ → Type 0
IsReserved ty = (ty ≡ 0) ⊎ (ty ≡ 9) ⊎ (ty ≡ 10) ⊎ (ty ≡ 13)

pub pkt_type_valid-IsReserved :
    (ty : ℕ) → (pkt_type_valid (pkt_type_from ty) ≡ true) ↔ (IsReserved ty → ⊥)
unfolding pkt_type_valid pkt_type_from
pkt_type_valid-IsReserved ty = ground arith

pub record Accepts (raw : Bytes) (h : TioPktHdr) : Type 0 where
  pub read : h ≡ header_of raw
  pub type_free : IsReserved (byte raw 0) → ⊥
  pub header_there : 4 ≤ length raw
  pub routing_fits : bit_and (byte raw 1) 0x0F ≤ 8
  pub payload_fits : u16_from_le (byte raw 2) (byte raw 3) ≤ 500
  pub packet_there :
      4 + u16_from_le (byte raw 2) (byte raw 3) + bit_and (byte raw 1) 0x0F ≤ length raw

pub deserialize-Accepts : (raw : Bytes) (h : TioPktHdr) → deserialize raw ≡ ok h → Accepts raw h
unfolding deserialize
deserialize-Accepts raw h e =
    ground (arith, pkt_type_into-from (byte raw 0), pkt_type_valid-IsReserved (byte raw 0))

pub Accepts-deserialize : (raw : Bytes) (h : TioPktHdr) → Accepts raw h → deserialize raw ≡ ok h
unfolding deserialize
Accepts-deserialize raw h a =
    let valid = (pkt_type_valid-IsReserved (byte raw 0)).1 a.type_free in
    ground (arith, pkt_type_into-from (byte raw 0), valid)

-- A part of the packet's bytes, from the front, is asked to go on.
pub deserialize_front :
    (front more : Bytes) (h : TioPktHdr)
    → Accepts (front ++ more) h
    → length front
      < 4
        + u16_from_le (byte (front ++ more) 2) (byte (front ++ more) 3)
        + bit_and (byte (front ++ more) 1) 0x0F
    → deserialize front ≡ err need_more
unfolding deserialize
deserialize_front front more h a short =
    let valid : 1 ≤ length front → pkt_type_valid (pkt_type_from (byte front 0)) ≡ true = λ there.
      (pkt_type_valid-IsReserved (byte front 0)).1
        (λ r. a.type_free (rw (get_or-append front more 0 0 there) r)) in
    ground (
      arith,
      valid,
      pkt_type_into-from (byte front 0),
      get_or-append front more 0 0,
      get_or-append front more 1 0,
      get_or-append front more 2 0,
      get_or-append front more 3 0,
    )

pub Accepts-append : (raw more : Bytes) (h : TioPktHdr) → Accepts raw h → Accepts (raw ++ more) h
Accepts-append raw more h a =
    let n = length-append raw more in
    let b0 = get_or-append raw more 0 0 (omega arith) in
    let b1 = get_or-append raw more 1 0 (omega arith) in
    let b2 = get_or-append raw more 2 0 (omega arith) in
    let b3 = get_or-append raw more 3 0 (omega arith) in
    record {
      read = ground arith;
      type_free = λ r. a.type_free (rw (← b0) r);
      header_there = omega arith;
      routing_fits = rw b1 a.routing_fits;
      payload_fits = rw (b2, b3) a.payload_fits;
      packet_there = rw (b1, b2, b3) (omega arith);
    }

pub packet_size-Accepts :
    (raw : Bytes) (h : TioPktHdr)
    → Accepts raw h
    → packet_size h ≡ 4 + u16_from_le (byte raw 2) (byte raw 3) + bit_and (byte raw 1) 0x0F
unfolding packet_size
packet_size-Accepts raw h a = ap packet_size a.read

pub routing_size-Accepts :
    (raw : Bytes) (h : TioPktHdr) → Accepts raw h → routing_size h ≡ bit_and (byte raw 1) 0x0F
unfolding routing_size
routing_size-Accepts raw h a = ap routing_size a.read

pub packet_size_split : (h : TioPktHdr) → packet_size h ≡ routing_offset h + routing_size h
unfolding packet_size
packet_size_split h = refl

pub routing_offset_ge : (h : TioPktHdr) → 4 ≤ routing_offset h
unfolding routing_offset
routing_offset_ge h = omega arith

-- A header is taken exactly where the type is none of the reserved ones, the sizes that it states
-- are within the limits, and the whole packet is there. It is then the one of the first four bytes.
pub header_taken_iff : (raw : Bytes) (h : TioPktHdr) → (deserialize raw ≡ ok h) ↔ Accepts raw h
header_taken_iff raw h = (deserialize-Accepts raw h, Accepts-deserialize raw h)
