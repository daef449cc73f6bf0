-- ===== src/Proto/Frame.antt =====
-- The form that every serialised payload has, before the route is added: a header without route or
-- ttl, then the body.
use twinleaf_rust.Shared.{
  ℕ, ◌%◌, ◌/◌, ◌≤◌, ◌≡◌, ◌∷◌, ◌++◌, arith, length, Bytes, ltb, if◌then◌else◌, Bool-cases, Result,
  ok, err, inl, inr, ltb→le,
}
use twinleaf_rust.Proto.Limits.{tio_packet_max_payload_size}
use twinleaf_rust.Proto.Header.{TioPktType, pkt_type_into, serialize_new_raw, serialize_new}

abbrev pub framed : ℕ → Bytes → Bytes
framed ty body = ty ∷ 0 ∷ length body % 256 ∷ length body / 256 % 256 ∷ body

-- What a payload's `serialize` answers, in terms of its body.
unfoldable pub frame : ℕ → Bytes → Result Bytes (Unit {0})
frame ty body =
    if ltb tio_packet_max_payload_size (length body) then err tt else ok (framed ty body)

pub serialize_new_raw-frame :
    (ty size : ℕ) (body : Bytes)
    → size ≡ length body
    → (if ltb 500 size then err tt else ok (serialize_new_raw ty 0 (size % 65536) ++ body))
      ≡ frame ty body
unfolding serialize_new_raw frame
serialize_new_raw-frame ty size body e = rw e (elim (Bool-cases (ltb 500 (length body))) [
  | inl big ↦ rw big
  | inr fits ↦ rw fits (let h = ltb→le 500 (length body) fits in ground arith)
])

pub serialize_new-frame :
    (ty : TioPktType) (size : ℕ) (body : Bytes)
    → size ≡ length body
    → (if ltb 500 size then err tt else ok (serialize_new ty 0 (size % 65536) ++ body))
      ≡ frame (pkt_type_into ty) body
unfolding serialize_new
serialize_new-frame ty size body e = serialize_new_raw-frame (pkt_type_into ty) size body e

pub frame-eq-ok :
    (ty : ℕ) (body raw : Bytes)
    → frame ty body ≡ ok raw
    → (raw ≡ framed ty body) × (length body ≤ tio_packet_max_payload_size)
unfolding frame
frame-eq-ok ty body raw e = ground arith
