-- ===== src/Proto/Rpc/Request.antt =====
-- `RpcMethod` and `RpcRequestPayload` of twinleaf/src/tio/proto/rpc.rs.
use twinleaf_rust.Shared.{
  ℕ, suc, ◌+◌, ◌-◌, ◌≤◌, ◌<◌, ◌≡◌, refl, ap, ◌∙◌, ◌∷◌, ◌++◌, arith, ltb, ◌==◌, not, if◌then◌else◌,
  length, length-append, drop, slice, take-append, drop-append, Bytes, byte, u16_from_le, u16_to_le,
  u16_le, IsU16, Result, ok, err, ◌>>=◌, ◌%◌, bit_and, bit_or, set_top, top_set, below_top,
  top_clear,
}
use twinleaf_rust.Text.{Text, from_utf8_lossy, IsUtf8, from_utf8_lossy-IsUtf8}
use twinleaf_rust.Proto.Limits.{Error, too_small, invalid_payload, tio_packet_max_payload_size}
use twinleaf_rust.Proto.Header.{rpc_req, serialize_new, pkt_type_into}
use twinleaf_rust.Proto.Frame.{frame, serialize_new-frame}

pub data RpcMethod : Type 0 where
  by_id : ℕ → RpcMethod
  by_name : Text → RpcMethod

pub record RpcRequestPayload : Type 0 where
  pub id : ℕ
  pub method : RpcMethod
  pub arg : Bytes

-- The method, and where the argument starts.
unfoldable pub read_method : ℕ → Bytes → Bytes → Result (RpcMethod × ℕ) Error
read_method method raw full_data =
    if not (bit_and method 0x8000 == 0)
    then (let arg_start = bit_and method 0x7FFF + 4 in
        if ltb tio_packet_max_payload_size arg_start
        then err (invalid_payload full_data)
        else if ltb (length raw) arg_start
        then err (too_small full_data)
        else ok (by_name (from_utf8_lossy (slice 4 arg_start raw)), arg_start))
    else ok (by_id method, 4)

unfoldable pub deserialize : Bytes → Bytes → Result RpcRequestPayload Error
deserialize raw full_data = if ltb (length raw) 4 then err (too_small full_data) else do
  let id = u16_from_le (byte raw 0) (byte raw 1)
  let method = u16_from_le (byte raw 2) (byte raw 3)
  (method', arg_start) ← read_method method raw full_data
  ok (record { id = id; method = method'; arg = drop arg_start raw })

-- `method_name.as_bytes().len() as u16`
abbrev pub method_name_len : RpcMethod → ℕ
method_name_len (by_id m) = 0
method_name_len (by_name n) = length n % 65536

unfoldable pub method_bytes : RpcMethod → Bytes
method_bytes (by_id m) = u16_to_le m
method_bytes (by_name n) = u16_to_le (bit_or (length n % 65536) 0x8000) ++ n

unfoldable pub serialize : RpcRequestPayload → Result Bytes (Unit {0})
unfolding serialize_new method_bytes
serialize p =
    let payload_size = 4 + method_name_len p.method + length p.arg in
    if ltb tio_packet_max_payload_size payload_size
    then err tt
    else ok (
        serialize_new rpc_req 0 (payload_size % 65536)
        ++ (u16_to_le p.id ++ (method_bytes p.method ++ p.arg)))

abbrev pub body : RpcRequestPayload → Bytes
body p = u16_to_le p.id ++ (method_bytes p.method ++ p.arg)

-- A method number has its top bit clear. A name's length is kept in 16 bits.
abbrev pub IsMethod : RpcMethod → Type 0
IsMethod (by_id m) = m < 0x8000
IsMethod (by_name n) = IsUtf8 n × IsU16 (length n)

pub record IsValid (p : RpcRequestPayload) : Type 0 where
  pub id_range : IsU16 p.id
  pub method_valid : IsMethod p.method

length-method_bytes : (m : RpcMethod) → IsMethod m → length (method_bytes m) ≡ 2 + method_name_len m
unfolding method_bytes
length-method_bytes (by_id m) h = omega arith
length-method_bytes (by_name n) h = omega arith

pub serialize-frame :
    (p : RpcRequestPayload) → IsValid p → serialize p ≡ frame (pkt_type_into rpc_req) (body p)
unfolding serialize
serialize-frame p v = serialize_new-frame rpc_req _ (body p) (
    omega (
      arith,
      length-append (method_bytes p.method) p.arg,
      length-method_bytes p.method v.method_valid,
    ))

read_method-by_id :
    (m : ℕ) (raw full_data : Bytes) → m < 0x8000 → read_method m raw full_data ≡ ok (by_id m, 4)
unfolding read_method
read_method-by_id m raw full_data h = rw (top_clear m h) refl

read_method-by_name :
    (b0 b1 b2 b3 : ℕ) (n : Text) (arg full_data : Bytes)
    → IsUtf8 n
    → length n ≤ 496
    → read_method (length n + 0x8000) (b0 ∷ b1 ∷ b2 ∷ b3 ∷ (n ++ arg)) full_data
      ≡ ok (by_name n, suc (suc (suc (suc (length n)))))
unfolding read_method
read_method-by_name b0 b1 b2 b3 n arg full_data u h = ground (
  arith,
  top_set (length n),
  below_top (length n),
  length-append n arg,
  take-append (length n + 4 - 4) n arg,
  from_utf8_lossy-IsUtf8 u,
)

deserialize-method :
    (i : ℕ) (m : RpcMethod) (arg full_data : Bytes)
    → IsU16 i
    → IsMethod m
    → method_name_len m ≤ 496
    → deserialize (u16_to_le i ++ (method_bytes m ++ arg)) full_data
      ≡ ok (record { id = i; method = m; arg = arg })
unfolding deserialize method_bytes
deserialize-method i (by_id m) arg full_data hi hm h =
    rw (u16_le i hi, u16_le m (omega arith))
      (ground (arith, read_method-by_id m (u16_to_le i ++ (u16_to_le m ++ arg)) full_data hm))
deserialize-method i (by_name n) arg full_data hi hm h =
    let word : bit_or (length n % 65536) 0x8000 ≡ length n + 0x8000 =
      ap (λ t. bit_or t 0x8000) (omega arith) ∙ set_top (length n) (omega arith) in
    rw word (
      rw (u16_le i hi, u16_le (length n + 0x8000) (omega arith))
        (rw (read_method-by_name _ _ _ _ n arg full_data hm.0 (omega arith))
          (rw (drop-append (length n) n arg refl) (ground arith))))

pub deserialize-body :
    (p : RpcRequestPayload) (full_data : Bytes)
    → IsValid p
    → length (body p) ≤ tio_packet_max_payload_size
    → deserialize (body p) full_data ≡ ok p
deserialize-body p full_data v h =
    deserialize-method p.id p.method p.arg full_data v.id_range v.method_valid (
      omega (
        arith,
        length-append (method_bytes p.method) p.arg,
        length-method_bytes p.method v.method_valid,
      ))
