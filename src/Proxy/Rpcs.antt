-- ===== src/Proxy/Rpcs.antt =====
-- The RPCs in flight of twinleaf/src/tio/proxy_core.rs: `rpc_map`, which gives the client and the id
-- behind each id on the wire, and `rpc_timeouts`, which orders them by time. Instants and durations
-- are nanoseconds. `none` is a panic.
pub mod Timeouts
pub mod Tracking
pub mod Answers
pub mod Dispatch
use twinleaf_rust.Shared.{
  ℕ, ◌+◌, ◌%◌, ◌≡◌, Bool, true, false, not, List, [], ◌∷◌, length, ◌==◌, ltb, if◌then◌else◌, Result,
  ok, err, Option, some, none, lookup, remove, insert, set_insert, set_remove,
}
use twinleaf_rust.Proto.Packet.{Packet}
use twinleaf_rust.Proto.Payload.{Payload, rpc_request}
use twinleaf_rust.Proto.Route.{DeviceRoute, bytes_eq}
use twinleaf_rust.Proto.Rpc.ErrorCode.{RpcErrorCode, out_of_memory, undefined}
use twinleaf_rust.Proto.Rpc.Request.{RpcRequestPayload}
use twinleaf_rust.Proxy.Client.{ProxyClient}
use twinleaf_rust.Util.{make_rpc_error}

pub record RpcMapEntry : Type 0 where
  pub id : ℕ
  pub client : ℕ
  pub route : DeviceRoute
  pub timeout : ℕ

pub record Rpcs : Type 0 where
  pub next_rpc_id : ℕ
  pub rpc_map : List (ℕ × RpcMapEntry)
  pub rpc_timeouts : List (ℕ × List ℕ)

unfoldable pub new : Rpcs
new = record { next_rpc_id = 0; rpc_map = []; rpc_timeouts = [] }

-- An id joins the set of its instant. The map is in the order of its keys.
unfoldable pub add_timeout : ℕ → ℕ → List (ℕ × List ℕ) → List (ℕ × List ℕ)
add_timeout t id [] = (t, id ∷ []) ∷ []
add_timeout t id ((t', ids) ∷ later) =
    let rest = add_timeout t id later in
    if t == t'
    then (t', set_insert id ids) ∷ later
    else if ltb t t'
    then (t, id ∷ []) ∷ (t', ids) ∷ later
    else (t', ids) ∷ rest

-- An id leaves the set of its instant, and an empty set the map.
unfoldable pub drop_timeout : ℕ → ℕ → List (ℕ × List ℕ) → List (ℕ × List ℕ)
drop_timeout t id [] = []
drop_timeout t id ((t', ids) ∷ later) =
    let rest = drop_timeout t id later in
    let left = set_remove id ids in
    if t == t' then (if length left == 0 then later else (t', left) ∷ later) else (t', ids) ∷ rest

unfoldable pub restored : Rpcs → ℕ → DeviceRoute → Option RpcMapEntry → Rpcs × Option (ℕ × ℕ)
unfolding drop_timeout
restored s wire_id route none = (s, none)
restored s wire_id route (some remap) =
    let without = remove wire_id s.rpc_map in
    if not (bytes_eq remap.route.route route.route)
    then (record s { rpc_map = insert wire_id remap without }, none)
    else (
      record s {
        rpc_map = without;
        rpc_timeouts = drop_timeout remap.timeout wire_id s.rpc_timeouts;
      },
      some (remap.client, remap.id),
    )

unfoldable pub rpc_restore : Rpcs → ℕ → DeviceRoute → Rpcs × Option (ℕ × ℕ)
unfolding restored
rpc_restore s wire_id route = restored s wire_id route (lookup wire_id s.rpc_map)

-- One second for the proxy's own RPCs, whose client is 0.
abbrev pub internal_timeout : ℕ
internal_timeout = 1000000000

unfoldable pub timeout_of : (ℕ → Option ProxyClient) → ℕ → Option ℕ
timeout_of clients client_id =
    if not (client_id == 0)
    then elim (clients client_id) [ none ↦ none | some c ↦ some c.rpc_timeout ]
    else some internal_timeout

-- The RPCs after a packet was forwarded, what the device was given to send, if there is one, and
-- the answer: an error is a packet for the client.
pub record Forwarded : Type 0 where
  pub rpcs : Rpcs
  pub offered : Option Packet
  pub answer : Result (Unit {0}) Packet

abbrev pub offer : Option (Packet → Bool) → Packet → Option Packet
offer none pkt = none
offer (some device) pkt = some pkt

-- What the device, if there is one, says of a packet: whether it was sent.
abbrev pub is_sent : Option (Packet → Bool) → Packet → Bool
is_sent none pkt = false
is_sent (some device) pkt = device pkt

abbrev pub with_request : Packet → RpcRequestPayload → ℕ → Packet
with_request pkt req wire_id = record pkt { payload = rpc_request (record req { id = wire_id }) }

-- A request with a free id on the wire, entered into the map.
unfoldable pub forward_mapped :
    Option (Packet → Bool) → Rpcs → Packet → RpcRequestPayload → ℕ → RpcMapEntry → Option Forwarded
unfolding add_timeout
forward_mapped device s pkt req wire_id entry =
    let mapped = insert wire_id entry s.rpc_map in
    if is_sent device (with_request pkt req wire_id)
    then some (record {
      rpcs = record s {
        rpc_map = mapped;
        rpc_timeouts = add_timeout entry.timeout wire_id s.rpc_timeouts;
      };
      offered = offer device (with_request pkt req wire_id);
      answer = ok tt;
    })
    else elim (lookup wire_id mapped) [
      | none ↦ none
      | some remap ↦ some (record {
        rpcs = record s { rpc_map = remove wire_id mapped };
        offered = offer device (with_request pkt req wire_id);
        answer = err (make_rpc_error remap.id undefined remap.route);
      })
    ]

unfoldable pub forward_timed :
    Option (Packet → Bool)
    → ℕ
    → Rpcs
    → Packet
    → RpcRequestPayload
    → ℕ
    → ℕ
    → Option ℕ
    → Option Forwarded
unfolding forward_mapped
forward_timed device now s pkt req wire_id client_id none = none
forward_timed device now s pkt req wire_id client_id (some rpc_timeout) =
    forward_mapped device s pkt req wire_id
      (record { id = req.id; client = client_id; route = pkt.routing; timeout = now + rpc_timeout })

abbrev pub is_some {ℓ} : {A : Type ℓ} → Option A → Bool
is_some none = false
is_some (some a) = true

-- The next id on the wire is used up even where the request goes no further. The event of the remapping
-- is sent by `remap_event` of Core/Rounds, in front of each use of this.
unfoldable pub forward_request :
    (ℕ → Option ProxyClient)
    → Option (Packet → Bool)
    → ℕ
    → Rpcs
    → Packet
    → RpcRequestPayload
    → ℕ
    → Option Forwarded
unfolding timeout_of forward_timed
forward_request clients device now s pkt req client_id =
    let wire_id = s.next_rpc_id in
    let s' : Rpcs = record s { next_rpc_id = (wire_id + 1) % 65536 } in
    if is_some (lookup wire_id s.rpc_map)
    then some (record {
      rpcs = s';
      offered = none;
      answer = err (make_rpc_error req.id out_of_memory pkt.routing);
    })
    else forward_timed device now s' pkt req wire_id client_id (timeout_of clients client_id)

-- A packet that is no request is given to the device, and is lost if that fails.
unfoldable pub forward_to_device :
    (ℕ → Option ProxyClient) → Option (Packet → Bool) → ℕ → Rpcs → Packet → ℕ → Option Forwarded
unfolding forward_request
forward_to_device clients device now s pkt client_id = elim pkt.payload [
  | rpc_request req ↦ forward_request clients device now s pkt req client_id
  | _ ↦ some (record { rpcs = s; offered = offer device pkt; answer = ok tt })
]
