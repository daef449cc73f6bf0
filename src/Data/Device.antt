-- ===== src/Data/Device.antt =====
-- `Device` of twinleaf/src/data/mod.rs: a port with a parser, which asks for the metadata that are
-- missing and queues the samples. A port whose other end is gone panics where the source unwraps.
pub mod Account
pub mod Pending
use twinleaf_rust.Shared.{
  ℕ, zero, suc, ◌+◌, ◌-◌, ◌/◌, ◌%◌, Bool, true, false, List, [], ◌∷◌, ◌++◌, ltb, ◌==◌,
  if◌then◌else◌, length, Bytes, Result, ok, err, ◌>>=◌, ◌>>◌, refuse, Option, some, none, u16_to_le,
}
use twinleaf_rust.Text.{Text, from_utf8_lossy}
use twinleaf_rust.Data.Parser
use twinleaf_rust.Data.Parser.{DeviceDataParser, DeviceFullMetadata}
use twinleaf_rust.Data.Requests.{metadata_rpc_id}
use twinleaf_rust.Data.Stop.{Stop, panicked, out_of_fuel, unwrap}
use twinleaf_rust.Data.Stream.{Sample}
use twinleaf_rust.Proto.Packet.{Packet}
use twinleaf_rust.Proto.Payload.{Payload, rpc_reply, rpc_error}
use twinleaf_rust.Proto.Route.{root}
use twinleaf_rust.Proto.Rpc.ErrorCode.{RpcErrorCode, invalid_args}
use twinleaf_rust.Proxy.Port
use twinleaf_rust.Proxy.Port.{
  Port, RpcError, SendError, RecvError, send_failed, exec_error, type_error, recv_would_block,
  recv_disconnected, rpc_answer, typed,
}
use twinleaf_rust.Util.{make_rpc_request}
use twinleaf_rust.Util.Values.{Requestable, Replyable, unit_request, unit_reply}

pub record Device : Type 0 where
  pub dev_port : Port
  pub parser : DeviceDataParser
  pub n_reqs : ℕ
  pub sample_queue : List Sample

unfoldable pub new : Port → Device
new dev_port = record {
  dev_port = dev_port;
  parser = Parser.new false;
  n_reqs = 0;
  sample_queue = [];
}

-- `for req in reqs { self.dev_port.send(req).unwrap(); self.n_reqs += 1; }`
unfoldable pub send_all : List Packet → Device → Result Device Stop
send_all [] d = ok d
send_all (req ∷ reqs) d = do
  port ← unwrap (Port.send d.dev_port req)
  send_all reqs (record d { dev_port = port; n_reqs = suc d.n_reqs })

unfoldable pub internal_rpcs : Device → Result Device Stop
unfolding send_all
internal_rpcs d =
    if d.n_reqs == 0 then (do reqs ← Parser.requests d.parser; send_all reqs d) else ok d

-- Whether the packet answers one of the requests for metadata, or someone else's RPC.
pub data Role : Type 0 where
  metadata_answer other_answer no_answer : Role

unfoldable pub role_of : Payload → Role
role_of (rpc_reply rep) = if rep.id == metadata_rpc_id then metadata_answer else other_answer
role_of (rpc_error e) = if e.id == metadata_rpc_id then metadata_answer else other_answer
role_of payload = no_answer

unfoldable pub parse_packet : Device → Packet → Result (Device × Option Packet) Stop
parse_packet d pkt = do
  (parser, samples) ← Parser.process_packet d.parser pkt
  ok (record d { parser = parser; sample_queue = d.sample_queue ++ samples }, none)

unfoldable pub process_as : Role → Device → Packet → Result (Device × Option Packet) Stop
unfolding parse_packet
process_as metadata_answer d pkt = do
  refuse (d.n_reqs == 0) panicked
  parse_packet (record d { n_reqs = d.n_reqs - 1 }) pkt
process_as other_answer d pkt = ok (d, some pkt)
process_as no_answer d pkt = parse_packet d pkt

-- The packet that comes back is not the device's own business.
unfoldable pub process_packet : Device → Packet → Result (Device × Option Packet) Stop
unfolding process_as role_of
process_packet d pkt = process_as (role_of pkt.payload) d pkt

-- `recv().unwrap()`
unfoldable pub receive : Device → Result (Packet × Device) Stop
receive d = do (pkt, port) ← unwrap (Port.recv d.dev_port); ok (pkt, record d { dev_port = port })

-- `self.process_packet(pkt)`, whose result is dropped.
unfoldable pub receive_one : Device → Result Device Stop
unfolding receive process_packet
receive_one d = do (pkt, d) ← receive d; (d, other) ← process_packet d pkt; ok d

-- The requests are sent when none is pending; `some` is the metadata when there is none to send.
unfoldable pub ask_metadata : Device → Result (Device × Option DeviceFullMetadata) Stop
unfolding send_all
ask_metadata d =
    if d.n_reqs == 0
    then (Parser.get_metadata d.parser >>= λ answer. elim answer [
      | ok full ↦ ok (d, some full)
      | err reqs ↦ (do d ← send_all reqs d; ok (d, none))
    ])
    else ok (d, none)

-- A round takes an arrival at least, or ends.
unfoldable pub metadata_loop : ℕ → Device → Result (Device × DeviceFullMetadata) Stop
unfolding ask_metadata receive_one
metadata_loop zero d = err out_of_fuel
metadata_loop (suc fuel) d = ask_metadata d >>= λ asked. elim asked.1 [
  | some full ↦ ok (asked.0, full)
  | none ↦ (do d ← receive_one asked.0; metadata_loop fuel d)
]

unfoldable pub get_metadata : Device → Result (Device × DeviceFullMetadata) Stop
unfolding metadata_loop
get_metadata d = metadata_loop (suc (length d.dev_port.arrivals)) d

unfoldable pub next_loop : ℕ → Device → List Sample → Result (Device × Sample) Stop
unfolding internal_rpcs receive_one
next_loop fuel d (sample ∷ queue) = ok (record d { sample_queue = queue }, sample)
next_loop zero d [] = err out_of_fuel
next_loop (suc fuel) d [] = do
  d ← internal_rpcs d
  d ← receive_one d
  next_loop fuel d d.sample_queue

unfoldable pub next : Device → Result (Device × Sample) Stop
unfolding next_loop
next d = next_loop (suc (length d.dev_port.arrivals)) d d.sample_queue

-- A packet, or `none` when the channel is empty.
unfoldable pub received : Device → Result Packet RecvError → Result (Device × Option Packet) Stop
received d (ok pkt) = ok (d, some pkt)
received d (err recv_would_block) = ok (d, none)
received d (err recv_disconnected) = err panicked

-- `internal_rpcs`, `try_recv` and `process_packet`. It is false when there was no packet.
unfoldable pub try_one : Device → Result (Device × Bool) Stop
unfolding internal_rpcs received process_packet
try_one d = do
  d ← internal_rpcs d
  let (found, port) = Port.try_recv d.dev_port
  (d, arrived) ← received (record d { dev_port = port }) found
  elim arrived [
    | none ↦ ok (d, false)
    | some pkt ↦ (do (d, other) ← process_packet d pkt; ok (d, true))
  ]

unfoldable pub try_next_loop : ℕ → Device → List Sample → Result (Device × Option Sample) Stop
unfolding try_one
try_next_loop fuel d (sample ∷ queue) = ok (record d { sample_queue = queue }, some sample)
try_next_loop zero d [] = err out_of_fuel
try_next_loop (suc fuel) d [] = do
  (d, arrived) ← try_one d
  elim arrived [ true ↦ try_next_loop fuel d d.sample_queue | false ↦ ok (d, none) ]

unfoldable pub try_next : Device → Result (Device × Option Sample) Stop
unfolding try_next_loop
try_next d = try_next_loop (suc (length d.dev_port.arrivals)) d d.sample_queue

unfoldable pub drain_loop : ℕ → Device → Result Device Stop
unfolding try_one
drain_loop zero d = err out_of_fuel
drain_loop (suc fuel) d = do
  (d, arrived) ← try_one d
  elim arrived [ true ↦ drain_loop fuel d | false ↦ ok d ]

unfoldable pub drain : Device → Result (Device × List Sample) Stop
unfolding drain_loop
drain d = do
  d ← drain_loop (suc (length d.dev_port.arrivals)) d
  ok (record d { sample_queue = [] }, d.sample_queue)

-- The answer that a packet which is not the device's own gives to an RPC.
unfoldable pub final_answer : Option Packet → Result (Option (Result Bytes RpcError)) Stop
unfolding rpc_answer
final_answer none = ok none
final_answer (some pkt) = elim (rpc_answer pkt.payload) [
  | none ↦ err panicked
  | some answer ↦ ok (some answer)
]

unfoldable pub raw_rpc_loop : ℕ → Device → Result (Device × Result Bytes RpcError) Stop
unfolding internal_rpcs receive process_packet final_answer
raw_rpc_loop zero d = err out_of_fuel
raw_rpc_loop (suc fuel) d = do
  d ← internal_rpcs d
  (pkt, d) ← receive d
  (d, other) ← process_packet d pkt
  answer ← final_answer other
  elim answer [ none ↦ raw_rpc_loop fuel d | some found ↦ ok (d, found) ]

unfoldable pub raw_rpc_sent :
    Device → Result Port SendError → Result (Device × Result Bytes RpcError) Stop
unfolding raw_rpc_loop
raw_rpc_sent d (err e) = ok (d, err (send_failed e))
raw_rpc_sent d (ok port) = raw_rpc_loop (suc (length port.arrivals)) (record d { dev_port = port })

unfoldable pub raw_rpc : Device → Text → Bytes → Result (Device × Result Bytes RpcError) Stop
unfolding raw_rpc_sent
raw_rpc d name arg = raw_rpc_sent d (Port.send d.dev_port (make_rpc_request name arg 0 root))

unfoldable pub rpc {ℓ κ} :
    {A : Type ℓ} {B : Type κ}
    → Requestable A
    → Replyable B
    → Device
    → Text
    → A
    → Result (Device × Result B RpcError) Stop
unfolding raw_rpc typed
rpc q r d name arg = do (d, ret) ← raw_rpc d name (q.to_request arg); ok (d, typed r ret)

abbrev pub action : Device → Text → Result (Device × Result (Unit {0}) RpcError) Stop
action d name = rpc unit_request unit_reply d name tt

abbrev pub get {κ} :
    {B : Type κ} → Replyable B → Device → Text → Result (Device × Result B RpcError) Stop
get r d name = rpc unit_request r d name tt

-- Whether a chunk of a long reply is there, or the one before it was the last.
unfoldable pub chunk : Result Bytes RpcError → Result (Option Bytes) Stop
chunk (ok rep) = ok (some rep)
chunk (err (exec_error e)) = elim e.error [ invalid_args ↦ ok none | _ ↦ err panicked ]
chunk (err e) = err panicked

-- The chunks from number `i` on, `count` of them at most.
unfoldable pub multi_loop : ℕ → ℕ → Device → Text → Bytes → Result (Device × Bytes) Stop
unfolding raw_rpc chunk
multi_loop zero i d name full_reply = ok (d, full_reply)
multi_loop (suc count) i d name full_reply = do
  (d, ret) ← raw_rpc d name (u16_to_le i)
  part ← chunk ret
  elim part [
    | none ↦ ok (d, full_reply)
    | some rep ↦ multi_loop count (suc i) d name (full_reply ++ rep)
  ]

unfoldable pub get_multi : Device → Text → Result (Device × Bytes) Stop
unfolding multi_loop
get_multi d name = multi_loop 65536 0 d name []

unfoldable pub get_multi_str : Device → Text → Result (Device × Text) Stop
unfolding get_multi from_utf8_lossy
get_multi_str d name = do (d, full_reply) ← get_multi d name; ok (d, from_utf8_lossy full_reply)
