-- ===== src/Tool/Firmware.antt =====
-- The upload of firmware of twinleaf-tools/src/bin/tio-tool.rs over the port of a client of the proxy.
pub mod Chunks
pub mod Uploading
pub mod Rounds
pub mod Whole
use twinleaf_rust.Shared.{
  ℕ, zero, suc, List, [], ◌∷◌, ◌+◌, ◌*◌, ◌-◌, Bool, true, false, not, ◌&&◌, ◌||◌, length, take,
  drop, ltb, ◌==◌, if◌then◌else◌, Bytes, Result, ok, err, ◌>>=◌, Option, some, none,
}
use twinleaf_rust.Text.{Text}
use twinleaf_rust.Data.Stop.{Stop, panicked, out_of_fuel, unwrap}
use twinleaf_rust.Proto.Packet.{Packet}
use twinleaf_rust.Proto.Payload.{Payload, rpc_reply, rpc_error}
use twinleaf_rust.Proto.Route.{root}
use twinleaf_rust.Proxy.Port
use twinleaf_rust.Proxy.Port.{Port, RecvError, recv_would_block, recv_disconnected}
use twinleaf_rust.Util.{make_rpc_request}

pub record Upload : Type 0 where
  pub port : Port
  pub next_send_chunk : ℕ
  pub next_ack_chunk : ℕ
  pub more_to_send : Bool

abbrev pub max_chunks_in_flight : ℕ
max_chunks_in_flight = 2

-- "dev.firmware.upload", "dev.firmware.upgrade" and "dev.stop"
abbrev pub upload_rpc : Text
upload_rpc =
    0x64 ∷ 0x65 ∷ 0x76 ∷ 0x2E ∷ 0x66 ∷ 0x69 ∷ 0x72 ∷ 0x6D ∷ 0x77 ∷ 0x61 ∷ 0x72 ∷ 0x65 ∷ 0x2E ∷ 0x75
    ∷ 0x70 ∷ 0x6C ∷ 0x6F ∷ 0x61 ∷ 0x64 ∷ []

abbrev pub upgrade_rpc : Text
upgrade_rpc =
    0x64 ∷ 0x65 ∷ 0x76 ∷ 0x2E ∷ 0x66 ∷ 0x69 ∷ 0x72 ∷ 0x6D ∷ 0x77 ∷ 0x61 ∷ 0x72 ∷ 0x65 ∷ 0x2E ∷ 0x75
    ∷ 0x70 ∷ 0x67 ∷ 0x72 ∷ 0x61 ∷ 0x64 ∷ 0x65 ∷ []

abbrev pub stop_rpc : Text
stop_rpc = 0x64 ∷ 0x65 ∷ 0x76 ∷ 0x2E ∷ 0x73 ∷ 0x74 ∷ 0x6F ∷ 0x70 ∷ []

-- An index out of range panics, and a chunk number that leaves 16 bits.
unfoldable pub send_chunk : Bytes → Upload → Result Upload Stop
send_chunk firmware_data u =
    let offset = u.next_send_chunk * 288 in
    let chunk_end =
      if ltb (length firmware_data) (offset + 288) then length firmware_data else offset + 288 in
    if ltb chunk_end offset || u.next_send_chunk == 65535 then err panicked else (do
      port ← unwrap (
          Port.send u.port (
            make_rpc_request upload_rpc (take (chunk_end - offset) (drop offset firmware_data))
              u.next_send_chunk root))
      ok (record u {
        port = port;
        next_send_chunk = suc u.next_send_chunk;
        more_to_send = ltb chunk_end (length firmware_data);
      }))

-- The difference of the numbers panics where it is negative.
unfoldable pub may_send : Upload → Result Bool Stop
may_send u =
    if not u.more_to_send
    then ok false
    else if ltb u.next_send_chunk u.next_ack_chunk
    then err panicked
    else ok (ltb (u.next_send_chunk - u.next_ack_chunk) max_chunks_in_flight)

unfoldable pub on_answer : Upload → Payload → Result Upload Stop
on_answer u (rpc_reply rep) =
    if not (rep.id == u.next_ack_chunk) || u.next_ack_chunk == 65535
    then err panicked
    else ok (record u { next_ack_chunk = suc u.next_ack_chunk })
on_answer u (rpc_error e) = err panicked
on_answer u payload = ok u

unfoldable pub tried : Upload → Result Packet RecvError → Result Upload Stop
unfolding on_answer
tried u (ok pkt) = on_answer u pkt.payload
tried u (err recv_would_block) = ok u
tried u (err recv_disconnected) = err panicked

-- A packet, if there is one, where more could be sent, and else the next packet.
unfoldable pub receive : Bool → Upload → Result Upload Stop
unfolding tried on_answer
receive true u = let (found, port) = Port.try_recv u.port in tried (record u { port = port }) found
receive false u = do
  (pkt, port) ← unwrap (Port.recv u.port)
  on_answer (record u { port = port }) pkt.payload

unfoldable pub step : Bytes → Upload → Result Upload Stop
unfolding may_send send_chunk receive
step firmware_data u = do
  sends ← may_send u
  u ← if sends then send_chunk firmware_data u else ok u
  more ← may_send u
  receive more u

unfoldable pub upload_loop : ℕ → Bytes → Upload → Result Upload Stop
unfolding step
upload_loop zero firmware_data u = err out_of_fuel
upload_loop (suc fuel) firmware_data u =
    let rest = step firmware_data u >>= upload_loop fuel firmware_data in
    if u.more_to_send || not (u.next_ack_chunk == u.next_send_chunk) then rest else ok u

abbrev pub begin : Port → Upload
begin port = record { port = port; next_send_chunk = 0; next_ack_chunk = 0; more_to_send = true }

-- A round takes an arrival or panics.
unfoldable pub upload : Bytes → Port → Result Upload Stop
unfolding upload_loop
upload firmware_data port = upload_loop (suc (length port.arrivals)) firmware_data (begin port)

-- A device that cannot be stopped is upgraded all the same.
unfoldable pub firmware_upgrade : Bytes → Port → Result Port Stop
unfolding upload
firmware_upgrade firmware_data port =
    let (stopped, port) = Port.action port stop_rpc in
    do
      u ← upload firmware_data port
      let (upgraded, port) = Port.action u.port upgrade_rpc
      done ← unwrap upgraded
      ok port
