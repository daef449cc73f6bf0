-- ===== src/Tool/Tests.antt =====
-- Runs of the command line tool.
use twinleaf_rust.Shared.{Option}
use twinleaf_rust.Shared.{
  ℕ, zero, suc, ◌≡◌, ◌≢◌, ◌≤◌, refl, true, false, List, [], ◌∷◌, ◌++◌, All, length, Bytes, ok, err,
  some, none, arith,
}
use twinleaf_rust.Data.Stop.{out_of_fuel}
use twinleaf_rust.Proto.Heartbeat.{session}
use twinleaf_rust.Proto.Packet
use twinleaf_rust.Proto.Packet.{Packet}
use twinleaf_rust.Proto.Payload
use twinleaf_rust.Proto.Payload.{rpc_reply, heartbeat}
use twinleaf_rust.Proto.Route
use twinleaf_rust.Proto.Route.{root}
use twinleaf_rust.Proto.Rpc.Reply
use twinleaf_rust.Proxy.Port
use twinleaf_rust.Proxy.Port.{Port}
use twinleaf_rust.Tool.Firmware.{
  Upload, upload, upload_loop, step, may_send, send_chunk, receive, tried, on_answer,
}
use twinleaf_rust.Tool.Firmware.Chunks.{replies, numbers, concat, requests}
use twinleaf_rust.Tool.Firmware.Whole.{upload_sends_firmware}
use twinleaf_rust.Tool.Log.{log, log_dump}
use twinleaf_rust.Tool.Log.Reading.{log_dump-log, log_dump_ends}

abbrev reply_of : ℕ → Packet
reply_of id = record {
  payload = rpc_reply (record { id = id; reply = [] });
  routing = record { route = [] };
  ttl = 0;
}

abbrev far_reply : Packet
far_reply = record {
  payload = rpc_reply (record { id = 258; reply = 7 ∷ [] });
  routing = record { route = 3 ∷ 5 ∷ [] };
  ttl = 4;
}

log_dump-log_example :
    log_dump (3 ∷ 0 ∷ 2 ∷ 0 ∷ 9 ∷ 0 ∷ 3 ∷ 2 ∷ 3 ∷ 0 ∷ 2 ∷ 1 ∷ 7 ∷ 5 ∷ 3 ∷ [])
    ≡ ok (reply_of 9 ∷ record far_reply { ttl = 0 } ∷ [])
log_dump-log_example =
    log_dump-log (reply_of 9 ∷ far_reply ∷ [])
      (3 ∷ 0 ∷ 2 ∷ 0 ∷ 9 ∷ 0 ∷ 3 ∷ 2 ∷ 3 ∷ 0 ∷ 2 ∷ 1 ∷ 7 ∷ 5 ∷ 3 ∷ [])
      (unfold log Packet.serialize Payload.serialize Reply.serialize Route.serialize in refl)
      (omega arith, (omega arith, tt))

-- A packet that is cut, which the parser refuses.
log_dump_ends_example : log_dump (3 ∷ 0 ∷ 2 ∷ 0 ∷ 9 ∷ []) ≢ err out_of_fuel
log_dump_ends_example = log_dump_ends (3 ∷ 0 ∷ 2 ∷ 0 ∷ 9 ∷ [])

abbrev zeros : ℕ → Bytes
zeros zero = []
zeros (suc n) = 0 ∷ zeros n

-- A device that takes two chunks, with something else in between.
abbrev device : Port
device = record {
  depth = 0;
  tx_open = true;
  tx_room = 10;
  sent = [];
  arrivals =
      none
      ∷ some (reply_of 0)
      ∷ some (record (reply_of 0) { payload = heartbeat (session 5) })
      ∷ some (reply_of 1)
      ∷ [];
}

abbrev upgraded : Upload
upgraded = record {
  port = record device { sent = requests 0 (zeros 288 ∷ zeros 12 ∷ []); arrivals = [] };
  next_send_chunk = 2;
  next_ack_chunk = 2;
  more_to_send = false;
}

upload_sends_firmware_example :
    (chunks : List Bytes) × (concat chunks ≡ zeros 300)
    × All (λ chunk. length chunk ≤ 288) chunks
    × (upgraded.port.sent ≡ [] ++ requests 0 chunks)
    × ((heard : List (Option Packet)) × (device.arrivals ≡ heard ++ [])
        × (replies heard ≡ numbers 0 (length chunks)))
upload_sends_firmware_example = upload_sends_firmware (zeros 300) device upgraded (
    unfold upload upload_loop step may_send send_chunk receive tried on_answer Port.send Port.recv
      Port.try_recv Port.next_packet Port.try_next root in
    refl)
