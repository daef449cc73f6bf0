-- ===== src/Tool/Log.antt =====
-- The logs of twinleaf-tools/src/bin/tio-tool.rs: the bytes that `log` writes of the packets of a device,
-- and the packets that `log_dump` prints of a file.
pub mod Reading
use twinleaf_rust.Shared.{
  ℕ, zero, suc, List, [], ◌∷◌, ◌++◌, length, drop, Bytes, Result, ok, err, ◌>>=◌, Option, some,
  none,
}
use twinleaf_rust.Data.Stop.{Stop, panicked, out_of_fuel, unwrap}
use twinleaf_rust.Proto.Limits.{Error}
use twinleaf_rust.Proto.Packet
use twinleaf_rust.Proto.Packet.{Packet}

unfoldable pub log : List Packet → Result Bytes Stop
log [] = ok []
log (pkt ∷ pkts) = do raw ← unwrap (Packet.serialize pkt); rest ← log pkts; ok (raw ++ rest)

-- A panic of the parser, and `unwrap` of its error.
abbrev pub unwrap_parsed : Option (Result (Packet × ℕ) Error) → Result (Packet × ℕ) Stop
unwrap_parsed none = err panicked
unwrap_parsed (some parsed) = unwrap parsed

unfoldable pub dump_loop : ℕ → Bytes → Result (List Packet) Stop
dump_loop fuel [] = ok []
dump_loop zero (b ∷ rest) = err out_of_fuel
dump_loop (suc fuel) (b ∷ rest) = do
  (pkt, len) ← unwrap_parsed (Packet.deserialize (b ∷ rest))
  pkts ← dump_loop fuel (drop len (b ∷ rest))
  ok (pkt ∷ pkts)

-- A packet takes a byte at least, so their number is enough fuel.
unfoldable pub log_dump : Bytes → Result (List Packet) Stop
unfolding dump_loop
log_dump raw = dump_loop (length raw) raw
