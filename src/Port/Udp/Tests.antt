-- ===== src/Port/Udp/Tests.antt =====
-- Runs of the UDP port.
use twinleaf_rust.Shared.{◌≡◌, [], ◌++◌, arith, ok, some}
use twinleaf_rust.Port.Udp
use twinleaf_rust.Port.Udp.Datagrams.{recv-serialize}
use twinleaf_rust.Port.Example.{reply_packet, reply_bytes, serialize_reply}

recv-serialize_example :
    Udp.recv (ok (reply_bytes ++ [])) ≡ some (ok (record reply_packet { ttl = 0 }))
recv-serialize_example =
    recv-serialize reply_packet reply_bytes [] serialize_reply (omega arith) (omega arith)
