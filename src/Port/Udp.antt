-- ===== src/Port/Udp.antt =====
-- The UDP port: twinleaf/src/tio/port/udp.rs. One datagram carries one packet. The socket's answer
-- to a read or a write is a parameter. `none` is a panic.
pub mod Datagrams
mod Tests
use twinleaf_rust.Shared.{
  ℕ, ◌≡◌, List, length, take, not, ◌==◌, if◌then◌else◌, Bytes, Result, ok, err, Option, some, none,
}
use twinleaf_rust.Port.Errors.{
  IoError, would_block, invalid_data, RecvError, not_ready, protocol, SendError, serialization,
}
use twinleaf_rust.Proto.Limits.{Error, need_more, packet_too_small}
use twinleaf_rust.Proto.Packet
use twinleaf_rust.Proto.Packet.{Packet}

-- `[0u8; 1024]`: what a datagram has behind it is lost.
abbrev pub recv_size : ℕ
recv_size = 1024

-- A cut packet never gets better: it is too small, and no wish for more.
abbrev pub datagram_error : Bytes → Error → RecvError
datagram_error datagram need_more = protocol (packet_too_small datagram)
datagram_error datagram e = protocol e

unfoldable pub recv_parsed :
    Bytes → Option (Result (Packet × ℕ) Error) → Option (Result Packet RecvError)
recv_parsed datagram none = none
recv_parsed datagram (some (err e)) = some (err (datagram_error datagram e))
recv_parsed datagram (some (ok (pkt, parsed_size))) =
    if not (parsed_size == length datagram)
    then some (err (RecvError.io invalid_data))
    else some (ok pkt)

unfoldable pub recv : Result Bytes IoError → Option (Result Packet RecvError)
unfolding recv_parsed
recv (ok datagram) = let got = take recv_size datagram in recv_parsed got (Packet.deserialize got)
recv (err would_block) = some (err not_ready)
recv (err e) = some (err (RecvError.io e))

unfoldable pub send_answer : Bytes → Result ℕ IoError → Option (Result (Unit {0}) SendError)
send_answer raw (ok size) = if size == length raw then some (ok tt) else none
send_answer raw (err would_block) = none
send_answer raw (err e) = some (err (SendError.io e))

unfoldable pub send_raw :
    (Bytes → Result ℕ IoError) → Result Bytes (Unit {0}) → Option (Result (Unit {0}) SendError)
unfolding send_answer
send_raw socket (ok raw) = send_answer raw (socket raw)
send_raw socket (err e) = some (err serialization)

unfoldable pub send : (Bytes → Result ℕ IoError) → Packet → Option (Result (Unit {0}) SendError)
unfolding send_raw
send socket pkt = send_raw socket (Packet.serialize pkt)
