-- ===== src/Port/Tcp.antt =====
-- The TCP port: twinleaf/src/tio/port/tcp.rs. The socket is a reader or a writer that each call is
-- handed. `none` is a panic.
pub mod Sending
pub mod Receiving
use twinleaf_rust.Shared.{
  ℕ, ◌≡◌, Bool, true, false, not, ◌||◌, [], ◌∷◌, length, drop, ◌==◌, if◌then◌else◌, Bytes, Result,
  ok, err, Option, some, none,
}
use twinleaf_rust.Port.Errors.{
  IoError, would_block, not_connected, RecvError, not_ready, protocol, SendError, must_drain, full,
  serialization,
}
use twinleaf_rust.Port.IoBuf
use twinleaf_rust.Port.IoBuf.{IoBuf}
use twinleaf_rust.Proto.Limits.{Error, need_more}
use twinleaf_rust.Proto.Packet
use twinleaf_rust.Proto.Packet.{Packet}

pub record Port : Type 0 where
  pub rxbuf : IoBuf
  pub txbuf : IoBuf

unfoldable pub from_stream : Port
from_stream = record { rxbuf = IoBuf.new; txbuf = IoBuf.new }

-- More bytes are no error: there is no packet yet.
abbrev pub recv_error : Error → RecvError
recv_error need_more = not_ready
recv_error e = protocol e

unfoldable pub take_packet :
    Port → Option (Result (Packet × ℕ) Error) → Option (Port × Result Packet RecvError)
take_packet p none = none
take_packet p (some (err e)) = some (p, err (recv_error e))
take_packet p (some (ok (pkt, size))) = elim (IoBuf.consume p.rxbuf size) [
  | none ↦ none
  | some b ↦ some (record p { rxbuf = b }, ok pkt)
]

unfoldable pub recv_buffered : Port → Option (Port × Result Packet RecvError)
unfolding take_packet
recv_buffered p = take_packet p (Packet.deserialize (IoBuf.bytes p.rxbuf))

-- After a refill that worked the buffer is tried again.
unfoldable pub recv_again :
    Port → IoBuf × Result (Unit {0}) RecvError → Option (Port × Result Packet RecvError)
recv_again p (b, ok done) = recv_buffered (record p { rxbuf = b })
recv_again p (b, err e) = some (record p { rxbuf = b }, err e)

unfoldable pub recv_with :
    (ℕ → Result Bytes IoError)
    → Option (Port × Result Packet RecvError)
    → Option (Port × Result Packet RecvError)
unfolding recv_again
recv_with reader none = none
recv_with reader (some (p, err not_ready)) = recv_again p (IoBuf.refill p.rxbuf reader)
recv_with reader (some (p, res)) = some (p, res)

unfoldable pub recv : Port → (ℕ → Result Bytes IoError) → Option (Port × Result Packet RecvError)
unfolding recv_with
recv p reader = recv_with reader (recv_buffered p)

unfoldable pub has_data_to_drain : Port → Bool
has_data_to_drain p = not (IoBuf.empty p.txbuf)

-- What could not be written goes to the buffer, where it must fit.
unfoldable pub keep_rest :
    Port → IoBuf × Result (Unit {0}) ℕ → Option (Port × Result (Unit {0}) SendError)
keep_rest p (b, ok done) = some (record p { txbuf = b }, err must_drain)
keep_rest p (b, err n) = none

unfoldable pub after_write :
    Port → Bytes → Result ℕ IoError → Option (Port × Result (Unit {0}) SendError)
unfolding keep_rest
after_write p raw (ok size) =
    if size == length raw
    then some (p, ok tt)
    else keep_rest p (IoBuf.add_data p.txbuf (drop size raw))
after_write p raw (err would_block) = keep_rest p (IoBuf.add_data p.txbuf raw)
after_write p raw (err not_connected) = keep_rest p (IoBuf.add_data p.txbuf raw)
after_write p raw (err e) = some (p, err (SendError.io e))

unfoldable pub send_raw :
    Port
    → (Bytes → Result ℕ IoError)
    → Result Bytes (Unit {0})
    → Option (Port × Result (Unit {0}) SendError)
unfolding after_write
send_raw p writer (ok raw) = after_write p raw (writer raw)
send_raw p writer (err e) = some (p, err serialization)

unfoldable pub send :
    Port → (Bytes → Result ℕ IoError) → Packet → Option (Port × Result (Unit {0}) SendError)
unfolding has_data_to_drain send_raw
send p writer pkt =
    if has_data_to_drain p then some (p, err full) else send_raw p writer (Packet.serialize pkt)

unfoldable pub drain_to :
    Port
    → Option (IoBuf × Result (Unit {0}) SendError)
    → Option (Port × Result (Unit {0}) SendError)
drain_to p none = none
drain_to p (some (b, res)) = some (record p { txbuf = b }, res)

unfoldable pub drain :
    Port → (Bytes → Result ℕ IoError) → Option (Port × Result (Unit {0}) SendError)
unfolding drain_to
drain p writer = drain_to p (IoBuf.drain p.txbuf writer)
