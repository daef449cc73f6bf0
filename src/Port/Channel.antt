-- ===== src/Port/Channel.antt =====
-- `Port` of twinleaf/src/tio/port.rs: the calls on it, and the callbacks that pass what is received on
-- to a channel. What crossbeam's channels and mio's waker answer is a parameter. `none` is a panic.
use twinleaf_rust.Shared.{
  Bool, true, false, not, if◌then◌else◌, Result, ok, err, Option, some, none,
}
use twinleaf_rust.Port.Errors.{
  IoError, broken_pipe, RecvError, disconnected, SendError, full, RateError, failed,
}
use twinleaf_rust.Proto.Packet.{Packet}

-- The answer of a `try_send` on a channel.
pub data TrySend : Type 0 where
  accepted channel_full channel_gone : TrySend

-- Whether the callback for a full channel is called, and the answer to the thread.
unfoldable pub rx_to_channel_cb :
    TrySend → Result Packet RecvError → Bool × Result (Unit {0}) IoError
rx_to_channel_cb answer (err disconnected) = (false, err broken_pipe)
rx_to_channel_cb accepted rxdata = (false, ok tt)
rx_to_channel_cb channel_full rxdata = (true, ok tt)
rx_to_channel_cb channel_gone rxdata = (false, err broken_pipe)

unfoldable pub rx_to_channel : TrySend → Result Packet RecvError → Result (Unit {0}) IoError
unfolding rx_to_channel_cb
rx_to_channel answer rxdata = (rx_to_channel_cb answer rxdata).1

unfoldable pub woken : Bool → Option (Result (Unit {0}) SendError)
woken true = some (ok tt)
woken false = none

unfoldable pub send : Bool → Bool → Option (Result (Unit {0}) SendError)
unfolding woken
send tx_sent wake = if not tx_sent then some (err SendError.disconnected) else woken wake

unfoldable pub try_send : TrySend → Bool → Option (Result (Unit {0}) SendError)
unfolding woken
try_send accepted wake = woken wake
try_send channel_full wake = some (err full)
try_send channel_gone wake = some (err SendError.disconnected)

unfoldable pub set_rate :
    Bool → Bool → Option (Result (Unit {0}) RateError) → Option (Result (Unit {0}) RateError)
set_rate tx_sent wake ctl_result =
    if not tx_sent then some (err failed) else if not wake then none else ctl_result
