-- ===== src/Port/Serial/Sender.antt =====
-- The sending half of twinleaf/src/tio/port/serial.rs, and its rates.
use twinleaf_rust.Shared.{
  ℕ, Bool, not, [], ◌∷◌, ◌++◌, length, drop, ◌==◌, if◌then◌else◌, Bytes, u32_to_le, Result, ok, err,
  Option, some, none,
}
use twinleaf_rust.Port.Errors.{
  IoError, would_block, invalid_input, SendError, must_drain, full, serialization, RateError,
  invalid_rate, failed,
}
use twinleaf_rust.Port.IoBuf
use twinleaf_rust.Port.IoBuf.{IoBuf}
use twinleaf_rust.Port.Serial.{Port, RateInfo}
use twinleaf_rust.Proto.Packet
use twinleaf_rust.Proto.Packet.{Packet}

-- The two bytes of SLIP that may not stand in a frame are sent as pairs.
unfoldable pub stuff : Bytes → Bytes
stuff [] = []
stuff (c ∷ rest) =
    (if c == 0xC0 then 0xDB ∷ 0xDC ∷ [] else if c == 0xDB then 0xDB ∷ 0xDD ∷ [] else c ∷ [])
    ++ stuff rest

unfoldable pub with_crc : (Bytes → ℕ) → Bytes → Bytes
with_crc checksum raw = raw ++ u32_to_le (checksum raw)

unfoldable pub encoded : (Bytes → ℕ) → Bytes → Bytes
unfolding stuff with_crc
encoded checksum raw = 0xC0 ∷ (stuff (with_crc checksum raw) ++ (0xC0 ∷ []))

unfoldable pub has_data_to_drain : Port → Bool
has_data_to_drain p = not (IoBuf.empty p.txbuf)

-- What could not be written goes to the buffer, where it must fit.
unfoldable pub keep_rest :
    Port → IoBuf × Result (Unit {0}) ℕ → Option (Port × Result (Unit {0}) SendError)
keep_rest p (b, ok done) = some (record p { txbuf = b }, err must_drain)
keep_rest p (b, err n) = none

unfoldable pub after_write :
    Port → Bytes → Result ℕ IoError → Option (Port × Result (Unit {0}) SendError)
unfolding keep_rest
after_write p frame (ok size) =
    if size == length frame
    then some (p, ok tt)
    else keep_rest p (IoBuf.add_data p.txbuf (drop size frame))
after_write p frame (err would_block) = keep_rest p (IoBuf.add_data p.txbuf frame)
after_write p frame (err e) = some (p, err (SendError.io e))

unfoldable pub send_raw :
    (Bytes → ℕ)
    → Port
    → (Bytes → Result ℕ IoError)
    → Result Bytes (Unit {0})
    → Option (Port × Result (Unit {0}) SendError)
unfolding after_write encoded
send_raw checksum p writer (ok raw) =
    let frame = encoded checksum raw in after_write p frame (writer frame)
send_raw checksum p writer (err e) = some (p, err serialization)

unfoldable pub send :
    (Bytes → ℕ)
    → Port
    → (Bytes → Result ℕ IoError)
    → Packet
    → Option (Port × Result (Unit {0}) SendError)
unfolding has_data_to_drain send_raw
send checksum p writer pkt =
    if has_data_to_drain p
    then some (p, err full)
    else send_raw checksum p writer (Packet.serialize pkt)

unfoldable pub drain_to :
    Port
    → Option (IoBuf × Result (Unit {0}) SendError)
    → Option (Port × Result (Unit {0}) SendError)
drain_to p none = none
drain_to p (some (b, res)) = some (record p { txbuf = b }, res)

unfoldable pub drain :
    Port → (Bytes → Result ℕ IoError) → Option (Port × Result (Unit {0}) SendError)
unfolding drain_to
drain p writer = drain_to p (IoBuf.drain p.txbuf writer)

-- The driver answers a rate with success or with the kind of its error.
unfoldable pub set_rate : Result (Unit {0}) IoError → Result (Unit {0}) RateError
set_rate (ok done) = ok tt
set_rate (err invalid_input) = err invalid_rate
set_rate (err e) = err failed

unfoldable pub rate_info : Port → Option RateInfo
rate_info p = some p.rates
