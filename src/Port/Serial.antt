-- ===== src/Port/Serial.antt =====
-- The serial port: twinleaf/src/tio/port/serial.rs. A packet and its CRC32 travel as a SLIP frame;
-- lines of text may stand between frames. The CRC, the line's answers to a read or a write, and the
-- readings of the clock are parameters. Instants are nanoseconds. `none` is a panic.
pub mod Sender
pub mod Slip
pub mod Frames
pub mod Safety
pub mod Sending
mod Tests
use twinleaf_rust.Shared.{
  ℕ, ◌+◌, ◌-◌, ◌≡◌, Bool, true, false, not, ◌&&◌, ◌||◌, [], ◌∷◌, ◌++◌, length, take, drop, ◌==◌,
  ltb, leb, if◌then◌else◌, Bytes, byte, u32_from_le, u32_to_le, Result, ok, err, Option, some, none,
}
use twinleaf_rust.Text.{from_utf8_lossy}
use twinleaf_rust.Port.Errors.{
  IoError, would_block, invalid_data, RecvError, not_ready, protocol, SendError, must_drain, full,
  serialization,
}
use twinleaf_rust.Port.IoBuf
use twinleaf_rust.Port.IoBuf.{IoBuf}
use twinleaf_rust.Proto.Limits.{
  Error, need_more, text, crc32, packet_too_big, packet_too_small, tio_packet_max_total_size,
}
use twinleaf_rust.Proto.Packet
use twinleaf_rust.Proto.Packet.{Packet}

pub record RateInfo : Type 0 where
  pub default_bps : ℕ
  pub target_bps : ℕ

pub record Port : Type 0 where
  pub rates : RateInfo
  pub rxbuf : IoBuf
  pub last_rx : ℕ
  pub txbuf : IoBuf
  pub startup_time : ℕ
  pub first_rx : Bool

abbrev pub holdoff_time : ℕ
holdoff_time = 50000000

abbrev pub stale_time : ℕ
stale_time = 200000000

-- The variables of the loop of `recv_buffered`, but for the offset.
pub record Scan : Type 0 where
  pub pkt : Bytes
  pub esc : Bool
  pub is_text : Bool
  pub consume_to : ℕ

abbrev pub scan_start : Scan
scan_start = record { pkt = []; esc = false; is_text = true; consume_to = 0 }

-- `!c.is_ascii_graphic() && (c != ' ') && (c != '\t')`
unfoldable pub unprintable : ℕ → Bool
unprintable c = (ltb c 0x21 || ltb 0x7E c) && (not (c == 0x20) && not (c == 0x09))

unfoldable pub is_newline : ℕ → Bool
is_newline c = (c == 0x0A) || (c == 0x0D)

-- The branch of a byte that ends nothing.
unfoldable pub take_byte : Scan → ℕ → Scan
unfolding unprintable
take_byte s c =
    let is_text = if unprintable c then false else s.is_text in
    if s.esc
    then record s {
      pkt = s.pkt ++ ((if c == 0xDC then 0xC0 else 0xDB) ∷ []);
      esc = false;
      is_text = is_text;
    }
    else if c == 0xDB
    then record s { esc = true; is_text = is_text }
    else record s { pkt = s.pkt ++ (c ∷ []); is_text = is_text }

-- A frame that was delimited: its length, its CRC, and the packet in it.
unfoldable pub frame_parsed :
    Bytes → ℕ → Option (Result (Packet × ℕ) Error) → Option (Result Packet RecvError)
frame_parsed pkt len none = none
frame_parsed pkt len (some (ok (tio_pkt, size))) =
    if not (size == len) then some (err (RecvError.io invalid_data)) else some (ok tio_pkt)
frame_parsed pkt len (some (err need_more)) = some (err (protocol (packet_too_small pkt)))
frame_parsed pkt len (some (err e)) = some (err (protocol e))

-- `u32::from_le_bytes(pkt[len..].try_into())`, which panics unless there are four bytes.
unfoldable pub received_crc : Bytes → Option ℕ
received_crc tail =
    if length tail == 4
    then some (u32_from_le (byte tail 0) (byte tail 1) (byte tail 2) (byte tail 3))
    else none

-- The end of a frame: its length without the CRC, which panics where it is negative, and the CRC.
unfoldable pub crc_checked : (Bytes → ℕ) → Bytes → ℕ → Option ℕ → Option (Result Packet RecvError)
unfolding frame_parsed
crc_checked checksum pkt len none = none
crc_checked checksum pkt len (some crc) =
    if not (crc == checksum (take len pkt))
    then some (err (protocol (crc32 pkt)))
    else frame_parsed pkt len (Packet.deserialize (take len pkt))

unfoldable pub end_frame : (Bytes → ℕ) → Bytes → Option (Result Packet RecvError)
unfolding crc_checked received_crc
end_frame checksum pkt =
    let len = length pkt - 4 in
    if ltb (length pkt) (4 + 4)
    then some (err (protocol (packet_too_small pkt)))
    else if ltb (length pkt) 4
    then none
    else crc_checked checksum pkt len (received_crc (drop len pkt))

abbrev pub max_frame : ℕ
max_frame = tio_packet_max_total_size + 4 + 1

-- A byte that returns from nothing: a newline with no text before it is passed over.
unfoldable pub advance : ℕ → Scan → ℕ → Scan
unfolding is_newline take_byte
advance offset s c =
    if s.is_text && is_newline c then record s { consume_to = offset + 1 } else take_byte s c

-- The loop over the buffer from `offset` on: how many bytes are consumed, and what is answered.
unfoldable pub scan : (Bytes → ℕ) → Bytes → ℕ → Scan → ℕ × Option (Result Packet RecvError)
unfolding advance
scan checksum [] offset s = (s.consume_to, some (err not_ready))
scan checksum (c ∷ rest) offset s =
    let next = scan checksum rest (offset + 1) (advance offset s c) in
    if leb max_frame (length s.pkt)
    then (offset, some (err (protocol (packet_too_big s.pkt))))
    else if (s.is_text && is_newline c) && ltb 0 (length s.pkt)
    then (offset + 1, some (err (protocol (text (from_utf8_lossy s.pkt)))))
    else if c == 0xC0
    then (offset + 1, end_frame checksum s.pkt)
    else next

unfoldable pub consumed :
    Port → ℕ × Option (Result Packet RecvError) → Option (Port × Result Packet RecvError)
consumed p (n, none) = none
consumed p (n, some res) = elim (IoBuf.consume p.rxbuf n) [
  | none ↦ none
  | some b ↦ some (record p { rxbuf = b }, res)
]

unfoldable pub recv_buffered : (Bytes → ℕ) → Port → Option (Port × Result Packet RecvError)
unfolding consumed
recv_buffered checksum p = consumed p (scan checksum (IoBuf.bytes p.rxbuf) 0 scan_start)

unfoldable pub startup_holdoff : Port → ℕ → Bool
startup_holdoff p now = ltb (now - p.startup_time) holdoff_time

-- Data that came before a long silence is dropped.
unfoldable pub drop_stale : Port → ℕ → IoBuf
drop_stale p now = if ltb stale_time (now - p.last_rx) then IoBuf.flush p.rxbuf else p.rxbuf

-- `now` is read before the refill, and `later` in `startup_holdoff`.
unfoldable pub recv_refilled :
    (Bytes → ℕ)
    → Port
    → ℕ
    → ℕ
    → IoBuf × Result (Unit {0}) RecvError
    → Option (Port × Result Packet RecvError)
unfolding startup_holdoff recv_buffered
recv_refilled checksum p now later (b, err e) = some (record p { rxbuf = b }, err e)
recv_refilled checksum p now later (b, ok done) =
    if p.first_rx && not (IoBuf.empty b)
    then (if startup_holdoff p later
        then some (record p { rxbuf = IoBuf.flush b; first_rx = false }, err not_ready)
        else recv_buffered checksum (record p { rxbuf = b; first_rx = false; last_rx = now }))
    else recv_buffered checksum (record p { rxbuf = b; last_rx = now })

unfoldable pub recv_with :
    (Bytes → ℕ)
    → (ℕ → Result Bytes IoError)
    → ℕ
    → ℕ
    → Option (Port × Result Packet RecvError)
    → Option (Port × Result Packet RecvError)
unfolding recv_refilled drop_stale
recv_with checksum reader now later none = none
recv_with checksum reader now later (some (p, err not_ready)) =
    recv_refilled checksum p now later (IoBuf.refill (drop_stale p now) reader)
recv_with checksum reader now later (some (p, res)) = some (p, res)

unfoldable pub recv :
    (Bytes → ℕ)
    → Port
    → (ℕ → Result Bytes IoError)
    → ℕ
    → ℕ
    → Option (Port × Result Packet RecvError)
unfolding recv_with
recv checksum p reader now later = recv_with checksum reader now later (recv_buffered checksum p)
