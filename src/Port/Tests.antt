-- ===== src/Port/Tests.antt =====
-- Runs of the buffer and of the TCP port.
use twinleaf_rust.Shared.{
  ℕ, zero, suc, ◌≡◌, refl, [], ◌∷◌, ◌++◌, map, min, arith, length, replicate, Bytes, Result, ok,
  some,
}
use twinleaf_rust.Port.Errors.{IoError, SendError}
use twinleaf_rust.Port.IoBuf
use twinleaf_rust.Port.IoBuf.{IoBuf, iobuf_size, bytes, size}
use twinleaf_rust.Port.IoBuf.Queue.{new-IsValid}
use twinleaf_rust.Port.IoBuf.Streams.{IsReader, IsWriter}
use twinleaf_rust.Port.Tcp
use twinleaf_rust.Port.Tcp.{Port}
use twinleaf_rust.Port.Tcp.Sending.{Sent, send_whole}
use twinleaf_rust.Port.Tcp.Receiving.{Wire, Receives, sent_form, Wire-Receives}
use twinleaf_rust.Port.Example.{reply_packet, reply_bytes, serialize_reply}

-- The reply's bytes, and two of the next packet, in the middle of the buffer.
abbrev filled : IoBuf
filled = record { buf = 0 ∷ (reply_bytes ++ (3 ∷ 0 ∷ replicate 4086 0)); start = 1; end = 10 }

filled-IsValid : IoBuf.IsValid filled
filled-IsValid = record { whole = refl; ordered = omega arith; inside = omega arith }

abbrev port : Port
port = record { rxbuf = filled; txbuf = IoBuf.new }

-- A reader that has one byte, and a writer that takes two at most.
abbrev one_byte : ℕ → Result Bytes IoError
one_byte zero = ok []
one_byte (suc n) = ok (5 ∷ [])

one_byte-IsReader : IsReader one_byte
one_byte-IsReader zero got e = ground arith
one_byte-IsReader (suc n) got e = ground arith

abbrev two_at_most : Bytes → Result ℕ IoError
two_at_most offer = ok (min 2 (length offer))

two_at_most-IsWriter : IsWriter two_at_most
two_at_most-IsWriter offer n e = ground arith

Wire-Receives_example :
    (q : Port) × Receives port (map sent_form (reply_packet ∷ [])) q
    × IoBuf.IsValid q.rxbuf
    × (bytes q.rxbuf ≡ 3 ∷ 0 ∷ [])
Wire-Receives_example =
    Wire-Receives port (3 ∷ 0 ∷ []) filled-IsValid
      (Wire.cons reply_packet reply_bytes serialize_reply (omega arith) Wire.nil) filled_bytes
  where
    filled_bytes : bytes filled ≡ (reply_bytes ++ []) ++ (3 ∷ 0 ∷ [])
    filled_bytes = unfold IoBuf.bytes in refl

send_whole_example :
    (p' : Port) × (a : Result (Unit {0}) SendError) × (Tcp.send port two_at_most reply_packet
      ≡ some (p', a))
    × IoBuf.IsValid p'.txbuf
    × Sent (two_at_most reply_bytes) reply_bytes port p' a
send_whole_example =
    send_whole port new-IsValid (unfold IoBuf.size IoBuf.new in refl) reply_packet reply_bytes
      two_at_most two_at_most-IsWriter tt serialize_reply

abbrev busy : Port
busy = record { rxbuf = IoBuf.new; txbuf = filled }
