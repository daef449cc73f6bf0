-- ===== src/Port/Serial/Tests.antt =====
-- Runs of the serial port, with a toy CRC.
use twinleaf_rust.Shared.{
  zero, suc, ℕ, ◌+◌, ◌≡◌, refl, true, [], ◌∷◌, ◌++◌, min, arith, length, replicate, Bytes, Result,
  ok, err, some,
}
use twinleaf_rust.Port.Errors.{IoError, protocol}
use twinleaf_rust.Port.Example.{reply_packet, reply_bytes, serialize_reply}
use twinleaf_rust.Port.IoBuf
use twinleaf_rust.Port.IoBuf.{IoBuf, bytes}
use twinleaf_rust.Port.IoBuf.Queue.{new-IsValid}
use twinleaf_rust.Port.IoBuf.Streams.{IsReader, IsWriter}
use twinleaf_rust.Port.Serial
use twinleaf_rust.Port.Serial.{Port}
use twinleaf_rust.Port.Serial.Sender
use twinleaf_rust.Port.Serial.Sender.{stuff, encoded}
use twinleaf_rust.Port.Serial.Frames.{IsBinary, Takes, recv_buffered-encoded}
use twinleaf_rust.Port.Serial.Safety.{Steps, recv-Steps}
use twinleaf_rust.Port.Serial.Sending.{Writes, serial_send_whole}
use twinleaf_rust.Proto.Limits.{packet_too_small, text}
use twinleaf_rust.Text.{from_utf8_lossy}

abbrev toy_crc : Bytes → ℕ
toy_crc raw = 0xC0 + length raw

abbrev with_rx : Bytes → Port
with_rx held = record {
  rates = record { default_bps = 115200; target_bps = 400000 };
  rxbuf = record { buf = held ++ replicate 4072 0; start = 0; end = length held };
  last_rx = 0;
  txbuf = IoBuf.new;
  startup_time = 0;
  first_rx = true;
}

-- A frame of seven bytes, whose CRC has a byte that is stuffed, and more bytes behind it.
abbrev more_bytes : Bytes
more_bytes = 104 ∷ 105 ∷ 10 ∷ 1 ∷ 2 ∷ 3 ∷ 4 ∷ 5 ∷ 6 ∷ 7 ∷ 8 ∷ []

abbrev line : Bytes
line = 0xC0 ∷ 3 ∷ 0 ∷ 3 ∷ 0 ∷ 2 ∷ 1 ∷ 7 ∷ 0xC7 ∷ 0 ∷ 0 ∷ 0 ∷ 0xC0 ∷ more_bytes

abbrev received_line : Port
received_line = with_rx line

line_IsValid : IoBuf.IsValid received_line.rxbuf
line_IsValid = record { whole = refl; ordered = omega arith; inside = omega arith }

three_IsBinary : IsBinary 3
three_IsBinary = record {
  no_text = unfold Serial.unprintable in refl;
  no_newline = unfold Serial.is_newline in refl;
}

recv_buffered-encoded_example :
    (p' : Port) × (p'' : Port) × (behind : Bytes) × Takes toy_crc received_line
      (err (protocol (packet_too_small [])))
      behind
      p'
    × Takes toy_crc p' (ok (record reply_packet { ttl = 0 })) more_bytes p''
recv_buffered-encoded_example =
    recv_buffered-encoded toy_crc received_line reply_packet 3 (0 ∷ 3 ∷ 0 ∷ 2 ∷ 1 ∷ 7 ∷ [])
      more_bytes line_IsValid held serialize_reply (omega arith) tt three_IsBinary (omega arith)
  where
    held : bytes received_line.rxbuf ≡ encoded toy_crc reply_bytes ++ more_bytes
    held = unfold IoBuf.bytes encoded stuff Sender.with_crc in refl

-- A frame whose CRC is wrong.
abbrev damaged : Port
damaged = with_rx (3 ∷ 0 ∷ 0 ∷ 0 ∷ 1 ∷ 1 ∷ 1 ∷ 1 ∷ 0xC0 ∷ (more_bytes ++ (9 ∷ 10 ∷ 11 ∷ 12 ∷ [])))

-- A line of text in front of other bytes.
text_line :
    (Serial.scan toy_crc (104 ∷ 105 ∷ 10 ∷ 3 ∷ []) 0 Serial.scan_start)
    ≡ (3, some (err (protocol (text (104 ∷ 105 ∷ [])))))
unfolding Serial.scan Serial.advance Serial.take_byte Serial.is_newline Serial.unprintable
    from_utf8_lossy
text_line = refl

abbrev one_mark : ℕ → Result Bytes IoError
one_mark zero = ok []
one_mark (suc room) = ok (0xC0 ∷ [])

one_mark-IsReader : IsReader one_mark
one_mark-IsReader zero got e = ground arith
one_mark-IsReader (suc room) got e = ground arith

recv-Steps_example : Steps (Serial.recv toy_crc received_line one_mark 5 6)
recv-Steps_example = recv-Steps toy_crc one_mark 5 6 received_line line_IsValid one_mark-IsReader

abbrev two_at_most : Bytes → Result ℕ IoError
two_at_most offer = ok (min 2 (length offer))

two_at_most-IsWriter : IsWriter two_at_most
two_at_most-IsWriter offer n e = ground arith

serial_send_whole_example :
    Writes received_line
      (Sender.send toy_crc received_line two_at_most reply_packet)
      (two_at_most (encoded toy_crc reply_bytes))
      (encoded toy_crc reply_bytes)
serial_send_whole_example =
    serial_send_whole received_line new-IsValid (unfold IoBuf.size IoBuf.new in refl) toy_crc
      reply_packet reply_bytes two_at_most two_at_most-IsWriter tt serialize_reply
