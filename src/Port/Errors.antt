-- ===== src/Port/Errors.antt =====
-- The errors of the ports: `RecvError`, `SendError`, `RateError` of twinleaf/src/tio/port.rs, and the
-- kinds of `io::Error` that the ports tell apart.
use twinleaf_rust.Proto.Limits.{Error}

pub data IoError : Type 0 where
  would_block not_connected invalid_data invalid_input broken_pipe other : IoError

pub data RecvError : Type 0 where
  not_ready disconnected : RecvError
  protocol : Error → RecvError
  io : IoError → RecvError

pub data SendError : Type 0 where
  must_drain full disconnected serialization : SendError
  io : IoError → SendError

pub data RateError : Type 0 where
  unsupported invalid_rate failed : RateError
