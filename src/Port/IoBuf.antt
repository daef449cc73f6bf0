-- ===== src/Port/IoBuf.antt =====
-- The buffer of the stream ports: twinleaf/src/tio/port/iobuf.rs. `none` is a panic.
pub mod Queue
pub mod Idle
pub mod Streams
use twinleaf_rust.Shared.{
  ℕ, suc, ◌+◌, ◌-◌, ◌≤◌, ◌<◌, ◌≡◌, refl, ap, sym, ◌∙◌, Bool, true, false, not, List, [], ◌∷◌, ◌++◌,
  arith, leb, ltb, ◌==◌, if◌then◌else◌, length, length-append, length-take, length-drop, take, drop,
  slice, replicate, min, Bytes, Result, ok, err, Option, some, none, Bool-cases, inl, inr,
}
use twinleaf_rust.Port.Errors.{IoError, would_block, RecvError, not_ready, SendError, must_drain}

abbrev pub iobuf_size : ℕ
iobuf_size = 4096

pub record IoBuf : Type 0 where
  pub buf : Bytes
  pub start : ℕ
  pub end : ℕ

unfoldable pub new : IoBuf
new = record { buf = replicate iobuf_size 0; start = 0; end = 0 }

unfoldable pub empty : IoBuf → Bool
empty b = b.start == b.end

-- `end - start` on usize; it would wrap below zero, which the invariant excludes.
unfoldable pub size : IoBuf → ℕ
size b = b.end - b.start

unfoldable pub bytes : IoBuf → Bytes
bytes b = slice b.start b.end b.buf

unfoldable pub consume : IoBuf → ℕ → Option IoBuf
unfolding size
consume b len = if ltb (size b) len then none else some (record b { start = b.start + len })

unfoldable pub flush : IoBuf → IoBuf
flush b = record b { start = 0; end = 0 }

-- `buf.copy_within(start..end, 0)`
abbrev copy_to_front : Bytes → ℕ → ℕ → Bytes
copy_to_front buf start end = slice start end buf ++ drop (end - start) buf

unfoldable pub compact : IoBuf → IoBuf
unfolding size
compact b =
    if not (b.start == 0)
    then record { buf = copy_to_front b.buf b.start b.end; start = 0; end = size b }
    else b

-- How a failed read or write is passed on.
abbrev pub read_error : IoError → RecvError
read_error would_block = not_ready
read_error e = RecvError.io e

abbrev pub write_error : IoError → SendError
write_error would_block = must_drain
write_error e = SendError.io e

-- `buf[at..at + bytes.len()].copy_from_slice(bytes)`
abbrev pub overwrite : Bytes → ℕ → Bytes → Bytes
overwrite buf at new_bytes = take at buf ++ (new_bytes ++ drop (at + length new_bytes) buf)

-- The reader is a function of the room that it is given. It answers with the bytes that it stored.
unfoldable pub refill : IoBuf → (ℕ → Result Bytes IoError) → IoBuf × Result (Unit {0}) RecvError
refill b reader =
    let b' = compact b in
    elim (reader (iobuf_size - b'.end)) [
      | ok got ↦
          if ltb 0 (length got)
          then (
            record {
              buf = overwrite b'.buf b'.end got;
              start = b'.start;
              end = b'.end + length got;
            },
            ok tt,
          )
          else (b', err RecvError.disconnected)
      | err e ↦ (b', err (read_error e))
    ]

unfoldable pub add_data : IoBuf → Bytes → IoBuf × Result (Unit {0}) ℕ
add_data b new_bytes =
    let b' = compact b in
    let copy_size = min (iobuf_size - b'.end) (length new_bytes) in
    let b'' : IoBuf = record {
      buf = overwrite b'.buf b'.end (take copy_size new_bytes);
      start = b'.start;
      end = b'.end + copy_size;
    } in
    (b'', (if copy_size == length new_bytes then ok tt else err copy_size))

-- The writer is a function of the bytes that it is offered. It answers with the number it took.
unfoldable pub drain :
    IoBuf → (Bytes → Result ℕ IoError) → Option (IoBuf × Result (Unit {0}) SendError)
unfolding empty
drain b writer =
    if ltb b.start b.end
    then elim (writer (slice b.start b.end b.buf)) [
      | ok taken ↦ elim (consume b taken) [
        | none ↦ none
        | some b' ↦ some (b', (if empty b' then ok tt else err must_drain))
      ]
      | err e ↦ some (b, err (write_error e))
    ]
    else some (b, ok tt)

-- The data lie in the buffer.
pub record IsValid (b : IoBuf) : Type 0 where
  pub whole : length b.buf ≡ iobuf_size
  pub ordered : b.start ≤ b.end
  pub inside : b.end ≤ iobuf_size
