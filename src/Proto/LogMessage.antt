-- ===== src/Proto/LogMessage.antt =====
-- `LogLevel` and `LogMessagePayload` of twinleaf/src/tio/proto.rs.
use twinleaf_rust.Shared.{
  ℕ, ◌+◌, ◌≤◌, ◌≡◌, refl, ◌∷◌, ◌++◌, arith, ltb, ◌==◌, if◌then◌else◌, length, drop, Bytes, byte,
  u32_from_le, u32_to_le, u32_le, IsU32, Result, ok, err, ◌%◌,
}
use twinleaf_rust.Text.{Text, from_utf8_lossy, IsUtf8, from_utf8_lossy-IsUtf8}
use twinleaf_rust.Proto.Limits.{Error, too_small, tio_packet_max_payload_size}
use twinleaf_rust.Proto.Header.{log, serialize_new, pkt_type_into}
use twinleaf_rust.Proto.Frame.{frame, serialize_new-frame}

pub data LogLevel : Type 0 where
  critical error warning info debug : LogLevel
  unknown : ℕ → LogLevel

unfoldable pub level_from : ℕ → LogLevel
level_from b =
    if b == 0
    then critical
    else if b == 1
    then error
    else if b == 2
    then warning
    else if b == 3
    then info
    else if b == 4
    then debug
    else unknown b

unfoldable pub level_into : LogLevel → ℕ
level_into critical = 0
level_into error = 1
level_into warning = 2
level_into info = 3
level_into debug = 4
level_into (unknown b) = b

-- The levels that come from a byte: the catch-all holds no named one.
abbrev pub IsLevel : LogLevel → Type 0
IsLevel (unknown b) = 5 ≤ b
IsLevel critical = Unit
IsLevel error = Unit
IsLevel warning = Unit
IsLevel info = Unit
IsLevel debug = Unit

pub level_from-into : (l : LogLevel) → IsLevel l → level_from (level_into l) ≡ l
unfolding level_from level_into
level_from-into (unknown b) h = ground arith
level_from-into _ h = refl

pub record LogMessagePayload : Type 0 where
  pub word : ℕ
  pub level : LogLevel
  pub message : Text

unfoldable pub deserialize : Bytes → Bytes → Result LogMessagePayload Error
unfolding level_from
deserialize raw full_data =
    if ltb (length raw) 5
    then err (too_small full_data)
    else ok (record {
      word = u32_from_le (byte raw 0) (byte raw 1) (byte raw 2) (byte raw 3);
      level = level_from (byte raw 4);
      message = from_utf8_lossy (drop 5 raw);
    })

unfoldable pub serialize : LogMessagePayload → Result Bytes (Unit {0})
unfolding level_into serialize_new
serialize p =
    let payload_size = length p.message + 5 in
    if ltb tio_packet_max_payload_size payload_size
    then err tt
    else ok (
        serialize_new log 0 (payload_size % 65536)
        ++ (u32_to_le p.word ++ (level_into p.level ∷ p.message)))

pub record IsValid (p : LogMessagePayload) : Type 0 where
  pub word_range : IsU32 p.word
  pub level_known : IsLevel p.level
  pub message_utf8 : IsUtf8 p.message

abbrev pub body : LogMessagePayload → Bytes
body p = u32_to_le p.word ++ (level_into p.level ∷ p.message)

pub serialize-frame : (p : LogMessagePayload) → serialize p ≡ frame (pkt_type_into log) (body p)
unfolding serialize
serialize-frame p = serialize_new-frame log _ (body p) (omega arith)

pub deserialize-body :
    (p : LogMessagePayload) (full_data : Bytes) → IsValid p → deserialize (body p) full_data ≡ ok p
unfolding deserialize
deserialize-body p full_data v = ground (
  arith,
  u32_le p.word,
  level_from-into p.level v.level_known,
  from_utf8_lossy-IsUtf8 v.message_utf8,
)
