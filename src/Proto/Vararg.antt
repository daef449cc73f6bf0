-- ===== src/Proto/Vararg.antt =====
-- Fixed and variable-length parts of a message: twinleaf/src/tio/proto/vararg.rs.
use twinleaf_rust.Shared.{
  ℕ, suc, ◌+◌, ◌-◌, ◌≤◌, ◌<◌, ◌≡◌, not, ◌&&◌, ◌||◌, ◌∷◌, ◌++◌, arith, ltb, leb, ◌==◌, if◌then◌else◌,
  length, length-append, set, take, drop, take-append, drop-append, Bytes, byte, Result, ok, err,
  Bool-cases, inl, inr, leb→le, ◌>>=◌, ◌%◌,
}
use twinleaf_rust.Text.{Text, from_utf8_lossy, IsUtf8, from_utf8_lossy-IsUtf8}
use twinleaf_rust.Proto.Limits.{Error, too_small, invalid_payload}

unfoldable pub split : Bytes → Bytes → Result (Bytes × Bytes) Error
split raw full_data =
    if ltb (length raw) 1
    then err (too_small full_data)
    else let fixed_len = byte raw 0 in
      if ltb fixed_len 2 || ltb (length raw) fixed_len
      then err (invalid_payload full_data)
      else ok (take fixed_len raw, drop fixed_len raw)

unfoldable pub peel : Bytes → ℕ → Bytes → Result (Bytes × Bytes) Error
peel varlen len full_data =
    if leb len (length varlen)
    then ok (take len varlen, drop len varlen)
    else err (invalid_payload full_data)

unfoldable pub peel_string : Bytes → ℕ → Bytes → Result (Text × Bytes) Error
unfolding peel
peel_string varlen len full_data = do
  (arg, rest) ← peel varlen len full_data
  ok (from_utf8_lossy arg, rest)

unfoldable pub checked_u8_size : ℕ → Result ℕ (Unit {0})
checked_u8_size size = if leb size 255 then ok (size % 256) else err tt

unfoldable pub checked_u16_size : ℕ → Result ℕ (Unit {0})
checked_u16_size size = if leb size 65535 then ok (size % 65536) else err tt

-- The length written, and the grown buffer. After an error the callers drop the buffer.
unfoldable pub append_string : Bytes → Text → Result (ℕ × Bytes) (Unit {0})
unfolding checked_u8_size
append_string varlen value = do
  let varlen' = varlen ++ value
  len ← checked_u8_size (length varlen' - length varlen)
  ok (len, varlen')

unfoldable pub extend : Bytes → Bytes → Bytes → Bytes → Result (Bytes × Bytes) (Unit {0})
unfolding checked_u8_size
extend fixed varlen extra_fixed extra_varlen =
    if ltb 0 (length extra_varlen) && length extra_fixed == 0
    then err tt
    else if ltb (length fixed) 1 || not (byte fixed 0 == length fixed)
    then err tt
    else do
      n ← checked_u8_size (length fixed + length extra_fixed)
      ok (set fixed 0 n ++ extra_fixed, varlen ++ extra_varlen)

-- A fixed part that starts with its own length is split off again.
pub split-append :
    (n : ℕ) (fixed varlen full_data : Bytes)
    → n ≡ suc (length fixed)
    → 2 ≤ n
    → split (n ∷ (fixed ++ varlen)) full_data ≡ ok (n ∷ fixed, varlen)
unfolding split
split-append n fixed varlen full_data e h = ground (
  arith,
  length-append fixed varlen,
  take-append n (n ∷ fixed) varlen e,
  drop-append n (n ∷ fixed) varlen e,
)

pub peel_string-append :
    (s : Text) (rest full_data : Bytes) (len : ℕ)
    → len ≡ length s
    → IsUtf8 s
    → peel_string (s ++ rest) len full_data ≡ ok (s, rest)
unfolding peel_string
peel_string-append s rest full_data len e u = ground (
  arith,
  length-append s rest,
  take-append len s rest e,
  drop-append len s rest e,
  from_utf8_lossy-IsUtf8 u,
)

pub append_string_lem :
    (varlen : Bytes) (value : Text)
    → append_string varlen value
      ≡ (if leb (length value) 255 then ok (length value, varlen ++ value) else err tt)
unfolding append_string
append_string_lem varlen value = ground (arith, length-append varlen value)

-- Inversions, for a serialiser that succeeds.
module _ {B : Type 0} {b : B} where
  pub append_string-eq-ok :
      (varlen : Bytes) (value : Text) (k : ℕ × Bytes → Result B (Unit {0}))
      → (append_string varlen value >>= k) ≡ ok b
      → (length value ≤ 255) × (k (length value, varlen ++ value) ≡ ok b)
  append_string-eq-ok varlen value k e = elim (Bool-cases (leb (length value) 255)) [
    | inl fits ↦ (leb→le (length value) 255 fits, rw (append_string_lem, fits) at e)
    | inr big ↦ let h = rw (append_string_lem, big) at e in cc
  ]

  pub checked_u8_size-eq-ok :
      (n : ℕ) (k : ℕ → Result B (Unit {0}))
      → (checked_u8_size n >>= k) ≡ ok b
      → (n ≤ 255) × (k n ≡ ok b)
  unfolding checked_u8_size
  checked_u8_size-eq-ok n k e = ground arith

  pub checked_u16_size-eq-ok :
      (n : ℕ) (k : ℕ → Result B (Unit {0}))
      → (checked_u16_size n >>= k) ≡ ok b
      → (n ≤ 65535) × (k n ≡ ok b)
  unfolding checked_u16_size
  checked_u16_size-eq-ok n k e = ground arith

pub extend-eq-ok :
    (n : ℕ) (fixed varlen extra_fixed extra_varlen f v : Bytes)
    → extend (n ∷ fixed) varlen extra_fixed extra_varlen ≡ ok (f, v)
    → (f ≡ (n + length extra_fixed) ∷ (fixed ++ extra_fixed))
      × (v ≡ varlen ++ extra_varlen)
      × (n + length extra_fixed ≤ 255)
      × (0 < length extra_varlen → 0 < length extra_fixed)
unfolding extend
extend-eq-ok n fixed varlen extra_fixed extra_varlen f v e = ground arith
