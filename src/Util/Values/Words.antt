-- ===== src/Util/Values/Words.antt =====
-- Little-endian words and two's complement.
use twinleaf_rust.Shared.{ℕ, zero, suc, ◌+◌, ◌*◌, ◌/◌, ◌≤◌, ◌<◌, ◌≡◌, refl, arith, length}
use twinleaf_rust.Util.Values.{
  to_le_bytes, from_le_bytes, values, ℤ, pos, negsuc, to_word, to_signed,
}

pub length-to_le_bytes : (n v : ℕ) → length (to_le_bytes n v) ≡ n
unfolding to_le_bytes
length-to_le_bytes zero v = refl
length-to_le_bytes (suc n) v = omega (arith, length-to_le_bytes n (v / 256))

pub from_le_bytes-to_le_bytes : (n v : ℕ) → v < values n → from_le_bytes (to_le_bytes n v) ≡ v
unfolding from_le_bytes to_le_bytes
from_le_bytes-to_le_bytes zero v h = omega arith
from_le_bytes-to_le_bytes (suc n) v h =
    let rest = from_le_bytes-to_le_bytes n (v / 256) (omega arith) in omega arith

-- The signed values of `n` bytes.
abbrev pub IsSigned : ℕ → ℤ → Type 0
IsSigned n (pos v) = v * 2 < values n
IsSigned n (negsuc v) = v * 2 + 2 ≤ values n

pub to_word_lt : (n : ℕ) (i : ℤ) → IsSigned n i → to_word n i < values n
unfolding to_word
to_word_lt n (pos v) h = omega arith
to_word_lt n (negsuc v) h = omega arith

pub to_signed-to_word : (n : ℕ) (i : ℤ) → IsSigned n i → to_signed n (to_word n i) ≡ i
unfolding to_signed to_word
to_signed-to_word n (pos v) h = ground arith
to_signed-to_word n (negsuc v) h = ground arith
