-- ===== src/Shared/Words.antt =====
-- Bytes and little-endian words. A byte slice is a list of numbers below 256.
use Prim.Native.Nat.{ℕ, zero, suc, ◌+◌, ◌*◌, ◌/◌, ◌%◌, ◌<◌, bit_and, bit_or}
use mathlib.Core.Path.{◌≡◌, refl}
use mathlib.Core.Bool.{Bool, true, ◌&&◌}
use mathlib.Core.List.{List, [], ◌∷◌}
use native.Mathlib.Omega.{arith}
use twinleaf_rust.Shared.Tests.{◌==◌, ==_iff}
use twinleaf_rust.Shared.Lists.{get_or, All}

abbrev pub Bytes : Type 0
Bytes = List ℕ

abbrev pub IsU8 : ℕ → Type 0
IsU8 b = b < 256

abbrev pub IsU16 : ℕ → Type 0
IsU16 v = v < 65536

abbrev pub IsU32 : ℕ → Type 0
IsU32 v = v < 4294967296

abbrev pub IsBytes : Bytes → Type 0
IsBytes = All IsU8

-- `raw[i]`, behind a check of the length.
abbrev pub byte : Bytes → ℕ → ℕ
byte raw i = get_or raw i 0

-- `u16::from_le_bytes` and `to_le_bytes`, and the same for u32.
abbrev pub u16_from_le : ℕ → ℕ → ℕ
u16_from_le b0 b1 = b0 + 256 * b1

abbrev pub u16_to_le : ℕ → Bytes
u16_to_le v = v % 256 ∷ v / 256 % 256 ∷ []

abbrev pub u32_from_le : ℕ → ℕ → ℕ → ℕ → ℕ
u32_from_le b0 b1 b2 b3 = b0 + 256 * b1 + 65536 * b2 + 16777216 * b3

abbrev pub u32_to_le : ℕ → Bytes
u32_to_le v = v % 256 ∷ v / 256 % 256 ∷ v / 65536 % 256 ∷ v / 16777216 % 256 ∷ []

pub u16_le : (v : ℕ) → IsU16 v → u16_from_le (v % 256) (v / 256 % 256) ≡ v
u16_le v h = omega arith

pub u32_le :
    (v : ℕ)
    → IsU32 v
    → u32_from_le (v % 256) (v / 256 % 256) (v / 65536 % 256) (v / 16777216 % 256) ≡ v
u32_le v h = omega arith

-- Laws of the bit operations with a fixed mask, checked on every value of a range.
unfoldable pub holds_to : (ℕ → Bool) → ℕ → Bool
holds_to test zero = true
holds_to test (suc top) = holds_to test top && test top

pub holds_to_at :
    (test : ℕ → Bool) (top : ℕ) {v : ℕ} → v < top → holds_to test top ≡ true → test v ≡ true
unfolding holds_to
holds_to_at test zero small all = absurd (omega arith)
holds_to_at test (suc top) {v} small all = ground (arith, holds_to_at test top {v = v})

low_nibble_table : holds_to (λ x. bit_and x 15 == x % 16) 256 ≡ true
unfolding holds_to
low_nibble_table = refl

pub low_nibble : (x : ℕ) → IsU8 x → bit_and x 15 ≡ x % 16
low_nibble x h = (==_iff _ _).0 (holds_to_at _ 256 h low_nibble_table)

zero-bit_or_table : holds_to (λ x. bit_or 0 x == x) 256 ≡ true
unfolding holds_to
zero-bit_or_table = refl

pub zero-bit_or : (x : ℕ) → IsU8 x → bit_or 0 x ≡ x
zero-bit_or x h = (==_iff _ _).0 (holds_to_at _ 256 h zero-bit_or_table)

-- The top bit of a u16, set and tested over a method name's length.
set_top_table : holds_to (λ x. bit_or x 0x8000 == x + 0x8000) 512 ≡ true
unfolding holds_to
set_top_table = refl

pub set_top : (x : ℕ) → x < 512 → bit_or x 0x8000 ≡ x + 0x8000
set_top x h = (==_iff _ _).0 (holds_to_at _ 512 h set_top_table)

top_set_table : holds_to (λ x. bit_and (x + 0x8000) 0x8000 == 0x8000) 512 ≡ true
unfolding holds_to
top_set_table = refl

pub top_set : (x : ℕ) → x < 512 → bit_and (x + 0x8000) 0x8000 ≡ 0x8000
top_set x h = (==_iff _ _).0 (holds_to_at _ 512 h top_set_table)

below_top_table : holds_to (λ x. bit_and (x + 0x8000) 0x7FFF == x) 512 ≡ true
unfolding holds_to
below_top_table = refl

pub below_top : (x : ℕ) → x < 512 → bit_and (x + 0x8000) 0x7FFF ≡ x
below_top x h = (==_iff _ _).0 (holds_to_at _ 512 h below_top_table)

top_clear_table : holds_to (λ x. bit_and x 0x8000 == 0) 0x8000 ≡ true
unfolding holds_to
top_clear_table = refl

pub top_clear : (x : ℕ) → x < 0x8000 → bit_and x 0x8000 ≡ 0
top_clear x h = (==_iff _ _).0 (holds_to_at _ 0x8000 h top_clear_table)
