-- ===== src/Text.antt =====
-- Rust's `String` as its UTF-8 bytes, and `String::from_utf8_lossy` of the standard library.
use twinleaf_rust.Shared.{
  ℕ, zero, suc, ◌≤◌, ◌<◌, ◌≡◌, refl, Bool, true, false, ◌&&◌, ◌||◌, [], ◌∷◌, ◌++◌, arith, ltb, leb,
  ◌==◌, if◌then◌else◌, length, take, drop, Bytes, byte,
}

abbrev pub Text : Type 0
Text = Bytes

abbrev is_cont : ℕ → Bool
is_cont c = leb 0x80 c && leb c 0xBF

abbrev second_of_three : ℕ → ℕ → Bool
second_of_three b c =
    (b == 0xE0 && (leb 0xA0 c && leb c 0xBF))
    || (leb 0xE1 b && leb b 0xEC && is_cont c)
    || (b == 0xED && (leb 0x80 c && leb c 0x9F))
    || (leb 0xEE b && leb b 0xEF && is_cont c)

abbrev second_of_four : ℕ → ℕ → Bool
second_of_four b c =
    (b == 0xF0 && (leb 0x90 c && leb c 0xBF))
    || (leb 0xF1 b && leb b 0xF3 && is_cont c)
    || (b == 0xF4 && (leb 0x80 c && leb c 0x8F))

-- Whether `b` and the bytes behind it start with a character, and how many of those it takes, or
-- how many belong to the part that one replacement character stands for.
unfoldable pub char_tail : ℕ → Bytes → Bool × ℕ
char_tail b r =
    if ltb b 0x80
    then (true, 0)
    else if leb 0xC2 b && leb b 0xDF
    then (if is_cont (byte r 0) then (true, 1) else (false, 0))
    else if leb 0xE0 b && leb b 0xEF
    then (if second_of_three b (byte r 0)
        then (if is_cont (byte r 1) then (true, 2) else (false, 1))
        else (false, 0))
    else if leb 0xF0 b && leb b 0xF4
    then (if second_of_four b (byte r 0)
        then (if is_cont (byte r 1)
            then (if is_cont (byte r 2) then (true, 3) else (false, 2))
            else (false, 1))
        else (false, 0))
    else (false, 0)

unfoldable pub lossy_loop : ℕ → Bytes → Text
unfolding char_tail
lossy_loop zero bs = []
lossy_loop (suc fuel) [] = []
lossy_loop (suc fuel) (b ∷ r) =
    let (valid, n) = char_tail b r in
    let rest = lossy_loop fuel (drop n r) in
    if valid then b ∷ (take n r ++ rest) else 0xEF ∷ 0xBF ∷ 0xBD ∷ rest

-- A round takes a byte at least, so the length is enough fuel.
unfoldable pub from_utf8_lossy : Bytes → Text
unfolding lossy_loop
from_utf8_lossy bs = lossy_loop (length bs) bs

abbrev IsCont : ℕ → Type 0
IsCont c = (0x80 ≤ c) × (c ≤ 0xBF)

-- Well-formed UTF-8: no overlong form, no surrogate, nothing above U+10FFFF.
pub data IsUtf8 : Text → Type 0 where
  nil : IsUtf8 []
  one : (b : ℕ) {r : Text} → b < 0x80 → IsUtf8 r → IsUtf8 (b ∷ r)
  two : (b c : ℕ) {r : Text} → (0xC2 ≤ b) × (b ≤ 0xDF) → IsCont c → IsUtf8 r → IsUtf8 (b ∷ c ∷ r)
  three :
      (b c d : ℕ) {r : Text}
      → (0xE0 ≤ b) × (b ≤ 0xEF)
      → IsCont c × IsCont d
      → (b ≡ 0xE0 → 0xA0 ≤ c)
      → (b ≡ 0xED → c ≤ 0x9F)
      → IsUtf8 r
      → IsUtf8 (b ∷ c ∷ d ∷ r)
  four :
      (b c d e : ℕ) {r : Text}
      → (0xF0 ≤ b) × (b ≤ 0xF4)
      → IsCont c × IsCont d × IsCont e
      → (b ≡ 0xF0 → 0x90 ≤ c)
      → (b ≡ 0xF4 → c ≤ 0x8F)
      → IsUtf8 r
      → IsUtf8 (b ∷ c ∷ d ∷ e ∷ r)

lossy_loop-IsUtf8 : {s : Text} (fuel : ℕ) → length s ≤ fuel → IsUtf8 s → lossy_loop fuel s ≡ s
unfolding lossy_loop
lossy_loop-IsUtf8 zero h nil = refl
lossy_loop-IsUtf8 zero h (one b p u) = absurd (omega arith)
lossy_loop-IsUtf8 zero h (two b c p q u) = absurd (omega arith)
lossy_loop-IsUtf8 zero h (three b c d p q e f u) = absurd (omega arith)
lossy_loop-IsUtf8 zero h (four b c d e p q f g u) = absurd (omega arith)
lossy_loop-IsUtf8 (suc fuel) h nil = refl
lossy_loop-IsUtf8 (suc fuel) h (one b p u) =
    let rest = lossy_loop-IsUtf8 fuel (omega arith) u in ground arith
lossy_loop-IsUtf8 (suc fuel) h (two b c p q u) =
    let rest = lossy_loop-IsUtf8 fuel (omega arith) u in ground arith
lossy_loop-IsUtf8 (suc fuel) h (three b c d p q e f u) =
    let rest = lossy_loop-IsUtf8 fuel (omega arith) u in ground arith
lossy_loop-IsUtf8 (suc fuel) h (four b c d e p q f g u) =
    let rest = lossy_loop-IsUtf8 fuel (omega arith) u in ground arith

-- Decoding leaves well-formed text as it is.
pub from_utf8_lossy-IsUtf8 : {s : Text} → IsUtf8 s → from_utf8_lossy s ≡ s
unfolding from_utf8_lossy
from_utf8_lossy-IsUtf8 u = lossy_loop-IsUtf8 _ (omega arith) u

-- ASCII is well-formed.
abbrev pub IsAscii : Text → Type 0
IsAscii [] = Unit
IsAscii (b ∷ r) = (b < 0x80) × IsAscii r

pub IsAscii-IsUtf8 : (s : Text) → IsAscii s → IsUtf8 s
IsAscii-IsUtf8 [] h = nil
IsAscii-IsUtf8 (b ∷ r) h = one b h.0 (IsAscii-IsUtf8 r h.1)
