-- ===== src/Util/Values.antt =====
-- The typed arguments and replies of RPCs: the traits of twinleaf/src/tio/util.rs and their
-- implementations. A floating point number is its bits, an unsigned word.
pub mod Words
pub mod RoundTrip
mod Tests
use twinleaf_rust.Shared.{
  ℕ, zero, suc, ◌+◌, ◌-◌, ◌*◌, ◌/◌, ◌%◌, ◌≡◌, [], ◌∷◌, ◌++◌, length, take, drop, ltb, ◌==◌,
  if◌then◌else◌, Bytes, Result, ok, err, ◌>>=◌,
}
use twinleaf_rust.Text.{Text, from_utf8_lossy}

pub record Requestable {ℓ} (A : Type ℓ) : Type ℓ where
  pub to_request : A → Bytes

pub record Replyable {ℓ} (A : Type ℓ) : Type ℓ where
  pub from_reply_prefix : Bytes → Result (A × Bytes) (Unit {0})

-- What is left over makes a whole reply an error.
unfoldable pub whole {ℓ} : {A : Type ℓ} → Result (A × Bytes) (Unit {0}) → Result A (Unit {0})
whole (ok (ret, rest)) = if length rest == 0 then ok ret else err tt
whole (err e) = err e

unfoldable pub from_reply {ℓ} : {A : Type ℓ} → Replyable A → Bytes → Result A (Unit {0})
unfolding whole
from_reply r reply = whole (r.from_reply_prefix reply)

abbrev pub unit_request : Requestable (Unit {0})
unit_request = record { to_request = λ u. [] }

abbrev pub unit_reply : Replyable (Unit {0})
unit_reply = record { from_reply_prefix = λ reply. ok (tt, reply) }

-- `to_le_bytes` and `from_le_bytes` of a word of `n` bytes.
unfoldable pub to_le_bytes : ℕ → ℕ → Bytes
to_le_bytes zero v = []
to_le_bytes (suc n) v = v % 256 ∷ to_le_bytes n (v / 256)

unfoldable pub from_le_bytes : Bytes → ℕ
from_le_bytes [] = 0
from_le_bytes (b ∷ bytes) = b + 256 * from_le_bytes bytes

abbrev pub word_request : ℕ → Requestable ℕ
word_request n = record { to_request = to_le_bytes n }

unfoldable pub word_prefix : ℕ → Bytes → Result (ℕ × Bytes) (Unit {0})
unfolding from_le_bytes
word_prefix psize reply =
    if ltb (length reply) psize
    then err tt
    else ok (from_le_bytes (take psize reply), drop psize reply)

abbrev pub word_reply : ℕ → Replyable ℕ
word_reply n = record { from_reply_prefix = word_prefix n }

-- The signed integers, in two's complement over `n` bytes.
pub data ℤ : Type 0 where
  pos negsuc : ℕ → ℤ

-- The number of values of `n` bytes.
abbrev pub values : ℕ → ℕ
values zero = 1
values (suc n) = 256 * values n

unfoldable pub to_word : ℕ → ℤ → ℕ
to_word n (pos v) = v
to_word n (negsuc v) = values n - 1 - v

unfoldable pub to_signed : ℕ → ℕ → ℤ
to_signed n v = if ltb (v * 2) (values n) then pos v else negsuc (values n - 1 - v)

unfoldable pub signed_bytes : ℕ → ℤ → Bytes
unfolding to_word to_le_bytes
signed_bytes n i = to_le_bytes n (to_word n i)

abbrev pub signed_request : ℕ → Requestable ℤ
signed_request n = record { to_request = signed_bytes n }

unfoldable pub signed_prefix : ℕ → Bytes → Result (ℤ × Bytes) (Unit {0})
unfolding word_prefix to_signed
signed_prefix n reply = do (v, rest) ← word_prefix n reply; ok (to_signed n v, rest)

abbrev pub signed_reply : ℕ → Replyable ℤ
signed_reply n = record { from_reply_prefix = signed_prefix n }

abbrev pub text_request : Requestable Text
text_request = record { to_request = λ text. text }

-- A text takes all that there is.
abbrev pub text_reply : Replyable Text
text_reply = record { from_reply_prefix = λ reply. ok (from_utf8_lossy reply, []) }

abbrev pub pair_request {ℓ κ} :
    {A : Type ℓ} {B : Type κ} → Requestable A → Requestable B → Requestable (A × B)
pair_request p q = record { to_request = λ x. p.to_request x.0 ++ q.to_request x.1 }

unfoldable pub pair_prefix {ℓ κ} :
    {A : Type ℓ} {B : Type κ}
    → Replyable A
    → Replyable B
    → Bytes
    → Result ((A × B) × Bytes) (Unit {0})
pair_prefix p q reply = do
  (first, rest) ← p.from_reply_prefix reply
  (second, rest) ← q.from_reply_prefix rest
  ok ((first, second), rest)

abbrev pub pair_reply {ℓ κ} :
    {A : Type ℓ} {B : Type κ} → Replyable A → Replyable B → Replyable (A × B)
pair_reply p q = record { from_reply_prefix = pair_prefix p q }
