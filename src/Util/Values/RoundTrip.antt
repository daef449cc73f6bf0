-- ===== src/Util/Values/RoundTrip.antt =====
-- What is sent as an argument is read back as a reply.
use twinleaf_rust.Shared.{
  ℕ, ◌<◌, ◌≡◌, refl, ap, sym, ◌∙◌, [], ◌++◌, append-nil, append_assoc, arith, length, length-append,
  take-append, drop-append, le→ltb, Bytes, ok,
}
use twinleaf_rust.Text.{IsUtf8, from_utf8_lossy-IsUtf8}
use twinleaf_rust.Util.Values.{
  Requestable, Replyable, whole, from_reply, to_le_bytes, word_request, word_prefix, word_reply,
  values, ℤ, to_word, signed_bytes, signed_request, signed_prefix, signed_reply, text_request,
  text_reply, pair_request, pair_prefix, pair_reply,
}
use twinleaf_rust.Util.Values.Words.{
  length-to_le_bytes, from_le_bytes-to_le_bytes, IsSigned, to_word_lt, to_signed-to_word,
}

-- What `TioRpcReplyableFixedSize` stands for: the value knows where it ends.
abbrev pub IsFixedSize {ℓ κ} :
    {A : Type ℓ} → (A → Type κ) → Requestable A → Replyable A → Type (ℓ ⊔ κ)
IsFixedSize {A} Valid q r =
    (a : A) (rest : Bytes) → Valid a → r.from_reply_prefix (q.to_request a ++ rest) ≡ ok (a, rest)

-- The value is read back from all the bytes of its request.
abbrev pub IsReadBack {ℓ κ} :
    {A : Type ℓ} → (A → Type κ) → Requestable A → Replyable A → Type (ℓ ⊔ κ)
IsReadBack {A} Valid q r = (a : A) → Valid a → r.from_reply_prefix (q.to_request a) ≡ ok (a, [])

pub fixed-IsReadBack {ℓ κ} :
    {A : Type ℓ} (Valid : A → Type κ) (q : Requestable A) (r : Replyable A)
    → IsFixedSize Valid q r
    → IsReadBack Valid q r
fixed-IsReadBack Valid q r h a v =
    ap r.from_reply_prefix (sym (append-nil (q.to_request a))) ∙ h a [] v

pub word-IsFixedSize : (n : ℕ) → IsFixedSize (λ v. v < values n) (word_request n) (word_reply n)
unfolding word_prefix
word-IsFixedSize n v rest h =
    let size = length-to_le_bytes n v in
    let all = length-append (to_le_bytes n v) rest in
    rw (le→ltb (length (to_le_bytes n v ++ rest)) n (omega arith)) (
      rw
        (
          take-append n (to_le_bytes n v) rest (sym size),
          drop-append n (to_le_bytes n v) rest (sym size),
        )
        (rw (from_le_bytes-to_le_bytes n v h) refl))

pub IsSigned-IsFixedSize : (n : ℕ) → IsFixedSize (IsSigned n) (signed_request n) (signed_reply n)
unfolding signed_prefix signed_bytes
IsSigned-IsFixedSize n i rest h =
    rw (word-IsFixedSize n (to_word n i) rest (to_word_lt n i h))
      (rw (to_signed-to_word n i h) refl)

pub text-IsReadBack : IsReadBack IsUtf8 text_request text_reply
text-IsReadBack t u = rw (from_utf8_lossy-IsUtf8 u) refl

-- A pair whose first part has a fixed size is read back, and has a fixed size where both parts have.
pub pair-IsReadBack {ℓ κ ι η} :
    {A : Type ℓ} {B : Type κ} {V : A → Type ι} {W : B → Type η} (qa : Requestable A)
    (ra : Replyable A) (qb : Requestable B) (rb : Replyable B)
    → IsFixedSize V qa ra
    → (IsReadBack W qb rb → IsReadBack (λ x. V x.0 × W x.1) (pair_request qa qb) (pair_reply ra rb))
      × (IsFixedSize W qb rb
          → IsFixedSize (λ x. V x.0 × W x.1) (pair_request qa qb) (pair_reply ra rb))
unfolding pair_prefix
pair-IsReadBack qa ra qb rb first = (
  λ second x v. rw (first x.0 (qb.to_request x.1) v.0) (rw (second x.1 v.1) refl),
  λ second x rest v.
      rw (append_assoc (qa.to_request x.0) (qb.to_request x.1) rest)
        (rw (first x.0 (qb.to_request x.1 ++ rest) v.0) (rw (second x.1 rest v.1) refl)),
)

pub whole_reply {ℓ} :
    {A : Type ℓ} (r : Replyable A) (bytes : Bytes) (a : A)
    → r.from_reply_prefix bytes ≡ ok (a, [])
    → from_reply r bytes ≡ ok a
unfolding from_reply
whole_reply r bytes a e = rw (e, whole) refl

-- A signed integer of `n` bytes that is sent as an argument is read back from a reply of those
-- bytes.
pub from_reply-signed :
    (n : ℕ) (i : ℤ)
    → IsSigned n i
    → from_reply (signed_reply n) ((signed_request n).to_request i) ≡ ok i
from_reply-signed n i h =
    whole_reply (signed_reply n) _ i (
      fixed-IsReadBack (IsSigned n) (signed_request n) (signed_reply n) (IsSigned-IsFixedSize n) i
        h)

-- A pair of two valid values that is sent as an argument is read back whole from a reply of those
-- bytes, if the first type has a fixed size and the second is read back, as words, integers and
-- texts are.
pub from_reply-pair {ℓ κ ι η} :
    {A : Type ℓ} {B : Type κ} {V : A → Type ι} {W : B → Type η} (qa : Requestable A)
    (ra : Replyable A) (qb : Requestable B) (rb : Replyable B) (x : A × B)
    → IsFixedSize V qa ra
    → IsReadBack W qb rb
    → V x.0
    → W x.1
    → from_reply (pair_reply ra rb) ((pair_request qa qb).to_request x) ≡ ok x
from_reply-pair qa ra qb rb x first second v w =
    whole_reply (pair_reply ra rb) _ x ((pair-IsReadBack qa ra qb rb first).0 second x (v, w))
