-- ===== src/Util/Values/Tests.antt =====
-- Runs of the typed arguments and replies.
use twinleaf_rust.Shared.{◌≡◌, refl, [], ◌∷◌, arith, ok}
use twinleaf_rust.Text.{IsUtf8, IsAscii-IsUtf8}
use twinleaf_rust.Util.Values.{
  from_reply, values, ℤ, pos, negsuc, signed_request, signed_reply, word_request, word_reply,
  text_request, text_reply, pair_request, pair_reply,
}
use twinleaf_rust.Util.Values
use twinleaf_rust.Util.Values.Words.{IsSigned}
use twinleaf_rust.Util.Values.RoundTrip.{
  from_reply-signed, from_reply-pair, IsSigned-IsFixedSize, text-IsReadBack,
}

-- -2 in two bytes.
minus_two : (signed_request 2).to_request (negsuc 1) ≡ 0xFE ∷ 0xFF ∷ []
unfolding Values.signed_bytes Values.to_word Values.to_le_bytes
minus_two = refl

from_reply-signed_example :
    from_reply (signed_reply 2) ((signed_request 2).to_request (negsuc 1)) ≡ ok (negsuc 1)
from_reply-signed_example = from_reply-signed 2 (negsuc 1) (omega arith)

from_reply-pair_example :
    from_reply
      (pair_reply (signed_reply 2) text_reply)
      ((pair_request (signed_request 2) text_request).to_request (negsuc 1, b'a' ∷ []))
    ≡ ok (negsuc 1, b'a' ∷ [])
from_reply-pair_example =
    from_reply-pair {V = IsSigned 2} {W = IsUtf8} (signed_request 2) (signed_reply 2) text_request
      text_reply (negsuc 1, b'a' ∷ []) (IsSigned-IsFixedSize 2) text-IsReadBack (omega arith)
      (IsAscii-IsUtf8 (b'a' ∷ []) (omega arith))
