-- ===== src/Proxy/Port/Tests.antt =====
-- A call over a client's port.
use twinleaf_rust.Shared.{◌≡◌, refl, true, [], ◌∷◌, List, arith, All, ok, Option, some, none}
use twinleaf_rust.Text.{IsUtf8, IsAscii-IsUtf8}
use twinleaf_rust.Proto.Packet.{Packet}
use twinleaf_rust.Proto.Payload.{rpc_reply}
use twinleaf_rust.Proto.Route.{root}
use twinleaf_rust.Proxy.Port.{Port, sending, rpc_answer, rpc}
use twinleaf_rust.Proxy.Port.Calls.{IsOther, rpc-reply}
use twinleaf_rust.Util.{make_rpc_request, make_empty_heartbeat}
use twinleaf_rust.Util.Values.{text_request, text_reply}
use twinleaf_rust.Util.Values.RoundTrip.{text-IsReadBack}

abbrev reply : Packet
reply = record {
  payload = rpc_reply (record { id = 0; reply = b'o' ∷ b'k' ∷ [] });
  routing = root;
  ttl = 0;
}

abbrev earlier : List (Option Packet)
earlier = none ∷ some make_empty_heartbeat ∷ []

abbrev port : Port
port = record {
  depth = 0;
  tx_open = true;
  tx_room = 32;
  sent = [];
  arrivals = none ∷ some make_empty_heartbeat ∷ some reply ∷ none ∷ [];
}

earlier-IsOther : All IsOther earlier
unfolding rpc_answer
earlier-IsOther = (tt, (refl, tt))

reply_answers : rpc_answer reply.payload ≡ some (ok (b'o' ∷ b'k' ∷ []))
unfolding rpc_answer
reply_answers = refl

rpc-reply_example : rpc text_request text_reply port (b'f' ∷ []) [] ≡ (
  ok (b'o' ∷ b'k' ∷ []),
  record (sending port (make_rpc_request (b'f' ∷ []) [] 0 root)) { arrivals = none ∷ [] },
)
rpc-reply_example =
    rpc-reply {V = IsUtf8} text_request text_request text_reply port (b'f' ∷ []) []
      (b'o' ∷ b'k' ∷ []) earlier (none ∷ []) reply 0 text-IsReadBack
      (IsAscii-IsUtf8 (b'o' ∷ b'k' ∷ []) (omega arith)) refl refl earlier-IsOther refl
