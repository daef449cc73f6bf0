-- ===== src/Proxy/Port/Calls.antt =====
-- The RPCs that a client makes over its port.
use twinleaf_rust.Shared.{
  ℕ, ◌≡◌, refl, ◌∷◌, [], ◌++◌, arith, le→ltb, true, List, Bytes, All, Result, ok, Option, some,
  none,
}
use twinleaf_rust.Text.{Text}
use twinleaf_rust.Proto.Packet.{Packet}
use twinleaf_rust.Proto.Payload.{rpc_reply}
use twinleaf_rust.Proto.Route.{root}
use twinleaf_rust.Proxy.Port.{
  Port, RpcError, send, sending, rpc_answer, await_answer, awaiting, raw_rpc, typed, rpc,
}
use twinleaf_rust.Util.{make_rpc_request}
use twinleaf_rust.Util.Values.{Requestable, Replyable}
use twinleaf_rust.Util.Values.RoundTrip.{IsReadBack, whole_reply}

-- An arrival that no RPC waits for.
abbrev pub IsOther : Option Packet → Type 0
IsOther none = Unit
IsOther (some pkt) = rpc_answer pkt.payload ≡ none

await_answer-append :
    (before later : List (Option Packet)) (pkt : Packet) (answer : Result Bytes RpcError)
    → All IsOther before
    → rpc_answer pkt.payload ≡ some answer
    → await_answer (before ++ (some pkt ∷ later)) ≡ (answer, later)
unfolding await_answer
await_answer-append [] later pkt answer h e = rw (e, await_answer) refl
await_answer-append (none ∷ before) later pkt answer h e =
    await_answer-append before later pkt answer h.1 e
await_answer-append (some other ∷ before) later pkt answer h e =
    rw (h.0, await_answer) (await_answer-append before later pkt answer h.1 e)

send-root :
    (p : Port) (name : Text) (arg : Bytes) (id : ℕ)
    → p.tx_open ≡ true
    → send p (make_rpc_request name arg id root)
      ≡ ok (sending p (make_rpc_request name arg id root))
unfolding send root
send-root p name arg id e = rw (le→ltb p.depth 0 (omega arith), e) refl

-- An RPC on a port whose proxy is there sends the request, waits past whatever packets are no answer,
-- and returns the first answer that arrives, a reply's bytes or an error's code; the arrivals behind
-- it are left.
pub raw_rpc-answer :
    (p : Port) (name : Text) (arg : Bytes) (before later : List (Option Packet)) (pkt : Packet)
    (answer : Result Bytes RpcError)
    → p.tx_open ≡ true
    → p.arrivals ≡ before ++ (some pkt ∷ later)
    → All IsOther before
    → rpc_answer pkt.payload ≡ some answer
    → raw_rpc p name arg
      ≡ (answer, record (sending p (make_rpc_request name arg 0 root)) { arrivals = later })
unfolding raw_rpc awaiting
raw_rpc-answer p name arg before later pkt answer opened come h e =
    rw (send-root p name arg 0 opened)
      (rw come (rw (await_answer-append before later pkt answer h e) refl))

-- While the proxy is there, a typed RPC gets the value that the device sends, past whatever packets
-- are no answer, if the value's type reads back what it writes.
pub rpc-reply {ℓ κ ι} :
    {A : Type ℓ} {B : Type κ} {V : B → Type ι} (q : Requestable A) (w : Requestable B)
    (r : Replyable B) (p : Port) (name : Text) (arg : A) (val : B)
    (before later : List (Option Packet)) (pkt : Packet) (id : ℕ)
    → IsReadBack V w r
    → V val
    → p.tx_open ≡ true
    → p.arrivals ≡ before ++ (some pkt ∷ later)
    → All IsOther before
    → pkt.payload ≡ rpc_reply (record { id = id; reply = w.to_request val })
    → rpc q r p name arg ≡ (
      ok val,
      record (sending p (make_rpc_request name (q.to_request arg) 0 root)) { arrivals = later },
    )
unfolding rpc rpc_answer typed
rpc-reply q w r p name arg val before later pkt id back v opened come h e =
    rw
      (raw_rpc-answer p name (q.to_request arg) before later pkt (ok (w.to_request val)) opened come
        h (rw e refl))
      (rw (whole_reply r (w.to_request val) val (back val v), typed) refl)
