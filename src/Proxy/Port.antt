-- ===== src/Proxy/Port.antt =====
-- The port of a client of the proxy: twinleaf/src/tio/proxy.rs. The channels are crossbeam's; of them
-- a port has whether the other end is there, how much room is left and what was sent, and the
-- arrivals to come.
pub mod Calls
mod Tests
use twinleaf_rust.Shared.{
  ℕ, Bool, true, false, not, List, [], ◌∷◌, ◌++◌, length, ltb, ◌==◌, if◌then◌else◌, ◌-◌, Bytes,
  Result, ok, err, ◌>>=◌, Option, some, none,
}
use twinleaf_rust.Text.{Text}
use twinleaf_rust.Proto.Packet.{Packet}
use twinleaf_rust.Proto.Payload.{Payload, rpc_reply, rpc_error}
use twinleaf_rust.Proto.Route.{DeviceRoute, root}
use twinleaf_rust.Proto.Rpc.ErrorReply.{RpcErrorPayload}
use twinleaf_rust.Util.{make_rpc_request}
use twinleaf_rust.Util.Values.{Requestable, Replyable, from_reply, unit_request, unit_reply}

-- An arrival is a packet, or a moment at which the channel is empty. The other end is gone when
-- there is none left.
pub record Port : Type 0 where
  pub depth : ℕ
  pub tx_open : Bool
  pub tx_room : ℕ
  pub sent : List Packet
  pub arrivals : List (Option Packet)

pub data SendError : Type 0 where
  would_block proxy_disconnected invalid_route : Packet → SendError

pub data RecvError : Type 0 where
  recv_would_block recv_disconnected : RecvError

pub data RpcError : Type 0 where
  send_failed : SendError → RpcError
  exec_error : RpcErrorPayload → RpcError
  recv_failed : RecvError → RpcError
  type_error : RpcError

abbrev pub sending : Port → Packet → Port
sending p pkt = record p { sent = p.sent ++ (pkt ∷ []) }

-- A send that blocks waits for room.
unfoldable pub send : Port → Packet → Result Port SendError
send p pkt =
    if ltb p.depth (length pkt.routing.route)
    then err (invalid_route pkt)
    else if p.tx_open
    then ok (sending p pkt)
    else err (proxy_disconnected pkt)

unfoldable pub try_send : Port → Packet → Result Port SendError
try_send p pkt =
    if ltb p.depth (length pkt.routing.route)
    then err (invalid_route pkt)
    else if not p.tx_open
    then err (proxy_disconnected pkt)
    else if p.tx_room == 0
    then err (would_block pkt)
    else ok (record p { sent = p.sent ++ (pkt ∷ []); tx_room = p.tx_room - 1 })

-- The next packet and the arrivals behind it.
unfoldable pub next_packet : List (Option Packet) → Result (Packet × List (Option Packet)) RecvError
next_packet [] = err recv_disconnected
next_packet (none ∷ later) = next_packet later
next_packet (some pkt ∷ later) = ok (pkt, later)

unfoldable pub recv : Port → Result (Packet × Port) RecvError
unfolding next_packet
recv p = do (pkt, later) ← next_packet p.arrivals; ok (pkt, record p { arrivals = later })

-- The port is returned with an error too: a moment has passed.
unfoldable pub try_next : List (Option Packet) → Result Packet RecvError × List (Option Packet)
try_next [] = (err recv_disconnected, [])
try_next (none ∷ later) = (err recv_would_block, later)
try_next (some pkt ∷ later) = (ok pkt, later)

unfoldable pub try_recv : Port → Result Packet RecvError × Port
unfolding try_next
try_recv p = let (found, later) = try_next p.arrivals in (found, record p { arrivals = later })

-- What a packet says to one who waits for the answer to an RPC.
unfoldable pub rpc_answer : Payload → Option (Result Bytes RpcError)
rpc_answer (rpc_reply rep) = some (ok rep.reply)
rpc_answer (rpc_error e) = some (err (exec_error e))
rpc_answer payload = none

-- The loop that waits for the answer. It ends with the arrivals at the latest.
unfoldable pub await_answer : List (Option Packet) → Result Bytes RpcError × List (Option Packet)
unfolding rpc_answer
await_answer [] = (err (recv_failed recv_disconnected), [])
await_answer (none ∷ later) = await_answer later
await_answer (some pkt ∷ later) = elim (rpc_answer pkt.payload) [
  | none ↦ await_answer later
  | some answer ↦ (answer, later)
]

unfoldable pub awaiting : Result Port SendError → Port → Result Bytes RpcError × Port
unfolding await_answer
awaiting (err e) p = (err (send_failed e), p)
awaiting (ok p') p =
    let (answer, later) = await_answer p'.arrivals in (answer, record p' { arrivals = later })

unfoldable pub raw_rpc : Port → Text → Bytes → Result Bytes RpcError × Port
unfolding send awaiting
raw_rpc p name arg = awaiting (send p (make_rpc_request name arg 0 root)) p

unfoldable pub typed {ℓ} : {A : Type ℓ} → Replyable A → Result Bytes RpcError → Result A RpcError
unfolding from_reply
typed r (err e) = err e
typed r (ok ret) = elim (from_reply r ret) [ ok val ↦ ok val | err e ↦ err type_error ]

unfoldable pub rpc {ℓ κ} :
    {A : Type ℓ} {B : Type κ}
    → Requestable A
    → Replyable B
    → Port
    → Text
    → A
    → Result B RpcError × Port
unfolding raw_rpc typed
rpc q r p name arg = let (ret, p') = raw_rpc p name (q.to_request arg) in (typed r ret, p')

abbrev pub action : Port → Text → Result (Unit {0}) RpcError × Port
action p name = rpc unit_request unit_reply p name tt

abbrev pub get {κ} : {B : Type κ} → Replyable B → Port → Text → Result B RpcError × Port
get r p name = rpc unit_request r p name tt
