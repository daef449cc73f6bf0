-- ===== src/Data/Device/Pending.antt =====
-- The account that `Device` keeps of the requests for metadata that are pending.
use twinleaf_rust.Shared.{
  ℕ, ◌+◌, ◌-◌, ◌≡◌, refl, ap, subst, List, [], ◌∷◌, ◌++◌, arith, ◌==◌, if◌then◌else◌, length, Bytes,
  Bool-cases, Result-cases, Result, ok, err, ◌>>=◌, Option, some, none, Bool, true, false, inl, inr,
}
use twinleaf_rust.Text.{Text}
use twinleaf_rust.Data.Device.{
  Device, new, send_all, internal_rpcs, Role, metadata_answer, other_answer, no_answer, role_of,
  parse_packet, process_as, process_packet, receive, ask_metadata, received,
}
use twinleaf_rust.Data.Parser
use twinleaf_rust.Data.Stop.{Stop, unwrap_some}
use twinleaf_rust.Data.Stream.{Sample, DeviceStreamMetadata}
use twinleaf_rust.Proto.Meta.Device.{DeviceMetadata}
use twinleaf_rust.Proto.Packet.{Packet}
use twinleaf_rust.Proto.Route.{root}
use twinleaf_rust.Proxy.Port
use twinleaf_rust.Proxy.Port.{
  Port, SendError, sending, RecvError, recv_would_block, recv_disconnected,
}
use twinleaf_rust.Util.{make_rpc_request}
use twinleaf_rust.Data.Device.Account.{
  requests_in, answers, requests_in-append, send-eq-ok, IsBalanced, send_all-IsBalanced,
  requests-asks, After, internal_rpcs-After,
}

-- What a device does, with the number of answers to metadata requests that it has processed.
pub data Ran : Device → ℕ → Type 0 where
  created : (port : Port) → port.sent ≡ [] → Ran (new port) 0
  asked : {d d' : Device} {k : ℕ} → Ran d k → internal_rpcs d ≡ ok d' → Ran d' k
  heard : {d d' : Device} {k : ℕ} (pkt : Packet) → Ran d k → receive d ≡ ok (pkt, d') → Ran d' k
  asked_all :
      {d d' : Device} {k : ℕ} (full : Option Parser.DeviceFullMetadata)
      → Ran d k
      → ask_metadata d ≡ ok (d', full)
      → Ran d' k
  tried :
      {d d' : Device} {k : ℕ} (found : Option Packet)
      → Ran d k
      → received (record d { dev_port = (Port.try_recv d.dev_port).1 }) (Port.try_recv d.dev_port).0
        ≡ ok (d', found)
      → Ran d' k
  processed :
      {d d' : Device} {k : ℕ} (pkt : Packet) (other : Option Packet)
      → Ran d k
      → process_packet d pkt ≡ ok (d', other)
      → Ran d' (answers (role_of pkt.payload) + k)
  took_samples :
      {d : Device} {k : ℕ} (queue : List Sample)
      → Ran d k
      → Ran (record d { sample_queue = queue }) k
  called :
      {d : Device} {k : ℕ} (name : Text) (arg : Bytes) (port : Port)
      → Ran d k
      → Port.send d.dev_port (make_rpc_request name arg 0 root) ≡ ok port
      → Ran (record d { dev_port = port }) k

-- What a packet leaves of the account.
abbrev Accounts : Device → ℕ → Result (Device × Option Packet) Stop → Type 0
Accounts d k (ok found) =
    (found.0.n_reqs + k ≡ d.n_reqs) × (found.0.dev_port.sent ≡ d.dev_port.sent)
Accounts d k (err e) = Unit

parse_packet-Accounts :
    (d t : Device) (k : ℕ) (found : Result (Parser.DeviceDataParser × List Sample) Stop)
    → t.n_reqs + k ≡ d.n_reqs
    → t.dev_port.sent ≡ d.dev_port.sent
    → Accounts d k
        (found >>= λ x. ok (record t { parser = x.0; sample_queue = t.sample_queue ++ x.1 }, none))
parse_packet-Accounts d t k (ok x) h same = (h, same)
parse_packet-Accounts d t k (err e) h same = tt

process_as-Accounts :
    (role : Role) (d : Device) (pkt : Packet) → Accounts d (answers role) (process_as role d pkt)
unfolding process_as parse_packet
process_as-Accounts metadata_answer d pkt = elim (Bool-cases (d.n_reqs == 0)) [
  | inl idle ↦ rw idle tt
  | inr busy ↦ rw busy (
      parse_packet-Accounts d (record d { n_reqs = d.n_reqs - 1 }) 1
        (Parser.process_packet d.parser pkt) (ground arith) refl)
]
process_as-Accounts other_answer d pkt = (omega arith, refl)
process_as-Accounts no_answer d pkt =
    parse_packet-Accounts d d 0 (Parser.process_packet d.parser pkt) (omega arith) refl

-- What a receive leaves of the account.
abbrev Receives : Device → Result (Packet × Device) Stop → Type 0
Receives d (ok found) = (found.1.n_reqs ≡ d.n_reqs) × (found.1.dev_port.sent ≡ d.dev_port.sent)
Receives d (err e) = Unit

receive-Receives : (d : Device) → Receives d (receive d)
unfolding receive Port.recv
receive-Receives d = elim (Result-cases (Port.next_packet d.dev_port.arrivals)) [
  | inl (x, found) ↦ rw found ((refl, refl))
  | inr (x, gone) ↦ rw gone tt
]

-- What a try at a packet leaves of the account.
abbrev Leaves : Device → Result (Device × Option Packet) Stop → Type 0
Leaves d (ok x) = (x.0.n_reqs ≡ d.n_reqs) × (x.0.dev_port.sent ≡ d.dev_port.sent)
Leaves d (err e) = Unit

received-Leaves :
    (d t : Device) (found : Result Packet RecvError)
    → t.n_reqs ≡ d.n_reqs
    → t.dev_port.sent ≡ d.dev_port.sent
    → Leaves d (received t found)
unfolding received
received-Leaves d t (ok pkt) h same = (h, same)
received-Leaves d t (err recv_would_block) h same = (h, same)
received-Leaves d t (err recv_disconnected) h same = tt

tried-Leaves :
    (d : Device)
    → Leaves d (
        received
          (record d { dev_port = (Port.try_recv d.dev_port).1 })
          (Port.try_recv d.dev_port).0)
tried-Leaves d =
    received-Leaves d (record d { dev_port = (Port.try_recv d.dev_port).1 })
      (Port.try_recv d.dev_port).0 refl (unfold Port.try_recv in refl)

-- The requests of `get_metadata` are those of the parser.
abbrev AfterWith : ℕ → Result (Device × Option Parser.DeviceFullMetadata) Stop → Type 0
AfterWith k (ok x) = IsBalanced x.0 k
AfterWith k (err e) = Unit

abbrev Asks : Result (Result Parser.DeviceFullMetadata (List Packet)) Stop → Type 0
Asks (ok (err reqs)) = requests_in reqs ≡ length reqs
Asks answer = Unit

if-Asks :
    (c : Bool) (a : Result (Result Parser.DeviceFullMetadata (List Packet)) Stop)
    (reqs : List Packet)
    → Asks a
    → requests_in reqs ≡ length reqs
    → Asks (if c then a else ok (err reqs))
if-Asks true a reqs h k = h
if-Asks false a reqs h k = k

whole-Asks :
    (p : Parser.DeviceDataParser) (r : Result (List (ℕ × DeviceStreamMetadata)) Stop)
    (device : Option DeviceMetadata)
    → Asks (do
      streams ← r
      dev ← unwrap_some device
      ok (ok (record { device = dev; streams = streams })))
whole-Asks p (err e) device = tt
whole-Asks p (ok streams) none = tt
whole-Asks p (ok streams) (some device) = tt

get_metadata-Asks : (p : Parser.DeviceDataParser) → Asks (Parser.get_metadata p)
unfolding Parser.get_metadata
get_metadata-Asks p = elim (Result-cases (Parser.requests p)) [
  | inr (x, r) ↦ rw r tt
  | inl (reqs, r) ↦ rw r (
      if-Asks (length reqs == 0) _ reqs (whole-Asks p (Parser.streams_metadata p.streams) p.device)
        (requests-asks p reqs r))
]

asked_rest :
    (d : Device) (k : ℕ) (answer : Result (Result Parser.DeviceFullMetadata (List Packet)) Stop)
    → Asks answer
    → IsBalanced d k
    → AfterWith k (
        answer >>= λ a. elim a [
          | ok full ↦ ok (d, some full)
          | err reqs ↦ (do d ← send_all reqs d; ok (d, none))
        ])
asked_rest d k (err e) h w = tt
asked_rest d k (ok (ok full)) h w = w
asked_rest d k (ok (err reqs)) h w = elim (Result-cases (send_all reqs d)) [
  | inl (d', s) ↦ rw s (send_all-IsBalanced reqs d d' k h w s)
  | inr (x, s) ↦ rw s tt
]

ask_metadata-AfterWith : (d : Device) (k : ℕ) → IsBalanced d k → AfterWith k (ask_metadata d)
unfolding ask_metadata
ask_metadata-AfterWith d k w = elim (Bool-cases (d.n_reqs == 0)) [
  | inr busy ↦ rw busy w
  | inl idle ↦
      rw idle (asked_rest d k (Parser.get_metadata d.parser) (get_metadata-Asks d.parser) w)
]

-- The number of pending requests is right: after any sequence of the steps that the methods of a device
-- are made of - the requests of `internal_rpcs` and of `get_metadata`, receiving with or without
-- waiting, processing a packet, taking samples and sending its user's RPCs - the requests for metadata
-- that it has sent are those that were answered, by a reply or an error, and `n_reqs` more. RPCs of its
-- user do not count.
pub Ran-IsBalanced : {d : Device} {k : ℕ} → Ran d k → d.n_reqs + k ≡ requests_in d.dev_port.sent
unfolding new process_packet
Ran-IsBalanced (created port e) = rw e refl
Ran-IsBalanced (asked {d = d} {d' = d'} {k = k} r e) =
    subst (After k) e (internal_rpcs-After d k (Ran-IsBalanced r))
Ran-IsBalanced (heard {d = d} {d' = d'} {k = k} pkt r e) =
    let before = Ran-IsBalanced r in
    let same = subst (Receives d) e (receive-Receives d) in omega (arith, ap requests_in same.1)
Ran-IsBalanced (asked_all {d = d} {d' = d'} {k = k} full r e) =
    subst (AfterWith k) e (ask_metadata-AfterWith d k (Ran-IsBalanced r))
Ran-IsBalanced (tried {d = d} {d' = d'} {k = k} found r e) =
    let before = Ran-IsBalanced r in
    let same = subst (Leaves d) e (tried-Leaves d) in omega (arith, ap requests_in same.1)
Ran-IsBalanced (processed {d = d} {d' = d'} {k = k} pkt other r s) =
    let before = Ran-IsBalanced r in
    let (count, sent) =
      subst (Accounts d (answers (role_of pkt.payload))) s
        (process_as-Accounts (role_of pkt.payload) d pkt) in
    omega (arith, ap requests_in sent)
Ran-IsBalanced (took_samples queue r) = Ran-IsBalanced r
Ran-IsBalanced (called {d = d} {k = k} name arg port r e) =
    let before = Ran-IsBalanced r in
    let after = send-eq-ok d.dev_port port _ e in
    let sum = requests_in-append d.dev_port.sent (make_rpc_request name arg 0 root ∷ []) in
    omega (arith, ap (λ t. requests_in t.sent) after)
