-- ===== src/Data/Device/Account.antt =====
-- The requests for metadata that a `Device` of twinleaf/src/data/mod.rs has sent, and its count of them.
use twinleaf_rust.Shared.{
  ℕ, suc, ◌+◌, ◌≡◌, refl, ap, sym, ◌∙◌, subst, List, [], ◌∷◌, ◌++◌, append_assoc, append-nil, arith,
  ltb, ◌==◌, if◌then◌else◌, length, Bool-cases, Result-cases, Result, ok, err, >>=-eq-ok, inl, inr,
}
use twinleaf_rust.Data.Device.{
  Device, send_all, internal_rpcs, Role, metadata_answer, other_answer, no_answer,
}
use twinleaf_rust.Data.Parser
use twinleaf_rust.Data.Requests.{StreamRpcMetaReq, metadata_rpc_id}
use twinleaf_rust.Data.Requests.Packing.{
  Carries, nothing, bootstrap, batch, metareqs_to_rpcs-Carries,
}
use twinleaf_rust.Data.Stop.{Stop, unwrap}
use twinleaf_rust.Proto.Packet.{Packet}
use twinleaf_rust.Proto.Payload.{Payload, rpc_request}
use twinleaf_rust.Proxy.Port
use twinleaf_rust.Proxy.Port.{
  Port, SendError, sending, RecvError, recv_would_block, recv_disconnected,
}

-- Whether a packet that was sent asks for metadata, and whether one that arrived answers.
abbrev asks : Payload → ℕ
asks (rpc_request q) = if q.id == metadata_rpc_id then 1 else 0
asks payload = 0

abbrev pub requests_in : List Packet → ℕ
requests_in [] = 0
requests_in (pkt ∷ sent) = asks pkt.payload + requests_in sent

abbrev pub answers : Role → ℕ
answers metadata_answer = 1
answers other_answer = 0
answers no_answer = 0

pub requests_in-append :
    (xs ys : List Packet) → requests_in (xs ++ ys) ≡ requests_in xs + requests_in ys
requests_in-append [] ys = omega arith
requests_in-append (x ∷ xs) ys = omega (arith, requests_in-append xs ys)

Carries-requests_in :
    {reqs : List StreamRpcMetaReq} {rpcs : List Packet}
    → Carries reqs rpcs
    → requests_in rpcs ≡ length rpcs
Carries-requests_in nothing = refl
Carries-requests_in (bootstrap req l) = refl
Carries-requests_in (batch front back rpcs h k f l c) = omega (arith, Carries-requests_in c)

abbrev Sends : Port → Packet → Result Port SendError → Type 0
Sends p pkt (ok port) = port ≡ sending p pkt
Sends p pkt (err e) = Unit

send-Sends : (p : Port) (pkt : Packet) → Sends p pkt (Port.send p pkt)
unfolding Port.send
send-Sends p pkt = elim (Bool-cases (ltb p.depth (length pkt.routing.route))) [
  | inl far ↦ rw far tt
  | inr near ↦
      rw near (elim (Bool-cases p.tx_open) [ inl there ↦ rw there refl | inr gone ↦ rw gone tt ])
]

pub send-eq-ok : (p port : Port) (pkt : Packet) → Port.send p pkt ≡ ok port → port ≡ sending p pkt
send-eq-ok p port pkt e = subst (Sends p pkt) e (send-Sends p pkt)

unwrap-eq-ok {ℓ κ} : {A : Type ℓ} {E : Type κ} (r : Result A E) (a : A) → unwrap r ≡ ok a → r ≡ ok a
unwrap-eq-ok (ok b) a e = let same : b ≡ a = ground arith in ap ok same
unwrap-eq-ok (err x) a e = cc

-- Every request is sent, in order, and counted.
send_all-eq-ok :
    (reqs : List Packet) (d d' : Device)
    → send_all reqs d ≡ ok d'
    → (d'.n_reqs ≡ d.n_reqs + length reqs) × (d'.dev_port.sent ≡ d.dev_port.sent ++ reqs)
unfolding send_all
send_all-eq-ok [] d d' e =
    let same : d ≡ d' = ground arith in
    (
      ap (λ t. t.n_reqs) (sym same) ∙ omega arith,
      ap (λ t. t.dev_port.sent) (sym same) ∙ sym (append-nil _),
    )
send_all-eq-ok (req ∷ reqs) d d' e =
    let (port, s, rest) = >>=-eq-ok (unwrap (Port.send d.dev_port req)) _ e in
    let after = send-eq-ok d.dev_port port req (unwrap-eq-ok _ port s) in
    let (count, all) =
      send_all-eq-ok reqs (record d { dev_port = port; n_reqs = suc d.n_reqs }) d' rest in
    (
      count ∙ omega arith,
      all ∙ ap (λ t. t.sent ++ reqs) after ∙ append_assoc d.dev_port.sent (req ∷ []) reqs,
    )

abbrev pub IsBalanced : Device → ℕ → Type 0
IsBalanced d k = d.n_reqs + k ≡ requests_in d.dev_port.sent

pub send_all-IsBalanced :
    (reqs : List Packet) (d d' : Device) (k : ℕ)
    → requests_in reqs ≡ length reqs
    → IsBalanced d k
    → send_all reqs d ≡ ok d'
    → IsBalanced d' k
send_all-IsBalanced reqs d d' k h w e =
    let (count, all) = send_all-eq-ok reqs d d' e in
    let sum = requests_in-append d.dev_port.sent reqs in omega (arith, ap requests_in all)

ok_injective {ℓ κ} :
    {A : Type ℓ} {E : Type κ} {a b : A} → ◌≡◌ {A = Result A E} (ok a) (ok b) → a ≡ b
ok_injective e = ground arith

pub requests-asks :
    (p : Parser.DeviceDataParser) (rpcs : List Packet)
    → Parser.requests p ≡ ok rpcs
    → requests_in rpcs ≡ length rpcs
unfolding Parser.requests
requests-asks p rpcs e =
    let (found, run, c) = metareqs_to_rpcs-Carries (Parser.metareqs p p.device) in
    let same : found ≡ rpcs = ok_injective (sym run ∙ e) in
    subst (λ t. requests_in t ≡ length t) same (Carries-requests_in c)

abbrev pub After : ℕ → Result Device Stop → Type 0
After k (ok d) = IsBalanced d k
After k (err e) = Unit

send_all-After :
    (reqs : List Packet) (d : Device) (k : ℕ)
    → requests_in reqs ≡ length reqs
    → IsBalanced d k
    → After k (send_all reqs d)
send_all-After reqs d k h w = elim (Result-cases (send_all reqs d)) [
  | inl (d', s) ↦ rw s (send_all-IsBalanced reqs d d' k h w s)
  | inr (x, s) ↦ rw s tt
]

pub internal_rpcs-After : (d : Device) (k : ℕ) → IsBalanced d k → After k (internal_rpcs d)
unfolding internal_rpcs
internal_rpcs-After d k w = elim (Bool-cases (d.n_reqs == 0)) [
  | inr busy ↦ rw busy w
  | inl idle ↦ rw idle (elim (Result-cases (Parser.requests d.parser)) [
    | inl (rpcs, r) ↦ rw r (send_all-After rpcs d k (requests-asks d.parser rpcs r) w)
    | inr (x, r) ↦ rw r tt
  ])
]
