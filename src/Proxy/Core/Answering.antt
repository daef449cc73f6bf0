-- ===== src/Proxy/Core/Answering.antt =====
-- The answers of the device to the RPCs of clients.
use twinleaf_rust.Shared.{
  Bytes, ℕ, ◌≡◌, ◌≢◌, refl, sym, ap, ◌∙◌, subst, false, ◌++◌, arith, ◌==◌, Result, ok, err, some,
  inl, inr, lookup,
}
use twinleaf_rust.Proto.Packet.{Packet}
use twinleaf_rust.Proto.Route.{DeviceRoute}
use twinleaf_rust.Proto.Payload.{Payload, rpc_reply, rpc_error}
use twinleaf_rust.Proto.Rpc.ErrorCode.{RpcErrorCode}
use twinleaf_rust.Proto.Rpc.Request.{RpcRequestPayload}
use twinleaf_rust.Proxy.Client.{ProxyClient}
use twinleaf_rust.Proxy.Core.{ProxyCore, Outside}
use twinleaf_rust.Proxy.Core.Delivery.{taken, Delivers, answer_client-Delivers}
use twinleaf_rust.Proxy.Core.Handlers.{wire_id_of, with_id, answer_client, answered, on_packet}
use twinleaf_rust.Proxy.Rpcs.{Rpcs, Forwarded, forward_request, rpc_restore}
use twinleaf_rust.Proxy.Rpcs.Answers.{forward_request-Handled}
use twinleaf_rust.Proxy.Rpcs.Tracking.{IsConsistent}

some_injective {ℓ} : {A : Type ℓ} {a b : A} → some a ≡ some b → a ≡ b
some_injective e = ground arith

ok_not_err {ℓ κ} :
    {A : Type ℓ} {E : Type κ} {a : A} {e : E} → ◌≡◌ {A = Result A E} (ok a) (err e) → ⊥
ok_not_err e = ground arith

-- An answer but for its id.
pub data Answer : Type 0 where
  reply : Bytes → Answer
  error : RpcErrorCode → Bytes → Answer

abbrev pub answer_payload : ℕ → Answer → Payload
answer_payload id (reply bytes) = rpc_reply (record { id = id; reply = bytes })
answer_payload id (error code extra) = rpc_error (record { id = id; error = code; extra = extra })

abbrev pub answer_packet : ℕ → Answer → DeviceRoute → ℕ → Packet
answer_packet id answer route ttl = record {
  payload = answer_payload id answer;
  routing = route;
  ttl = ttl;
}

answer_wire_id : (id : ℕ) (answer : Answer) → wire_id_of (answer_payload id answer) ≡ some id
unfolding wire_id_of
answer_wire_id id (reply bytes) = refl
answer_wire_id id (error code extra) = refl

answer_with_id :
    (wire_id id : ℕ) (answer : Answer)
    → with_id id (answer_payload wire_id answer) ≡ answer_payload id answer
unfolding with_id
answer_with_id wire_id id (reply bytes) = refl
answer_with_id wire_id id (error code extra) = refl

module _ (o : Outside) where
  answered_client :
      (p : ProxyCore) (packet : Packet) (wire_id client_id rpc_id : ℕ) (client : ProxyClient)
      → (client_id == 0) ≡ false
      → lookup client_id p.clients ≡ some client
      → answered o p packet wire_id (some (client_id, rpc_id))
        ≡ answer_client o p
            (record packet { payload = with_id rpc_id packet.payload })
            wire_id
            (client_id, rpc_id)
            (some client)
  unfolding answered
  answered_client p packet wire_id client_id rpc_id client other there = rw other (
      ap
        (answer_client o p (record packet { payload = with_id rpc_id packet.payload }) wire_id
          (client_id, rpc_id))
        there)

  on_packet_found :
      (p : ProxyCore) (packet : Packet) (wire_id client_id rpc_id : ℕ) (client : ProxyClient)
      (rpcs : Rpcs)
      → wire_id_of packet.payload ≡ some wire_id
      → rpc_restore p.rpcs wire_id packet.routing ≡ (rpcs, some (client_id, rpc_id))
      → client_id ≢ 0
      → lookup client_id p.clients ≡ some client
      → on_packet o p packet
        ≡ answer_client o
            (record p { rpcs = rpcs })
            (record packet { payload = with_id rpc_id packet.payload })
            wire_id
            (client_id, rpc_id)
            (some client)
  unfolding on_packet
  on_packet_found p packet wire_id client_id rpc_id client rpcs e found external there =
      let start : on_packet o p packet
          ≡ answered o (record p { rpcs = (rpc_restore p.rpcs wire_id packet.routing).0 }) packet
              wire_id (rpc_restore p.rpcs wire_id packet.routing).1 =
        rw (e, on_packet) refl in
      start
      ∙ ap (λ x. answered o (record p { rpcs = x.0 }) packet wire_id x.1) found
      ∙ answered_client (record p { rpcs = rpcs }) packet wire_id client_id rpc_id client
          (ground arith) there

  answer_taken :
      (p p' : ProxyCore) (packet : Packet) (wire_id client_id rpc_id : ℕ) (client : ProxyClient)
      (rpcs : Rpcs)
      → wire_id_of packet.payload ≡ some wire_id
      → rpc_restore p.rpcs wire_id packet.routing ≡ (rpcs, some (client_id, rpc_id))
      → client_id ≢ 0
      → lookup client_id p.clients ≡ some client
      → on_packet o p packet ≡ ok p'
      → p'.delivered
        ≡ p.delivered
          ++ taken o client_id client (record packet { payload = with_id rpc_id packet.payload })
  answer_taken p p' packet wire_id client_id rpc_id client rpcs e found external there run =
      subst
        (Delivers o p
          (taken o client_id client (record packet { payload = with_id rpc_id packet.payload })))
        (sym (on_packet_found p packet wire_id client_id rpc_id client rpcs e found external there)
          ∙ run)
        (answer_client-Delivers o (record p { rpcs = rpcs })
          (record packet { payload = with_id rpc_id packet.payload }) wire_id client_id rpc_id
          client)

  -- The way of an RPC through the proxy and back. A client's request that the device's port has taken,
  -- from RPCs in flight that are consistent, is answered to that client alone: when the device answers
  -- under the id on the wire and the request's route, with a reply or an error, what is delivered is
  -- that answer under the client's own id and route, if the client's channel takes it, and nothing else.
  pub request-on_packet :
      (p p' : ProxyCore) (request : Packet) (answer : Answer) (ttl : ℕ) (req : RpcRequestPayload)
      (client_id now : ℕ) (client : ProxyClient) (f : Forwarded)
      → IsConsistent p.rpcs
      → client_id ≢ 0
      → lookup client_id p.clients ≡ some client
      → forward_request (λ k. lookup k p.clients) (some o.port) now p.rpcs request req client_id
        ≡ some f
      → f.answer ≡ ok tt
      → on_packet o
          (record p { rpcs = f.rpcs })
          (answer_packet p.rpcs.next_rpc_id answer request.routing ttl)
        ≡ ok p'
      → p'.delivered
        ≡ p.delivered ++ taken o client_id client (answer_packet req.id answer request.routing ttl)
  request-on_packet p p' request answer ttl req client_id now client f c external there sent done
        run =
      let (g, given, consistent, how) =
        forward_request-Handled (some o.port) p.rpcs c request req client_id
          (λ k. lookup k p.clients) now (λ h gone. cc (there, gone)) in
      let whole = some_injective (sym given ∙ sent) in
      elim how [
        | inr refused ↦
            absurd (ok_not_err (sym done ∙ sym (ap (λ x. x.answer) whole) ∙ refused.0.1))
        | inl waits ↦
            let (s', back, again, kept) = waits.2 in
            answer_taken (record p { rpcs = f.rpcs }) p'
              (answer_packet p.rpcs.next_rpc_id answer request.routing ttl) p.rpcs.next_rpc_id
              client_id req.id client s' (answer_wire_id p.rpcs.next_rpc_id answer)
              (ap (λ x. rpc_restore x.rpcs p.rpcs.next_rpc_id request.routing) (sym whole) ∙ back)
              external there run
            ∙ ap
                (λ payload.
                  p.delivered
                  ++ taken o client_id client
                      (record { payload = payload; routing = request.routing; ttl = ttl }))
                (answer_with_id p.rpcs.next_rpc_id req.id answer)
      ]
