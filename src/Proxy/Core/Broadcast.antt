-- ===== src/Proxy/Core/Broadcast.antt =====
-- The packets of the device that go to every client.
use twinleaf_rust.Shared.{
  ℕ, ◌≡◌, refl, sym, ap, ◌∙◌, subst, Bool, true, false, List, [], ◌∷◌, ◌++◌, append_assoc,
  append-nil, Result-cases, Result, ok, err, ◌>>=◌, none, inl, inr,
}
use twinleaf_rust.Proto.Packet.{Packet}
use twinleaf_rust.Proxy.Client.{ProxyClient}
use twinleaf_rust.Proxy.Core.{ProxyCore, Outside, Halt, send_event, drop_all, offered, client_send}
use twinleaf_rust.Proxy.Core.Handlers.{wire_id_of, broadcast_loop, broadcast, on_packet}
use twinleaf_rust.Proxy.Event.{Event, client_send_failed}
use twinleaf_rust.Proxy.Core.Delivery.{
  taken, taken_by_all, Delivers, put_into-delivered, send_event-Delivers, drop_all-Delivers,
}

module _ (o : Outside) where
  abbrev DeliversWith : ProxyCore → List (ℕ × Packet) → Result (ProxyCore × List ℕ) Halt → Type 0
  DeliversWith p more (ok x) = x.0.delivered ≡ p.delivered ++ more
  DeliversWith p more (err e) = Unit

  -- A client that is to be dropped is noted before the rest.
  noted_after :
      (p : ProxyCore) (id : ℕ) (xs ys : List (ℕ × Packet)) (r : Result ProxyCore Halt)
      (k : ProxyCore → Result (ProxyCore × List ℕ) Halt)
      → Delivers o p xs r
      → ((q : ProxyCore) → DeliversWith q ys (k q))
      → DeliversWith p (xs ++ ys) (r >>= λ q. k q >>= λ x. ok (x.0, id ∷ x.1))
  noted_after p id xs ys (err e) k h next = tt
  noted_after p id xs ys (ok q) k h next = elim (Result-cases (k q)) [
    | inl (x, done) ↦
        let last = subst (DeliversWith q ys) done (next q) in
        rw done (last ∙ ap (λ t. t ++ ys) h ∙ append_assoc p.delivered xs ys)
    | inr (e, failed) ↦ rw failed tt
  ]

  event_after :
      (p q : ProxyCore) (xs : List (ℕ × Packet)) (e : Event)
      → q.delivered ≡ p.delivered ++ xs
      → Delivers o p xs (send_event o q e)
  event_after p q xs e h = elim (Result-cases (send_event o q e)) [
    | inl (end, done) ↦
        let last = subst (Delivers o q []) done (send_event-Delivers o q e) in
        rw done (last ∙ append-nil q.delivered ∙ h)
    | inr (x, stop) ↦ rw stop tt
  ]

  broadcast_step :
      (p q : ProxyCore) (failed : Bool) (id : ℕ) (packet : Packet)
      (clients : List (ℕ × ProxyClient)) (xs : List (ℕ × Packet))
      → q.delivered ≡ p.delivered ++ xs
      → ((r : ProxyCore)
          → DeliversWith r (taken_by_all o clients packet) (broadcast_loop o r packet clients))
      → DeliversWith p (xs ++ taken_by_all o clients packet) (elim failed [
        | false ↦ broadcast_loop o q packet clients
        | true ↦ (do
          s ← send_event o q (client_send_failed id)
          (r, to_drop) ← broadcast_loop o s packet clients
          ok (r, id ∷ to_drop))
      ])
  broadcast_step p q false id packet clients xs h next =
      elim (Result-cases (broadcast_loop o q packet clients)) [
        | inl (x, done) ↦
            let last = subst (DeliversWith q (taken_by_all o clients packet)) done (next q) in
            rw done (
              last
              ∙ ap (λ t. t ++ taken_by_all o clients packet) h
              ∙ append_assoc p.delivered xs (taken_by_all o clients packet))
        | inr (e, stop) ↦ rw stop tt
      ]
  broadcast_step p q true id packet clients xs h next =
      noted_after p id xs (taken_by_all o clients packet) (send_event o q (client_send_failed id))
        (λ s. broadcast_loop o s packet clients) (event_after p q xs (client_send_failed id) h) next

  broadcast_loop-DeliversWith :
      (p : ProxyCore) (packet : Packet) (clients : List (ℕ × ProxyClient))
      → DeliversWith p (taken_by_all o clients packet) (broadcast_loop o p packet clients)
  unfolding broadcast_loop client_send
  broadcast_loop-DeliversWith p packet [] = sym (append-nil p.delivered)
  broadcast_loop-DeliversWith p packet ((id, client) ∷ clients) =
      let (q, failed) = client_send o p id client packet in
      broadcast_step p q failed id packet clients (taken o id client packet)
        (put_into-delivered o p id (offered client packet))
        (λ r. broadcast_loop-DeliversWith r packet clients)

  dropped_after :
      (p : ProxyCore) (xs : List (ℕ × Packet)) (r : Result (ProxyCore × List ℕ) Halt)
      → DeliversWith p xs r
      → Delivers o p xs (r >>= λ x. drop_all o x.0 x.1)
  dropped_after p xs (err e) h = tt
  dropped_after p xs (ok x) h = elim (Result-cases (drop_all o x.0 x.1)) [
    | inl (end, done) ↦
        let last = subst (Delivers o x.0 []) done (drop_all-Delivers o x.0 x.1) in
        rw done (last ∙ append-nil x.0.delivered ∙ h)
    | inr (e, stop) ↦ rw stop tt
  ]

  broadcast-Delivers :
      (p : ProxyCore) (packet : Packet)
      → Delivers o p (taken_by_all o p.clients packet) (broadcast o p packet)
  unfolding broadcast
  broadcast-Delivers p packet =
      dropped_after p (taken_by_all o p.clients packet) (broadcast_loop o p packet p.clients)
        (broadcast_loop-DeliversWith p packet p.clients)

  on_packet_other :
      (p : ProxyCore) (packet : Packet)
      → wire_id_of packet.payload ≡ none
      → on_packet o p packet ≡ broadcast o p packet
  unfolding on_packet
  on_packet_other p packet e = rw (e, on_packet) refl

  -- A packet of the device that answers no RPC is offered to every client: each gets it once, under
  -- the client's route, if it lies in the client's scope, the client wants its kind and its channel
  -- takes it. What was delivered before stays, and clients that fail do not keep it from others.
  pub on_packet-taken_by_all :
      (p p' : ProxyCore) (packet : Packet)
      → wire_id_of packet.payload ≡ none
      → on_packet o p packet ≡ ok p'
      → p'.delivered ≡ p.delivered ++ taken_by_all o p.clients packet
  on_packet-taken_by_all p p' packet e run =
      subst (Delivers o p (taken_by_all o p.clients packet))
        (sym (on_packet_other p packet e) ∙ run) (broadcast-Delivers p packet)
