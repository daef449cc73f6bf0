-- ===== src/Proxy/Core/Delivery.antt =====
-- Where the packets of the device go.
use twinleaf_rust.Shared.{
  ℕ, ◌≡◌, refl, sym, ap, ◌∙◌, subst, Bool, true, false, not, List, [], ◌∷◌, ◌++◌, append_assoc,
  append-nil, if◌then◌else◌, Bool-cases, Result-cases, Result, ok, err, ◌>>=◌, Option, some, none,
  inl, inr, member, set_insert, ◌||◌,
}
use twinleaf_rust.Proto.Packet.{Packet}
use twinleaf_rust.Proxy.Client.{ProxyClient}
use twinleaf_rust.Proxy.Core.{
  ProxyCore, Outside, Halt, send_event, drop_client, drop_all, offered, put_into, client_send,
}
use twinleaf_rust.Proxy.Core.Handlers.{after_send, answer_client}
use twinleaf_rust.Proxy.Event.{
  Event, is_new_client, client_terminated, client_send_failed, rpc_restored,
}

module _ (o : Outside) where
  -- What a client gets of a packet.
  abbrev pub taken_of : ℕ → Option Packet → List (ℕ × Packet)
  taken_of id none = []
  taken_of id (some given) = if o.tx id given then (id, given) ∷ [] else []

  abbrev pub taken : ℕ → ProxyClient → Packet → List (ℕ × Packet)
  taken id client packet = taken_of id (offered client packet)

  abbrev pub taken_by_all : List (ℕ × ProxyClient) → Packet → List (ℕ × Packet)
  taken_by_all [] packet = []
  taken_by_all ((id, client) ∷ clients) packet =
      taken id client packet ++ taken_by_all clients packet

  -- A state that holds what was delivered before and what is added.
  abbrev pub Delivers : ProxyCore → List (ℕ × Packet) → Result ProxyCore Halt → Type 0
  Delivers p more (ok p') = p'.delivered ≡ p.delivered ++ more
  Delivers p more (err e) = Unit

  if_full :
      (p : ProxyCore) (entry : ℕ × Packet) (c : Bool)
      → let r : ProxyCore × Bool =
          if c then (record p { delivered = p.delivered ++ (entry ∷ []) }, false) else (p, true) in
        r.0.delivered ≡ p.delivered ++ (if c then entry ∷ [] else [])
  if_full p entry true = refl
  if_full p entry false = sym (append-nil p.delivered)

  pub put_into-delivered :
      (p : ProxyCore) (id : ℕ) (given : Option Packet)
      → (put_into o p id given).0.delivered ≡ p.delivered ++ taken_of id given
  unfolding put_into
  put_into-delivered p id none = sym (append-nil p.delivered)
  put_into-delivered p id (some given) = if_full p (id, given) (o.tx id given)

  -- An event leaves what was delivered.
  pub send_event-Delivers : (p : ProxyCore) (e : Event) → Delivers p [] (send_event o p e)
  unfolding send_event
  send_event-Delivers p e = elim (Bool-cases (is_new_client e || not p.only_new_client)) [
    | inl told ↦ rw told (elim (Bool-cases (o.status e)) [
      | inl takes ↦ rw takes (sym (append-nil p.delivered))
      | inr full ↦ rw full tt
    ])
    | inr quiet ↦ rw quiet (sym (append-nil p.delivered))
  ]

  drop_client-Delivers : (p : ProxyCore) (id : ℕ) → Delivers p [] (drop_client o p id)
  unfolding drop_client
  drop_client-Delivers p id = elim (Bool-cases (member id p.clients_to_drop)) [
    | inl known ↦ rw known (sym (append-nil p.delivered))
    | inr other ↦ rw other (
        send_event-Delivers (record p { clients_to_drop = set_insert id p.clients_to_drop })
          (client_terminated id))
  ]

  -- One step after another.
  pub Delivers-bind :
      (p : ProxyCore) (xs ys : List (ℕ × Packet)) (r : Result ProxyCore Halt)
      (k : ProxyCore → Result ProxyCore Halt)
      → Delivers p xs r
      → ((q : ProxyCore) → Delivers q ys (k q))
      → Delivers p (xs ++ ys) (r >>= k)
  Delivers-bind p xs ys (err e) k h next = tt
  Delivers-bind p xs ys (ok q) k h next = elim (Result-cases (k q)) [
    | inl (end, done) ↦
        let last = subst (Delivers q ys) done (next q) in
        rw done (last ∙ ap (λ t. t ++ ys) h ∙ append_assoc p.delivered xs ys)
    | inr (e, failed) ↦ rw failed tt
  ]

  pub drop_all-Delivers : (p : ProxyCore) (ids : List ℕ) → Delivers p [] (drop_all o p ids)
  unfolding drop_all
  drop_all-Delivers p [] = sym (append-nil p.delivered)
  drop_all-Delivers p (id ∷ ids) =
      Delivers-bind p [] [] (drop_client o p id) (λ q. drop_all o q ids) (drop_client-Delivers p id)
        (λ q. drop_all-Delivers q ids)

  pub after_send-Delivers :
      (p : ProxyCore) (failed : Bool) (id : ℕ) → Delivers p [] (after_send o (p, failed) id)
  unfolding after_send
  after_send-Delivers p false id = sym (append-nil p.delivered)
  after_send-Delivers p true id =
      Delivers-bind p [] [] (send_event o p (client_send_failed id)) (λ q. drop_client o q id)
        (send_event-Delivers p (client_send_failed id)) (λ q. drop_client-Delivers q id)

  pub client_send-Delivers :
      (p : ProxyCore) (id : ℕ) (client : ProxyClient) (packet : Packet)
      → Delivers p (taken id client packet) (after_send o (client_send o p id client packet) id)
  unfolding client_send
  client_send-Delivers p id client packet =
      let (q, failed) = put_into o p id (offered client packet) in
      let sent = put_into-delivered p id (offered client packet) in
      elim (Result-cases (after_send o (q, failed) id)) [
        | inl (end, done) ↦
            let last = subst (Delivers q []) done (after_send-Delivers q failed id) in
            rw done (last ∙ append-nil q.delivered ∙ sent)
        | inr (e, stop) ↦ rw stop tt
      ]

  -- An answer for a client that is there.
  pub answer_client-Delivers :
      (p : ProxyCore) (packet : Packet) (wire_id client_id rpc_id : ℕ) (client : ProxyClient)
      → Delivers p
          (taken client_id client packet)
          (answer_client o p packet wire_id (client_id, rpc_id) (some client))
  unfolding answer_client
  answer_client-Delivers p packet wire_id client_id rpc_id client =
      Delivers-bind p [] (taken client_id client packet)
        (send_event o p (rpc_restored wire_id (client_id, rpc_id)))
        (λ q. after_send o (client_send o q client_id client packet) client_id)
        (send_event-Delivers p (rpc_restored wire_id (client_id, rpc_id)))
        (λ q. client_send-Delivers q client_id client packet)
