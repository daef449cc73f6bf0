-- ===== src/Proxy/Core/Clients/Numbered.antt =====
-- The numbers of the clients of the proxy.
use twinleaf_rust.Shared.{
  ℕ, suc, ◌≡◌, refl, Bool, true, false, List, [], ◌∷◌, ◌==◌, Bool-cases, ok, Option, some, none,
  inl, inr, lookup, remove, insert,
}
use twinleaf_rust.Proxy.Client.{ProxyClient}
use twinleaf_rust.Proxy.Core.{ProxyCore, Outside, send_event}
use twinleaf_rust.Shared.{◌<◌, sym, ◌∙◌, arith, lookup-insert, lookup-remove}
use twinleaf_rust.Proxy.Core.{drop_clients, new}
use twinleaf_rust.Proxy.Core.Handlers.{on_new_clients}
use twinleaf_rust.Proxy.Core.Rounds.{
  Ready, timed_out, client_ready, new_clients_ready, device_ready, on_client, on_ready,
}
use twinleaf_rust.Proxy.Event.{exiting, new_client}
use twinleaf_rust.Proxy.Core.Clients.{Only, Holds, Holds-bind, if-Holds, Has, send_event-Has}
use twinleaf_rust.Proxy.Core.Clients.Device.{on_device-Has}
use twinleaf_rust.Proxy.Core.Clients.Rounds.{on_client-Has, ended-Has}

none_not_some : {A : Type 0} {a : A} → ◌≡◌ {A = Option A} none (some a) → ⊥
none_not_some e = ground arith

module _ (o : Outside) where
  -- Clients have numbers from 1 and below the next one.
  abbrev pub IsNumbered : List (ℕ × ProxyClient) → ℕ → Type 0
  IsNumbered clients next =
      (0 < next)
      × ((id : ℕ) (client : ProxyClient) → lookup id clients ≡ some client → (0 < id) × (id < next))

  abbrev pub HasNumbers : ProxyCore → Type 0
  HasNumbers = Has o (Only IsNumbered)

  insert-IsNumbered :
      (clients : List (ℕ × ProxyClient)) (next : ℕ) (client : ProxyClient)
      → IsNumbered clients next
      → IsNumbered (insert next client clients) (suc next)
  insert-IsNumbered clients next client h = (
    omega (arith, h.0),
    λ id c found. elim (Bool-cases (id == next)) [
      | inl same ↦ ground (arith, h.0)
      | inr other ↦
          let old : lookup id clients ≡ some c =
            (rw other refl ∙ sym (lookup-insert id next client clients)) ∙ found in
          let (low, high) = h.1 id c old in (low, omega arith)
    ],
  )

  remove-IsNumbered :
      (clients : List (ℕ × ProxyClient)) (next id : ℕ)
      → IsNumbered clients next
      → IsNumbered (remove id clients) next
  remove-IsNumbered clients next id h = (
    h.0,
    λ k c found. elim (Bool-cases (k == id)) [
      | inl same ↦ absurd (none_not_some (rw same refl ∙ sym (lookup-remove k id clients) ∙ found))
      | inr other ↦ h.1 k c (rw other refl ∙ sym (lookup-remove k id clients) ∙ found)
    ],
  )

  pub drop_clients-IsNumbered :
      (ids : List ℕ) (clients : List (ℕ × ProxyClient)) (next : ℕ)
      → IsNumbered clients next
      → IsNumbered (drop_clients ids clients) next
  unfolding drop_clients
  drop_clients-IsNumbered [] clients next h = h
  drop_clients-IsNumbered (id ∷ ids) clients next h =
      drop_clients-IsNumbered ids (remove id clients) next (remove-IsNumbered clients next id h)

  pub new-HasNumbers : (only_new_client : Bool) → HasNumbers (new only_new_client)
  unfolding new lookup
  new-HasNumbers only_new_client = (omega arith, λ id client found. absurd (none_not_some found))

  on_new_clients-HasNumbers :
      (p : ProxyCore) (clients : List ProxyClient) (gone : Bool)
      → HasNumbers p
      → Holds HasNumbers (on_new_clients o p clients gone)
  unfolding on_new_clients
  on_new_clients-HasNumbers p [] false h = h
  on_new_clients-HasNumbers p [] true h = ended-Has o IsNumbered (send_event o p exiting)
  on_new_clients-HasNumbers p (client ∷ clients) gone h =
      let event = new_client p.next_client_id in
      let J : List (ℕ × ProxyClient) → ℕ → Type 0 =
        λ cs next. IsNumbered (insert p.next_client_id client cs) (suc p.next_client_id) in
      Holds-bind (Has o (Only J)) HasNumbers (send_event o p event)
        (λ q.
          on_new_clients o
            (record q {
              clients = insert p.next_client_id client q.clients;
              next_client_id = suc p.next_client_id;
            })
            clients gone)
        (send_event-Has o (Only J) p event (insert-IsNumbered p.clients p.next_client_id client h))
        (λ q k.
          on_new_clients-HasNumbers
            (record q {
              clients = insert p.next_client_id client q.clients;
              next_client_id = suc p.next_client_id;
            })
            clients gone k)

  pub on_ready-HasNumbers :
      (p : ProxyCore) (now : ℕ) (safe : Bool) (ready : Ready)
      → HasNumbers p
      → Holds HasNumbers (on_ready o p now safe ready)
  unfolding on_ready
  on_ready-HasNumbers p now safe timed_out h = h
  on_ready-HasNumbers p now safe (client_ready id packets gone) h =
      if-Holds HasNumbers safe (on_client o p now id packets gone) (ok p)
        (on_client-Has o IsNumbered p now id packets gone h) h
  on_ready-HasNumbers p now safe (new_clients_ready clients gone) h =
      on_new_clients-HasNumbers p clients gone h
  on_ready-HasNumbers p now safe (device_ready arrivals gone) h =
      on_device-Has o IsNumbered p now arrivals gone h
