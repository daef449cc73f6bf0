-- ===== src/Proxy/Rpcs/Answers.antt =====
-- From a client's request to the device's answer.
use twinleaf_rust.Shared.{
  ℕ, ◌+◌, ◌%◌, ◌≡◌, ◌≢◌, ◌⊎◌, refl, sym, ap, ◌∙◌, Bool, true, false, arith, ◌==◌, ==_iff,
  Bool-cases, Option-cases, inl, inr, ok, err, Option, some, none, lookup, remove, insert,
  lookup-remove, lookup-insert,
}
use twinleaf_rust.Proto.Packet.{Packet}
use twinleaf_rust.Proto.Route.{DeviceRoute, bytes_eq}
use twinleaf_rust.Proto.Route.Scope.{bytes_eq_iff}
use twinleaf_rust.Proto.Rpc.ErrorCode.{RpcErrorCode, undefined, out_of_memory}
use twinleaf_rust.Proto.Rpc.Request.{RpcRequestPayload}
use twinleaf_rust.Proxy.Client.{ProxyClient}
use twinleaf_rust.Proxy.Rpcs.{
  RpcMapEntry, Rpcs, restored, rpc_restore, with_request, Forwarded, offer, is_sent, timeout_of,
  internal_timeout, forward_mapped, forward_timed, forward_request,
}
use twinleaf_rust.Proxy.Rpcs.Tracking.{
  due, IsConsistent, tracked, untracked, tracked-IsConsistent, untracked-IsConsistent,
  lookup-untracked, rpc_restore_found,
}
use twinleaf_rust.Util.{make_rpc_error}

-- The RPCs that are known stay so.
abbrev pub SameRpcs : Rpcs → Rpcs → Type 0
SameRpcs s s' = (q : ℕ) → lookup q s'.rpc_map ≡ lookup q s.rpc_map

-- An answer from another device, or one that nobody waits for, changes nothing.
pub rpc_restore_refused :
    (s : Rpcs) (w : ℕ) (route : DeviceRoute)
    → IsConsistent s
    → ((e : RpcMapEntry) → lookup w s.rpc_map ≡ some e → e.route ≢ route)
    → (s' : Rpcs) × (rpc_restore s w route ≡ (s', none)) × IsConsistent s' × SameRpcs s s'
unfolding rpc_restore restored
rpc_restore_refused s w route c other = elim (Option-cases (lookup w s.rpc_map)) [
  | inl free ↦ (s, rw free refl, c, λ q. refl)
  | inr (e, found) ↦
      let differs : bytes_eq e.route.route route.route ≡ false =
        elim (Bool-cases (bytes_eq e.route.route route.route)) [
          | inl same ↦ absurd (
              other e found
                (ap (λ x. record { route = x }) ((bytes_eq_iff e.route.route route.route).0 same)))
          | inr d ↦ d
        ] in
      let again : (q : ℕ) → lookup q (insert w e (remove w s.rpc_map)) ≡ lookup q s.rpc_map = λ q.
        lookup-insert q w e (remove w s.rpc_map)
        ∙ rw (lookup-remove q w s.rpc_map) (elim (Bool-cases (q == w)) [
          | inl same ↦ rw ((==_iff q w).0 same) (rw found (ground arith))
          | inr o ↦ rw o refl
        ]) in
      (
        record s { rpc_map = insert w e (remove w s.rpc_map) },
        rw (found, differs) refl,
        record { sorted = c.sorted; agree = λ t q. c.agree t q ∙ ap (due t) (sym (again q)) },
        again,
      )
]

-- The request waits: the device was given it under the id `w`, and its answer from the same route
-- will be the client's, under the client's own id, and leave the RPCs that were there.
abbrev pub Waits : Rpcs → Packet → RpcRequestPayload → ℕ → Forwarded → Type 0
Waits s pkt req client_id f =
    (f.answer ≡ ok tt)
    × (f.offered ≡ some (with_request pkt req s.next_rpc_id))
    × ((s' : Rpcs) × (rpc_restore f.rpcs s.next_rpc_id pkt.routing ≡ (s', some (client_id, req.id)))
        × IsConsistent s'
        × SameRpcs s s')

-- The request is refused: the client gets an error under its own id and route, and the RPCs that
-- were there are.
abbrev pub Refuses : Rpcs → Packet → RpcRequestPayload → Forwarded → Type 0
Refuses s pkt req f =
    ((code : RpcErrorCode) × (f.answer ≡ err (make_rpc_error req.id code pkt.routing)))
    × SameRpcs s f.rpcs

abbrev pub Handled : Rpcs → Packet → RpcRequestPayload → ℕ → Option Forwarded → Type 0
Handled s pkt req client_id r =
    (f : Forwarded) × (r ≡ some f)
    × IsConsistent f.rpcs
    × (Waits s pkt req client_id f ⊎ Refuses s pkt req f)

offer_sent :
    (device : Option (Packet → Bool)) (pkt : Packet)
    → is_sent device pkt ≡ true
    → offer device pkt ≡ some pkt
offer_sent none pkt e = cc
offer_sent (some send) pkt e = refl

module _ (device : Option (Packet → Bool)) (s : Rpcs) (c : IsConsistent s) (pkt : Packet)
    (req : RpcRequestPayload) (client_id : ℕ) where
  abbrev stepped : Rpcs
  stepped = record s { next_rpc_id = (s.next_rpc_id + 1) % 65536 }

  stepped-IsConsistent : IsConsistent stepped
  stepped-IsConsistent = record { sorted = c.sorted; agree = c.agree }

  abbrev entry_at : ℕ → RpcMapEntry
  entry_at timeout = record {
    id = req.id;
    client = client_id;
    route = pkt.routing;
    timeout = timeout;
  }

  forward_mapped-Handled :
      (timeout : ℕ)
      → lookup s.next_rpc_id s.rpc_map ≡ none
      → Handled s pkt req client_id
          (forward_mapped device stepped pkt req s.next_rpc_id (entry_at timeout))
  unfolding forward_mapped
  forward_mapped-Handled timeout free =
      let w = s.next_rpc_id in
      let e = entry_at timeout in
      let there : lookup w (insert w e s.rpc_map) ≡ some e =
        lookup-insert w w e s.rpc_map ∙ ground arith in
      elim (Bool-cases (is_sent device (with_request pkt req w))) [
        | inl sent ↦
            let consistent = tracked-IsConsistent stepped stepped-IsConsistent w e free in
            let (s', found, consistent', left) =
              rpc_restore_found (tracked stepped w e) w e consistent there in
            (
              record {
                rpcs = tracked stepped w e;
                offered = offer device (with_request pkt req w);
                answer = ok tt;
              },
              rw sent refl,
              consistent,
              inl (
                refl,
                offer_sent device (with_request pkt req w) sent,
                (
                  s',
                  found,
                  consistent',
                  λ q.
                      left q
                      ∙ sym (lookup-remove q w (insert w e s.rpc_map))
                      ∙ lookup-untracked stepped stepped-IsConsistent w e free q,
                ),
              ),
            )
        | inr lost ↦ (
          record {
            rpcs = untracked stepped w e;
            offered = offer device (with_request pkt req w);
            answer = err (make_rpc_error req.id undefined pkt.routing);
          },
          rw (lost, there) refl,
          untracked-IsConsistent stepped stepped-IsConsistent w e free,
          inr ((undefined, refl), lookup-untracked stepped stepped-IsConsistent w e free),
        )
      ]

  -- A request from the proxy itself or from a client that is there, where the two maps of the RPCs in
  -- flight agree, is handled: the entries that the code expects in the maps are there. Either the
  -- device has it, and the answer under the id on the wire from that route will go back to the
  -- client under its own id, leaving the other RPCs alone; or the client gets an error under its own
  -- id. The two maps agree afterwards in every case.
  pub forward_request-Handled :
      (clients : ℕ → Option ProxyClient) (now : ℕ)
      → (client_id ≢ 0 → clients client_id ≢ none)
      → Handled s pkt req client_id (forward_request clients device now s pkt req client_id)
  unfolding forward_request forward_timed timeout_of
  forward_request-Handled clients now known = elim (Option-cases (lookup s.next_rpc_id s.rpc_map)) [
    | inr (e, taken) ↦ (
      record {
        rpcs = stepped;
        offered = none;
        answer = err (make_rpc_error req.id out_of_memory pkt.routing);
      },
      rw taken refl,
      stepped-IsConsistent,
      inr ((out_of_memory, refl), λ q. refl),
    )
    | inl free ↦ elim (Bool-cases (client_id == 0)) [
      | inl internal ↦ rw (free, internal) (forward_mapped-Handled (now + internal_timeout) free)
      | inr client ↦ elim (Option-cases (clients client_id)) [
        | inl gone ↦ absurd (known (λ internal. ground arith) gone)
        | inr (k, there) ↦
            rw (free, client, there) (forward_mapped-Handled (now + k.rpc_timeout) free)
      ]
    ]
  ]
