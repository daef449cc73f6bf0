-- ===== src/Proxy/Rates/Progress.antt =====
-- The order of the steps of the negotiation. Their events are in Rates/Events, and the step of the main
-- loop that sends them in Core/Negotiation.
use twinleaf_rust.Shared.{
  ℕ, ◌-◌, ◌≡◌, refl, Bool, true, List, [], ◌∷◌, arith, length, ltb, ◌==◌, Bool-cases, inl, inr,
  Bytes, u32_to_le, Result, ok, err, Option, some, none,
}
use twinleaf_rust.Text.{Text}
use twinleaf_rust.Port.Serial.{RateInfo}
use twinleaf_rust.Proto.Packet.{Packet}
use twinleaf_rust.Proto.Route.{root}
use twinleaf_rust.Proto.Rpc.ErrorCode.{RpcErrorCode}
use twinleaf_rust.Proto.Rpc.Request.{by_name}
use twinleaf_rust.Proxy.Rpcs.{Rpcs, forward_to_device}
use twinleaf_rust.Proxy.Rpcs.Tracking.{IsConsistent}
use twinleaf_rust.Proxy.Rpcs.Answers.{forward_request-Handled}
use twinleaf_rust.Proxy.Rates.{
  RateChange, query_device_rate, waiting_device_rate, set_device_rate, waiting_new_rate,
  rate_changed, gave_up, ProxyDevice, autonegotiation, next_state, rpc_sent, internal_answer,
  send_internal_rpc, silence, near_rpc, rate_rpc, query_rate_rpc_id, set_rate_rpc_id,
}
use twinleaf_rust.Util.{make_rpc_request}

-- The steps of the negotiation, from the RPCs in flight. The rate is set only while there is none.
pub data Moves (s : Rpcs) : RateChange → RateChange → Type 0 where
  stays : (c : RateChange) → Moves s c c
  asks : Moves s query_device_rate waiting_device_rate
  ask_fails : Moves s query_device_rate gave_up
  sets : s.rpc_map ≡ [] → Moves s set_device_rate waiting_new_rate
  set_fails : s.rpc_map ≡ [] → Moves s set_device_rate gave_up
  falls_silent : Moves s rate_changed gave_up

-- An internal RPC is answered, and leaves the RPCs consistent.
abbrev pub Answered : Option (Rpcs × Result (Unit {0}) RpcErrorCode) → Type 0
Answered r =
    (s' : Rpcs) × (a : Result (Unit {0}) RpcErrorCode) × (r ≡ some (s', a)) × IsConsistent s'

send_internal_rpc-Answered :
    (device : Packet → Bool) (now : ℕ) (s : Rpcs) (name : Text) (arg : Bytes) (id : ℕ)
    → IsConsistent s
    → Answered (send_internal_rpc device now s (make_rpc_request name arg id root))
unfolding send_internal_rpc internal_answer forward_to_device
send_internal_rpc-Answered device now s name arg id c =
    let pkt = make_rpc_request name arg id root in
    let (f, done, consistent, how) =
      forward_request-Handled (some device) s c pkt
        (record { id = id; method = by_name name; arg = arg }) 0 (λ k. none) now
        (λ other. absurd (other refl)) in
    elim how [
      | inl (answer, offered, back) ↦
          (f.rpcs, ok tt, rw done (rw (answer, internal_answer) refl), consistent)
      | inr ((code, answer), same) ↦
          (f.rpcs, err code, rw done (rw (answer, internal_answer) refl), consistent)
    ]

-- A step of the negotiation: it gives a result, and leaves the RPCs consistent.
abbrev pub Steps : RateChange → Rpcs → Option (RateChange × Rpcs) → Type 0
Steps state s r =
    (next : RateChange) × (s' : Rpcs) × (r ≡ some (next, s')) × IsConsistent s' × Moves s state next

rpc_sent-Steps :
    (s : Rpcs) (from next : RateChange) (r : Option (Rpcs × Result (Unit {0}) RpcErrorCode))
    → Moves s from next
    → Moves s from gave_up
    → Answered r
    → Steps from s (rpc_sent next r)
rpc_sent-Steps s from next r good bad (s', ok done, e, c) = (next, s', rw e refl, c, good)
rpc_sent-Steps s from next r good bad (s', err code, e, c) = (gave_up, s', rw e refl, c, bad)

no_rpcs : {A : Type 0} (m : List A) → (length m == 0) ≡ true → m ≡ []
no_rpcs [] e = refl
no_rpcs (x ∷ m) e = absurd (ground arith)

module _ (device : Packet → Bool) (now : ℕ) (d : ProxyDevice) (s : Rpcs) (c : IsConsistent s)
    (rates : RateInfo) (settable : d.rate_info ≡ some rates) where
  next_state-Steps :
      (state : RateChange)
      → d.rate_change_state ≡ state
      → Steps state s (next_state device now true d s)
  unfolding next_state
  next_state-Steps query_device_rate e =
      rw (e, next_state)
        (rw (settable, next_state)
          (rpc_sent-Steps s query_device_rate waiting_device_rate _ asks ask_fails (
            send_internal_rpc-Answered device now s near_rpc (u32_to_le rates.target_bps)
              query_rate_rpc_id c)))
  next_state-Steps set_device_rate e = elim (Bool-cases (length s.rpc_map == 0)) [
    | inl idle ↦
        let none_left = no_rpcs s.rpc_map idle in
        rw (e, next_state)
          (rw idle (
            rw (settable, next_state)
              (rpc_sent-Steps s set_device_rate waiting_new_rate _ (sets none_left)
                (set_fails none_left)
                (send_internal_rpc-Answered device now s rate_rpc (u32_to_le rates.target_bps)
                  set_rate_rpc_id c))))
    | inr busy ↦ (set_device_rate, s, rw (e, next_state) (rw busy refl), c, stays set_device_rate)
  ]
  next_state-Steps rate_changed e = elim (Bool-cases (ltb silence (now - d.last_rx))) [
    | inl silent ↦ (
      gave_up,
      s,
      rw (e, next_state) (rw silent (rw (settable, next_state) refl)),
      c,
      falls_silent,
    )
    | inr heard ↦ (rate_changed, s, rw (e, next_state) (rw heard refl), c, stays rate_changed)
  ]
  next_state-Steps state e = (state, s, rw (e, next_state) refl, c, stays state)

  -- For a device whose rate can be set, on a port that can go back to its default rate, and from RPCs
  -- whose maps agree: a step of the negotiation gives a result, keeps the maps in agreement, changes
  -- nothing of the device but the state, and moves that as `Moves` allows: the new rate is set only
  -- while no RPC is in flight.
  pub autonegotiation-Moves :
      (next : RateChange) × (s' : Rpcs) × (autonegotiation device now true d s
        ≡ some (record d { rate_change_state = next }, s'))
      × IsConsistent s'
      × Moves s d.rate_change_state next
  unfolding autonegotiation
  autonegotiation-Moves =
      let (next, s', done, consistent, moves) = next_state-Steps d.rate_change_state refl in
      (next, s', rw done refl, consistent, moves)
