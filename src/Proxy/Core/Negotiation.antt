-- ===== src/Proxy/Core/Negotiation.antt =====
-- The steps of the negotiation as the main loop of twinleaf/src/tio/proxy_core.rs takes them, with the
-- events that they send.
use twinleaf_rust.Shared.{
  ◌≡◌, refl, sym, ◌∙◌, ap, append-nil, Bool, true, not, ◌||◌, List, [], ◌∷◌, ◌++◌, if◌then◌else◌,
  Bool-cases, inl, inr, Result, ok, err, Option, some, none,
}
use twinleaf_rust.Port.Serial.{RateInfo}
use twinleaf_rust.Proto.Rpc.Reply.{RpcReplyPayload}
use twinleaf_rust.Proxy.Core.{ProxyCore, Outside, Halt, panicked, send_event, send_events}
use twinleaf_rust.Proxy.Core.Handlers.{internal_reply}
use twinleaf_rust.Proxy.Event.{Event, is_new_client}
use twinleaf_rust.Proxy.Rates.{RateChange, ProxyDevice}
use twinleaf_rust.Proxy.Rates.Events.{reply_events}
use twinleaf_rust.Proxy.Rates.Replies.{Answers, IsOurs, internal_rpc_reply-Answers}
use twinleaf_rust.Proxy.Rpcs.{Rpcs}

-- The events that the status queue is given: those of new clients only, or all.
unfoldable pub told : Bool → List Event → List Event
told only [] = []
told only (e ∷ events) =
    let later = told only events in if is_new_client e || not only then e ∷ later else later

abbrev pub TakesEvents : Outside → Type 0
TakesEvents o = (e : Event) → o.status e ≡ true

abbrev with_events : ProxyCore → List Event → ProxyCore
with_events p events = record p { events = p.events ++ events }

append_one :
    {A : Type 0} (xs : List A) (y : A) (ys : List A) → (xs ++ (y ∷ [])) ++ ys ≡ xs ++ (y ∷ ys)
append_one [] y ys = refl
append_one (x ∷ xs) y ys = ap (λ t. x ∷ t) (append_one xs y ys)

abbrev negotiated : ProxyCore → Option (ProxyDevice × Rpcs) → Result ProxyCore Halt
negotiated p r = elim r [
  | none ↦ err panicked
  | some (d', rpcs) ↦ ok (record p { device = some d'; rpcs = rpcs })
]

module _ (o : Outside) (takes : TakesEvents o) where
  pub send_event-told :
      (p : ProxyCore) (e : Event)
      → send_event o p e ≡ ok (record p { events = p.events ++ told p.only_new_client (e ∷ []) })
  unfolding send_event told
  send_event-told p e = elim (Bool-cases (is_new_client e || not p.only_new_client)) [
    | inl sent ↦ rw (sent, takes e) refl
    | inr kept ↦ rw kept (ap (λ t. ok (record p { events = t })) (sym (append-nil p.events)))
  ]

  send_events-told :
      (p : ProxyCore) (events : List Event)
      → send_events o p events ≡ ok (with_events p (told p.only_new_client events))
  unfolding send_events send_event told
  send_events-told p [] = ap (λ t. ok (record p { events = t })) (sym (append-nil p.events))
  send_events-told p (e ∷ events) = elim (Bool-cases (is_new_client e || not p.only_new_client)) [
    | inl sent ↦
        let later = told p.only_new_client events in
        rw (sent, takes e)
          (send_events-told (with_events p (e ∷ [])) events
            ∙ ap (λ t. ok (record p { events = t })) (append_one p.events e later))
    | inr kept ↦ rw kept (send_events-told p events)
  ]

  -- A reply to one of the negotiation's RPCs, for a device whose rate can be set and with a status queue
  -- that takes every event, gives a result and no panic: its events are sent, unless only new clients
  -- are told of, nothing of the device changes but the state, and that as `Answers` says, from the
  -- reply's value, the test of rates and the port's answer to the target rate.
  pub internal_reply-Answers :
      (p : ProxyCore) (d : ProxyDevice) (rep : RpcReplyPayload) (rates : RateInfo)
      → d.rate_info ≡ some rates
      → IsOurs rep
      → (next : RateChange) × (internal_reply o p (some d) rep
          ≡ ok (record p {
            device = some (record d { rate_change_state = next });
            events =
                p.events ++ told p.only_new_client (reply_events o.too_far o.target_accepted d rep);
          }))
        × Answers o.too_far o.target_accepted rates.target_bps rep d.rate_change_state next
  unfolding internal_reply
  internal_reply-Answers p d rep rates settable ours =
      let (next, done, answers) =
        internal_rpc_reply-Answers o.too_far o.target_accepted d rep rates settable ours in
      (
        next,
        rw (send_events-told p (reply_events o.too_far o.target_accepted d rep), done) refl,
        answers,
      )
