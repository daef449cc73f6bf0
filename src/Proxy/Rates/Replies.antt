-- ===== src/Proxy/Rates/Replies.antt =====
-- What a reply to one of the proxy's own RPCs does to the negotiation.
use twinleaf_rust.Shared.{
  ℕ, ◌≡◌, ◌≢◌, ◌⊎◌, arith, refl, Bool, true, false, ◌==◌, Bool-cases, inl, inr, Result, ok, err,
  Option, some,
}
use twinleaf_rust.Port.Serial.{RateInfo}
use twinleaf_rust.Proto.Rpc.Reply.{RpcReplyPayload}
use twinleaf_rust.Proxy.Rates.{
  RateChange, waiting_device_rate, set_device_rate, waiting_new_rate, rate_changed, gave_up,
  ProxyDevice, query_rate_rpc_id, set_rate_rpc_id, queried_state, replied_state, internal_rpc_reply,
}
use twinleaf_rust.Util.Values.{from_reply, word_reply}

-- What a reply to one of the two RPCs does. Of a reply to the query that is waited for: the value that
-- it holds is a rate that the target is close to, or the attempt is given up, for a value that is no
-- such rate or a reply that is no value. Of one to the setting that is waited for: the port has taken
-- the target rate or not. Any other reply does nothing.
pub data Answers (too_far : ℕ → ℕ → Bool) (accepted : Bool) (target : ℕ) (rep : RpcReplyPayload)
    : RateChange → RateChange → Type 0 where
  ignored :
      (c : RateChange)
      → (rep.id ≡ query_rate_rpc_id → c ≢ waiting_device_rate)
      → (rep.id ≡ set_rate_rpc_id → c ≢ waiting_new_rate)
      → Answers too_far accepted target rep c c
  compatible :
      (value : ℕ)
      → rep.id ≡ query_rate_rpc_id
      → from_reply (word_reply 4) rep.reply ≡ ok value
      → value ≢ 0
      → too_far target value ≡ false
      → Answers too_far accepted target rep waiting_device_rate set_device_rate
  incompatible :
      (value : ℕ)
      → rep.id ≡ query_rate_rpc_id
      → from_reply (word_reply 4) rep.reply ≡ ok value
      → (value ≡ 0) ⊎ (too_far target value ≡ true)
      → Answers too_far accepted target rep waiting_device_rate gave_up
  invalid :
      rep.id ≡ query_rate_rpc_id
      → from_reply (word_reply 4) rep.reply ≡ err tt
      → Answers too_far accepted target rep waiting_device_rate gave_up
  changed :
      rep.id ≡ set_rate_rpc_id
      → accepted ≡ true
      → Answers too_far accepted target rep waiting_new_rate rate_changed
  refused :
      rep.id ≡ set_rate_rpc_id
      → accepted ≡ false
      → Answers too_far accepted target rep waiting_new_rate gave_up

queried_state-Answers :
    (too_far : ℕ → ℕ → Bool) (accepted : Bool) (target : ℕ) (rep : RpcReplyPayload)
    (r : Result ℕ (Unit {0}))
    → rep.id ≡ query_rate_rpc_id
    → from_reply (word_reply 4) rep.reply ≡ r
    → Answers too_far accepted target rep waiting_device_rate (queried_state too_far target r)
unfolding queried_state
queried_state-Answers too_far accepted target rep (err tt) i e = invalid i e
queried_state-Answers too_far accepted target rep (ok value) i e = elim (Bool-cases (value == 0)) [
  | inl zero_rate ↦ rw zero_rate (incompatible value i e (inl (ground arith)))
  | inr rate ↦ elim (Bool-cases (too_far target value)) [
    | inl far ↦ rw (rate, far) (incompatible value i e (inr far))
    | inr near ↦ rw (rate, near) (compatible value i e (ground arith) near)
  ]
]

-- The reply is to one of the two RPCs of the negotiation.
abbrev pub IsOurs : RpcReplyPayload → Type 0
IsOurs rep = (rep.id ≡ query_rate_rpc_id) ⊎ (rep.id ≡ set_rate_rpc_id)

module _ (too_far : ℕ → ℕ → Bool) (accepted : Bool) (d : ProxyDevice) (rep : RpcReplyPayload) where
  abbrev Replied : ℕ → RateChange → Option RateChange → Type 0
  Replied target from r =
      (next : RateChange) × (r ≡ some next) × Answers too_far accepted target rep from next

  query_Replied :
      (rates : RateInfo) (state : RateChange)
      → rep.id ≡ query_rate_rpc_id
      → d.rate_info ≡ some rates
      → d.rate_change_state ≡ state
      → Replied rates.target_bps state (replied_state too_far accepted d rep)
  unfolding replied_state
  query_Replied rates waiting_device_rate i e s = (
    queried_state too_far rates.target_bps (from_reply (word_reply 4) rep.reply),
    rw i (rw (e, replied_state) (rw (s, replied_state) refl)),
    queried_state-Answers too_far accepted rates.target_bps rep
        (from_reply (word_reply 4) rep.reply) i refl,
  )
  query_Replied rates state i e s = (
    state,
    rw i (rw (e, replied_state) (rw (s, replied_state) refl)),
    ignored state (λ j b. cc) (λ j. absurd (omega (arith, i, j))),
  )

  set_Replied :
      (rates : RateInfo) (state : RateChange)
      → rep.id ≡ set_rate_rpc_id
      → d.rate_info ≡ some rates
      → d.rate_change_state ≡ state
      → Replied rates.target_bps state (replied_state too_far accepted d rep)
  unfolding replied_state
  set_Replied rates waiting_new_rate i e s = elim (Bool-cases accepted) [
    | inl took ↦ (
      rate_changed,
      rw i (rw (e, replied_state) (rw (s, replied_state) (rw took refl))),
      changed i took,
    )
    | inr denied ↦ (
      gave_up,
      rw i (rw (e, replied_state) (rw (s, replied_state) (rw denied refl))),
      refused i denied,
    )
  ]
  set_Replied rates state i e s = (
    state,
    rw i (rw (e, replied_state) (rw (s, replied_state) refl)),
    ignored state (λ j. absurd (omega (arith, i, j))) (λ j b. cc),
  )

  -- A reply to one of the negotiation's RPCs, for a device whose rate can be set, is answered as
  -- `Answers` says and changes nothing of the device but the state.
  pub internal_rpc_reply-Answers :
      (rates : RateInfo)
      → d.rate_info ≡ some rates
      → IsOurs rep
      → (next : RateChange) × (internal_rpc_reply too_far accepted d rep
          ≡ some (record d { rate_change_state = next }))
        × Answers too_far accepted rates.target_bps rep d.rate_change_state next
  unfolding internal_rpc_reply
  internal_rpc_reply-Answers rates e (inl i) =
      let (next, done, answers) = query_Replied rates d.rate_change_state i e refl in
      (next, rw (done, internal_rpc_reply) refl, answers)
  internal_rpc_reply-Answers rates e (inr i) =
      let (next, done, answers) = set_Replied rates d.rate_change_state i e refl in
      (next, rw (done, internal_rpc_reply) refl, answers)
