-- ===== src/Data/Requests/Packing.antt =====
-- That the packing of requests into RPCs ends, and that the RPCs carry all of them, in their order.
use twinleaf_rust.Shared.{
  Bool, sym, ℕ, zero, suc, ◌≤◌, ◌≡◌, refl, ap, ◌∙◌, true, false, List, [], ◌∷◌, ◌++◌, arith, ltb,
  length, length-take, length-drop, take, drop, take-append-drop, take_all, le→ltb, ltb→le, ltb→lt,
  append-nil, drop_all, subst, Bool-cases, Bytes, ok, inl, inr,
}
use twinleaf_rust.Data.Requests.{
  StreamRpcMetaReq, request_bytes, make_metareq, dev_metadata, metadata_rpc_id, lone_device,
  is_device, next_batch, rpcs_loop, metareqs_to_rpcs,
}
use twinleaf_rust.Proto.Meta.Payload.{MetadataType, device_type}
use twinleaf_rust.Proto.Packet.{Packet}
use twinleaf_rust.Proto.Route.{root}
use twinleaf_rust.Util.{make_rpc_request}

abbrev pub metadata_rpc : Bytes → Packet
metadata_rpc arg = make_rpc_request dev_metadata arg metadata_rpc_id root

-- A request for the device and for nothing else.
abbrev pub AsksDevice : List StreamRpcMetaReq → Type 0
AsksDevice reqs = (req : StreamRpcMetaReq) × (reqs ≡ req ∷ []) × (req.mtype ≡ device_type)

-- The RPCs that ask for a list of metadata: at most 16 requests each, in order, with as many as
-- possible in each; the device alone is asked for without arguments.
pub data Carries : List StreamRpcMetaReq → List Packet → Type 0 where
  nothing : Carries [] []
  bootstrap :
      (req : StreamRpcMetaReq) → req.mtype ≡ device_type → Carries (req ∷ []) (metadata_rpc [] ∷ [])
  batch :
      (front back : List StreamRpcMetaReq) (rpcs : List Packet)
      → 1 ≤ length front
      → length front ≤ 16
      → (1 ≤ length back → length front ≡ 16)
      → (AsksDevice (front ++ back) → ⊥)
      → Carries back rpcs
      → Carries (front ++ back) (metadata_rpc (request_bytes front) ∷ rpcs)

true_not_false : ◌≡◌ true false → ⊥
true_not_false e = ground arith

is_device_type :
    (ty : MetadataType)
    → ◌≡◌ {A = Bool} (elim ty [ device_type ↦ true | _ ↦ false ]) true
    → ty ≡ device_type
is_device_type ty e = ground arith

AsksDevice-lone_device :
    (reqs : List StreamRpcMetaReq) → lone_device reqs ≡ false → AsksDevice reqs → ⊥
unfolding lone_device is_device
AsksDevice-lone_device reqs e (req, whole, asks) =
    let alone : lone_device (req ∷ []) ≡ true = rw asks refl in
    true_not_false (sym alone ∙ ap lone_device (sym whole) ∙ e)

make_metareq_few :
    (reqs : List StreamRpcMetaReq) → length reqs ≤ 16 → make_metareq reqs ≡ ok (request_bytes reqs)
unfolding make_metareq
make_metareq_few reqs h = rw (le→ltb 16 (length reqs) h) refl

rpcs_loop_step :
    (fuel : ℕ) (req : StreamRpcMetaReq) (reqs left : List StreamRpcMetaReq) (n : ℕ)
    (rpcs : List Packet)
    → next_batch (req ∷ reqs) ≡ (left, n)
    → length (take n left) ≤ 16
    → rpcs_loop fuel (drop n left) ≡ ok rpcs
    → rpcs_loop (suc fuel) (req ∷ reqs) ≡ ok (metadata_rpc (request_bytes (take n left)) ∷ rpcs)
unfolding rpcs_loop
rpcs_loop_step fuel req reqs left n rpcs e h r =
    rw e (rw (make_metareq_few (take n left) h) (rw r refl))

next_batch_full :
    (reqs : List StreamRpcMetaReq) → ltb 16 (length reqs) ≡ true → next_batch reqs ≡ (reqs, 16)
unfolding next_batch
next_batch_full reqs e = rw e refl

next_batch_lone :
    (reqs : List StreamRpcMetaReq)
    → ltb 16 (length reqs) ≡ false
    → lone_device reqs ≡ true
    → next_batch reqs ≡ (drop 1 reqs, 0)
unfolding next_batch
next_batch_lone reqs e l = rw (e, l) refl

next_batch_last :
    (reqs : List StreamRpcMetaReq)
    → ltb 16 (length reqs) ≡ false
    → lone_device reqs ≡ false
    → next_batch reqs ≡ (reqs, length reqs)
unfolding next_batch
next_batch_last reqs e l = rw (e, l) refl

lone_device_big : (reqs : List StreamRpcMetaReq) → 2 ≤ length reqs → lone_device reqs ≡ false
unfolding lone_device
lone_device_big [] h = refl
lone_device_big (req ∷ []) h = absurd (omega arith)
lone_device_big (req ∷ next ∷ reqs) h = refl

-- The last packet, which carries all that is left.
last_batch :
    (reqs : List StreamRpcMetaReq)
    → 1 ≤ length reqs
    → length reqs ≤ 16
    → lone_device reqs ≡ false
    → Carries reqs (metadata_rpc (request_bytes reqs) ∷ [])
last_batch reqs h k l =
    subst (λ t. Carries t (metadata_rpc (request_bytes reqs) ∷ [])) (append-nil reqs)
      (batch reqs [] [] h k (λ more. absurd (omega arith))
        (rw (append-nil reqs) (AsksDevice-lone_device reqs l)) nothing)

full_batch :
    (reqs : List StreamRpcMetaReq) (rpcs : List Packet)
    → 17 ≤ length reqs
    → Carries (drop 16 reqs) rpcs
    → Carries reqs (metadata_rpc (request_bytes (take 16 reqs)) ∷ rpcs)
full_batch reqs rpcs h c =
    let cut = take-append-drop 16 reqs in
    let size : length (take 16 reqs) ≡ 16 = omega (arith, length-take 16 reqs) in
    subst (λ t. Carries t (metadata_rpc (request_bytes (take 16 reqs)) ∷ rpcs)) cut
      (batch (take 16 reqs) (drop 16 reqs) rpcs (omega arith) (omega arith) (λ more. size)
        (rw cut (AsksDevice-lone_device reqs (lone_device_big reqs (omega arith)))) c)

abbrev Packs : ℕ → List StreamRpcMetaReq → Type 0
Packs fuel reqs = (rpcs : List Packet) × (rpcs_loop fuel reqs ≡ ok rpcs) × Carries reqs rpcs

loop_nil : (fuel : ℕ) → rpcs_loop fuel [] ≡ ok []
unfolding rpcs_loop
loop_nil fuel = refl

lone_nil :
    (req : StreamRpcMetaReq) (reqs : List StreamRpcMetaReq)
    → lone_device (req ∷ reqs) ≡ true
    → reqs ≡ []
unfolding lone_device
lone_nil req [] l = refl
lone_nil req (next ∷ reqs) l = cc

single_device : (req : StreamRpcMetaReq) → lone_device (req ∷ []) ≡ true → req.mtype ≡ device_type
unfolding lone_device is_device
single_device req e = is_device_type req.mtype e

pack_lone :
    (fuel : ℕ) (req : StreamRpcMetaReq)
    → lone_device (req ∷ []) ≡ true
    → Packs (suc fuel) (req ∷ [])
unfolding request_bytes
pack_lone fuel req l = (
  _,
  rpcs_loop_step fuel req [] [] 0 [] (next_batch_lone (req ∷ []) refl l) (omega arith)
      (loop_nil fuel),
  bootstrap req (single_device req l),
)

pack_last :
    (fuel : ℕ) (req : StreamRpcMetaReq) (reqs : List StreamRpcMetaReq)
    → ltb 16 (length (req ∷ reqs)) ≡ false
    → lone_device (req ∷ reqs) ≡ false
    → Packs (suc fuel) (req ∷ reqs)
pack_last fuel req reqs e l =
    let n : ℕ = length (req ∷ reqs) in
    let small = ltb→le 16 n e in
    let all = take_all n (req ∷ reqs) (omega arith) in
    let over = drop_all n (req ∷ reqs) (omega arith) in
    let step =
      rpcs_loop_step fuel req reqs (req ∷ reqs) n [] (next_batch_last (req ∷ reqs) e l)
        (omega (arith, ap length all)) (rw over (loop_nil fuel)) in
    (
      metadata_rpc (request_bytes (req ∷ reqs)) ∷ [],
      step ∙ ap (λ t. ok (metadata_rpc (request_bytes t) ∷ [])) all,
      last_batch (req ∷ reqs) (omega arith) small l,
    )

pack_small :
    (fuel : ℕ) (req : StreamRpcMetaReq) (reqs : List StreamRpcMetaReq)
    → ltb 16 (length (req ∷ reqs)) ≡ false
    → Packs (suc fuel) (req ∷ reqs)
pack_small fuel req reqs e = elim (Bool-cases (lone_device (req ∷ reqs))) [
  | inr l ↦ pack_last fuel req reqs e l
  | inl l ↦ let alone = lone_nil req reqs l in rw alone (pack_lone fuel req (rw (← alone) l))
]

rpcs_loop-Carries : (fuel : ℕ) (reqs : List StreamRpcMetaReq) → length reqs ≤ fuel → Packs fuel reqs
rpcs_loop-Carries fuel [] h = ([], loop_nil fuel, nothing)
rpcs_loop-Carries zero (req ∷ reqs) h = absurd (omega arith)
rpcs_loop-Carries (suc fuel) (req ∷ reqs) h = elim (Bool-cases (ltb 16 (length (req ∷ reqs)))) [
  | inr e ↦ pack_small fuel req reqs e
  | inl e ↦
      let big = ltb→lt 16 (length (req ∷ reqs)) e in
      let less = length-drop 16 (req ∷ reqs) in
      let (rpcs, run, c) = rpcs_loop-Carries fuel (drop 16 (req ∷ reqs)) (omega arith) in
      (
        metadata_rpc (request_bytes (take 16 (req ∷ reqs))) ∷ rpcs,
        rpcs_loop_step fuel req reqs (req ∷ reqs) 16 rpcs (next_batch_full (req ∷ reqs) e)
            (omega (arith, length-take 16 (req ∷ reqs))) run,
        full_batch (req ∷ reqs) rpcs (omega arith) c,
      )
]

-- Packing metadata requests into RPCs ends for any number of requests and does not panic. The RPCs
-- carry every request, in order and three bytes each, at most 16 in an RPC and 16 in each but the
-- last; a request for the device and nothing else goes out as an RPC without arguments, and no other does.
pub metareqs_to_rpcs-Carries :
    (reqs : List StreamRpcMetaReq)
    → (rpcs : List Packet) × (metareqs_to_rpcs reqs ≡ ok rpcs) × Carries reqs rpcs
unfolding metareqs_to_rpcs
metareqs_to_rpcs-Carries reqs = rpcs_loop-Carries (length reqs) reqs (omega arith)
