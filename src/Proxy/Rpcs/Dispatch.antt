-- ===== src/Proxy/Rpcs/Dispatch.antt =====
-- `dispatch_rpc_errors` of twinleaf/src/tio/proxy_core.rs on the RPCs in flight: which are cancelled,
-- in order. Each is answered with an error by `error_packet`. `none` is a panic.
pub mod Due
pub mod Exact
use twinleaf_rust.Shared.{
  ℕ, ◌≡◌, Bool, true, false, List, [], ◌∷◌, ◌++◌, leb, if◌then◌else◌, Option, some, none, lookup,
  remove,
}
use twinleaf_rust.Proto.Packet.{Packet}
use twinleaf_rust.Proto.Rpc.ErrorCode.{RpcErrorCode}
use twinleaf_rust.Proxy.Rpcs.{RpcMapEntry, Rpcs}
use twinleaf_rust.Util.{make_rpc_error}

abbrev pub RpcMap : Type 0
RpcMap = List (ℕ × RpcMapEntry)

-- `*timeout >= timeout_bound`, where there is a bound.
unfoldable pub is_later : Option ℕ → ℕ → Bool
is_later none t = false
is_later (some bound) t = leb bound t

-- One more RPC is cancelled before the others.
abbrev pub and_before {ℓ} :
    {A : Type ℓ} → List A → Option (List A × List A) → Option (List A × List A)
and_before xs none = none
and_before xs (some (ys, m)) = some (xs ++ ys, m)

-- The ids of one instant.
unfoldable pub cancel_ids : RpcMap → List ℕ → Option (RpcMap × RpcMap)
cancel_ids m [] = some ([], m)
cancel_ids m (id ∷ ids) = elim (lookup id m) [
  | none ↦ none
  | some remap ↦ and_before ((id, remap) ∷ []) (cancel_ids (remove id m) ids)
]

-- What the loop over the instants has done: the RPCs cancelled, the map, the instants to remove.
pub record Cancelled : Type 0 where
  pub cancelled : RpcMap
  pub left : RpcMap
  pub to_remove : List ℕ

abbrev pub after_instant : ℕ → RpcMap → Option Cancelled → Option Cancelled
after_instant t first none = none
after_instant t first (some c) =
    some (record { cancelled = first ++ c.cancelled; left = c.left; to_remove = t ∷ c.to_remove })

unfoldable pub cancel_due : Option ℕ → RpcMap → List (ℕ × List ℕ) → Option Cancelled
unfolding is_later cancel_ids
cancel_due until m [] = some (record { cancelled = []; left = m; to_remove = [] })
cancel_due until m ((t, ids) ∷ later) = elim (is_later until t) [
  | true ↦ some (record { cancelled = []; left = m; to_remove = [] })
  | false ↦ elim (cancel_ids m ids) [
    | none ↦ none
    | some (first, m') ↦ after_instant t first (cancel_due until m' later)
  ]
]

unfoldable pub remove_all {ℓ} : {V : Type ℓ} → List ℕ → List (ℕ × V) → List (ℕ × V)
remove_all [] m = m
remove_all (t ∷ ts) m = remove_all ts (remove t m)

-- The event of each cancelled RPC is sent by `answer_all` of Core, which goes through the result.
unfoldable pub dispatch_rpc_errors : Option ℕ → Rpcs → Option (RpcMap × Rpcs)
unfolding cancel_due remove_all
dispatch_rpc_errors until s = elim (cancel_due until s.rpc_map s.rpc_timeouts) [
  | none ↦ none
  | some c ↦ some (
    c.cancelled,
    record s { rpc_map = c.left; rpc_timeouts = remove_all c.to_remove s.rpc_timeouts },
  )
]

abbrev pub error_packet : RpcErrorCode → RpcMapEntry → Packet
error_packet error remap = make_rpc_error remap.id error remap.route
