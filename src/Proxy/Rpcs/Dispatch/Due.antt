-- ===== src/Proxy/Rpcs/Dispatch/Due.antt =====
-- Exactly the RPCs that are due are cancelled.
use twinleaf_rust.Shared.{
  ℕ, ◌≡◌, ◌≢◌, refl, sym, ap, ◌∙◌, true, false, not, ◌&&◌, List, [], ◌∷◌, All, arith, ◌==◌, ==_iff,
  if◌then◌else◌, Bool-cases, Option-cases, inl, inr, Option, some, none, lookup, remove, member,
  lookup-remove,
}
use twinleaf_rust.Proxy.Rpcs.{RpcMapEntry}
use twinleaf_rust.Proxy.Rpcs.Timeouts.{waits, IsDistinct, IsSorted, waits-IsAbove}
use twinleaf_rust.Proxy.Rpcs.Tracking.{due}
use twinleaf_rust.Proxy.Rpcs.Dispatch.{RpcMap, and_before, cancel_ids}

-- The map without some ids.
abbrev pub Without : List ℕ → RpcMap → RpcMap → Type 0
Without ids m m' = (q : ℕ) → lookup q m' ≡ (if member q ids then none else lookup q m)

-- The ids of a list of RPCs, each as the map has it.
abbrev pub ids_of : RpcMap → List ℕ
ids_of [] = []
ids_of ((id, e) ∷ m) = id ∷ ids_of m

abbrev pub IsFrom : RpcMap → RpcMap → Type 0
IsFrom m cancelled = All (λ p. lookup p.0 m ≡ some p.1) cancelled

differs :
    (q id : ℕ) (ids : List ℕ) → member q ids ≡ true → member id ids ≡ false → (q == id) ≡ false
differs q id ids h k = elim (Bool-cases (q == id)) [
  | inl same ↦ let there = rw ((==_iff q id).0 same) at h in cc
  | inr other ↦ other
]

lookup-removed : (q id : ℕ) (m : RpcMap) → (q == id) ≡ false → lookup q (remove id m) ≡ lookup q m
lookup-removed q id m other = lookup-remove q id m ∙ rw other refl

IsFrom-remove : (id : ℕ) (m c : RpcMap) → IsFrom (remove id m) c → IsFrom m c
IsFrom-remove id m [] h = tt
IsFrom-remove id m ((q, e) ∷ c) h =
    (ground (arith, lookup-remove q id m, h), IsFrom-remove id m c h.1)

Without-remove :
    (q id : ℕ) (ids : List ℕ) (m : RpcMap)
    → (if member q ids then none else lookup q (remove id m))
      ≡ (if member q (id ∷ ids) then none else lookup q m)
unfolding member
Without-remove q id ids m = rw (lookup-remove q id m) (ground arith)

cancel_ids_step :
    (m : RpcMap) (id : ℕ) (ids : List ℕ) (e : RpcMapEntry)
    → lookup id m ≡ some e
    → cancel_ids m (id ∷ ids) ≡ and_before ((id, e) ∷ []) (cancel_ids (remove id m) ids)
unfolding cancel_ids
cancel_ids_step m id ids e found = rw (found, cancel_ids) refl

pub cancel_ids_lem :
    (m : RpcMap) (ids : List ℕ)
    → IsDistinct ids
    → ((q : ℕ) → member q ids ≡ true → lookup q m ≢ none)
    → (c : RpcMap) × (m' : RpcMap) × (cancel_ids m ids ≡ some (c, m'))
      × (ids_of c ≡ ids)
      × IsFrom m c
      × Without ids m m'
cancel_ids_lem m [] d there =
    ([], m, unfold cancel_ids in refl, refl, tt, λ q. unfold member in refl)
cancel_ids_lem m (id ∷ ids) d there = elim (Option-cases (lookup id m)) [
  | inl gone ↦ absurd (there id (unfold member in ground arith) gone)
  | inr (e, found) ↦
      let (c, m', done, named, from, without) = cancel_ids_lem (remove id m) ids d.1 (λ q h gone.
        let other = differs q id ids h d.0 in
        there q (unfold member in ground arith) (sym (lookup-removed q id m other) ∙ gone)) in
      (
        (id, e) ∷ c,
        m',
        cancel_ids_step m id ids e found ∙ rw done refl,
        ap (λ t. id ∷ t) named,
        (found, IsFrom-remove id m c from),
        λ q. without q ∙ Without-remove q id ids m,
      )
]

-- The two maps agree, from some instant on.
abbrev pub Agrees : List (ℕ × List ℕ) → RpcMap → Type 0
Agrees ts m = (t w : ℕ) → waits t w ts ≡ due t (lookup w m)

due-Without :
    (q t w : ℕ) (ids : List ℕ) (o : Option RpcMapEntry)
    → member w ids ≡ due t o
    → (not (q == t) && due q o) ≡ due q (if member w ids then none else o)
unfolding due
due-Without q t w ids none h = ground arith
due-Without q t w ids (some e) h = rw h (ground arith)

module _ (t : ℕ) (ids : List ℕ) (later : List (ℕ × List ℕ)) (m : RpcMap)
    (sorted : IsSorted ((t, ids) ∷ later)) (agree : Agrees ((t, ids) ∷ later) m) where
  pub waits_here : (w : ℕ) → member w ids ≡ due t (lookup w m)
  waits_here w = unfold waits in ground (arith, agree t w)

  waits_later : (q w : ℕ) → waits q w later ≡ (not (q == t) && due q (lookup w m))
  waits_later q w = unfold waits in ground (arith, agree q w, waits-IsAbove q t w later, sorted.0.0)

  -- Without the ids of the first instant the maps agree on the rest.
  pub Agrees-Without : (m' : RpcMap) → Without ids m m' → Agrees later m'
  Agrees-Without m' without q w =
      waits_later q w
      ∙ due-Without q t w ids (lookup w m) (waits_here w)
      ∙ ap (due q) (sym (without w))
