-- ===== src/Proxy/Rpcs/Dispatch/Exact.antt =====
-- Exactly the RPCs that are due are cancelled.
use twinleaf_rust.Shared.{
  ℕ, ◌≤◌, ◌≡◌, ◌≢◌, refl, sym, ap, ◌∙◌, Bool, true, false, not, ◌||◌, List, [], ◌∷◌, ◌++◌,
  All-append, arith, ◌==◌, ==_iff, if◌then◌else◌, Bool-cases, inl, inr, Option, some, none, lookup,
  remove, member,
}
use twinleaf_rust.Proxy.Rpcs.{RpcMapEntry, Rpcs}
use twinleaf_rust.Proxy.Rpcs.Timeouts.{waits, IsAbove, IsSorted, waits-IsAbove}
use twinleaf_rust.Proxy.Rpcs.Tracking.{due, IsConsistent}
use twinleaf_rust.Proxy.Rpcs.Dispatch.{
  RpcMap, is_later, cancel_ids, Cancelled, after_instant, cancel_due, remove_all,
  dispatch_rpc_errors,
}
use twinleaf_rust.Proxy.Rpcs.Dispatch.Due.{
  Without, ids_of, IsFrom, cancel_ids_lem, Agrees, waits_here, Agrees-Without,
}

-- Whether an RPC's time is up.
unfoldable pub is_due : Option ℕ → Option RpcMapEntry → Bool
is_due until none = false
is_due until (some e) = not (is_later until e.timeout)

ids_of-append :
    (c d : RpcMap) (w : ℕ)
    → member w (ids_of (c ++ d)) ≡ (member w (ids_of c) || member w (ids_of d))
unfolding member
ids_of-append [] d w = refl
ids_of-append ((id, e) ∷ c) d w = ground (arith, ids_of-append c d w)

IsFrom-Without : (ids : List ℕ) (m m' c : RpcMap) → Without ids m m' → IsFrom m' c → IsFrom m c
IsFrom-Without ids m m' [] h f = tt
IsFrom-Without ids m m' ((q, e) ∷ c) h f = (ground (arith, h q, f), IsFrom-Without ids m m' c h f.1)

remove_above : (t : ℕ) (later : List (ℕ × List ℕ)) → IsAbove t later → remove t later ≡ later
unfolding remove
remove_above t [] a = refl
remove_above t ((t', ids) ∷ later) a = ground (arith, remove_above t later)

remove_head :
    (t : ℕ) (ids : List ℕ) (later : List (ℕ × List ℕ))
    → IsAbove t later
    → remove t ((t, ids) ∷ later) ≡ later
unfolding remove
remove_head t ids later a = ground (arith, remove_above t later)

-- The ids of an instant that is due are due, and the others are so as before.
is_due-Without :
    (until : Option ℕ) (t w : ℕ) (ids : List ℕ) (o : Option RpcMapEntry)
    → is_later until t ≡ false
    → member w ids ≡ due t o
    → (member w ids || is_due until (if member w ids then none else o)) ≡ is_due until o
unfolding due is_due
is_due-Without until t w ids none on h = rw h refl
is_due-Without until t w ids (some e) on h = elim (Bool-cases (t == e.timeout)) [
  | inl same ↦ rw (h, same) (rw (← (==_iff t e.timeout).0 same) (rw on refl))
  | inr other ↦ rw (h, other) refl
]

left-Without :
    (until : Option ℕ) (t w : ℕ) (ids : List ℕ) (o : Option RpcMapEntry)
    → is_later until t ≡ false
    → member w ids ≡ due t o
    → (let o' = if member w ids then none else o in if is_due until o' then none else o')
      ≡ (if is_due until o then none else o)
unfolding due is_due
left-Without until t w ids none on h = rw h refl
left-Without until t w ids (some e) on h = elim (Bool-cases (t == e.timeout)) [
  | inl same ↦ rw (h, same) (rw (← (==_iff t e.timeout).0 same) (rw on refl))
  | inr other ↦ rw (h, other) refl
]

-- What the loop does with the rest of the instants.
abbrev pub Dispatches : Option ℕ → List (ℕ × List ℕ) → RpcMap → Option Cancelled → Type 0
Dispatches until ts m r =
    (c : Cancelled) × (r ≡ some c)
    × ((w : ℕ) → member w (ids_of c.cancelled) ≡ is_due until (lookup w m))
    × IsFrom m c.cancelled
    × ((w : ℕ) → lookup w c.left ≡ (if is_due until (lookup w m) then none else lookup w m))
    × IsSorted (remove_all c.to_remove ts)
    × Agrees (remove_all c.to_remove ts) c.left

due_self : (e : RpcMapEntry) → due e.timeout (some e) ≡ true
unfolding due
due_self e = ground arith

nothing_due :
    (until : Option ℕ) (ts : List (ℕ × List ℕ)) (m : RpcMap)
    → IsSorted ts
    → Agrees ts m
    → ((q w : ℕ) → waits q w ts ≡ true → is_later until q ≡ true)
    → Dispatches until ts m (some (record { cancelled = []; left = m; to_remove = [] }))
unfolding remove_all
nothing_due until ts m sorted agree later = (
  _,
  refl,
  (λ w. unfold member in sym (not_due w (lookup w m) refl)),
  tt,
  (λ w. rw (not_due w (lookup w m) refl) refl),
  sorted,
  agree,
)
  where
    not_due : (w : ℕ) (o : Option RpcMapEntry) → lookup w m ≡ o → is_due until o ≡ false
    not_due w none e = unfold is_due in refl
    not_due w (some e) found =
        let waiting = agree e.timeout w ∙ ap (due e.timeout) found ∙ due_self e in
        let late = later e.timeout w waiting in unfold is_due in rw late refl

is_later_trans :
    (until : Option ℕ) (t q : ℕ) → t ≤ q → is_later until t ≡ true → is_later until q ≡ true
unfolding is_later
is_later_trans none t q h e = e
is_later_trans (some bound) t q h e = ground arith

waits_late :
    (t q w : ℕ) (ids : List ℕ) (later : List (ℕ × List ℕ))
    → IsAbove t later
    → waits q w ((t, ids) ∷ later) ≡ true
    → t ≤ q
unfolding waits
waits_late t q w ids later a h = ground (arith, waits-IsAbove q t w later)

cancel_due_stop :
    (until : Option ℕ) (t : ℕ) (ids : List ℕ) (later : List (ℕ × List ℕ)) (m : RpcMap)
    → is_later until t ≡ true
    → cancel_due until m ((t, ids) ∷ later)
      ≡ some (record { cancelled = []; left = m; to_remove = [] })
unfolding cancel_due
cancel_due_stop until t ids later m stop = rw (stop, cancel_due) refl

cancel_due_on :
    (until : Option ℕ) (t : ℕ) (ids : List ℕ) (later : List (ℕ × List ℕ)) (m first m' : RpcMap)
    → is_later until t ≡ false
    → cancel_ids m ids ≡ some (first, m')
    → cancel_due until m ((t, ids) ∷ later) ≡ after_instant t first (cancel_due until m' later)
unfolding cancel_due
cancel_due_on until t ids later m first m' on done =
    rw (on, cancel_due) (rw (done, cancel_due) refl)

-- One instant that is due, before the rest.
due_before :
    (until : Option ℕ) (t : ℕ) (ids : List ℕ) (later : List (ℕ × List ℕ)) (m first m' : RpcMap)
    → IsSorted ((t, ids) ∷ later)
    → Agrees ((t, ids) ∷ later) m
    → is_later until t ≡ false
    → (ids_of first ≡ ids) × IsFrom m first × Without ids m m'
    → (r : Option Cancelled) → Dispatches until later m' r
    → Dispatches until ((t, ids) ∷ later) m (after_instant t first r)
unfolding remove_all
due_before until t ids later m first m' sorted agree on (named, from, without) r
      (c, e, all, from', left, sorted', agree') =
    let here = waits_here t ids later m sorted agree in
    (
      record { cancelled = first ++ c.cancelled; left = c.left; to_remove = t ∷ c.to_remove },
      rw e refl,
      λ w.
          ids_of-append first c.cancelled w
          ∙ rw (named, all w, without w) (is_due-Without until t w ids (lookup w m) on (here w)),
      All-append (λ p. lookup p.0 m ≡ some p.1) first c.cancelled from
          (IsFrom-Without ids m m' c.cancelled without from'),
      λ w. left w ∙ rw (without w) (left-Without until t w ids (lookup w m) on (here w)),
      rw (remove_head t ids later sorted.0.0) sorted',
      λ q w. rw (remove_head t ids later sorted.0.0) (agree' q w),
    )

cancel_due-Dispatches :
    (until : Option ℕ) (ts : List (ℕ × List ℕ)) (m : RpcMap)
    → IsSorted ts
    → Agrees ts m
    → Dispatches until ts m (cancel_due until m ts)
cancel_due-Dispatches until [] m sorted agree =
    unfold cancel_due in
    nothing_due until [] m sorted agree (λ q w h. absurd (unfold waits in ground arith))
cancel_due-Dispatches until ((t, ids) ∷ later) m sorted agree =
    elim (Bool-cases (is_later until t)) [
      | inl stop ↦ rw (cancel_due_stop until t ids later m stop) (
          nothing_due until ((t, ids) ∷ later) m sorted agree
            (λ q w h. is_later_trans until t q (waits_late t q w ids later sorted.0.0 h) stop))
      | inr on ↦
          let known : (q : ℕ) → member q ids ≡ true → lookup q m ≢ none =
            λ q h gone. unfold due in ground (arith, waits_here t ids later m sorted agree q) in
          let (first, m', done, named, from, without) = cancel_ids_lem m ids sorted.0.1 known in
          rw (cancel_due_on until t ids later m first m' on done) (
            due_before until t ids later m first m' sorted agree on (named, from, without)
              (cancel_due until m' later)
              (cancel_due-Dispatches until later m' sorted.1
                (Agrees-Without t ids later m sorted agree m' without)))
    ]

-- Where the two maps of the RPCs in flight agree, exactly the RPCs whose time is before the bound are
-- cancelled, all of them where there is none, each as the map has it. They leave both maps, the
-- others stay, and the maps agree: the loop finds every id that waits in the map.
pub dispatch_rpc_errors_lem :
    (until : Option ℕ) (s : Rpcs)
    → IsConsistent s
    → (cancelled : RpcMap) × (s' : Rpcs) × (dispatch_rpc_errors until s ≡ some (cancelled, s'))
      × IsConsistent s'
      × ((w : ℕ) → member w (ids_of cancelled) ≡ is_due until (lookup w s.rpc_map))
      × IsFrom s.rpc_map cancelled
      × ((w : ℕ)
          → lookup w s'.rpc_map
            ≡ (if is_due until (lookup w s.rpc_map) then none else lookup w s.rpc_map))
unfolding dispatch_rpc_errors
dispatch_rpc_errors_lem until s k =
    let (c, done, all, from, left, sorted, agree) =
      cancel_due-Dispatches until s.rpc_timeouts s.rpc_map k.sorted k.agree in
    (
      c.cancelled,
      record s { rpc_map = c.left; rpc_timeouts = remove_all c.to_remove s.rpc_timeouts },
      rw (done, dispatch_rpc_errors) refl,
      record { sorted = sorted; agree = agree },
      all,
      from,
      left,
    )
