-- ===== src/Proxy/Rpcs/Tracking.antt =====
-- The two maps of the RPCs in flight say the same, and an answer finds its request.
use twinleaf_rust.Shared.{
  ℕ, ◌≡◌, refl, sym, ap, ◌∙◌, Bool, false, not, ◌&&◌, ◌||◌, arith, ◌==◌, ==_iff, Bool-cases, inl,
  inr, if◌then◌else◌, Option, some, none, lookup, remove, insert, lookup-remove, lookup-insert,
}
use twinleaf_rust.Proto.Route.Scope.{bytes_eq_iff}
use twinleaf_rust.Proxy.Rpcs.{
  RpcMapEntry, Rpcs, new, add_timeout, drop_timeout, restored, rpc_restore,
}
use twinleaf_rust.Proxy.Rpcs.Timeouts.{
  waits, IsSorted, add_timeout-IsSorted, drop_timeout-IsSorted, waits-add_timeout,
  waits-drop_timeout,
}

-- Whether an entry of the map is due at an instant.
unfoldable pub due : ℕ → Option RpcMapEntry → Bool
due t none = false
due t (some e) = t == e.timeout

due-insert :
    (w q t : ℕ) (e : RpcMapEntry) (o : Option RpcMapEntry)
    → (q ≡ w → o ≡ none)
    → ((t == e.timeout && q == w) || due t o) ≡ due t (if q == w then some e else o)
unfolding due
due-insert w q t e o h = elim (Bool-cases (q == w)) [
  | inl same ↦ rw (h ((==_iff q w).0 same), same) (ground arith)
  | inr other ↦ rw other (ground arith)
]

due-remove :
    (w q t : ℕ) (e : RpcMapEntry) (o : Option RpcMapEntry)
    → (q ≡ w → o ≡ some e)
    → (not (t == e.timeout && q == w) && due t o) ≡ due t (if q == w then none else o)
unfolding due
due-remove w q t e o h = elim (Bool-cases (q == w)) [
  | inl same ↦ rw (h ((==_iff q w).0 same), same) (ground arith)
  | inr other ↦ rw other (ground arith)
]

-- An id waits for an instant exactly where the map has it with that timeout.
pub record IsConsistent (s : Rpcs) : Type 0 where
  pub sorted : IsSorted s.rpc_timeouts
  pub agree : (t w : ℕ) → waits t w s.rpc_timeouts ≡ due t (lookup w s.rpc_map)

pub new-IsConsistent : IsConsistent new
new-IsConsistent = record {
  sorted = unfold new in tt;
  agree = λ t w. unfold new waits due lookup in refl;
}

abbrev pub tracked : Rpcs → ℕ → RpcMapEntry → Rpcs
tracked s w e = record s {
  rpc_map = insert w e s.rpc_map;
  rpc_timeouts = add_timeout e.timeout w s.rpc_timeouts;
}

abbrev pub untracked : Rpcs → ℕ → RpcMapEntry → Rpcs
untracked s w e = record s { rpc_map = remove w (insert w e s.rpc_map) }

module _ (s : Rpcs) (c : IsConsistent s) (w : ℕ) (e : RpcMapEntry)
    (free : lookup w s.rpc_map ≡ none) where
  pub tracked-IsConsistent : IsConsistent (tracked s w e)
  tracked-IsConsistent = record {
    sorted = add_timeout-IsSorted e.timeout w s.rpc_timeouts c.sorted;
    agree = λ t q.
        waits-add_timeout t q e.timeout w s.rpc_timeouts c.sorted
        ∙ ap (λ b. (t == e.timeout && q == w) || b) (c.agree t q)
        ∙ due-insert w q t e (lookup q s.rpc_map) (λ same. rw same free)
        ∙ ap (due t) (sym (lookup-insert q w e s.rpc_map));
  }

  pub lookup-untracked : (q : ℕ) → lookup q (untracked s w e).rpc_map ≡ lookup q s.rpc_map
  lookup-untracked q = lookup-remove q w (insert w e s.rpc_map) ∙ elim (Bool-cases (q == w)) [
    | inl same ↦ rw ((==_iff q w).0 same) (rw free (ground arith))
    | inr other ↦ rw (other, lookup-insert q w e s.rpc_map) (rw other refl)
  ]

  pub untracked-IsConsistent : IsConsistent (untracked s w e)
  untracked-IsConsistent = record {
    sorted = c.sorted;
    agree = λ t q. c.agree t q ∙ ap (due t) (sym (lookup-untracked q));
  }

-- An answer from the device that the request went to takes the entry off both maps.
pub rpc_restore_found :
    (s : Rpcs) (w : ℕ) (e : RpcMapEntry)
    → IsConsistent s
    → lookup w s.rpc_map ≡ some e
    → (s' : Rpcs) × (rpc_restore s w e.route ≡ (s', some (e.client, e.id)))
      × IsConsistent s'
      × ((q : ℕ) → lookup q s'.rpc_map ≡ (if q == w then none else lookup q s.rpc_map))
unfolding rpc_restore restored
rpc_restore_found s w e c found =
    let same_route = (bytes_eq_iff e.route.route e.route.route).1 refl in
    (
      record s {
        rpc_map = remove w s.rpc_map;
        rpc_timeouts = drop_timeout e.timeout w s.rpc_timeouts;
      },
      rw (found, same_route) refl,
      record {
        sorted = drop_timeout-IsSorted e.timeout w s.rpc_timeouts c.sorted;
        agree = λ t q.
            waits-drop_timeout t q e.timeout w s.rpc_timeouts c.sorted
            ∙ ap (λ b. not (t == e.timeout && q == w) && b) (c.agree t q)
            ∙ due-remove w q t e (lookup q s.rpc_map) (λ same. rw same found)
            ∙ ap (due t) (sym (lookup-remove q w s.rpc_map));
      },
      λ q. lookup-remove q w s.rpc_map,
    )
