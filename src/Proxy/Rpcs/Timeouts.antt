-- ===== src/Proxy/Rpcs/Timeouts.antt =====
-- The map of timeouts as a relation between instants and ids.
use twinleaf_rust.Shared.{
  ℕ, ◌≤◌, ◌<◌, ◌≡◌, refl, Bool, true, false, not, ◌&&◌, ◌||◌, List, [], ◌∷◌, arith, length, ◌==◌,
  if◌then◌else◌, Bool-cases, inl, inr, member, set_insert, set_remove, member-set_insert,
  member-set_remove,
}
use twinleaf_rust.Proxy.Rpcs.{add_timeout, drop_timeout}

-- The id waits for the instant.
unfoldable pub waits : ℕ → ℕ → List (ℕ × List ℕ) → Bool
waits t id [] = false
waits t id ((t', ids) ∷ later) = if t == t' then member id ids else waits t id later

abbrev pub IsAbove : ℕ → List (ℕ × List ℕ) → Type 0
IsAbove t [] = Unit
IsAbove t ((t', ids) ∷ later) = (t < t') × IsAbove t later

abbrev pub IsDistinct : List ℕ → Type 0
IsDistinct [] = Unit
IsDistinct (x ∷ xs) = (member x xs ≡ false) × IsDistinct xs

-- The instants ascend, and each has a set of ids.
abbrev pub IsSorted : List (ℕ × List ℕ) → Type 0
IsSorted [] = Unit
IsSorted ((t, ids) ∷ later) = (IsAbove t later × IsDistinct ids) × IsSorted later

set_insert-IsDistinct : (x : ℕ) (ys : List ℕ) → IsDistinct ys → IsDistinct (set_insert x ys)
unfolding set_insert
set_insert-IsDistinct x ys d = elim (Bool-cases (member x ys)) [
  | inl there ↦ rw there d
  | inr new ↦ rw new (new, d)
]

set_remove-IsDistinct : (x : ℕ) (ys : List ℕ) → IsDistinct ys → IsDistinct (set_remove x ys)
unfolding set_remove
set_remove-IsDistinct x [] d = tt
set_remove-IsDistinct x (y ∷ ys) d =
    let rest = set_remove-IsDistinct x ys d.1 in let kept = member-set_remove y x ys in ground arith

member_empty : (x : ℕ) (ys : List ℕ) → (length ys == 0) ≡ true → member x ys ≡ false
unfolding member
member_empty x [] e = refl
member_empty x (y ∷ ys) e = absurd (ground arith)

pub waits-IsAbove :
    (q t id : ℕ) (ts : List (ℕ × List ℕ)) → q ≤ t → IsAbove t ts → waits q id ts ≡ false
unfolding waits
waits-IsAbove q t id [] h a = refl
waits-IsAbove q t id ((t', ids) ∷ later) h a = ground (arith, waits-IsAbove q t id later)

IsAbove-trans : (q t : ℕ) (ts : List (ℕ × List ℕ)) → q < t → IsAbove t ts → IsAbove q ts
IsAbove-trans q t [] h a = tt
IsAbove-trans q t ((t', ids) ∷ later) h a = (omega arith, IsAbove-trans q t later h a.1)

add_timeout-IsAbove :
    (q t id : ℕ) (ts : List (ℕ × List ℕ)) → q < t → IsAbove q ts → IsAbove q (add_timeout t id ts)
unfolding add_timeout
add_timeout-IsAbove q t id [] h a = (h, tt)
add_timeout-IsAbove q t id ((t', ids) ∷ later) h a =
    let rest = add_timeout-IsAbove q t id later h a.1 in ground arith

pub add_timeout-IsSorted :
    (t id : ℕ) (ts : List (ℕ × List ℕ)) → IsSorted ts → IsSorted (add_timeout t id ts)
unfolding add_timeout
add_timeout-IsSorted t id [] s = ((tt, (unfold member in refl, tt)), tt)
add_timeout-IsSorted t id ((t', ids) ∷ later) s =
    let rest = add_timeout-IsSorted t id later s.1 in
    let put = add_timeout-IsAbove t' t id later in
    let set = set_insert-IsDistinct id ids s.0.1 in
    let single : member id [] ≡ false = unfold member in refl in
    let far = IsAbove-trans t t' later in ground arith

drop_timeout-IsAbove :
    (q t id : ℕ) (ts : List (ℕ × List ℕ)) → IsAbove q ts → IsAbove q (drop_timeout t id ts)
unfolding drop_timeout
drop_timeout-IsAbove q t id [] a = tt
drop_timeout-IsAbove q t id ((t', ids) ∷ later) a =
    let rest = drop_timeout-IsAbove q t id later a.1 in ground arith

pub drop_timeout-IsSorted :
    (t id : ℕ) (ts : List (ℕ × List ℕ)) → IsSorted ts → IsSorted (drop_timeout t id ts)
unfolding drop_timeout
drop_timeout-IsSorted t id [] s = tt
drop_timeout-IsSorted t id ((t', ids) ∷ later) s =
    let rest = drop_timeout-IsSorted t id later s.1 in
    let set = set_remove-IsDistinct id ids s.0.1 in
    let above = drop_timeout-IsAbove t' t id later s.0.0 in ground arith

pub waits-add_timeout :
    (q i t id : ℕ) (ts : List (ℕ × List ℕ))
    → IsSorted ts
    → waits q i (add_timeout t id ts) ≡ ((q == t && i == id) || waits q i ts)
unfolding waits add_timeout member
waits-add_timeout q i t id [] s = ground arith
waits-add_timeout q i t id ((t', ids) ∷ later) s =
    let rest = waits-add_timeout q i t id later s.1 in
    let set = member-set_insert i id ids in let above = waits-IsAbove q t' i later in ground arith

pub waits-drop_timeout :
    (q i t id : ℕ) (ts : List (ℕ × List ℕ))
    → IsSorted ts
    → waits q i (drop_timeout t id ts) ≡ (not (q == t && i == id) && waits q i ts)
unfolding waits drop_timeout
waits-drop_timeout q i t id [] s = ground arith
waits-drop_timeout q i t id ((t', ids) ∷ later) s =
    let rest = waits-drop_timeout q i t id later s.1 in
    let set = member-set_remove i id ids in
    let above = waits-IsAbove q t' i later in
    let none_left = member_empty i (set_remove id ids) in ground arith
