-- ===== src/Proto/Route/Display.antt =====
-- Routes as text: `DeviceRoute::from_str` and `Display` of twinleaf/src/tio/proto/route.rs, with the
-- standard library's decimal `u8` and `split`.
use twinleaf_rust.Shared.{
  ℕ, suc, ◌+◌, ◌-◌, ◌*◌, ◌/◌, ◌%◌, ◌≤◌, ◌<◌, ◌≡◌, refl, ap, ◌∙◌, Bool, true, false, not, ◌&&◌, List,
  [], ◌∷◌, ◌++◌, append_assoc, append-nil, map, le→leb, lt→ltb, lt→leb, leb→le, arith, leb, ltb,
  ◌==◌, if◌then◌else◌, length, length-append, Bytes, IsU8, IsBytes, Result, ok, err, Option, some,
  none, holds_to, holds_to_at, Bool-cases, inl, inr,
}
use twinleaf_rust.Text.{Text}
use twinleaf_rust.Proto.Limits.{tio_packet_max_routing_size}
use twinleaf_rust.Proto.Route.{DeviceRoute}

-- `{}` of a u8
unfoldable pub decimal : ℕ → Text
decimal n =
    if ltb n 10
    then (48 + n) ∷ []
    else if ltb n 100
    then (48 + n / 10) ∷ (48 + n % 10) ∷ []
    else (48 + n / 100) ∷ (48 + n / 10 % 10) ∷ (48 + n % 10) ∷ []

abbrev is_digit : ℕ → Bool
is_digit c = leb b'0' c && leb c b'9'

unfoldable pub read_digits : ℕ → Text → Option ℕ
read_digits acc [] = some acc
read_digits acc (c ∷ cs) =
    let acc' = acc * 10 + (c - 48) in
    if is_digit c && leb acc' 255 then read_digits acc' cs else none

-- `parse::<u8>()`: one `+` may stand in front.
unfoldable pub parse_u8 : Text → Option ℕ
unfolding read_digits
parse_u8 [] = none
parse_u8 (c ∷ []) = if c == b'+' then none else read_digits 0 (c ∷ [])
parse_u8 (c ∷ d ∷ cs) = if c == b'+' then read_digits 0 (d ∷ cs) else read_digits 0 (c ∷ d ∷ cs)

abbrev push_front : ℕ → List Text → List Text
push_front c [] = (c ∷ []) ∷ []
push_front c (s ∷ ss) = (c ∷ s) ∷ ss

-- `split('/')`
unfoldable pub split_slash : Text → List Text
split_slash [] = [] ∷ []
split_slash (c ∷ cs) =
    let rest = split_slash cs in if c == b'/' then [] ∷ rest else push_front c rest

-- The loop over the segments, onto the hops so far.
unfoldable pub push_segments : Bytes → List Text → Result DeviceRoute (Unit {0})
push_segments hops [] = ok (record { route = hops })
push_segments hops (s ∷ ss) =
    if leb tio_packet_max_routing_size (length hops)
    then err tt
    else elim (parse_u8 s) [ some n ↦ push_segments (hops ++ (n ∷ [])) ss | none ↦ err tt ]

unfoldable pub strip_slash : Text → Text
strip_slash [] = []
strip_slash (c ∷ cs) = if c == b'/' then cs else c ∷ cs

unfoldable pub from_str : Text → Result DeviceRoute (Unit {0})
unfolding strip_slash push_segments split_slash parse_u8
from_str route_str =
    let stripped = strip_slash route_str in
    if ltb 0 (length stripped)
    then push_segments [] (split_slash stripped)
    else ok (record { route = [] })

unfoldable pub show_hops : Bytes → Text
unfolding decimal
show_hops [] = []
show_hops (h ∷ hs) = b'/' ∷ (decimal h ++ show_hops hs)

unfoldable pub show : DeviceRoute → Text
unfolding show_hops
show r = if length r.route == 0 then b'/' ∷ [] else show_hops r.route

-- The digits of a byte, checked for each of the 256.
no_slash : Text → Bool
no_slash [] = true
no_slash (c ∷ cs) = not (c == b'/') && no_slash cs

reads_as : Option ℕ → ℕ → Bool
reads_as none n = false
reads_as (some m) n = m == n

decimal_table :
    holds_to
      (λ n.
        (reads_as (parse_u8 (decimal n)) n && no_slash (decimal n)) && ltb 0 (length (decimal n)))
      256
    ≡ true
unfolding holds_to reads_as parse_u8 decimal no_slash
decimal_table = refl

reads_as_eq : (o : Option ℕ) (n : ℕ) → reads_as o n ≡ true → o ≡ some n
unfolding reads_as
reads_as_eq none n e = cc
reads_as_eq (some m) n e = ground arith

decimal_facts :
    (n : ℕ)
    → IsU8 n
    → (parse_u8 (decimal n) ≡ some n) × (no_slash (decimal n) ≡ true) × (0 < length (decimal n))
decimal_facts n h =
    let t = holds_to_at _ 256 h decimal_table in
    (reads_as_eq _ n (ground arith), ground arith, ground arith)

split_slash_last : (s : Text) → no_slash s ≡ true → split_slash s ≡ s ∷ []
unfolding split_slash no_slash
split_slash_last [] e = refl
split_slash_last (c ∷ cs) e = ground (arith, split_slash_last cs)

split_slash-append :
    (s rest : Text) → no_slash s ≡ true → split_slash (s ++ (b'/' ∷ rest)) ≡ s ∷ split_slash rest
unfolding split_slash no_slash
split_slash-append [] rest e = refl
split_slash-append (c ∷ cs) rest e = ground (arith, split_slash-append cs rest)

split_slash-show_hops :
    (h : ℕ) (hs : Bytes)
    → IsBytes (h ∷ hs)
    → split_slash (decimal h ++ show_hops hs) ≡ map decimal (h ∷ hs)
unfolding show_hops
split_slash-show_hops h [] b =
    rw (append-nil (decimal h)) (split_slash_last (decimal h) (decimal_facts h b.0).1)
split_slash-show_hops h (k ∷ ks) b =
    split_slash-append (decimal h) (decimal k ++ show_hops ks) (decimal_facts h b.0).1
    ∙ ap (λ t. decimal h ∷ t) (split_slash-show_hops k ks b.1)

push_segments-map :
    (acc hs : Bytes)
    → IsBytes hs
    → length acc ≤ 8
    → push_segments acc (map decimal hs)
      ≡ (if leb (length acc + length hs) 8 then ok (record { route = acc ++ hs }) else err tt)
unfolding push_segments
push_segments-map acc [] b h = rw (append-nil acc, le→leb (length acc + 0) 8 (omega arith))
push_segments-map acc (k ∷ ks) b h = elim (Bool-cases (leb 8 (length acc))) [
  | inl full ↦
      rw (full, lt→leb (length acc + suc (length ks)) 8 (omega (arith, leb→le 8 (length acc) full)))
  | inr room ↦
      let more = length-append acc (k ∷ []) in
      let next = push_segments-map (acc ++ (k ∷ [])) ks b.1 (ground arith) in
      rw (room, (decimal_facts k b.0).0) (next ∙ ground (arith, more, append_assoc acc (k ∷ []) ks))
]

from_str-show_hops :
    (hs : Bytes)
    → IsBytes hs
    → from_str (show (record { route = hs }))
      ≡ (if leb (length hs) 8 then ok (record { route = hs }) else err tt)
unfolding from_str show
from_str-show_hops [] b = refl
from_str-show_hops (h ∷ hs) b =
    let long = length-append (decimal h) (show_hops hs) in
    let some_digit = (decimal_facts h b.0).2 in
    let hops : (suc (length hs) == 0) ≡ false = ground arith in
    let sum : 0 + suc (length hs) ≡ suc (length hs) = omega arith in
    rw hops (
      rw (lt→ltb 0 (length (decimal h ++ show_hops hs)) (omega arith)) (
        rw (split_slash-show_hops h hs b)
          (rw sum at (push_segments-map [] (h ∷ hs) b (omega arith)))))

-- The text of a route of at most eight hops is read back as that route, and the text of a longer
-- one is refused.
pub from_str-show :
    (r : DeviceRoute)
    → IsBytes r.route
    → from_str (show r)
      ≡ (if leb (length r.route) tio_packet_max_routing_size then ok r else err tt)
from_str-show r b = from_str-show_hops r.route b
