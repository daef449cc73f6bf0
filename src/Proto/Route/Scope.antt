-- ===== src/Proto/Route/Scope.antt =====
-- Relative and absolute routes undo each other, and a route is read back from the wire.
use twinleaf_rust.Shared.{
  ◌≡◌, ◌↔◌, refl, true, ◌∷◌, arith, length, length-append, take, take-append, drop-append,
  take-append-drop, Bytes, ok,
}
use twinleaf_rust.Proto.Route.{DeviceRoute, bytes_eq, relative_route, absolute_route}

pub bytes_eq_iff : (xs ys : Bytes) → (bytes_eq xs ys ≡ true) ↔ (xs ≡ ys)
unfolding bytes_eq
bytes_eq_iff (x ∷ xs) (y ∷ ys) = ground (arith, bytes_eq_iff xs ys)
bytes_eq_iff _ _ = ground arith

pub relative_route-absolute_route :
    (r q : DeviceRoute) → relative_route r (absolute_route r q) ≡ ok q
unfolding relative_route absolute_route
relative_route-absolute_route r q = ground (
  arith,
  length-append r.route q.route,
  take-append (length r.route) r.route q.route refl,
  drop-append (length r.route) r.route q.route refl,
  bytes_eq_iff r.route r.route,
)

absolute_route-relative_route :
    (r o q : DeviceRoute) → relative_route r o ≡ ok q → absolute_route r q ≡ o
unfolding relative_route absolute_route
absolute_route-relative_route r o q e = ground (
  arith,
  take-append-drop (length r.route) o.route,
  bytes_eq_iff r.route (take (length r.route) o.route),
)

-- A route is found below another exactly where that other, followed by it, is the whole route.
pub relative_route_iff :
    (r o q : DeviceRoute) → (relative_route r o ≡ ok q) ↔ (absolute_route r q ≡ o)
relative_route_iff r o q =
    (absolute_route-relative_route r o q, λ e. rw (← e) (relative_route-absolute_route r q))
