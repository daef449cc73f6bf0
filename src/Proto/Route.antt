-- ===== src/Proto/Route.antt =====
-- Device routes: twinleaf/src/tio/proto/route.rs. A route lists the hops from the root; on the wire
-- they stand in reverse.
pub mod Scope
pub mod Display
use twinleaf_rust.Shared.{
  Bool, true, false, ◌&&◌, ◌||◌, [], ◌∷◌, ◌++◌, reverse, ltb, leb, ◌==◌, if◌then◌else◌, length, set,
  take, drop, Bytes, byte, bit_or, Result, ok, err, ◌%◌,
}
use twinleaf_rust.Proto.Limits.{tio_packet_max_routing_size}
use twinleaf_rust.Proto.Header.{hdr_size}

pub record DeviceRoute : Type 0 where
  pub route : Bytes

unfoldable pub root : DeviceRoute
root = record { route = [] }

unfoldable pub from_bytes : Bytes → Result DeviceRoute (Unit {0})
from_bytes bytes =
    if ltb tio_packet_max_routing_size (length bytes)
    then err tt
    else ok (record { route = reverse bytes })

-- `==` on `Vec<u8>`
unfoldable pub bytes_eq : Bytes → Bytes → Bool
bytes_eq [] [] = true
bytes_eq [] (y ∷ ys) = false
bytes_eq (x ∷ xs) [] = false
bytes_eq (x ∷ xs) (y ∷ ys) = x == y && bytes_eq xs ys

unfoldable pub serialize : DeviceRoute → Bytes → Result Bytes (Unit {0})
serialize r rest_of_packet =
    if ltb tio_packet_max_routing_size (length r.route) || ltb (length rest_of_packet) hdr_size
    then err tt
    else ok (
        set rest_of_packet 1 (bit_or (byte rest_of_packet 1) (length r.route % 256))
        ++ reverse r.route)

-- The route from this to `other_route`, both from the root.
unfoldable pub relative_route : DeviceRoute → DeviceRoute → Result DeviceRoute (Unit {0})
unfolding bytes_eq
relative_route r other =
    if leb (length r.route) (length other.route)
      && bytes_eq r.route (take (length r.route) other.route)
    then ok (record { route = drop (length r.route) other.route })
    else err tt

unfoldable pub absolute_route : DeviceRoute → DeviceRoute → DeviceRoute
absolute_route r other = record { route = r.route ++ other.route }
