-- ===== src/Port/Url.antt =====
-- The urls of ports: `Port::new` and `find_addr` of twinleaf/src/tio/port.rs, on unix, and the tokens
-- that `Port::new` of twinleaf/src/tio/port/serial.rs reads. Name resolution is a parameter.
pub mod Schemes
mod Tests
use twinleaf_rust.Shared.{
  ℕ, ◌+◌, ◌-◌, ◌*◌, Bool, true, false, not, ◌&&◌, ◌||◌, List, [], ◌∷◌, ◌++◌, ltb, leb, ◌==◌,
  if◌then◌else◌, length, drop, Bytes, Result, ok, err, ◌>>=◌, ◌>>◌, refuse, Option, some, none,
}
use twinleaf_rust.Text.{Text}
use twinleaf_rust.Port.Errors.{IoError, invalid_input, other}
use twinleaf_rust.Port.Serial.{RateInfo}
use twinleaf_rust.Proto.Route.{bytes_eq}

pub data AddrFamilyRestrict : Type 0 where
  v4_only v6_only either : AddrFamilyRestrict

-- `std::net::SocketAddr`, with an address and port that nothing here looks into.
pub data SocketAddr {ℓ} (A : Type ℓ) : Type ℓ where
  v4 v6 : A → SocketAddr A

unfoldable pub is_allowed {ℓ} : {A : Type ℓ} → AddrFamilyRestrict → SocketAddr A → Bool
is_allowed v6_only (v4 a) = false
is_allowed v4_only (v6 a) = false
is_allowed family sa = true

unfoldable pub first_allowed {ℓ} :
    {A : Type ℓ} → AddrFamilyRestrict → List (SocketAddr A) → Result (SocketAddr A) IoError
unfolding is_allowed
first_allowed family [] = err other
first_allowed family (sa ∷ iter) =
    let rest = first_allowed family iter in if is_allowed family sa then ok sa else rest

-- ":7855" and "]:7855"
abbrev pub with_default_port : Text → Text
with_default_port addr = addr ++ (58 ∷ 55 ∷ 56 ∷ 53 ∷ 53 ∷ [])

abbrev pub bracketed : Text → Text
bracketed addr = 91 ∷ (addr ++ (93 ∷ 58 ∷ 55 ∷ 56 ∷ 53 ∷ 53 ∷ []))

abbrev pub or_else {ℓ κ} : {A : Type ℓ} {E : Type κ} → Result A E → Result A E → Result A E
or_else (ok a) r = ok a
or_else (err e) r = r

-- As it is, then with the default port, then as a numeric IPv6 address; the first error counts.
unfoldable pub resolved {ℓ} :
    {A : Type ℓ}
    → (Text → Result (List (SocketAddr A)) IoError)
    → Text
    → Result (List (SocketAddr A)) IoError
resolved to_socket_addrs addr = or_else (to_socket_addrs addr) (
    or_else (to_socket_addrs (with_default_port addr))
      (or_else (to_socket_addrs (bracketed addr)) (to_socket_addrs addr)))

unfoldable pub find_addr {ℓ} :
    {A : Type ℓ}
    → (Text → Result (List (SocketAddr A)) IoError)
    → Text
    → AddrFamilyRestrict
    → Result (SocketAddr A) IoError
unfolding resolved first_allowed
find_addr to_socket_addrs addr family = do
  iter ← resolved to_socket_addrs addr
  first_allowed family iter

-- Which raw port a url asks for.
pub data RawUrl : Type 0 where
  serial_url : Text → RawUrl
  tcp_url udp_url : AddrFamilyRestrict → Text → RawUrl

unfoldable pub starts_with : Text → Text → Bool
starts_with [] text = true
starts_with (c ∷ prefix) [] = false
starts_with (c ∷ prefix) (d ∷ text) = c == d && starts_with prefix text

abbrev before_and_after : ℕ → Option (Text × Text) → Option (Text × Text)
before_and_after c none = none
before_and_after c (some (front, back)) = some (c ∷ front, back)

-- `splitn(2, "://")` where the separator occurs.
unfoldable pub split_scheme : Text → Option (Text × Text)
unfolding starts_with
split_scheme [] = none
split_scheme (c ∷ text) =
    let rest = before_and_after c (split_scheme text) in
    if starts_with (58 ∷ 47 ∷ 47 ∷ []) (c ∷ text) then some ([], drop 2 text) else rest

-- "serial", "tcp", "udp", "tcp4", "udp4", "tcp6", "udp6"
unfoldable pub by_scheme : Text → Text → Option RawUrl
unfolding bytes_eq
by_scheme scheme addr =
    if bytes_eq scheme (115 ∷ 101 ∷ 114 ∷ 105 ∷ 97 ∷ 108 ∷ [])
    then some (serial_url addr)
    else if bytes_eq scheme (116 ∷ 99 ∷ 112 ∷ [])
    then some (tcp_url either addr)
    else if bytes_eq scheme (117 ∷ 100 ∷ 112 ∷ [])
    then some (udp_url either addr)
    else if bytes_eq scheme (116 ∷ 99 ∷ 112 ∷ 52 ∷ [])
    then some (tcp_url v4_only addr)
    else if bytes_eq scheme (117 ∷ 100 ∷ 112 ∷ 52 ∷ [])
    then some (udp_url v4_only addr)
    else if bytes_eq scheme (116 ∷ 99 ∷ 112 ∷ 54 ∷ [])
    then some (tcp_url v6_only addr)
    else if bytes_eq scheme (117 ∷ 100 ∷ 112 ∷ 54 ∷ [])
    then some (udp_url v6_only addr)
    else none

-- "/dev/"
abbrev pub dev_prefix : Text
dev_prefix = 47 ∷ 100 ∷ 101 ∷ 118 ∷ 47 ∷ []

-- `none` is the error of an invalid url.
unfoldable pub parse_url : Text → Option RawUrl
unfolding starts_with split_scheme by_scheme
parse_url url =
    if starts_with dev_prefix url
    then some (serial_url url)
    else elim (split_scheme url) [ none ↦ none | some parts ↦ by_scheme parts.0 parts.1 ]

-- `split(':')`
abbrev push_front : ℕ → List Text → List Text
push_front c [] = (c ∷ []) ∷ []
push_front c (s ∷ ss) = (c ∷ s) ∷ ss

unfoldable pub split_colon : Text → List Text
split_colon [] = [] ∷ []
split_colon (c ∷ cs) = let rest = split_colon cs in if c == 58 then [] ∷ rest else push_front c rest

unfoldable pub read_u32 : ℕ → Text → Option ℕ
read_u32 acc [] = some acc
read_u32 acc (c ∷ cs) =
    let acc' = acc * 10 + (c - 48) in
    if leb 48 c && leb c 57 && leb acc' 0xFFFFFFFF then read_u32 acc' cs else none

-- `parse::<u32>()`: one `+` may stand in front of the digits.
unfoldable pub parse_u32 : Text → Option ℕ
unfolding read_u32
parse_u32 [] = none
parse_u32 (c ∷ []) = if c == 43 then none else read_u32 0 (c ∷ [])
parse_u32 (c ∷ d ∷ cs) = if c == 43 then read_u32 0 (d ∷ cs) else read_u32 0 (c ∷ d ∷ cs)

abbrev pub default_rate : ℕ
default_rate = 115200

unfoldable pub rate_or_error : Option ℕ → Result ℕ IoError
rate_or_error (some rate) = ok rate
rate_or_error none = err invalid_input

-- The name of the serial port and its rates, from the tokens of a url.
unfoldable pub serial_settings : List Text → Result (Text × RateInfo) IoError
unfolding rate_or_error parse_u32
serial_settings [] = err invalid_input
serial_settings (port_name ∷ []) =
    ok (port_name, record { default_bps = default_rate; target_bps = default_rate })
serial_settings (port_name ∷ target ∷ []) = do
  target_rate ← rate_or_error (parse_u32 target)
  ok (port_name, record { default_bps = default_rate; target_bps = target_rate })
serial_settings (port_name ∷ target ∷ fallback ∷ []) = do
  target_rate ← rate_or_error (parse_u32 target)
  fallback_rate ← rate_or_error (parse_u32 fallback)
  ok (port_name, record { default_bps = fallback_rate; target_bps = target_rate })
serial_settings (port_name ∷ target ∷ fallback ∷ more ∷ tokens) = err invalid_input

unfoldable pub parse_serial : Text → Result (Text × RateInfo) IoError
unfolding split_colon serial_settings
parse_serial url = serial_settings (split_colon url)
