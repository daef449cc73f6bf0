-- ===== src/Port/Url/Schemes.antt =====
-- What a url is read as.
use twinleaf_rust.Shared.{◌≡◌, refl, ◌∷◌, some}
use twinleaf_rust.Text.{Text}
use twinleaf_rust.Port.Url.{
  v4_only, v6_only, either, RawUrl, serial_url, tcp_url, udp_url, starts_with, split_scheme,
  by_scheme, parse_url,
}
use twinleaf_rust.Proto.Route.{bytes_eq}

-- A url of each kind, as it is written.
abbrev pub show_url : RawUrl → Text
show_url (serial_url port) = 115 ∷ 101 ∷ 114 ∷ 105 ∷ 97 ∷ 108 ∷ 58 ∷ 47 ∷ 47 ∷ port
show_url (tcp_url either addr) = 116 ∷ 99 ∷ 112 ∷ 58 ∷ 47 ∷ 47 ∷ addr
show_url (udp_url either addr) = 117 ∷ 100 ∷ 112 ∷ 58 ∷ 47 ∷ 47 ∷ addr
show_url (tcp_url v4_only addr) = 116 ∷ 99 ∷ 112 ∷ 52 ∷ 58 ∷ 47 ∷ 47 ∷ addr
show_url (udp_url v4_only addr) = 117 ∷ 100 ∷ 112 ∷ 52 ∷ 58 ∷ 47 ∷ 47 ∷ addr
show_url (tcp_url v6_only addr) = 116 ∷ 99 ∷ 112 ∷ 54 ∷ 58 ∷ 47 ∷ 47 ∷ addr
show_url (udp_url v6_only addr) = 117 ∷ 100 ∷ 112 ∷ 54 ∷ 58 ∷ 47 ∷ 47 ∷ addr

-- A url of any scheme is read as the port it was written for, with all that stands behind the
-- scheme as its address.
pub parse_url-show_url : (u : RawUrl) → parse_url (show_url u) ≡ some u
unfolding parse_url by_scheme bytes_eq split_scheme starts_with
parse_url-show_url (serial_url port) = refl
parse_url-show_url (tcp_url either addr) = refl
parse_url-show_url (udp_url either addr) = refl
parse_url-show_url (tcp_url v4_only addr) = refl
parse_url-show_url (udp_url v4_only addr) = refl
parse_url-show_url (tcp_url v6_only addr) = refl
parse_url-show_url (udp_url v6_only addr) = refl
