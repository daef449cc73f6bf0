-- ===== src/Port/Url/Tests.antt =====
-- Urls as they are read.
use twinleaf_rust.Shared.{ℕ, ◌≡◌, refl, [], ◌∷◌, ok, some}
use twinleaf_rust.Port.Url
use twinleaf_rust.Port.Url.{v4, v6, v6_only, find_addr, RawUrl, serial_url, parse_url, parse_serial}
use twinleaf_rust.Port.Url.Schemes.{parse_url-show_url}

-- "/dev/t" needs no scheme.
device_file :
    parse_url (47 ∷ 100 ∷ 101 ∷ 118 ∷ 47 ∷ 116 ∷ [])
    ≡ some (serial_url (47 ∷ 100 ∷ 101 ∷ 118 ∷ 47 ∷ 116 ∷ []))
unfolding parse_url Url.starts_with
device_file = refl

-- "COM3:400" keeps the default rate to fall back to.
rate_given :
    parse_serial (67 ∷ 79 ∷ 77 ∷ 51 ∷ 58 ∷ 52 ∷ 48 ∷ 48 ∷ [])
    ≡ ok (67 ∷ 79 ∷ 77 ∷ 51 ∷ [], record { default_bps = 115200; target_bps = 400 })
unfolding parse_serial Url.split_colon Url.serial_settings Url.rate_or_error Url.parse_u32
    Url.read_u32
rate_given = refl

-- An address of the other family is passed over.
second_found : find_addr {A = ℕ} (λ name. ok (v4 1 ∷ v6 2 ∷ [])) [] v6_only ≡ ok (v6 2)
unfolding find_addr Url.resolved Url.first_allowed Url.is_allowed
second_found = refl

parse_url-show_url_example :
    parse_url (117 ∷ 100 ∷ 112 ∷ 54 ∷ 58 ∷ 47 ∷ 47 ∷ 97 ∷ []) ≡ some (Url.udp_url v6_only (97 ∷ []))
parse_url-show_url_example = parse_url-show_url (Url.udp_url v6_only (97 ∷ []))
