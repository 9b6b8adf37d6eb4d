-- ===== src/Net/Runs.antt =====
-- The parsers on texts of the repository's tests and of std's documentation.
use proxypen.Base.{◌≡◌, refl, none, some, [], ◌∷◌, codes}
use proxypen.Net.{v4, v6, parse_ip, parse_socket}

parse_ip_v4 : parse_ip (codes "1.2.3.4") ≡ some (v4 1 2 3 4)
unfolding parse_ip
parse_ip_v4 = refl

parse_ip_leading_zero : parse_ip (codes "127.0.0.01") ≡ none
unfolding parse_ip
parse_ip_leading_zero = refl

parse_ip_v6 :
    parse_ip (codes "2a02:6b8::11:11")
    ≡ some (v6 (0x2a02 ∷ 0x6b8 ∷ 0 ∷ 0 ∷ 0 ∷ 0 ∷ 0x11 ∷ 0x11 ∷ []))
unfolding parse_ip
parse_ip_v6 = refl

parse_ip_mapped :
    parse_ip (codes "::ffff:192.0.2.33")
    ≡ some (v6 (0 ∷ 0 ∷ 0 ∷ 0 ∷ 0 ∷ 0xffff ∷ 0xc000 ∷ 0x221 ∷ []))
unfolding parse_ip
parse_ip_mapped = refl

parse_ip_host : parse_ip (codes "dns.example.com") ≡ none
unfolding parse_ip
parse_ip_host = refl

parse_socket_v4 :
    parse_socket (codes "1.2.3.4:5353") ≡ some (record { ip = v4 1 2 3 4; port = 5353 })
unfolding parse_socket
parse_socket_v4 = refl

parse_socket_v6 :
    parse_socket (codes "[::1]:80")
    ≡ some (record { ip = v6 (0 ∷ 0 ∷ 0 ∷ 0 ∷ 0 ∷ 0 ∷ 0 ∷ 1 ∷ []); port = 80 })
unfolding parse_socket
parse_socket_v6 = refl
