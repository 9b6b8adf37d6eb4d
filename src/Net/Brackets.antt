-- ===== src/Net/Brackets.antt =====
-- A literal IPv6 address in the brackets of a URL is none for `str::parse::<IpAddr>`.
use proxypen.Base.{ℕ, List, ◌∷◌, ◌≡◌, refl, none}
use proxypen.Net.{parse_ip}

pub parse_ip-bracket : (s : List ℕ) → parse_ip (b'[' ∷ s) ≡ none
unfolding parse_ip
parse_ip-bracket s = refl
