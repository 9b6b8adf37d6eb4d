-- ===== src/Cli/Args/Hosts.antt =====
-- The host of a target URL.
use proxypen.Base.{ℕ, List, ◌∷◌, ◌≡◌, refl, Bool, none, some, ok, codes, if◌then◌else◌}
use proxypen.Net.Brackets.{parse_ip-bracket}
use proxypen.Config.{TestTarget, SocksAddrs, to_socks_addr}
use proxypen.Cli.Args.{Url, UrlParser, same_text, unwrap_or, parse_target_url}

-- A URL whose host is an IPv6 address has it in brackets, as the url crate gives it. From any such URL comes a target
-- that the proxy is asked for by the bracketed name, as if it were a domain.
pub parse_target_url-bracket :
    (q : SocksAddrs) (parse : UrlParser) (raw : List ℕ) (insecure : Bool) (u : Url) (s : List ℕ)
    → parse raw ≡ ok u
    → u.host_str ≡ some (b'[' ∷ s)
    → (t : TestTarget) × (parse_target_url parse raw insecure ≡ ok t)
      × (to_socks_addr q t ≡ q.from_domain (b'[' ∷ s) t.port)
unfolding parse_target_url to_socks_addr
parse_target_url-bracket q parse raw insecure u s h k = (
  record {
    host = b'[' ∷ s;
    port = unwrap_or u.port (if same_text u.scheme (codes "https") then 443 else 80);
    path = u.path;
    use_tls = same_text u.scheme (codes "https");
    resolved_addr = none;
    danger_accept_invalid_certs = insecure;
  },
  rw (h, k) refl,
  rw (parse_ip-bracket s, to_socks_addr) refl,
)
