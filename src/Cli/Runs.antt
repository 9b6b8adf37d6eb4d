-- ===== src/Cli/Runs.antt =====
-- A command line with a DNS server, and its parsers.
use proxypen.Base.{
  ℕ, List, [], ◌∷◌, ◌≡◌, refl, true, false, none, some, codes, Outcome, ok, err, Ensures, arith,
}
use proxypen.Base.Decimal
use proxypen.Error.{IoError, ProxyPenError}
use proxypen.Net.{IpAddr, SocketAddr, v4}
use proxypen.Config.{TestTarget, to_socks_addr, host_port}
use proxypen.Dns.{DnsConfig}
use proxypen.ProxyPen.Samples.{addrs, found}
use proxypen.Cli.Samples.{loopback, parse_url, decimals}
use proxypen.Cli.Args.{message, parse_target_url, split_host_port}
use proxypen.Cli.Args.HostPort.{split_host_port-host_port}
use proxypen.Cli.Args.Hosts.{parse_target_url-bracket}
use proxypen.Cli.Resolve.{resolve}
use proxypen.Cli.Resolve.Names.{IsNameless, resolve-IsNameless}
use proxypen.Bench.Client.Bandwidth.{parse_bandwidth_list}
use proxypen.Base.Decimal.{parse_u16}

split_host_port-host_port_example :
    split_host_port (host_port (codes "::1") 5201) ≡ ok (codes "::1", 5201)
split_host_port-host_port_example = split_host_port-host_port (codes "::1") 5201 (omega arith)

parse_target_url-bracket_example :
    (t : TestTarget) × (parse_target_url parse_url (codes "https://[::1]/") false ≡ ok t)
    × (to_socks_addr addrs t ≡ addrs.from_domain (codes "[::1]") t.port)
parse_target_url-bracket_example =
    parse_target_url-bracket addrs parse_url (codes "https://[::1]/") false loopback (codes "::1]")
      refl refl

abbrev resolve_a : DnsConfig → List ℕ → Outcome ProxyPenError IpAddr
resolve_a dns host = ok (v4 93 184 216 34)

abbrev dns : DnsConfig
dns = record { server = record { ip = v4 9 9 9 9; port = 53 } }

abbrev target : TestTarget
target = record {
  host = codes "example.com";
  port = 443;
  path = [];
  use_tls = true;
  resolved_addr = none;
  danger_accept_invalid_certs = false;
}

abbrev lookup_host : List ℕ → Outcome IoError (List SocketAddr)
lookup_host s = ok (found ∷ [])

resolve-IsNameless_example :
    Ensures
      (λ t'. IsNameless addrs t' × (t'.host ≡ target.host) × (t'.port ≡ target.port))
      (resolve resolve_a lookup_host (some dns) false target)
resolve-IsNameless_example = resolve-IsNameless addrs resolve_a lookup_host dns false target refl tt

bandwidths : parse_bandwidth_list decimals (codes "5M , 2k,7") ≡ ok (5000000 ∷ 2000 ∷ 7 ∷ [])
unfolding parse_bandwidth_list Decimal.parse_u16
bandwidths = refl

missing_port : split_host_port (codes "example.com") ≡ err (message "expected HOST:PORT")
unfolding split_host_port
missing_port = refl

bad_port : split_host_port (codes "example.com:65536") ≡ err (message "invalid port")
unfolding split_host_port Decimal.parse_u16
bad_port = refl
