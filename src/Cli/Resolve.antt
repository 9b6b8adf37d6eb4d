-- ===== src/Cli/Resolve.antt =====
-- src/main.rs: how `run_test` and `run_press` find the target's address before the tests.
pub mod Names
use proxypen.Base.{
  ℕ, List, Bool, true, false, Option, none, some, Outcome, ok, err, panic, stuck, ◌>>=◌, map_err,
  if◌then◌else◌,
}
use proxypen.Error.{IoError, ProxyPenError}
use proxypen.Net.{IpAddr, SocketAddr, parse_ip}
use proxypen.Config.{TestTarget, resolve_local}
use proxypen.Dns.{DnsConfig}
use proxypen.Cli.Args.{CliError, pen, io}

-- `if let Some(dns) = &dns_cfg { .. } else if args.resolve { .. }`, with the resolver over the transport and the
-- system's
unfoldable pub resolve :
    (DnsConfig → List ℕ → Outcome ProxyPenError IpAddr)
    → (List ℕ → Outcome IoError (List SocketAddr))
    → Option DnsConfig
    → Bool
    → TestTarget
    → Outcome CliError TestTarget
resolve resolve_a lookup_host (some dns) flag t = elim (parse_ip t.host) [
  | some ip ↦ ok t
  | none ↦ do ip ← map_err pen (resolve_a dns t.host); ok (record t { resolved_addr = some ip })
]
resolve resolve_a lookup_host none true t = map_err io (resolve_local lookup_host t)
resolve resolve_a lookup_host none false t = ok t
