-- ===== src/Cli/Resolve/Names.antt =====
-- With a DNS server the target's name stays here.
use proxypen.Base.{
  ℕ, List, ◌≡◌, refl, Bool, Option-cases, none, some, inl, inr, arith, Outcome, ok, map_err,
  Returns, Ensures, Ensures-ok, Ensures-bind, Ensures-map_err, Returns-Ensures,
}
use proxypen.Error.{IoError, ProxyPenError}
use proxypen.Net.{IpAddr, SocketAddr, parse_ip}
use proxypen.Config.{TestTarget, SocksAddrs, to_socks_addr}
use proxypen.Config.Destination.{at_port}
use proxypen.Direct.{resolve_target}
use proxypen.Dns.{DnsConfig}
use proxypen.Cli.Args.{pen}
use proxypen.Cli.Resolve.{resolve}

-- The target is found without a name, over the proxy and without one, whatever the system's resolver would say.
pub record IsNameless (q : SocksAddrs) (t : TestTarget) : Type 0 where
  pub ip : IpAddr
  pub proxied : to_socks_addr q t ≡ q.from_socket (at_port ip t.port)
  pub direct :
      (lookup_host : List ℕ → Outcome IoError (List SocketAddr))
      → resolve_target lookup_host t ≡ ok (at_port ip t.port)

literal-IsNameless :
    (q : SocksAddrs) (t : TestTarget) (ip : IpAddr)
    → t.resolved_addr ≡ none
    → parse_ip t.host ≡ some ip
    → IsNameless q t
unfolding to_socks_addr resolve_target
literal-IsNameless q t ip e f = record {
  ip = ip;
  proxied = ground (arith, e, f);
  direct = λ lookup_host. ground (arith, e, f);
}

-- With `--dns-server`, if the resolver over the transport comes back, then this does, with an error or with a target
-- that neither the proxy nor the system's resolver is given the name of. The host and the port are the target's.
pub resolve-IsNameless :
    (q : SocksAddrs) (resolve_a : DnsConfig → List ℕ → Outcome ProxyPenError IpAddr)
    (lookup_host : List ℕ → Outcome IoError (List SocketAddr)) (dns : DnsConfig) (flag : Bool)
    (t : TestTarget)
    → t.resolved_addr ≡ none
    → Returns (resolve_a dns t.host)
    → Ensures
        (λ t'. IsNameless q t' × (t'.host ≡ t.host) × (t'.port ≡ t.port))
        (resolve resolve_a lookup_host (some dns) flag t)
unfolding resolve
resolve-IsNameless q resolve_a lookup_host dns flag t e r = elim (Option-cases (parse_ip t.host)) [
  | inr (ip, f) ↦ rw (f, resolve) (Ensures-ok (literal-IsNameless q t ip e f, refl, refl))
  | inl f ↦
      rw (f, resolve)
        (Ensures-bind (map_err pen (resolve_a dns t.host)) _
          (Ensures-map_err pen _ (Returns-Ensures _ r))
          λ ip _. Ensures-ok (
            record {
              ip = ip;
              proxied = unfold to_socks_addr in refl;
              direct = λ lookup_host'. unfold resolve_target in refl;
            },
            refl,
            refl,
          ))
]
