-- ===== src/Config/Destination.antt =====
-- The two ways that the code finds a target: src/config.rs through the proxy, src/direct.rs without one.
use proxypen.Base.{
  ℕ, List, ◌∷◌, ◌≡◌, ◌⊎◌, inl, inr, refl, none, some, arith, Option-cases, Outcome, ok,
}
use proxypen.Error.{IoError}
use proxypen.Net.{IpAddr, SocketAddr, parse_ip}
use proxypen.Config.{TestTarget, SocksAddrs, to_socks_addr, resolve_local, host_port}
use proxypen.Direct.{resolve_target}

abbrev pub at_port : IpAddr → ℕ → SocketAddr
at_port ip port = record { ip = ip; port = port }

-- For every target: either both ways take the same literal address at the target's port, whatever the
-- system's resolver says, or the proxy is given the host's name and the target's port, and the host is no
-- literal address and has not been resolved.
pub to_socks_addr-resolve_target :
    (q : SocksAddrs) (lookup_host : List ℕ → Outcome IoError (List SocketAddr)) (t : TestTarget)
    → ((ip : IpAddr) × (to_socks_addr q t ≡ q.from_socket (at_port ip t.port))
        × (resolve_target lookup_host t ≡ ok (at_port ip t.port)))
      ⊎ ((to_socks_addr q t ≡ q.from_domain t.host t.port)
          × (t.resolved_addr ≡ none)
          × (parse_ip t.host ≡ none))
unfolding to_socks_addr resolve_target
to_socks_addr-resolve_target q lookup_host t = elim (Option-cases t.resolved_addr) [
  | inr (ip, e) ↦ inl (ip, ground (arith, e), ground (arith, e))
  | inl e ↦ elim (Option-cases (parse_ip t.host)) [
    | inr (ip, f) ↦ inl (ip, ground (arith, e, f), ground (arith, e, f))
    | inl f ↦ inr (ground (arith, e, f), e, f)
  ]
]

-- A host that is resolved locally with success is given to the proxy as the first address found, at the
-- target's port.
pub to_socks_addr-resolve_local :
    (q : SocksAddrs) (lookup_host : List ℕ → Outcome IoError (List SocketAddr)) (t : TestTarget)
    (a : SocketAddr) (more : List SocketAddr)
    → parse_ip t.host ≡ none
    → lookup_host (host_port t.host t.port) ≡ ok (a ∷ more)
    → (t' : TestTarget) × (resolve_local lookup_host t ≡ ok t')
      × (to_socks_addr q t' ≡ q.from_socket (at_port a.ip t.port))
unfolding to_socks_addr resolve_local
to_socks_addr-resolve_local q lookup_host t a more h k =
    (record t { resolved_addr = some a.ip }, ground (arith, h, k), refl)
