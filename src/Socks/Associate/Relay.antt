-- ===== src/Socks/Associate/Relay.antt =====
-- Where the datagrams of an association go (src/socks/associate.rs).
use proxypen.Base.{List, ◌∷◌, ◌≡◌, refl, true, false, ◌⊎◌, inl, inr, Bool-cases, ok, ◌>>=◌}
use proxypen.Net.{SocketAddr}
use proxypen.Config.{ProxyConfig}
use proxypen.Socks.Handshake.{CmdReply}
use proxypen.Socks.Associate.{Network, is_unspecified, proxy_addr, relay_of}

-- Let the reply's address resolve to `a` first. Then the relay is at `a`'s port; its IP is `a`'s where that is
-- specified, and otherwise the proxy's own, if that is found.
pub relay_of-resolve :
    (net : Network) (config : ProxyConfig) (reply : CmdReply) (a : SocketAddr)
    (more : List SocketAddr)
    → net.resolve reply.bind_addr ≡ ok (a ∷ more)
    → ((is_unspecified a.ip ≡ false) × (relay_of net config reply ≡ ok a))
      ⊎ ((is_unspecified a.ip ≡ true)
          × (relay_of net config reply
              ≡ (proxy_addr net config.addr >>= λ p. ok (record { ip = p.ip; port = a.port }))))
unfolding relay_of
relay_of-resolve net config reply a more h = elim (Bool-cases (is_unspecified a.ip)) [
  | inl e ↦ inr (e, rw (h, e) refl)
  | inr e ↦ inl (e, rw (h, e) refl)
]
