-- ===== src/Config/Runs.antt =====
-- Targets of src/config.rs: a name, a literal address.
use proxypen.Base.{
  ℕ, List, [], ◌∷◌, ◌≡◌, ◌⊎◌, refl, Bool, true, false, Option, none, some, Outcome, ok, err, codes,
}
use proxypen.Net.{IpAddr, v4, v6, parse_ip}
use proxypen.UdpSocket.{SocksAddr, domain, AddrOrDomain}
use proxypen.UdpSocket
use proxypen.Config.{TestTarget, SocksAddrs, to_socks_addr, authority}

octets : IpAddr → AddrOrDomain
octets (v4 a b c d) = UdpSocket.v4 (a ∷ b ∷ c ∷ d ∷ [])
octets (v6 segments) = UdpSocket.v6 segments

abbrev addrs : SocksAddrs
addrs = record {
  from_socket = λ a. record { addr = octets a.ip; port = a.port };
  from_domain = λ n port. record { addr = domain (record { len = 11; contents = n }); port = port };
}

abbrev target : TestTarget
target = record {
  host = codes "example.com";
  port = 8443;
  path = codes "/";
  use_tls = true;
  resolved_addr = none;
  danger_accept_invalid_certs = false;
}

named : to_socks_addr addrs target ≡ addrs.from_domain target.host target.port
unfolding to_socks_addr parse_ip
named = refl

not_literal : parse_ip target.host ≡ none
unfolding parse_ip
not_literal = refl

authority_port : authority target ≡ codes "example.com:8443"
unfolding authority proxypen.Base.Decimal.decimal
authority_port = refl
