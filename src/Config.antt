-- ===== src/Config.antt =====
-- src/config.rs: the proxy and the target. Texts are their bytes. What shadowquic makes of an address is
-- an argument.
pub mod Destination
mod Runs
use proxypen.Base.{
  ℕ, List, [], ◌∷◌, ◌++◌, Bool, Option, none, some, ◌||◌, ◌==◌, if◌then◌else◌, Outcome, ok, ◌>>=◌,
  err, panic, stuck, length, codes,
}
use proxypen.Base.Decimal.{decimal}
use proxypen.Error.{IoError}
use proxypen.Net.{IpAddr, SocketAddr, parse_ip}
use proxypen.UdpSocket.{SocksAddr}

pub record ProxyAuth : Type 0 where
  pub username : List ℕ
  pub password : List ℕ

pub record ProxyConfig : Type 0 where
  pub addr : List ℕ
  pub auth : Option ProxyAuth

pub record TestTarget : Type 0 where
  pub host : List ℕ
  pub port : ℕ
  pub path : List ℕ
  pub use_tls : Bool
  pub resolved_addr : Option IpAddr
  pub danger_accept_invalid_certs : Bool

-- `SocksAddr::from(SocketAddr)` and `SocksAddr::from_domain` of shadowquic
pub record SocksAddrs : Type 0 where
  pub from_socket : SocketAddr → SocksAddr
  pub from_domain : List ℕ → ℕ → SocksAddr

-- `format!("{}:{}", host, port)`
abbrev pub host_port : List ℕ → ℕ → List ℕ
host_port host port = host ++ (b':' ∷ decimal port)

first_ip : List SocketAddr → Option IpAddr
first_ip [] = none
first_ip (a ∷ rest) = some a.ip

-- `resolve_local`, with the system's `lookup_host`
unfoldable pub resolve_local :
    (List ℕ → Outcome IoError (List SocketAddr)) → TestTarget → Outcome IoError TestTarget
unfolding first_ip
resolve_local lookup_host t = elim (parse_ip t.host) [
  | some ip ↦ ok t
  | none ↦ do
    found ← lookup_host (host_port t.host t.port)
    ok (record t { resolved_addr = first_ip found })
]

unfoldable pub to_socks_addr : SocksAddrs → TestTarget → SocksAddr
to_socks_addr q t = elim t.resolved_addr [
  | some ip ↦ q.from_socket (record { ip = ip; port = t.port })
  | none ↦ elim (parse_ip t.host) [
    | some ip ↦ q.from_socket (record { ip = ip; port = t.port })
    | none ↦ q.from_domain t.host t.port
  ]
]

unfoldable pub authority : TestTarget → List ℕ
authority t = if t.port == 80 || t.port == 443 then t.host else host_port t.host t.port

-- `format!("https://{}{}", target.authority(), path)` of src/http2.rs and src/http3.rs, the path "/" where there is
-- none
unfoldable pub https_uri : TestTarget → List ℕ
unfolding authority
https_uri t =
    codes "https://" ++ (authority t ++ (if length t.path == 0 then codes "/" else t.path))
