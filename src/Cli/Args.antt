-- ===== src/Cli/Args.antt =====
-- src/main.rs: the flags and their parsers.
pub mod HostPort
pub mod Hosts
pub mod Ends
use proxypen.Base.{
  ℕ, List, [], ◌∷◌, ◌++◌, String, Bool, true, false, Option, none, some, ◌&&◌, ◌||◌, not, length,
  ◌==◌, if◌then◌else◌, codes, Outcome, ok, err, panic, stuck, ◌>>=◌, map_err, ok_or,
}
use proxypen.Base.Decimal.{parse_u16}
use proxypen.Error.{IoError, ProxyPenError}
use proxypen.Net.{IpAddr, SocketAddr, parse_socket}
use proxypen.Config.{ProxyAuth, ProxyConfig, TestTarget, host_port}
use proxypen.Direct.{DirectConfig, InterfaceSpec, parse_interface}
use proxypen.Dns.{DnsConfig, parse_server}
use proxypen.Bench.Client.{BenchError}
use proxypen.Transport.{Transport, socks5, direct}

-- An `anyhow::Error`: a message of the file, without what `format!` puts into it, or an error of a callee.
pub data CliError : Type 0 where
  message : String → CliError
  url : String → CliError
  pen : ProxyPenError → CliError
  io : IoError → CliError
  bench : BenchError → CliError

-- `Url` of the url crate, as far as its getters are used. The port is `none` where it is the scheme's default.
pub record Url : Type 0 where
  pub scheme : List ℕ
  pub username : List ℕ
  pub password : Option (List ℕ)
  pub host_str : Option (List ℕ)
  pub port : Option ℕ
  pub path : List ℕ

-- `Url::parse`
abbrev pub UrlParser : Type 0
UrlParser = List ℕ → Outcome String Url

pub record TransportArgs : Type 0 where
  pub proxy : Option (List ℕ)
  pub interface : Option (List ℕ)
  pub dns_server : Option (List ℕ)

starts_with : List ℕ → List ℕ → Bool
starts_with s [] = true
starts_with [] (p ∷ ps) = false
starts_with (x ∷ s) (p ∷ ps) = x == p && starts_with s ps

-- `str::contains`
contains : List ℕ → List ℕ → Bool
unfolding starts_with
contains [] p = starts_with [] p
contains (x ∷ s) p = starts_with (x ∷ s) p || contains s p

-- `==` of two texts
same_text : List ℕ → List ℕ → Bool
same_text [] [] = true
same_text (x ∷ xs) (y ∷ ys) = x == y && same_text xs ys
same_text _ _ = false

abbrev pub unwrap_or {ℓ} : {A : Type ℓ} → Option A → A → A
unwrap_or none d = d
unwrap_or (some a) d = a

unfoldable pub parse_proxy_url : UrlParser → List ℕ → Outcome CliError ProxyConfig
unfolding contains
parse_proxy_url parse raw = do
  let url_str = if contains raw (codes "://") then raw else codes "socks5://" ++ raw
  u ← map_err url (parse url_str)
  host ← ok_or u.host_str (message "proxy URL missing host")
  let port = unwrap_or u.port 1080
  let addr = host_port host port
  let auth : Option ProxyAuth =
      if not (length u.username == 0)
      then some (record { username = u.username; password = unwrap_or u.password [] })
      else none
  ok (record { addr = addr; auth = auth })

unfoldable pub parse_target_url : UrlParser → List ℕ → Bool → Outcome CliError TestTarget
unfolding same_text
parse_target_url parse raw insecure = do
  u ← map_err url (parse raw)
  let use_tls = same_text u.scheme (codes "https")
  host ← ok_or u.host_str (message "target URL missing host")
  let port = unwrap_or u.port (if use_tls then 443 else 80)
  ok (record {
    host = host;
    port = port;
    path = u.path;
    use_tls = use_tls;
    resolved_addr = none;
    danger_accept_invalid_certs = insecure;
  })

-- `rsplit_once(c)`
rsplit_once : ℕ → List ℕ → Option (List ℕ × List ℕ)
rsplit_once c [] = none
rsplit_once c (x ∷ s) = elim (rsplit_once c s) [
  | some (front, back) ↦ some (x ∷ front, back)
  | none ↦ if x == c then some ([], s) else none
]

unfoldable pub split_host_port : List ℕ → Outcome CliError (List ℕ × ℕ)
unfolding rsplit_once
split_host_port raw = do
  (host, port) ← ok_or (rsplit_once b':' raw) (message "expected HOST:PORT")
  p ← ok_or (parse_u16 port) (message "invalid port")
  ok (host, p)

abbrev map_interface : Option (List ℕ) → Option InterfaceSpec
map_interface none = none
map_interface (some s) = some (parse_interface s)

-- `build`, by the two flags
choose_transport : UrlParser → Option (List ℕ) → Option (List ℕ) → Outcome CliError Transport
unfolding parse_proxy_url
choose_transport parse (some proxy) (some iface) =
    err (message "--interface is only valid in direct mode (omit --proxy)")
choose_transport parse (some proxy) none = do c ← parse_proxy_url parse proxy; ok (socks5 c)
choose_transport parse none iface = ok (direct (record { interface = map_interface iface }))

unfoldable pub build : UrlParser → TransportArgs → Outcome CliError Transport
unfolding choose_transport
build parse args = choose_transport parse args.proxy args.interface

unfoldable pub build_dns : TransportArgs → Outcome CliError (Option DnsConfig)
build_dns args = elim args.dns_server [
  | none ↦ ok none
  | some s ↦ do server ← map_err pen (parse_server s); ok (some (record { server = server }))
]

abbrev first : List SocketAddr → Option SocketAddr
first [] = none
first (a ∷ rest) = some a

-- `parse_bench_target`, with the resolver over the transport and the system's
unfoldable pub parse_bench_target :
    (DnsConfig → List ℕ → Outcome ProxyPenError IpAddr)
    → (List ℕ → Outcome IoError (List SocketAddr))
    → List ℕ
    → Option DnsConfig
    → Outcome CliError SocketAddr
unfolding split_host_port
parse_bench_target resolve_a lookup_host raw dns = elim (parse_socket raw) [
  | some addr ↦ ok addr
  | none ↦ elim dns [
    | some d ↦ do
      (host, port) ← split_host_port raw
      ip ← map_err pen (resolve_a d host)
      ok (record { ip = ip; port = port })
    | none ↦ do
      found ← map_err io (lookup_host raw)
      ok_or (first found) (message "could not resolve")
  ]
]
