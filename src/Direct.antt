-- ===== src/Direct.antt =====
-- src/direct.rs, as it is built for each platform: connections without a proxy. What the operating system answers to
-- each call is an argument.
pub mod Sockets
pub mod Connected
mod Runs
use proxypen.Base.{
  not, ◌&&◌, ◌==◌, String, ℕ, List, [], ◌∷◌, Bool, true, false, Option, none, some, codes, Outcome,
  ok, err, panic, ◌>>=◌, ◌>>◌, map_err, if◌then◌else◌, ok_or,
}
use proxypen.Error.{IoError, ProxyPenError, io, invalid_config}
use proxypen.Net.{IpAddr, SocketAddr, parse_ip, parse_socket, is_ipv6}
use proxypen.Config.{TestTarget, host_port}

pub data InterfaceSpec : Type 0 where
  name : List ℕ → InterfaceSpec
  address : IpAddr → InterfaceSpec

unfoldable pub parse_interface : List ℕ → InterfaceSpec
parse_interface s = elim (parse_ip s) [ some ip ↦ address ip | none ↦ name s ]

pub record DirectConfig : Type 0 where
  pub interface : Option InterfaceSpec

abbrev first : List SocketAddr → Option SocketAddr
first [] = none
first (a ∷ rest) = some a

unfoldable pub resolve_target :
    (List ℕ → Outcome IoError (List SocketAddr)) → TestTarget → Outcome ProxyPenError SocketAddr
resolve_target lookup_host t = elim t.resolved_addr [
  | some ip ↦ ok (record { ip = ip; port = t.port })
  | none ↦ elim (parse_ip t.host) [
    | some ip ↦ ok (record { ip = ip; port = t.port })
    | none ↦ do
      found ← map_err io (lookup_host (host_port t.host t.port))
      ok_or (first found) (invalid_config "DNS lookup returned no addresses")
  ]
]

-- The calls on a socket.
pub data Call : Type 0 where
  -- `Socket::new`: for IPv6, for datagrams
  create : Bool → Bool → Call
  bind : SocketAddr → Call
  bind_device : List ℕ → Call
  -- `bind_device_by_index_v6` or `_v4`
  bind_device_by_index : Bool → ℕ → Call
  set_nonblocking : Call
  connect : SocketAddr → Call
  set_nodelay : Call

-- What the code is built for: `apple` is macOS and iOS, `unix` any other Unix than Linux, `other` any other system.
pub data Platform : Type 0 where
  linux apple unix other : Platform

pub record System : Type 0 where
  pub platform : Platform
  pub call : Call → Outcome IoError (Unit {0})
  -- 0 for an interface that there is not
  pub if_nametoindex : List ℕ → ℕ

-- What the calls have made of a socket.
pub record Socket : Type 0 where
  pub ipv6 : Bool
  pub datagrams : Bool
  pub bound : Option SocketAddr
  pub device : Option (List ℕ)
  pub nonblocking : Bool
  pub peer : Option SocketAddr
  pub nodelay : Bool

abbrev pub fresh : Bool → Bool → Socket
fresh v6 datagrams = record {
  ipv6 = v6;
  datagrams = datagrams;
  bound = none;
  device = none;
  nonblocking = false;
  peer = none;
  nodelay = false;
}

-- `CString::new` refuses a text with a zero byte.
is_c_string : List ℕ → Bool
is_c_string [] = true
is_c_string (b ∷ bs) = not (b == 0) && is_c_string bs

bind_by_index : System → Socket → List ℕ → Bool → Outcome ProxyPenError Socket
unfolding is_c_string
bind_by_index os s n v6 =
    if not (is_c_string n)
    then err (invalid_config "invalid interface name")
    else if os.if_nametoindex n == 0
    then err (invalid_config "unknown interface")
    else (do
      map_err (λ _. invalid_config "bind to interface")
          (os.call (bind_device_by_index v6 (os.if_nametoindex n)))
      ok (record s { device = some n }))

bind_device_name : System → Socket → List ℕ → Outcome ProxyPenError Socket
bind_device_name os s n = do
  map_err (λ _. invalid_config "bind to interface") (os.call (bind_device n))
  ok (record s { device = some n })

-- `other` has no such function: this is the error that `build_udp_socket` gives there in its place.
unfoldable pub bind_by_name : System → Socket → List ℕ → Bool → Outcome ProxyPenError Socket
unfolding bind_by_index bind_device_name
bind_by_name os s n v6 = elim os.platform [
  | linux ↦ bind_device_name os s n
  | apple ↦ bind_by_index os s n v6
  | unix ↦ err (invalid_config "interface name binding not supported on this platform")
  | other ↦ err (invalid_config "--interface is not supported on this platform")
]

unfoldable pub bind_source : System → Socket → IpAddr → String → Outcome ProxyPenError Socket
bind_source os s ip message = do
  map_err (λ _. invalid_config message) (os.call (bind (record { ip = ip; port = 0 })))
  ok (record s { bound = some (record { ip = ip; port = 0 }) })

unfoldable pub is_unix : Platform → Bool
is_unix p = elim p [ linux ↦ true | apple ↦ true | unix ↦ true | other ↦ false ]

unfoldable pub apply_interface :
    System → Socket → InterfaceSpec → Bool → Outcome ProxyPenError Socket
unfolding bind_source is_unix
apply_interface os s iface v6 =
    if is_unix os.platform
    then elim iface [
      | address ip ↦ bind_source os s ip "bind to source IP"
      | name n ↦ bind_by_name os s n v6
    ]
    else err (invalid_config "--interface is not supported on this platform")

-- `parse().unwrap()`
abbrev unwrap {ℓ} : {E : Type 0} {A : Type ℓ} → Option A → Outcome E A
unwrap none = panic
unwrap (some a) = ok a

unfoldable pub wildcard_addr : Bool → Outcome ProxyPenError SocketAddr
wildcard_addr ipv6 =
    if ipv6
    then unwrap (parse_socket (codes "[::]:0"))
    else unwrap (parse_socket (codes "0.0.0.0:0"))

bind_wildcard : System → Socket → Bool → Outcome ProxyPenError Socket
unfolding wildcard_addr
bind_wildcard os s v6 = do
  any ← wildcard_addr v6
  map_err io (os.call (bind any))
  ok (record s { bound = some any })

bind_udp : System → Socket → Bool → Option InterfaceSpec → Outcome ProxyPenError Socket
unfolding bind_wildcard bind_source
bind_udp os s v6 (some (address ip)) = bind_source os s ip "bind UDP to source IP"
bind_udp os s v6 (some (name n)) = do s' ← bind_by_name os s n v6; bind_wildcard os s' v6
bind_udp os s v6 none = bind_wildcard os s v6

unfoldable pub build_udp_socket :
    System → Bool → Option InterfaceSpec → Outcome ProxyPenError Socket
unfolding bind_udp
build_udp_socket os v6 iface = do
  map_err io (os.call (create v6 true))
  s ← bind_udp os (fresh v6 true) v6 iface
  map_err io (os.call set_nonblocking)
  ok (record s { nonblocking = true })

unfoldable pub connect_from : System → Socket → SocketAddr → Outcome ProxyPenError Socket
connect_from os s addr = do
  map_err io (os.call (connect addr))
  map_err io (os.call set_nodelay)
  ok (record s { peer = some addr; nodelay = true; nonblocking = true })

unfoldable pub bound_socket : System → InterfaceSpec → Bool → Outcome ProxyPenError Socket
unfolding apply_interface
bound_socket os iface v6 = do
  map_err io (os.call (create v6 false))
  s ← apply_interface os (fresh v6 false) iface v6
  map_err io (os.call set_nonblocking)
  ok s

-- Tokio's `TcpStream::connect` makes a non-blocking socket by itself.
unfoldable pub connect_tcp :
    System
    → (List ℕ → Outcome IoError (List SocketAddr))
    → TestTarget
    → Option InterfaceSpec
    → Outcome ProxyPenError Socket
unfolding connect_from bound_socket is_unix
connect_tcp os lookup_host t none = do
  addr ← resolve_target lookup_host t
  connect_from os (fresh (is_ipv6 addr) false) addr
connect_tcp os lookup_host t (some iface) = do
  addr ← resolve_target lookup_host t
  (if is_unix os.platform
      then (bound_socket os iface (is_ipv6 addr) >>= λ s. connect_from os s addr)
      else err (invalid_config "--interface requires a unix-like OS"))
