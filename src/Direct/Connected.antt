-- ===== src/Direct/Connected.antt =====
-- The connections of src/direct.rs, on every platform, whatever the operating system answers.
use proxypen.Base.{
  Bool, true, false, ◌≡◌, refl, List, ℕ, Option, none, some, Outcome, ok, Any, Ensures, Ensures-ok,
  Ensures-err, Ensures-bind, Ensures-mono, Ensures-map_err, Ensures-itself, Ensures-ok_or,
  Ensures-if, Option-cases, inl, inr,
}
use proxypen.Error.{IoError, io}
use proxypen.Net.{SocketAddr, parse_ip, is_ipv6}
use proxypen.Config.{TestTarget, host_port}
use proxypen.Direct.{
  InterfaceSpec, name, address, Platform, Socket, System, Call, create, fresh, is_unix,
  resolve_target, apply_interface, bound_socket, connect_from, connect_tcp,
}
use proxypen.Direct.Sockets.{
  Answers, device_of, names_devices, after_call, bind_by_name-Ensures, bind_source-Ensures,
}

unfoldable pub source_of : Option InterfaceSpec → Option SocketAddr
source_of none = none
source_of (some (name n)) = none
source_of (some (address ip)) = some (record { ip = ip; port = 0 })

-- The choices of an interface that a platform takes
unfoldable pub is_supported : Platform → Option InterfaceSpec → Bool
is_supported p none = true
is_supported p (some (name n)) = names_devices p
is_supported p (some (address ip)) = is_unix p

-- A connection to an address by way of an interface
pub record IsTcpFor (p : Platform) (iface : Option InterfaceSpec) (addr : SocketAddr) (s : Socket)
    : Type 0 where
  pub supported : is_supported p iface ≡ true
  pub family : s.ipv6 ≡ is_ipv6 addr
  pub datagrams : s.datagrams ≡ false
  pub bound : s.bound ≡ source_of iface
  pub device : s.device ≡ device_of iface
  pub nonblocking : s.nonblocking ≡ true
  pub peer : s.peer ≡ some addr
  pub nodelay : s.nodelay ≡ true

pub resolve_target-Any :
    (lookup_host : List ℕ → Outcome IoError (List SocketAddr)) (t : TestTarget)
    → Ensures Any (lookup_host (host_port t.host t.port))
    → Ensures Any (resolve_target lookup_host t)
unfolding resolve_target
resolve_target-Any lookup_host t h = elim (Option-cases t.resolved_addr) [
  | inr (ip, e) ↦ rw (e, resolve_target) (Ensures-ok tt)
  | inl e ↦ elim (Option-cases (parse_ip t.host)) [
    | inr (ip, f) ↦ rw (e, f, resolve_target) (Ensures-ok tt)
    | inl f ↦
        rw (e, f, resolve_target)
          (Ensures-bind _ _ (Ensures-map_err io _ h) λ found _. Ensures-ok_or _ _)
  ]
]

module _ (os : System) (answers : Answers os) where
  connect_from-IsTcpFor :
      (s : Socket) (addr : SocketAddr) (iface : Option InterfaceSpec)
      → is_supported os.platform iface ≡ true
      → s
        ≡ record (fresh (is_ipv6 addr) false) { bound = source_of iface; device = device_of iface }
      → Ensures (IsTcpFor os.platform iface addr) (connect_from os s addr)
  unfolding connect_from
  connect_from-IsTcpFor s addr iface h e = after_call os answers io (Call.connect addr) _ (
      after_call os answers io Call.set_nodelay _ (
        Ensures-ok (
          rw e (record {
            supported = h;
            family = refl;
            datagrams = refl;
            bound = refl;
            device = refl;
            nonblocking = refl;
            peer = refl;
            nodelay = refl;
          }))))

  Chosen : Bool → InterfaceSpec → Socket → Type 0
  Chosen v6 iface r =
      (is_supported os.platform (some iface) ≡ true)
      × (r ≡ record (fresh v6 false) {
        bound = source_of (some iface);
        device = device_of (some iface);
      })

  apply_interface-Ensures :
      (iface : InterfaceSpec) (v6 : Bool)
      → is_unix os.platform ≡ true
      → Ensures (Chosen v6 iface) (apply_interface os (fresh v6 false) iface v6)
  unfolding Chosen apply_interface source_of device_of is_supported
  apply_interface-Ensures (address ip) v6 u =
      rw u (Ensures-mono _ (λ r e. (u, e)) (bind_source-Ensures os answers (fresh v6 false) ip _))
  apply_interface-Ensures (name n) v6 u =
      rw u (
        Ensures-mono _ (λ r (e, h). (h, e)) (bind_by_name-Ensures os answers (fresh v6 false) n v6))

  bound_socket-Ensures :
      (iface : InterfaceSpec) (v6 : Bool)
      → is_unix os.platform ≡ true
      → Ensures (Chosen v6 iface) (bound_socket os iface v6)
  unfolding bound_socket
  bound_socket-Ensures iface v6 u = after_call os answers io (create v6 false) _ (
      Ensures-bind _ _ (apply_interface-Ensures iface v6 u)
        λ s h. after_call os answers io Call.set_nonblocking _ (Ensures-ok h))

  -- On every platform, if the system answers every call and the lookup of the target's name, then
  -- connecting comes back. What it gives is a non-blocking stream without delay to the address that the
  -- target resolves to, of its family, bound to the chosen source address and device and to no other;
  -- and the platform takes such a choice: no interface on a system other than Unix, and no device by
  -- name on a Unix other than Linux, macOS and iOS.
  pub connect_tcp-IsTcpFor :
      (lookup_host : List ℕ → Outcome IoError (List SocketAddr)) (t : TestTarget)
      (iface : Option InterfaceSpec)
      → Ensures Any (lookup_host (host_port t.host t.port))
      → Ensures
          (λ s.
            (addr : SocketAddr) × (resolve_target lookup_host t ≡ ok addr)
            × IsTcpFor os.platform iface addr s)
          (connect_tcp os lookup_host t iface)
  unfolding connect_tcp Chosen is_supported source_of device_of
  connect_tcp-IsTcpFor lookup_host t none h =
      Ensures-bind _ _ (Ensures-itself _ (resolve_target-Any lookup_host t h)) λ addr e.
        Ensures-mono _ (λ s k. (addr, e, k))
          (connect_from-IsTcpFor (fresh (is_ipv6 addr) false) addr none refl refl)
  connect_tcp-IsTcpFor lookup_host t (some iface) h =
      Ensures-bind _ _ (Ensures-itself _ (resolve_target-Any lookup_host t h)) λ addr e.
        Ensures-if (is_unix os.platform) _ _
          (λ u. Ensures-bind _ _ (bound_socket-Ensures iface (is_ipv6 addr) u) λ s (k, eq).
            Ensures-mono _ (λ s k. (addr, e, k)) (connect_from-IsTcpFor s addr (some iface) k eq))
          λ _. Ensures-err
