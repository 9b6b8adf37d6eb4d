-- ===== src/Direct/Runs.antt =====
-- src/direct.rs against systems of several platforms that grant every call, and one that refuses to bind.
use proxypen.Base.{
  ℕ, List, [], ◌∷◌, ◌≡◌, refl, false, none, some, Outcome, ok, err, Ensures, Ensures-ok, codes,
}
use proxypen.Error.{IoError, invalid_config}
use proxypen.Net.{SocketAddr, v4}
use proxypen.Config.{TestTarget}
use proxypen.Direct.{
  name, Platform, linux, apple, unix, System, Call, build_udp_socket, bind_by_name, resolve_target,
  connect_tcp,
}
use proxypen.Direct.Sockets.{Answers, IsUdpFor, build_udp_socket-IsUdpFor}
use proxypen.Direct.Connected.{IsTcpFor, connect_tcp-IsTcpFor}

-- A system that grants every call and has one interface
abbrev grants : Platform → System
grants p = record { platform = p; call = λ c. ok tt; if_nametoindex = λ n. 2 }

grants-Answers : (p : Platform) → Answers (grants p)
grants-Answers p c = Ensures-ok tt

build_udp_socket-IsUdpFor_example :
    Ensures
      (IsUdpFor false (some (name (codes "eth0"))))
      (build_udp_socket (grants linux) false (some (name (codes "eth0"))))
build_udp_socket-IsUdpFor_example =
    build_udp_socket-IsUdpFor (grants linux) (grants-Answers linux) false
      (some (name (codes "eth0")))

abbrev lookup : List ℕ → Outcome IoError (List SocketAddr)
lookup host = ok (record { ip = v4 93 184 216 34; port = 80 } ∷ [])

abbrev target : TestTarget
target = record {
  host = codes "example.com";
  port = 80;
  path = codes "/";
  use_tls = false;
  resolved_addr = none;
  danger_accept_invalid_certs = false;
}

connect_tcp-IsTcpFor_example :
    Ensures
      (λ s.
        (addr : SocketAddr) × (resolve_target lookup target ≡ ok addr)
        × IsTcpFor apple (some (name (codes "en0"))) addr s)
      (connect_tcp (grants apple) lookup target (some (name (codes "en0"))))
connect_tcp-IsTcpFor_example =
    connect_tcp-IsTcpFor (grants apple) (grants-Answers apple) lookup target
      (some (name (codes "en0"))) (Ensures-ok tt)

abbrev no_device : System
no_device = record {
  platform = linux;
  call = λ c. elim c [ Call.bind_device n ↦ err (proxypen.Error.other "EPERM") | _ ↦ ok tt ];
  if_nametoindex = λ n. 0;
}

refused_device :
    build_udp_socket no_device false (some (name (codes "eth0")))
    ≡ err (invalid_config "bind to interface")
unfolding build_udp_socket bind_by_name
refused_device = refl

-- On any other Unix, no interface is chosen by its name.
refused_name :
    build_udp_socket (grants unix) false (some (name (codes "eth0")))
    ≡ err (invalid_config "interface name binding not supported on this platform")
unfolding build_udp_socket bind_by_name
refused_name = refl
