-- ===== src/Http3/Runs.antt =====
-- An association with a relay, for a target that has a name.
use proxypen.Base.{ℕ, List, [], ◌∷◌, ◌≡◌, refl, true, false, none, some, codes, Outcome, ok}
use proxypen.Error.{IoError}
use proxypen.Net.{SocketAddr}
use proxypen.Config.{TestTarget, to_socks_addr}
use proxypen.Socks.Samples.{relay, codec, addrs, dialer, net, os, config, association, associated}
use proxypen.Http3.{Quic, wrapped, make_endpoint, build_socks_endpoint}
use proxypen.Http3.Addresses.{Agree, build_socks_endpoint-Agree}

abbrev lookup_host : List ℕ → Outcome IoError (List SocketAddr)
lookup_host s = ok []

abbrev quic : Quic
quic = record {
  has_runtime = true;
  endpoint = ok tt;
  is_config = λ c. true;
  connect_with = λ c a h. ok tt;
  connecting = ok tt;
  handshake = ok tt;
  is_uri = λ s. true;
  send_request = λ s. ok tt;
  finish = ok tt;
  recv_response = ok 200;
  body = ok (codes "hi") ∷ [];
  driver_first = false;
}

abbrev target : TestTarget
target = record {
  host = codes "example.com";
  port = 443;
  path = [];
  use_tls = true;
  resolved_addr = none;
  danger_accept_invalid_certs = false;
}

endpoint_made : make_endpoint quic ≡ ok tt
unfolding make_endpoint
endpoint_made = refl

build_socks_endpoint-Agree_example :
    (addr : SocketAddr) × (build_socks_endpoint codec addrs dialer net os lookup_host quic config
        target
      ≡ ok (
        wrapped (record { target = to_socks_addr addrs target; remote_addr = addr }),
        addr,
        some association.control,
      ))
    × Agree addrs target relay addr
build_socks_endpoint-Agree_example =
    build_socks_endpoint-Agree codec addrs dialer net os lookup_host quic config target association
      associated endpoint_made
