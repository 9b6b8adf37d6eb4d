-- ===== src/Socks/Runs.antt =====
-- The handshake of src/socks with a codec of one byte for each field that matters.
use proxypen.Base.{
  arith, ap, ◌≡◌, refl, ◌++◌, [], ◌∷◌, Option, none, some, Outcome, ok, true, false, codes,
}
use proxypen.Error.{ProxyPenError}
use proxypen.Net.{IpAddr, SocketAddr, v4, parse_socket}
use proxypen.UdpSocket.{SocksAddr, AddrOrDomain}
use proxypen.UdpSocket
use proxypen.Config.{ProxyAuth, ProxyConfig, SocksAddrs, TestTarget}
use proxypen.Stream
use proxypen.Stream.{Reader, read_uint, read_exact}
use proxypen.Base.Bytes.{from_be}
use proxypen.Stream.Conn.{Conn, recv, write_all}
use proxypen.Socks.Handshake.{
  method, Codec, AuthReply, CmdReply, auth_req, authenticate, check_method, codec_error,
  send_connect, log_in, check_reply,
}
use proxypen.Socks.Handshake.Order.{SetUp, authenticate-refused, tunnel-SetUp}
use proxypen.Socks.Connector.{tunnel}
use proxypen.Socks.Associate.{Network, is_unspecified, proxy_addr, relay_of}

abbrev nowhere : SocksAddr
nowhere = record { addr = UdpSocket.v4 (0 ∷ 0 ∷ 0 ∷ 0 ∷ []); port = 1080 }

auth_reply : Reader AuthReply
auth_reply =
    Stream.◌>>=◌ (read_uint 1)
      (λ v. Stream.◌>>=◌ (read_uint 1) (λ m. Stream.pure (record { version = v; method = m })))

cmd_reply : Reader CmdReply
cmd_reply = Stream.◌>>=◌ (read_uint 1) (λ r. Stream.pure (record { rep = r; bind_addr = nowhere }))

abbrev codec : Codec
codec = record {
  socks5_version = 5;
  auth_method_password = 2;
  auth_method_none = 0;
  reply_succeeded = 0;
  cmd_tcp_connect = 1;
  cmd_udp_associate = 3;
  reserve = 0;
  encode_auth = λ r. r.version ∷ r.methods.len ∷ r.methods.contents;
  decode_auth = auth_reply;
  encode_password = λ r.
      r.version ∷ r.username.len ∷ r.username.contents ++ (r.password.len ∷ r.password.contents);
  decode_password = read_uint 1;
  encode_cmd = λ r. r.version ∷ r.cmd ∷ r.rsv ∷ [];
  decode_cmd = cmd_reply;
}

abbrev secret : Option ProxyAuth
secret = some (record { username = codes "user"; password = codes "pass" })

-- A server that chooses no method.
abbrev refusing : Conn
refusing = record { inbox = 5 ∷ 255 ∷ []; outbox = []; room = 100 }

abbrev offered : Conn
offered = record { inbox = 5 ∷ 255 ∷ []; outbox = 5 ∷ 1 ∷ 2 ∷ []; room = 97 }

abbrev refused : Conn
refused = record offered { inbox = [] }

offer :
    write_all codec_error (codec.encode_auth (auth_req codec secret)) refusing ≡ (ok tt, offered)
unfolding write_all
offer = refl

answer :
    recv codec_error codec.decode_auth offered
    ≡ (ok (record { version = 5; method = 255 }), refused)
unfolding recv auth_reply read_uint read_exact from_be
answer = refl

abbrev no_method : AuthReply
no_method = record { version = 5; method = 255 }

abbrev replied : AuthReply → Outcome ProxyPenError AuthReply
replied rep = ok rep

not_chosen :
    (rep : AuthReply)
    → replied no_method ≡ ok rep
    → (rep.version ≡ codec.socks5_version) × (rep.method ≡ method codec secret)
    → ⊥
not_chosen rep h (v, m) =
    let e : no_method ≡ rep = cc h in
    let n : 255 ≡ rep.method = ap (λ r. r.method) e in omega (arith, n, m)

authenticate-refused_example : (authenticate codec secret refusing).1 ≡ refused
authenticate-refused_example =
    authenticate-refused codec secret refusing offered refused (replied no_method) offer answer
      not_chosen

octets : IpAddr → AddrOrDomain
octets (v4 a b c d) = UdpSocket.v4 (a ∷ b ∷ c ∷ d ∷ [])
octets (proxypen.Net.v6 segments) = UdpSocket.v6 segments

abbrev addrs : SocksAddrs
addrs = record {
  from_socket = λ a. record { addr = octets a.ip; port = a.port };
  from_domain =
      λ n port. record { addr = UdpSocket.domain (record { len = 11; contents = n }); port = port };
}

abbrev config : ProxyConfig
config = record { addr = codes "10.0.0.1:1080"; auth = none }

abbrev target : TestTarget
target = record {
  host = codes "example.com";
  port = 443;
  path = codes "/";
  use_tls = true;
  resolved_addr = none;
  danger_accept_invalid_certs = false;
}

abbrev granting : Conn
granting = record { inbox = 5 ∷ 0 ∷ 0 ∷ 22 ∷ []; outbox = []; room = 100 }

abbrev granted : CmdReply
granted = record { rep = 0; bind_addr = nowhere }

set_up :
    tunnel codec addrs config target granting
    ≡ (ok granted, record { inbox = 22 ∷ []; outbox = 5 ∷ 1 ∷ 0 ∷ 5 ∷ 1 ∷ 0 ∷ []; room = 94 })
unfolding tunnel authenticate log_in check_method send_connect check_reply recv write_all auth_reply
    cmd_reply read_uint read_exact from_be
set_up = refl

tunnel-SetUp_example : SetUp codec none granting granted
tunnel-SetUp_example =
    tunnel-SetUp codec addrs config target granting
      (record { inbox = 22 ∷ []; outbox = 5 ∷ 1 ∷ 0 ∷ 5 ∷ 1 ∷ 0 ∷ []; room = 94 }) granted set_up

abbrev any_ip : SocketAddr
any_ip = record { ip = v4 0 0 0 0; port = 4000 }

abbrev net : Network
net = record {
  resolve = λ a. ok (any_ip ∷ []);
  resolve_text = λ s. ok [];
  bind_udp = λ s. ok tt;
  connect_udp = λ a. ok tt;
}

relay_at_proxy : relay_of net config granted ≡ ok (record { ip = v4 10 0 0 1; port = 4000 })
unfolding relay_of is_unspecified proxy_addr parse_socket
relay_at_proxy = refl
