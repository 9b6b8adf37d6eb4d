-- ===== src/Socks/Samples.antt =====
-- An association with a relay, with a codec of few bytes: test data.
use proxypen.Base.{[], ◌∷◌, ◌≡◌, refl, none, length, codes, ok}
use proxypen.Base.Bytes.{from_be}
use proxypen.Net
use proxypen.Net.{SocketAddr, v4}
use proxypen.UdpSocket.{SocksAddr}
use proxypen.UdpSocket
use proxypen.Config.{ProxyConfig, SocksAddrs}
use proxypen.Stream
use proxypen.Stream.{Reader, read_uint, read_exact}
use proxypen.Stream.Conn
use proxypen.Stream.Conn.{Conn}
use proxypen.Direct.{linux, System}
use proxypen.Socks.Handshake
use proxypen.Socks.Handshake.{Codec, AuthReply, CmdReply}
use proxypen.Socks.Connector.{Dialer}
use proxypen.Socks.Associate
use proxypen.Socks.Associate.{Network, UdpAssociation, associate, relay_of, bind_addr}

abbrev pub relay : SocketAddr
relay = record { ip = v4 10 0 0 7; port = 4000 }

abbrev pub somewhere : SocksAddr
somewhere = record { addr = UdpSocket.v4 (10 ∷ 0 ∷ 0 ∷ 7 ∷ []); port = 4000 }

abbrev auth_reply : Reader AuthReply
auth_reply =
    Stream.◌>>=◌ (read_uint 1)
      (λ v. Stream.◌>>=◌ (read_uint 1) (λ m. Stream.pure (record { version = v; method = m })))

abbrev cmd_reply : Reader CmdReply
cmd_reply =
    Stream.◌>>=◌ (read_uint 1) (λ r. Stream.pure (record { rep = r; bind_addr = somewhere }))

abbrev pub codec : Codec
codec = record {
  socks5_version = 5;
  auth_method_password = 2;
  auth_method_none = 0;
  reply_succeeded = 0;
  cmd_tcp_connect = 1;
  cmd_udp_associate = 3;
  reserve = 0;
  encode_auth = λ r. r.version ∷ r.methods.contents;
  decode_auth = auth_reply;
  encode_password = λ r. [];
  decode_password = read_uint 1;
  encode_cmd = λ r. r.version ∷ r.cmd ∷ [];
  decode_cmd = cmd_reply;
}

abbrev pub addrs : SocksAddrs
addrs = record {
  from_socket = λ a. record somewhere { port = a.port };
  from_domain =
      λ n p. record { addr = UdpSocket.domain (record { len = length n; contents = n }); port = p };
}

abbrev greeting : Conn
greeting = record { inbox = 5 ∷ 0 ∷ 0 ∷ []; outbox = []; room = 100 }

abbrev pub dialer : Dialer
dialer = record { connect = λ a. ok greeting; set_nodelay = ok tt }

abbrev pub net : Network
net = record {
  resolve = λ a. ok (relay ∷ []);
  resolve_text = λ s. ok [];
  bind_udp = λ s. ok tt;
  connect_udp = λ a. ok tt;
}

abbrev pub os : System
os = record { platform = linux; call = λ c. ok tt; if_nametoindex = λ n. 0 }

abbrev pub config : ProxyConfig
config = record { addr = codes "10.0.0.1:1080"; auth = none }

abbrev pub association : UdpAssociation
association = record {
  bound = codes "0.0.0.0:0";
  peer = relay;
  relay_addr = relay;
  control = record { inbox = []; outbox = 5 ∷ 0 ∷ 5 ∷ 3 ∷ []; room = 96 };
}

pub associated : associate codec addrs dialer net config ≡ ok association
unfolding associate relay_of bind_addr Associate.is_unspecified Handshake.authenticate
    Handshake.log_in Handshake.check_method Handshake.send_udp_associate Handshake.check_reply
    Conn.recv Conn.write_all read_uint read_exact from_be Net.is_ipv6
associated = refl
