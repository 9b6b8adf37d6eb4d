-- ===== src/Socks/Connector.antt =====
-- src/socks/connector.rs. How the system connects to the proxy is an argument.
use proxypen.Base.{ℕ, List, Outcome, ok, err, panic, stuck, ◌>>=◌, ◌>>◌, map_err}
use proxypen.Error.{IoError, ProxyPenError, io}
use proxypen.Config.{ProxyConfig, TestTarget, SocksAddrs, to_socks_addr}
use proxypen.Stream.Conn
use proxypen.Stream.Conn.{Conn, Exec}
use proxypen.Socks.Handshake.{Codec, CmdReply, authenticate, send_connect}

pub record Dialer : Type 0 where
  -- `TcpStream::connect`
  pub connect : List ℕ → Outcome IoError Conn
  pub set_nodelay : Outcome IoError (Unit {0})

-- The result and the connection, which an error drops.
abbrev pub finished {ℓ} : {E : Type 0} {A : Type ℓ} → Outcome E A × Conn → Outcome E (A × Conn)
finished (ok a, c) = ok (a, c)
finished (err e, c) = err e
finished (panic, c) = panic
finished (stuck, c) = stuck

unfoldable pub tunnel : Codec → SocksAddrs → ProxyConfig → TestTarget → Exec ProxyPenError CmdReply
tunnel q addrs config target =
    Conn.◌>>◌ (authenticate q config.auth) (send_connect q (to_socks_addr addrs target))

unfoldable pub connect :
    Codec → SocksAddrs → Dialer → ProxyConfig → TestTarget → Outcome ProxyPenError Conn
unfolding tunnel
connect q addrs dialer config target = do
  stream ← map_err io (dialer.connect config.addr)
  map_err io dialer.set_nodelay
  (reply, stream') ← finished (tunnel q addrs config target stream)
  ok stream'
