-- ===== src/Socks/Handshake.antt =====
-- src/socks/handshake.rs. The messages' codec and the protocol's constants are shadowquic's: a
-- parameter. A message is written whole, as its bytes.
pub mod Order
use proxypen.Base.{
  ℕ, ◌%◌, ◌^◌, List, [], ◌∷◌, ◌++◌, Bool, true, false, not, Option, none, some, length, ◌==◌,
  if◌then◌else◌, Outcome, ok, err,
}
use proxypen.Error.{IoError, ProxyPenError, socks}
use proxypen.UdpSocket.{SocksAddr, VarVec}
use proxypen.Config.{ProxyAuth}
use proxypen.Stream.{Reader}
use proxypen.Stream.Conn.{Conn, Exec, ◌>>=◌, ◌>>◌, pure, lift, recv, write_all}

pub record AuthReq : Type 0 where
  pub version : ℕ
  pub methods : VarVec

pub record AuthReply : Type 0 where
  pub version : ℕ
  pub method : ℕ

pub record PasswordAuthReq : Type 0 where
  pub version : ℕ
  pub username : VarVec
  pub password : VarVec

pub record CmdReq : Type 0 where
  pub version : ℕ
  pub cmd : ℕ
  pub rsv : ℕ
  pub dst : SocksAddr

pub record CmdReply : Type 0 where
  pub rep : ℕ
  pub bind_addr : SocksAddr

pub record Codec : Type 0 where
  pub socks5_version : ℕ
  pub auth_method_password : ℕ
  pub auth_method_none : ℕ
  pub reply_succeeded : ℕ
  pub cmd_tcp_connect : ℕ
  pub cmd_udp_associate : ℕ
  pub reserve : ℕ
  pub encode_auth : AuthReq → List ℕ
  pub decode_auth : Reader AuthReply
  pub encode_password : PasswordAuthReq → List ℕ
  -- `status`
  pub decode_password : Reader ℕ
  pub encode_cmd : CmdReq → List ℕ
  pub decode_cmd : Reader CmdReply

-- `From<SError>`: the text is left out.
abbrev pub codec_error : IoError → ProxyPenError
codec_error e = socks "codec"

-- `s.len() as u8` and the bytes
abbrev pub var_vec : List ℕ → VarVec
var_vec s = record { len = length s % 2 ^ 8; contents = s }

module _ (q : Codec) where
  abbrev pub method : Option ProxyAuth → ℕ
  method none = q.auth_method_none
  method (some cred) = q.auth_method_password

  abbrev pub auth_req : Option ProxyAuth → AuthReq
  auth_req auth = record {
    version = q.socks5_version;
    methods = record { len = 1; contents = method auth ∷ [] };
  }

  abbrev pub password_req : ProxyAuth → PasswordAuthReq
  password_req cred = record {
    version = 1;
    username = var_vec cred.username;
    password = var_vec cred.password;
  }

  unfoldable pub check_method : Option ProxyAuth → AuthReply → Outcome ProxyPenError (Unit {0})
  check_method auth rep =
      if not (rep.version == q.socks5_version)
      then err (socks "server version mismatch")
      else if not (rep.method == method auth)
      then err (socks "auth method not supported")
      else ok tt

  unfoldable pub check_status : ℕ → Outcome ProxyPenError (Unit {0})
  check_status status =
      if not (status == q.reply_succeeded) then err (socks "authentication failed") else ok tt

  unfoldable pub log_in : Option ProxyAuth → Exec ProxyPenError (Unit {0})
  log_in none = pure tt
  log_in (some cred) = do
    write_all codec_error (q.encode_password (password_req cred))
    status ← recv codec_error q.decode_password
    lift (check_status status)

  unfoldable pub authenticate : Option ProxyAuth → Exec ProxyPenError (Unit {0})
  authenticate auth = do
    write_all codec_error (q.encode_auth (auth_req auth))
    rep ← recv codec_error q.decode_auth
    lift (check_method auth rep)
    log_in auth

  unfoldable pub check_reply : ProxyPenError → CmdReply → Outcome ProxyPenError CmdReply
  check_reply refusal reply = if not (reply.rep == q.reply_succeeded) then err refusal else ok reply

  abbrev pub cmd_req : ℕ → SocksAddr → CmdReq
  cmd_req cmd dst = record { version = q.socks5_version; cmd = cmd; rsv = q.reserve; dst = dst }

  unfoldable pub send_connect : SocksAddr → Exec ProxyPenError CmdReply
  send_connect dst = do
    write_all codec_error (q.encode_cmd (cmd_req q.cmd_tcp_connect dst))
    reply ← recv codec_error q.decode_cmd
    lift (check_reply (socks "CONNECT failed with reply code") reply)

  unfoldable pub send_udp_associate : SocksAddr → Exec ProxyPenError CmdReply
  send_udp_associate bind_hint = do
    write_all codec_error (q.encode_cmd (cmd_req q.cmd_udp_associate bind_hint))
    reply ← recv codec_error q.decode_cmd
    lift (check_reply (socks "UDP ASSOCIATE failed with reply code") reply)
