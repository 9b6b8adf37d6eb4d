-- ===== src/Error.antt =====
-- src/error.rs: the error type of the library, its messages, and the part of `std::io::Error` that the code looks
-- at or makes. A message is its fixed text: what `format!` puts into it is
-- left out, but for the errors of h2, quinn and h3, which are given as their text.
use proxypen.Base.{String, ℕ, List, ◌++◌, codes}

pub data IoError : Type 0 where
  unexpected_eof broken_pipe : IoError
  invalid_data : String → IoError
  other : String → IoError

pub data ProxyPenError : Type 0 where
  socks : String → ProxyPenError
  io : IoError → ProxyPenError
  http : String → ProxyPenError
  tls : String → ProxyPenError
  quic : String → ProxyPenError
  timeout : ProxyPenError
  invalid_config : String → ProxyPenError

-- `to_string`; the text of an `io::Error` is the standard library's or the system's.
unfoldable pub to_string : (IoError → List ℕ) → ProxyPenError → List ℕ
to_string io_text (socks s) = codes "SOCKS5 error: " ++ codes s
to_string io_text (io e) = codes "IO error: " ++ io_text e
to_string io_text (http s) = codes "HTTP error: " ++ codes s
to_string io_text (tls s) = codes "TLS error: " ++ codes s
to_string io_text (quic s) = codes "QUIC error: " ++ codes s
to_string io_text timeout = codes "timeout"
to_string io_text (invalid_config s) = codes "invalid config: " ++ codes s

-- `From<h2::Error>`
unfoldable pub from_h2 : String → ProxyPenError
from_h2 e = http (Prim.Native.String.◌++◌ "h2: " e)

-- `From<quinn::ConnectionError>`
unfoldable pub from_connection_error : String → ProxyPenError
from_connection_error e = quic e

-- `From<quinn::ConnectError>`
unfoldable pub from_connect_error : String → ProxyPenError
from_connect_error e = quic e

-- `Http(format!("<what>: {e}"))` and `Quic(format!("<what>: {e}"))`
abbrev pub http_error : String → String → ProxyPenError
http_error what e = http (Prim.Native.String.◌++◌ what e)

abbrev pub quic_error : String → String → ProxyPenError
quic_error what e = quic (Prim.Native.String.◌++◌ what e)
