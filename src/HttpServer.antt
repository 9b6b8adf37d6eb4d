-- ===== src/HttpServer.antt =====
-- src/http_server.rs: the server of the tests. What the sockets, rustls, h2, quinn and h3 answer is an argument; an
-- accept loop gets the list of what its listener gives. The certificate is made by rcgen and is an argument.
pub mod Answer
pub mod Listen
mod Runs
use proxypen.Base.{
  ℕ, List, [], ◌∷◌, ◌++◌, Option, none, some, length, concat, replicate, ◌==◌, if◌then◌else◌, codes,
  String, Outcome, ok, err, panic, stuck, ◌>>=◌, ◌>>◌, Bool, true, false, ◌&&◌, map_err, map,
}
use proxypen.Base.Decimal.{decimal}
use proxypen.Base.Utf8.{from_utf8_lossy}
use proxypen.Error.{IoError}
use proxypen.Listener.{listen}
use proxypen.Net.{IpAddr, v4, SocketAddr}
use proxypen.Stream.Conn
use proxypen.Stream.Conn.{Conn, Exec, write_all}

pub record HttpServerConfig : Type 0 where
  pub bind : IpAddr
  pub http1_port : ℕ
  pub http2_port : ℕ
  pub http3_port : ℕ
  pub response_size : ℕ

unfoldable pub default : HttpServerConfig
default = record {
  bind = v4 127 0 0 1;
  http1_port = 8080;
  http2_port = 8443;
  http3_port = 8444;
  response_size = 128;
}

-- The texts before and behind the length
abbrev pub head_start : List ℕ
head_start = codes "HTTP/1.1 200 OK\r\nContent-Type: text/plain\r\nContent-Length: "

abbrev pub head_end : List ℕ
head_end = codes "\r\nConnection: close\r\nServer: proxypen-http-server\r\n\r\n"

unfoldable pub response_head : ℕ → List ℕ
response_head n = head_start ++ (decimal n ++ head_end)

-- `serve_http1`, and `serve_http1_over_tls` with the same body. `read` is what the read of the request gives, the
-- request itself is not looked at.
unfoldable pub serve_http1 :
    (body : List ℕ) (read : Outcome IoError ℕ) (shutdown : Outcome IoError (Unit {0}))
    → Exec IoError (Unit {0})
serve_http1 body read shutdown = Conn.◌>>=◌ (Conn.lift read) λ n.
    if n == 0
    then Conn.pure tt
    else Conn.◌>>◌ (write_all (λ e. e) (response_head (length body)))
        (Conn.◌>>◌ (write_all (λ e. e) body) (Conn.lift shutdown))

-- The head of a response over HTTP/2 or HTTP/3
pub record Response : Type 0 where
  pub status : ℕ
  pub headers : List (List ℕ × List ℕ)

abbrev pub text_response : Response
text_response = record {
  status = 200;
  headers =
      (codes "content-type", codes "text/plain")
      ∷ (codes "server", codes "proxypen-http-server")
      ∷ [];
}

-- What goes out on a stream
pub data Sent : Type 0 where
  head : Response → Sent
  -- The data, and whether it ends the stream.
  payload : List ℕ → Bool → Sent
  finished : Sent

-- The task of a request over HTTP/2: `respond` says whether `send_response` succeeds.
unfoldable pub answer_http2 : List ℕ → Bool → List Sent
answer_http2 body respond = if respond then head text_response ∷ payload body true ∷ [] else []

-- The `while let` of `serve_http2`: the tasks of the requests up to the first error
unfoldable pub accept_http2 : {Request : Type 0} → List (Outcome String Request) → List Request
accept_http2 [] = []
accept_http2 (ok request ∷ incoming) = request ∷ accept_http2 incoming
accept_http2 (_ ∷ incoming) = []

unfoldable pub serve_http2 :
    List ℕ
    → Outcome String (Unit {0})
    → List (Outcome String Bool)
    → Outcome String (List (List Sent))
unfolding accept_http2 answer_http2
serve_http2 body handshake incoming = do
  handshake
  ok (map (answer_http2 body) (accept_http2 incoming))

-- What h3 answers to the task of a request: whether the request is resolved, and the sends and the end succeed.
pub record Stream3 : Type 0 where
  pub resolves : Bool
  pub responds : Bool
  pub sends : Bool
  pub finishes : Bool

abbrev sent_if : Bool → List Sent → List Sent
sent_if b s = if b then s else []

-- The task of a request over HTTP/3: an error ends it.
unfoldable pub answer_http3 : List ℕ → Stream3 → List Sent
answer_http3 body s =
    sent_if (s.resolves && s.responds) (
      head text_response
      ∷ sent_if s.sends (payload body false ∷ sent_if s.finishes (finished ∷ [])))

-- The loop of `serve_http3_conn`: `none` is the end of the connection.
unfoldable pub accept_http3 :
    {Request : Type 0} → List (Outcome String (Option Request)) → List Request
accept_http3 [] = []
accept_http3 (ok (some request) ∷ incoming) = request ∷ accept_http3 incoming
accept_http3 (_ ∷ incoming) = []

unfoldable pub serve_http3_conn :
    List ℕ
    → Outcome String (Unit {0})
    → List (Outcome String (Option Stream3))
    → Outcome String (List (List Sent))
unfolding accept_http3 answer_http3
serve_http3_conn body build incoming = do
  build
  ok (map (answer_http3 body) (accept_http3 incoming))

-- The protocol that a TLS connection is served by
pub data Served : Type 0 where
  over_http1 over_http2 : Served

same_text : List ℕ → List ℕ → Bool
same_text [] [] = true
same_text (x ∷ xs) (y ∷ ys) = x == y && same_text xs ys
same_text _ _ = false

unfoldable pub served_by : (alpn_protocol : Option (List ℕ)) → Served
unfolding same_text
served_by none = over_http1
served_by (some p) = if same_text (from_utf8_lossy p) (codes "h2") then over_http2 else over_http1

-- `make_server_tls_config`: the protocols that it offers
pub record ServerConfig : Type 0 where
  pub alpn_protocols : List (List ℕ)

unfoldable pub make_server_tls_config :
    Outcome String (Unit {0}) → List (List ℕ) → Outcome String ServerConfig
make_server_tls_config single_cert alpn = do single_cert; ok (record { alpn_protocols = alpn })

-- A client of the plain server, with what its read of the request and the shutdown give
pub record Client : Type 0 where
  pub conn : Conn
  pub read : Outcome IoError ℕ
  pub shutdown : Outcome IoError (Unit {0})

-- The tasks' results, which are dropped, and the error that ends the loop
unfoldable pub run_http1_plain :
    List ℕ
    → Outcome IoError (Unit {0})
    → List (Outcome IoError Client)
    → List (Outcome IoError (Unit {0}) × Conn) × Outcome IoError (Unit {0})
run_http1_plain body bind incoming =
    let (clients, end) = listen bind incoming in
    (map (λ (c : Client). serve_http1 body c.read c.shutdown c.conn) clients, end)

-- What `run_server` starts: the three addresses, the protocols that TLS offers on them, and the body.
pub record Servers : Type 0 where
  pub body : List ℕ
  pub http1_addr : SocketAddr
  pub http2_addr : SocketAddr
  pub http3_addr : SocketAddr
  pub http2_alpn : List (List ℕ)
  pub http3_alpn : List (List ℕ)

unfoldable pub run_server : HttpServerConfig → Servers
run_server config = record {
  body = replicate config.response_size b'x';
  http1_addr = record { ip = config.bind; port = config.http1_port };
  http2_addr = record { ip = config.bind; port = config.http2_port };
  http3_addr = record { ip = config.bind; port = config.http3_port };
  http2_alpn = codes "h2" ∷ codes "http/1.1" ∷ [];
  http3_alpn = codes "h3" ∷ [];
}

-- The three tasks are waited for, and what they return is dropped.
joined : List (Outcome IoError (Unit {0})) → Outcome String (Unit {0})
joined [] = ok tt
joined (end ∷ ends) = joined ends

-- The end of `run_server`, of the certificate and of what its listeners come to
unfoldable pub serve :
    HttpServerConfig
    → Outcome String (Unit {0})
    → (Servers → List (Outcome IoError (Unit {0})))
    → Outcome String (Unit {0})
unfolding joined run_server
serve config certificate listeners = certificate >> joined (listeners (run_server config))
