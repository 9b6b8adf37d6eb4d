-- ===== src/HttpServer/Runs.antt =====
-- A server with a body of three bytes, and a client that reads its response in two parts.
use proxypen.Base.{
  ℕ, ◌≤◌, ◌≤◌, ◌+◌, ◌*◌, ◌≡◌, refl, List, [], ◌∷◌, ◌++◌, map, true, false, none, some, length, take,
  drop, codes, ok, err, arith,
}
use proxypen.Base.Decimal.{decimal}
use proxypen.Base.Utf8.{from_utf8_lossy}
use proxypen.Net.{v4}
use proxypen.Config.{TestTarget}
use proxypen.Stream.Conn
use proxypen.Stream.Conn.{Conn}
use proxypen.Tls.{handshake}
use proxypen.Transport.{Transport, socks5, Stream, tunnel}
use proxypen.Http1.{Exchange, answered, do_test}
use proxypen.Http1.Responses.{closed}
use proxypen.HttpServer.{
  HttpServerConfig, response_head, serve_http1, serve_http2, run_server, text_response, head,
  payload, served_by, over_http1, over_http2,
}
use proxypen.HttpServer.Answer.{do_test-serve_http1}

abbrev config : HttpServerConfig
config = record {
  bind = v4 127 0 0 1;
  http1_port = 8080;
  http2_port = 8443;
  http3_port = 8444;
  response_size = 3;
}

abbrev response : List ℕ
response =
    codes "HTTP/1.1 200 OK\r\nContent-Type: text/plain\r\nContent-Length: 3\r\n"
    ++ codes "Connection: close\r\nServer: proxypen-http-server\r\n\r\nxxx"

abbrev accepted : Conn
accepted = record { inbox = codes "GET / HTTP/1.1\r\n\r\n"; outbox = []; room = 1000 }

abbrev target : TestTarget
target = record {
  host = codes "127.0.0.1";
  port = 8080;
  path = codes "/";
  use_tls = false;
  resolved_addr = none;
  danger_accept_invalid_certs = false;
}

abbrev transport : Transport
transport = socks5 (record { addr = codes "proxy:1080"; auth = none })

abbrev tunnelled : Stream
tunnelled = tunnel (record { inbox = []; outbox = []; room = 0 })

abbrev chunks : List (List ℕ)
chunks = drop 20 response ∷ []

abbrev exchange : Exchange
exchange = record {
  clock = λ i. i * 10;
  connect = λ transport t. ok tunnelled;
  connector = record { is_server_name = λ s. true; connect = λ c s. ok tt };
  write = λ s. ok tt;
  first = ok (take 20 response);
  rest = map ok chunks ++ (ok [] ∷ []);
  late = false;
}

secured : handshake exchange.connector none target ≡ ok tt
unfolding handshake
secured = refl

written : response ≡ ((serve_http1 (run_server config).body (ok 18) (ok tt) accepted).1).outbox
unfolding serve_http1 run_server response_head decimal Conn.write_all
written = refl

fits : length (response_head (length (run_server config).body) ++ (run_server config).body) ≤ 1000
unfolding run_server response_head decimal
fits = omega arith

do_test-serve_http1_example :
    do_test exchange transport target
    ≡ ok (answered exchange transport none 2 200 (length (response_head 3) + 3))
do_test-serve_http1_example =
    do_test-serve_http1 config 17 accepted exchange transport target tunnelled (take 20 response)
      chunks (ok [] ∷ []) refl fits refl secured refl refl refl (tt, tt) (closed []) written

two_requests :
    serve_http2 (codes "xx") (ok tt) (ok true ∷ ok false ∷ err "reset" ∷ ok true ∷ [])
    ≡ ok ((head text_response ∷ payload (codes "xx") true ∷ []) ∷ [] ∷ [])
unfolding serve_http2
two_requests = refl

negotiated : served_by (some (codes "h2")) ≡ over_http2
unfolding served_by from_utf8_lossy
negotiated = refl

older : served_by (some (codes "http/1.1")) ≡ over_http1
unfolding served_by from_utf8_lossy
older = refl
