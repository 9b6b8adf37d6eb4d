-- ===== src/Http1/Runs.antt =====
-- Responses to src/http1.rs.
use proxypen.Base.{
  ℕ, ◌≡◌, refl, List, [], ◌∷◌, ◌++◌, map, arith, Bool, not, ◌&&◌, ◌==◌, true, false, none, some,
  length, codes, concat, ◌*◌, Outcome, ok, err, ◌>>=◌,
}
use proxypen.Base.Decimal.{parse_u16}
use proxypen.Base.Utf8.{IsUtf8, from_utf8_lossy}
use proxypen.Error.{IoError, http, unexpected_eof}
use proxypen.Config.{TestTarget}
use proxypen.Tls.{Connector, handshake}
use proxypen.Transport.{Transport, socks5, Stream, tunnel}
use proxypen.Http1.{parse_status_line, Exchange, do_test, first_line, answered, elapsed}
use proxypen.Http1.Responses.{cut, line_of, Without, do_test-joined}

abbrev version : List ℕ
version = codes "HTTP/1.1"

abbrev body : List ℕ
body = codes "Server: x\r\n\r\nhi"

is_text : IsUtf8 (line_of version (codes "404") (codes "Not Found") ++ (13 ∷ 10 ∷ body))
unfolding IsUtf8
is_text = refl

code_404 : parse_u16 (codes "404") ≡ some 404
unfolding parse_u16
code_404 = refl

abbrev lacks : ℕ → List ℕ → Bool
lacks c [] = true
lacks c (x ∷ s) = not (x == c) && lacks c s

lacks-Without : (c : ℕ) (s : List ℕ) → lacks c s ≡ true → Without c s
lacks-Without c [] h = tt
lacks-Without c (x ∷ s) h = (ground arith, lacks-Without c s (ground arith))

empty_response : parse_status_line [] ≡ err (http "empty response")
unfolding parse_status_line from_utf8_lossy first_line
empty_response = refl

too_large : parse_u16 (codes "65536") ≡ none
unfolding parse_u16
too_large = refl

with_plus : parse_u16 (codes "+200") ≡ some 200
unfolding parse_u16
with_plus = refl

abbrev target : TestTarget
target = record {
  host = codes "example.com";
  port = 443;
  path = [];
  use_tls = true;
  resolved_addr = none;
  danger_accept_invalid_certs = false;
}

abbrev chunks : List (List ℕ)
chunks = codes "1.1 200 OK\r\n" ∷ codes "\r\n" ∷ []

abbrev end : List (Outcome IoError (List ℕ))
end = err unexpected_eof ∷ []

abbrev connector : Connector
connector = record { is_server_name = λ s. true; connect = λ c s. ok tt }

abbrev transport : Transport
transport = socks5 (record { addr = codes "proxy:1080"; auth = none })

abbrev tunnelled : Stream
tunnelled = tunnel (record { inbox = []; outbox = []; room = 0 })

abbrev exchange : Exchange
exchange = record {
  clock = λ i. i * 10;
  connect = λ transport t. ok tunnelled;
  connector = connector;
  write = λ s. ok tt;
  first = ok (codes "HTTP/");
  rest = map ok chunks ++ end;
  late = false;
}

secured : handshake connector none target ≡ ok tt
unfolding handshake
secured = refl

do_test-joined_example : do_test exchange transport target ≡ (
    parse_status_line (codes "HTTP/" ++ concat chunks) >>= λ r. ok (
      answered exchange transport
        (some (elapsed exchange 2 3))
        4
        (r.0)
        (length (codes "HTTP/" ++ concat chunks))))
do_test-joined_example =
    do_test-joined exchange transport target tunnelled (codes "HTTP/") chunks end refl secured refl
      refl refl (tt, (tt, tt)) (cut refl [])
