-- ===== src/HttpServer/Answer.antt =====
-- The server of src/http_server.rs and the client of src/http1.rs together.
use proxypen.Base.{
  ℕ, suc, ◌+◌, ◌-◌, ◌<◌, ◌≤◌, ◌≡◌, refl, ap, ◌∙◌, List, [], ◌∷◌, ◌++◌, length, length-append,
  length-replicate, replicate, map, All, All-append, All-replicate, All-map, arith, codes, concat,
  Bool, true, false, not, ◌&&◌, ltb, ◌==◌, none, some, Outcome, ok, if◌then◌else◌,
}
use proxypen.Base.Decimal.{decimal, IsDigit, decimal-IsDigit}
use proxypen.Base.Decimal.{parse_u16}
use proxypen.Base.Utf8.{IsUtf8, ascii-IsUtf8}
use proxypen.Error.{IoError}
use proxypen.Config.{TestTarget}
use proxypen.Stream.Conn.{Conn, write_all-room}
use proxypen.Tls.{handshake}
use proxypen.Transport.{Transport, Stream}
use proxypen.Http1.{Exchange, parse_status_line, request_text, answered, elapsed, do_test}
use proxypen.Http1.Responses.{
  Without, Nonempty, Ends, line_of, parse_status_line-status, do_test-joined,
}
use proxypen.HttpServer.{
  HttpServerConfig, head_start, head_end, response_head, serve_http1, run_server,
}

abbrev IsAscii : ℕ → Type 0
IsAscii b = b < 128

abbrev below : ℕ → List ℕ → Bool
below n [] = true
below n (x ∷ s) = ltb x n && below n s

below-All : (s : List ℕ) → below 128 s ≡ true → All IsAscii s
below-All [] h = tt
below-All (x ∷ s) h = (ground arith, below-All s (ground arith))

abbrev lacks : ℕ → List ℕ → Bool
lacks c [] = true
lacks c (x ∷ s) = not (x == c) && lacks c s

lacks-Without : (c : ℕ) (s : List ℕ) → lacks c s ≡ true → Without c s
lacks-Without c [] h = tt
lacks-Without c (x ∷ s) h = (ground arith, lacks-Without c s (ground arith))

decimal-IsAscii : (n : ℕ) → All IsAscii (decimal n)
decimal-IsAscii n =
    All-map IsDigit IsAscii (decimal n) (λ c h. omega (arith, h.1)) (decimal-IsDigit n)

response_head-IsAscii : (n : ℕ) → All IsAscii (response_head n)
unfolding response_head
response_head-IsAscii n =
    All-append IsAscii head_start (decimal n ++ head_end) (below-All head_start refl)
      (All-append IsAscii (decimal n) head_end (decimal-IsAscii n) (below-All head_end refl))

body-IsAscii : (config : HttpServerConfig) → All IsAscii ((run_server config).body)
unfolding run_server
body-IsAscii config = All-replicate IsAscii config.response_size b'x' (omega arith)

length-response :
    (config : HttpServerConfig)
    → length (response_head (length (run_server config).body) ++ (run_server config).body)
      ≡ length (response_head config.response_size) + config.response_size
unfolding run_server
length-response config =
    let n = config.response_size in
    let x : ℕ = b'x' in
    let l : length (replicate n x) ≡ n = length-replicate n x in
    rw l (omega (arith, length-append {0} (response_head n) (replicate n x), l))

code_200 : parse_u16 (codes "200") ≡ some 200
unfolding parse_u16
code_200 = refl

abbrev response : HttpServerConfig → List ℕ
response config = response_head (length (run_server config).body) ++ (run_server config).body

abbrev status_line : List ℕ
status_line = line_of (codes "HTTP/1.1") (codes "200") (codes "OK")

behind_line : HttpServerConfig → List ℕ
behind_line config =
    codes "Content-Type: text/plain\r\nContent-Length: "
    ++ ((decimal (length (run_server config).body) ++ head_end) ++ (run_server config).body)

response-line :
    (config : HttpServerConfig) → response config ≡ status_line ++ (13 ∷ 10 ∷ behind_line config)
unfolding response_head behind_line
response-line config = refl

-- What the client reads of the status line.
status-200 :
    (config : HttpServerConfig)
    → (header_end : ℕ) × (parse_status_line (response config) ≡ ok (200, header_end))
unfolding response_head behind_line
status-200 config =
    let body = (run_server config).body in
    let is_text : IsUtf8 (response config) = ascii-IsUtf8 (response config) (
      All-append IsAscii (response_head (length body)) body (response_head-IsAscii (length body))
        (body-IsAscii config)) in
    let is_text' = rw (response-line config) at is_text in
    let (i, e) =
      parse_status_line-status (codes "HTTP/1.1") (codes "200") (codes "OK") (behind_line config)
        200 is_text' (lacks-Without 32 (codes "HTTP/1.1") refl)
        (lacks-Without 32 (codes "200") refl) (lacks-Without 10 status_line refl) code_200 in
    (i, e)

-- With enough room, the server writes the whole response and closes.
serve_http1-writes :
    (body : List ℕ) (n : ℕ) (c : Conn)
    → length (response_head (length body) ++ body) ≤ c.room
    → (room : ℕ) × (serve_http1 body (ok (suc n)) (ok tt) c ≡ (
      ok tt,
      record {
        inbox = c.inbox;
        outbox = (c.outbox ++ response_head (length body)) ++ body;
        room = room;
      },
    ))
unfolding serve_http1
serve_http1-writes body n c h =
    let head = response_head (length body) in
    let some_bytes : (suc n == 0) ≡ false = ground arith in
    let l = length-append {0} head body in
    let first = write_all-room (λ (e : IoError). e) head c (omega (arith, h, l)) in
    let second =
      write_all-room (λ (e : IoError). e) body
        (record { inbox = c.inbox; outbox = c.outbox ++ head; room = c.room - length head })
        (omega (arith, h, l)) in
    (c.room - length head - length body, rw (some_bytes, first, second) refl)

-- The server of any configuration and the client together: however many bytes of the request the server reads first,
-- and however its response is split into reads, the client's result is a success with status 200, and the size is that
-- of the head and the configured body.
pub do_test-serve_http1 :
    (config : HttpServerConfig) (n : ℕ) (c : Conn) (x : Exchange) (transport : Transport)
    (t : TestTarget) (stream : Stream) (first : List ℕ) (chunks : List (List ℕ))
    (end : List (Outcome IoError (List ℕ)))
    → c.outbox ≡ []
    → length (response config) ≤ c.room
    → x.connect transport t ≡ ok stream
    → handshake x.connector none t ≡ ok tt
    → x.write (request_text t) ≡ ok tt
    → x.first ≡ ok first
    → x.rest ≡ map ok chunks ++ end
    → All Nonempty chunks
    → Ends t.use_tls end
    → first ++ concat chunks
      ≡ ((serve_http1 (run_server config).body (ok (suc n)) (ok tt) c).1).outbox
    → do_test x transport t
      ≡ ok (
          answered x transport
            (if t.use_tls then some (elapsed x 2 3) else none)
            (if t.use_tls then 4 else 2)
            200
            (length (response_head config.response_size) + config.response_size))
do_test-serve_http1 config n c x transport t stream first chunks end empty fits hc hh hw hf hr ne e
      sent =
    let body = (run_server config).body in
    let (room, served) = serve_http1-writes body n c fits in
    let all : first ++ concat chunks ≡ response config = sent ∙ rw (served, empty) refl in
    let (header_end, status) = status-200 config in
    let joined = do_test-joined x transport t stream first chunks end hc hh hw hf hr ne e in
    joined
    ∙ rw (all, status)
        (ap
          (λ k. ok (
            answered x transport (if t.use_tls then some (elapsed x 2 3) else none)
              (if t.use_tls then 4 else 2) 200 k))
          (length-response config))
