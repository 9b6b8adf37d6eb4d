-- ===== src/Bench/Session/Refused.antt =====
-- A kind of test that src/bench/server.rs does not know, and the client of src/bench/client.rs that is refused.
use proxypen.Base.{
  ℕ, suc, ◌-◌, ◌<◌, ◌≤◌, ◌≡◌, refl, ap, ◌∙◌, List, [], ◌++◌, All, All-append, All-map, length,
  length-append, append-nil, false, codes, ◌==◌, arith, ok, err,
}
use proxypen.Base.Decimal.{decimal, decimal-IsDigit, length-decimal-le, IsDigit}
use proxypen.Base.Utf8.{ascii-IsUtf8}
use proxypen.Error.{IoError}
use proxypen.Net.{SocketAddr}
use proxypen.Stream.Conn.{Conn, Exec, write_all, recv-ok, write_all-fits}
use proxypen.Bench.Protocol.{
  kind_close, kind_tcp_up, kind_tcp_down, kind_udp_up, kind_udp_down, TestRequest, response_err,
  write_request, write_response, read_request, read_response, write_handshake, read_handshake,
}
use proxypen.Bench.Protocol.RoundTrip.{
  RequestFits, read_request-write_request, read_response-write_response,
}
use proxypen.Bench.Protocol.Refusals.{read_handshake_iff}
use proxypen.Bench.Stats.{Float64}
use proxypen.Bench.Server.{DataPlane, dispatch, requests, handle_session, io_session}
use proxypen.Bench.Client.{BenchOptions, Plan, ClientPlane, io, rejected}
use proxypen.Bench.Client.Control.{request_of, run_test, accepted}
use proxypen.Bench.Session.Served.{conn}

-- The text of the refusal
abbrev pub unknown_kind : ℕ → List ℕ
unknown_kind k = codes "unknown test kind " ++ decimal k

unknown_kind-ascii : (k : ℕ) → All (λ b. b < 128) (unknown_kind k)
unknown_kind-ascii k =
    All-append (λ b. b < 128) (codes "unknown test kind ") (decimal k) (ground arith)
      (All-map IsDigit (λ b. b < 128) (decimal k) (λ b h. omega (arith, h.1)) (decimal-IsDigit k))

abbrev pub refusal : ℕ → List ℕ
refusal k = write_response (response_err (unknown_kind k))

read_response-refusal :
    (k : ℕ) (rest : List ℕ)
    → k < 256
    → read_response (refusal k ++ rest) ≡ ok (response_err (unknown_kind k), rest)
read_response-refusal k rest h =
    read_response-write_response (response_err (unknown_kind k)) rest (omega arith) (omega arith)
      (omega
        (arith, length-append {0} (codes "unknown test kind ") (decimal k), length-decimal-le k))
      (ascii-IsUtf8 (unknown_kind k) (unknown_kind-ascii k))

module _ (F : Float64) (planes : ℕ → DataPlane) where
  dispatch-unknown :
      (i : ℕ) (req : TestRequest) (more : Exec IoError (Unit {0})) (c : Conn)
      → kind_close < req.kind
      → dispatch F planes i req more c ≡ write_all io_session (refusal req.kind) c
  unfolding dispatch
  dispatch-unknown i req more c k =
      let not_close : (req.kind == kind_close) ≡ false = ground arith in
      let not_tcp_up : (req.kind == kind_tcp_up) ≡ false = ground arith in
      let not_tcp_down : (req.kind == kind_tcp_down) ≡ false = ground arith in
      let not_udp_up : (req.kind == kind_udp_up) ≡ false = ground arith in
      let not_udp_down : (req.kind == kind_udp_down) ≡ false = ground arith in
      rw (not_close, not_tcp_up, not_tcp_down, not_udp_up, not_udp_down) refl

  requests-unknown :
      (fuel i : ℕ) (req : TestRequest) (rest out : List ℕ) (room : ℕ)
      → RequestFits req
      → kind_close < req.kind
      → length (refusal req.kind) ≤ room
      → requests F planes (suc fuel) i (conn (write_request req ++ rest) out room)
        ≡ (ok tt, conn rest (out ++ refusal req.kind) (room - length (refusal req.kind)))
  unfolding requests
  requests-unknown fuel i req rest out room f k h =
      let c = conn (write_request req ++ rest) out room in
      rw (recv-ok io_session read_request c req rest (read_request-write_request req rest f)) (
        dispatch-unknown i req _ (conn rest out room) k
        ∙ write_all-fits io_session (refusal req.kind) rest out room h)

  handle_session-unknown :
      (req : TestRequest) (rest : List ℕ) (room : ℕ)
      → RequestFits req
      → kind_close < req.kind
      → length (write_handshake ++ refusal req.kind) ≤ room
      → handle_session F planes
          (ok tt)
          (conn (write_handshake ++ (write_request req ++ rest)) [] room)
        ≡ (
          ok tt,
          conn rest
              (write_handshake ++ refusal req.kind)
              (room - length (write_handshake ++ refusal req.kind)),
        )
  unfolding handle_session
  handle_session-unknown req rest room f k h =
      let from_client = write_request req ++ rest in
      let c = conn (write_handshake ++ from_client) [] room in
      let n = length-append {0} write_handshake (refusal req.kind) in
      let read = (read_handshake_iff (write_handshake ++ from_client) from_client).1 refl in
      rw
        (
          recv-ok io_session read_handshake c tt from_client read,
          write_all-fits io_session write_handshake from_client [] room (omega arith),
        )
        (requests-unknown (length from_client) 0 req rest write_handshake
            (room - length write_handshake) f k (omega arith)
          ∙ rw n
              (ap (λ m. (ok tt, conn rest (write_handshake ++ refusal req.kind) m)) (omega arith)))

module _ (F : Float64) (opts : BenchOptions) (target : SocketAddr)
    (client_planes : ℕ → SocketAddr → ClientPlane) where
  run_test-refused :
      (i : ℕ) (plan : Plan) (k : ℕ) (rest out : List ℕ) (room : ℕ)
      → k < 256
      → length (write_request (request_of opts plan)) ≤ room
      → run_test F opts target client_planes i plan (conn (refusal k ++ rest) out room) ≡ (
        err (rejected plan (unknown_kind k)),
        conn rest
            (out ++ write_request (request_of opts plan))
            (room - length (write_request (request_of opts plan))),
      )
  unfolding run_test accepted
  run_test-refused i plan k rest out room b h =
      let req = write_request (request_of opts plan) in
      rw
        (
          write_all-fits io req (refusal k ++ rest) out room h,
          recv-ok io read_response (conn (refusal k ++ rest) (out ++ req) (room - length req))
              (response_err (unknown_kind k)) rest (read_response-refusal k rest b),
        )
        refl

-- A request for a kind that the server does not know: it answers with the text that names the kind, opens no port, ends
-- the session without an error and leaves what comes behind the request; and a client that gets this answer to a
-- request of its own ends with the plan and that text as its error, behind the request.
pub handle_session-run_test :
    (F : Float64) (opts : BenchOptions) (target : SocketAddr) (planes : ℕ → DataPlane)
    (client_planes : ℕ → SocketAddr → ClientPlane) (req : TestRequest) (i : ℕ) (plan : Plan)
    (rest out : List ℕ) (room : ℕ)
    → RequestFits req
    → kind_close < req.kind
    → length (write_handshake ++ refusal req.kind) ≤ room
    → length (write_request (request_of opts plan)) ≤ room
    → (handle_session F planes
          (ok tt)
          (conn (write_handshake ++ (write_request req ++ rest)) [] room)
        ≡ (
          ok tt,
          conn rest
              (write_handshake ++ refusal req.kind)
              (room - length (write_handshake ++ refusal req.kind)),
        ))
      × (run_test F opts target client_planes i plan (conn (refusal req.kind) out room) ≡ (
        err (rejected plan (unknown_kind req.kind)),
        conn []
            (out ++ write_request (request_of opts plan))
            (room - length (write_request (request_of opts plan))),
      ))
handle_session-run_test F opts target planes client_planes req i plan rest out room f k h l = (
  handle_session-unknown F planes req rest room f k h,
  rw append-nil at
      (run_test-refused F opts target client_planes i plan req.kind [] out room f.kind l),
)
