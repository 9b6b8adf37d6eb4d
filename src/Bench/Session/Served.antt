-- ===== src/Bench/Session/Served.antt =====
-- The server's side of a session (src/bench/server.rs).
use proxypen.Base.{
  ℕ, suc, zero, ◌-◌, ◌<◌, ◌≤◌, ◌^◌, ◌≡◌, refl, ap, ◌∙◌, List, [], ◌∷◌, ◌++◌, append_assoc,
  append-nil, length, length-append, Outcome, ok, arith,
}
use proxypen.Error.{IoError}
use proxypen.Net.{SocketAddr}
use proxypen.Stream.Conn.{Conn, Exec, ◌>>◌, recv-ok, write_all-fits}
use proxypen.Bench.Protocol.{
  TestRequest, TestReport, close, response_ok, write_request, write_response, write_report,
  read_request, read_report, write_handshake, read_handshake,
}
use proxypen.Bench.Protocol.RoundTrip.{
  ReportFits, RequestFits, read_report-write_report, read_request-write_request,
}
use proxypen.Base.Bytes.{be_bytes}
use proxypen.Bench.Protocol.Refusals.{read_handshake_iff}
use proxypen.Bench.Stats.{Float64}
use proxypen.Bench.Server.{
  DataPlane, exchange, dispatch, requests, handle_session, send_report, open_port, io_session,
  run_tcp_up, run_tcp_down, run_udp_up, run_udp_down,
}
use proxypen.Bench.Client.{BenchOptions, ClientPlane}
use proxypen.Bench.Client.Control.{request_of}
use proxypen.Bench.Session.{Test, served, Goes, AllGo, client_bytes, server_bytes}

abbrev pub conn : List ℕ → List ℕ → ℕ → Conn
conn inbox outbox room = record { inbox = inbox; outbox = outbox; room = room }

module _ (F : Float64) (planes : ℕ → DataPlane) where
  dispatch-served :
      (i : ℕ) (req : TestRequest) (more : Exec IoError (Unit {0}))
      → req.kind < 4
      → dispatch F planes i req more ≡ exchange (planes i) (served F (planes i) req) >> more
  unfolding dispatch served run_tcp_up run_tcp_down run_udp_up run_udp_down
  dispatch-served i req more h = go req.kind refl h
    where
      go :
          (k : ℕ)
          → req.kind ≡ k
          → k < 4
          → dispatch F planes i req more ≡ exchange (planes i) (served F (planes i) req) >> more
      go zero e l = rw e refl
      go (suc zero) e l = rw e refl
      go (suc (suc zero)) e l = rw e refl
      go (suc (suc (suc zero))) e l = rw e refl
      go (suc (suc (suc (suc k)))) e l = absurd (omega arith)

exchange-ok :
    (d : DataPlane) (run : Outcome IoError TestReport) (port : ℕ) (server client : TestReport)
    (rest out : List ℕ) (room : ℕ)
    → d.listen ≡ ok port
    → run ≡ ok server
    → ReportFits client
    → length (write_response (response_ok port) ++ write_report server) ≤ room
    → exchange d run (conn (write_report client ++ rest) out room) ≡ (
      ok tt,
      conn rest
          (out ++ (write_response (response_ok port) ++ write_report server))
          (room - length (write_response (response_ok port) ++ write_report server)),
    )
unfolding exchange open_port send_report
exchange-ok d run port server client rest out room hl hr fc h =
    let resp = write_response (response_ok port) in
    let rep = write_report server in
    let l = length-append {0} resp rep in
    let c1 =
      conn (write_report client ++ rest) ((out ++ resp) ++ rep) (room - length resp - length rep) in
    rw
      (
        hl,
        write_all-fits io_session resp (write_report client ++ rest) out room (omega arith),
        hr,
        write_all-fits io_session rep (write_report client ++ rest) (out ++ resp)
            (room - length resp) (omega arith),
        recv-ok io_session read_report c1 client rest (read_report-write_report client rest fc),
        append_assoc out resp rep,
        l,
      )
      (ap (λ n. (ok tt, conn rest (out ++ (resp ++ rep)) n)) (omega arith))

request_of-RequestFits :
    (opts : BenchOptions) (t : Test)
    → t.plan.kind < 4
    → t.plan.bandwidth_bps < 256 ^ 8
    → RequestFits (request_of opts t.plan)
unfolding request_of
request_of-RequestFits opts t k b = record {
  kind = omega arith;
  duration_ms = omega arith;
  payload_size = omega arith;
  bandwidth_bps = b;
  expected_packets = omega arith;
}

close-RequestFits : RequestFits close
close-RequestFits = record {
  kind = omega arith;
  duration_ms = omega arith;
  payload_size = omega arith;
  bandwidth_bps = omega arith;
  expected_packets = omega arith;
}

request-nonempty : (r : TestRequest) → 0 < length (write_request r)
unfolding write_request be_bytes
request-nonempty r = omega arith

client-long : (opts : BenchOptions) (ts : List Test) → length ts ≤ length (client_bytes opts ts)
unfolding client_bytes
client-long opts [] = omega arith
client-long opts (t ∷ ts) =
    let req = write_request (request_of opts t.plan) in
    omega (
      arith,
      length-append {0} req (write_report t.client ++ client_bytes opts ts),
      length-append {0} (write_report t.client) (client_bytes opts ts),
      request-nonempty (request_of opts t.plan),
      client-long opts ts,
    )

module _ (F : Float64) (opts : BenchOptions) (target : SocketAddr) (planes : ℕ → DataPlane)
    (client_planes : ℕ → SocketAddr → ClientPlane) where
  one_request :
      (fuel i : ℕ) (t : Test) (rest out : List ℕ) (room : ℕ)
      → Goes F opts target planes client_planes i t
      → length (write_response (response_ok t.port) ++ write_report t.server) ≤ room
      → requests F planes (suc fuel) i (
          conn (write_request (request_of opts t.plan) ++ (write_report t.client ++ rest)) out room)
        ≡ requests F planes fuel (suc i) (
            conn rest
              (out ++ (write_response (response_ok t.port) ++ write_report t.server))
              (room - length (write_response (response_ok t.port) ++ write_report t.server)))
  unfolding requests
  one_request fuel i t rest out room g h =
      let req = request_of opts t.plan in
      let c = conn (write_request req ++ (write_report t.client ++ rest)) out room in
      let read =
        read_request-write_request req (write_report t.client ++ rest)
          (request_of-RequestFits opts t g.kind g.bandwidth) in
      rw
        (
          recv-ok io_session read_request c req (write_report t.client ++ rest) read,
          dispatch-served F planes i req (requests F planes fuel (suc i)) (kind_of g.kind),
          exchange-ok (planes i) (served F (planes i) req) t.port t.server t.client rest out room
              g.listen g.served g.client_fits h,
        )
        refl
    where
      kind_of : t.plan.kind < 4 → (request_of opts t.plan).kind < 4
      kind_of k = unfold request_of in k

  closing :
      (fuel i : ℕ) (out : List ℕ) (room : ℕ)
      → requests F planes (suc fuel) i (conn (write_request close) out room)
        ≡ (ok tt, conn [] out room)
  unfolding requests dispatch
  closing fuel i out room =
      let read = read_request-write_request close [] close-RequestFits in
      let read' : read_request (write_request close) ≡ ok (close, []) = rw append-nil at read in
      rw (recv-ok io_session read_request (conn (write_request close) out room) close [] read') refl

  requests-served :
      (ts : List Test) (fuel i : ℕ) (out : List ℕ) (room : ℕ)
      → AllGo F opts target planes client_planes i ts
      → length (server_bytes ts) ≤ room
      → length ts < fuel
      → requests F planes fuel i (conn (client_bytes opts ts) out room)
        ≡ (ok tt, conn [] (out ++ server_bytes ts) (room - length (server_bytes ts)))
  unfolding client_bytes
  requests-served ts zero i out room g h l = absurd (omega arith)
  requests-served [] (suc fuel) i out room g h l =
      unfold server_bytes in
      closing fuel i out room ∙ rw append-nil (ap (λ n. (ok tt, conn [] out n)) (omega arith))
  requests-served (t ∷ ts) (suc fuel) i out room (g, gs) h l =
      let step = write_response (response_ok t.port) ++ write_report t.server in
      let e : server_bytes (t ∷ ts) ≡ step ++ server_bytes ts = unfold server_bytes in refl in
      let n = length-append {0} step (server_bytes ts) in
      let h' : length (step ++ server_bytes ts) ≤ room = rw e at h in
      rw e (
        one_request fuel i t (client_bytes opts ts) out room g (omega arith)
        ∙ requests-served ts fuel (suc i) (out ++ step) (room - length step) gs (omega arith)
            (omega arith)
        ∙ rw (append_assoc out step (server_bytes ts), n)
            (ap (λ k. (ok tt, conn [] (out ++ (step ++ server_bytes ts)) k)) (omega arith)))

  -- The server's side of a session. Let a client send the handshake, for each test its request and its report,
  -- and the closing request, and let every test's data go as said: then the server reads all of it, answers each
  -- test in order with the port and its own report, and ends without an error.
  pub handle_session-served :
      (ts : List Test) (room : ℕ)
      → AllGo F opts target planes client_planes 0 ts
      → length (write_handshake ++ server_bytes ts) ≤ room
      → handle_session F planes (ok tt) (conn (write_handshake ++ client_bytes opts ts) [] room) ≡ (
        ok tt,
        conn []
            (write_handshake ++ server_bytes ts)
            (room - length (write_handshake ++ server_bytes ts)),
      )
  unfolding handle_session
  handle_session-served ts room g h =
      let c = conn (write_handshake ++ client_bytes opts ts) [] room in
      let n = length-append {0} write_handshake (server_bytes ts) in
      let read =
        (read_handshake_iff (write_handshake ++ client_bytes opts ts) (client_bytes opts ts)).1
          refl in
      rw
        (
          recv-ok io_session read_handshake c tt (client_bytes opts ts) read,
          write_all-fits io_session write_handshake (client_bytes opts ts) [] room (omega arith),
        )
        (requests-served ts (suc (length (client_bytes opts ts))) 0 write_handshake
            (room - length write_handshake) g (omega arith) (omega (arith, client-long opts ts))
          ∙ rw n (ap (λ k. (ok tt, conn [] (write_handshake ++ server_bytes ts) k)) (omega arith)))
