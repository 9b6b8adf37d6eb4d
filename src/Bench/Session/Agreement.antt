-- ===== src/Bench/Session/Agreement.antt =====
-- The client's side of a session (src/bench/client.rs), and the two sides together.
use proxypen.Base.{
  ℕ, suc, ◌-◌, ◌≤◌, ◌≡◌, refl, sym, ap, ◌∙◌, List, [], ◌∷◌, ◌++◌, map, append_assoc, append-nil,
  length, length-append, ok, arith,
}
use proxypen.Base.Utf8.{IsUtf8}
use proxypen.Net.{SocketAddr}
use proxypen.Stream.Conn.{recv-ok, write_all-fits}
use proxypen.Bench.Protocol.{
  close, response_ok, write_request, write_response, write_report, read_report, read_response,
  write_handshake, read_handshake,
}
use proxypen.Bench.Protocol.RoundTrip.{read_report-write_report, read_response-write_response}
use proxypen.Bench.Protocol.Refusals.{read_handshake_iff}
use proxypen.Bench.Stats.{Float64}
use proxypen.Bench.Server.{DataPlane, handle_session}
use proxypen.Bench.Client.{BenchOptions, ClientPlane, io}
use proxypen.Bench.Client.Control.{request_of, run_test, run_plans, converse, accepted}
use proxypen.Bench.Session.{Test, outcome, Goes, AllGo, client_bytes, server_bytes}
use proxypen.Bench.Session.Served.{conn, handle_session-served}

no_error-IsUtf8 : IsUtf8 []
unfolding IsUtf8
no_error-IsUtf8 = refl

module _ (F : Float64) (opts : BenchOptions) (target : SocketAddr) (planes : ℕ → DataPlane)
    (client_planes : ℕ → SocketAddr → ClientPlane) where
  run_test-ok :
      (i : ℕ) (t : Test) (rest out : List ℕ) (room : ℕ)
      → Goes F opts target planes client_planes i t
      → length (write_request (request_of opts t.plan) ++ write_report t.client) ≤ room
      → run_test F opts target client_planes i t.plan
          (conn (write_response (response_ok t.port) ++ (write_report t.server ++ rest)) out room)
        ≡ (
          ok (outcome t),
          conn rest
              (out ++ (write_request (request_of opts t.plan) ++ write_report t.client))
              (room - length (write_request (request_of opts t.plan) ++ write_report t.client)),
        )
  unfolding run_test accepted
  run_test-ok i t rest out room g h =
      let req = write_request (request_of opts t.plan) in
      let rep = write_report t.client in
      let n = length-append {0} req rep in
      let from_server = write_report t.server ++ rest in
      let room' = room - length req in
      rw
        (
          write_all-fits io req (write_response (response_ok t.port) ++ from_server) out room
              (omega arith),
          recv-ok io read_response
              (conn (write_response (response_ok t.port) ++ from_server) (out ++ req) room')
              (response_ok t.port) from_server
              (read_response-write_response (response_ok t.port) from_server (omega arith) g.port
                (omega arith) no_error-IsUtf8),
          g.ran,
          recv-ok io read_report (conn from_server (out ++ req) room') t.server rest
              (read_report-write_report t.server rest g.server_fits),
          write_all-fits io rep rest (out ++ req) room' (omega arith),
          append_assoc out req rep,
          n,
        )
        (ap (λ k. (ok (outcome t), conn rest (out ++ (req ++ rep)) k)) (omega arith))

  -- The client's bytes of the tests alone.
  abbrev pub test_bytes : List Test → List ℕ
  test_bytes [] = []
  test_bytes (t ∷ ts) =
      (write_request (request_of opts t.plan) ++ write_report t.client) ++ test_bytes ts

  client_bytes_eq : (ts : List Test) → client_bytes opts ts ≡ test_bytes ts ++ write_request close
  unfolding client_bytes
  client_bytes_eq [] = refl
  client_bytes_eq (t ∷ ts) =
      let req = write_request (request_of opts t.plan) in
      let rep = write_report t.client in
      ap (λ b. req ++ (rep ++ b)) (client_bytes_eq ts)
      ∙ sym
          (append_assoc (req ++ rep) (test_bytes ts) (write_request close) ∙ append_assoc req rep _)

  run_plans-ok :
      (ts : List Test) (i : ℕ) (out : List ℕ) (room : ℕ)
      → AllGo F opts target planes client_planes i ts
      → length (test_bytes ts) ≤ room
      → run_plans F opts target client_planes i
          (map (λ t. t.plan) ts)
          (conn (server_bytes ts) out room)
        ≡ (ok (map outcome ts), conn [] (out ++ test_bytes ts) (room - length (test_bytes ts)))
  unfolding run_plans server_bytes
  run_plans-ok [] i out room g h = rw append-nil (ap (λ k. (ok [], conn [] out k)) (omega arith))
  run_plans-ok (t ∷ ts) i out room (g, gs) h =
      let step = write_request (request_of opts t.plan) ++ write_report t.client in
      let n = length-append {0} step (test_bytes ts) in
      let inbox =
        append_assoc (write_response (response_ok t.port)) (write_report t.server)
          (server_bytes ts) in
      rw
        (
          inbox,
          run_test-ok i t (server_bytes ts) out room g (omega arith),
          run_plans-ok ts (suc i) (out ++ step) (room - length step) gs (omega arith),
          append_assoc out step (test_bytes ts),
          n,
        )
        (ap (λ k. (ok (outcome t ∷ map outcome ts), conn [] (out ++ (step ++ test_bytes ts)) k))
          (omega arith))

  pub converse-ok :
      (ts : List Test) (room : ℕ)
      → AllGo F opts target planes client_planes 0 ts
      → length (write_handshake ++ client_bytes opts ts) ≤ room
      → converse F opts target client_planes
          (map (λ t. t.plan) ts)
          (conn (write_handshake ++ server_bytes ts) [] room)
        ≡ (
          ok (map outcome ts),
          conn []
              (write_handshake ++ client_bytes opts ts)
              (room - length (write_handshake ++ client_bytes opts ts)),
        )
  unfolding converse
  converse-ok ts room g h =
      let last = write_request close in
      let a = length-append {0} write_handshake (client_bytes opts ts) in
      let b = length-append {0} (test_bytes ts) last in
      let e = client_bytes_eq ts in
      let h' : length (write_handshake ++ (test_bytes ts ++ last)) ≤ room = rw e at h in
      let a' = length-append {0} write_handshake (test_bytes ts ++ last) in
      let read =
        (read_handshake_iff (write_handshake ++ server_bytes ts) (server_bytes ts)).1 refl in
      rw
        (
          write_all-fits io write_handshake (write_handshake ++ server_bytes ts) [] room
              (omega arith),
          recv-ok io read_handshake
              (conn (write_handshake ++ server_bytes ts) write_handshake
                (room - length write_handshake))
              tt (server_bytes ts) read,
          run_plans-ok ts 0 write_handshake (room - length write_handshake) g (omega arith),
          write_all-fits io last [] (write_handshake ++ test_bytes ts)
              (room - length write_handshake - length (test_bytes ts)) (omega arith),
          e,
          append_assoc write_handshake (test_bytes ts) last,
          a',
          b,
        )
        (ap (λ k. (ok (map outcome ts), conn [] (write_handshake ++ (test_bytes ts ++ last)) k))
          (omega arith))

  -- The two sides of a session agree. Let the data of every test go as said on both sides, and let the
  -- connection carry all bytes. Then there are two byte streams such that the client, reading the server's,
  -- writes the client's and returns, for each plan in order, its own report and the report that the server made;
  -- and the server, reading the client's, writes the server's and ends without an error. Both read all.
  pub converse-handle_session :
      (ts : List Test) (room : ℕ)
      → AllGo F opts target planes client_planes 0 ts
      → length (write_handshake ++ client_bytes opts ts) ≤ room
      → length (write_handshake ++ server_bytes ts) ≤ room
      → (to_server : List ℕ) × (to_client : List ℕ) × (left : ℕ) × (left' : ℕ) × (converse F opts
            target client_planes
            (map (λ t. t.plan) ts)
            (conn to_client [] room)
          ≡ (ok (map outcome ts), conn [] to_server left))
        × (handle_session F planes (ok tt) (conn to_server [] room)
            ≡ (ok tt, conn [] to_client left'))
  converse-handle_session ts room g h k = (
    write_handshake ++ client_bytes opts ts,
    write_handshake ++ server_bytes ts,
    room - length (write_handshake ++ client_bytes opts ts),
    room - length (write_handshake ++ server_bytes ts),
    converse-ok ts room g h,
    handle_session-served F opts target planes client_planes ts room g k,
  )
