-- ===== src/Bench/Session/Runs.antt =====
-- A session with one TCP upload of ten bytes.
use proxypen.Bench.Session.Samples.{
  trivial, options, server_addr, plane, planes, client_planes, upload,
}
use proxypen.Bench.Server.Data.{Answers}
use proxypen.Bench.Server.Ends.{handle_session-Returns}
use proxypen.Base.{
  Ensures-ok, Ensures-err, Returns, ℕ, ◌-◌, ◌<◌, ◌≤◌, ◌^◌, ◌≡◌, refl, arith, List, [], ◌∷◌, ◌++◌,
  map, length, none, ok,
}
use proxypen.Base.Bytes.{be_bytes}
use proxypen.Base.Loop
use proxypen.Bench.Protocol.{write_handshake, write_request, write_report, write_response}
use proxypen.Bench.Protocol.RoundTrip.{ReportFits}
use proxypen.Bench.Transfer.{receive, transmit, bytes_report}
use proxypen.Bench.Server.{handle_session, tcp_up_data}
use proxypen.Bench.Client.{fits, want_down, want_up, want_udp, want_tcp, build_plans}
use proxypen.Bench.Client.Data.{run_tcp_data}
use proxypen.Bench.Client.Control.{converse, run_data, request_of}
use proxypen.Bench.Session.{outcome, served, AllGo, client_bytes, server_bytes}
use proxypen.Bench.Session.Served.{conn}
use proxypen.Stream.Conn.{Conn}
use proxypen.Bench.Client.Serve.{spawn_local_server}
use proxypen.Bench.Client.Control.{run_inner}
use proxypen.Bench.Client.{build_plans, want_tcp, want_udp, want_up, want_down}
use proxypen.Bench.Session.Local.{run_inner-spawn_local_server}
use proxypen.Bench.Server.Listen.{accept, shutdown}
use proxypen.Bench.Session.Agreement.{converse-handle_session}

small-ReportFits : (bytes elapsed : ℕ) → bytes < 2 ^ 64 → ReportFits (bytes_report bytes elapsed)
small-ReportFits bytes elapsed h = record {
  bytes = h;
  packets = omega arith;
  max_seq = omega arith;
  ooo = omega arith;
  dup = omega arith;
  jitter_ns = omega arith;
  latency_min_ns = omega arith;
  latency_max_ns = omega arith;
  latency_sum_ns = omega arith;
  duration_actual_ns = omega arith;
}

server_side : served trivial plane (request_of options upload.plan) ≡ ok upload.server
unfolding served tcp_up_data receive request_of
server_side = refl

client_side :
    run_data trivial options server_addr client_planes 0 upload.plan 4000 ≡ ok upload.client
unfolding run_data run_tcp_data fits transmit Loop.iterate
client_side = refl

upload-AllGo : AllGo trivial options server_addr planes client_planes 0 (upload ∷ [])
upload-AllGo = (
  record {
    kind = omega arith;
    bandwidth = omega arith;
    port = omega arith;
    client_fits = small-ReportFits 10 55 (omega arith);
    server_fits = small-ReportFits 10 77 (omega arith);
    listen = refl;
    served = server_side;
    ran = client_side;
  },
  tt,
)

client_room : length (write_handshake ++ client_bytes options (upload ∷ [])) ≤ 1000
unfolding write_handshake client_bytes write_request write_report be_bytes
client_room = omega arith

server_room : length (write_handshake ++ server_bytes (upload ∷ [])) ≤ 1000
unfolding write_handshake server_bytes write_response write_report be_bytes
server_room = omega arith

converse-handle_session_example :
    (to_server : List ℕ) × (to_client : List ℕ) × (left : ℕ) × (left' : ℕ) × (converse trivial
        options server_addr client_planes
        (map (λ t. t.plan) (upload ∷ []))
        (conn to_client [] 1000)
      ≡ (ok (map outcome (upload ∷ [])), conn [] to_server left))
    × (handle_session trivial planes (ok tt) (conn to_server [] 1000)
        ≡ (ok tt, conn [] to_client left'))
converse-handle_session_example =
    converse-handle_session trivial options server_addr planes client_planes (upload ∷ []) 1000
      upload-AllGo client_room server_room

plane-Answers : (i : ℕ) → Answers (planes i)
plane-Answers i = record {
  listen = Ensures-ok tt;
  accept = Ensures-ok tt;
  hello = Ensures-err;
  packets = tt;
  ticks = λ k. omega arith;
}

handle_session-Returns_example :
    Returns ((handle_session trivial planes (ok tt) (conn (1 ∷ 2 ∷ 3 ∷ []) [] 1000)).0)
handle_session-Returns_example =
    handle_session-Returns trivial planes plane-Answers (ok tt) (conn (1 ∷ 2 ∷ 3 ∷ []) [] 1000)
      (Ensures-ok tt)

options_plans : build_plans options ≡ map (λ t. t.plan) (upload ∷ [])
unfolding build_plans want_tcp want_udp want_up want_down
options_plans = refl

abbrev connected : Conn
connected = conn (write_handshake ++ server_bytes (upload ∷ [])) [] 1000

run_inner-spawn_local_server_example :
    let events =
      accept (
        ok (record {
          conn = conn (write_handshake ++ client_bytes options (upload ∷ [])) [] 1000;
          set_nodelay = ok tt;
          planes = planes;
        }))
      ∷ shutdown
      ∷ [] in
    let (spawned, sessions) = spawn_local_server trivial (λ a. ok server_addr) none events in
    (run_inner trivial options spawned (λ ip. []) (λ t. ok connected) client_planes
      ≡ ok (map outcome (upload ∷ [])))
    × (sessions
        ≡ (
          ok tt,
          conn []
              (write_handshake ++ server_bytes (upload ∷ []))
              (1000 - length (write_handshake ++ server_bytes (upload ∷ []))),
        )
          ∷ [])
run_inner-spawn_local_server_example =
    run_inner-spawn_local_server trivial options server_addr planes client_planes
      (λ a. ok server_addr) none (λ ip. []) (λ t. ok connected) upload [] 1000 [] refl refl
      options_plans refl refl upload-AllGo client_room server_room
