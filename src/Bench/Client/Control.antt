-- ===== src/Bench/Client/Control.antt =====
-- src/bench/client.rs: the conversation of a client with the server.
use proxypen.Base.{
  ℕ, suc, ◌/◌, ◌%◌, ◌^◌, List, [], ◌∷◌, false, none, some, ◌==◌, ◌||◌, if◌then◌else◌, Outcome, ok,
  err, panic, map_err,
}
use proxypen.Error.{ProxyPenError}
use proxypen.Net.{IpAddr, SocketAddr}
use proxypen.Config.{TestTarget}
use proxypen.Stream.Conn.{Conn, Exec, ◌>>=◌, ◌>>◌, pure, lift, recv, write_all}
use proxypen.Bench.Protocol.{
  kind_tcp_up, kind_tcp_down, kind_udp_up, kind_udp_down, status_ok, TestRequest, TestReport,
  TestResponse, close, read_handshake, write_handshake, write_request, read_response, write_report,
  read_report,
}
use proxypen.Bench.Stats.{Float64}
use proxypen.Bench.Client.{
  BenchError, io, proxy, no_target, no_tests, rejected, BenchOptions, Plan, BenchOutcome,
  build_plans, ClientPlane, BenchResult, ◌|>◌,
}
use proxypen.Bench.Client.Data.{run_tcp_data, run_udp_up, run_udp_down}

unfoldable pub synthetic_target : (IpAddr → List ℕ) → SocketAddr → TestTarget
synthetic_target to_string addr = record {
  host = to_string addr.ip;
  port = addr.port;
  path = [];
  use_tls = false;
  resolved_addr = some addr.ip;
  danger_accept_invalid_certs = false;
}

unfoldable pub request_of : BenchOptions → Plan → TestRequest
request_of opts plan = record {
  kind = plan.kind;
  duration_ms = opts.duration / 1_000_000 % 2 ^ 32;
  payload_size =
      (if plan.kind == kind_udp_up || plan.kind == kind_udp_down
        then opts.udp_size
        else opts.tcp_chunk)
      % 2 ^ 32;
  bandwidth_bps = plan.bandwidth_bps;
  expected_packets = 0;
}

module _ (F : Float64) (opts : BenchOptions) (target : SocketAddr)
    (planes : ℕ → SocketAddr → ClientPlane) where
  -- The data of a plan, to the port that the server gave.
  unfoldable pub run_data : ℕ → Plan → ℕ → BenchResult TestReport
  run_data i plan data_port =
      let d = planes i (record { ip = target.ip; port = data_port }) in
      if plan.kind == kind_tcp_up || plan.kind == kind_tcp_down
      then run_tcp_data d plan.kind opts.duration opts.tcp_chunk
      else if plan.kind == kind_udp_up
      then run_udp_up d opts.duration opts.udp_size plan.bandwidth_bps
      else if plan.kind == kind_udp_down
      then run_udp_down F d opts.duration opts.udp_size
      else panic

  unfoldable pub accepted : Plan → TestResponse → BenchResult ℕ
  accepted plan resp =
      if resp.status == status_ok then ok resp.data_port else err (rejected plan resp.error)

  unfoldable pub run_test : ℕ → Plan → Exec BenchError BenchOutcome
  unfolding accepted
  run_test i plan = do
    write_all io (write_request (request_of opts plan))
    resp ← recv io read_response
    port ← lift (accepted plan resp)
    client_report ← lift (run_data i plan port)
    server_report ← recv io read_report
    write_all io (write_report client_report)
    pure (record { plan = plan; client = client_report; server = server_report })

  unfoldable pub run_plans : ℕ → List Plan → Exec BenchError (List BenchOutcome)
  run_plans i [] = pure []
  run_plans i (plan ∷ plans) = do
    outcome ← run_test i plan
    outcomes ← run_plans (suc i) plans
    pure (outcome ∷ outcomes)

  -- The conversation on the control connection.
  unfoldable pub converse : List Plan → Exec BenchError (List BenchOutcome)
  converse plans = do
    write_all io write_handshake
    recv io read_handshake
    outcomes ← run_plans 0 plans
    write_all io (write_request close)
    pure outcomes

-- `target`, or the address of the server that `--serve` starts: `serve`.
unfoldable pub choose_target : BenchOptions → BenchResult SocketAddr → BenchResult SocketAddr
choose_target opts serve = (if opts.serve then (serve |> λ a. ok (some a)) else ok none) |> λ guard.
    elim opts.target [ some t ↦ ok t | none ↦ elim guard [ some a ↦ ok a | none ↦ err no_target ] ]

unfoldable pub run_inner :
    Float64
    → BenchOptions
    → BenchResult SocketAddr
    → (IpAddr → List ℕ)
    → (TestTarget → Outcome ProxyPenError Conn)
    → (ℕ → SocketAddr → ClientPlane)
    → BenchResult (List BenchOutcome)
run_inner F opts serve to_string connect planes = choose_target opts serve |> λ target.
    elim (build_plans opts) [
      | [] ↦ err no_tests
      | plan ∷ plans ↦ map_err proxy (connect (synthetic_target to_string target)) |> λ control.
          (converse F opts target planes (plan ∷ plans) control).0
    ]
