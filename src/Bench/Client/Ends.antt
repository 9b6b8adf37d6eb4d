-- ===== src/Bench/Client/Ends.antt =====
-- The client of src/bench/client.rs comes back, whatever the server sends.
use proxypen.Base.{
  Any, All-map, Returns-Ensures, ℕ, suc, ◌≤◌, ◌<◌, List, [], ◌∷◌, All, length, ◌==◌, ◌||◌, arith,
  Option, none, some, Outcome, ok, err, map_err, Returns, Ensures, Ensures-ok, Ensures-err,
  Ensures-if, Ensures-bind, Ensures-mono, Ensures-map_err, Ensures-Returns,
}
use proxypen.Error.{ProxyPenError}
use proxypen.Net.{IpAddr, SocketAddr}
use proxypen.Config.{TestTarget}
use proxypen.Stream.Takes.{Shrinks-Takes}
use proxypen.Stream.Conn.{Conn, recv, write_all, lift}
use proxypen.Stream.Within.{Within, next-Within, write_all-Within, lift-Within, recv-Within}
use proxypen.Bench.Protocol.{
  status_ok, write_request, write_report, write_handshake, read_handshake, read_response,
  read_report, close, kind_tcp_up, kind_tcp_down, kind_udp_up, kind_udp_down, TestResponse,
}
use proxypen.Bench.Protocol.Refusals.{
  read_report-Takes, read_handshake-Shrinks, read_response-Shrinks,
}
use proxypen.Bench.Stats.{Float64}
use proxypen.Bench.Client.{
  BenchError, io, proxy, no_target, no_tests, BenchOptions, Plan, ClientPlane, HasRoom, build_plans,
  BenchResult, ◌|>◌,
}
use proxypen.Bench.Client.Plans.{Wanted, build_plans-Wanted}
use proxypen.Bench.Client.Data.Ends.{Answers, run_tcp_data-Any, run_udp_up-Any, run_udp_down-Any}
use proxypen.Bench.Client.Control.{
  synthetic_target, request_of, run_data, accepted, run_test, run_plans, converse, choose_target,
  run_inner,
}

module _ (F : Float64) (opts : BenchOptions) (planes : ℕ → SocketAddr → ClientPlane)
    (answers : (i : ℕ) (a : SocketAddr) → Answers (planes i a))
    (room : (i : ℕ) (a : SocketAddr)
      → HasRoom (planes i a) opts.duration opts.udp_size opts.tcp_chunk) where
  module _ (target : SocketAddr) where
    run_data-Any :
        (i : ℕ) (plan : Plan) (data_port : ℕ)
        → plan.kind < 4
        → Ensures Any (run_data F opts target planes i plan data_port)
    unfolding run_data
    run_data-Any i plan data_port k =
        let d = planes i (record { ip = target.ip; port = data_port }) in
        let a = answers i (record { ip = target.ip; port = data_port }) in
        let r = room i (record { ip = target.ip; port = data_port }) in
        Ensures-if (plan.kind == kind_tcp_up || plan.kind == kind_tcp_down) _ _
          (λ _. run_tcp_data-Any d a opts.duration opts.udp_size opts.tcp_chunk r plan.kind)
          λ not_tcp.
            Ensures-if (plan.kind == kind_udp_up) _ _
              (λ _.
                run_udp_up-Any d a opts.duration opts.udp_size opts.tcp_chunk r plan.bandwidth_bps)
              λ not_up.
                Ensures-if (plan.kind == kind_udp_down) _ _
                  (λ _. run_udp_down-Any d a opts.duration opts.udp_size opts.tcp_chunk r F)
                  (λ not_down. ground arith)

    accepted-Any :
        (plan : Plan) (resp : TestResponse) → Ensures Any (accepted F opts target planes plan resp)
    unfolding accepted
    accepted-Any plan resp =
        Ensures-if (resp.status == status_ok) _ _ (λ _. Ensures-ok tt) λ _. Ensures-err

    run_test-Within :
        (i : ℕ) (plan : Plan) (n : ℕ) (c : Conn)
        → plan.kind < 4
        → length c.inbox ≤ n
        → Within n (run_test F opts target planes i plan c)
    unfolding run_test
    run_test-Within i plan n c k h =
        next-Within n n _ (write_all io (write_request (request_of opts plan)) c)
          (write_all-Within io _ n c h)
          λ _ c1 h1.
            next-Within n n _ (recv io read_response c1)
              (recv-Within io n read_response c1 read_response-Shrinks h1)
              λ resp c2 h2.
                next-Within n n _ (lift (accepted F opts target planes plan resp) c2)
                  (lift-Within _ n c2 (accepted-Any plan resp) h2)
                  λ port c3 h3.
                    next-Within n n _ (lift (run_data F opts target planes i plan port) c3)
                      (lift-Within _ n c3 (run_data-Any i plan port k) h3)
                      λ client_report c4 h4.
                        next-Within n n _ (recv io read_report c4)
                          (recv-Within io n read_report c4 (Shrinks-Takes 80 _ read_report-Takes)
                            h4)
                          λ server_report c5 h5.
                            next-Within n n _ (write_all io (write_report client_report) c5)
                              (write_all-Within io _ n c5 h5) λ _ c6 h6. Ensures-ok h6

    run_plans-Within :
        (plans : List Plan) (i n : ℕ) (c : Conn)
        → All (λ p. p.kind < 4) plans
        → length c.inbox ≤ n
        → Within n (run_plans F opts target planes i plans c)
    unfolding run_plans
    run_plans-Within [] i n c k h = Ensures-ok h
    run_plans-Within (plan ∷ plans) i n c k h =
        next-Within n n _ (run_test F opts target planes i plan c)
          (run_test-Within i plan n c k.0 h)
          λ outcome c1 h1.
            next-Within n n _ (run_plans F opts target planes (suc i) plans c1)
              (run_plans-Within plans (suc i) n c1 k.1 h1) λ outcomes c2 h2. Ensures-ok h2

    converse-Within :
        (plans : List Plan) (n : ℕ) (c : Conn)
        → All (λ p. p.kind < 4) plans
        → length c.inbox ≤ n
        → Within n (converse F opts target planes plans c)
    unfolding converse
    converse-Within plans n c k h =
        next-Within n n _ (write_all io write_handshake c)
          (write_all-Within io write_handshake n c h)
          λ _ c1 h1.
            next-Within n n _ (recv io read_handshake c1)
              (recv-Within io n read_handshake c1 read_handshake-Shrinks h1)
              λ _ c2 h2.
                next-Within n n _ (run_plans F opts target planes 0 plans c2)
                  (run_plans-Within plans 0 n c2 k h2)
                  λ outcomes c3 h3.
                    next-Within n n _ (write_all io (write_request close) c3)
                      (write_all-Within io _ n c3 h3) λ _ c4 h4. Ensures-ok h4

  picked_target :
      (t guard : Option SocketAddr)
      → Ensures {E = BenchError} Any
          (elim t [ some a ↦ ok a | none ↦ elim guard [ some a ↦ ok a | none ↦ err no_target ] ])
  picked_target (some a) guard = Ensures-ok tt
  picked_target none (some a) = Ensures-ok tt
  picked_target none none = Ensures-err

  choose_target-Any :
      (serve : BenchResult SocketAddr) → Ensures Any serve → Ensures Any (choose_target opts serve)
  unfolding choose_target
  choose_target-Any serve h =
      Ensures-bind {P = Any} _ _
        (Ensures-if opts.serve _ _ (λ _. Ensures-bind serve _ h λ _ _. Ensures-ok tt)
          λ _. Ensures-ok tt)
        λ guard _. picked_target opts.target guard

  -- Whatever the server sends, and wherever the connection breaks: if the local server and the connections of the
  -- transport come back, the system's calls do, its clock moves on with each reading, and there is room for the buffers
  -- and the deadlines of the options, then a run of the benchmark
  -- comes back, with its outcomes or an error. No kind of test is met that the client cannot run.
  pub run_inner-Returns :
      (serve : BenchResult SocketAddr) (to_string : IpAddr → List ℕ)
      (connect : TestTarget → Outcome ProxyPenError Conn)
      → Returns serve
      → ((t : TestTarget) → Returns (connect t))
      → Returns (run_inner F opts serve to_string connect planes)
  unfolding run_inner
  run_inner-Returns serve to_string connect s h = Ensures-Returns {P = Any} _ (
      Ensures-bind _ _ (choose_target-Any serve (Returns-Ensures serve s)) λ target _.
        planned target (build_plans opts) (
          All-map (Wanted opts) (λ p. p.kind < 4) (build_plans opts) (λ p w. w.known)
            (build_plans-Wanted opts)))
    where
      planned :
          (target : SocketAddr) (plans : List Plan)
          → All (λ p. p.kind < 4) plans
          → Ensures Any (elim plans [
            | [] ↦ err no_tests
            | plan ∷ more ↦
                map_err proxy (connect (synthetic_target to_string target)) |> λ control.
                (converse F opts target planes (plan ∷ more) control).0
          ])
      planned target [] k = Ensures-err
      planned target (plan ∷ more) k =
          let t = synthetic_target to_string target in
          Ensures-bind _ _ (Ensures-map_err proxy (connect t) (Returns-Ensures (connect t) (h t)))
            λ control _.
              Ensures-mono _ (λ _ _. tt)
                (converse-Within target (plan ∷ more) (length control.inbox) control k
                  (omega arith))
