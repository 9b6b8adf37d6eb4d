-- ===== src/Cli/Main/Bench.antt =====
-- The exit status of the benchmark.
use proxypen.Base.{
  ◌*◌, ℕ, List, [], ◌∷◌, ◌≡◌, refl, ◌⊎◌, inl, inr, ◌↔◌, Option, none, some, Option-cases, arith,
  length, ◌==◌, ok_or, Outcome, ok, err, panic, stuck, Any, Returns, Ensures, Ensures-ok,
  Ensures-err, Ensures-if, Ensures-bind, Ensures-map_err, Ensures-ok_or, Ensures-Returns,
  Returns-Ensures,
}
use proxypen.Base.Trim.{trim}
use proxypen.Error.{IoError}
use proxypen.Net.{SocketAddr, parse_socket}
use proxypen.Config.{ProxyConfig, TestTarget}
use proxypen.Direct.Connected.{connect_tcp-IsTcpFor}
use proxypen.Dns.{split, DnsConfig}
use proxypen.Transport.{Transport, socks5, direct, connect_tcp}
use proxypen.Press.{Milliseconds}
use proxypen.Bench.Client.{BenchOptions, BenchOutcome, HasRoom}
use proxypen.Bench.Client.Bandwidth.{
  Decimals, suffix, parse_bandwidth, collect, parse_bandwidth_list,
}
use proxypen.Bench.Stats.{Float64}
use proxypen.Bench.Client.Serve.{local_bind, ready, spawn_local_server}
use proxypen.Bench.Client.Data.Ends
use proxypen.Bench.Client.Ends.{run_inner-Returns}
use proxypen.Bench.Server.Listen.{Event, run_until_signal}
use proxypen.Cli.Args.{CliError, message, pen, io, bench, parse_bench_target}
use proxypen.Cli.Args.Ends.{split_host_port-Any, build-Ensures, build_dns-Ensures}
use proxypen.Cli.Commands.{Env, resolver}
use proxypen.Cli.Commands.Exits.{Comes, resolver-Returns}
use proxypen.Cli.Benchmark.{
  BenchArgs, BenchWorld, bench_target, connect_control, run_client, run_benchmark,
}
use proxypen.Cli.Main.{Cli, benchmark, Runners, exit_status, main}

-- A tunnel through the proxy, the bind of the local server and the calls of the tests come back, and the clock of
-- each test moves on with each reading. The system has room for the buffers and the deadlines of the arguments.
pub record BenchComes (e : Env) (b : BenchWorld) (args : BenchArgs) : Type 0 where
  pub tunnels :
      (config : ProxyConfig) (t : TestTarget)
      → Returns (
          package.proxypen.Socks.Connector.connect e.world.codec e.world.addrs e.world.dialer config
            t)
  pub bind : (a : SocketAddr) → Returns (b.bind a)
  pub planes :
      (transport : Transport) (i : ℕ) (a : SocketAddr) → Ends.Answers (b.planes transport i a)
  pub room :
      (transport : Transport) (i : ℕ) (a : SocketAddr)
      → HasRoom (b.planes transport i a) (args.duration * 1000000000) args.udp_size args.tcp_chunk

parse_bandwidth-Any : (D : Decimals) (raw : List ℕ) → Ensures Any (parse_bandwidth D raw)
unfolding parse_bandwidth
parse_bandwidth-Any D raw =
    Ensures-if (length (trim raw) == 0) _ _ (λ _. Ensures-err)
      λ _.
        Ensures-bind {P = Any} (ok_or (D.parse (suffix (trim raw)).0) "invalid bandwidth value") _
          (Ensures-ok_or _ _) λ n _. Ensures-ok tt

collect-Any : (D : Decimals) (ps : List (List ℕ)) → Ensures Any (collect D ps)
unfolding collect
collect-Any D [] = Ensures-ok tt
collect-Any D (p ∷ ps) =
    Ensures-bind _ _ (parse_bandwidth-Any D (trim p))
      λ n _. Ensures-bind _ _ (collect-Any D ps) λ ns _. Ensures-ok tt

parse_bandwidth_list-Any : (D : Decimals) (s : List ℕ) → Ensures Any (parse_bandwidth_list D s)
unfolding parse_bandwidth_list
parse_bandwidth_list-Any D s = collect-Any D (split b',' s)

parse_bench_target-Any :
    (e : Env) (transport : Transport) (raw : List ℕ) (dns : Option DnsConfig)
    → Comes e
    → Ensures Any (parse_bench_target (resolver e transport) e.world.lookup_host raw dns)
unfolding parse_bench_target
parse_bench_target-Any e transport raw (some d) c = elim (Option-cases (parse_socket raw)) [
  | inr (a, f) ↦ rw (f, parse_bench_target) (Ensures-ok tt)
  | inl f ↦
      rw (f, parse_bench_target)
        (Ensures-bind _ _ (split_host_port-Any raw) λ hp _.
          Ensures-bind _ _
            (Ensures-map_err pen _ (Returns-Ensures _ (resolver-Returns e transport d (hp.0) c)))
            λ ip _. Ensures-ok tt)
]
parse_bench_target-Any e transport raw none c = elim (Option-cases (parse_socket raw)) [
  | inr (a, f) ↦ rw (f, parse_bench_target) (Ensures-ok tt)
  | inl f ↦
      rw (f, parse_bench_target)
        (Ensures-bind _ _ (Ensures-map_err io _ (Returns-Ensures _ (c.lookup_host raw)))
          λ found _. Ensures-ok_or _ _)
]

bench_target-Any :
    (e : Env) (transport : Transport) (dns : Option DnsConfig) (t : Option (List ℕ))
    → Comes e
    → Ensures Any (bench_target e transport dns t)
unfolding bench_target
bench_target-Any e transport dns none c = Ensures-ok tt
bench_target-Any e transport dns (some t) c =
    Ensures-bind _ _ (parse_bench_target-Any e transport t dns c) λ a _. Ensures-ok tt

ready-Returns :
    (F : Float64) (bound : Outcome IoError SocketAddr) (events : List Event)
    → Returns bound
    → Returns (ready (run_until_signal F bound events).0)
unfolding ready run_until_signal
ready-Returns F (ok a) events h = tt
ready-Returns F (err x) events h = tt
ready-Returns F panic events h = absurd h
ready-Returns F stuck events h = absurd h

module _ (e : Env) (b : BenchWorld) (args : BenchArgs) (c : Comes e) (k : BenchComes e b args) where
  connect_control-Any :
      (transport : Transport) (t : TestTarget) → Ensures Any (connect_control e b transport t)
  unfolding connect_tcp
  connect_control-Any (socks5 config) t =
      Ensures-bind {P = Any} _ _
        (Ensures-bind _ _ (Returns-Ensures _ (k.tunnels config t)) λ conn _. Ensures-ok tt)
        λ s _. Ensures-ok tt
  connect_control-Any (direct config) t =
      Ensures-bind {P = Any} _ _
        (Ensures-bind _ _
          (connect_tcp-IsTcpFor e.world.os c.system e.world.lookup_host t config.interface
            (Returns-Ensures _ (c.lookup_host _)))
          λ s _. Ensures-ok tt)
        λ s _. Ensures-ok tt

  served :
      (serve_port : Option ℕ) → Returns (spawn_local_server b.float b.bind serve_port b.events).0
  unfolding spawn_local_server run_until_signal ready
  served serve_port = ready-Returns b.float (b.bind (local_bind serve_port)) b.events (k.bind _)

  run_client-Any :
      (transport : Transport) (serve_port : Option ℕ) (opts : BenchOptions)
      → ((i : ℕ) (a : SocketAddr)
          → HasRoom (b.planes transport i a) opts.duration opts.udp_size opts.tcp_chunk)
      → Ensures Any (run_client e b transport serve_port opts)
  unfolding run_client
  run_client-Any transport serve_port opts room = Ensures-map_err bench _ (
      Returns-Ensures _ (
        run_inner-Returns b.float opts (b.planes transport) (k.planes transport) room _ b.to_string
          (connect_control e b transport) (served serve_port)
          λ t. Ensures-Returns _ (connect_control-Any transport t)))

  run_benchmark-Any : (D : Decimals) → Ensures Any (run_benchmark e D b args)
  unfolding run_benchmark
  run_benchmark-Any D =
      Ensures-bind _ _ (build-Ensures e.parse_url args.transport c.parse_url) λ transport _.
        Ensures-bind _ _ (build_dns-Ensures args.transport) λ dns _.
          Ensures-bind _ _
            (Ensures-map_err message _ (parse_bandwidth_list-Any D args.udp_bandwidth))
            λ bandwidths _.
              Ensures-bind _ _ (bench_target-Any e transport dns args.target c)
                λ target _. run_client-Any transport args.serve_port _ (k.room transport)

exit_status-benchmark :
    (r : Outcome CliError (List BenchOutcome))
    → Ensures Any r
    → ((exit_status (λ _. 0) r ≡ 0) ↔ ((outcomes : List BenchOutcome) × (r ≡ ok outcomes)))
      × ((exit_status (λ _. 0) r ≡ 0) ⊎ (exit_status (λ _. 0) r ≡ 1))
unfolding exit_status
exit_status-benchmark (ok outcomes) h = ((λ z. (outcomes, refl), λ q. refl), inl refl)
exit_status-benchmark (err e) h = ((λ z. absurd (omega arith), λ (outcomes, q). cc), inr refl)
exit_status-benchmark panic h = absurd h.holds
exit_status-benchmark stuck h = absurd h.holds

-- Where all that `Comes` and `BenchComes` name comes back, the benchmark exits with 0 or 1, whatever its server
-- sends, and with 0 exactly when it ran and has its outcomes.
pub main-run_benchmark :
    (M : Milliseconds) (D : Decimals) (e : Env) (b : BenchWorld) (r : Runners M) (cli : Cli)
    (args : BenchArgs)
    → Comes e
    → BenchComes e b args
    → cli.command ≡ some (benchmark args)
    → ((main M D e b r cli ≡ 0)
        ↔ ((outcomes : List BenchOutcome) × (run_benchmark e D b args ≡ ok outcomes)))
      × ((main M D e b r cli ≡ 0) ⊎ (main M D e b r cli ≡ 1))
unfolding main
main-run_benchmark M D e b r cli args c k given =
    rw (given, main)
      (exit_status-benchmark (run_benchmark e D b args) (run_benchmark-Any e b args c k D))
