-- ===== src/Cli/Main.antt =====
-- src/main.rs: the choice of a command, and the exit status.
pub mod Status
pub mod Bench
mod Runs
use proxypen.Bench.Server.Listen.{run}
use proxypen.Base.{
  String, List, ◌>>=◌, map_err, ℕ, Option, none, some, Outcome, ok, err, panic, stuck,
}
use proxypen.Net.{IpAddr}
use proxypen.Transport.{Transport}
use proxypen.Press.{Milliseconds, PressResult}
use proxypen.Error.{IoError}
use proxypen.HttpServer.{HttpServerConfig, Servers, serve}
use proxypen.Bench.Client.Bandwidth.{Decimals}
use proxypen.Cli.Args.{message, io, CliError}
use proxypen.Cli.Commands.{Env, TestArgs, run_test}
use proxypen.Cli.Press.{PressArgs, PressOptions, run_press}
use proxypen.Cli.Benchmark.{BenchArgs, BenchWorld, run_benchmark}

pub record ServeHttpArgs : Type 0 where
  pub bind : IpAddr
  pub http1_port : ℕ
  pub http2_port : ℕ
  pub http3_port : ℕ
  pub response_size : ℕ

-- The configuration that `run_serve_http` makes
unfoldable pub http_config : ServeHttpArgs → HttpServerConfig
http_config args = record {
  bind = args.bind;
  http1_port = args.http1_port;
  http2_port = args.http2_port;
  http3_port = args.http3_port;
  response_size = args.response_size;
}

pub record ServerArgs : Type 0 where
  pub bind : IpAddr
  pub port : ℕ

pub data Command : Type 0 where
  test : TestArgs → Command
  benchmark : BenchArgs → Command
  server : ServerArgs → Command
  press : PressArgs → Command
  serve_http : ServeHttpArgs → Command

pub record Cli : Type 0 where
  pub command : Option Command
  pub test_args : TestArgs

-- `main` returns what a command returns: its exit status
unfoldable pub exit_status : {A : Type 0} → (A → ℕ) → Outcome CliError A → ℕ
exit_status f (ok a) = f a
exit_status f (err e) = 1
exit_status f panic = 101
exit_status f stuck = 101

-- What the commands run beside the tests and the benchmark: a press run, rcgen's
-- certificate and the listeners of the HTTP server
pub record Runners (M : Milliseconds) : Type 0 where
  pub press : PressOptions → Outcome ⊥ (PressResult M)
  pub certificate : Outcome String (Unit {0})
  pub listeners : Servers → List (Outcome IoError (Unit {0}))

module _ (M : Milliseconds) (D : Decimals) (e : Env) (b : BenchWorld) (r : Runners M) where
  run_bench_server : ServerArgs → Outcome CliError (Unit {0})
  run_bench_server args =
      let bound = b.bind (record { ip = args.bind; port = args.port }) in
      let (sessions, end) = run b.float (bound >>= λ local. ok tt) b.incoming in map_err io end

  run_serve_http : ServeHttpArgs → Outcome CliError (Unit {0})
  run_serve_http args = map_err message (serve (http_config args) r.certificate r.listeners)

  unfoldable pub dispatch : Command → ℕ
  unfolding run_bench_server run_serve_http
  dispatch (test args) = exit_status (λ run. run.exit) (run_test e args)
  dispatch (benchmark args) = exit_status (λ _. 0) (run_benchmark e D b args)
  dispatch (server args) = exit_status (λ _. 0) (run_bench_server args)
  dispatch (press args) = exit_status (λ run. run.1) (run_press M e r.press args)
  dispatch (serve_http args) = exit_status (λ _. 0) (run_serve_http args)

  -- No command means the test with the flat flags.
  unfoldable pub main : Cli → ℕ
  unfolding dispatch
  main cli = dispatch (elim cli.command [ none ↦ test cli.test_args | some c ↦ c ])
