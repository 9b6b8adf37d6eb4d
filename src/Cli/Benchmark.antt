-- ===== src/Cli/Benchmark.antt =====
-- src/main.rs: `run_benchmark`.
use proxypen.Base.{ℕ, ◌*◌, List, Bool, Option, none, some, Outcome, ok, ◌>>=◌, map_err}
use proxypen.Net.{IpAddr, SocketAddr}
use proxypen.Dns.{DnsConfig}
use proxypen.Transport.{Transport, Stream, tunnel, socket, connect_tcp}
use proxypen.Bench.Client.{BenchOptions, BenchMode, BenchDirection, both_ways}
use proxypen.Bench.Client
use proxypen.Bench.Client.Bandwidth.{Decimals, parse_bandwidth_list}
use proxypen.Error.{IoError, ProxyPenError}
use proxypen.Config.{TestTarget}
use proxypen.Direct.{Socket}
use proxypen.Stream.Conn.{Conn}
use proxypen.Bench.Stats.{Float64}
use proxypen.Bench.Server.Listen.{Client, Event}
use proxypen.Bench.Client.{ClientPlane, BenchOutcome}
use proxypen.Bench.Client.Control.{run_inner}
use proxypen.Bench.Client.Serve.{spawn_local_server}
use proxypen.Cli.Args.{
  bench, CliError, message, TransportArgs, build, build_dns, parse_bench_target,
}
use proxypen.Cli.Commands.{Env, resolver}

pub data BenchModeArg : Type 0 where
  tcp udp both : BenchModeArg

pub data BenchDirectionArg : Type 0 where
  up down either : BenchDirectionArg

-- `From<BenchModeArg>` and `From<BenchDirectionArg>`
unfoldable pub bench_mode : BenchModeArg → BenchMode
bench_mode tcp = Client.tcp
bench_mode udp = Client.udp
bench_mode both = Client.both

unfoldable pub bench_direction : BenchDirectionArg → BenchDirection
bench_direction up = Client.up
bench_direction down = Client.down
bench_direction either = both_ways

pub record BenchArgs : Type 0 where
  pub transport : TransportArgs
  pub target : Option (List ℕ)
  pub serve : Bool
  pub serve_port : Option ℕ
  pub mode : BenchModeArg
  pub direction : BenchDirectionArg
  -- In seconds
  pub duration : ℕ
  pub udp_bandwidth : List ℕ
  pub udp_size : ℕ
  pub tcp_chunk : ℕ

unfoldable pub bench_target :
    Env → Transport → Option DnsConfig → Option (List ℕ) → Outcome CliError (Option SocketAddr)
bench_target e transport dns none = ok none
bench_target e transport dns (some t) =
    parse_bench_target (resolver e transport) e.world.lookup_host t dns >>= λ a. ok (some a)

-- What a run of the benchmark meets beside the world of the tests: f64, the bind of the local server and what its
-- listener sees, what the listener of the server command gives, an address as text, the bytes of a stream that is the system's socket, and the tests' data.
pub record BenchWorld : Type 1 where
  pub float : Float64
  pub bind : SocketAddr → Outcome IoError SocketAddr
  pub events : List Event
  pub incoming : List (Outcome IoError Client)
  pub to_string : IpAddr → List ℕ
  pub on_socket : Socket → Conn
  pub planes : Transport → ℕ → SocketAddr → ClientPlane

abbrev conn_of : BenchWorld → Stream → Conn
conn_of b (tunnel c) = c
conn_of b (socket s) = b.on_socket s

-- `connect_tcp` of the transport
abbrev pub connect_control : Env → BenchWorld → Transport → TestTarget → Outcome ProxyPenError Conn
connect_control e b transport t =
    let w = e.world in
    connect_tcp w.codec w.addrs w.dialer w.net w.os w.lookup_host transport t >>= λ s.
    ok (conn_of b s)

-- `run` of src/bench/client.rs by its outcomes, which are those of `run_quiet`: the transport and the port of its server
-- are options as well. The lines that `run` prints besides are `printed` in Bench.Client.Report.
unfoldable pub run_client :
    Env → BenchWorld → Transport → Option ℕ → BenchOptions → Outcome CliError (List BenchOutcome)
run_client e b transport serve_port opts =
    let (serve, sessions) = spawn_local_server b.float b.bind serve_port b.events in
    map_err bench (
      run_inner b.float opts serve b.to_string (connect_control e b transport) (b.planes transport))

unfoldable pub run_benchmark :
    Env → Decimals → BenchWorld → BenchArgs → Outcome CliError (List BenchOutcome)
unfolding bench_target
run_benchmark e D b args = do
  transport ← build e.parse_url args.transport
  dns_cfg ← build_dns args.transport
  bandwidths ← map_err message (parse_bandwidth_list D args.udp_bandwidth)
  target ← bench_target e transport dns_cfg args.target
  run_client e b transport args.serve_port (record {
    target = target;
    serve = args.serve;
    mode = bench_mode args.mode;
    direction = bench_direction args.direction;
    duration = args.duration * 1000000000;
    udp_bandwidth = bandwidths;
    udp_size = args.udp_size;
    tcp_chunk = args.tcp_chunk;
  })
