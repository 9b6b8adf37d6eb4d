-- ===== src/Cli/Commands.antt =====
-- src/main.rs: `run_test`, and what the commands share. What is printed is a value, and the exit status is a number:
-- 0, 1 for an error or for failed tests, 101 for a panic.
pub mod Exits
use proxypen.Base.{
  ℕ, ◌*◌, ◌<◌, List, [], ◌∷◌, ◌++◌, concat, Bool, true, false, Option, none, some, ◌&&◌, ltb, ◌==◌,
  if◌then◌else◌, codes, String, Outcome, ok, err, panic, stuck, ◌>>=◌, map_err, ok_or,
}
use proxypen.Base.Decimal.{decimal}
use proxypen.Error.{IoError, ProxyPenError}
use proxypen.Net.{IpAddr, SocketAddr}
use proxypen.Config.{TestTarget, host_port}
use proxypen.Dns.{DnsConfig}
use proxypen.Dns.Resolve.{Wire, resolve_a}
use proxypen.Transport.{Transport}
use proxypen.Results.{Protocol, TestStatus, success, failed, TestResult}
use proxypen.ProxyPen.{World, test_http1, test_http2, test_http3, test_all}
use proxypen.Press.{Milliseconds, PressResult}
use proxypen.HttpServer.{HttpServerConfig, Servers}
use proxypen.HttpServer
use proxypen.Bench.Client.{BenchOptions, BenchMode, BenchDirection, both_ways}
use proxypen.Bench.Client
use proxypen.Bench.Client.Bandwidth.{Decimals, parse_bandwidth_list}
use proxypen.Cli.Args.{
  CliError, message, UrlParser, TransportArgs, build, build_dns, parse_target_url,
  parse_bench_target,
}
use proxypen.Cli.Resolve.{resolve}

-- What the commands share: the url crate, the network under the queries of the resolver, and what the tests meet.
pub record Env : Type 0 where
  pub parse_url : UrlParser
  pub wire : Transport → DnsConfig → Wire
  pub world : World

-- The resolver over a transport
abbrev pub resolver : Env → Transport → DnsConfig → List ℕ → Outcome ProxyPenError IpAddr
resolver e transport dns host =
    let w = e.world in
    resolve_a w.codec w.addrs w.dialer w.net w.os (e.wire transport dns) transport dns host

pub data ProtocolArg : Type 0 where
  http1 http2 http3 all : ProtocolArg

pub record TestArgs : Type 0 where
  pub transport : TransportArgs
  pub target : Option (List ℕ)
  pub protocol : ProtocolArg
  pub resolve : Bool

-- A call without errors
abbrev pub without_error {ℓ} : {A : Type ℓ} → Outcome ⊥ A → Outcome CliError A
without_error r = map_err (λ e. absurd e) r

only : Outcome ⊥ TestResult → Outcome CliError (List TestResult)
only r = without_error r >>= λ x. ok (x ∷ [])

unfoldable pub run_tests :
    World → ProtocolArg → Transport → TestTarget → Outcome CliError (List TestResult)
unfolding only
run_tests w http1 transport t = only (test_http1 w transport t)
run_tests w http2 transport t = only (test_http2 w transport t)
run_tests w http3 transport t = only (test_http3 w transport t)
run_tests w all transport t = without_error (test_all w transport t)

abbrev pub is_success : TestStatus → Bool
is_success success = true
is_success (failed e) = false

abbrev pub all_success : List TestResult → Bool
all_success [] = true
all_success (r ∷ rs) = is_success r.status && all_success rs

unfoldable pub header_line : TransportArgs → TestTarget → List ℕ
header_line args t = elim args.proxy [
  | some proxy ↦
      concat (codes "Testing proxy " ∷ proxy ∷ codes " -> " ∷ host_port t.host t.port ∷ [])
  | none ↦ elim args.interface [
    | none ↦ codes "Testing direct -> " ++ host_port t.host t.port
    | some iface ↦ concat (
        codes "Testing direct -> "
        ∷ host_port t.host t.port
        ∷ codes " (interface: "
        ∷ iface
        ∷ codes ")"
        ∷ [])
  ]
]

-- What `run_test` prints, and how it exits
pub record TestRun : Type 0 where
  pub header : List ℕ
  pub results : List TestResult
  pub exit : ℕ

unfoldable pub run_test : Env → TestArgs → Outcome CliError TestRun
run_test e args = do
  transport ← build e.parse_url args.transport
  dns_cfg ← build_dns args.transport
  target_url ← ok_or args.target (message "--target is required")
  parsed ← parse_target_url e.parse_url target_url false
  target ← resolve (resolver e transport) e.world.lookup_host dns_cfg args.resolve parsed
  results ← run_tests e.world args.protocol transport target
  ok (record {
    header = header_line args.transport target;
    results = results;
    exit = (if all_success results then 0 else 1);
  })
