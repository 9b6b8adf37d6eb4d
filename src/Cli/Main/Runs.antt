-- ===== src/Cli/Main/Runs.antt =====
-- Command lines for the tests and for the benchmark.
use proxypen.Base.{
  ◌^◌, leb, inl, ◌-◌, ◌⊎◌, ◌/◌, ◌↔◌, panic, ◌+◌, ◌*◌, ℕ, List, [], ◌≡◌, refl, true, false, none,
  some, codes, ok, Ensures-ok, arith,
}
use proxypen.Dns.Resolve.{Wire}
use proxypen.ProxyPen.Samples.{world, world-Answers}
use proxypen.Cli.Commands.{Env, all, TestArgs}
use proxypen.Cli.Commands.Exits.{Comes}
use proxypen.Cli.Benchmark.{BenchArgs, BenchWorld, tcp, either, run_benchmark}
use proxypen.Cli.Main.Bench.{BenchComes, main-run_benchmark}
use proxypen.Bench.Client.{BenchOutcome}
use proxypen.Bench.Transfer.{done}
use proxypen.Bench.Session.Samples.{trivial}
use proxypen.Cli.Main.{benchmark, Cli, Runners, main}
use proxypen.Cli.Main.Status.{Passes, main-Passes}
use proxypen.Press.{Milliseconds}
use proxypen.Cli.Samples.{parse_url, decimals}

-- A network that takes a query and gives nothing back
abbrev silent : Wire
silent = record { sent = λ d. ok tt; received = λ d. none; subsec_nanos = 7 }

abbrev env : Env
env = record { parse_url = parse_url; wire = λ transport d. silent; world = world }

env-Comes : Comes env
unfolding proxypen.Socks.Associate.associate
env-Comes = record {
  parse_url = λ s. tt;
  system = λ c. Ensures-ok tt;
  associated = λ config. tt;
  ip_addr = λ a. tt;
  wire = λ transport d. record { sent = λ datagram. tt; received = λ datagram. tt };
  lookup_host = λ s. tt;
  tests = world-Answers;
}

abbrev args : TestArgs
args = record {
  transport = record { proxy = none; interface = none; dns_server = some (codes "9.9.9.9") };
  target = some (codes "https://[::1]/");
  protocol = all;
  resolve = false;
}

abbrev milliseconds : Milliseconds
milliseconds = record {
  Carrier = ℕ;
  zero_ms = 0;
  add = λ a b. a + b;
  div = λ a b. a / b;
  from_usize = λ n. n;
  rank = λ p n. p * (n - 1) / 100;
  in_ms = λ d. d / 1000000;
  not_greater = leb;
  per_second = λ n d. n;
}

abbrev runners : Runners milliseconds
runners = record { press = λ opts. panic; certificate = ok tt; listeners = λ servers. [] }

-- A benchmark whose server gives nothing
abbrev bench_world : BenchWorld
bench_world = record {
  float = trivial;
  bind = λ a. ok a;
  events = [];
  incoming = [];
  to_string = λ ip. [];
  on_socket = λ s. record { inbox = []; outbox = []; room = 100 };
  planes = λ transport i a. record {
    opened = ok tt;
    reads = [];
    clock = λ j. j;
    writes = λ j. done 1;
    pacer_start = 0;
    hello = ok tt;
    packets = [];
    elapsed = 0;
    clock_room = 2 ^ 62;
    vec_room = 2 ^ 62;
  };
}

abbrev flat : Cli
flat = record { command = none; test_args = args }

main-Passes_example :
    ((main milliseconds decimals env bench_world runners flat ≡ 0) ↔ Passes env args)
    × ((main milliseconds decimals env bench_world runners flat ≡ 0)
        ⊎ (main milliseconds decimals env bench_world runners flat ≡ 1))
main-Passes_example =
    main-Passes milliseconds decimals env bench_world runners flat args env-Comes (inl (refl, refl))

abbrev bench_args : BenchArgs
bench_args = record {
  transport = record { proxy = none; interface = none; dns_server = none };
  target = none;
  serve = true;
  serve_port = none;
  mode = tcp;
  direction = either;
  duration = 1;
  udp_bandwidth = codes "1M";
  udp_size = 1200;
  tcp_chunk = 65536;
}

abbrev bench_cli : Cli
bench_cli = record { command = some (benchmark bench_args); test_args = args }

bench_world-BenchComes : BenchComes env bench_world bench_args
unfolding package.proxypen.Socks.Connector.connect
bench_world-BenchComes = record {
  tunnels = λ config t. tt;
  bind = λ a. tt;
  planes = λ transport i a. record {
    opened = Ensures-ok tt;
    hello = Ensures-ok tt;
    packets = tt;
    ticks = λ j. omega arith;
  };
  room = λ transport i a. record {
    deadline = omega arith;
    datagram = omega arith;
    chunk = omega arith;
  };
}

main-run_benchmark_example :
    ((main milliseconds decimals env bench_world runners bench_cli ≡ 0) ↔ (
      (outcomes : List BenchOutcome) × (run_benchmark env decimals bench_world bench_args
        ≡ ok outcomes)))
    × ((main milliseconds decimals env bench_world runners bench_cli ≡ 0)
        ⊎ (main milliseconds decimals env bench_world runners bench_cli ≡ 1))
main-run_benchmark_example =
    main-run_benchmark milliseconds decimals env bench_world runners bench_cli bench_args env-Comes
      bench_world-BenchComes refl
