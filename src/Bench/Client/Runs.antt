-- ===== src/Bench/Client/Runs.antt =====
-- The plans of src/bench/client.rs.
use proxypen.Base.{◌≡◌, refl, [], ◌∷◌, length, true, none}
use proxypen.Bench.Client.{
  BenchOptions, both, both_ways, build_plans, for_each, want_tcp, want_udp, want_up, want_down,
}

abbrev options : BenchOptions
options = record {
  target = none;
  serve = true;
  mode = both;
  direction = both_ways;
  duration = 10_000_000_000;
  udp_bandwidth = 1_000_000 ∷ 5_000_000 ∷ [];
  udp_size = 1400;
  tcp_chunk = 65536;
}

six : length (build_plans options) ≡ 6
unfolding build_plans for_each want_tcp want_udp want_up want_down
six = refl
