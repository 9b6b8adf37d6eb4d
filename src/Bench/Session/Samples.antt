-- ===== src/Bench/Session/Samples.antt =====
-- A client and a server of src/bench with one TCP upload of ten bytes, for the tests of the sessions.
use proxypen.Base.{◌^◌, ℕ, [], ◌∷◌, none, ok, err, true, arith}
use proxypen.Error.{IoError}
use proxypen.Net.{SocketAddr, v4}
use proxypen.Bench.Stats.{Float64}
use proxypen.Bench.Transfer.{done, bytes_report}
use proxypen.Bench.Server.{DataPlane}
use proxypen.Bench.Client.{BenchOptions, ClientPlane, tcp, up}
use proxypen.Bench.Session.{Test}

-- No datagrams, no jitter.
abbrev pub trivial : Float64
trivial = record {
  Carrier = Unit {0};
  zero = tt;
  from_u64 = λ n. tt;
  add = λ a b. tt;
  sub = λ a b. tt;
  div = λ a b. tt;
  as_u64 = λ n. 0;
  as_u64_bound = λ x. omega arith;
}

abbrev pub options : BenchOptions
options = record {
  target = none;
  serve = true;
  mode = tcp;
  direction = up;
  duration = 1;
  udp_bandwidth = [];
  udp_size = 1400;
  tcp_chunk = 64;
}

abbrev pub server_addr : SocketAddr
server_addr = record { ip = v4 127 0 0 1; port = 5201 }

abbrev pub plane : DataPlane
plane = record {
  listen = ok 4000;
  accept = ok tt;
  reads = done 10 ∷ [];
  clock = λ k. k;
  writes = λ k. done 10;
  pacer_start = 0;
  hello = err (IoError.unexpected_eof);
  packets = [];
  elapsed = 77;
}

abbrev pub client_plane : ClientPlane
client_plane = record {
  opened = ok tt;
  reads = [];
  clock = λ k. k;
  writes = λ k. done 10;
  pacer_start = 0;
  hello = ok tt;
  packets = [];
  elapsed = 55;
  clock_room = 2 ^ 62;
  vec_room = 2 ^ 62;
}

abbrev pub planes : ℕ → DataPlane
planes i = plane

abbrev pub client_planes : ℕ → SocketAddr → ClientPlane
client_planes i a = client_plane

abbrev pub upload : Test
upload = record {
  plan = record { kind = 0; bandwidth_bps = 0 };
  port = 4000;
  client = bytes_report 10 55;
  server = bytes_report 10 77;
}
