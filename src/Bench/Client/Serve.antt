-- ===== src/Bench/Client/Serve.antt =====
-- src/bench/client.rs: the server that `--serve` starts in the client's process.
use proxypen.Base.{ℕ, List, Option, none, some, Outcome, ok, err, panic, stuck}
use proxypen.Error.{IoError}
use proxypen.Net.{SocketAddr, v4}
use proxypen.Bench.Stats.{Float64}
use proxypen.Bench.Server.Listen.{Session, Event, run_until_signal}
use proxypen.Bench.Client.{BenchResult, not_ready}

-- 127.0.0.1, and port 0 where none is given
abbrev pub local_bind : Option ℕ → SocketAddr
local_bind serve_port = record {
  ip = v4 127 0 0 1;
  port = elim serve_port [ none ↦ 0 | some port ↦ port ];
}

-- `ready_rx.await`: a server that fails before it is ready drops the sender.
unfoldable pub ready : Outcome IoError SocketAddr → BenchResult SocketAddr
ready (ok addr) = ok addr
ready (err e) = err not_ready
ready panic = err not_ready
ready stuck = stuck

-- The address for the client, and the sessions of the spawned task, whose error is only logged
unfoldable pub spawn_local_server :
    Float64
    → (SocketAddr → Outcome IoError SocketAddr)
    → Option ℕ
    → List Event
    → BenchResult SocketAddr × List Session
unfolding ready
spawn_local_server F bind serve_port events =
    let (local_addr, sessions, end) = run_until_signal F (bind (local_bind serve_port)) events in
    (ready local_addr, sessions)
