-- ===== src/Bench/Server/Listen.antt =====
-- src/bench/server.rs: the listeners. Every connection has a session of its own, whose result is only logged.
use proxypen.Base.{ℕ, List, [], ◌∷◌, map, Outcome, ok, err, panic, stuck}
use proxypen.Error.{IoError}
use proxypen.Net.{SocketAddr}
use proxypen.Listener.{listen}
use proxypen.Stream.Conn.{Conn}
use proxypen.Bench.Stats.{Float64}
use proxypen.Bench.Server.{DataPlane, handle_session}

-- A connection, and what the system gives to its session
pub record Client : Type 0 where
  pub conn : Conn
  pub set_nodelay : Outcome IoError (Unit {0})
  pub planes : ℕ → DataPlane

abbrev pub Session : Type 0
Session = Outcome IoError (Unit {0}) × Conn

unfoldable pub session : Float64 → Client → Session
session F c = handle_session F c.planes c.set_nodelay c.conn

-- `run`: `bind` and `local_addr` have to succeed; the loop ends by the listener's error.
unfoldable pub run :
    Float64
    → Outcome IoError (Unit {0})
    → List (Outcome IoError Client)
    → List Session × Outcome IoError (Unit {0})
unfolding session
run F bind incoming = let (clients, end) = listen bind incoming in (map (session F) clients, end)

-- What the `select!` of `run_until_signal` sees
pub data Event : Type 0 where
  shutdown : Event
  accept : Outcome IoError Client → Event

unfoldable pub until_signal : Float64 → List Event → List Session × Outcome IoError (Unit {0})
unfolding session
until_signal F [] = ([], ok tt)
until_signal F (shutdown ∷ events) = ([], ok tt)
until_signal F (accept (ok c) ∷ events) =
    let (sessions, end) = until_signal F events in (session F c ∷ sessions, end)
until_signal F (accept (err e) ∷ events) = ([], err e)
until_signal F (accept panic ∷ events) = ([], panic)
until_signal F (accept stuck ∷ events) = ([], stuck)

-- The address that is signalled, if it is, the sessions and the end
unfoldable pub run_until_signal :
    Float64
    → Outcome IoError SocketAddr
    → List Event
    → Outcome IoError SocketAddr × List Session × Outcome IoError (Unit {0})
unfolding until_signal
run_until_signal F (ok local_addr) events =
    let (sessions, end) = until_signal F events in (ok local_addr, sessions, end)
run_until_signal F (err e) events = (err e, [], err e)
run_until_signal F panic events = (panic, [], panic)
run_until_signal F stuck events = (stuck, [], stuck)
