-- ===== src/Bench/Session/Local.antt =====
-- src/bench/client.rs with --serve: the client and the server in one process.
use proxypen.Base.{
  ℕ, ◌-◌, ◌≤◌, ◌≡◌, refl, ap, List, [], ◌∷◌, ◌++◌, map, length, true, Option, none, Outcome, ok,
}
use proxypen.Error.{IoError, ProxyPenError}
use proxypen.Net.{IpAddr, SocketAddr}
use proxypen.Config.{TestTarget}
use proxypen.Stream.Conn.{Conn}
use proxypen.Bench.Protocol.{write_handshake}
use proxypen.Bench.Stats.{Float64}
use proxypen.Bench.Server.{DataPlane}
use proxypen.Bench.Server.Listen.{session, Event, accept, shutdown, until_signal, run_until_signal}
use proxypen.Bench.Client.{BenchOptions, build_plans, ClientPlane}
use proxypen.Bench.Client.Control.{synthetic_target, choose_target, run_inner}
use proxypen.Bench.Client.Serve.{local_bind, ready, spawn_local_server}
use proxypen.Bench.Session.{Test, outcome, AllGo, client_bytes, server_bytes}
use proxypen.Bench.Session.Served.{conn, handle_session-served}
use proxypen.Bench.Session.Agreement.{converse-ok}

module _ (F : Float64) (opts : BenchOptions) (addr : SocketAddr) (planes : ℕ → DataPlane)
    (client_planes : ℕ → SocketAddr → ClientPlane) where
  served_target : opts.serve ≡ true → opts.target ≡ none → choose_target opts (ok addr) ≡ ok addr
  unfolding choose_target
  served_target s n = rw (s, n) refl

  run_inner-ok :
      (to_string : IpAddr → List ℕ) (connect : TestTarget → Outcome ProxyPenError Conn) (t : Test)
      (ts : List Test) (room : ℕ)
      → choose_target opts (ok addr) ≡ ok addr
      → build_plans opts ≡ map (λ t. t.plan) (t ∷ ts)
      → connect (synthetic_target to_string addr)
        ≡ ok (conn (write_handshake ++ server_bytes (t ∷ ts)) [] room)
      → AllGo F opts addr planes client_planes 0 (t ∷ ts)
      → length (write_handshake ++ client_bytes opts (t ∷ ts)) ≤ room
      → run_inner F opts (ok addr) to_string connect client_planes ≡ ok (map outcome (t ∷ ts))
  unfolding run_inner
  run_inner-ok to_string connect t ts room s p c g h =
      let e = converse-ok F opts addr planes client_planes (t ∷ ts) room g h in
      rw (s, p, c) (ap (λ r. r.0) e)

  -- With --serve and without a target, let the server get the address `addr` for 127.0.0.1 and the port of
  -- --serve-port, or port 0. Let the tests of the options' plans go as said on both sides, and let the client's
  -- connection carry all bytes. Then the client returns both reports of each test, in the order of the plans; and the
  -- server, which is shut down behind its first connection, hands out that address and has had that one session, which
  -- reads the client's bytes, writes the server's and ends without an error.
  pub run_inner-spawn_local_server :
      (bind : SocketAddr → Outcome IoError SocketAddr) (serve_port : Option ℕ)
      (to_string : IpAddr → List ℕ) (connect : TestTarget → Outcome ProxyPenError Conn) (t : Test)
      (ts : List Test) (room : ℕ) (more : List Event)
      → opts.serve ≡ true
      → opts.target ≡ none
      → build_plans opts ≡ map (λ t. t.plan) (t ∷ ts)
      → bind (local_bind serve_port) ≡ ok addr
      → connect (synthetic_target to_string addr)
        ≡ ok (conn (write_handshake ++ server_bytes (t ∷ ts)) [] room)
      → AllGo F opts addr planes client_planes 0 (t ∷ ts)
      → length (write_handshake ++ client_bytes opts (t ∷ ts)) ≤ room
      → length (write_handshake ++ server_bytes (t ∷ ts)) ≤ room
      → let events =
          accept (
            ok (record {
              conn = conn (write_handshake ++ client_bytes opts (t ∷ ts)) [] room;
              set_nodelay = ok tt;
              planes = planes;
            }))
          ∷ shutdown
          ∷ more in
        let (spawned, sessions) = spawn_local_server F bind serve_port events in
        (run_inner F opts spawned to_string connect client_planes ≡ ok (map outcome (t ∷ ts)))
        × (sessions
            ≡ (
              ok tt,
              conn []
                  (write_handshake ++ server_bytes (t ∷ ts))
                  (room - length (write_handshake ++ server_bytes (t ∷ ts))),
            )
              ∷ [])
  unfolding spawn_local_server run_until_signal until_signal session ready
  run_inner-spawn_local_server bind serve_port to_string connect t ts room more s n p b c g h k =
      rw b (
        run_inner-ok to_string connect t ts room (served_target s n) p c g h,
        rw (handle_session-served F opts addr planes client_planes (t ∷ ts) room g k) refl,
      )
