-- ===== src/Bench/Session.antt =====
-- A whole session of src/bench/client.rs with src/bench/server.rs, the two sides on one connection.
pub mod Served
pub mod Agreement
pub mod Local
pub mod Refused
pub mod Delivered
mod Datagrams
pub mod Samples
mod Runs
mod Cases
use proxypen.Base.{
  ℕ, suc, ◌<◌, ◌^◌, ◌≡◌, List, [], ◌∷◌, ◌++◌, Outcome, ok, err, ◌==◌, if◌then◌else◌,
}
use proxypen.Error.{IoError, invalid_data}
use proxypen.Net.{SocketAddr}
use proxypen.Bench.Protocol.{
  TestRequest, TestReport, close, response_ok, write_request, write_response, write_report,
  kind_tcp_up, kind_tcp_down, kind_udp_up, kind_udp_down,
}
use proxypen.Bench.Protocol.RoundTrip.{ReportFits, IsU64}
use proxypen.Bench.Stats.{Float64}
use proxypen.Bench.Server.{DataPlane, tcp_up_data, tcp_down_data, udp_up_data, udp_down_data}
use proxypen.Bench.Client.{BenchOptions, Plan, BenchOutcome, ClientPlane}
use proxypen.Bench.Client.Control.{request_of, run_data}

-- One test as it went: the plan, the server's port, what either side reported.
pub record Test : Type 0 where
  pub plan : Plan
  pub port : ℕ
  pub client : TestReport
  pub server : TestReport

abbrev pub outcome : Test → BenchOutcome
outcome t = record { plan = t.plan; client = t.client; server = t.server }

module _ (F : Float64) where
  -- The server's data of a request.
  unfoldable pub served : DataPlane → TestRequest → Outcome IoError TestReport
  served d req =
      if req.kind == kind_tcp_up
      then tcp_up_data d req
      else if req.kind == kind_tcp_down
      then tcp_down_data d req
      else if req.kind == kind_udp_up
      then udp_up_data F d req
      else if req.kind == kind_udp_down
      then udp_down_data d req
      else err (invalid_data "unknown test kind")

  module _ (opts : BenchOptions) (target : SocketAddr) (planes : ℕ → DataPlane)
      (client_planes : ℕ → SocketAddr → ClientPlane) where
    -- Test number `i` goes so on both sides, and its numbers are in the range of their fields.
    pub record Goes (i : ℕ) (t : Test) : Type 0 where
      pub kind : t.plan.kind < 4
      pub bandwidth : IsU64 t.plan.bandwidth_bps
      pub port : t.port < 2 ^ 16
      pub client_fits : ReportFits t.client
      pub server_fits : ReportFits t.server
      pub listen : (planes i).listen ≡ ok t.port
      pub served : served (planes i) (request_of opts t.plan) ≡ ok t.server
      pub ran : run_data F opts target client_planes i t.plan t.port ≡ ok t.client

    abbrev pub AllGo : ℕ → List Test → Type 0
    AllGo i [] = Unit {0}
    AllGo i (t ∷ ts) = Goes i t × AllGo (suc i) ts

-- What the client writes after the handshake, and what the server does.
unfoldable pub client_bytes : BenchOptions → List Test → List ℕ
client_bytes opts [] = write_request close
client_bytes opts (t ∷ ts) =
    write_request (request_of opts t.plan) ++ (write_report t.client ++ client_bytes opts ts)

unfoldable pub server_bytes : List Test → List ℕ
server_bytes [] = []
server_bytes (t ∷ ts) =
    (write_response (response_ok t.port) ++ write_report t.server) ++ server_bytes ts
