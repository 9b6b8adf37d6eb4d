-- ===== src/Bench/Client.antt =====
-- src/bench/client.rs: the options, the plans, what a client is given. What the transport and the system give for the
-- data of test number `i` is a `ClientPlane`. What is printed, with the labels, stands in Report.
pub mod Plans
pub mod Data
pub mod Control
pub mod Bandwidth
pub mod Report
pub mod Serve
pub mod Ends
mod Runs
use proxypen.Base.{
  ℕ, zero, suc, ◌+◌, ◌-◌, ◌*◌, ◌/◌, ◌%◌, ◌^◌, min, max, List, [], ◌∷◌, ◌++◌, Bool, true, false,
  Option, none, some, length, take, replicate, ◌==◌, ◌||◌, not, leb, ◌≤◌, ◌≡◌, arith, if◌then◌else◌,
  Outcome, ok, err, panic, stuck, map_err,
}
use proxypen.Base
use proxypen.Error.{IoError, ProxyPenError}
use proxypen.Net.{IpAddr, SocketAddr}
use proxypen.Config.{TestTarget}
use proxypen.Stream.Conn.{Conn, Exec, ◌>>=◌, ◌>>◌, pure, lift, recv, write_all}
use proxypen.Bench.Protocol.{
  kind_tcp_up, kind_tcp_down, kind_udp_up, kind_udp_down, kind_close, status_ok, TestRequest,
  TestReport, TestResponse, close, read_handshake, write_handshake, write_request, read_response,
  write_report, read_report, encode_udp_header, decode_udp_header, udp_header_len,
}
use proxypen.Bench.Stats.{Float64, UdpStats, default, record_arrival, into_report, u64}
use proxypen.Bench.Transfer.{
  Done, done, failed, Sender, straggle_grace, enough, receive, transmit, send_loop, bytes_report,
  sender_report,
}

pub record Plan : Type 0 where
  pub kind : ℕ
  pub bandwidth_bps : ℕ

pub data BenchError : Type 0 where
  io : IoError → BenchError
  proxy : ProxyPenError → BenchError
  no_target no_tests : BenchError
  -- The server of --serve is not ready.
  not_ready : BenchError
  -- The plan, whose label the message names, and the text of the server's response
  rejected : Plan → List ℕ → BenchError

pub data BenchMode : Type 0 where
  tcp udp both : BenchMode

pub data BenchDirection : Type 0 where
  up down both_ways : BenchDirection

-- The transport and `serve_port` act through the arguments `serve`, `connect` and `planes` of `run_inner`.
pub record BenchOptions : Type 0 where
  pub target : Option SocketAddr
  pub serve : Bool
  pub mode : BenchMode
  pub direction : BenchDirection
  -- In nanoseconds.
  pub duration : ℕ
  pub udp_bandwidth : List ℕ
  pub udp_size : ℕ
  pub tcp_chunk : ℕ

pub record BenchOutcome : Type 0 where
  pub plan : Plan
  pub client : TestReport
  pub server : TestReport

unfoldable pub want_tcp : BenchMode → Bool
want_tcp m = elim m [ tcp ↦ true | udp ↦ false | both ↦ true ]

unfoldable pub want_udp : BenchMode → Bool
want_udp m = elim m [ tcp ↦ false | udp ↦ true | both ↦ true ]

unfoldable pub want_up : BenchDirection → Bool
want_up d = elim d [ up ↦ true | down ↦ false | both_ways ↦ true ]

unfoldable pub want_down : BenchDirection → Bool
want_down d = elim d [ up ↦ false | down ↦ true | both_ways ↦ true ]

abbrev pub only : Bool → ℕ → ℕ → List Plan
only true kind bw = record { kind = kind; bandwidth_bps = bw } ∷ []
only false kind bw = []

-- `for &bw in &opts.udp_bandwidth`
unfoldable pub for_each : (ℕ → List Plan) → List ℕ → List Plan
for_each f [] = []
for_each f (bw ∷ bws) = f bw ++ for_each f bws

unfoldable pub build_plans : BenchOptions → List Plan
build_plans opts =
    let ups = want_up opts.direction in
    let downs = want_down opts.direction in
    (if want_tcp opts.mode then only ups kind_tcp_up 0 ++ only downs kind_tcp_down 0 else [])
    ++ (if want_udp opts.mode
        then for_each (λ bw. only ups kind_udp_up bw ++ only downs kind_udp_down bw)
            opts.udp_bandwidth
        else [])

-- What `recv` gave, and two readings of the clock behind it.
pub record Received : Type 0 where
  pub at : ℕ
  pub stamped : ℕ
  pub bytes : List ℕ

pub record ClientPlane : Type 0 where
  -- `connect_tcp` or `open_udp` of the transport
  pub opened : Outcome ProxyPenError (Unit {0})
  pub reads : List Done
  pub clock : ℕ → ℕ
  pub writes : ℕ → Done
  pub pacer_start : ℕ
  pub hello : Outcome IoError (Unit {0})
  pub packets : List (Outcome IoError Received)
  pub elapsed : ℕ
  -- How far behind its first reading an `Instant` can lie: `+` panics beyond it.
  pub clock_room : ℕ
  -- The longest vector of bytes that can be made: `vec!` panics, or the process is aborted, beyond it.
  pub vec_room : ℕ

abbrev pub BenchResult {ℓ} : Type ℓ → Type ℓ
BenchResult A = Outcome BenchError A

infixl 5 ◌|>◌
abbrev pub ◌|>◌ {ℓ} :
    {A : Type 0} {B : Type ℓ} → BenchResult A → (A → BenchResult B) → BenchResult B
m |> f = Base.◌>>=◌ m f

-- An amount that must not be above a limit
unfoldable pub fits : ℕ → ℕ → BenchResult (Unit {0})
fits n limit = if leb n limit then ok tt else panic

pub fits-ok : {n limit : ℕ} → n ≤ limit → fits n limit ≡ ok tt
unfolding fits
fits-ok h = ground arith

-- Room for the buffers and the deadlines of a run's options
pub record HasRoom (d : ClientPlane) (duration udp_size tcp_chunk : ℕ) : Type 0 where
  pub deadline : duration + straggle_grace ≤ d.clock_room
  pub datagram : max udp_size udp_header_len + 64 ≤ d.vec_room
  pub chunk : tcp_chunk ≤ d.vec_room
