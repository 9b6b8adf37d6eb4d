-- ===== src/Bench/Client/Report.antt =====
-- src/bench/client.rs: what a run prints. f64 and its formats are an argument, as is the `Display` of an address.
use proxypen.Base.{
  ℕ, ◌-◌, ◌/◌, List, [], ◌∷◌, ◌++◌, Bool, false, length, replicate, concat, codes, ltb, ◌==◌, ◌||◌,
  if◌then◌else◌,
}
use proxypen.Base.Decimal.{decimal}
use proxypen.Net.{SocketAddr}
use proxypen.Transport.{Transport, socks5, direct}
use proxypen.Bench.Protocol.{kind_tcp_up, kind_tcp_down, kind_udp_up, kind_udp_down, TestReport}
use proxypen.Bench.Client.{Plan, BenchOutcome}

pub record Figures : Type 1 where
  pub Carrier : Type 0
  -- `as f64`; the constants of the code are whole numbers.
  pub from_u64 : ℕ → Carrier
  pub mul : Carrier → Carrier → Carrier
  pub div : Carrier → Carrier → Carrier
  pub at_least : Carrier → Carrier → Bool
  pub above : Carrier → Carrier → Bool
  pub as_u64 : Carrier → ℕ
  -- `{:.2}`
  pub fixed2 : Carrier → List ℕ

pad_left : ℕ → List ℕ → List ℕ
pad_left width s = replicate (width - length s) b' ' ++ s

module _ (F : Figures) where
  in_unit : F.Carrier → ℕ → List ℕ → List ℕ
  in_unit v unit name = concat (F.fixed2 (F.div v (F.from_u64 unit)) ∷ name ∷ [])

  -- The largest of three units that is not above the number, or the number itself with `plain`
  scaled : List ℕ → List ℕ → List ℕ → List ℕ → ℕ → List ℕ
  unfolding in_unit
  scaled giga mega kilo plain n =
      let v = F.from_u64 n in
      if F.at_least v (F.from_u64 1000000000)
      then in_unit v 1000000000 giga
      else if F.at_least v (F.from_u64 1000000)
      then in_unit v 1000000 mega
      else if F.at_least v (F.from_u64 1000)
      then in_unit v 1000 kilo
      else decimal n ++ plain

  unfoldable pub format_rate_bps : ℕ → List ℕ
  unfolding scaled
  format_rate_bps bps =
      scaled (codes " Gbit/s") (codes " Mbit/s") (codes " Kbit/s") (codes " bit/s") bps

  unfoldable pub format_bytes : ℕ → List ℕ
  unfolding scaled
  format_bytes b = scaled (codes " GB") (codes " MB") (codes " KB") (codes " B") b

  unfoldable pub format_ms : ℕ → List ℕ
  unfolding in_unit
  format_ms ns = in_unit (F.from_u64 ns) 1000000 (codes " ms")

  -- The labels that `build_plans` gives
  unfoldable pub label : Plan → List ℕ
  label plan =
      if plan.kind == kind_tcp_up
      then codes "TCP upload"
      else if plan.kind == kind_tcp_down
      then codes "TCP download"
      else if plan.kind == kind_udp_up
      then codes "UDP upload @ " ++ format_rate_bps plan.bandwidth_bps
      else codes "UDP download @ " ++ format_rate_bps plan.bandwidth_bps

  -- The message of `rejected`, with the server's text at its end
  abbrev rejection : Plan → List ℕ → List ℕ
  rejection plan error =
      concat (codes "server rejected test " ∷ label plan ∷ codes ": " ∷ error ∷ [])

  -- Bytes in a time: bits per second
  rate : ℕ → F.Carrier → F.Carrier
  rate bytes dur = F.div (F.mul (F.from_u64 bytes) (F.from_u64 8)) dur

  seconds : TestReport → F.Carrier
  seconds r = F.div (F.from_u64 r.duration_actual_ns) (F.from_u64 1000000000)

  -- A line of the client's TCP figures
  tcp_line : List ℕ → TestReport → List ℕ
  unfolding rate seconds
  tcp_line verb client =
      let dur = seconds client in
      concat (
        verb
        ∷ format_bytes client.bytes
        ∷ codes "    rate: "
        ∷ format_rate_bps (F.as_u64 (rate client.bytes dur))
        ∷ codes "    duration: "
        ∷ F.fixed2 dur
        ∷ codes "s"
        ∷ [])

  -- A line of one side's UDP figures
  udp_line : List ℕ → TestReport → F.Carrier → List ℕ
  unfolding pad_left
  udp_line verb r bps = concat (
      verb
      ∷ pad_left 7 (decimal r.packets)
      ∷ codes " pkt / "
      ∷ pad_left 10 (format_bytes r.bytes)
      ∷ codes "    rate: "
      ∷ pad_left 12 (format_rate_bps (F.as_u64 bps))
      ∷ [])

  -- Both rates have the sender's duration below.
  udp_rate : TestReport → TestReport → F.Carrier
  unfolding rate seconds
  udp_rate sender r =
      let send_dur = seconds sender in
      if F.above send_dur (F.from_u64 0) then rate r.bytes send_dur else F.from_u64 0

  unfoldable pub loss : TestReport → TestReport → F.Carrier
  loss sender receiver =
      if ltb 0 sender.packets
      then F.mul
          (F.div (F.from_u64 (sender.packets - receiver.packets)) (F.from_u64 sender.packets))
          (F.from_u64 100)
      else F.from_u64 0

  unfoldable pub average_latency : TestReport → ℕ
  average_latency r = if ltb 0 r.packets then r.latency_sum_ns / r.packets else 0

  unfoldable pub print_udp : ℕ → TestReport → TestReport → List (List ℕ)
  unfolding udp_line udp_rate loss average_latency
  print_udp target_bw sender receiver =
      udp_line (codes "  sent:  ") sender (udp_rate sender sender)
      ∷ udp_line (codes "  recv:  ") receiver (udp_rate sender receiver)
      ∷ concat (
          codes "  loss: "
          ∷ F.fixed2 (loss sender receiver)
          ∷ codes "%   ooo: "
          ∷ decimal receiver.ooo
          ∷ codes "   dup: "
          ∷ decimal receiver.dup
          ∷ codes "   jitter: "
          ∷ format_ms receiver.jitter_ns
          ∷ [])
      ∷ concat (
          codes "  latency min/avg/max: "
          ∷ format_ms receiver.latency_min_ns
          ∷ codes " / "
          ∷ format_ms (average_latency receiver)
          ∷ codes " / "
          ∷ format_ms receiver.latency_max_ns
          ∷ codes "    target: "
          ∷ format_rate_bps target_bw
          ∷ [])
      ∷ []

  -- The figures of a test, by its kind
  figures : BenchOutcome → List (List ℕ)
  unfolding tcp_line print_udp
  figures o =
      let plan = o.plan in
      if plan.kind == kind_tcp_up
      then tcp_line (codes "  sent: ") o.client
        ∷ (codes "  recv (server side): " ++ format_bytes o.server.bytes)
        ∷ []
      else if plan.kind == kind_tcp_down
      then tcp_line (codes "  recv: ") o.client ∷ []
      else if plan.kind == kind_udp_up
      then print_udp plan.bandwidth_bps o.client o.server
      else if plan.kind == kind_udp_down
      then print_udp plan.bandwidth_bps o.server o.client
      else []

  unfoldable pub print_result : BenchOutcome → List (List ℕ)
  unfolding figures label
  print_result o =
      (concat (codes "== " ∷ label o.plan ∷ codes " ==" ∷ []) ∷ []) ++ (figures o ++ ([] ∷ []))

  udp_used : List BenchOutcome → Bool
  udp_used [] = false
  udp_used (o ∷ os) = (o.plan.kind == kind_udp_up || o.plan.kind == kind_udp_down) || udp_used os

  results : List BenchOutcome → List (List ℕ)
  unfolding print_result
  results [] = []
  results (o ∷ os) = print_result o ++ results os

  -- The line before the tests; U+2192 is three bytes.
  header : (SocketAddr → List ℕ) → Transport → SocketAddr → List ℕ
  header show transport target = concat (
      codes "bench client "
      ∷ (226 ∷ 134 ∷ 146 ∷ [])
      ∷ codes " "
      ∷ show target
      ∷ codes "    "
      ∷ elim transport [ direct c ↦ codes "direct" | socks5 c ↦ codes "via socks5://" ++ c.addr ]
      ∷ [])

  -- What a run that succeeds prints, by its target and its outcomes
  unfoldable pub printed :
      (SocketAddr → List ℕ) → Transport → SocketAddr → List BenchOutcome → List (List ℕ)
  unfolding udp_used results header
  printed show transport target outcomes =
      (header show transport target ∷ [] ∷ [])
      ++ (results outcomes
          ++ (if udp_used outcomes
              then []
                ∷ codes
                    "note: one-way latency is relative to the path delay of the first packet; use it to compare runs between the same hosts (e.g. proxy vs direct), not as an absolute measurement."
                ∷ []
              else []))
