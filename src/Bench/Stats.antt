-- ===== src/Bench/Stats.antt =====
-- src/bench/stats.rs: what the receiver of datagrams counts. Sums keep the wrap-around or the
-- saturation of their types; an i64 is its bit pattern.
pub mod Counts
pub mod Latency
pub mod Reported
pub mod Delivered
mod Runs
use proxypen.Base.{
  ℕ, ◌+◌, ◌-◌, ◌%◌, ◌^◌, ◌<◌, Bool, true, false, Option, none, some, List, [], ◌∷◌, ltb, leb, ◌==◌,
  ◌||◌, if◌then◌else◌,
}
use proxypen.Bench.Protocol.{TestReport}

-- f64, as far as the jitter needs it.
pub record Float64 : Type 1 where
  pub Carrier : Type 0
  pub zero : Carrier
  pub from_u64 : ℕ → Carrier
  pub add : Carrier → Carrier → Carrier
  pub sub : Carrier → Carrier → Carrier
  pub div : Carrier → Carrier → Carrier
  -- `x as u64` saturates.
  pub as_u64 : Carrier → ℕ
  pub as_u64_bound : (x : Carrier) → as_u64 x < 2 ^ 64

-- One datagram: the arguments of `record`.
pub record Arrival : Type 0 where
  pub seq : ℕ
  pub send_ts_ns : ℕ
  pub recv_ts_ns : ℕ
  pub payload_len : ℕ

-- `HashSet::contains`
unfoldable pub contains : ℕ → List ℕ → Bool
contains x [] = false
contains x (y ∷ ys) = x == y || contains x ys

abbrev pub u64 : ℕ → ℕ
u64 n = n % 2 ^ 64

-- `recv_ts_ns as i64 - send_ts_ns as i64`
abbrev pub sub_i64 : ℕ → ℕ → ℕ
sub_i64 a b = (a + 2 ^ 64 - b) % 2 ^ 64

-- `i64::unsigned_abs`
abbrev pub unsigned_abs : ℕ → ℕ
unsigned_abs x = if ltb x (2 ^ 63) then x else 2 ^ 64 - x

-- `saturating_sub` of the two times
abbrev pub latency : Arrival → ℕ
latency a = a.recv_ts_ns - a.send_ts_ns

module _ (F : Float64) where
  open F use {Carrier, from_u64, add, sub, div, as_u64}

  pub record UdpStats : Type 0 where
    pub bytes : ℕ
    pub packets : ℕ
    pub max_seq : ℕ
    pub ooo : ℕ
    pub dup : ℕ
    pub jitter_ns : Carrier
    pub last_transit_ns : Option ℕ
    pub latency_min_ns : ℕ
    pub latency_max_ns : ℕ
    pub latency_sum_ns : ℕ
    pub seen : List ℕ
    pub have_max : Bool

  abbrev pub default : UdpStats
  default = record {
    bytes = 0;
    packets = 0;
    max_seq = 0;
    ooo = 0;
    dup = 0;
    jitter_ns = F.zero;
    last_transit_ns = none;
    latency_min_ns = 0;
    latency_max_ns = 0;
    latency_sum_ns = 0;
    seen = [];
    have_max = false;
  }

  jitter : Carrier → Option ℕ → ℕ → Carrier
  jitter j none transit = j
  jitter j (some last) transit =
      let d = from_u64 (unsigned_abs (sub_i64 transit last)) in add j (div (sub d j) (from_u64 16))

  -- `record`, for a sequence number that was not seen before
  record_new : UdpStats → Arrival → UdpStats
  unfolding jitter
  record_new s a =
      let l = latency a in
      let transit = sub_i64 a.recv_ts_ns a.send_ts_ns in
      record {
        bytes = u64 (s.bytes + a.payload_len);
        packets = u64 (s.packets + 1);
        max_seq =
            (if s.have_max then (if ltb s.max_seq a.seq then a.seq else s.max_seq) else a.seq);
        ooo =
            (if s.have_max
              then (if ltb s.max_seq a.seq then s.ooo else u64 (s.ooo + 1))
              else s.ooo);
        dup = s.dup;
        jitter_ns = jitter s.jitter_ns s.last_transit_ns transit;
        last_transit_ns = some transit;
        latency_min_ns =
            (if s.latency_min_ns == 0 || ltb l s.latency_min_ns then l else s.latency_min_ns);
        latency_max_ns = (if ltb s.latency_max_ns l then l else s.latency_max_ns);
        latency_sum_ns =
            (if leb (s.latency_sum_ns + l) (2 ^ 128 - 1)
              then s.latency_sum_ns + l
              else 2 ^ 128 - 1);
        seen = a.seq ∷ s.seen;
        have_max = true;
      }

  unfoldable pub record_arrival : UdpStats → Arrival → UdpStats
  unfolding record_new
  record_arrival s a =
      if contains a.seq s.seen then record s { dup = u64 (s.dup + 1) } else record_new s a

  unfoldable pub into_report : UdpStats → ℕ → TestReport
  into_report s duration_actual_ns = record {
    bytes = s.bytes;
    packets = s.packets;
    max_seq = s.max_seq;
    ooo = s.ooo;
    dup = s.dup;
    jitter_ns = as_u64 s.jitter_ns;
    latency_min_ns = s.latency_min_ns;
    latency_max_ns = s.latency_max_ns;
    latency_sum_ns = (if leb s.latency_sum_ns (2 ^ 64 - 1) then s.latency_sum_ns else 2 ^ 64 - 1);
    duration_actual_ns = duration_actual_ns;
  }
