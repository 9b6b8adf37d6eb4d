-- ===== src/Bench/Pacer.antt =====
-- src/bench/pacer.rs: how many packets are due, and when the next one is. Times are nanoseconds
-- since the pacer's `start`; u128 products keep their wrap-around.
pub mod Schedule
mod Runs
use proxypen.Base.{
  Option, none, some, ℕ, ◌*◌, ◌/◌, ◌%◌, ◌^◌, ◌-◌, min, leb, ltb, ◌==◌, if◌then◌else◌,
}

pub record Pacer : Type 0 where
  pub bandwidth_bps : ℕ
  pub packet_bytes : ℕ

abbrev pub u64_max : ℕ
u64_max = 2 ^ 64 - 1

abbrev pub u128 : ℕ → ℕ
u128 n = n % 2 ^ 128

-- `u64::try_from(n).unwrap_or(u64::MAX)`
abbrev pub saturate : ℕ → ℕ
saturate n = if leb n u64_max then n else u64_max

abbrev pub bits_per_pkt : Pacer → ℕ
bits_per_pkt p = u128 (p.packet_bytes * 8)

-- `target_packets_now`, at `elapsed_ns` after the start
unfoldable pub target_packets : Pacer → ℕ → ℕ
target_packets p elapsed_ns =
    if p.bandwidth_bps == 0
    then u64_max
    else if bits_per_pkt p == 0
    then u64_max
    else saturate (u128 (elapsed_ns * p.bandwidth_bps) / u128 (bits_per_pkt p * 1_000_000_000))

-- When packet number `nth` is due, for a bandwidth that is not 0.
unfoldable pub packet_due : Pacer → ℕ → ℕ
packet_due p nth = saturate (u128 (u128 (nth * bits_per_pkt p) * 1_000_000_000) / p.bandwidth_bps)

-- The instant that `sleep_until_packet(nth)`, called at `now`, hands to `sleep_until`, if it sleeps. tokio wakes the task
-- not before that instant, on the next of its ticks.
unfoldable pub sleep_until_packet : Pacer → ℕ → ℕ → Option ℕ
unfolding packet_due
sleep_until_packet p nth now =
    if p.bandwidth_bps == 0
    then none
    else let target = packet_due p nth in if ltb now target then some target else none
