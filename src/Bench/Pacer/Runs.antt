-- ===== src/Bench/Pacer/Runs.antt =====
-- The pacer of src/bench/pacer.rs at 8 Mbit/s with packets of 1000 bytes: one packet a millisecond.
use proxypen.Base.{◌<◌, some, ◌*◌, ◌≤◌, ◌≡◌, ◌↔◌, refl, arith}
use proxypen.Bench.Pacer.{Pacer, u64_max, target_packets, sleep_until_packet, packet_due}
use proxypen.Bench.Pacer.Schedule.{
  Limits, packet_ns, le-target_packets_iff, sleep_until_packet-target_packets,
}

abbrev pacer : Pacer
pacer = record { bandwidth_bps = 8_000_000; packet_bytes = 1000 }

pacer-Limits : Limits pacer 3 2_500_000
pacer-Limits = record {
  bandwidth = omega arith;
  packet = omega arith;
  bytes = omega arith;
  time = omega arith;
  count = omega arith;
}

le-target_packets_iff_example :
    (3 ≤ target_packets pacer 2_500_000) ↔ (3 * packet_ns pacer ≤ 2_500_000 * pacer.bandwidth_bps)
le-target_packets_iff_example = le-target_packets_iff pacer 3 2_500_000 pacer-Limits (omega arith)

due_3-Limits : Limits pacer 3 3_000_001
due_3-Limits = record {
  bandwidth = omega arith;
  packet = omega arith;
  bytes = omega arith;
  time = omega arith;
  count = omega arith;
}

sleeps : sleep_until_packet pacer 3 2_500_000 ≡ some 3_000_000
unfolding sleep_until_packet packet_due
sleeps = refl

sleep_until_packet-target_packets_example :
    (2_500_000 < 3_000_000)
    × (target_packets pacer 3_000_000 ≤ 3)
    × (3 ≤ target_packets pacer 3_000_001)
sleep_until_packet-target_packets_example =
    sleep_until_packet-target_packets pacer 3 2_500_000 3_000_000 due_3-Limits (omega arith)
      (omega arith) sleeps

two_are_due : target_packets pacer 2_500_000 ≡ 2
unfolding target_packets
two_are_due = refl

unlimited : target_packets (record pacer { bandwidth_bps = 0 }) 5 ≡ u64_max
unfolding target_packets
unlimited = refl
