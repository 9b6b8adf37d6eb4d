-- ===== src/Bench/Pacer/Schedule.antt =====
-- The pacer's two functions against the schedule that they stand for: at `bandwidth_bps` bits a second,
-- `n` packets take n * bits * 10^9 / bandwidth nanoseconds.
use proxypen.Base.{
  suc, ◌+◌, some, inl, inr, Bool-cases, ltb, tests, ℕ, ◌*◌, ◌/◌, ◌^◌, ◌≤◌, ◌<◌, ◌≡◌, ◌↔◌, refl,
  arith, ◌==◌, false,
}
use native.Mathlib.Nat.{
  mod-eq_of_lt, le-div_iff_mul-le, div-mul-le_self, le_trans, mul-le-mul_right, div-le_of_le-mul,
  lt-mul-div-succ,
}
use proxypen.Bench.Pacer.{
  Pacer, u64_max, u128, saturate, bits_per_pkt, target_packets, packet_due, sleep_until_packet,
}

-- A pacer that limits the rate, and that keeps clear of the width of u128 up to `n` packets and up to
-- the time `t`.
pub record Limits (p : Pacer) (n t : ℕ) : Type 0 where
  pub bandwidth : 0 < p.bandwidth_bps
  pub packet : 0 < p.packet_bytes
  pub bytes : p.packet_bytes < 2 ^ 64
  pub time : t * p.bandwidth_bps < 2 ^ 128
  pub count : n * (p.packet_bytes * 8) * 1_000_000_000 < 2 ^ 128

abbrev pub packet_ns : Pacer → ℕ
packet_ns p = p.packet_bytes * 8 * 1_000_000_000

module _ (p : Pacer) where
  open p use {bandwidth_bps, packet_bytes}

  small_bits : packet_bytes < 2 ^ 64 → bits_per_pkt p ≡ packet_bytes * 8
  small_bits h = mod-eq_of_lt (omega arith)

  target_eq :
      (t : ℕ)
      → 0 < bandwidth_bps
      → 0 < packet_bytes
      → packet_bytes < 2 ^ 64
      → t * bandwidth_bps < 2 ^ 128
      → target_packets p t ≡ saturate (t * bandwidth_bps / packet_ns p)
  unfolding target_packets
  target_eq t hb hp hs ht =
      let b0 : (bandwidth_bps == 0) ≡ false = ground arith in
      let p0 : (packet_bytes * 8 == 0) ≡ false = ground arith in
      let wide : u128 (packet_bytes * 8 * 1_000_000_000) ≡ packet_ns p =
        mod-eq_of_lt (omega arith) in
      let time : u128 (t * bandwidth_bps) ≡ t * bandwidth_bps = mod-eq_of_lt ht in
      rw (b0, small_bits hs, p0, wide, time) refl

  due_eq :
      (n : ℕ)
      → packet_bytes < 2 ^ 64
      → n * packet_ns p < 2 ^ 128
      → packet_due p n ≡ saturate (n * packet_ns p / bandwidth_bps)
  unfolding packet_due
  due_eq n hs hn =
      let e : n * (packet_bytes * 8) * 1_000_000_000 ≡ n * packet_ns p = omega arith in
      let inner : u128 (n * (packet_bytes * 8)) ≡ n * (packet_bytes * 8) =
        mod-eq_of_lt (omega arith) in
      let outer : u128 (n * packet_ns p) ≡ n * packet_ns p = mod-eq_of_lt hn in
      rw (small_bits hs, inner, e, outer) refl

le-saturate_iff : (n m : ℕ) → n ≤ u64_max → (n ≤ saturate m) ↔ (n ≤ m)
le-saturate_iff n m h = ground arith

saturate-le : (m : ℕ) → saturate m ≤ m
saturate-le m = ground arith

-- For a limited rate: at the time `t` at least `n` packets are due exactly when `n` packets take no
-- more than `t` at the bandwidth.
pub le-target_packets_iff :
    (p : Pacer) (n t : ℕ)
    → Limits p n t
    → n ≤ u64_max
    → (n ≤ target_packets p t) ↔ (n * packet_ns p ≤ t * p.bandwidth_bps)
le-target_packets_iff p n t l h =
    let q = le-div_iff_mul-le {k = packet_ns p} {x = n} {y = t * p.bandwidth_bps} (pos l.packet) in
    let s = le-saturate_iff n (t * p.bandwidth_bps / packet_ns p) h in
    let e = target_eq p t l.bandwidth l.packet l.bytes l.time in
    rw e (λ k. q.0 (s.0 k), λ k. s.1 (q.1 k))
  where
    pos : 0 < p.packet_bytes → 0 < packet_ns p
    pos k = omega arith

-- No more packets are due than the time allows at the bandwidth.
pub target_packets-le-rate :
    (p : Pacer) (t end : ℕ)
    → Limits p 0 end
    → t ≤ end
    → target_packets p t ≤ end * p.bandwidth_bps / packet_ns p
target_packets-le-rate p t end l h =
    let shorter : t * p.bandwidth_bps ≤ end * p.bandwidth_bps =
      mul-le-mul_right p.bandwidth_bps h in
    let pos : 0 < packet_ns p = omega (arith, l.packet) in
    let e = target_eq p t l.bandwidth l.packet l.bytes (omega (arith, l.time)) in
    rw e (
      le_trans (saturate-le _) (
        (le-div_iff_mul-le {k = packet_ns p} {x = t * p.bandwidth_bps / packet_ns p}
            {y = end * p.bandwidth_bps} pos).1
          (le_trans (div-mul-le_self (t * p.bandwidth_bps) (packet_ns p)) shorter)))

asleep :
    (p : Pacer) (n now t : ℕ)
    → 0 < p.bandwidth_bps
    → sleep_until_packet p n now ≡ some t
    → (now < t) × (packet_due p n ≡ t)
unfolding sleep_until_packet
asleep p n now t b e =
    let b0 : (p.bandwidth_bps == 0) ≡ false = ground (arith, b) in
    let e' = rw b0 at e in
    elim (Bool-cases (ltb now (packet_due p n))) [
      | inl f ↦ let due : packet_due p n ≡ t = cc (rw f at e') in (omega (tests, f, due), due)
      | inr f ↦ absurd (cc (rw f at e'))
    ]

-- For a limited rate: where `sleep_until_packet(n)` sleeps until an instant below the limit of u64, that instant lies
-- ahead, at most `n` packets are due at it, and at least `n` are one nanosecond later.
pub sleep_until_packet-target_packets :
    (p : Pacer) (n now t : ℕ)
    → Limits p n (suc t)
    → n ≤ u64_max
    → t < u64_max
    → sleep_until_packet p n now ≡ some t
    → (now < t) × (target_packets p t ≤ n) × (n ≤ target_packets p (suc t))
sleep_until_packet-target_packets p n now t l hn ht e =
    let (ahead, at) = asleep p n now t l.bandwidth e in
    let d = n * packet_ns p / p.bandwidth_bps in
    let due = due_eq p n l.bytes (omega (arith, l.count)) in
    let floor : d ≡ t = ground (arith, due, at) in
    let early : t * p.bandwidth_bps ≤ n * packet_ns p =
      rw floor at (div-mul-le_self (n * packet_ns p) p.bandwidth_bps) in
    let late : n * packet_ns p < p.bandwidth_bps * (t + 1) =
      rw floor at (lt-mul-div-succ (n * packet_ns p) l.bandwidth) in
    let shorter : t * p.bandwidth_bps < 2 ^ 128 = grind (arith, l.time) in
    let below : t * p.bandwidth_bps / packet_ns p ≤ n =
      div-le_of_le-mul (packet_ns p) (omega (arith, early)) in
    let enough : n * packet_ns p ≤ suc t * p.bandwidth_bps = grind (arith, late) in
    (
      ahead,
      rw (target_eq p t l.bandwidth l.packet l.bytes shorter) (le_trans (saturate-le _) below),
      (le-target_packets_iff p n (suc t) l hn).1 enough,
    )
