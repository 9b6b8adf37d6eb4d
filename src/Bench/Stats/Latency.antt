-- ===== src/Bench/Stats/Latency.antt =====
-- The latencies of src/bench/stats.rs.
use proxypen.Base.{
  ℕ, ◌+◌, ◌-◌, ◌^◌, ◌<◌, ◌≡◌, refl, min, true, false, List, [], ◌∷◌, length, map, ltb, ◌==◌, ◌||◌,
  if◌then◌else◌, arith, Bool-cases, inl, inr, All,
}
use proxypen.Bench.Stats.{
  Float64, Arrival, contains, UdpStats, default, record_arrival, record_new, u64, latency,
}
use proxypen.Bench.Stats.Counts.{received, firsts, seqs, maximum, sum, received-Counted}

abbrev latencies : List Arrival → List ℕ
latencies = map latency

-- The least number of a list, 0 for none.
unfoldable pub minimum : List ℕ → ℕ
minimum [] = 0
minimum (x ∷ []) = x
minimum (x ∷ y ∷ ys) = min x (minimum (y ∷ ys))

minimum_pos : (x : ℕ) (xs : List ℕ) → All (λ x. 0 < x) (x ∷ xs) → 0 < minimum (x ∷ xs)
unfolding minimum
minimum_pos x [] h = h.0
minimum_pos x (y ∷ ys) h = let q = minimum_pos y ys h.1 in omega (arith, h.0)

minimum_step :
    (l m : ℕ) (ls : List ℕ)
    → All (λ x. 0 < x) ls
    → m ≡ minimum ls
    → (if m == 0 || ltb l m then l else m) ≡ minimum (l ∷ ls)
minimum_step l m [] h e = unfold minimum in ground arith
minimum_step l m (x ∷ ls) h e = let p = minimum_pos x ls h in unfold minimum in ground (arith, e, p)

-- The fields of the wire format are in range for these times and numbers.
pub record ArrivalFits (a : Arrival) : Type 0 where
  pub seq : a.seq < 2 ^ 64
  pub recv : a.recv_ts_ns < 2 ^ 64

pub maximum-lt : (h : List Arrival) → All ArrivalFits h → maximum (seqs h) < 2 ^ 64
unfolding maximum
maximum-lt [] f = omega arith
maximum-lt (a ∷ h) f = let q = maximum-lt h f.1 in omega (arith, f.0.seq)

module _ (F : Float64) where
  -- A datagram with latency 0 is forgotten by the minimum: whatever came before it, the next new
  -- datagram's own latency takes its place, however large.
  pub latency_min_forgets_zero :
      (s : UdpStats F) (a b : Arrival)
      → contains a.seq s.seen ≡ false
      → contains b.seq (a.seq ∷ s.seen) ≡ false
      → latency a ≡ 0
      → (record_arrival F (record_arrival F s a) b).latency_min_ns ≡ latency b
  unfolding record_arrival record_new
  latency_min_forgets_zero s a b ha hb la = rw (ha, hb) (ground arith)

  -- What the latencies come to, from the first copies of all datagrams.
  pub record Measured (h : List Arrival) (s : UdpStats F) : Type 0 where
    pub greatest : s.latency_max_ns ≡ maximum (latencies (firsts h))
    pub total : s.latency_sum_ns ≡ min (sum (latencies (firsts h))) (2 ^ 128 - 1)
    pub least :
        All (λ l. 0 < l) (latencies (firsts h)) → s.latency_min_ns ≡ minimum (latencies (firsts h))
    pub in_range : All ArrivalFits h → s.latency_min_ns < 2 ^ 64
    pub in_range_max : All ArrivalFits h → s.latency_max_ns < 2 ^ 64

  module _ (h : List Arrival) (s : UdpStats F) (a : Arrival) (m : Measured h s) where
    new-Measured : contains a.seq (seqs h) ≡ false → Measured (a ∷ h) (record_new F s a)
    unfolding firsts record_new
    new-Measured e = record {
      greatest = rw e (unfold maximum in ground (arith, m.greatest));
      total = rw e (unfold sum in ground (arith, m.total));
      least =
          rw e (λ p.
            minimum_step (latency a) s.latency_min_ns (latencies (firsts h)) p.1 (m.least p.1));
      in_range = λ f. ground (arith, m.in_range f.1, f.0.recv);
      in_range_max = λ f. ground (arith, m.in_range_max f.1, f.0.recv);
    }

    duplicate-Measured :
        contains a.seq (seqs h) ≡ true → Measured (a ∷ h) (record s { dup = u64 (s.dup + 1) })
    unfolding firsts
    duplicate-Measured e = record {
      greatest = rw e m.greatest;
      total = rw e m.total;
      least = rw e m.least;
      in_range = λ f. m.in_range f.1;
      in_range_max = λ f. m.in_range_max f.1;
    }

    record_arrival-Measured :
        contains a.seq s.seen ≡ contains a.seq (seqs h) → Measured (a ∷ h) (record_arrival F s a)
    unfolding record_arrival
    record_arrival-Measured r = elim (Bool-cases (contains a.seq (seqs h))) [
      | inl e ↦ rw (r, e) (duplicate-Measured e)
      | inr e ↦ rw (r, e) (new-Measured e)
    ]

  default-Measured : Measured [] (default F)
  unfolding firsts maximum minimum sum
  default-Measured = record {
    greatest = refl;
    total = omega arith;
    least = λ p. refl;
    in_range = λ f. omega arith;
    in_range_max = λ f. omega arith;
  }

  -- After fewer than 2^64 datagrams, over the first copies: the greatest latency is the maximum of theirs,
  -- the sum is theirs up to the limit of u128, and, where all of them are positive, the least latency is
  -- their minimum; for numbers and times of 64 bits both extremes have 64 bits.
  pub received-Measured : (h : List Arrival) → length h < 2 ^ 64 → Measured h (received F h)
  unfolding received
  received-Measured [] l = default-Measured
  received-Measured (a ∷ h) l =
      record_arrival-Measured h (received F h) a (received-Measured h (omega arith))
        ((received-Counted F h (omega arith)).remembered a.seq)
