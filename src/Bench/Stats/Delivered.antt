-- ===== src/Bench/Stats/Delivered.antt =====
-- The counters of src/bench/stats.rs where the numbers that came are below the number of datagrams that were sent.
use proxypen.Base.{
  ℕ, zero, suc, ◌+◌, ◌-◌, ◌*◌, ◌^◌, ◌≤◌, ◌<◌, ◌≡◌, refl, sym, ap, true, false, List, [], ◌∷◌,
  length, map, All, if◌then◌else◌, arith, Bool-cases, ◌⊎◌, inl, inr,
}
use proxypen.Bench.Stats.{Float64, Arrival, contains, u64}
use proxypen.Bench.Stats.Counts.{seqs, firsts, maximum, sum, received, received-Counted}

-- How many of the numbers below `n` stand in a list
below : ℕ → List ℕ → ℕ
below zero xs = 0
below (suc n) xs = (if contains n xs then 1 else 0) + below n xs

below-le : (n : ℕ) (xs : List ℕ) → below n xs ≤ n
unfolding below
below-le zero xs = omega arith
below-le (suc n) xs = ground (arith, below-le n xs)

same_contains : (n x : ℕ) (xs : List ℕ) → n ≡ x → contains n xs ≡ contains x xs
same_contains n x xs e = ap (λ k. contains k xs) e

below_old :
    (n x : ℕ) (xs : List ℕ) → (contains x xs ≡ true) ⊎ (n ≤ x) → below n (x ∷ xs) ≡ below n xs
unfolding below contains
below_old zero x xs h = refl
below_old (suc n) x xs (inl h) = ground (arith, below_old n x xs (inl h), same_contains n x xs)
below_old (suc n) x xs (inr h) = ground (arith, below_old n x xs (inr (omega arith)))

below_new :
    (n x : ℕ) (xs : List ℕ) → contains x xs ≡ false → x < n → below n (x ∷ xs) ≡ suc (below n xs)
unfolding below contains
below_new zero x xs e h = absurd (omega arith)
below_new (suc n) x xs e h =
    ground
      (arith, below_new n x xs e, same_contains n x xs, λ (k : n ≤ x). below_old n x xs (inr k))

below_nil : (n : ℕ) → below n [] ≡ 0
unfolding below contains
below_nil zero = refl
below_nil (suc n) = omega (arith, below_nil n)

length-firsts-below :
    (n : ℕ) (h : List Arrival) → All (λ a. a.seq < n) h → length (firsts h) ≡ below n (seqs h)
unfolding firsts
length-firsts-below n [] l = unfold firsts in sym (below_nil n)
length-firsts-below n (a ∷ h) l = elim (Bool-cases (contains a.seq (seqs h))) [
  | inl e ↦ rw (e, below_old n a.seq (seqs h) (inl e)) (length-firsts-below n h l.1)
  | inr e ↦ rw (e, below_new n a.seq (seqs h) e l.0) (ap suc (length-firsts-below n h l.1))
]

maximum-le : (n : ℕ) (h : List Arrival) → All (λ a. a.seq < n) h → maximum (seqs h) ≤ n - 1
unfolding maximum
maximum-le n [] l = omega arith
maximum-le n (a ∷ h) l = omega (arith, l.0, maximum-le n h l.1)

sum_same :
    (len : ℕ) (h : List Arrival)
    → All (λ a. a.payload_len ≡ len) h
    → sum (map (λ a. a.payload_len) (firsts h)) ≡ length (firsts h) * len
unfolding firsts sum
sum_same len [] l = omega arith
sum_same len (a ∷ h) l = elim (Bool-cases (contains a.seq (seqs h))) [
  | inl e ↦ rw e (sum_same len h l.1)
  | inr e ↦ rw (e, l.0, sum_same len h l.1) (omega arith)
]

-- What the receiver of datagrams that all are as long as `len`, with numbers below `n`, has counted
pub record Delivered (n len packets max_seq bytes : ℕ) : Type 0 where
  pub at_most : packets ≤ n
  pub numbers : max_seq ≤ n - 1
  pub volume : bytes ≡ u64 (packets * len)

-- The arrivals are among the numbers below `n`, with datagrams of `len` bytes.
abbrev pub Among : ℕ → ℕ → List Arrival → Type 0
Among n len h = All (λ a. a.seq < n) h × All (λ a. a.payload_len ≡ len) h

pub received-Delivered :
    (F : Float64) (n len : ℕ) (h : List Arrival)
    → length h < 2 ^ 64
    → Among n len h
    → let s = received F h in Delivered n len s.packets s.max_seq s.bytes
received-Delivered F n len h l a =
    let c = received-Counted F h l in
    record {
      at_most = omega (arith, c.packets, length-firsts-below n h a.0, below-le n (seqs h));
      numbers = omega (arith, c.max_seq, maximum-le n h a.0);
      volume = rw (c.bytes, c.packets, sum_same len h a.1) refl;
    }
