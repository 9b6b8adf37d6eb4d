-- ===== src/Bench/Stats/Counts.antt =====
-- The counters of src/bench/stats.rs against the list of all datagrams that came.
use proxypen.Base.{
  ℕ, suc, ◌+◌, ◌^◌, ◌≤◌, ◌<◌, ◌≡◌, refl, ap, ◌∙◌, max, Bool, true, false, List, [], ◌∷◌, length,
  map, ltb, ◌==◌, ◌||◌, if◌then◌else◌, arith, Bool-cases, inl, inr, ◌≢◌,
}
use native.Mathlib.Nat.{mod-eq_of_lt, mod-add-mod}
use proxypen.Bench.Stats.{
  Float64, Arrival, contains, UdpStats, default, record_arrival, record_new, u64,
}

abbrev pub seqs : List Arrival → List ℕ
seqs = map (λ a. a.seq)

-- Of a history, newest first, the datagrams whose sequence number had not come before.
unfoldable pub firsts : List Arrival → List Arrival
firsts [] = []
firsts (a ∷ h) = let rest = firsts h in if contains a.seq (seqs h) then rest else a ∷ rest

-- The highest number of a list, 0 for none.
unfoldable pub maximum : List ℕ → ℕ
maximum [] = 0
maximum (x ∷ xs) = max x (maximum xs)

unfoldable pub sum : List ℕ → ℕ
sum [] = 0
sum (x ∷ xs) = x + sum xs

-- How many of the datagrams with a new number came after a higher number.
unfoldable pub late : List Arrival → ℕ
late [] = 0
late (a ∷ h) =
    if contains a.seq (seqs h)
    then late h
    else if ltb a.seq (maximum (seqs h))
    then suc (late h)
    else late h

contains-le-maximum : (x : ℕ) (xs : List ℕ) → contains x xs ≡ true → x ≤ maximum xs
unfolding contains maximum
contains-le-maximum x [] h = cc
contains-le-maximum x (y ∷ ys) h = ground (arith, contains-le-maximum x ys)

maximum_cons : (x : ℕ) (xs : List ℕ) → maximum (x ∷ xs) ≡ max x (maximum xs)
unfolding maximum
maximum_cons x xs = refl

contains_cons : (x y : ℕ) (ys : List ℕ) → contains x (y ∷ ys) ≡ (x == y || contains x ys)
unfolding contains
contains_cons x y ys = refl

contains-maximum : (x : ℕ) (xs : List ℕ) → contains (maximum (x ∷ xs)) (x ∷ xs) ≡ true
contains-maximum x [] = unfold contains maximum in ground arith
contains-maximum x (y ∷ ys) =
    rw maximum_cons
      (rw contains_cons (ground (arith, contains-maximum y ys, upto (max x (maximum (y ∷ ys))))))
  where
    upto :
        (m : ℕ) → m ≡ maximum (y ∷ ys) → contains m (y ∷ ys) ≡ contains (maximum (y ∷ ys)) (y ∷ ys)
    upto m e = ap (λ k. contains k (y ∷ ys)) e

pub length-firsts : (h : List Arrival) → length (firsts h) ≤ length h
unfolding firsts
length-firsts [] = omega arith
length-firsts (a ∷ h) = ground (arith, length-firsts h)

abbrev nonempty : List Arrival → Bool
nonempty [] = false
nonempty (a ∷ h) = true

nonempty_of_contains : (x : ℕ) (h : List Arrival) → contains x (seqs h) ≡ true → nonempty h ≡ true
nonempty_of_contains x [] e = unfold contains in cc
nonempty_of_contains x (a ∷ h) e = refl

-- A number that has not come, against the highest that has.
above_maximum :
    (x : ℕ) (a : Arrival) (h : List Arrival)
    → contains x (seqs (a ∷ h)) ≡ false
    → x ≢ maximum (seqs (a ∷ h))
above_maximum x a h e p =
    cc (ap (λ k. contains k (seqs (a ∷ h))) p, contains-maximum a.seq (seqs h))

pub length-late : (h : List Arrival) → late h ≤ length h
unfolding late
length-late [] = omega arith
length-late (a ∷ h) = ground (arith, length-late h)

new_maximum :
    (x m : ℕ) (started : Bool) (h : List Arrival)
    → started ≡ nonempty h
    → m ≡ maximum (seqs h)
    → (if started then (if ltb m x then x else m) else x) ≡ maximum (x ∷ seqs h)
new_maximum x m started [] p q = unfold maximum in ground arith
new_maximum x m started (a ∷ h) p q = rw maximum_cons (ground arith)

new_late :
    (x m o : ℕ) (started : Bool) (h : List Arrival)
    → started ≡ nonempty h
    → m ≡ maximum (seqs h)
    → o ≡ late h
    → suc (length h) < 2 ^ 64
    → contains x (seqs h) ≡ false
    → (if started then (if ltb m x then o else u64 (o + 1)) else o)
      ≡ (if ltb x (maximum (seqs h)) then suc (late h) else late h)
new_late x m o started [] p q r l e = unfold maximum in ground arith
new_late x m o started (a ∷ h) p q r l e =
    ground
      (arith, above_maximum x a h e, length-late (a ∷ h), mod-eq_of_lt {n = o + 1} {m = 2 ^ 64})

module _ (F : Float64) where
  -- The state after a history, newest first, from the start.
  unfoldable pub received : List Arrival → UdpStats F
  received [] = default F
  received (a ∷ h) = record_arrival F (received h) a

  -- What the counters come to, and that exactly the numbers which came are remembered.
  pub record Counted (h : List Arrival) (s : UdpStats F) : Type 0 where
    pub packets : s.packets ≡ length (firsts h)
    pub dup : s.dup + length (firsts h) ≡ length h
    pub ooo : s.ooo ≡ late h
    pub max_seq : s.max_seq ≡ maximum (seqs h)
    pub bytes : s.bytes ≡ u64 (sum (map (λ a. a.payload_len) (firsts h)))
    pub have_max : s.have_max ≡ nonempty h
    pub remembered : (x : ℕ) → contains x s.seen ≡ contains x (seqs h)

  module _ (h : List Arrival) (s : UdpStats F) (a : Arrival) (c : Counted h s)
      (l : length (a ∷ h) < 2 ^ 64) where
    duplicate-Counted :
        contains a.seq (seqs h) ≡ true → Counted (a ∷ h) (record s { dup = u64 (s.dup + 1) })
    unfolding firsts late
    duplicate-Counted e = record {
      packets = ground (arith, c.packets);
      dup = ground (arith, c.dup, mod-eq_of_lt {n = s.dup + 1} {m = 2 ^ 64});
      ooo = ground (arith, c.ooo);
      max_seq =
          ground
            (arith, c.max_seq, maximum_cons a.seq (seqs h), contains-le-maximum a.seq (seqs h));
      bytes = ground (arith, c.bytes);
      have_max = c.have_max ∙ nonempty_of_contains a.seq h e;
      remembered = λ x. rw contains_cons (ground (arith, c.remembered x, c.remembered a.seq));
    }

    new-Counted : contains a.seq (seqs h) ≡ false → Counted (a ∷ h) (record_new F s a)
    unfolding firsts late record_new
    new-Counted e = record {
      packets =
          ground (arith, c.packets, mod-eq_of_lt {n = s.packets + 1} {m = 2 ^ 64}, length-firsts h);
      dup = ground (arith, c.dup);
      ooo = rw e (new_late a.seq s.max_seq s.ooo s.have_max h c.have_max c.max_seq c.ooo l e);
      max_seq = new_maximum a.seq s.max_seq s.have_max h c.have_max c.max_seq;
      bytes = rw e (unfold sum in rw (c.bytes, mod-add-mod) (omega arith));
      have_max = refl;
      remembered = λ x. rw contains_cons (rw (contains_cons x a.seq (seqs h), c.remembered x) refl);
    }

    record_arrival-Counted : Counted (a ∷ h) (record_arrival F s a)
    unfolding record_arrival
    record_arrival-Counted = elim (Bool-cases (contains a.seq (seqs h))) [
      | inl e ↦ rw (c.remembered a.seq, e) (duplicate-Counted e)
      | inr e ↦ rw (c.remembered a.seq, e) (new-Counted e)
    ]

  default-Counted : Counted [] (default F)
  unfolding firsts late maximum contains sum
  default-Counted = record {
    packets = refl;
    dup = omega arith;
    ooo = refl;
    max_seq = refl;
    bytes = omega arith;
    have_max = refl;
    remembered = λ x. refl;
  }

  -- After fewer than 2^64 datagrams every counter is what a look at the whole history gives: the packets
  -- are the distinct sequence numbers, the duplicates are the others, the out-of-order ones came new and
  -- below a number that had come, and the bytes are those of the first copies, modulo 2^64.
  pub received-Counted : (h : List Arrival) → length h < 2 ^ 64 → Counted h (received h)
  unfolding received
  received-Counted [] l = default-Counted
  received-Counted (a ∷ h) l =
      record_arrival-Counted h (received h) a (received-Counted h (omega arith)) l
