-- ===== src/Base/Loop.antt =====
-- A `loop` as rounds on a state, on fuel, and the rule for its invariant.
use Prim.Native.Nat.{ℕ, zero, suc, ◌<◌}
use native.Mathlib.Omega.{arith}
use proxypen.Base.Flow.{Outcome, ok, stuck, ◌>>=◌}
use proxypen.Base.Outcomes.{Ensures, Ensures-ok, Ensures-bind}

-- How a round ends: `break` with a result, or the next round.
pub data Round (S R : Type 0) : Type 0 where
  stop : R → Round S R
  again : S → Round S R

abbrev resume : {E S R : Type 0} → (S → Outcome E R) → Round S R → Outcome E R
resume k (stop x) = ok x
resume k (again s) = k s

unfoldable pub iterate : {E S R : Type 0} → (S → Outcome E (Round S R)) → ℕ → S → Outcome E R
iterate f zero s = stuck
iterate f (suc fuel) s = f s >>= λ r. resume (iterate f fuel) r

module _ {S R : Type 0} (measure : S → ℕ) (Invariant : S → Type 0) (Result : R → Type 0) where
  -- A round from `s` keeps the invariant and comes nearer to the end.
  abbrev pub Progress : S → Round S R → Type 0
  Progress s (stop x) = Result x
  Progress s (again s') = Invariant s' × (measure s' < measure s)

  resume-Ensures :
      {E : Type 0} (k : S → Outcome E R) (s : S) (r : Round S R)
      → ((s' : S) → Invariant s' → measure s' < measure s → Ensures Result (k s'))
      → Progress s r
      → Ensures Result (resume k r)
  resume-Ensures k s (stop x) h p = Ensures-ok p
  resume-Ensures k s (again s') h (p, q) = h s' p q

  -- If every round does, the loop returns and its result is as promised.
  pub iterate-Ensures :
      {E : Type 0} (f : S → Outcome E (Round S R))
      → ((s : S) → Invariant s → Ensures (Progress s) (f s))
      → (fuel : ℕ) (s : S) → Invariant s
      → measure s < fuel
      → Ensures Result (iterate f fuel s)
  unfolding iterate
  iterate-Ensures f each zero s i l = absurd (omega arith)
  iterate-Ensures f each (suc fuel) s i l = Ensures-bind (f s) _ (each s i) (λ r.
      resume-Ensures (iterate f fuel) s r
        (λ s' i' m. iterate-Ensures f each fuel s' i' (omega arith)))
