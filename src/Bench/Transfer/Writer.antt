-- ===== src/Bench/Transfer/Writer.antt =====
-- The writer of src/bench/client.rs and src/bench/server.rs stops, and counts what it wrote.
use proxypen.Base.{
  List, [], ◌∷◌, List, Any, Ensures-err, ℕ, zero, suc, ◌+◌, ◌-◌, ◌<◌, ◌≤◌, ◌≡◌, refl, min, ltb,
  ◌==◌, arith, tests, Ensures, Ensures-ok,
}
use proxypen.Base.{Ensures-if}
use proxypen.Base.Loop.{Progress, iterate-Ensures}
use proxypen.Bench.Stats.{u64}
use proxypen.Bench.Transfer.{receive, Done, done, failed, transmit, wrote, write_round}

abbrev size : ℕ → Done → ℕ
size chunk (done accepted) = min accepted chunk
size chunk (failed e) = 0

-- The bytes of the first `k` writes.
unfoldable pub written : ℕ → (ℕ → Done) → ℕ → ℕ
written chunk write zero = 0
written chunk write (suc k) = written chunk write k + size chunk (write k)

module _ (chunk : ℕ) (now : ℕ → ℕ) (write : ℕ → Done) (deadline n : ℕ) (h : deadline ≤ now n) where
  abbrev pub Written : ℕ → Type 0
  Written total = (k : ℕ) × (k ≤ n) × (total ≡ u64 (written chunk write k))

  abbrev Writing : ℕ × ℕ → Type 0
  Writing (k, bytes) = (k ≤ n) × (bytes ≡ u64 (written chunk write k))

  before_end : (k : ℕ) → k ≤ n → now k < deadline → k < n
  before_end k l b = ground arith

  wrote-Progress :
      (k bytes : ℕ)
      → k < n
      → bytes ≡ u64 (written chunk write k)
      → (d : Done) → write k ≡ d
      → Ensures (Progress (λ s. n - s.0) Writing Written (k, bytes)) (wrote chunk k bytes d)
  unfolding wrote
  wrote-Progress k bytes l e (failed x) w = Ensures-ok (k, omega arith, e)
  wrote-Progress k bytes l e (done m) w =
      Ensures-if (min m chunk == 0) _ _ (λ _. Ensures-ok (k, omega arith, e))
        λ _. Ensures-ok ((l, unfold written in rw (w, e) (omega arith)), omega arith)

  write_round-Progress :
      (s : ℕ × ℕ)
      → Writing s
      → Ensures (Progress (λ s. n - s.0) Writing Written s) (write_round chunk now write deadline s)
  unfolding write_round
  write_round-Progress (k, bytes) (l, e) =
      Ensures-if (ltb (now k) deadline) _ _
        (λ b. wrote-Progress k bytes (before_end k l (omega tests)) e (write k) refl)
        λ _. Ensures-ok (k, l, e)

  -- Once the clock reaches the deadline the writer has stopped: reading `n` not being before it, `n + 1` rounds
  -- are enough, and the count is that of the bytes of the first writes, modulo 2^64.
  pub transmit-Written :
      (fuel : ℕ) → n < fuel → Ensures Written (transmit chunk now write deadline fuel)
  unfolding transmit
  transmit-Written fuel l =
      iterate-Ensures (λ s. n - s.0) Writing Written _ write_round-Progress fuel (0, 0)
        (omega arith, unfold written in refl) (omega arith)

pub receive-Any :
    (chunk : ℕ) (reads : List Done) (bytes : ℕ) → Ensures Any (receive chunk reads bytes)
unfolding receive
receive-Any chunk [] bytes = Ensures-ok tt
receive-Any chunk (failed e ∷ reads) bytes = Ensures-err
receive-Any chunk (done m ∷ reads) bytes =
    Ensures-if (min m chunk == 0) _ _ (λ _. Ensures-ok tt) λ _. receive-Any chunk reads _
