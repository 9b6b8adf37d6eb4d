-- ===== src/Dns/Skip.antt =====
-- `skip_name` of src/dns.rs ends, and stays in the buffer.
use proxypen.Base.{
  ℕ, zero, suc, ◌+◌, ◌≤◌, ◌<◌, List, arith, length, leb, ◌==◌, bit_and, leb→lt, Ensures, Ensures-if,
  Ensures-mono, Ensures-ok, Ensures-err, tests, index-lt,
}
use proxypen.Error.{ProxyPenError}
use proxypen.Dns.{skip_name, name_end}

-- The end of a name lies behind its start and in the buffer.
pub skip_name-Ensures :
    (fuel : ℕ) (buf : List ℕ) (pos : ℕ)
    → length buf < fuel + pos
    → 0 < fuel
    → Ensures (λ p. (pos < p) × (p ≤ length buf)) (skip_name fuel buf pos)
unfolding skip_name
skip_name-Ensures zero buf pos h k = absurd (omega arith)
skip_name-Ensures (suc fuel) buf pos h k =
    Ensures-if (leb (length buf) pos) _ _ (λ e. Ensures-err)
      λ e.
        let (len, p) = index-lt ProxyPenError buf pos (leb→lt _ _ e) in
        rw p (
          Ensures-if (len == 0) _ _ (λ z. Ensures-ok (omega tests))
            λ z.
              Ensures-if (bit_and len 0xC0 == 0xC0) _ _
                (λ c.
                  Ensures-if (leb (length buf) (pos + 1)) _ _ (λ t. Ensures-err)
                    (λ t. Ensures-ok (omega tests)))
                (λ c.
                  Ensures-mono _ (λ q r. omega arith)
                    (skip_name-Ensures fuel buf (pos + (1 + len)) (omega arith) (omega tests))))

-- So a name read from any position ends, in at most `length buf + 1` rounds.
pub name_end-Ensures :
    (buf : List ℕ) (pos : ℕ) → Ensures (λ p. (pos < p) × (p ≤ length buf)) (name_end buf pos)
name_end-Ensures buf pos = skip_name-Ensures (suc (length buf)) buf pos (omega arith) (omega arith)
