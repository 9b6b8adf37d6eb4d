-- ===== src/Dns/Safety.antt =====
-- No response makes `decode_a_response` of src/dns.rs panic or run on.
use proxypen.Base.{
  ℕ, zero, suc, ◌+◌, ◌≤◌, ◌<◌, ◌&&◌, List, arith, length, ltb, ◌==◌, not, bit_and, tests, Ensures,
  Ensures-if, Ensures-bind, Ensures-ok, Ensures-err, Ensures-Returns, Returns, index-lt,
}
use proxypen.Error.{ProxyPenError}
use proxypen.Dns.{skip_questions, scan_answers, four_bytes, u16_at, decode_a_response}
use proxypen.Dns.Skip.{name_end-Ensures}

abbrev Any {ℓ} : {A : Type ℓ} → A → Type 0
Any a = Unit {0}

u16_at-Ensures : (buf : List ℕ) (i : ℕ) → i + 1 < length buf → Ensures Any (u16_at buf i)
unfolding u16_at
u16_at-Ensures buf i h =
    let (a, p) = index-lt ProxyPenError buf i (omega arith) in
    let (b, q) = index-lt ProxyPenError buf (i + 1) h in rw (p, q) (Ensures-ok tt)

four_bytes-Ensures : (buf : List ℕ) (i : ℕ) → i + 3 < length buf → Ensures Any (four_bytes buf i)
unfolding four_bytes
four_bytes-Ensures buf i h =
    let (a, p) = index-lt ProxyPenError buf i (omega arith) in
    let (b, q) = index-lt ProxyPenError buf (i + 1) (omega arith) in
    let (c, r) = index-lt ProxyPenError buf (i + 2) (omega arith) in
    let (d, s) = index-lt ProxyPenError buf (i + 3) (omega arith) in rw (p, q, r, s) (Ensures-ok tt)

skip_questions-Ensures :
    (qd : ℕ) (buf : List ℕ) (pos : ℕ)
    → pos ≤ length buf
    → Ensures (λ p. p ≤ length buf) (skip_questions qd buf pos)
unfolding skip_questions
skip_questions-Ensures zero buf pos h = Ensures-ok h
skip_questions-Ensures (suc qd) buf pos h = Ensures-bind _ _ (name_end-Ensures buf pos) λ p q.
    Ensures-if (ltb (length buf) (p + 4)) _ _ (λ e. Ensures-err)
      λ e. skip_questions-Ensures qd buf (p + 4) (omega tests)

scan_answers-Ensures : (an : ℕ) (buf : List ℕ) (pos : ℕ) → Ensures Any (scan_answers an buf pos)
unfolding scan_answers
scan_answers-Ensures zero buf pos = Ensures-err
scan_answers-Ensures (suc an) buf pos = Ensures-bind _ _ (name_end-Ensures buf pos) λ s q.
    Ensures-if (ltb (length buf) (s + 10)) _ _ (λ e. Ensures-err)
      λ e. Ensures-bind _ _ (u16_at-Ensures buf s (omega tests)) λ rtype _.
        Ensures-bind _ _ (u16_at-Ensures buf (s + 8) (omega tests)) λ len _.
          Ensures-if (ltb (length buf) (s + 10 + len)) _ _ (λ t. Ensures-err)
            λ t.
              Ensures-if (rtype == 1 && len == 4) _ _
                (λ f. four_bytes-Ensures buf (s + 10) (ground arith))
                (λ f. scan_answers-Ensures an buf (s + 10 + len))

-- On any bytes and any expected id the decoder comes back with an address or an error: every access is
-- in bounds, and every loop ends.
pub decode_a_response-Returns :
    (expected_id : ℕ) (buf : List ℕ) → Returns (decode_a_response expected_id buf)
unfolding decode_a_response
decode_a_response-Returns expected_id buf = Ensures-Returns _ (
    Ensures-if (ltb (length buf) 12) _ _ (λ e. Ensures-err)
      λ e. Ensures-bind _ _ (u16_at-Ensures buf 0 (omega tests)) λ id _.
        Ensures-if (not (id == expected_id)) _ _ (λ m. Ensures-err)
          λ m. Ensures-bind _ _ (u16_at-Ensures buf 2 (omega tests)) λ flags _.
            Ensures-if (not (bit_and flags 0x000F == 0)) _ _ (λ m. Ensures-err)
              λ m. Ensures-bind _ _ (u16_at-Ensures buf 4 (omega tests)) λ qd _.
                Ensures-bind _ _ (u16_at-Ensures buf 6 (omega tests)) λ an _.
                  Ensures-if (an == 0) _ _ (λ m. Ensures-err)
                    λ m.
                      Ensures-bind _ _ (skip_questions-Ensures qd buf 12 (omega tests))
                        (λ p _. scan_answers-Ensures an buf p))
