-- ===== src/Bench/Client/Bandwidth.antt =====
-- src/bench/client.rs: the bandwidths of the command line. f64 is an argument.
use proxypen.Base.{
  ℕ, ◌-◌, List, [], ◌∷◌, String, Option, none, some, ◌||◌, length, take, ◌==◌, if◌then◌else◌,
  Outcome, ok, err, ◌>>=◌, ok_or,
}
use proxypen.Base.Trim
use proxypen.Base.Trim.{trim}
use proxypen.Dns
use proxypen.Dns.{split}

-- `parse::<f64>` and `(n * mult as f64) as u64`
pub record Decimals : Type 1 where
  pub Carrier : Type 0
  pub parse : List ℕ → Option Carrier
  pub scaled : Carrier → ℕ → ℕ

-- The byte at the end, which is the last character where that is a letter
last : List ℕ → Option ℕ
last [] = none
last (x ∷ []) = some x
last (x ∷ y ∷ s) = last (y ∷ s)

-- The number's text and the factor
unfoldable pub suffix : List ℕ → List ℕ × ℕ
unfolding last
suffix s = elim (last s) [
  | none ↦ (s, 1)
  | some c ↦
      let front = take (length s - 1) s in
      if c == b'K' || c == b'k'
      then (front, 1000)
      else if c == b'M' || c == b'm'
      then (front, 1000000)
      else if c == b'G' || c == b'g'
      then (front, 1000000000)
      else (s, 1)
]

module _ (D : Decimals) where
  unfoldable pub parse_bandwidth : List ℕ → Outcome String ℕ
  unfolding suffix Trim.trim
  parse_bandwidth raw =
      let s = trim raw in
      if length s == 0 then err "empty bandwidth value" else (do
        let (num, mult) = suffix s
        n ← ok_or (D.parse num) "invalid bandwidth value"
        ok (D.scaled n mult))

  -- `map(..).collect()`: the first error ends it.
  unfoldable pub collect : List (List ℕ) → Outcome String (List ℕ)
  unfolding parse_bandwidth Trim.trim
  collect [] = ok []
  collect (p ∷ ps) = do b ← parse_bandwidth (trim p); bs ← collect ps; ok (b ∷ bs)

  unfoldable pub parse_bandwidth_list : List ℕ → Outcome String (List ℕ)
  unfolding collect Dns.split
  parse_bandwidth_list s = collect (split b',' s)
