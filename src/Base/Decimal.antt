-- ===== src/Base/Decimal.antt =====
-- `format!("{n}")` of an unsigned number, and `str::parse::<u16>`.
use Prim.Native.Nat.{◌*◌, ◌-◌, ℕ, zero, suc, ◌+◌, ◌/◌, ◌%◌, ◌<◌, ◌≤◌}
use mathlib.Core.Path.{◌≡◌, refl, ap, ◌∙◌}
use mathlib.Core.Bool.{false}
use mathlib.Core.Option.{Option, none, some}
use mathlib.Core.Bool.{◌&&◌}
use mathlib.Core.List.{List, [], ◌∷◌, ◌++◌}
use proxypen.Base.Tests.{leb, ◌==◌, ltb, if◌then◌else◌, Bool-cases, tests, le→leb}
use proxypen.Base.Lists.{All, All-append, length, length-append}
use mathlib.Core.Logic.{inl, inr}
use native.Mathlib.Omega.{arith}

-- A digit less in each round: the number itself is fuel enough.
digits : ℕ → ℕ → List ℕ
digits zero n = []
digits (suc fuel) n =
    let front = digits fuel (n / 10) in
    if ltb n 10 then (48 + n) ∷ [] else front ++ ((48 + n % 10) ∷ [])

unfoldable pub decimal : ℕ → List ℕ
unfolding digits
decimal n = digits (suc n) n

-- `str::parse::<u16>`: a plus sign may stand in front.
digits_value : ℕ → List ℕ → Option ℕ
digits_value acc [] = some acc
digits_value acc (c ∷ s) =
    let rest = digits_value (acc * 10 + (c - b'0')) s in
    if leb b'0' c && leb c b'9' then rest else none

unsigned : List ℕ → Option ℕ
unfolding digits_value
unsigned [] = none
unsigned (c ∷ s) = digits_value 0 (c ∷ s)

abbrev within_u16 : Option ℕ → Option ℕ
within_u16 none = none
within_u16 (some v) = if leb v 65535 then some v else none

unfoldable pub parse_u16 : List ℕ → Option ℕ
unfolding unsigned
parse_u16 [] = none
parse_u16 (c ∷ s) = within_u16 (if c == b'+' then unsigned s else unsigned (c ∷ s))

-- A digit, or none.
abbrev pub IsDigit : ℕ → Type 0
IsDigit c = (48 ≤ c) × (c < 58)

digits-IsDigit : (fuel n : ℕ) → All IsDigit (digits fuel n)
unfolding digits
digits-IsDigit zero n = tt
digits-IsDigit (suc fuel) n = elim (Bool-cases (ltb n 10)) [
  | inl e ↦ rw e ((omega tests, omega tests), tt)
  | inr e ↦ rw e (
      All-append IsDigit (digits fuel (n / 10)) ((48 + n % 10) ∷ []) (digits-IsDigit fuel (n / 10))
        ((omega arith, omega arith), tt))
]

pub decimal-IsDigit : (n : ℕ) → All IsDigit (decimal n)
unfolding decimal
decimal-IsDigit n = digits-IsDigit (suc n) n

digits_value-snoc :
    (xs : List ℕ) (acc v d : ℕ)
    → digits_value acc xs ≡ some v
    → d < 10
    → digits_value acc (xs ++ ((48 + d) ∷ [])) ≡ some (v * 10 + d)
unfolding digits_value
digits_value-snoc [] acc v d h l = ground arith
digits_value-snoc (x ∷ xs) acc v d h l = elim (Bool-cases (leb b'0' x && leb x b'9')) [
  | inl e ↦ let k = rw e at h in rw e (digits_value-snoc xs (acc * 10 + (x - b'0')) v d k l)
  | inr e ↦ let k = rw e at h in cc
]

digits_value-one : (n : ℕ) → n < 10 → digits_value 0 ((48 + n) ∷ []) ≡ some n
unfolding digits_value
digits_value-one n h = ground arith

digits_value-digits : (fuel n : ℕ) → n < fuel → digits_value 0 (digits fuel n) ≡ some n
unfolding digits
digits_value-digits zero n h = absurd (omega arith)
digits_value-digits (suc fuel) n h = elim (Bool-cases (ltb n 10)) [
  | inl e ↦ rw e (digits_value-one n (omega tests))
  | inr e ↦ rw e (
      digits_value-snoc (digits fuel (n / 10)) 0 (n / 10) (n % 10)
        (digits_value-digits fuel (n / 10) (omega tests)) (omega arith)
      ∙ ap some (omega arith))
]

unsigned-IsDigit :
    (s : List ℕ) (v : ℕ)
    → All IsDigit s
    → digits_value 0 s ≡ some v
    → 0 < length s
    → v ≤ 65535
    → parse_u16 s ≡ some v
unfolding parse_u16
unsigned-IsDigit [] v d h n l = absurd (omega arith)
unsigned-IsDigit (c ∷ s) v d h n l =
    let no_sign : (c == b'+') ≡ false = ground (arith, d.0) in
    rw no_sign (ap within_u16 h ∙ rw (le→leb v 65535 l) refl)

length-digits : (fuel n : ℕ) → 0 < fuel → 0 < length (digits fuel n)
unfolding digits
length-digits zero n h = absurd (omega arith)
length-digits (suc fuel) n h = elim (Bool-cases (ltb n 10)) [
  | inl e ↦ rw e (omega arith)
  | inr e ↦ rw e (omega (arith, length-append {0} (digits fuel (n / 10)) ((48 + n % 10) ∷ [])))
]

-- A number of 16 bits is read back.
pub parse_u16-decimal : (n : ℕ) → n ≤ 65535 → parse_u16 (decimal n) ≡ some n
unfolding decimal
parse_u16-decimal n h =
    unsigned-IsDigit (digits (suc n) n) n (digits-IsDigit (suc n) n)
      (digits_value-digits (suc n) n (omega arith)) (length-digits (suc n) n (omega arith)) h

length-digits-le : (fuel n : ℕ) → length (digits fuel n) ≤ fuel
unfolding digits
length-digits-le zero n = omega arith
length-digits-le (suc fuel) n = elim (Bool-cases (ltb n 10)) [
  | inl e ↦ rw e (omega arith)
  | inr e ↦ rw e (
      omega (
        arith,
        length-append {0} (digits fuel (n / 10)) ((48 + n % 10) ∷ []),
        length-digits-le fuel (n / 10),
      ))
]

pub length-decimal-le : (n : ℕ) → length (decimal n) ≤ suc n
unfolding decimal
length-decimal-le n = length-digits-le (suc n) n
