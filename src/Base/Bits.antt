-- ===== src/Base/Bits.antt =====
-- Masks on a byte as comparisons, each a table that is checked by evaluation.
use Prim.Native.Nat.{ℕ, zero, suc, ◌<◌, bit_and}
use mathlib.Core.Path.{◌≡◌, refl}
use mathlib.Core.Bool.{Bool, true, false, ◌&&◌}
use native.Mathlib.Omega.{arith}
use proxypen.Base.Tests.{leb, ◌==◌}

same : Bool → Bool → Bool
same true b = b
same false true = false
same false false = true

same-eq : (a b : Bool) → same a b ≡ true → a ≡ b
unfolding same
same-eq true true h = refl
same-eq true false h = cc
same-eq false true h = cc
same-eq false false h = refl

module _ (f g : ℕ → Bool) where
  same_below : ℕ → Bool
  unfolding same
  same_below zero = true
  same_below (suc n) = same (f n) (g n) && same_below n

  same_below_sound : (n : ℕ) → same_below n ≡ true → (b : ℕ) → b < n → f b ≡ g b
  unfolding same_below
  same_below_sound zero t b h = absurd (omega arith)
  same_below_sound (suc n) t b h =
      ground (arith, same-eq (f n) (g n), same_below_sound n (ground arith) b)

-- The two top bits are set from 192 on.
pub top_bits : (b : ℕ) → b < 256 → (bit_and b 0xC0 == 0xC0) ≡ leb 192 b
unfolding same_below
top_bits = same_below_sound _ _ 256 refl
