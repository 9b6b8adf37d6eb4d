-- ===== src/Base/Bytes.antt =====
-- Big-endian numbers, and readers of a byte stream: what `to_be_bytes`, `from_be_bytes`,
-- `read_exact` and tokio's `read_u8` to `read_u64` do. A byte is a number below 256.
use native.Mathlib.Nat.{pow-suc}
use proxypen.Base.Lists.{length, length-append}
use Prim.Native.Nat.{ℕ, zero, suc, ◌+◌, ◌*◌, ◌/◌, ◌%◌, ◌^◌, ◌<◌}
use mathlib.Core.Path.{◌≡◌, refl}
use mathlib.Core.List.{List, [], ◌∷◌, ◌++◌}
use native.Mathlib.Omega.{arith}

-- `v.to_be_bytes()` for an integer of `k` bytes
unfoldable pub be_bytes : ℕ → ℕ → List ℕ
be_bytes zero v = []
be_bytes (suc k) v = be_bytes k (v / 256) ++ (v % 256 ∷ [])

-- `from_be_bytes`
unfoldable pub from_be : ℕ → List ℕ → ℕ
from_be acc [] = acc
from_be acc (b ∷ bs) = from_be (acc * 256 + b) bs

pub length-be_bytes : (k v : ℕ) → length (be_bytes k v) ≡ k
unfolding be_bytes
length-be_bytes zero v = refl
length-be_bytes (suc k) v =
    omega
      (arith, length-append {0} (be_bytes k (v / 256)) (v % 256 ∷ []), length-be_bytes k (v / 256))

from_be-snoc :
    (acc : ℕ) (xs : List ℕ) (b : ℕ) → from_be acc (xs ++ (b ∷ [])) ≡ from_be acc xs * 256 + b
unfolding from_be
from_be-snoc acc [] b = refl
from_be-snoc acc (x ∷ xs) b = from_be-snoc (acc * 256 + x) xs b

pub from_be-be_bytes : (k v : ℕ) → v < 256 ^ k → from_be 0 (be_bytes k v) ≡ v
unfolding from_be be_bytes
from_be-be_bytes zero v h = omega arith
from_be-be_bytes (suc k) v h = omega (
  arith,
  from_be-snoc 0 (be_bytes k (v / 256)) (v % 256),
  from_be-be_bytes k (v / 256) (omega (arith, pow-suc 256 k)),
)
