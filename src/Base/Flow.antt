-- ===== src/Base/Flow.antt =====
-- What a Rust call may come to: a value, an error of type `E`, a panic; `stuck` is no outcome of the
-- source and says that a model's fuel ran out.
use Prim.Native.Nat.{ℕ, ◌-◌, ◌≤◌, ◌<◌}
use mathlib.Core.Path.{◌≡◌, refl, sym, ap, ◌∙◌}
use mathlib.Core.List.{List, [], ◌∷◌}
use mathlib.Core.Option.{Option, none, some}
use native.Mathlib.Omega.{arith}
use proxypen.Base.Tests.{leb, if◌then◌else◌}
use mathlib.Core.Bool.{◌&&◌}
use proxypen.Base.Lists.{length, get_elem?, take, drop, length-take, length-drop}
use Prim.Native.Nat.{zero, suc, ◌+◌}
use mathlib.Core.List.{◌++◌}
use proxypen.Base.Lists.{length-append, drop-append, take-append, drop-drop}
use proxypen.Base.Tests.{le→leb}

pub data Outcome {ℓ} (E : Type 0) (A : Type ℓ) : Type ℓ where
  ok : A → Outcome E A
  err : E → Outcome E A
  panic : Outcome E A
  stuck : Outcome E A

-- `?` and early returns.
infixl 5 ◌>>=◌ ◌>>◌
abbrev pub ◌>>=◌ {ℓ κ} :
    {E : Type 0} {A : Type ℓ} {B : Type κ} → Outcome E A → (A → Outcome E B) → Outcome E B
ok a >>= f = f a
err e >>= f = err e
panic >>= f = panic
stuck >>= f = stuck

abbrev pub ◌>>◌ {ℓ} : {E : Type 0} {B : Type ℓ} → Outcome E (Unit {0}) → Outcome E B → Outcome E B
m >> k = m >>= λ _. k

-- `r.map_err(f)`
abbrev pub map_err {ℓ} : {E F : Type 0} {A : Type ℓ} → (E → F) → Outcome E A → Outcome F A
map_err f (ok a) = ok a
map_err f (err e) = err (f e)
map_err f panic = panic
map_err f stuck = stuck

-- `o.ok_or(e)`
abbrev pub ok_or {ℓ} : {E : Type 0} {A : Type ℓ} → Option A → E → Outcome E A
ok_or none e = err e
ok_or (some a) e = ok a

-- The call comes back: it ends in a value or in an error.
abbrev pub Returns {ℓ} : {E : Type 0} {A : Type ℓ} → Outcome E A → Type 0
Returns (ok a) = Unit {0}
Returns (err e) = Unit {0}
Returns panic = ⊥
Returns stuck = ⊥

abbrev or_panic {ℓ} : {E : Type 0} {A : Type ℓ} → Option A → Outcome E A
or_panic none = panic
or_panic (some a) = ok a

-- `xs[i]`
unfoldable pub index {ℓ} : {E : Type 0} {A : Type ℓ} → List A → ℕ → Outcome E A
index xs i = or_panic (get_elem? xs i)

-- `xs[i..j]`
unfoldable pub slice {ℓ} : {E : Type 0} {A : Type ℓ} → List A → ℕ → ℕ → Outcome E (List A)
slice xs i j = if leb i j && leb j (length xs) then ok (take (j - i) (drop i xs)) else panic

module _ {ℓ} {A : Type ℓ} where
  get_elem?-lt : (xs : List A) (i : ℕ) → i < length xs → (a : A) × (get_elem? xs i ≡ some a)
  get_elem?-lt [] i h = absurd (omega arith)
  get_elem?-lt (x ∷ xs) zero h = (x, refl)
  get_elem?-lt (x ∷ xs) (suc i) h = get_elem?-lt xs i (omega arith)

-- An index below the length is read.
module _ {ℓ} (E : Type 0) {A : Type ℓ} where
  pub index-lt : (xs : List A) (i : ℕ) → i < length xs → (a : A) × (index {E = E} xs i ≡ ok a)
  unfolding index
  index-lt xs i h = let (a, e) = get_elem?-lt xs i h in (a, ap_or_panic e)
    where
      ap_or_panic : {a : A} → get_elem? xs i ≡ some a → or_panic {E = E} (get_elem? xs i) ≡ ok a
      ap_or_panic e = rw e refl

  pub slice-le :
      (xs : List A) (i j : ℕ)
      → i ≤ j
      → j ≤ length xs
      → (slice {E = E} xs i j ≡ ok (take (j - i) (drop i xs)))
        × (length (take (j - i) (drop i xs)) ≡ j - i)
  unfolding slice
  slice-le xs i j h k = (
    rw (le→leb i j h, le→leb j (length xs) k) refl,
    omega (arith, length-take {ℓ} (j - i) (drop i xs), length-drop {ℓ} i xs),
  )

  -- The middle of three parts.
  pub slice-append :
      (xs ys zs : List A) (i j : ℕ)
      → i ≡ length xs
      → j ≡ i + length ys
      → slice {E = E} (xs ++ (ys ++ zs)) i j ≡ ok ys
  unfolding slice
  slice-append xs ys zs i j p q =
      let n : j - i ≡ length ys = omega arith in
      let fits : j ≤ length (xs ++ (ys ++ zs)) =
        omega (arith, length-append {ℓ} xs (ys ++ zs), length-append {ℓ} ys zs) in
      rw
        (
          le→leb i j (omega arith),
          le→leb j _ fits,
          n,
          p,
          drop-append xs (ys ++ zs),
          take-append ys zs,
        )
        refl

-- Reading at a position of which the rest of the list is known.
module _ {ℓ} (E : Type 0) {A : Type ℓ} where
  pub index_at :
      (xs : List A) (i : ℕ) (x : A) (r : List A) → drop i xs ≡ x ∷ r → index {E = E} xs i ≡ ok x
  unfolding index
  index_at [] zero x r h = cc
  index_at [] (suc i) x r h = cc
  index_at (y ∷ xs) zero x r h = ground arith
  index_at (y ∷ xs) (suc i) x r h = index_at xs i x r h

module _ {ℓ} {A : Type ℓ} where
  pub drop_on : (xs : List A) (i k : ℕ) (s : List A) → drop i xs ≡ s → drop (i + k) xs ≡ drop k s
  drop_on xs i k s h = sym (drop-drop i k xs) ∙ ap (λ t. drop k t) h

  pub length_at :
      (xs : List A) (i : ℕ) (x : A) (r : List A)
      → drop i xs ≡ x ∷ r
      → length xs ≡ i + suc (length r)
  length_at [] zero x r h = cc
  length_at [] (suc i) x r h = cc
  length_at (y ∷ xs) zero x r h = omega (arith, ap (λ t. length t) h)
  length_at (y ∷ xs) (suc i) x r h = omega (arith, length_at xs i x r h)
