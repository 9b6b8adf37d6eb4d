-- ===== src/Base/Outcomes.antt =====
-- What is known of the outcome of a Rust call.
use Prim.Native.Nat.{ℕ, ◌<◌}
use mathlib.Core.Path.{◌≡◌, refl, ap}
use mathlib.Core.List.{List}
use mathlib.Core.Option.{Option, none, some}
use mathlib.Core.Bool.{Bool, true, false}
use proxypen.Base.Tests.{if◌then◌else◌}
use proxypen.Base.Lists.{length}
use proxypen.Base.Flow.{
  Outcome, ok, err, panic, stuck, ◌>>=◌, Returns, map_err, ok_or, index, index-lt,
}

abbrev Meets {ℓ} : {E : Type 0} {A : Type ℓ} → (A → Type 0) → Outcome E A → Type 0
Meets P (ok a) = P a
Meets P (err e) = Unit {0}
Meets P panic = ⊥
Meets P stuck = ⊥

-- The call comes back, and a value that it comes back with meets `P`.
pub record Ensures {ℓ} {E : Type 0} {A : Type ℓ} (P : A → Type 0) (r : Outcome E A) : Type 0 where
  pub holds : Meets P r

-- No more than that a call comes back
abbrev pub Any {ℓ} : {A : Type ℓ} → A → Type 0
Any a = Unit {0}

pub Ensures-ok {ℓ} :
    {E : Type 0} {A : Type ℓ} {P : A → Type 0} {a : A} → P a → Ensures {E = E} P (ok a)
Ensures-ok h = record { holds = h }

pub Ensures-err {ℓ} : {E : Type 0} {A : Type ℓ} {P : A → Type 0} {e : E} → Ensures {A = A} P (err e)
Ensures-err = record { holds = tt }

pub Ensures-bind {ℓ κ} :
    {E : Type 0} {A : Type ℓ} {B : Type κ} {P : A → Type 0} {Q : B → Type 0} (m : Outcome E A)
    (f : A → Outcome E B)
    → Ensures P m
    → ((a : A) → P a → Ensures Q (f a))
    → Ensures Q (m >>= f)
Ensures-bind (ok a) f h k = k a h.holds
Ensures-bind (err e) f h k = record { holds = tt }
Ensures-bind panic f h k = absurd h.holds
Ensures-bind stuck f h k = absurd h.holds

-- A chain that gives a value, from its first call on
pub bind-ok {ℓ κ} :
    {E : Type 0} {A : Type ℓ} {B : Type κ} (m : Outcome E A) (f : A → Outcome E B) (b : B)
    → m >>= f ≡ ok b
    → (a : A) × (m ≡ ok a) × (f a ≡ ok b)
bind-ok (ok a) f b e = (a, refl, e)
bind-ok (err x) f b e = absurd (cc e)
bind-ok panic f b e = absurd (cc e)
bind-ok stuck f b e = absurd (cc e)

pub map_err-ok {ℓ} :
    {E : Type 0} {F : Type 0} {A : Type ℓ} (f : E → F) (m : Outcome E A) (a : A)
    → map_err f m ≡ ok a
    → m ≡ ok a
map_err-ok f (ok x) a e = let q : x ≡ a = cc e in ap (λ z. ok z) q
map_err-ok f (err x) a e = absurd (cc e)
map_err-ok f panic a e = absurd (cc e)
map_err-ok f stuck a e = absurd (cc e)

pub Ensures-if {ℓ} :
    {E : Type 0} {A : Type ℓ} {P : A → Type 0} (b : Bool) (m n : Outcome E A)
    → (b ≡ true → Ensures P m)
    → (b ≡ false → Ensures P n)
    → Ensures P (if b then m else n)
Ensures-if true m n h k = h refl
Ensures-if false m n h k = k refl

pub Ensures-Returns {ℓ} :
    {E : Type 0} {A : Type ℓ} {P : A → Type 0} (r : Outcome E A) → Ensures P r → Returns r
Ensures-Returns (ok a) h = tt
Ensures-Returns (err e) h = tt
Ensures-Returns panic h = h.holds
Ensures-Returns stuck h = h.holds

pub Returns-Ensures {ℓ} :
    {E : Type 0} {A : Type ℓ} (r : Outcome E A) → Returns r → Ensures (λ _. Unit {0}) r
Returns-Ensures (ok a) h = record { holds = tt }
Returns-Ensures (err e) h = record { holds = tt }
Returns-Ensures panic h = absurd h
Returns-Ensures stuck h = absurd h

pub Ensures-map_err {ℓ} :
    {E F : Type 0} {A : Type ℓ} {P : A → Type 0} (f : E → F) (r : Outcome E A)
    → Ensures P r
    → Ensures P (map_err f r)
Ensures-map_err f (ok a) h = record { holds = h.holds }
Ensures-map_err f (err e) h = record { holds = tt }
Ensures-map_err f panic h = absurd h.holds
Ensures-map_err f stuck h = absurd h.holds

pub Ensures-ok_or {ℓ} :
    {E : Type 0} {A : Type ℓ} (o : Option A) (e : E) → Ensures (λ _. Unit {0}) (ok_or o e)
Ensures-ok_or none e = record { holds = tt }
Ensures-ok_or (some a) e = record { holds = tt }

pub Ensures-index {ℓ} :
    (E : Type 0) {A : Type ℓ} (xs : List A) (i : ℕ)
    → i < length xs
    → Ensures {E = E} (λ _. Unit {0}) (index xs i)
Ensures-index E xs i h = let (a, e) = index-lt E xs i h in rw e (record { holds = tt })

pub Ensures-mono {ℓ} :
    {E : Type 0} {A : Type ℓ} {P Q : A → Type 0} (r : Outcome E A)
    → ((a : A) → P a → Q a)
    → Ensures P r
    → Ensures Q r
Ensures-mono (ok a) k h = record { holds = k a h.holds }
Ensures-mono (err e) k h = record { holds = tt }
Ensures-mono panic k h = record { holds = h.holds }
Ensures-mono stuck k h = record { holds = h.holds }

pub Ensures-itself : {E A : Type 0} (r : Outcome E A) → Ensures Any r → Ensures (λ a. r ≡ ok a) r
Ensures-itself (ok a) h = record { holds = refl }
Ensures-itself (err e) h = record { holds = tt }
Ensures-itself panic h = record { holds = h.holds }
Ensures-itself stuck h = record { holds = h.holds }
