-- ===== src/Stream/Takes.antt =====
-- Readers of a fixed number of bytes.
use proxypen.Base.{
  Ensures, Ensures-ok, Ensures-err, Ensures-mono, Outcome, panic, stuck, ℕ, zero, suc, ◌+◌, ◌≤◌,
  ◌<◌, ◌≡◌, inl, inr, refl, List, [], ◌∷◌, length, take, drop, ok, err, arith, length-drop,
  drop-drop, ltb, Bool-cases, ltb→lt, ltb→le,
}
use proxypen.Base.Bytes.{from_be}
use proxypen.Error.{unexpected_eof}
use proxypen.Error.{IoError}
use proxypen.Stream.{continue, Reader, ◌>>=◌, pure, read_exact, read_uint, read_exact_short}

-- `m` ends in `unexpected_eof` on fewer than `n` bytes, and takes the first `n` of any others.
pub record Takes {ℓ} {A : Type ℓ} (n : ℕ) (m : Reader A) : Type ℓ where
  pub short : (s : List ℕ) → length s < n → m s ≡ err unexpected_eof
  pub long : (s : List ℕ) → n ≤ length s → (a : A) × (m s ≡ ok (a, drop n s))

pub Takes-pure {ℓ} : {A : Type ℓ} (a : A) → Takes 0 (pure a)
Takes-pure a = record { short = λ s h. absurd (omega arith); long = λ s h. (a, refl) }

read_exact_long : (n : ℕ) (s : List ℕ) → n ≤ length s → read_exact n s ≡ ok (take n s, drop n s)
unfolding read_exact
read_exact_long zero s h = refl
read_exact_long (suc n) [] h = absurd (omega arith)
read_exact_long (suc n) (b ∷ s) h = rw (read_exact_long n s (omega arith)) refl

pub Takes-read_exact : (n : ℕ) → Takes n (read_exact n)
Takes-read_exact n = record {
  short = read_exact_short n;
  long = λ s h. (take n s, read_exact_long n s h);
}

pub Takes-read_uint : (k : ℕ) → Takes k (read_uint k)
unfolding read_uint
Takes-read_uint k = record {
  short = λ s h. rw (read_exact_short k s h) refl;
  long = λ s h. (from_be 0 (take k s), rw (read_exact_long k s h) refl);
}

module _ {ℓ κ} {A : Type ℓ} {B : Type κ} (n k l : ℕ) (m : Reader A) (f : A → Reader B) where
  -- One after the other.
  pub Takes-bind : n + k ≡ l → Takes n m → ((a : A) → Takes k (f a)) → Takes l (m >>= f)
  Takes-bind e t u = record { short = short; long = long }
    where
      short : (s : List ℕ) → length s < l → (m >>= f) s ≡ err unexpected_eof
      short s h = elim (Bool-cases (ltb (length s) n)) [
        | inl p ↦ rw (t.short s (ltb→lt _ _ p)) refl
        | inr p ↦
            let (a, q) = t.long s (ltb→le _ _ p) in
            rw q ((u a).short (drop n s) (omega (arith, length-drop {0} n s, ltb→le _ _ p)))
      ]

      long : (s : List ℕ) → l ≤ length s → (b : B) × ((m >>= f) s ≡ ok (b, drop l s))
      long s h =
          let (a, q) = t.long s (omega arith) in
          let (b, r) = (u a).long (drop n s) (omega (arith, length-drop {0} n s)) in
          (b, rw q (rw (drop-drop n k s, e) at r))

-- A reader that comes back and gives nothing back.
abbrev pub Shrinks {ℓ} : {A : Type ℓ} → Reader A → Type 0
Shrinks m = (s : List ℕ) → Ensures (λ p. length (p.1) ≤ length s) (m s)

pub Shrinks-Takes {ℓ} : {A : Type ℓ} (n : ℕ) (m : Reader A) → Takes n m → Shrinks m
Shrinks-Takes n m t s = elim (Bool-cases (ltb (length s) n)) [
  | inl p ↦ rw (t.short s (ltb→lt _ _ p)) Ensures-err
  | inr p ↦
      let (a, q) = t.long s (ltb→le _ _ p) in rw q (Ensures-ok (omega (arith, length-drop {0} n s)))
]

continue-Ensures {ℓ κ} :
    {A : Type ℓ} {B : Type κ} (n : ℕ) (r : Outcome IoError (A × List ℕ)) (f : A → Reader B)
    → Ensures (λ p. length (p.1) ≤ n) r
    → ((a : A) → Shrinks (f a))
    → Ensures (λ p. length (p.1) ≤ n) (continue r f)
continue-Ensures n (ok (a, rest)) f h k =
    Ensures-mono (f a rest) (λ p l. omega (arith, h.holds)) (k a rest)
continue-Ensures n (err e) f h k = Ensures-err
continue-Ensures n panic f h k = absurd h.holds
continue-Ensures n stuck f h k = absurd h.holds

pub Shrinks-bind {ℓ κ} :
    {A : Type ℓ} {B : Type κ} (m : Reader A) (f : A → Reader B)
    → Shrinks m
    → ((a : A) → Shrinks (f a))
    → Shrinks (m >>= f)
Shrinks-bind m f h k s = continue-Ensures (length s) (m s) f (h s) k
