-- ===== src/Stream.antt =====
-- The byte streams under the program: what tokio's `read_exact`, `read_u8` to `read_u64` and
-- `write_all` do on a connection.
pub mod Takes
pub mod Conn
pub mod Within
use proxypen.Base.{
  ℕ, zero, suc, ◌^◌, ◌<◌, ◌≡◌, refl, List, [], ◌∷◌, ◌++◌, arith, length, Outcome, ok, err, panic,
  stuck,
}
use proxypen.Base.Bytes.{be_bytes, from_be, length-be_bytes, from_be-be_bytes}
use proxypen.Error.{IoError, unexpected_eof}

-- A reader takes from the bytes that the peer sends before it closes, and leaves the rest.
abbrev pub Reader {ℓ} : Type ℓ → Type ℓ
Reader A = List ℕ → Outcome IoError (A × List ℕ)

abbrev pub continue {ℓ κ} :
    {A : Type ℓ} {B : Type κ}
    → Outcome IoError (A × List ℕ)
    → (A → Reader B)
    → Outcome IoError (B × List ℕ)
continue (ok (a, rest)) f = f a rest
continue (err e) f = err e
continue panic f = panic
continue stuck f = stuck

infixl 5 ◌>>=◌
abbrev pub ◌>>=◌ {ℓ κ} : {A : Type ℓ} {B : Type κ} → Reader A → (A → Reader B) → Reader B
◌>>=◌ m f s = continue (m s) f

abbrev pub pure {ℓ} : {A : Type ℓ} → A → Reader A
pure a s = ok (a, s)

abbrev pub fail {ℓ} : {A : Type ℓ} → IoError → Reader A
fail e s = err e

-- `read_exact` on a buffer of `n` bytes
unfoldable pub read_exact : ℕ → Reader (List ℕ)
read_exact zero s = ok ([], s)
read_exact (suc n) [] = err unexpected_eof
read_exact (suc n) (b ∷ s) = continue (read_exact n s) (λ bs r. ok (b ∷ bs, r))

-- `read_u8`, `read_u16`, `read_u32`, `read_u64` for `k` = 1, 2, 4, 8
unfoldable pub read_uint : ℕ → Reader ℕ
read_uint k = do bs ← read_exact k; pure (from_be 0 bs)

pub read_exact-append : (xs rest : List ℕ) → read_exact (length xs) (xs ++ rest) ≡ ok (xs, rest)
unfolding read_exact
read_exact-append [] rest = refl
read_exact-append (x ∷ xs) rest = rw (read_exact-append xs rest) refl

pub read_exact_short : (n : ℕ) (s : List ℕ) → length s < n → read_exact n s ≡ err unexpected_eof
unfolding read_exact
read_exact_short zero s h = absurd (omega arith)
read_exact_short (suc n) [] h = refl
read_exact_short (suc n) (b ∷ s) h = rw (read_exact_short n s (omega arith)) refl

pub read_uint-be_bytes :
    (k v : ℕ) (rest : List ℕ) → v < 256 ^ k → read_uint k (be_bytes k v ++ rest) ≡ ok (v, rest)
unfolding read_uint
read_uint-be_bytes k v rest h =
    let e = read_exact-append (be_bytes k v) rest in
    let e' : read_exact k (be_bytes k v ++ rest) ≡ ok (be_bytes k v, rest) =
      rw (length-be_bytes k v) at e in
    rw (e', from_be-be_bytes k v h) refl

pub read_uint_short : (k : ℕ) (s : List ℕ) → length s < k → read_uint k s ≡ err unexpected_eof
unfolding read_uint
read_uint_short k s h = rw (read_exact_short k s h) refl

-- Inversion of a step that succeeded.
pub continue-eq-ok {ℓ κ} :
    {A : Type ℓ} {B : Type κ} (m : Outcome IoError (A × List ℕ)) (f : A → Reader B) {p : B × List ℕ}
    → continue m f ≡ ok p
    → (a : A) × (r : List ℕ) × (m ≡ ok (a, r)) × (f a r ≡ ok p)
continue-eq-ok (ok (a, r)) f h = (a, r, refl, h)
continue-eq-ok (err e) f h = cc
continue-eq-ok panic f h = cc
continue-eq-ok stuck f h = cc

-- A successful `read_exact` took the first `n` bytes.
pub read_exact-eq-ok :
    (n : ℕ) (s bs rest : List ℕ)
    → read_exact n s ≡ ok (bs, rest)
    → (s ≡ bs ++ rest) × (length bs ≡ n)
unfolding read_exact
read_exact-eq-ok zero s bs rest h = ground arith
read_exact-eq-ok (suc n) [] bs rest h = cc
read_exact-eq-ok (suc n) (b ∷ s) bs rest h =
    let (cs, r, e, e') = continue-eq-ok (read_exact n s) (λ bs r. ok (b ∷ bs, r)) h in
    let (p, q) = read_exact-eq-ok n s cs r e in ground arith

-- So did a successful read of a number.
pub read_uint-eq-ok :
    (k v : ℕ) (s rest : List ℕ)
    → read_uint k s ≡ ok (v, rest)
    → (bs : List ℕ) × (s ≡ bs ++ rest) × (length bs ≡ k) × (v ≡ from_be 0 bs)
unfolding read_uint
read_uint-eq-ok k v s rest h =
    let (bs, r, e, e') = continue-eq-ok (read_exact k s) (λ bs. pure (from_be 0 bs)) h in
    let (p, q) = read_exact-eq-ok k s bs r e in (bs, ground arith, q, ground arith)
