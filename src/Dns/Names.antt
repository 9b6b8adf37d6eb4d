-- ===== src/Dns/Names.antt =====
-- The names of a DNS message, as bytes and as `skip_name` of src/dns.rs reads them.
use proxypen.Base.{
  ℕ, zero, suc, ◌+◌, ◌≤◌, ◌<◌, ◌^◌, ◌≡◌, refl, ap, ◌∙◌, List, [], ◌∷◌, ◌++◌, All, arith, length,
  drop, leb, ◌==◌, true, false, bit_and, ok, index_at, drop_on, length_at, length-append,
  length-drop, append_assoc, drop-append, if◌then◌else◌,
}
use proxypen.Base.Bits.{top_bits}
use proxypen.Base.Bytes.{be_bytes, from_be-be_bytes}
use proxypen.Error.{ProxyPenError}
use proxypen.Dns.{skip_name, name_end, u16_at, u16}

-- The labels as a query has them, without the root.
unfoldable pub label_bytes : List (List ℕ) → List ℕ
label_bytes [] = []
label_bytes (l ∷ ls) = length l ∷ l ++ label_bytes ls

abbrev pub IsLabel : List ℕ → Type 0
IsLabel l = (0 < length l) × (length l ≤ 63)

-- The labels that are written: `split` gives an empty one for each dot too many.
unfoldable pub kept : List (List ℕ) → List (List ℕ)
kept [] = []
kept (l ∷ ls) = if length l == 0 then kept ls else l ∷ kept ls

pub u16_at-At :
    (buf : List ℕ) (pos v : ℕ) (r : List ℕ)
    → v < 2 ^ 16
    → drop pos buf ≡ u16 v ++ r
    → u16_at buf pos ≡ ok v
unfolding u16_at be_bytes
u16_at-At buf pos v r hv h =
    let a = index_at ProxyPenError buf pos _ _ h in
    let b = index_at ProxyPenError buf (pos + 1) _ _ (drop_on buf pos 1 _ h) in
    rw (a, b) (ap ok (unfold be_bytes in from_be-be_bytes 2 v hv))

past_label :
    (buf : List ℕ) (pos : ℕ) (l more r : List ℕ)
    → drop pos buf ≡ length l ∷ (l ++ more) ++ r
    → drop (pos + (1 + length l)) buf ≡ more ++ r
past_label buf pos l more r h =
    let e : pos + (1 + length l) ≡ pos + 1 + length l = omega arith in
    rw e (
      drop_on buf (pos + 1) (length l) _ (drop_on buf pos 1 _ h)
      ∙ ap (drop (length l)) (append_assoc l more r)
      ∙ drop-append l (more ++ r))

skip_name-At :
    (ls : List (List ℕ)) (fuel : ℕ) (buf : List ℕ) (pos : ℕ) (r : List ℕ)
    → All IsLabel ls
    → length ls < fuel
    → drop pos buf ≡ label_bytes ls ++ (0 ∷ r)
    → (p : ℕ) × (skip_name fuel buf pos ≡ ok p) × (drop p buf ≡ r)
unfolding skip_name label_bytes
skip_name-At ls zero buf pos r hl hf h = absurd (omega arith)
skip_name-At [] (suc fuel) buf pos r hl hf h =
    let i = index_at ProxyPenError buf pos 0 r h in
    let n : leb (length buf) pos ≡ false = ground (arith, length_at buf pos 0 r h) in
    (pos + 1, rw (n, i) refl, drop_on buf pos 1 _ h)
skip_name-At (l ∷ ls) (suc fuel) buf pos r hl hf h =
    let i = index_at ProxyPenError buf pos (length l) _ h in
    let n : leb (length buf) pos ≡ false = ground (arith, length_at buf pos (length l) _ h) in
    let z : (length l == 0) ≡ false = ground (arith, hl.0) in
    let c : (bit_and (length l) 0xC0 == 0xC0) ≡ false =
      top_bits (length l) (omega (arith, hl.0)) ∙ ground (arith, hl.0) in
    let next : drop (pos + (1 + length l)) buf ≡ label_bytes ls ++ (0 ∷ r) =
      past_label buf pos l (label_bytes ls) (0 ∷ r) h in
    let (p, e, d) = skip_name-At ls fuel buf (pos + (1 + length l)) r hl.1 (omega arith) next in
    (p, rw (n, i, z, c) e, d)

pub length-label_bytes : (ls : List (List ℕ)) → length ls ≤ length (label_bytes ls)
unfolding label_bytes
length-label_bytes [] = omega arith
length-label_bytes (l ∷ ls) =
    omega (arith, length-label_bytes ls, length-append {0} l (label_bytes ls))

pub name_end-At :
    (ls : List (List ℕ)) (buf : List ℕ) (pos : ℕ) (r : List ℕ)
    → All IsLabel ls
    → drop pos buf ≡ label_bytes ls ++ (0 ∷ r)
    → (p : ℕ) × (name_end buf pos ≡ ok p) × (drop p buf ≡ r)
name_end-At ls buf pos r hl h =
    skip_name-At ls (suc (length buf)) buf pos r hl (omega (arith, fits)) h
  where
    fits : length ls ≤ length buf
    fits = omega (
      arith,
      ap (λ t. length t) h,
      length-drop {0} pos buf,
      length-append {0} (label_bytes ls) (0 ∷ r),
      length-label_bytes ls,
    )

-- A name that is a pointer.
pub pointer_end-At :
    (buf : List ℕ) (pos p q : ℕ) (r : List ℕ)
    → 192 ≤ p
    → p < 256
    → drop pos buf ≡ p ∷ q ∷ r
    → name_end buf pos ≡ ok (pos + 2)
unfolding skip_name
pointer_end-At buf pos p q r lo hi h =
    let i = index_at ProxyPenError buf pos p _ h in
    let len = length_at buf pos p _ h in
    let n : leb (length buf) pos ≡ false = ground (arith, len) in
    let n' : leb (length buf) (pos + 1) ≡ false = ground (arith, len) in
    let z : (p == 0) ≡ false = ground arith in
    let c : (bit_and p 0xC0 == 0xC0) ≡ true = top_bits p hi ∙ ground arith in
    rw (n, i, z, c, n') refl
