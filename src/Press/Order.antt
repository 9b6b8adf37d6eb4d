-- ===== src/Press/Order.antt =====
-- The order of the times of src/press.rs, and its sort.
use proxypen.Base.{
  ℕ, zero, suc, ◌≤◌, ◌≡◌, ◌⊎◌, inl, inr, refl, sym, ap, ◌∙◌, List, [], ◌∷◌, length, All, true,
  false, arith, Bool-cases, ok, index,
}
use proxypen.Base.Flow
use proxypen.Error.{IoError}
use proxypen.Press.{Milliseconds, insert_by, sort_by}

-- Times compare like numbers, and a greater percentage does not have a smaller rank.
pub record IsOrder (M : Milliseconds) : Type 0 where
  pub total : (a b : M.Carrier) → (M.not_greater a b ≡ true) ⊎ (M.not_greater b a ≡ true)
  pub trans :
      (a b c : M.Carrier)
      → M.not_greater a b ≡ true
      → M.not_greater b c ≡ true
      → M.not_greater a c ≡ true
  pub rank_mono : (p q n : ℕ) → p ≤ q → M.rank p n ≤ M.rank q n

module _ (M : Milliseconds) (o : IsOrder M) where
  abbrev pub Leq : M.Carrier → M.Carrier → Type 0
  Leq a b = M.not_greater a b ≡ true

  pub Leq-refl : (a : M.Carrier) → Leq a a
  Leq-refl a = elim (o.total a a) [ inl h ↦ h | inr h ↦ h ]

  abbrev pub IsSorted : List M.Carrier → Type 0
  IsSorted [] = Unit {0}
  IsSorted (x ∷ xs) = All (Leq x) xs × IsSorted xs

  All-trans : (a b : M.Carrier) (xs : List M.Carrier) → Leq a b → All (Leq b) xs → All (Leq a) xs
  All-trans a b [] h k = tt
  All-trans a b (x ∷ xs) h k = (o.trans a b x h k.0, All-trans a b xs h k.1)

  module _ (P : M.Carrier → Type 0) where
    All-insert_by :
        (x : M.Carrier) (ys : List M.Carrier) → P x → All P ys → All P (insert_by M x ys)
    unfolding insert_by
    All-insert_by x [] h k = (h, tt)
    All-insert_by x (y ∷ ys) h k = elim (Bool-cases (M.not_greater x y)) [
      | inl e ↦ rw e (h, k)
      | inr e ↦ rw e (k.0, All-insert_by x ys h k.1)
    ]

    insert_by-All :
        (x : M.Carrier) (ys : List M.Carrier) → All P (insert_by M x ys) → P x × All P ys
    unfolding insert_by
    insert_by-All x [] h = (h.0, tt)
    insert_by-All x (y ∷ ys) h = elim (Bool-cases (M.not_greater x y)) [
      | inl e ↦ let k = rw e at h in (k.0, k.1)
      | inr e ↦ let k = rw e at h in let (p, q) = insert_by-All x ys k.1 in (p, (k.0, q))
    ]

    pub sort_by-All : (xs : List M.Carrier) → All P (sort_by M xs) → All P xs
    unfolding sort_by
    sort_by-All [] h = tt
    sort_by-All (x ∷ xs) h = let (p, q) = insert_by-All x (sort_by M xs) h in (p, sort_by-All xs q)

    All-index :
        (xs : List M.Carrier) (i : ℕ) (b : M.Carrier)
        → All P xs
        → index {E = IoError} xs i ≡ ok b
        → P b
    unfolding Flow.index
    All-index [] i b h e = cc
    All-index (x ∷ xs) zero b h e = let q : x ≡ b = cc in rw (sym q) h.0
    All-index (x ∷ xs) (suc i) b h e = All-index xs i b h.1 e

    pub index-All :
        (xs : List M.Carrier)
        → ((i : ℕ) (a : M.Carrier) → index {E = IoError} xs i ≡ ok a → P a)
        → All P xs
    unfolding Flow.index
    index-All [] h = tt
    index-All (x ∷ xs) h = (h 0 x refl, index-All xs (λ i a e. h (suc i) a e))

  insert_by-IsSorted :
      (x : M.Carrier) (ys : List M.Carrier) → IsSorted ys → IsSorted (insert_by M x ys)
  unfolding insert_by
  insert_by-IsSorted x [] h = (tt, tt)
  insert_by-IsSorted x (y ∷ ys) h = elim (Bool-cases (M.not_greater x y)) [
    | inl e ↦ rw e ((e, All-trans x y ys e h.0), h)
    | inr e ↦ rw e (All-insert_by (Leq y) x ys (other e) h.0, insert_by-IsSorted x ys h.1)
  ]
    where
      other : M.not_greater x y ≡ false → Leq y x
      other e = elim (o.total x y) [ inl h ↦ cc | inr h ↦ h ]

  pub sort_by-IsSorted : (xs : List M.Carrier) → IsSorted (sort_by M xs)
  unfolding sort_by
  sort_by-IsSorted [] = tt
  sort_by-IsSorted (x ∷ xs) = insert_by-IsSorted x (sort_by M xs) (sort_by-IsSorted xs)

  length-insert_by :
      (x : M.Carrier) (ys : List M.Carrier) → length (insert_by M x ys) ≡ suc (length ys)
  unfolding insert_by
  length-insert_by x [] = refl
  length-insert_by x (y ∷ ys) = elim (Bool-cases (M.not_greater x y)) [
    | inl e ↦ rw e refl
    | inr e ↦ rw e (ap suc (length-insert_by x ys))
  ]

  pub length-sort_by : (xs : List M.Carrier) → length (sort_by M xs) ≡ length xs
  unfolding sort_by
  length-sort_by [] = refl
  length-sort_by (x ∷ xs) = length-insert_by x (sort_by M xs) ∙ ap suc (length-sort_by xs)

  pub Leq-index :
      (xs : List M.Carrier) (i j : ℕ) (a b : M.Carrier)
      → IsSorted xs
      → i ≤ j
      → index {E = IoError} xs i ≡ ok a
      → index {E = IoError} xs j ≡ ok b
      → Leq a b
  unfolding Flow.index
  Leq-index [] i j a b s l e f = cc
  Leq-index (x ∷ xs) zero zero a b s l e f =
      let p : x ≡ a = cc in let q : x ≡ b = cc in rw (sym p, sym q) (Leq-refl x)
  Leq-index (x ∷ xs) zero (suc j) a b s l e f =
      let p : x ≡ a = cc in rw (sym p) (All-index (Leq x) xs j b s.0 f)
  Leq-index (x ∷ xs) (suc i) zero a b s l e f = absurd (omega arith)
  Leq-index (x ∷ xs) (suc i) (suc j) a b s l e f = Leq-index xs i j a b s.1 (omega arith) e f
