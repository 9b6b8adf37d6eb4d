-- ===== src/Press/Permuted.antt =====
-- The order in which the tasks of src/press.rs hand in their times.
use proxypen.Base.{
  ◌≡◌, refl, ap, ◌∙◌, inl, inr, List, [], ◌∷◌, true, false, Bool-cases, if◌then◌else◌, ℕ,
}
use mathlib.Core.List.{Permᴰ}
use proxypen.Press.{Milliseconds, Press, PressProtocol, insert_by, sort_by, press_result}
use proxypen.Press.Order.{IsOrder, Leq}

module _ (M : Milliseconds) (o : IsOrder M)
    (antisym : (a b : M.Carrier) → Leq M o a b → Leq M o b a → a ≡ b) where
  either_first :
      (x y : M.Carrier) (zs : List M.Carrier)
      → (if M.not_greater x y then x ∷ y ∷ zs else y ∷ x ∷ zs)
        ≡ (if M.not_greater y x then y ∷ x ∷ zs else x ∷ y ∷ zs)
  either_first x y zs = elim (Bool-cases (M.not_greater x y)) [
    | inl h ↦ elim (Bool-cases (M.not_greater y x)) [
      | inl k ↦ let e : x ≡ y = antisym x y h k in cc
      | inr k ↦ rw (h, k) refl
    ]
    | inr h ↦ elim (o.total x y) [ inl h' ↦ cc | inr k ↦ rw (h, k) refl ]
  ]

  -- An element above `z`, where `x` is not, is above `x`.
  above :
      (x y z : M.Carrier)
      → M.not_greater x z ≡ true
      → M.not_greater y z ≡ false
      → M.not_greater y x ≡ false
  above x y z h k = elim (Bool-cases (M.not_greater y x)) [
    | inl e ↦ let t : M.not_greater y z ≡ true = o.trans y x z e h in cc
    | inr e ↦ e
  ]

  insert_by_comm :
      (x y : M.Carrier) (zs : List M.Carrier)
      → insert_by M x (insert_by M y zs) ≡ insert_by M y (insert_by M x zs)
  unfolding insert_by
  insert_by_comm x y [] = either_first x y []
  insert_by_comm x y (z ∷ zs) = elim (Bool-cases (M.not_greater x z)) [
    | inl h ↦ elim (Bool-cases (M.not_greater y z)) [
      | inl k ↦ rw (h, k, h) (either_first x y (z ∷ zs))
      | inr k ↦ rw (h, k, above x y z h k, h) refl
    ]
    | inr h ↦ elim (Bool-cases (M.not_greater y z)) [
      | inl k ↦ rw (h, k, above y x z k h, h) refl
      | inr k ↦ rw (h, k, h) (ap (λ t. z ∷ t) (insert_by_comm x y zs))
    ]
  ]

  sort_by-Perm : (xs ys : List M.Carrier) → Permᴰ xs ys → sort_by M xs ≡ sort_by M ys
  unfolding sort_by
  sort_by-Perm [] [] Permᴰ.nil = refl
  sort_by-Perm (x ∷ xs) (y ∷ ys) (Permᴰ.cons e p) = rw (e, sort_by-Perm xs ys p) refl
  sort_by-Perm (a ∷ b ∷ xs) (a' ∷ b' ∷ _) (Permᴰ.swap e f) =
      rw (e, f) (insert_by_comm b' a' (sort_by M xs))
  sort_by-Perm xs zs (Permᴰ.trans p q) = sort_by-Perm xs _ p ∙ sort_by-Perm _ zs q

  -- Where times compare like numbers and equal times are one: in whatever order the tasks hand in their times, the
  -- result of a run is the same, with its averages, although the sum of f64 depends on the order.
  pub press_result-Perm :
      (protocol : PressProtocol) (num_requests total_duration : ℕ) (s : Press M)
      (ttfb total : List M.Carrier)
      → Permᴰ s.ttfb ttfb
      → Permᴰ s.total total
      → press_result M protocol num_requests total_duration s
        ≡ press_result M protocol num_requests total_duration
            (record s { ttfb = ttfb; total = total })
  unfolding press_result
  press_result-Perm protocol num_requests total_duration s ttfb total p q =
      rw (sort_by-Perm s.ttfb ttfb p, sort_by-Perm s.total total q) refl
