-- ===== src/Bench/Client/Plans.antt =====
-- The plans that src/bench/client.rs makes of the options.
use proxypen.Base.{
  ℕ, suc, ◌+◌, ◌*◌, ◌<◌, ◌≡◌, refl, ◌∙◌, Bool, true, false, List, [], ◌∷◌, ◌++◌, All, length,
  length-append, arith, if◌then◌else◌, ◌⊎◌, inl, inr, ◌==◌,
}
use proxypen.Bench.Protocol.{kind_tcp_up, kind_tcp_down, kind_udp_up, kind_udp_down}
use proxypen.Bench.Stats.{contains}
use proxypen.Bench.Client.{
  BenchOptions, Plan, build_plans, for_each, only, want_tcp, want_udp, want_up, want_down,
}

abbrev pub count : Bool → ℕ
count true = 1
count false = 0

-- What a plan asks for is what the options ask for.
pub record Wanted (opts : BenchOptions) (p : Plan) : Type 0 where
  pub known : p.kind < 4
  pub upload : (p.kind ≡ kind_tcp_up) ⊎ (p.kind ≡ kind_udp_up) → want_up opts.direction ≡ true
  pub download :
      (p.kind ≡ kind_tcp_down) ⊎ (p.kind ≡ kind_udp_down) → want_down opts.direction ≡ true
  pub tcp : p.kind < kind_udp_up → (want_tcp opts.mode ≡ true) × (p.bandwidth_bps ≡ 0)
  pub udp :
      kind_udp_up < suc p.kind
      → (want_udp opts.mode ≡ true) × (contains p.bandwidth_bps opts.udp_bandwidth ≡ true)

not_among : (k a b : ℕ) → (k == a) ≡ false → (k == b) ≡ false → (k ≡ a) ⊎ (k ≡ b) → ⊥
not_among k a b p q (inl h) = ground arith
not_among k a b p q (inr h) = ground arith

All-append : {A : Type 0} (P : A → Type 0) (xs ys : List A) → All P xs → All P ys → All P (xs ++ ys)
All-append P [] ys h k = k
All-append P (x ∷ xs) ys (h, hs) k = (h, All-append P xs ys hs k)

All-if :
    {A : Type 0} (P : A → Type 0) (b : Bool) (xs : List A)
    → (b ≡ true → All P xs)
    → All P (if b then xs else [])
All-if P true xs h = h refl
All-if P false xs h = tt

module _ (opts : BenchOptions) where
  open opts use {mode, direction, udp_bandwidth}

  only-tcp_up :
      (b : Bool)
      → want_up direction ≡ b
      → want_tcp mode ≡ true
      → All (Wanted opts) (only b kind_tcp_up 0)
  only-tcp_up false e t = tt
  only-tcp_up true e t = (
    record {
      known = omega arith;
      upload = λ _. e;
      download = λ h. absurd (not_among 0 1 3 refl refl h);
      tcp = λ _. (t, refl);
      udp = λ h. absurd (omega arith);
    },
    tt,
  )

  only-tcp_down :
      (b : Bool)
      → want_down direction ≡ b
      → want_tcp mode ≡ true
      → All (Wanted opts) (only b kind_tcp_down 0)
  only-tcp_down false e t = tt
  only-tcp_down true e t = (
    record {
      known = omega arith;
      upload = λ h. absurd (not_among 1 0 2 refl refl h);
      download = λ _. e;
      tcp = λ _. (t, refl);
      udp = λ h. absurd (omega arith);
    },
    tt,
  )

  module _ (bw : ℕ) (m : contains bw udp_bandwidth ≡ true) (u : want_udp mode ≡ true) where
    only-udp_up : (b : Bool) → want_up direction ≡ b → All (Wanted opts) (only b kind_udp_up bw)
    only-udp_up false e = tt
    only-udp_up true e = (
      record {
        known = omega arith;
        upload = λ _. e;
        download = λ h. absurd (not_among 2 1 3 refl refl h);
        tcp = λ h. absurd (omega arith);
        udp = λ _. (u, m);
      },
      tt,
    )

    only-udp_down :
        (b : Bool) → want_down direction ≡ b → All (Wanted opts) (only b kind_udp_down bw)
    only-udp_down false e = tt
    only-udp_down true e = (
      record {
        known = omega arith;
        upload = λ h. absurd (not_among 3 0 2 refl refl h);
        download = λ _. e;
        tcp = λ h. absurd (omega arith);
        udp = λ _. (u, m);
      },
      tt,
    )

  udp_plans :
      (bws : List ℕ)
      → want_udp mode ≡ true
      → ((bw : ℕ) → contains bw bws ≡ true → contains bw udp_bandwidth ≡ true)
      → All (Wanted opts) (
          for_each
            (λ bw.
              only (want_up direction) kind_udp_up bw
              ++ only (want_down direction) kind_udp_down bw)
            bws)
  unfolding for_each
  udp_plans [] u h = tt
  udp_plans (bw ∷ bws) u h =
      let m = h bw (first bw bws) in
      All-append (Wanted opts)
        (only (want_up direction) kind_udp_up bw ++ only (want_down direction) kind_udp_down bw) _
        (All-append (Wanted opts) (only (want_up direction) kind_udp_up bw) _
          (only-udp_up bw m u (want_up direction) refl)
          (only-udp_down bw m u (want_down direction) refl))
        (udp_plans bws u (λ x k. h x (later x bw bws k)))
    where
      first : (x : ℕ) (xs : List ℕ) → contains x (x ∷ xs) ≡ true
      first x xs = unfold contains in ground arith

      later : (x y : ℕ) (xs : List ℕ) → contains x xs ≡ true → contains x (y ∷ xs) ≡ true
      later x y xs k = unfold contains in ground arith

  -- Every plan is for one of the four kinds, in a mode and a direction that the options ask for, with no
  -- bandwidth for TCP and one of the given bandwidths for UDP.
  pub build_plans-Wanted : All (Wanted opts) (build_plans opts)
  unfolding build_plans
  build_plans-Wanted =
      All-append (Wanted opts)
        (if want_tcp mode
          then only (want_up direction) kind_tcp_up 0 ++ only (want_down direction) kind_tcp_down 0
          else [])
        _
        (All-if (Wanted opts) (want_tcp mode) _ λ t.
          All-append (Wanted opts) (only (want_up direction) kind_tcp_up 0) _
            (only-tcp_up (want_up direction) refl t) (only-tcp_down (want_down direction) refl t))
        (All-if (Wanted opts) (want_udp mode) _ λ u. udp_plans udp_bandwidth u (λ x k. k))

  only-length : (b : Bool) (k bw : ℕ) → length (only b k bw) ≡ count b
  only-length true k bw = refl
  only-length false k bw = refl

  both-length : (a b : Bool) (k l bw : ℕ) → length (only a k bw ++ only b l bw) ≡ count a + count b
  both-length a b k l bw =
      omega (
        arith,
        length-append {0} (only a k bw) (only b l bw),
        only-length a k bw,
        only-length b l bw,
      )

  length-for_each :
      (f : ℕ → List Plan) (n : ℕ) (xs : List ℕ)
      → ((x : ℕ) → length (f x) ≡ n)
      → length (for_each f xs) ≡ n * length xs
  unfolding for_each
  length-for_each f n [] h = omega arith
  length-for_each f n (x ∷ xs) h =
      omega (arith, length-append {0} (f x) (for_each f xs), h x, length-for_each f n xs h)

  length-if :
      {A : Type 0} (b : Bool) (xs : List A) (n : ℕ)
      → length xs ≡ n
      → length (if b then xs else []) ≡ count b * n
  length-if true xs n h = omega (arith, h)
  length-if false xs n h = omega arith

  -- There is a plan for TCP for each direction asked for, and one for UDP for each direction and bandwidth.
  pub length-build_plans :
      length (build_plans opts)
      ≡ count (want_tcp mode) * (count (want_up direction) + count (want_down direction))
        + count (want_udp mode)
          * ((count (want_up direction) + count (want_down direction)) * length udp_bandwidth)
  unfolding build_plans
  length-build_plans =
      let u = want_up direction in
      let d = want_down direction in
      let t = only u kind_tcp_up 0 ++ only d kind_tcp_down 0 in
      let f : ℕ → List Plan = λ bw. only u kind_udp_up bw ++ only d kind_udp_down bw in
      length-append {0} (if want_tcp mode then t else [])
        (if want_udp mode then for_each f udp_bandwidth else [])
      ∙ rw
          (
            length-if (want_tcp mode) t _ (both-length u d kind_tcp_up kind_tcp_down 0),
            length-if (want_udp mode) (for_each f udp_bandwidth) _ (
                length-for_each f (count u + count d) udp_bandwidth
                  (both-length u d kind_udp_up kind_udp_down)),
          )
          refl
