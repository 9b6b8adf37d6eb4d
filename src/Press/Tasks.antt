-- ===== src/Press/Tasks.antt =====
-- What holds in every state of a press run (src/press.rs), and when it goes on.
use proxypen.Base.{
  List, ◌++◌, if◌then◌else◌, take, ap, sym, ◌∙◌, append-nil, length-take, take_all, take-append_le,
  ℕ, suc, ◌+◌, ◌*◌, ◌<◌, ◌≤◌, ◌≡◌, ◌⊎◌, inl, inr, refl, min, [], ◌∷◌, length, length-append, arith,
  tests, Bool-cases, ltb,
}
use proxypen.Results.{success, failed, TestResult}
use proxypen.Press.{Milliseconds, Press, finish, Reachable, start, acquires, finishes, crashes}

module _ (M : Milliseconds) (concurrency num_requests : ℕ) where
  abbrev failed_with : TestResult → List (List ℕ)
  failed_with r = elim r.status [ success ↦ [] | failed e ↦ e ∷ [] ]

  -- The texts of all tests that failed, in the order in which they ended
  abbrev pub failures : {s : Press M} → Reachable M concurrency num_requests s → List (List ℕ)
  failures start = []
  failures (acquires r h k) = failures r
  failures (finishes r h t) = failures r ++ failed_with t
  failures (crashes r h) = failures r

  pub record Balanced (texts : List (List ℕ)) (s : Press M) : Type 0 where
    pub permits : s.running ≤ concurrency
    pub tasks : s.waiting + s.running + s.crashed + s.success_count + s.error_count ≡ num_requests
    pub ttfb : length s.ttfb ≡ s.success_count
    pub total : length s.total ≡ s.success_count
    pub failed : length texts ≡ s.error_count
    pub errors : s.errors ≡ take 50 texts

  kept :
      (errors texts : List (List ℕ)) (e : List ℕ)
      → errors ≡ take 50 texts
      → (if ltb (length errors) 50 then errors ++ (e ∷ []) else errors)
        ≡ take 50 (texts ++ (e ∷ []))
  kept errors texts e h =
      let n : length errors ≡ min 50 (length texts) = ap length h ∙ length-take 50 texts in
      elim (Bool-cases (ltb (length errors) 50)) [
        | inl f ↦
            let short : length texts < 50 = omega (tests, n) in
            let all : errors ≡ texts = h ∙ take_all 50 texts (omega arith) in
            rw
              (
                f,
                all,
                take_all 50 (texts ++ (e ∷ [])) (omega (arith, length-append {0} texts (e ∷ []))),
              )
              refl
        | inr f ↦ rw (f, h) (sym (take-append_le 50 texts (e ∷ []) (omega (tests, n))))
      ]

  finish-Balanced :
      (texts : List (List ℕ)) (s : Press M)
      → Balanced texts s
      → 0 < s.running
      → (r : TestResult) → Balanced (texts ++ failed_with r) (finish M s r)
  unfolding finish
  finish-Balanced texts s b h r =
      elim r.status
        as (λ status.
          Balanced (texts ++ failed_with (record r { status = status }))
            (finish M s (record r { status = status }))) [
              | success ↦ record {
                permits = omega (arith, b.permits);
                tasks = omega (arith, b.tasks);
                ttfb =
                    omega
                      (arith, length-append {0} s.ttfb (M.in_ms r.timing.first_byte ∷ []), b.ttfb);
                total =
                    omega (arith, length-append {0} s.total (M.in_ms r.timing.total ∷ []), b.total);
                failed = ap length (append-nil texts) ∙ b.failed;
                errors = b.errors ∙ ap (take 50) (sym (append-nil texts));
              }
              | failed e ↦ record {
                permits = omega (arith, b.permits);
                tasks = omega (arith, b.tasks);
                ttfb = b.ttfb;
                total = b.total;
                failed = omega (arith, length-append {0} texts (e ∷ []), b.failed);
                errors = kept s.errors texts e b.errors;
              }
            ]

  -- However the tasks interleave: no more tests run than there are permits, no task is lost or counted twice, there
  -- is a sample of either kind for each success, the errors are as many as the tests that failed, and the texts kept
  -- are those of the first 50 of them, in the order in which they ended.
  pub Reachable-Balanced :
      {s : Press M} (r : Reachable M concurrency num_requests s) → Balanced (failures r) s
  Reachable-Balanced start = record {
    permits = omega arith;
    tasks = omega arith;
    ttfb = refl;
    total = refl;
    failed = refl;
    errors = refl;
  }
  Reachable-Balanced (acquires r h k) =
      let b = Reachable-Balanced r in
      record {
        permits = omega arith;
        tasks = omega (arith, b.tasks);
        ttfb = b.ttfb;
        total = b.total;
        failed = b.failed;
        errors = b.errors;
      }
  Reachable-Balanced (finishes {s} r h t) =
      finish-Balanced (failures r) s (Reachable-Balanced r) h t
  Reachable-Balanced (crashes r h) =
      let b = Reachable-Balanced r in
      record {
        permits = omega (arith, b.permits);
        tasks = omega (arith, b.tasks);
        ttfb = b.ttfb;
        total = b.total;
        failed = b.failed;
        errors = b.errors;
      }

  pub kept_count :
      (texts : List (List ℕ)) {s : Press M}
      → Balanced texts s
      → length s.errors ≡ min s.error_count 50
  kept_count texts b = ap length b.errors ∙ omega (arith, length-take {0} 50 texts, b.failed)

  -- With at least one permit, a run that is not over goes on: a task can take a permit, or one that holds a permit
  -- can end. When it is over, and no task panicked, each request is a success or an error.
  pub Reachable-progress :
      (s : Press M)
      → Reachable M concurrency num_requests s
      → 0 < concurrency
      → ((0 < s.waiting) × (s.running < concurrency))
        ⊎ ((0 < s.running) ⊎ (s.success_count + s.error_count + s.crashed ≡ num_requests))
  Reachable-progress s r h =
      let b = Reachable-Balanced r in
      elim (Bool-cases (ltb 0 s.running)) [
        | inl e ↦ inr (inl (omega tests))
        | inr e ↦ elim (Bool-cases (ltb 0 s.waiting)) [
          | inl f ↦ inl (omega tests, omega tests)
          | inr f ↦ inr (inr (omega (tests, b.tasks)))
        ]
      ]

  abbrev work : Press M → ℕ
  work s = 2 * s.waiting + s.running

  abbrev pub steps : {s : Press M} → Reachable M concurrency num_requests s → ℕ
  steps start = 0
  steps (acquires r h k) = suc (steps r)
  steps (finishes r h t) = suc (steps r)
  steps (crashes r h) = suc (steps r)
