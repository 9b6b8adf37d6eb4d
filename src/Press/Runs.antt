-- ===== src/Press/Runs.antt =====
-- A press run of two requests with one permit, with whole milliseconds.
use proxypen.Base.{
  ℕ, ◌+◌, ◌-◌, ◌*◌, ◌/◌, ◌<◌, ◌≡◌, ◌⊎◌, refl, arith, List, [], ◌∷◌, leb, leb→le, ◌≤◌, true, inl,
  inr, Bool-cases, Ensures, some, ok, index,
}
use proxypen.Base.Flow
use proxypen.Results.{http1, success, TestResult, empty_timing}
use proxypen.Press.{
  PressProtocol, Milliseconds, Press, spawned, acquire, finish, Reachable, start, acquires,
  finishes, percentile, press_result, sort_by,
}
use proxypen.Press.Tasks.{Balanced, failures, Reachable-Balanced, Reachable-progress}
use proxypen.Press.Order.{IsOrder}
use mathlib.Core.List.{Permᴰ}
use proxypen.Press.Permuted.{press_result-Perm}
use proxypen.Press.Sorted.{IsReport, press_result-IsReport}

abbrev whole : Milliseconds
whole = record {
  Carrier = ℕ;
  zero_ms = 0;
  add = λ a b. a + b;
  div = λ a b. a / b;
  from_usize = λ n. n;
  rank = λ p n. p * (n - 1) / 100;
  in_ms = λ d. d / 1000000;
  not_greater = leb;
  per_second = λ n d. n * 1000000000 / d;
}

abbrev quick : TestResult
quick = record {
  protocol = http1;
  status = success;
  http_status = some 200;
  timing = record empty_timing { first_byte = 3000000; total = 5000000 };
  response_size = some 100;
}

abbrev begun : Press whole
begun = acquire whole (spawned whole 2)

begun-Reachable : Reachable whole 1 2 begun
begun-Reachable = acquires start (omega arith) (omega arith)

ended-Reachable : Reachable whole 1 2 (finish whole begun quick)
ended-Reachable = finishes begun-Reachable (omega arith) quick

Reachable-Balanced_example :
    Balanced whole 1 2 (failures whole 1 2 ended-Reachable) (finish whole begun quick)
Reachable-Balanced_example = Reachable-Balanced whole 1 2 ended-Reachable

Reachable-progress_example :
    ((0 < begun.waiting) × (begun.running < 1))
    ⊎ ((0 < begun.running) ⊎ (begun.success_count + begun.error_count + begun.crashed ≡ 2))
Reachable-progress_example = Reachable-progress whole 1 2 begun begun-Reachable (omega arith)

abbrev samples : List ℕ
samples = 1 ∷ 2 ∷ 3 ∷ 4 ∷ []

median : percentile whole samples 50 ≡ ok 2
unfolding percentile Flow.index
median = refl

div_mono : (a b : ℕ) → a ≤ b → a / 100 ≤ b / 100
div_mono a b h = omega arith

whole-IsOrder : IsOrder whole
whole-IsOrder = record {
  total = λ a b. leb_total a b;
  trans = λ a b c h k. ground arith;
  rank_mono = λ p q n h. div_mono (p * (n - 1)) (q * (n - 1)) (grind arith);
}
  where
    leb_total : (a b : ℕ) → (leb a b ≡ true) ⊎ (leb b a ≡ true)
    leb_total a b = elim (Bool-cases (leb a b)) [ inl h ↦ inl h | inr h ↦ inr (ground arith) ]

abbrev over : Press whole
over = finish whole (acquire whole (spawned whole 1)) quick

over-Reachable : Reachable whole 1 1 over
over-Reachable = finishes (acquires start (omega arith) (omega arith)) (omega arith) quick

nothing_left : (over.waiting ≡ 0) × (over.running ≡ 0)
unfolding finish
nothing_left = (refl, refl)

press_result-IsReport_example :
    Ensures
      (IsReport whole whole-IsOrder 1 1 over)
      (press_result whole PressProtocol.http1 1 5000000 over)
press_result-IsReport_example =
    press_result-IsReport whole whole-IsOrder 1 1 over PressProtocol.http1 5000000 over-Reachable
      nothing_left.0 nothing_left.1

abbrev unsorted : List ℕ
unsorted = 4 ∷ 1 ∷ 3 ∷ 1 ∷ []

in_order : sort_by whole unsorted ≡ 1 ∷ 1 ∷ 3 ∷ 4 ∷ []
unfolding sort_by
in_order = refl

leb_antisym : (a b : ℕ) → leb a b ≡ true → leb b a ≡ true → a ≡ b
leb_antisym a b h k = omega (arith, leb→le a b h, leb→le b a k)

abbrev measured : Press whole
measured = record over { ttfb = 3 ∷ 1 ∷ 2 ∷ []; total = 7 ∷ 5 ∷ 5 ∷ [] }

press_result-Perm_example :
    press_result whole PressProtocol.http2 3 5000000 measured
    ≡ press_result whole PressProtocol.http2 3 5000000
        (record measured { ttfb = 1 ∷ 3 ∷ 2 ∷ []; total = 5 ∷ 7 ∷ 5 ∷ [] })
press_result-Perm_example =
    press_result-Perm whole whole-IsOrder leb_antisym PressProtocol.http2 3 5000000 measured
      (1 ∷ 3 ∷ 2 ∷ []) (5 ∷ 7 ∷ 5 ∷ []) (Permᴰ.swap refl refl) (Permᴰ.swap refl refl)
