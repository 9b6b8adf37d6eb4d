-- ===== src/Cli/Main/Status.antt =====
-- The exit status of the tests.
use proxypen.Base.{
  ◌≡◌, refl, ◌⊎◌, inl, inr, ◌↔◌, All, none, some, arith, Outcome, ok, err, panic, stuck, Ensures,
}
use proxypen.Results.{success}
use proxypen.Press.{Milliseconds}
use proxypen.Bench.Client.Bandwidth.{Decimals}
use proxypen.Cli.Args.{CliError}
use proxypen.Cli.Commands.{Env, TestArgs, TestRun, run_test}
use proxypen.Cli.Commands.Exits.{Comes, asked, protocols, IsTestRun, run_test-IsTestRun}
use proxypen.Cli.Benchmark.{BenchWorld}
use proxypen.Cli.Main.{Cli, test, Runners, exit_status, main}

-- The tests ran, gave the results that were asked for, and all of them are successes.
abbrev pub Passes : Env → TestArgs → Type 0
Passes e args =
    (run : TestRun) × (run_test e args ≡ ok run)
    × (protocols run.results ≡ asked args.protocol)
    × All (λ x. x.status ≡ success) run.results

exit_status-zero :
    (args : TestArgs) (r : Outcome CliError TestRun)
    → Ensures (IsTestRun args) r
    → ((exit_status (λ run. run.exit) r ≡ 0) ↔ (
        (run : TestRun) × (r ≡ ok run)
        × (protocols run.results ≡ asked args.protocol)
        × All (λ x. x.status ≡ success) run.results))
      × ((exit_status (λ run. run.exit) r ≡ 0) ⊎ (exit_status (λ run. run.exit) r ≡ 1))
unfolding exit_status
exit_status-zero args (ok run) h = (
  (
    λ z. (run, refl, h.holds.results, h.holds.exit.0 z),
    λ (run', e, p, a). let q : run' ≡ run = cc e in h.holds.exit.1 (rw q at a),
  ),
  h.holds.exit_status,
)
exit_status-zero args (err e) h = ((λ z. absurd (omega arith), λ (run, q, p, a). cc), inr refl)
exit_status-zero args panic h = absurd h.holds
exit_status-zero args stuck h = absurd h.holds

-- The command line asks for the tests of `args`: by the flat flags, or by the command.
abbrev pub AsksFor : Cli → TestArgs → Type 0
AsksFor cli args =
    ((cli.command ≡ none) × (cli.test_args ≡ args)) ⊎ (cli.command ≡ some (test args))

main-test :
    (M : Milliseconds) (D : Decimals) (e : Env) (b : BenchWorld) (r : Runners M) (cli : Cli)
    (args : TestArgs)
    → AsksFor cli args
    → main M D e b r cli ≡ exit_status (λ run. run.exit) (run_test e args)
unfolding main
main-test M D e b r cli args (inl (none_given, flat)) = rw (none_given, flat, main) refl
main-test M D e b r cli args (inr given) = rw (given, main) refl

-- Where the url crate, the system and its resolver, the association with the proxy, the network and the connections
-- come back, and shadowquic makes no domain of a socket address, the program exits with 0 or 1, and with 0 exactly
-- when the tests ran, gave the results of the protocols that were asked for, and all of them are successes.
pub main-Passes :
    (M : Milliseconds) (D : Decimals) (e : Env) (b : BenchWorld) (r : Runners M) (cli : Cli)
    (args : TestArgs)
    → Comes e
    → AsksFor cli args
    → ((main M D e b r cli ≡ 0) ↔ Passes e args)
      × ((main M D e b r cli ≡ 0) ⊎ (main M D e b r cli ≡ 1))
main-Passes M D e b r cli args c asks =
    rw (main-test M D e b r cli args asks)
      (exit_status-zero args (run_test e args) (run_test-IsTestRun e args c))
