-- ===== src/Cli/Commands/Exits.antt =====
-- How `run_test` of src/main.rs ends.
use proxypen.Base.{
  ℕ, ◌≡◌, refl, ap, ◌↔◌, ◌⊎◌, inl, inr, List, [], ◌∷◌, All, Bool, true, false, not, Option, none,
  some, Option-cases, arith, Bool-cases, if◌then◌else◌, Outcome, ok, err, panic, stuck, map_err,
  ok_or, Returns, Ensures, Ensures-ok, Ensures-bind, Ensures-mono, Ensures-map_err, Ensures-ok_or,
  Returns-Ensures,
}
use proxypen.Net.{SocketAddr, parse_ip}
use proxypen.Config.{ProxyConfig, TestTarget}
use proxypen.Dns.{DnsConfig}
use proxypen.Transport.{Transport, is_direct}
use proxypen.Results.{Protocol, TestStatus, success, failed, TestResult}
use proxypen.Results.Kept.{IsResult, IsResult-protocol}
use proxypen.ProxyPen
use proxypen.ProxyPen.{over_http1, over_http2, World, test_all}
use proxypen.ProxyPen.Kept.{Answers, AllResults, test_all-AllResults}
use proxypen.Http1.Timed as Timed1
use proxypen.Http2.Timed as Timed2
use proxypen.Http3.Timed as Timed3
use proxypen.Cli.Args.{message, pen, io, build, build_dns, parse_target_url}
use proxypen.Cli.Args.Ends.{
  build-Ensures, build_dns-Ensures, parse_target_url-Ensures, resolve_local-Ensures,
}
use proxypen.Cli.Resolve.{resolve}
use proxypen.Direct.Sockets
use proxypen.Socks.Associate.{associate}
use proxypen.Dns.Resolve.Ends.{IsIp, Carried, resolve_a-Returns}
use proxypen.Cli.Commands.{
  resolver, Env, ProtocolArg, http1, http2, http3, all, TestArgs, TestRun, without_error, only,
  run_tests, is_success, all_success, header_line, run_test,
}

-- The url crate, the system and its resolver, an association with the proxy, the network and the tests come back,
-- and shadowquic makes no domain of a socket address.
pub record Comes (e : Env) : Type 0 where
  pub parse_url : (s : List ℕ) → Returns (e.parse_url s)
  pub system : Sockets.Answers e.world.os
  pub associated :
      (config : ProxyConfig)
      → Returns (associate e.world.codec e.world.addrs e.world.dialer e.world.net config)
  pub ip_addr : (a : SocketAddr) → IsIp (e.world.addrs.from_socket a).addr
  pub wire : (transport : Transport) (dns : DnsConfig) → Carried (e.wire transport dns)
  pub lookup_host : (s : List ℕ) → Returns (e.world.lookup_host s)
  pub tests : (transport : Transport) (t : TestTarget) → Answers e.world transport t

abbrev pub asked : ProtocolArg → List Protocol
asked http1 = Protocol.http1 ∷ []
asked http2 = Protocol.http2 ∷ []
asked http3 = Protocol.http3 ∷ []
asked all = Protocol.http1 ∷ Protocol.http2 ∷ Protocol.http3 ∷ []

abbrev pub protocols : List TestResult → List Protocol
protocols [] = []
protocols (r ∷ rs) = r.protocol ∷ protocols rs

-- The results are those that were asked for, and the exit status says whether all of them are successes.
pub record IsTestRun (args : TestArgs) (r : TestRun) : Type 0 where
  pub results : protocols r.results ≡ asked args.protocol
  pub exit : (r.exit ≡ 0) ↔ All (λ x. x.status ≡ success) r.results
  pub exit_status : (r.exit ≡ 0) ⊎ (r.exit ≡ 1)

pub resolver-Returns :
    (e : Env) (transport : Transport) (dns : DnsConfig) (host : List ℕ)
    → Comes e
    → Returns (resolver e transport dns host)
resolver-Returns e transport dns host c =
    let w = e.world in
    resolve_a-Returns w.codec w.addrs w.dialer w.net w.os c.system c.associated c.ip_addr
      (e.wire transport dns) transport dns host (c.wire transport dns)

resolve-Ensures :
    (e : Env) (transport : Transport) (dns : Option DnsConfig) (flag : Bool) (t : TestTarget)
    → Comes e
    → Ensures (λ _. Unit {0}) (resolve (resolver e transport) e.world.lookup_host dns flag t)
unfolding resolve
resolve-Ensures e transport (some dns) flag t c = elim (Option-cases (parse_ip t.host)) [
  | inr (ip, f) ↦ rw (f, resolve) (Ensures-ok tt)
  | inl f ↦
      rw (f, resolve)
        (Ensures-bind (map_err pen (resolver e transport dns t.host)) _
          (Ensures-map_err pen _ (Returns-Ensures _ (resolver-Returns e transport dns t.host c)))
          λ ip _. Ensures-ok tt)
]
resolve-Ensures e transport none true t c =
    Ensures-map_err io _ (resolve_local-Ensures e.world.lookup_host t c.lookup_host)
resolve-Ensures e transport none false t c = Ensures-ok tt

is_success-eq : (s : TestStatus) → is_success s ≡ true → s ≡ success
is_success-eq success h = refl
is_success-eq (failed e) h = cc

all_success-All : (rs : List TestResult) → all_success rs ≡ true → All (λ x. x.status ≡ success) rs
all_success-All [] h = tt
all_success-All (r ∷ rs) h =
    (is_success-eq r.status (ground arith), all_success-All rs (ground arith))

All-all_success : (rs : List TestResult) → All (λ x. x.status ≡ success) rs → all_success rs ≡ true
All-all_success [] h = refl
All-all_success (r ∷ rs) h = rw (h.0, All-all_success rs h.1) refl

one-zero : (b : Bool) → ◌≡◌ {A = ℕ} (if b then 0 else 1) 0 → b ≡ true
one-zero true h = refl
one-zero false h = absurd (omega arith)

made-IsTestRun :
    (args : TestArgs) (header : List ℕ) (rs : List TestResult)
    → protocols rs ≡ asked args.protocol
    → IsTestRun args
        (record { header = header; results = rs; exit = (if all_success rs then 0 else 1) })
made-IsTestRun args header rs h = record {
  results = h;
  exit =
      (λ z. all_success-All rs (one-zero (all_success rs) z), λ a. rw (All-all_success rs a) refl);
  exit_status = elim (Bool-cases (all_success rs)) [
    | inl e ↦ inl (rw e refl)
    | inr e ↦ inr (rw e refl)
  ];
}

-- A call without errors gives the same as an anyhow result.
without_error-Ensures {ℓ} :
    {A : Type ℓ} {P : A → Type 0} (r : Outcome ⊥ A) → Ensures P r → Ensures P (without_error r)
without_error-Ensures (ok a) h = record { holds = h.holds }
without_error-Ensures (err e) h = absurd e
without_error-Ensures panic h = absurd h.holds
without_error-Ensures stuck h = absurd h.holds

only-Ensures :
    (p : Protocol) (socks tcp tls : Bool) (r : Outcome ⊥ TestResult)
    → Ensures (IsResult p socks tcp tls) r
    → Ensures (λ rs. protocols rs ≡ p ∷ []) (only r)
unfolding only
only-Ensures p socks tcp tls r h =
    Ensures-bind (without_error r) _ (without_error-Ensures r h)
      λ x k. Ensures-ok (ap (λ q. q ∷ []) (IsResult-protocol k))

AllResults-protocols :
    (direct tls : Bool) (rs : List TestResult) → AllResults direct tls rs → protocols rs ≡ asked all
AllResults-protocols direct tls (a ∷ b ∷ c ∷ []) h =
    rw (IsResult-protocol h.0, IsResult-protocol h.1, IsResult-protocol h.2) refl
AllResults-protocols direct tls [] h = absurd h
AllResults-protocols direct tls (a ∷ []) h = absurd h
AllResults-protocols direct tls (a ∷ b ∷ []) h = absurd h
AllResults-protocols direct tls (a ∷ b ∷ c ∷ d ∷ rest) h = absurd h

run_tests-Ensures :
    (w : World) (p : ProtocolArg) (transport : Transport) (t : TestTarget)
    → Answers w transport t
    → Ensures (λ rs. protocols rs ≡ asked p) (run_tests w p transport t)
unfolding run_tests ProxyPen.test_http1 ProxyPen.test_http2 ProxyPen.test_http3
run_tests-Ensures w http1 transport t a =
    only-Ensures Protocol.http1 (not (is_direct transport)) (is_direct transport) t.use_tls _
      (Timed1.test-IsResult (over_http1 w) transport t a.http1 w.io_text)
run_tests-Ensures w http2 transport t a =
    only-Ensures Protocol.http2 (not (is_direct transport)) (is_direct transport) true _
      (Timed2.test-IsResult (over_http2 w) transport t a.http2 w.io_text)
run_tests-Ensures w http3 transport t a =
    only-Ensures Protocol.http3 (not (is_direct transport)) false true _ (
      Timed3.test-IsResult w.codec w.addrs w.dialer w.net w.os w.lookup_host w.quic w.clock
        transport t a.http3 a.clock a.endpoint w.io_text w.late)
run_tests-Ensures w all transport t a = without_error-Ensures (test_all w transport t) (
    Ensures-mono (test_all w transport t) (AllResults-protocols (is_direct transport) t.use_tls)
      (test_all-AllResults w transport t a))

-- Whatever the arguments: where all that `Comes` names comes back, `run_test` does, with an
-- error, or with the results of the protocols that were asked for, in order, and an exit status that is 0 if all of
-- them are successes and 1 if not.
pub run_test-IsTestRun :
    (e : Env) (args : TestArgs) → Comes e → Ensures (IsTestRun args) (run_test e args)
unfolding run_test
run_test-IsTestRun e args c =
    Ensures-bind (build e.parse_url args.transport) _
      (build-Ensures e.parse_url args.transport c.parse_url)
      λ transport _.
        Ensures-bind (build_dns args.transport) _ (build_dns-Ensures args.transport) λ dns _.
          Ensures-bind (ok_or args.target (message "--target is required")) _ (Ensures-ok_or _ _)
            λ raw _.
              Ensures-bind (parse_target_url e.parse_url raw false) _
                (parse_target_url-Ensures e.parse_url raw false (c.parse_url raw))
                λ parsed _.
                  Ensures-bind
                    (resolve (resolver e transport) e.world.lookup_host dns args.resolve parsed) _
                    (resolve-Ensures e transport dns args.resolve parsed c)
                    λ t _.
                      Ensures-bind (run_tests e.world args.protocol transport t) _
                        (run_tests-Ensures e.world args.protocol transport t (c.tests transport t))
                        λ rs h. Ensures-ok (made-IsTestRun args (header_line args.transport t) rs h)
