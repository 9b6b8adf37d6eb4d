-- ===== src/Cli/Press.antt =====
-- src/main.rs: `run_press`. The press run itself is an argument.
use proxypen.Base.{ℕ, ◌*◌, List, Bool, ◌&&◌, ltb, ◌==◌, if◌then◌else◌, Outcome, ok, ◌>>=◌}
use proxypen.Config.{TestTarget}
use proxypen.Transport.{Transport}
use proxypen.Press.{PressProtocol, Milliseconds, PressResult}
use proxypen.Cli.Args.{CliError, TransportArgs, build, build_dns, parse_target_url}
use proxypen.Cli.Resolve.{resolve}
use proxypen.Cli.Commands.{Env, resolver, without_error}

pub data PressProtocolArg : Type 0 where
  press_http1 press_http2 press_http3 : PressProtocolArg

-- `From<PressProtocolArg>`
unfoldable pub press_protocol : PressProtocolArg → PressProtocol
press_protocol press_http1 = PressProtocol.http1
press_protocol press_http2 = PressProtocol.http2
press_protocol press_http3 = PressProtocol.http3

pub record PressArgs : Type 0 where
  pub transport : TransportArgs
  pub target : List ℕ
  pub protocol : PressProtocolArg
  pub concurrency : ℕ
  pub num_requests : ℕ
  -- In seconds
  pub timeout : ℕ
  pub insecure : Bool
  pub resolve : Bool

-- `PressOptions` of src/press.rs, the timeout in nanoseconds
pub record PressOptions : Type 0 where
  pub transport : Transport
  pub target : TestTarget
  pub protocol : PressProtocol
  pub concurrency : ℕ
  pub num_requests : ℕ
  pub timeout : ℕ

module _ (M : Milliseconds) where
  unfoldable pub press_exit : PressResult M → ℕ
  press_exit r = if ltb 0 r.error_count && r.success_count == 0 then 1 else 0

  -- The result of the run, which is printed, and the exit status
  unfoldable pub run_press :
      Env
      → (PressOptions → Outcome ⊥ (PressResult M))
      → PressArgs
      → Outcome CliError (PressResult M × ℕ)
  run_press e press args = do
    transport ← build e.parse_url args.transport
    dns_cfg ← build_dns args.transport
    parsed ← parse_target_url e.parse_url args.target args.insecure
    target ← resolve (resolver e transport) e.world.lookup_host dns_cfg args.resolve parsed
    result ← without_error (
        press (record {
          transport = transport;
          target = target;
          protocol = press_protocol args.protocol;
          concurrency = args.concurrency;
          num_requests = args.num_requests;
          timeout = args.timeout * 1000000000;
        }))
    ok (result, press_exit result)
