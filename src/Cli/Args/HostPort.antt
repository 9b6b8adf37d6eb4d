-- ===== src/Cli/Args/HostPort.antt =====
-- HOST:PORT is what `host_port` of src/config.rs writes.
use proxypen.Base.{ℕ, ◌≤◌, ◌≡◌, refl, List, [], ◌∷◌, ◌++◌, All, false, none, some, ◌==◌, arith, ok}
use proxypen.Base.Decimal.{decimal, decimal-IsDigit, IsDigit, parse_u16-decimal}
use proxypen.Config.{host_port}
use proxypen.Cli.Args.{rsplit_once, split_host_port}

rsplit_once-none : (s : List ℕ) → All IsDigit s → rsplit_once b':' s ≡ none
unfolding rsplit_once
rsplit_once-none [] h = refl
rsplit_once-none (x ∷ s) h =
    let other : (x == b':') ≡ false = ground (arith, h.0) in rw (rsplit_once-none s h.1, other) refl

rsplit_once-append :
    (host port : List ℕ)
    → All IsDigit port
    → rsplit_once b':' (host ++ (b':' ∷ port)) ≡ some (host, port)
unfolding rsplit_once
rsplit_once-append [] port h = rw (rsplit_once-none port h) refl
rsplit_once-append (x ∷ host) port h = rw (rsplit_once-append host port h) refl

-- Any host, also one with colons, and any port of 16 bits are read back from the text that is made of them.
pub split_host_port-host_port :
    (host : List ℕ) (port : ℕ)
    → port ≤ 65535
    → split_host_port (host_port host port) ≡ ok (host, port)
unfolding split_host_port
split_host_port-host_port host port h =
    rw (rsplit_once-append host (decimal port) (decimal-IsDigit port), parse_u16-decimal port h)
      refl
