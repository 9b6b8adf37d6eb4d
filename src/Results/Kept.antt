-- ===== src/Results/Kept.antt =====
-- What the results of all three tests keep to.
use proxypen.Base.{
  arith, ℕ, ◌-◌, ◌+◌, ◌≤◌, ◌≡◌, refl, Bool, not, true, false, Option, none, some, Outcome, ok, err,
  panic, stuck, Ensures, Ensures-ok, List,
}
use proxypen.Error.{IoError, ProxyPenError}
use proxypen.Results.{Protocol, success, TestResult, caught, succeeded, failure}

abbrev pub or_zero : Option ℕ → ℕ
or_zero none = 0
or_zero (some d) = d

abbrev pub is_some {ℓ} : {A : Type ℓ} → Option A → Bool
is_some none = false
is_some (some a) = true

pub sub_mono : (k m n : ℕ) → m ≤ n → m - k ≤ n - k
sub_mono k m n h = omega arith

-- A success of `p`, over a direct connection or not, with TLS or not: the parts that took time are there and no
-- others, they lie before the first byte, and the status and the size are there.
pub record IsSuccess (p : Protocol) (socks tcp tls : Bool) (r : TestResult) : Type 0 where
  pub protocol : r.protocol ≡ p
  pub status : r.status ≡ success
  pub socks_handshake : is_some r.timing.socks_handshake ≡ socks
  pub tcp_connect : is_some r.timing.tcp_connect ≡ tcp
  pub tls_handshake : is_some r.timing.tls_handshake ≡ tls
  pub parts :
      or_zero r.timing.socks_handshake
        + or_zero r.timing.tcp_connect
        + or_zero r.timing.tls_handshake
      ≤ r.timing.first_byte
  pub first_byte : r.timing.first_byte ≤ r.timing.total
  pub http_status : is_some r.http_status ≡ true
  pub response_size : is_some r.response_size ≡ true

pub succeeded-IsSuccess :
    (p : Protocol) (is_direct : Bool) (d : ℕ) (tls : Option ℕ) (first_byte total status size : ℕ)
    → d + or_zero tls ≤ first_byte
    → first_byte ≤ total
    → IsSuccess p
        (not is_direct)
        is_direct
        (is_some tls)
        (succeeded p is_direct d tls first_byte total status size)
succeeded-IsSuccess p true d tls first_byte total status size h k = record {
  protocol = refl;
  status = refl;
  socks_handshake = refl;
  tcp_connect = refl;
  tls_handshake = refl;
  parts = omega arith;
  first_byte = k;
  http_status = refl;
  response_size = refl;
}
succeeded-IsSuccess p false d tls first_byte total status size h k = record {
  protocol = refl;
  status = refl;
  socks_handshake = refl;
  tcp_connect = refl;
  tls_handshake = refl;
  parts = omega arith;
  first_byte = k;
  http_status = refl;
  response_size = refl;
}

-- A success, or a failure with a text and nothing else.
pub data IsResult (p : Protocol) (socks tcp tls : Bool) (r : TestResult) : Type 0 where
  succeeds : IsSuccess p socks tcp tls r → IsResult p socks tcp tls r
  fails : (e : List ℕ) → r ≡ failure p e → IsResult p socks tcp tls r

pub caught-IsResult :
    (io_text : IoError → List ℕ) (p : Protocol) (socks tcp tls late : Bool)
    (m : Outcome ProxyPenError TestResult)
    → Ensures (IsSuccess p socks tcp tls) m
    → Ensures (IsResult p socks tcp tls) (caught io_text p late m)
unfolding caught
caught-IsResult io_text p socks tcp tls true m h = Ensures-ok (fails _ refl)
caught-IsResult io_text p socks tcp tls false (ok r) h = Ensures-ok (succeeds h.holds)
caught-IsResult io_text p socks tcp tls false (err e) h = Ensures-ok (fails _ refl)
caught-IsResult io_text p socks tcp tls false panic h = absurd h.holds
caught-IsResult io_text p socks tcp tls false stuck h = absurd h.holds

-- What is known of the protocol of any result.
pub IsResult-protocol :
    {p : Protocol} {socks tcp tls : Bool} {r : TestResult}
    → IsResult p socks tcp tls r
    → r.protocol ≡ p
IsResult-protocol (succeeds s) = s.protocol
IsResult-protocol (fails e h) = rw h refl
