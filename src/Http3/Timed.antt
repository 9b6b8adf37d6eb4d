-- ===== src/Http3/Timed.antt =====
-- What every result of src/http3.rs keeps to.
use proxypen.Base.{
  ℕ, ◌+◌, ◌%◌, ◌^◌, ◌≤◌, refl, List, [], ◌∷◌, All, Bool, true, false, not, length, arith, Outcome,
  ok, err, panic, stuck, if◌then◌else◌, Returns, Ensures, Ensures-ok, Ensures-err, Ensures-bind,
  Any, Ensures-if, Ensures-map_err, map_err, String, Returns-Ensures,
}
use proxypen.Error.{IoError, http, ProxyPenError}
use proxypen.Net.{SocketAddr}
use proxypen.Config.{TestTarget, SocksAddrs, https_uri}
use proxypen.Direct.{System}
use proxypen.Socks.Handshake.{Codec}
use proxypen.Socks.Connector.{Dialer}
use proxypen.Socks.Associate.{Network}
use proxypen.Tls.{ClientConfig}
use proxypen.Transport.{Transport, is_direct}
use proxypen.Results.{Protocol}
use proxypen.Results.Kept.{IsSuccess, IsResult, caught-IsResult, sub_mono}
use proxypen.Http3.{
  Quic, read_body, request, race, make_quic_client_config, build_endpoint, answered, do_test, test,
}

-- Each call to quinn and h3 comes back.
pub record Answers (c : Quic) (t : TestTarget) : Type 0 where
  pub connect_with : (cfg : ClientConfig) (a : SocketAddr) → Returns (c.connect_with cfg a t.host)
  pub connecting : Returns c.connecting
  pub handshake : Returns c.handshake
  pub send_request : Returns (c.send_request (https_uri t))
  pub finish : Returns c.finish
  pub recv_response : Returns c.recv_response
  pub body : All (λ r. Returns r) c.body

-- The answer of a call, its error turned into one of the library
answer :
    {A : Type 0} (f : String → ProxyPenError) (r : Outcome String A)
    → Returns r
    → Ensures Any (map_err f r)
answer f r h = Ensures-map_err f r (Returns-Ensures r h)

read_body-Ensures :
    (body : List (Outcome String (List ℕ))) (n : ℕ)
    → All (λ r. Returns r) body
    → Ensures (λ _. Unit {0}) (read_body body n)
unfolding read_body
read_body-Ensures [] n h = Ensures-ok tt
read_body-Ensures (ok chunk ∷ body) n h = read_body-Ensures body ((n + length chunk) % 2 ^ 64) h.1
read_body-Ensures (err e ∷ body) n h = Ensures-err
read_body-Ensures (panic ∷ body) n h = absurd h.0
read_body-Ensures (stuck ∷ body) n h = absurd h.0

race-Ensures : (c : Quic) (t : TestTarget) → Answers c t → Ensures (λ _. Unit {0}) (race c t)
unfolding race request
race-Ensures c t a =
    Ensures-if c.driver_first _ _ (λ _. Ensures-err)
      λ _. Ensures-bind _ _ (answer _ _ a.send_request) λ _ _.
        Ensures-bind _ _ (answer _ _ a.finish) λ _ _.
          Ensures-bind _ _ (answer _ _ a.recv_response) λ status _.
            Ensures-bind (read_body c.body 0) _ (read_body-Ensures c.body 0 a.body)
              λ n _. Ensures-ok tt

make_quic_client_config-Ensures :
    (c : Quic) (insecure : Bool) → Ensures (λ _. Unit {0}) (make_quic_client_config c insecure)
unfolding make_quic_client_config
make_quic_client_config-Ensures c insecure =
    Ensures-if (c.is_config _) _ _ (λ _. Ensures-ok tt) (λ _. Ensures-err)

answered-IsSuccess :
    (clock : ℕ → ℕ)
    → ((i : ℕ) → clock i ≤ clock (i + 1))
    → (is_direct : Bool) (r : ℕ × ℕ)
    → IsSuccess Protocol.http3 (not is_direct) false true (answered clock is_direct r)
answered-IsSuccess clock h true r = record {
  protocol = refl;
  status = refl;
  socks_handshake = refl;
  tcp_connect = refl;
  tls_handshake = refl;
  parts = omega (arith, h 0, h 1, h 2);
  first_byte = sub_mono (clock 0) (clock 3) (clock 4) (h 3);
  http_status = refl;
  response_size = refl;
}
answered-IsSuccess clock h false r = record {
  protocol = refl;
  status = refl;
  socks_handshake = refl;
  tcp_connect = refl;
  tls_handshake = refl;
  parts = omega (arith, h 0, h 1, h 2, h 3);
  first_byte = sub_mono (clock 0) (clock 4) (clock 5) (h 4);
  http_status = refl;
  response_size = refl;
}

module _ (q : Codec) (addrs : SocksAddrs) (dialer : Dialer) (net : Network) (os : System)
    (lookup_host : List ℕ → Outcome IoError (List SocketAddr)) (c : Quic) (clock : ℕ → ℕ)
    (transport : Transport) (t : TestTarget) (a : Answers c t)
    (forward : (i : ℕ) → clock i ≤ clock (i + 1))
    (built : Returns (build_endpoint q addrs dialer net os lookup_host c transport t)) where
  do_test-Ensures :
      Ensures
        (IsSuccess Protocol.http3 (not (is_direct transport)) false true)
        (do_test q addrs dialer net os lookup_host c clock transport t)
  unfolding do_test
  do_test-Ensures =
      Ensures-bind (build_endpoint q addrs dialer net os lookup_host c transport t) _
        (Returns-Ensures _ built)
        λ e _.
          Ensures-bind (make_quic_client_config c t.danger_accept_invalid_certs) _
            (make_quic_client_config-Ensures c t.danger_accept_invalid_certs)
            λ cfg _. Ensures-bind _ _ (answer _ _ (a.connect_with cfg (e.1))) λ _ _.
              Ensures-bind _ _ (answer _ _ a.connecting) λ _ _.
                Ensures-bind _ _ (answer _ _ a.handshake) λ _ _.
                  Ensures-bind
                    (if c.is_uri (https_uri t) then ok tt else err (http "request build: ")) _
                    (Ensures-if {P = λ _. Unit {0}} (c.is_uri (https_uri t)) _ _
                      (λ _. Ensures-ok tt) (λ _. Ensures-err))
                    λ _ _.
                      Ensures-bind (race c t) _ (race-Ensures c t a)
                        λ r _. Ensures-ok (answered-IsSuccess clock forward (is_direct transport) r)

  -- `test` comes back, whatever the connection answers.
  pub test-IsResult :
      (io_text : IoError → List ℕ) (late : Bool)
      → Ensures
          (IsResult Protocol.http3 (not (is_direct transport)) false true)
          (test q addrs dialer net os lookup_host c io_text clock late transport t)
  unfolding test
  test-IsResult io_text late =
      caught-IsResult io_text Protocol.http3 (not (is_direct transport)) false true late
        (do_test q addrs dialer net os lookup_host c clock transport t) do_test-Ensures
