-- ===== src/Http2/Timed.antt =====
-- What every result of src/http2.rs keeps to, and the size that it reports.
use proxypen.Base.{
  ℕ, ◌+◌, ◌%◌, ◌^◌, ◌≤◌, ◌<◌, ◌≡◌, ap, ◌∙◌, List, [], ◌∷◌, All, map, concat, true, not, some,
  length, length-append, arith, Outcome, ok, err, panic, stuck, if◌then◌else◌, Returns, Ensures,
  Ensures-ok, Ensures-err, Ensures-bind, Ensures-if, Ensures-map_err, String, Returns-Ensures,
  codes,
}
use proxypen.Error.{from_h2, IoError, http}
use proxypen.Config.{TestTarget, https_uri}
use proxypen.Tls.{ClientConfig, handshake}
use proxypen.Tls.Ends.{handshake-Ensures}
use proxypen.Transport.{Transport, is_direct}
use proxypen.Results.{Protocol}
use proxypen.Results.Kept.{IsSuccess, IsResult, caught-IsResult, succeeded-IsSuccess, sub_mono}
use proxypen.Http2.{H2, Exchange, read_body, request, do_test, test, elapsed}

-- Time does not go back, and each call that the test makes comes back.
pub record Answers (x : Exchange) (transport : Transport) (t : TestTarget) : Type 0 where
  pub clock : (i : ℕ) → x.clock i ≤ x.clock (i + 1)
  pub connect : Returns (x.connect transport t)
  pub connector : (c : ClientConfig) (host : List ℕ) → Returns (x.connector.connect c host)
  pub handshake : Returns x.h2.handshake
  pub send_request : Returns (x.h2.send_request (https_uri t))
  pub response : Returns x.h2.response
  pub body : All (λ r. Returns r) x.h2.body
  pub release_capacity : (n : ℕ) → Returns (x.h2.release_capacity n)

module _ (release : ℕ → Outcome String (Unit {0})) where
  read_body-Ensures :
      (body : List (Outcome String (List ℕ))) (n : ℕ)
      → ((k : ℕ) → Returns (release k))
      → All (λ r. Returns r) body
      → Ensures (λ _. Unit {0}) (read_body release body n)
  unfolding read_body
  read_body-Ensures [] n r h = Ensures-ok tt
  read_body-Ensures (ok chunk ∷ body) n r h =
      Ensures-bind _ _ (Ensures-map_err from_h2 _ (Returns-Ensures _ (r (length chunk))))
        λ _ _. read_body-Ensures body ((n + length chunk) % 2 ^ 64) r h.1
  read_body-Ensures (err e ∷ body) n r h = Ensures-err
  read_body-Ensures (panic ∷ body) n r h = absurd h.0
  read_body-Ensures (stuck ∷ body) n r h = absurd h.0

  -- However the body is split into chunks: where the flow control takes back the room of each chunk, the size is the
  -- number of all bytes, modulo 2^64.
  pub read_body-concat :
      (chunks : List (List ℕ)) (n : ℕ)
      → All (λ c. release (length c) ≡ ok tt) chunks
      → n < 2 ^ 64
      → read_body release (map ok chunks) n ≡ ok ((n + length (concat chunks)) % 2 ^ 64)
  unfolding read_body
  read_body-concat [] n h l = ap ok (omega arith)
  read_body-concat (c ∷ cs) n h l = rw h.0 (
      read_body-concat cs ((n + length c) % 2 ^ 64) h.1 (omega arith)
      ∙ ap ok (omega (arith, length-append {0} c (concat cs))))

request-Ensures :
    (h : H2) (t : TestTarget)
    → Returns h.handshake
    → Returns (h.send_request (https_uri t))
    → Returns h.response
    → ((n : ℕ) → Returns (h.release_capacity n))
    → All (λ r. Returns r) h.body
    → Ensures (λ _. Unit {0}) (request h t)
unfolding request
request-Ensures h t a b c d e =
    Ensures-bind _ _ (Ensures-map_err from_h2 _ (Returns-Ensures _ a)) λ _ _.
      Ensures-bind (if h.is_uri (https_uri t) then ok tt else err (http "request build: ")) _
        (Ensures-if {P = λ _. Unit {0}} (h.is_uri (https_uri t)) _ _ (λ _. Ensures-ok tt)
          (λ _. Ensures-err))
        λ _ _. Ensures-bind _ _ (Ensures-map_err from_h2 _ (Returns-Ensures _ b)) λ _ _.
          Ensures-bind _ _ (Ensures-map_err from_h2 _ (Returns-Ensures _ c)) λ status _.
            Ensures-bind (read_body h.release_capacity h.body 0) _
              (read_body-Ensures h.release_capacity h.body 0 d e) λ n _. Ensures-ok tt

module _ (x : Exchange) (transport : Transport) (t : TestTarget) (a : Answers x transport t) where
  do_test-Ensures :
      Ensures
        (IsSuccess Protocol.http2 (not (is_direct transport)) (is_direct transport) true)
        (do_test x transport t)
  unfolding do_test
  do_test-Ensures =
      Ensures-if (not t.use_tls) _ _ (λ _. Ensures-err)
        λ _. Ensures-bind (x.connect transport t) _ (Returns-Ensures _ a.connect) λ stream _.
          Ensures-bind (handshake x.connector (some (codes "h2" ∷ [])) t) _
            (handshake-Ensures x.connector (some (codes "h2" ∷ [])) t a.connector)
            λ _ _.
              Ensures-bind (request x.h2 t) _
                (request-Ensures x.h2 t a.handshake a.send_request a.response a.release_capacity
                  a.body)
                λ r _. Ensures-ok (
                  succeeded-IsSuccess Protocol.http2 (is_direct transport) (elapsed x 0 1)
                    (some (elapsed x 2 3)) (elapsed x 0 4) (elapsed x 0 5) (r.0) (r.1)
                    (omega (arith, a.clock 0, a.clock 1, a.clock 2, a.clock 3))
                    (sub_mono (x.clock 0) (x.clock 4) (x.clock 5) (a.clock 4)))

  -- `test` comes back, whatever the connection answers.
  pub test-IsResult :
      (io_text : IoError → List ℕ)
      → Ensures
          (IsResult Protocol.http2 (not (is_direct transport)) (is_direct transport) true)
          (test io_text x transport t)
  unfolding test
  test-IsResult io_text =
      caught-IsResult io_text Protocol.http2 (not (is_direct transport)) (is_direct transport) true
        x.late (do_test x transport t) do_test-Ensures
