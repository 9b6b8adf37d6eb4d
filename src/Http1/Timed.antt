-- ===== src/Http1/Timed.antt =====
-- What every result of src/http1.rs keeps to, whatever the connection answers.
use proxypen.Base.{
  ℕ, ◌+◌, ◌≤◌, List, [], ◌∷◌, ◌++◌, All, Bool, true, false, not, Option, none, some, length, arith,
  Outcome, ok, err, panic, stuck, map_err, ok_or, Returns, Ensures, Ensures-ok, Ensures-err,
  Ensures-bind, Returns-Ensures, Ensures-map_err, Ensures-ok_or, ◌>>◌, if◌then◌else◌,
}
use proxypen.Error.{IoError, unexpected_eof, broken_pipe, invalid_data, other, io, http}
use proxypen.Config.{TestTarget}
use proxypen.Tls.{ClientConfig, handshake}
use proxypen.Tls.Ends.{handshake-Ensures}
use proxypen.Transport.{Transport, is_direct}
use proxypen.Results.{Protocol, TestResult}
use proxypen.Results.Kept.{
  IsSuccess, IsResult, caught-IsResult, succeeded-IsSuccess, or_zero, is_some, sub_mono,
}
use proxypen.Http1.{
  Exchange, read_rest, status_of, parse_status_line, request_text, respond, answered, do_test, test,
  first_line, splitn, elapsed,
}
use proxypen.Base.Utf8.{from_utf8_lossy}

-- Time does not go back, and each call that the test makes comes back.
pub record Answers (x : Exchange) (transport : Transport) (t : TestTarget) : Type 0 where
  pub clock : (i : ℕ) → x.clock i ≤ x.clock (i + 1)
  pub connect : Returns (x.connect transport t)
  pub connector : (c : ClientConfig) (host : List ℕ) → Returns (x.connector.connect c host)
  pub write : Returns (x.write (request_text t))
  pub first : Returns x.first
  pub rest : All (λ r. Returns r) x.rest

read_rest-Ensures :
    (secure : Bool) (reads : List (Outcome IoError (List ℕ))) (buf : List ℕ)
    → All (λ r. Returns r) reads
    → Ensures (λ _. Unit {0}) (read_rest secure reads buf)
unfolding read_rest
read_rest-Ensures secure [] buf h = Ensures-ok tt
read_rest-Ensures secure (ok [] ∷ reads) buf h = Ensures-ok tt
read_rest-Ensures secure (ok (x ∷ xs) ∷ reads) buf h =
    read_rest-Ensures secure reads (buf ++ (x ∷ xs)) h.1
read_rest-Ensures true (err unexpected_eof ∷ reads) buf h = Ensures-ok tt
read_rest-Ensures false (err unexpected_eof ∷ reads) buf h = Ensures-err
read_rest-Ensures true (err broken_pipe ∷ reads) buf h = Ensures-err
read_rest-Ensures false (err broken_pipe ∷ reads) buf h = Ensures-err
read_rest-Ensures true (err (invalid_data s) ∷ reads) buf h = Ensures-err
read_rest-Ensures false (err (invalid_data s) ∷ reads) buf h = Ensures-err
read_rest-Ensures true (err (other s) ∷ reads) buf h = Ensures-err
read_rest-Ensures false (err (other s) ∷ reads) buf h = Ensures-err
read_rest-Ensures secure (panic ∷ reads) buf h = absurd h.0
read_rest-Ensures secure (stuck ∷ reads) buf h = absurd h.0

status_of-Ensures : (parts : List (List ℕ)) → Ensures (λ _. Unit {0}) (status_of parts)
unfolding status_of
status_of-Ensures [] = Ensures-err
status_of-Ensures (version ∷ []) = Ensures-err
status_of-Ensures (version ∷ code ∷ rest) = Ensures-ok_or _ _

pub parse_status_line-Ensures : (buf : List ℕ) → Ensures (λ _. Unit {0}) (parse_status_line buf)
unfolding parse_status_line
parse_status_line-Ensures buf =
    let line = first_line (from_utf8_lossy buf) in
    Ensures-bind (ok_or line (http "empty response")) _ (Ensures-ok_or _ _)
      λ l _. Ensures-bind (status_of (splitn 3 l)) _ (status_of-Ensures _) λ status _. Ensures-ok tt

module _ (x : Exchange) (transport : Transport) (t : TestTarget) (a : Answers x transport t) where
  abbrev Good : Bool → TestResult → Type 0
  Good secure = IsSuccess Protocol.http1 (not (is_direct transport)) (is_direct transport) secure

  answered-Good :
      (tls_handshake : Option ℕ) (i status size : ℕ)
      → elapsed x 0 1 + or_zero tls_handshake ≤ elapsed x 0 i
      → Good (is_some tls_handshake) (answered x transport tls_handshake i status size)
  answered-Good tls_handshake i status size h =
      succeeded-IsSuccess Protocol.http1 (is_direct transport) (elapsed x 0 1) tls_handshake
        (elapsed x 0 i) (elapsed x 0 (i + 1)) status size h
        (sub_mono (x.clock 0) (x.clock i) (x.clock (i + 1)) (a.clock i))

  respond-Ensures :
      (tls_handshake : Option ℕ) (i : ℕ)
      → elapsed x 0 1 + or_zero tls_handshake ≤ elapsed x 0 i
      → Ensures (Good (is_some tls_handshake)) (respond x transport t tls_handshake i)
  unfolding respond
  respond-Ensures d i h =
      Ensures-bind (map_err io (x.write (request_text t))) _
        (Ensures-map_err io _ (Returns-Ensures _ a.write))
        λ _ _.
          Ensures-bind (map_err io x.first) _ (Ensures-map_err io _ (Returns-Ensures _ a.first))
            λ start _.
              Ensures-bind (map_err io (read_rest t.use_tls x.rest start)) _
                (Ensures-map_err io _ (read_rest-Ensures t.use_tls x.rest start a.rest))
                λ buf _.
                  Ensures-bind (parse_status_line buf) _ (parse_status_line-Ensures buf)
                    λ r _. Ensures-ok (answered-Good d i (r.0) (length buf) h)

  do_test-Ensures : Ensures (Good t.use_tls) (do_test x transport t)
  unfolding do_test
  do_test-Ensures =
      Ensures-bind (x.connect transport t) _ (Returns-Ensures _ a.connect)
        λ stream _. branch t.use_tls
    where
      branch :
          (b : Bool)
          → Ensures (Good b) (
              if b
              then (do handshake x.connector none t; respond x transport t (some (elapsed x 2 3)) 4)
              else respond x transport t none 2)
      branch true =
          Ensures-bind (handshake x.connector none t) _
            (handshake-Ensures x.connector none t a.connector)
            λ _ _.
              respond-Ensures (some (elapsed x 2 3)) 4
                (omega (arith, a.clock 0, a.clock 1, a.clock 2, a.clock 3))
      branch false = respond-Ensures none 2 (omega (arith, a.clock 0, a.clock 1))

  -- `test` comes back, whatever the connection answers.
  pub test-IsResult :
      (io_text : IoError → List ℕ)
      → Ensures
          (IsResult Protocol.http1 (not (is_direct transport)) (is_direct transport) t.use_tls)
          (test io_text x transport t)
  unfolding test
  test-IsResult io_text =
      caught-IsResult io_text Protocol.http1 (not (is_direct transport)) (is_direct transport)
        t.use_tls x.late (do_test x transport t) do_test-Ensures
