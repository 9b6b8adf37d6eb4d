-- ===== src/Http1.antt =====
-- src/http1.rs: the request, the response and its status line, and the test. The connection, TLS and the clock's
-- readings are arguments. A `str` is the list of its bytes.
pub mod Responses
pub mod Timed
mod Runs
use proxypen.Base.{
  ℕ, zero, suc, ◌+◌, ◌-◌, ◌*◌, ◌≤◌, List, [], ◌∷◌, ◌++◌, Bool, true, false, Option, none, some,
  ◌&&◌, ◌||◌, not, length, leb, ltb, ◌==◌, if◌then◌else◌, Outcome, ok, err, panic, stuck, ◌>>=◌,
  ◌>>◌, map_err, ok_or, codes,
}
use proxypen.Base.Decimal.{parse_u16}
use proxypen.Base.Utf8.{from_utf8_lossy}
use proxypen.Error.{IoError, unexpected_eof, ProxyPenError, io, http, timeout}
use proxypen.Config.{TestTarget, authority}
use proxypen.Results.{Protocol, TestResult, succeeded, caught}
use proxypen.Tls.{Connector, handshake}
use proxypen.Transport.{Transport, Stream, is_direct}

-- `lines().next()`: the text before the first line feed, less a carriage return at its end.
strip_cr : List ℕ → List ℕ
strip_cr [] = []
strip_cr (x ∷ []) = if x == 13 then [] else x ∷ []
strip_cr (x ∷ y ∷ s) = x ∷ strip_cr (y ∷ s)

up_to_lf : List ℕ → List ℕ
up_to_lf [] = []
up_to_lf (x ∷ s) = if x == 10 then [] else x ∷ up_to_lf s

has_lf : List ℕ → Bool
has_lf [] = false
has_lf (x ∷ s) = x == 10 || has_lf s

unfoldable pub first_line : List ℕ → Option (List ℕ)
unfolding strip_cr up_to_lf has_lf
first_line [] = none
first_line (x ∷ s) = some (if has_lf (x ∷ s) then strip_cr (up_to_lf (x ∷ s)) else x ∷ s)

abbrev add_char : ℕ → List (List ℕ) → List (List ℕ)
add_char x [] = []
add_char x (part ∷ parts) = (x ∷ part) ∷ parts

-- `splitn(n, ' ')`
unfoldable pub splitn : ℕ → List ℕ → List (List ℕ)
splitn zero s = []
splitn (suc zero) s = s ∷ []
splitn (suc (suc n)) [] = [] ∷ []
splitn (suc (suc n)) (x ∷ s) =
    let later = splitn (suc n) s in
    let same = splitn (suc (suc n)) s in if x == b' ' then [] ∷ later else add_char x same

starts_blank : List ℕ → Bool
starts_blank (a ∷ b ∷ c ∷ d ∷ s) = a == 13 && b == 10 && c == 13 && d == 10
starts_blank _ = false

-- `find("\r\n\r\n")`
unfoldable pub find_blank : List ℕ → Option ℕ
unfolding starts_blank
find_blank [] = none
find_blank (x ∷ s) =
    let later = find_blank s in
    if starts_blank (x ∷ s) then some 0 else elim later [ none ↦ none | some i ↦ some (suc i) ]

status_of : List (List ℕ) → Outcome ProxyPenError ℕ
status_of (version ∷ code ∷ rest) = ok_or (parse_u16 code) (http "invalid status code")
status_of _ = err (http "malformed status line")

unfoldable pub parse_status_line : List ℕ → Outcome ProxyPenError (ℕ × ℕ)
unfolding status_of
parse_status_line buf = do
  let response = from_utf8_lossy buf
  line ← ok_or (first_line response) (http "empty response")
  status ← status_of (splitn 3 line)
  let header_end : ℕ = elim (find_blank response) [ none ↦ length buf | some i ↦ i + 4 ]
  ok (status, header_end)

unfoldable pub request_text : TestTarget → List ℕ
request_text t =
    codes "GET "
    ++ ((if length t.path == 0 then codes "/" else t.path)
        ++ (codes " HTTP/1.1\r\nHost: "
            ++ (authority t ++ codes "\r\nConnection: close\r\nUser-Agent: proxypen/0.1\r\n\r\n")))

-- The reads behind the first: `tls` forgives an end without a TLS close.
unfoldable pub read_rest :
    Bool → List (Outcome IoError (List ℕ)) → List ℕ → Outcome IoError (List ℕ)
read_rest tls [] buf = ok buf
read_rest tls (ok [] ∷ reads) buf = ok buf
read_rest tls (ok (x ∷ xs) ∷ reads) buf = read_rest tls reads (buf ++ (x ∷ xs))
read_rest true (err unexpected_eof ∷ reads) buf = ok buf
read_rest false (err unexpected_eof ∷ reads) buf = err unexpected_eof
read_rest tls (err e ∷ reads) buf = err e
read_rest tls (panic ∷ reads) buf = panic
read_rest tls (stuck ∷ reads) buf = stuck

-- What a test asks of its connection, and the readings of the clock in the order in which they are taken.
pub record Exchange : Type 0 where
  pub clock : ℕ → ℕ
  -- `Transport.connect_tcp` with its environment
  pub connect : Transport → TestTarget → Outcome ProxyPenError Stream
  pub connector : Connector
  pub write : List ℕ → Outcome IoError (Unit {0})
  pub first : Outcome IoError (List ℕ)
  pub rest : List (Outcome IoError (List ℕ))
  -- The deadline of `tokio::time::timeout` came first.
  pub late : Bool

-- `start.elapsed()` between two readings
abbrev pub elapsed : Exchange → ℕ → ℕ → ℕ
elapsed x i j = x.clock j - x.clock i

-- What the test offers of ALPN: nothing
abbrev pub alpn : Option (List (List ℕ))
alpn = none

-- The result from the first reading behind the handshake on, `i`
abbrev pub answered : Exchange → Transport → Option ℕ → ℕ → ℕ → ℕ → TestResult
answered x transport tls_handshake i =
    succeeded Protocol.http1 (is_direct transport) (elapsed x 0 1) tls_handshake (elapsed x 0 i)
      (elapsed x 0 (i + 1))

-- The request on the stream, and the response
unfoldable pub respond :
    Exchange → Transport → TestTarget → Option ℕ → ℕ → Outcome ProxyPenError TestResult
respond x transport t tls_handshake i = do
  map_err io (x.write (request_text t))
  start ← map_err io x.first
  buf ← map_err io (read_rest t.use_tls x.rest start)
  (status, header_end) ← parse_status_line buf
  ok (answered x transport tls_handshake i status (length buf))

unfoldable pub do_test : Exchange → Transport → TestTarget → Outcome ProxyPenError TestResult
do_test x transport t = do
  stream ← x.connect transport t
  if t.use_tls
      then (do handshake x.connector alpn t; respond x transport t (some (elapsed x 2 3)) 4)
      else respond x transport t none 2

unfoldable pub test : (IoError → List ℕ) → Exchange → Transport → TestTarget → Outcome ⊥ TestResult
unfolding do_test
test io_text x transport t = caught io_text Protocol.http1 x.late (do_test x transport t)
