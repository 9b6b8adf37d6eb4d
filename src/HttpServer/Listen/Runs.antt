-- ===== src/HttpServer/Listen/Runs.antt =====
-- Connections to the TLS server of src/http_server.rs, where TLS takes the server's first protocol that the client has.
use proxypen.Base.{
  ℕ, ◌≡◌, ◌≢◌, refl, List, [], ◌∷◌, Bool, true, false, Option, none, some, ◌==◌, ◌&&◌, arith, inl,
  inr, ok, IsOneOf, Bool-cases, if◌then◌else◌,
}
use proxypen.Tls.{make_tls_config}
use proxypen.HttpServer.{Client, serve_http1, serve_http2}
use proxypen.HttpServer.Listen.{TlsClient, spoke_http1, spoke_http2, tls_session, tls_alpn}
use proxypen.Http1
use proxypen.Http2
use proxypen.HttpServer.Listen.Alpn.{IsNegotiation, tls_session-make_tls_config}

same : List ℕ → List ℕ → Bool
same [] [] = true
same (x ∷ xs) (y ∷ ys) = x == y && same xs ys
same _ _ = false

same_eq : (a b : List ℕ) → same a b ≡ true → a ≡ b
unfolding same
same_eq [] [] h = refl
same_eq [] (y ∷ ys) h = absurd (cc h)
same_eq (x ∷ xs) [] h = absurd (cc h)
same_eq (x ∷ xs) (y ∷ ys) h =
    let p : x ≡ y = ground arith in
    let q : same xs ys ≡ true = ground arith in cc (p, same_eq xs ys q)

same_refl : (a : List ℕ) → same a a ≡ true
unfolding same
same_refl [] = refl
same_refl (x ∷ xs) = ground (arith, same_refl xs)

has : List (List ℕ) → List ℕ → Bool
has [] p = false
has (q ∷ qs) p = if same p q then true else has qs p

has-IsOneOf : (qs : List (List ℕ)) (p : List ℕ) → has qs p ≡ true → IsOneOf qs p
unfolding has
has-IsOneOf [] p h = absurd (cc h)
has-IsOneOf (q ∷ qs) p h = elim (Bool-cases (same p q)) [
  | inl e ↦ inl (same_eq p q e)
  | inr e ↦ inr (has-IsOneOf qs p (rw e at h))
]

IsOneOf-has : (qs : List (List ℕ)) (p : List ℕ) → IsOneOf qs p → has qs p ≡ true
unfolding has
IsOneOf-has [] p h = absurd h
IsOneOf-has (q ∷ qs) p (inl e) = rw (← e) (rw (same_refl p) refl)
IsOneOf-has (q ∷ qs) p (inr h) = ground (arith, IsOneOf-has qs p h)

negotiate : List (List ℕ) → List (List ℕ) → Option (List ℕ)
unfolding has
negotiate [] client = none
negotiate (p ∷ server) client =
    let rest = negotiate server client in if has client p then some p else rest

offered_lem :
    (server client : List (List ℕ)) (p : List ℕ)
    → negotiate server client ≡ some p
    → IsOneOf client p
unfolding negotiate
offered_lem [] client p e = absurd (cc e)
offered_lem (q ∷ server) client p e = elim (Bool-cases (has client q)) [
  | inl h ↦ let k : q ≡ p = cc (rw h at e) in rw (← k) (has-IsOneOf client q h)
  | inr h ↦ offered_lem server client p (rw h at e)
]

common_lem :
    (server client : List (List ℕ)) (p : List ℕ)
    → IsOneOf server p
    → IsOneOf client p
    → negotiate server client ≢ none
unfolding negotiate
common_lem [] client p s c e = s
common_lem (q ∷ server) client p s c e = elim (Bool-cases (has client q)) [
  | inl h ↦ cc (rw h at e)
  | inr h ↦ elim s [
    | inl k ↦ cc (IsOneOf-has client p c, k, h)
    | inr k ↦ common_lem server client p k c (rw h at e)
  ]
]

first_common : IsNegotiation negotiate
first_common = record { offered = offered_lem; common = common_lem }

abbrev client : Client
client = record {
  conn = record { inbox = []; outbox = []; room = 1000 };
  read = ok 40;
  shutdown = ok tt;
}

abbrev connection : List (List ℕ) → TlsClient
connection alpn = record {
  accept = ok (negotiate tls_alpn alpn);
  http1 = client;
  http2 = record { handshake = ok tt; incoming = ok true ∷ [] };
}

unsettled : (insecure : Bool) → (make_tls_config none insecure).alpn_protocols ≡ []
unfolding make_tls_config
unsettled insecure = refl

tls_session-make_tls_config_example :
    (tls_session (1 ∷ []) (connection (make_tls_config Http1.alpn true).alpn_protocols)
      ≡ spoke_http1 (serve_http1 (1 ∷ []) (ok 40) (ok tt) client.conn))
    × (tls_session (1 ∷ []) (connection (make_tls_config Http2.alpn true).alpn_protocols)
        ≡ spoke_http2 (serve_http2 (1 ∷ []) (ok tt) (ok true ∷ [])))
tls_session-make_tls_config_example =
    tls_session-make_tls_config negotiate first_common (1 ∷ []) true
      (connection (make_tls_config Http1.alpn true).alpn_protocols)
      (connection (make_tls_config Http2.alpn true).alpn_protocols) refl refl
