-- ===== src/HttpServer/Listen/Alpn.antt =====
-- src/http_server.rs with the tests of src/http1.rs and src/http2.rs: which code serves which test over TLS.
use proxypen.Base.{
  ℕ, ◌≡◌, ◌≢◌, refl, ap, List, [], ◌∷◌, Bool, Option, none, some, codes, inl, inr, ok, IsOneOf,
}
use proxypen.Base.Utf8
use proxypen.Tls.{make_tls_config}
use proxypen.Http1
use proxypen.Http2
use proxypen.HttpServer.{serve_http1, serve_http2, served_by}
use proxypen.HttpServer.Listen.{TlsClient, spoke_http1, spoke_http2, tls_session, speak, tls_alpn}

-- How TLS settles the protocol: one that both sides offer, if there is one
pub record IsNegotiation (negotiate : List (List ℕ) → List (List ℕ) → Option (List ℕ))
    : Type 0 where
  pub offered :
      (server client : List (List ℕ)) (p : List ℕ)
      → negotiate server client ≡ some p
      → IsOneOf client p
  pub common :
      (server client : List (List ℕ)) (p : List ℕ)
      → IsOneOf server p
      → IsOneOf client p
      → negotiate server client ≢ none

abbrev h2_only : List (List ℕ)
h2_only = codes "h2" ∷ []

module _ (negotiate : List (List ℕ) → List (List ℕ) → Option (List ℕ))
    (is : IsNegotiation negotiate) where
  negotiate-h2 : negotiate tls_alpn h2_only ≡ some (codes "h2")
  negotiate-h2 = from (negotiate tls_alpn h2_only) refl
    where
      from : (r : Option (List ℕ)) → negotiate tls_alpn h2_only ≡ r → r ≡ some (codes "h2")
      from none e = absurd (is.common tls_alpn h2_only (codes "h2") (inl refl) (inl refl) e)
      from (some p) e = elim (is.offered tls_alpn h2_only p e) [
        | inl q ↦ ap (λ x. some x) q
        | inr f ↦ absurd f
      ]

  negotiate-none : negotiate tls_alpn [] ≡ none
  negotiate-none = from (negotiate tls_alpn []) refl
    where
      from : (r : Option (List ℕ)) → negotiate tls_alpn [] ≡ r → r ≡ none
      from none e = refl
      from (some p) e = absurd (is.offered tls_alpn [] p e)

  -- Where TLS settles a protocol that both sides offer, if there is one: a connection with the settings that the HTTP/2
  -- test hands to rustls is served by the HTTP/2 code of the TLS server, and one with those of the HTTP/1.1 test by the
  -- code for HTTP/1.
  pub tls_session-make_tls_config :
      (body : List ℕ) (insecure : Bool) (c1 c2 : TlsClient)
      → c1.accept ≡ ok (negotiate tls_alpn (make_tls_config Http1.alpn insecure).alpn_protocols)
      → c2.accept ≡ ok (negotiate tls_alpn (make_tls_config Http2.alpn insecure).alpn_protocols)
      → (tls_session body c1
          ≡ spoke_http1 (serve_http1 body c1.http1.read c1.http1.shutdown c1.http1.conn))
        × (tls_session body c2
            ≡ spoke_http2 (serve_http2 body c2.http2.handshake c2.http2.incoming))
  unfolding make_tls_config tls_session speak served_by Utf8.from_utf8_lossy
  tls_session-make_tls_config body insecure c1 c2 e1 e2 =
      (rw (e1, negotiate-none) refl, rw (e2, negotiate-h2) refl)
