-- ===== src/Socks/Handshake/Order.antt =====
-- In which order src/socks/handshake.rs speaks: no password before the server has chosen it.
use proxypen.Base.{
  ℕ, List, ◌≡◌, refl, sym, ap, inl, inr, Option, Bool-cases, Outcome, ok, err, panic, stuck, arith,
  leb, length,
}
use proxypen.Error.{IoError, ProxyPenError, socks}
use proxypen.UdpSocket.{SocksAddr}
use proxypen.Config.{ProxyAuth, TestTarget, SocksAddrs, to_socks_addr, ProxyConfig}
use proxypen.Stream.{Reader}
use proxypen.Stream.Conn.{Conn, Exec, next, ◌>>=◌, ◌>>◌, lift, received, recv, write_all}
use proxypen.Socks.Handshake.{
  Codec, AuthReply, CmdReply, codec_error, method, auth_req, cmd_req, check_method, check_reply,
  log_in, authenticate, send_connect,
}
use proxypen.Socks.Connector.{tunnel}

-- Inversion of a step that succeeded.
next-eq-ok :
    {E : Type 0} {A B : Type 0} (f : A → Exec E B) (r : Outcome E A × Conn) (b : B) (c' : Conn)
    → next f r ≡ (ok b, c')
    → (a : A) × (c : Conn) × (r ≡ (ok a, c)) × (f a c ≡ (ok b, c'))
next-eq-ok f (ok a, c) b c' h = (a, c, refl, h)
next-eq-ok f (err e, c) b c' h = absurd (cc (ap (λ p. p.0) h))
next-eq-ok f (panic, c) b c' h = absurd (cc (ap (λ p. p.0) h))
next-eq-ok f (stuck, c) b c' h = absurd (cc (ap (λ p. p.0) h))

bind-eq-ok :
    {E : Type 0} {A B : Type 0} (m : Exec E A) (f : A → Exec E B) (c : Conn) (b : B) (c' : Conn)
    → (m >>= f) c ≡ (ok b, c')
    → (a : A) × (c1 : Conn) × (m c ≡ (ok a, c1)) × (f a c1 ≡ (ok b, c'))
bind-eq-ok m f c b c' h = next-eq-ok f (m c) b c' h

write_all-inbox :
    {E : Type 0} (f : IoError → E) (bs : List ℕ) (c c' : Conn)
    → write_all f bs c ≡ (ok tt, c')
    → c'.inbox ≡ c.inbox
unfolding write_all
write_all-inbox f bs c c' h = elim (Bool-cases (leb (length bs) c.room)) [
  | inl e ↦ sym (ap (λ p. p.1.inbox) (rw e at h))
  | inr e ↦ absurd (cc (ap (λ p. p.0) (rw e at h)))
]

received-eq-ok :
    {E A : Type 0} (f : IoError → E) (c c' : Conn) (a : A) (r : Outcome IoError (A × List ℕ))
    → received f c r ≡ (ok a, c')
    → r ≡ ok (a, c'.inbox)
received-eq-ok {E = E} f c c' a (ok (b, rest)) h =
    let e : ok_of E b ≡ ok a = ap (λ p. p.0) h in
    let e' : b ≡ a = cc e in rw (e', sym (ap (λ p. p.1.inbox) h)) refl
  where
    ok_of : {A : Type 0} → (E : Type 0) → A → Outcome E A
    ok_of E b = ok b
received-eq-ok f c c' a (err e) h = absurd (cc (ap (λ p. p.0) h))
received-eq-ok f c c' a panic h = absurd (cc (ap (λ p. p.0) h))
received-eq-ok f c c' a stuck h = absurd (cc (ap (λ p. p.0) h))

recv-eq-ok :
    {E A : Type 0} (f : IoError → E) (m : Reader A) (c c' : Conn) (a : A)
    → recv f m c ≡ (ok a, c')
    → m c.inbox ≡ ok (a, c'.inbox)
unfolding recv
recv-eq-ok f m c c' a h = received-eq-ok f c c' a (m c.inbox) h

module _ (q : Codec) where
  check_method-ok :
      (auth : Option ProxyAuth) (rep : AuthReply)
      → check_method q auth rep ≡ ok tt
      → (rep.version ≡ q.socks5_version) × (rep.method ≡ method q auth)
  unfolding check_method
  check_method-ok auth rep h = ground arith

  -- The password is sent only after the server has chosen it: if the method offer was written, and no reply can be read
  -- or the one read has not both the version of SOCKS5 and the method that was offered, the connection is left as
  -- it is behind that read, and the log-in does not take place.
  pub authenticate-refused :
      (auth : Option ProxyAuth) (c c1 c2 : Conn) (r : Outcome ProxyPenError AuthReply)
      → write_all codec_error (q.encode_auth (auth_req q auth)) c ≡ (ok tt, c1)
      → recv codec_error q.decode_auth c1 ≡ (r, c2)
      → ((rep : AuthReply)
          → r ≡ ok rep
          → (rep.version ≡ q.socks5_version) × (rep.method ≡ method q auth)
          → ⊥)
      → (authenticate q auth c).1 ≡ c2
  unfolding authenticate
  authenticate-refused auth c c1 c2 (ok rep) h k n =
      rw (h, k) (after (check_method q auth rep) (λ k. n rep refl (check_method-ok auth rep k)))
    where
      after :
          (m : Outcome ProxyPenError (Unit {0}))
          → (m ≡ ok tt → ⊥)
          → (next (λ _. log_in q auth) (m, c2)).1 ≡ c2
      after (ok tt) n = absurd (n refl)
      after (err e) n = refl
      after panic n = refl
      after stuck n = refl
  authenticate-refused auth c c1 c2 (err e) h k n = rw (h, k) refl
  authenticate-refused auth c c1 c2 panic h k n = rw (h, k) refl
  authenticate-refused auth c c1 c2 stuck h k n = rw (h, k) refl

  -- What a tunnel that was set up rests on: the replies, and the bytes in which they stood.
  pub record SetUp (auth : Option ProxyAuth) (c : Conn) (answer : CmdReply) : Type 0 where
    pub reply : AuthReply
    pub rest : List ℕ
    pub read : q.decode_auth c.inbox ≡ ok (reply, rest)
    pub version : reply.version ≡ q.socks5_version
    pub chosen : reply.method ≡ method q auth
    pub granted : answer.rep ≡ q.reply_succeeded

  authenticate-eq-ok :
      (auth : Option ProxyAuth) (c c' : Conn)
      → authenticate q auth c ≡ (ok tt, c')
      → (rep : AuthReply) × (rest : List ℕ) × (q.decode_auth c.inbox ≡ ok (rep, rest))
        × (rep.version ≡ q.socks5_version)
        × (rep.method ≡ method q auth)
  unfolding authenticate
  authenticate-eq-ok auth c c' h =
      let (u, c1, e1, h1) =
        bind-eq-ok (write_all codec_error (q.encode_auth (auth_req q auth)))
          (λ _. recv codec_error q.decode_auth >>= λ rep.
            lift (check_method q auth rep) >> log_in q auth)
          c tt c' h in
      let (rep, c2, e2, h2) =
        bind-eq-ok (recv codec_error q.decode_auth)
          (λ rep. lift (check_method q auth rep) >> log_in q auth) c1 tt c' h1 in
      let (v, c3, e3, h3) =
        bind-eq-ok (lift (check_method q auth rep)) (λ _. log_in q auth) c2 tt c' h2 in
      let inbox = write_all-inbox codec_error (q.encode_auth (auth_req q auth)) c c1 e1 in
      let read = recv-eq-ok codec_error q.decode_auth c1 c2 rep e2 in
      let (p, r) = check_method-ok auth rep (ap (λ p. p.0) e3) in
      (rep, c2.inbox, rw inbox at read, p, r)

  check_reply-ok :
      (refusal : ProxyPenError) (rep reply : CmdReply)
      → check_reply q refusal rep ≡ ok reply
      → reply.rep ≡ q.reply_succeeded
  unfolding check_reply
  check_reply-ok refusal rep reply h = ground arith

  send_connect-eq-ok :
      (addr : SocksAddr) (c c' : Conn) (reply : CmdReply)
      → send_connect q addr c ≡ (ok reply, c')
      → reply.rep ≡ q.reply_succeeded
  unfolding send_connect
  send_connect-eq-ok addr c c' reply h =
      let refusal = socks "CONNECT failed with reply code" in
      let (u, c1, e1, h1) =
        bind-eq-ok (write_all codec_error (q.encode_cmd (cmd_req q q.cmd_tcp_connect addr)))
          (λ _. recv codec_error q.decode_cmd >>= λ rep. lift (check_reply q refusal rep)) c reply
          c' h in
      let (rep, c2, e2, h2) =
        bind-eq-ok (recv codec_error q.decode_cmd) (λ rep. lift (check_reply q refusal rep)) c1
          reply c' h1 in
      check_reply-ok refusal rep reply (ap (λ p. p.0) h2)

  -- A tunnel is set up only if the server agreed: from the bytes that came first a reply was read with version 5 and
  -- the method that was offered, and the answer to CONNECT says that it succeeded.
  pub tunnel-SetUp :
      (addrs : SocksAddrs) (config : ProxyConfig) (target : TestTarget) (c c' : Conn)
      (answer : CmdReply)
      → tunnel q addrs config target c ≡ (ok answer, c')
      → SetUp config.auth c answer
  unfolding tunnel
  tunnel-SetUp addrs config target c c' answer h =
      let (u, c1, e1, h1) =
        bind-eq-ok (authenticate q config.auth) (λ _. send_connect q (to_socks_addr addrs target)) c
          answer c' h in
      let (rep, rest, read, version, chosen) = authenticate-eq-ok config.auth c c1 e1 in
      record {
        reply = rep;
        rest = rest;
        read = read;
        version = version;
        chosen = chosen;
        granted = send_connect-eq-ok (to_socks_addr addrs target) c1 c' answer h1;
      }
