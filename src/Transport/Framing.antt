-- ===== src/Transport/Framing.antt =====
-- A datagram through the proxy: src/transport.rs puts the header on and takes it off.
use proxypen.Base.{
  ℕ, zero, suc, ◌+◌, ◌-◌, ◌≤◌, ◌≡◌, refl, sym, ap, ◌∙◌, min, List, [], ◌∷◌, ◌++◌, length, take,
  arith, ok,
}
use proxypen.UdpSocket.{SocksAddr, decode_socks5_udp_header}
use proxypen.UdpSocket.RoundTrip.{
  IsSocksAddr, header_bytes, encode-IsSocksAddr, decode-encode_socks5_udp_header, payload_of,
}
use proxypen.Socks.Associate.{UdpAssociation}
use proxypen.Transport.{socks5_udp, send, recv}

module _ {A : Type 0} where
  take-append_long :
      (n : ℕ) (xs ys : List A) → length xs ≤ n → take n (xs ++ ys) ≡ xs ++ take (n - length xs) ys
  take-append_long n [] ys h = let e : n ≡ n - 0 = omega arith in ap (λ k. take k ys) e
  take-append_long zero (x ∷ xs) ys h = absurd (omega arith)
  take-append_long (suc n) (x ∷ xs) ys h =
      let e : suc n - suc (length xs) ≡ n - length xs = omega arith in
      rw e (ap (λ t. x ∷ t) (take-append_long n xs ys (omega arith)))

  take-nil : (n : ℕ) → take {A = A} n [] ≡ []
  take-nil zero = refl
  take-nil (suc n) = refl

  take-take : (m n : ℕ) (xs : List A) → take m (take n xs) ≡ take (min m n) xs
  take-take zero n xs = let e : min 0 n ≡ 0 = omega arith in rw e refl
  take-take (suc m) zero xs = let e : min (suc m) 0 ≡ 0 = omega arith in rw e refl
  take-take (suc m) (suc n) [] = sym (take-nil (min (suc m) (suc n)))
  take-take (suc m) (suc n) (x ∷ xs) =
      let e : min (suc m) (suc n) ≡ suc (min m n) = omega arith in
      rw e (ap (λ t. x ∷ t) (take-take m n xs))

  take-min : (n : ℕ) (xs : List A) → take (min (length xs) n) xs ≡ take n xs
  take-min n [] = take-nil (min 0 n) ∙ sym (take-nil n)
  take-min zero (x ∷ xs) = let e : min (suc (length xs)) 0 ≡ 0 = omega arith in rw e refl
  take-min (suc n) (x ∷ xs) =
      let e : min (suc (length xs)) (suc n) ≡ suc (min (length xs) n) = omega arith in
      rw e (ap (λ t. x ∷ t) (take-min n xs))

-- What arrives of a datagram from the proxy, with the header of any well-formed address: as many bytes of the
-- payload as the buffer takes, but no more than the temporary buffer, which is 256 bytes larger, has left
-- behind the header.
pub recv-header_bytes :
    (assoc : UdpAssociation) (target a : SocksAddr) (room : ℕ) (payload : List ℕ)
    → IsSocksAddr a
    → length (header_bytes a) ≤ room + 256
    → recv (socks5_udp assoc target) room (ok (header_bytes a ++ payload))
      ≡ ok (take (min room (room + 256 - length (header_bytes a))) payload)
unfolding recv
recv-header_bytes assoc target a room payload i l =
    let h = header_bytes a in
    let cut = take (room + 256 - length h) payload in
    let (h', e, d) = decode-encode_socks5_udp_header a cut i in
    let q : h' ≡ header_bytes a = cc (e, encode-IsSocksAddr a i) in
    let d' : decode_socks5_udp_header (h ++ cut) ≡ ok (a, length h) = rw q at d in
    rw (take-append_long (room + 256) h payload l, d', payload_of h cut)
      (ap ok (take-min room cut ∙ take-take room (room + 256 - length h) payload))

-- A payload that `send` puts on its way to a target and that comes back with the same header, of at most 256 bytes,
-- arrives: all of it if it fits the buffer, and as much as fits otherwise.
pub recv-send :
    (assoc : UdpAssociation) (target : SocksAddr) (room : ℕ) (payload : List ℕ)
    → IsSocksAddr target
    → length (header_bytes target) ≤ 256
    → (datagram : List ℕ) × (send (socks5_udp assoc target) payload ≡ ok datagram)
      × (recv (socks5_udp assoc target) room (ok datagram) ≡ ok (take room payload))
unfolding send
recv-send assoc target room payload i l = (
  header_bytes target ++ payload,
  rw (encode-IsSocksAddr target i) refl,
  recv-header_bytes assoc target target room payload i (omega arith)
      ∙ ap (λ n. ok (take n payload)) small,
)
  where
    small : min room (room + 256 - length (header_bytes target)) ≡ room
    small = omega arith
