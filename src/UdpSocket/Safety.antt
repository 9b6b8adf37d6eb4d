-- ===== src/UdpSocket/Safety.antt =====
-- No datagram makes the decoder of src/udp_socket.rs panic.
use proxypen.Base.{
  ℕ, ◌+◌, ◌-◌, ◌≤◌, ◌<◌, ◌≡◌, List, length, ltb, ◌==◌, tests, arith, Ensures, Ensures-ok,
  Ensures-err, Ensures-if, Ensures-bind, Ensures-Returns, Ensures-index, Returns, slice, slice-le,
  Option, none, some, min, length-take,
}
use proxypen.Error.{IoError}
use proxypen.UdpSocket.{decode_socks5_udp_header, decode_addr, SocksUdpSocket, RecvMeta, strip}

abbrev pub Delivered : ℕ → Option (List ℕ × RecvMeta) → Type 0
Delivered room none = Unit {0}
Delivered room (some (bytes, meta)) = (length bytes ≡ meta.len) × (meta.len ≤ room)

pub slice-Ensures :
    (buf : List ℕ) (i j : ℕ)
    → i ≤ j
    → j ≤ length buf
    → Ensures {E = IoError} (λ s. length s ≡ j - i) (slice buf i j)
slice-Ensures buf i j h k = let (e, l) = slice-le IoError buf i j h k in rw e (Ensures-ok l)

decode_addr-Ensures :
    (atyp : ℕ) (buf : List ℕ)
    → Ensures (λ r. (r.1 + 1 < length buf) × (8 ≤ r.1 + 3)) (decode_addr atyp buf)
unfolding decode_addr
decode_addr-Ensures atyp buf =
    Ensures-if (atyp == 1) _ _
      (λ _.
        Ensures-if (ltb (length buf) (4 + 4 + 2)) _ _ (λ e. Ensures-err)
          λ e.
            Ensures-bind _ _ (slice-Ensures buf 4 8 (omega arith) (omega tests))
              λ ip _. Ensures-ok (omega tests))
      λ _.
        Ensures-if (atyp == 4) _ _
          (λ _.
            Ensures-if (ltb (length buf) (4 + 16 + 2)) _ _ (λ e. Ensures-err)
              λ e.
                Ensures-bind _ _ (slice-Ensures buf 4 20 (omega arith) (omega tests))
                  λ ip _. Ensures-ok (omega tests))
          λ _.
            Ensures-if (atyp == 3) _ _
              (λ _.
                Ensures-if (ltb (length buf) 5) _ _ (λ e. Ensures-err)
                  λ e. Ensures-bind _ _ (Ensures-index IoError buf 4 (omega tests)) λ n _.
                    Ensures-if (ltb (length buf) (5 + n + 2)) _ _ (λ f. Ensures-err)
                      λ f.
                        Ensures-bind _ _ (slice-Ensures buf 5 (5 + n) (omega arith) (omega tests))
                          λ c _. Ensures-ok (omega tests))
              λ _. Ensures-err

pub decode-Ensures : (buf : List ℕ) → Ensures (λ r. r.1 ≤ length buf) (decode_socks5_udp_header buf)
unfolding decode_socks5_udp_header
decode-Ensures buf =
    Ensures-if (ltb (length buf) 4) _ _ (λ e. Ensures-err)
      λ e. Ensures-bind _ _ (Ensures-index IoError buf 2 (omega tests)) λ frag _.
        Ensures-if (ltb 0 frag) _ _ (λ f. Ensures-err)
          λ f. Ensures-bind _ _ (Ensures-index IoError buf 3 (omega tests)) λ atyp _.
            Ensures-bind _ _ (decode_addr-Ensures atyp buf) λ r h.
              Ensures-bind _ _ (Ensures-index IoError buf (r.1) (omega arith)) λ hi _.
                Ensures-bind _ _ (Ensures-index IoError buf (r.1 + 1) (omega arith))
                  λ lo _. Ensures-ok (omega arith)

-- Whatever datagram comes, the decoder returns an address and a header length, or an error.
pub decode_socks5_udp_header-Returns : (buf : List ℕ) → Returns (decode_socks5_udp_header buf)
decode_socks5_udp_header-Returns buf = Ensures-Returns _ (decode-Ensures buf)

-- Whatever datagram comes, stripping its header into a buffer of any size comes back; a payload that it hands over
-- fits the buffer, and has the length that the metadata says.
pub strip-Ensures :
    (s : SocksUdpSocket) (room : ℕ) (filled : List ℕ)
    → Ensures (λ o. Delivered room o) (strip s room filled)
unfolding strip
strip-Ensures s room filled =
    Ensures-if (length filled == 0) _ _ (λ _. Ensures-ok tt)
      λ _. Ensures-bind _ _ (decode-Ensures filled) λ r h.
        Ensures-bind _ _ (slice-Ensures filled (r.1) (length filled) h (omega arith)) λ payload l.
          Ensures-if (length payload == 0) _ _ (λ _. Ensures-ok tt)
            λ e. Ensures-ok (omega (arith, length-take {0} (min (length payload) room) payload))
