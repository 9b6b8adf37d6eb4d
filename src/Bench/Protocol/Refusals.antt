-- ===== src/Bench/Protocol/Refusals.antt =====
-- What the readers of src/bench/protocol.rs refuse, and what they accept.
use proxypen.Base.{
  Any, Ensures, ◌==◌, Ensures-ok, Ensures-err, ℕ, ◌≤◌, ◌<◌, ◌≡◌, ◌⊎◌, ◌↔◌, inl, inr, refl, List, [],
  ◌∷◌, ◌++◌, true, false, none, some, length, take, drop, ltb, ok, arith, Bool-cases, slice-le,
  ltb→le, ltb→lt, le→ltb, ap, ◌∙◌,
}
use proxypen.Base.Bytes.{from_be, be_bytes}
use proxypen.Stream.{
  read_exact, read_uint, read_exact-eq-ok, continue, continue-eq-ok, read_uint-eq-ok,
}
use proxypen.Stream.Takes.{
  Shrinks, Shrinks-Takes, Shrinks-bind, Takes-read_exact, Takes, Takes-pure, Takes-read_uint,
  Takes-bind,
}
use proxypen.Bench.Protocol.{
  version, magic, read_request, read_response, read_report, same_bytes, read_handshake,
  write_handshake, decode_udp_header, check_magic, check_version,
}

same_bytes-eq : (xs ys : List ℕ) → same_bytes xs ys ≡ true → xs ≡ ys
unfolding same_bytes
same_bytes-eq [] [] h = refl
same_bytes-eq [] (y ∷ ys) h = cc
same_bytes-eq (x ∷ xs) [] h = cc
same_bytes-eq (x ∷ xs) (y ∷ ys) h = ground (arith, same_bytes-eq xs ys)

one_byte : (bs : List ℕ) → length bs ≡ 1 → from_be 0 bs ≡ 1 → bs ≡ 1 ∷ []
unfolding from_be
one_byte [] h e = absurd (omega arith)
one_byte (b ∷ []) h e = let p : b ≡ 1 = omega arith in rw p refl
one_byte (b ∷ c ∷ bs) h e = absurd (omega arith)

after_magic : (m s rest : List ℕ) → check_magic m s ≡ ok (tt, rest) → (m ≡ magic) × (s ≡ 1 ∷ rest)
unfolding check_magic
after_magic m s rest h = elim (Bool-cases (same_bytes m magic)) [
  | inl e ↦
      let h' : continue (read_uint 1 s) check_version ≡ ok (tt, rest) = rw e at h in
      let (v, r, p, q) = continue-eq-ok (read_uint 1 s) check_version h' in
      let (bs, p1, p2, p3) = read_uint-eq-ok 1 v s r p in
      let q' : (v ≡ 1) × (r ≡ rest) = unfold check_version in ground arith in
      (same_bytes-eq m magic e, rw (p1, one_byte bs p2 (omega arith), q'.1) refl)
  | inr e ↦ absurd (no e)
]
  where
    no : same_bytes m magic ≡ false → ⊥
    no e = ground arith

accepted : (s rest : List ℕ) → read_handshake s ≡ ok (tt, rest) → s ≡ write_handshake ++ rest
unfolding read_handshake write_handshake be_bytes
accepted s rest h =
    let (m, r, p, q) = continue-eq-ok (read_exact 8 s) check_magic h in
    let (p1, p2) = read_exact-eq-ok 8 s m r p in
    let (q1, q2) = after_magic m r rest q in rw (p1, q1, q2) refl

-- The handshake is accepted on exactly the streams that begin with the nine bytes which the other side
-- writes, and those bytes are taken.
pub read_handshake_iff :
    (s rest : List ℕ) → (read_handshake s ≡ ok (tt, rest)) ↔ (s ≡ write_handshake ++ rest)
read_handshake_iff s rest = (
  accepted s rest,
  λ h. rw h (
      unfold read_handshake write_handshake read_exact read_uint be_bytes check_magic same_bytes
        check_version from_be in
      refl),
)

check_version-Shrinks : (v : ℕ) → Shrinks (check_version v)
unfolding check_version
check_version-Shrinks v s = elim (Bool-cases (v == version)) [
  | inl e ↦ rw e (Ensures-ok (omega arith))
  | inr e ↦ rw e Ensures-err
]

check_magic-Shrinks : (m : List ℕ) → Shrinks (check_magic m)
unfolding check_magic
check_magic-Shrinks m s = elim (Bool-cases (same_bytes m magic)) [
  | inl e ↦ rw e (
      Shrinks-bind (read_uint 1) check_version (Shrinks-Takes 1 _ (Takes-read_uint 1))
        check_version-Shrinks s)
  | inr e ↦ rw e Ensures-err
]

-- Reading the handshake comes back on any stream.
pub read_handshake-Shrinks : Shrinks read_handshake
unfolding read_handshake
read_handshake-Shrinks =
    Shrinks-bind (read_exact 8) check_magic (Shrinks-Takes 8 _ (Takes-read_exact 8))
      check_magic-Shrinks

-- A request is 25 bytes: fewer end in `unexpected_eof`, and of any others the first 25 are a request.
pub read_request-Takes : Takes 25 read_request
unfolding read_request
read_request-Takes = Takes-bind 1 24 25 _ _ refl (Takes-read_uint 1) λ a.
    Takes-bind 4 20 24 _ _ refl (Takes-read_uint 4) λ b.
      Takes-bind 4 16 20 _ _ refl (Takes-read_uint 4) λ c.
        Takes-bind 8 8 16 _ _ refl (Takes-read_uint 8)
          λ d. Takes-bind 8 0 8 _ _ refl (Takes-read_uint 8) λ e. Takes-pure _

-- A report is 80 bytes.
pub read_report-Takes : Takes 80 read_report
unfolding read_report
read_report-Takes = Takes-bind 8 72 80 _ _ refl (Takes-read_uint 8) λ a.
    Takes-bind 8 64 72 _ _ refl (Takes-read_uint 8) λ b.
      Takes-bind 8 56 64 _ _ refl (Takes-read_uint 8) λ c.
        Takes-bind 8 48 56 _ _ refl (Takes-read_uint 8) λ d.
          Takes-bind 8 40 48 _ _ refl (Takes-read_uint 8) λ e.
            Takes-bind 8 32 40 _ _ refl (Takes-read_uint 8) λ f.
              Takes-bind 8 24 32 _ _ refl (Takes-read_uint 8) λ g.
                Takes-bind 8 16 24 _ _ refl (Takes-read_uint 8) λ h.
                  Takes-bind 8 8 16 _ _ refl (Takes-read_uint 8)
                    λ i. Takes-bind 8 0 8 _ _ refl (Takes-read_uint 8) λ j. Takes-pure _

pub read_response-Shrinks : Shrinks read_response
unfolding read_response
read_response-Shrinks =
    Shrinks-bind (read_uint 1) _ (Shrinks-Takes 1 _ (Takes-read_uint 1)) λ status.
      Shrinks-bind (read_uint 2) _ (Shrinks-Takes 2 _ (Takes-read_uint 2)) λ data_port.
        Shrinks-bind (read_uint 2) _ (Shrinks-Takes 2 _ (Takes-read_uint 2)) λ err_len.
          Shrinks-bind (read_exact err_len) _ (Shrinks-Takes err_len _ (Takes-read_exact err_len))
            λ err_buf. Shrinks-Takes 0 _ (Takes-pure _)

-- The two numbers of a header
abbrev header : List ℕ → ℕ × ℕ
header buf = (from_be 0 (take 8 (drop 0 buf)), from_be 0 (take 8 (drop 8 buf)))

decode_udp_header-header :
    {E : Type 0} (buf : List ℕ)
    → 16 ≤ length buf
    → decode_udp_header {E = E} buf ≡ ok (some (header buf))
unfolding decode_udp_header
decode_udp_header-header {E} buf h =
    let a = (slice-le E buf 0 8 (omega arith) (omega arith)).0 in
    let b = (slice-le E buf 8 16 (omega arith) (omega arith)).0 in
    rw (le→ltb (length buf) 16 h, a, b) refl

-- Every datagram is decoded without a panic: one of at least 16 bytes to a sequence number and a time,
-- a shorter one to nothing.
pub decode_udp_header_cases :
    {E : Type 0} (buf : List ℕ)
    → ((length buf < 16) × (decode_udp_header {E = E} buf ≡ ok none))
      ⊎ ((16 ≤ length buf) × ((p : ℕ × ℕ) × (decode_udp_header {E = E} buf ≡ ok (some p))))
unfolding decode_udp_header
decode_udp_header_cases {E} buf = elim (Bool-cases (ltb (length buf) 16)) [
  | inl e ↦ inl (ltb→lt _ _ e, rw e refl)
  | inr e ↦ let h = ltb→le _ _ e in inr (h, (header buf, decode_udp_header-header buf h))
]

-- What a header has does not depend on the errors of the caller.
pub decode_udp_header-any :
    {E F : Type 0} (buf : List ℕ) (p : ℕ × ℕ)
    → 16 ≤ length buf
    → decode_udp_header {E = E} buf ≡ ok (some p)
    → decode_udp_header {E = F} buf ≡ ok (some p)
decode_udp_header-any {E} {F} buf p h e =
    let q : header buf ≡ p = cc (e, decode_udp_header-header {E = E} buf h) in
    decode_udp_header-header buf h ∙ ap (λ x. ok (some x)) q

pub decoded-Any : {E : Type 0} (buf : List ℕ) → Ensures {E = E} Any (decode_udp_header buf)
decoded-Any {E} buf = elim (decode_udp_header_cases {E = E} buf) [
  | inl (l, e) ↦ rw e (Ensures-ok tt)
  | inr (l, (p, e)) ↦ rw e (Ensures-ok tt)
]
