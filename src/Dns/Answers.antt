-- ===== src/Dns/Answers.antt =====
-- The answers of a DNS message, as bytes and as the loop of `decode_a_response` in src/dns.rs reads them.
use proxypen.Base.{
  ℕ, suc, ◌+◌, ◌≤◌, ◌<◌, ◌^◌, ◌≡◌, ◌&&◌, refl, ap, ◌∙◌, List, [], ◌∷◌, ◌++◌, arith, length, drop,
  ltb, ◌==◌, true, false, ok, index_at, drop_on, length_at, length-append, length-drop, le→ltb,
  ltb→le, drop-append,
}
use proxypen.Base.Bytes.{be_bytes}
use proxypen.Error.{ProxyPenError}
use proxypen.Net.{v4}
use proxypen.Dns.Names.{u16_at-At, pointer_end-At}
use proxypen.Dns.{name_end, scan_answers, four_bytes, u16_at, u16}

-- A record of the answer section, its name a pointer, as servers write it.
pub record Answer : Type 0 where
  pub pointer_high : ℕ
  pub pointer_low : ℕ
  pub rtype : ℕ
  pub class_high : ℕ
  pub class_low : ℕ
  pub ttl : ℕ
  pub rdata : List ℕ

pub record AnswerFits (x : Answer) : Type 0 where
  pub pointer : 192 ≤ x.pointer_high
  pub byte : x.pointer_high < 256
  pub rtype : x.rtype < 2 ^ 16
  pub rdata : length x.rdata < 2 ^ 16

unfoldable pub answer_bytes : Answer → List ℕ
answer_bytes x =
    x.pointer_high ∷ x.pointer_low ∷ u16 x.rtype
    ++ (x.class_high ∷ x.class_low ∷ be_bytes 4 x.ttl ++ (u16 (length x.rdata) ++ x.rdata))

abbrev pub IsAddress : Answer → Type 0
IsAddress x = (x.rtype ≡ 1) × (length x.rdata ≡ 4)

-- What the loop over the answers reads of one record, and where it goes on.
module _ (buf : List ℕ) (pos : ℕ) (x : Answer) (r : List ℕ) (f : AnswerFits x)
    (h : drop pos buf ≡ answer_bytes x ++ r) where
  header_end : name_end buf pos ≡ ok (pos + 2)
  unfolding answer_bytes
  header_end = pointer_end-At buf pos x.pointer_high x.pointer_low _ f.pointer f.byte h

  rtype_at : u16_at buf (pos + 2) ≡ ok x.rtype
  unfolding answer_bytes be_bytes
  rtype_at = u16_at-At buf (pos + 2) x.rtype _ f.rtype (drop_on buf pos 2 _ h)

  rdlength_at : u16_at buf (pos + 2 + 8) ≡ ok (length x.rdata)
  unfolding answer_bytes be_bytes
  rdlength_at =
      let e : pos + 2 + 8 ≡ pos + 10 = omega arith in
      rw e (u16_at-At buf (pos + 10) (length x.rdata) _ f.rdata (drop_on buf pos 10 _ h))

  rdata_at : drop (pos + 2 + 10) buf ≡ x.rdata ++ r
  unfolding answer_bytes be_bytes
  rdata_at = let e : pos + 2 + 10 ≡ pos + 12 = omega arith in rw e (drop_on buf pos 12 _ h)

  -- There are at least `n` bytes behind the header.
  room : ltb (length buf) (pos + 2 + 10) ≡ false
  unfolding answer_bytes be_bytes
  room = ground (arith, length_at buf pos x.pointer_high _ h)

  room_rdata : ltb (length buf) (pos + 2 + 10 + length x.rdata) ≡ false
  room_rdata = le→ltb _ _ (
      omega (
        arith,
        ltb→le _ _ room,
        ap (λ t. length t) rdata_at,
        length-append {0} x.rdata r,
        length-drop {0} (pos + 2 + 10) buf,
      ))

  -- A record that is no address is passed over.
  pub scan_answers_skip :
      (n : ℕ)
      → ¬ (IsAddress x)
      → scan_answers (suc n) buf pos ≡ scan_answers n buf (pos + 2 + 10 + length x.rdata)
  unfolding scan_answers
  scan_answers_skip n other =
      let c : (x.rtype == 1 && length x.rdata == 4) ≡ false = ground (arith, other) in
      rw (header_end, room, rtype_at, rdlength_at, room_rdata, c) refl

  pub after_answer : drop (pos + 2 + 10 + length x.rdata) buf ≡ r
  after_answer = drop_on buf (pos + 2 + 10) (length x.rdata) _ rdata_at ∙ drop-append x.rdata r

-- An address ends the loop.
pub scan_answers_hit :
    (buf : List ℕ) (pos : ℕ) (x : Answer) (r : List ℕ) (n a b c d : ℕ)
    → AnswerFits x
    → x.rtype ≡ 1
    → x.rdata ≡ a ∷ b ∷ c ∷ d ∷ []
    → drop pos buf ≡ answer_bytes x ++ r
    → scan_answers (suc n) buf pos ≡ ok (v4 a b c d)
unfolding scan_answers
scan_answers_hit buf pos x r n a b c d f t e h =
    let four : length x.rdata ≡ 4 = ap (λ l. length l) e in
    let hit : (x.rtype == 1 && length x.rdata == 4) ≡ true = ground arith in
    let at : drop (pos + 2 + 10) buf ≡ (a ∷ b ∷ c ∷ d ∷ []) ++ r =
      rdata_at buf pos x r f h ∙ ap (λ l. l ++ r) e in
    let i0 = index_at ProxyPenError buf (pos + 2 + 10) _ _ at in
    let i1 =
      index_at ProxyPenError buf (pos + 2 + 10 + 1) _ _ (drop_on buf (pos + 2 + 10) 1 _ at) in
    let i2 =
      index_at ProxyPenError buf (pos + 2 + 10 + 2) _ _ (drop_on buf (pos + 2 + 10) 2 _ at) in
    let i3 =
      index_at ProxyPenError buf (pos + 2 + 10 + 3) _ _ (drop_on buf (pos + 2 + 10) 3 _ at) in
    rw
      (
        header_end buf pos x r f h,
        room buf pos x r f h,
        rtype_at buf pos x r f h,
        rdlength_at buf pos x r f h,
        room_rdata buf pos x r f h,
        hit,
      )
      (unfold four_bytes in rw (i0, i1, i2, i3) refl)
