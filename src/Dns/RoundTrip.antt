-- ===== src/Dns/RoundTrip.antt =====
-- A reply to a query of `encode_query`, in the form that servers use, is decoded to its first A record
-- (src/dns.rs).
use proxypen.Base.{
  ℕ, zero, suc, ◌+◌, ◌≤◌, ◌<◌, ◌^◌, ◌≡◌, inl, inr, ◌&&◌, Bool, ◌%◌, append-nil, refl, sym, ap, ◌∙◌,
  List, [], ◌∷◌, ◌++◌, All, arith, length, drop, ltb, leb, ◌==◌, true, false, bit_and, Bool-cases,
  tests, ==_refl, le→ltb, ok, err, drop_on, length_at, append_assoc, if◌then◌else◌,
}
use proxypen.Base.Bytes.{be_bytes}
use proxypen.Error.{invalid_config}
use proxypen.Net.{v4}
use proxypen.Dns.Names.{label_bytes, IsLabel, kept, name_end-At, u16_at-At}
use proxypen.Dns.Answers.{
  Answer, AnswerFits, answer_bytes, IsAddress, scan_answers_skip, after_answer, scan_answers_hit,
}
use proxypen.Dns.{
  skip_questions, scan_answers, u16_at, decode_a_response, u16, push_labels, encode_query, split,
}

-- No label is longer than 63 bytes.
unfoldable pub short_labels : List (List ℕ) → Bool
short_labels [] = true
short_labels (l ∷ ls) = leb (length l) 63 && short_labels ls

push_labels_cases :
    (ls : List (List ℕ)) (buf : List ℕ)
    → push_labels ls buf ≡ (
        if short_labels ls
        then ok (buf ++ label_bytes (kept ls))
        else err (invalid_config "DNS label too long"))
unfolding push_labels label_bytes kept short_labels
push_labels_cases [] buf = ap ok (sym (append-nil buf))
push_labels_cases (l ∷ ls) buf = elim (Bool-cases (length l == 0)) [
  | inl z ↦ let s : leb (length l) 63 ≡ true = ground arith in rw (z, s) (push_labels_cases ls buf)
  | inr z ↦ elim (Bool-cases (ltb 63 (length l))) [
    | inl long ↦ let s : leb (length l) 63 ≡ false = ground arith in rw (z, long, s) refl
    | inr fits ↦
        let s : leb (length l) 63 ≡ true = ground arith in
        let m : length l % 256 ≡ length l = omega tests in
        rw (z, fits, s, m)
          (push_labels_cases ls (buf ++ (length l ∷ l))
            ∙ ap
                (λ out.
                  if short_labels ls then ok out else err (invalid_config "DNS label too long"))
                (append_assoc buf (length l ∷ l) (label_bytes (kept ls))))
  ]
]

kept-IsLabel : (ls : List (List ℕ)) → short_labels ls ≡ true → All IsLabel (kept ls)
unfolding kept short_labels
kept-IsLabel [] h = tt
kept-IsLabel (l ∷ ls) h = ground (arith, kept-IsLabel ls)

abbrev pub query_header : ℕ → List ℕ
query_header id = u16 id ++ (u16 0x0100 ++ (u16 1 ++ (u16 0 ++ (u16 0 ++ u16 0))))

-- A query is refused exactly when a label of the name is longer than 63 bytes; otherwise it is the
-- header with one question, the labels that are not empty with their lengths, the root and A/IN.
pub encode_query_cases :
    (id : ℕ) (hostname : List ℕ)
    → encode_query id hostname ≡ (
        if short_labels (split b'.' hostname)
        then ok (
            (query_header id ++ label_bytes (kept (split b'.' hostname))) ++ (0 ∷ (u16 1 ++ u16 1)))
        else err (invalid_config "DNS label too long"))
unfolding encode_query
encode_query_cases id hostname =
    let labels = split b'.' hostname in
    rw (push_labels_cases labels (query_header id))
      (elim (Bool-cases (short_labels labels)) [ inl e ↦ rw e refl | inr e ↦ rw e refl ])

unfoldable pub answers_bytes : List Answer → List ℕ
answers_bytes [] = []
answers_bytes (x ∷ xs) = answer_bytes x ++ answers_bytes xs

scan_answers_rest :
    (xs : List Answer) (n : ℕ) (buf : List ℕ) (pos : ℕ) (y : Answer) (r : List ℕ) (a b c d : ℕ)
    → All (λ x. AnswerFits x × ¬ (IsAddress x)) xs
    → length xs < n
    → AnswerFits y
    → y.rtype ≡ 1
    → y.rdata ≡ a ∷ b ∷ c ∷ d ∷ []
    → drop pos buf ≡ answers_bytes xs ++ (answer_bytes y ++ r)
    → scan_answers n buf pos ≡ ok (v4 a b c d)
unfolding answers_bytes
scan_answers_rest xs zero buf pos y r a b c d hx hn fy ty ey h = absurd (omega arith)
scan_answers_rest [] (suc n) buf pos y r a b c d hx hn fy ty ey h =
    scan_answers_hit buf pos y r n a b c d fy ty ey h
scan_answers_rest (x ∷ xs) (suc n) buf pos y r a b c d (hx, hxs) hn fy ty ey h =
    let more = answers_bytes xs ++ (answer_bytes y ++ r) in
    let h' : drop pos buf ≡ answer_bytes x ++ more =
      h ∙ append_assoc (answer_bytes x) (answers_bytes xs) (answer_bytes y ++ r) in
    scan_answers_skip buf pos x more hx.0 h' n hx.1
    ∙ scan_answers_rest xs n buf (pos + 2 + 10 + length x.rdata) y r a b c d hxs (omega arith) fy ty
        ey (after_answer buf pos x more hx.0 h')

question_At :
    (ls : List (List ℕ)) (buf : List ℕ) (pos q1 q2 q3 q4 : ℕ) (r : List ℕ)
    → All IsLabel ls
    → drop pos buf ≡ label_bytes ls ++ (0 ∷ q1 ∷ q2 ∷ q3 ∷ q4 ∷ r)
    → (p : ℕ) × (skip_questions 1 buf pos ≡ ok p) × (drop p buf ≡ r)
unfolding skip_questions
question_At ls buf pos q1 q2 q3 q4 r hl h =
    let (p, e, d) = name_end-At ls buf pos _ hl h in
    let n : ltb (length buf) (p + 4) ≡ false = ground (arith, length_at buf p q1 _ d) in
    (p + 4, rw (e, n) refl, drop_on buf p 4 _ d)

-- The response to `query`: its id and question are those of the query, there are `an` answers, of which
-- `xs` and `y` are the first.
unfoldable pub reply : ℕ → ℕ → ℕ → List ℕ → List ℕ → List Answer → Answer → List ℕ → List ℕ
reply id flags an counts query xs y rest =
    u16 id
    ++ (u16 flags
        ++ (u16 1
            ++ (u16 an
                ++ (counts ++ (drop 12 query ++ (answers_bytes xs ++ (answer_bytes y ++ rest)))))))

query_question :
    (id : ℕ) (hostname query : List ℕ)
    → encode_query id hostname ≡ ok query
    → All IsLabel (kept (split b'.' hostname))
      × (drop 12 query ≡ label_bytes (kept (split b'.' hostname)) ++ (0 ∷ 0 ∷ 1 ∷ 0 ∷ 1 ∷ []))
unfolding be_bytes
query_question id hostname query h =
    let labels = split b'.' hostname in
    let lb = label_bytes (kept labels) in
    elim (Bool-cases (short_labels labels)) [
      | inl e ↦
          let q : ok ((query_header id ++ lb) ++ (0 ∷ 0 ∷ 1 ∷ 0 ∷ 1 ∷ [])) ≡ ok query =
            (rw e at (sym (encode_query_cases id hostname))) ∙ h in
          let q' : query ≡ (query_header id ++ lb) ++ (0 ∷ 0 ∷ 1 ∷ 0 ∷ 1 ∷ []) = cc q in
          (kept-IsLabel labels e, rw q' refl)
      | inr e ↦ absurd (refused e)
    ]
  where
    refused : short_labels (split b'.' hostname) ≡ false → ⊥
    refused e = cc (rw e at (sym (encode_query_cases id hostname)), h)

decode_steps :
    (id flags qd an pos : ℕ) (buf : List ℕ)
    → 12 ≤ length buf
    → u16_at buf 0 ≡ ok id
    → u16_at buf 2 ≡ ok flags
    → u16_at buf 4 ≡ ok qd
    → u16_at buf 6 ≡ ok an
    → bit_and flags 0x000F ≡ 0
    → 0 < an
    → skip_questions qd buf 12 ≡ ok pos
    → decode_a_response id buf ≡ scan_answers an buf pos
unfolding decode_a_response
decode_steps id flags qd an pos buf l h0 h2 h4 h6 m n s =
    let e0 : (id == id) ≡ true = ==_refl id in
    let e6 : (an == 0) ≡ false = ground arith in
    rw (le→ltb (length buf) 12 l, h0, e0, h2, m, h4, h6, e6, s) refl

-- A response to an encoded query with a code of 0, whatever its other flags and section counts, is
-- decoded to the first address among its answers, the records before it being passed over.
pub decode_a_response-reply :
    (id flags an c1 c2 c3 c4 a b c d : ℕ) (hostname query : List ℕ) (xs : List Answer) (y : Answer)
    (rest : List ℕ)
    → encode_query id hostname ≡ ok query
    → id < 2 ^ 16
    → flags < 2 ^ 16
    → bit_and flags 0x000F ≡ 0
    → an < 2 ^ 16
    → length xs < an
    → All (λ x. AnswerFits x × ¬ (IsAddress x)) xs
    → AnswerFits y
    → y.rtype ≡ 1
    → y.rdata ≡ a ∷ b ∷ c ∷ d ∷ []
    → decode_a_response id (reply id flags an (c1 ∷ c2 ∷ c3 ∷ c4 ∷ []) query xs y rest)
      ≡ ok (v4 a b c d)
unfolding reply be_bytes
decode_a_response-reply id flags an c1 c2 c3 c4 a b c d hostname query xs y rest hq hi hf hr ha hn
      hx fy ty ey =
    let buf = reply id flags an (c1 ∷ c2 ∷ c3 ∷ c4 ∷ []) query xs y rest in
    let answers = answers_bytes xs ++ (answer_bytes y ++ rest) in
    let labels = kept (split b'.' hostname) in
    let (good, e) = query_question id hostname query hq in
    let body : drop 12 buf ≡ label_bytes labels ++ (0 ∷ 0 ∷ 1 ∷ 0 ∷ 1 ∷ answers) =
      ap (λ q. q ++ answers) e
      ∙ append_assoc (label_bytes labels) (0 ∷ 0 ∷ 1 ∷ 0 ∷ 1 ∷ []) answers in
    let (p, s, at) = question_At labels buf 12 0 1 0 1 answers good body in
    decode_steps id flags 1 an p buf (omega arith) (u16_at-At buf 0 id _ hi refl)
      (u16_at-At buf 2 flags _ hf refl) (u16_at-At buf 4 1 _ (omega arith) refl)
      (u16_at-At buf 6 an _ ha refl) hr (omega arith) s
    ∙ scan_answers_rest xs an buf p y rest a b c d hx hn fy ty ey at
