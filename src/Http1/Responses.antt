-- ===== src/Http1/Responses.antt =====
-- What src/http1.rs makes of a response.
use proxypen.Base.{
  ℕ, suc, ◌+◌, ◌≡◌, refl, sym, ap, ◌∙◌, List, [], ◌∷◌, ◌++◌, append_assoc, append-nil, All, map,
  concat, Option, Bool, true, false, none, some, length, ◌==◌, arith, if◌then◌else◌, Outcome, ok,
  err, ◌>>=◌,
}
use proxypen.Base.Decimal.{parse_u16}
use proxypen.Base.Utf8.{IsUtf8, from_utf8_lossy-IsUtf8}
use proxypen.Error.{IoError, unexpected_eof}
use proxypen.Config.{TestTarget}
use proxypen.Tls.{handshake}
use proxypen.Transport.{Transport, Stream}
use proxypen.Http1.{
  first_line, strip_cr, up_to_lf, has_lf, splitn, find_blank, status_of, parse_status_line,
  request_text, read_rest, Exchange, respond, answered, elapsed, do_test,
}

abbrev pub Without : ℕ → List ℕ → Type 0
Without c s = All (λ x. (x == c) ≡ false) s

abbrev pub Nonempty : List ℕ → Type 0
Nonempty [] = ⊥
Nonempty (x ∷ xs) = Unit {0}

-- The reads that gave bytes, and then the end: a read of no bytes or, under TLS, an end without a close.
pub data Ends (tls : Bool) : List (Outcome IoError (List ℕ)) → Type 0 where
  closed : (more : List (Outcome IoError (List ℕ))) → Ends tls (ok [] ∷ more)
  cut : tls ≡ true → (more : List (Outcome IoError (List ℕ))) → Ends tls (err unexpected_eof ∷ more)

read_rest-Ends :
    (tls : Bool) (end : List (Outcome IoError (List ℕ))) (buf : List ℕ)
    → Ends tls end
    → read_rest tls end buf ≡ ok buf
unfolding read_rest
read_rest-Ends tls end buf (closed more) = refl
read_rest-Ends tls end buf (cut e more) = rw e refl

read_rest-joined :
    (tls : Bool) (chunks : List (List ℕ)) (end : List (Outcome IoError (List ℕ))) (buf : List ℕ)
    → All Nonempty chunks
    → Ends tls end
    → read_rest tls (map ok chunks ++ end) buf ≡ ok (buf ++ concat chunks)
unfolding read_rest
read_rest-joined tls [] end buf n e = read_rest-Ends tls end buf e ∙ ap ok (sym (append-nil buf))
read_rest-joined tls ([] ∷ cs) end buf n e = absurd n.0
read_rest-joined tls ((x ∷ xs) ∷ cs) end buf n e =
    read_rest-joined tls cs end (buf ++ (x ∷ xs)) n.1 e
    ∙ ap ok (append_assoc buf (x ∷ xs) (concat cs))

up_to_lf-append : (line rest : List ℕ) → Without 10 line → up_to_lf (line ++ (10 ∷ rest)) ≡ line
unfolding up_to_lf
up_to_lf-append [] rest w = refl
up_to_lf-append (x ∷ xs) rest w = rw (w.0, up_to_lf-append xs rest w.1) refl

has_lf-append : (line rest : List ℕ) → has_lf (line ++ (10 ∷ rest)) ≡ true
unfolding has_lf
has_lf-append [] rest = refl
has_lf-append (x ∷ xs) rest = ground (arith, has_lf-append xs rest)

strip_cr-snoc : (line : List ℕ) → strip_cr (line ++ (13 ∷ [])) ≡ line
unfolding strip_cr
strip_cr-snoc [] = refl
strip_cr-snoc (x ∷ []) = refl
strip_cr-snoc (x ∷ y ∷ s) = ap (λ t. x ∷ t) (strip_cr-snoc (y ∷ s))

splitn-space :
    (n : ℕ) (part rest : List ℕ)
    → Without 32 part
    → splitn (suc (suc n)) (part ++ (32 ∷ rest)) ≡ part ∷ splitn (suc n) rest
unfolding splitn
splitn-space n [] rest w = refl
splitn-space n (x ∷ xs) rest w = rw (w.0, splitn-space n xs rest w.1) refl

respond-joined :
    (x : Exchange) (transport : Transport) (t : TestTarget) (d : Option ℕ) (i : ℕ) (first : List ℕ)
    (chunks : List (List ℕ)) (end : List (Outcome IoError (List ℕ)))
    → x.write (request_text t) ≡ ok tt
    → x.first ≡ ok first
    → x.rest ≡ map ok chunks ++ end
    → All Nonempty chunks
    → Ends t.use_tls end
    → respond x transport t d i ≡ (
        parse_status_line (first ++ concat chunks) >>= λ r.
        ok (answered x transport d i (r.0) (length (first ++ concat chunks))))
unfolding respond
respond-joined x transport t d i first chunks end hw hf hr n e =
    rw (hw, hf, hr, read_rest-joined t.use_tls chunks end first n e) refl

-- However the response is split into reads: if the connection is made and the request goes out, the result is a
-- success with the status of all bytes together and their number as the size, or the error of their status line.
-- Under TLS a cut connection ends the response like a close.
pub do_test-joined :
    (x : Exchange) (transport : Transport) (t : TestTarget) (stream : Stream) (first : List ℕ)
    (chunks : List (List ℕ)) (end : List (Outcome IoError (List ℕ)))
    → x.connect transport t ≡ ok stream
    → handshake x.connector none t ≡ ok tt
    → x.write (request_text t) ≡ ok tt
    → x.first ≡ ok first
    → x.rest ≡ map ok chunks ++ end
    → All Nonempty chunks
    → Ends t.use_tls end
    → do_test x transport t ≡ (
        parse_status_line (first ++ concat chunks) >>= λ r. ok (
          answered x transport
            (if t.use_tls then some (elapsed x 2 3) else none)
            (if t.use_tls then 4 else 2)
            (r.0)
            (length (first ++ concat chunks))))
unfolding do_test
do_test-joined x transport t stream first chunks end hc hh hw hf hr n e =
    rw (hc, hh) (if_push t.use_tls)
  where
    reads :
        (i : ℕ) (d : Option ℕ)
        → respond x transport t d i ≡ (
            parse_status_line (first ++ concat chunks) >>= λ r.
            ok (answered x transport d i (r.0) (length (first ++ concat chunks))))
    reads i d = respond-joined x transport t d i first chunks end hw hf hr n e

    if_push :
        (b : Bool)
        → (if b
            then respond x transport t (some (elapsed x 2 3)) 4
            else respond x transport t none 2)
          ≡ (parse_status_line (first ++ concat chunks) >>= λ r. ok (
              answered x transport
                (if b then some (elapsed x 2 3) else none)
                (if b then 4 else 2)
                (r.0)
                (length (first ++ concat chunks))))
    if_push true = reads 4 (some (elapsed x 2 3))
    if_push false = reads 2 none

Without-snoc : (line : List ℕ) → Without 10 line → Without 10 (line ++ (13 ∷ []))
Without-snoc [] w = (refl, tt)
Without-snoc (x ∷ xs) w = (w.0, Without-snoc xs w.1)

first_line_cons :
    (s : List ℕ) → Nonempty s → has_lf s ≡ true → first_line s ≡ some (strip_cr (up_to_lf s))
unfolding first_line
first_line_cons [] n h = absurd n
first_line_cons (x ∷ s) n h = rw h refl

Nonempty-append : (xs ys : List ℕ) → Nonempty ys → Nonempty (xs ++ ys)
Nonempty-append [] ys h = h
Nonempty-append (x ∷ xs) ys h = tt

first_line-append :
    (line rest : List ℕ) → Without 10 line → first_line (line ++ (13 ∷ 10 ∷ rest)) ≡ some line
first_line-append line rest w =
    let e : line ++ (13 ∷ 10 ∷ rest) ≡ (line ++ (13 ∷ [])) ++ (10 ∷ rest) =
      sym (append_assoc line (13 ∷ []) (10 ∷ rest)) in
    rw e (
      first_line_cons ((line ++ (13 ∷ [])) ++ (10 ∷ rest))
        (Nonempty-append (line ++ (13 ∷ [])) (10 ∷ rest) tt)
        (has_lf-append (line ++ (13 ∷ [])) rest)
      ∙ rw (up_to_lf-append (line ++ (13 ∷ [])) rest (Without-snoc line w), strip_cr-snoc line)
          refl)

abbrev pub line_of : List ℕ → List ℕ → List ℕ → List ℕ
line_of version code reason = version ++ (32 ∷ (code ++ (32 ∷ reason)))

-- A response that is text and begins with a status line of three parts, the first without a blank and none with a
-- line feed, has the status that the second part stands for.
pub parse_status_line-status :
    (version code reason rest : List ℕ) (status : ℕ)
    → IsUtf8 (line_of version code reason ++ (13 ∷ 10 ∷ rest))
    → Without 32 version
    → Without 32 code
    → Without 10 (line_of version code reason)
    → parse_u16 code ≡ some status
    → (header_end : ℕ) × (parse_status_line (line_of version code reason ++ (13 ∷ 10 ∷ rest))
        ≡ ok (status, header_end))
unfolding parse_status_line
parse_status_line-status version code reason rest status u wv wc wl p =
    let line = line_of version code reason in
    let buf = line ++ (13 ∷ 10 ∷ rest) in
    let split = splitn-space 1 version (code ++ (32 ∷ reason)) wv in
    let parts : splitn 3 line ≡ version ∷ code ∷ splitn 1 reason =
      split ∙ ap (λ q. version ∷ q) (splitn-space 0 code reason wc) in
    let answer : status_of (version ∷ code ∷ splitn 1 reason) ≡ ok status =
      unfold status_of in rw p refl in
    (
      elim (find_blank buf) [ none ↦ length buf | some i ↦ i + 4 ],
      rw (from_utf8_lossy-IsUtf8 buf u, first_line-append line rest wl, parts, answer) refl,
    )
