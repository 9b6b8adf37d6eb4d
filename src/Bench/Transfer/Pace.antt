-- ===== src/Bench/Transfer/Pace.antt =====
-- The sender of datagrams of src/bench/client.rs and src/bench/server.rs stops, and keeps to its numbers
-- and to what is due.
use proxypen.Base.{
  ℕ, suc, ◌+◌, ◌-◌, ◌*◌, ◌^◌, ◌<◌, ◌≤◌, ◌≡◌, refl, sym, ap, ◌∙◌, max, List, [], ◌∷◌, Option, none,
  some, length, leb, ltb, arith, tests, ok, Ensures, Ensures-ok,
}
use proxypen.Base.{Ensures-if, ◌++◌, drop, le→ltb, length-append, length-drop}
use proxypen.Base.Bytes.{be_bytes, length-be_bytes}
use proxypen.Base.Loop.{Progress, iterate-Ensures}
use proxypen.Error.{IoError}
use proxypen.Bench.Protocol.{encode_udp_header, decode_udp_header}
use proxypen.Bench.Protocol.RoundTrip.{decode_udp_header-encode_udp_header}
use proxypen.Bench.Pacer.{Pacer, u64_max, target_packets}
use proxypen.Bench.Stats.{u64}
use proxypen.Bench.Transfer.{
  Done, done, failed, outer_round, inner_round, sent_one, send_round, next_round, Sender, send_loop,
}

pub target_packets-le : (p : Pacer) (t : ℕ) → target_packets p t ≤ u64_max
unfolding target_packets
target_packets-le p t = ground arith

pub encode_udp_header-ok :
    (E : Type 0) (buf : List ℕ) (seq ts : ℕ)
    → 16 ≤ length buf
    → encode_udp_header {E = E} buf seq ts ≡ ok (be_bytes 8 seq ++ (be_bytes 8 ts ++ drop 16 buf))
unfolding encode_udp_header
encode_udp_header-ok E buf seq ts h = rw (le→ltb (length buf) 16 h) refl

pub length-encode_udp_header :
    (buf out : List ℕ) (seq ts : ℕ)
    → 16 ≤ length buf
    → encode_udp_header {E = IoError} buf seq ts ≡ ok out
    → length out ≡ length buf
length-encode_udp_header buf out seq ts h e =
    let q : be_bytes 8 seq ++ (be_bytes 8 ts ++ drop 16 buf) ≡ out =
      cc (e, encode_udp_header-ok IoError buf seq ts h) in
    rw (← q) (
      omega (
        arith,
        length-append {0} (be_bytes 8 seq) (be_bytes 8 ts ++ drop 16 buf),
        length-append {0} (be_bytes 8 ts) (drop 16 buf),
        length-be_bytes 8 seq,
        length-be_bytes 8 ts,
        length-drop {0} 16 buf,
      ))

-- A list of datagrams, newest first, that end below `next`: each is as long as the buffer, and they carry the
-- numbers from `first` on.
abbrev pub Numbered : ℕ → ℕ → ℕ → List (List ℕ) → Type 0
Numbered len first next [] = next ≡ first
Numbered len first next (d ∷ ds) =
    (m : ℕ) × (ts : ℕ) × (next ≡ suc m)
    × (length d ≡ len)
    × (decode_udp_header {E = IoError} d ≡ ok (some (m, ts)))
    × Numbered len first m ds

module _ (now : ℕ → ℕ) (answer : ℕ → Done) (p : Pacer) (start deadline limit len first : ℕ) where
  -- What holds between rounds: no more than `limit` packets are due before the deadline.
  pub record Sending (s : Sender) : Type 0 where
    pub numbered : Numbered len first s.seq s.sent
    pub paced : s.seq ≤ max first limit
    pub buffer : length s.buf ≡ len
    pub due_bound :
        (d : ℕ) → s.due ≡ some d → (d ≤ u64_max) × (now s.readings < deadline → d ≤ limit)

  pub record Sent (s : Sender) : Type 0 where
    pub numbered : Numbered len first s.seq s.sent
    pub paced : s.seq ≤ max first limit

  abbrev busy : Option ℕ → ℕ
  busy none = 0
  busy (some d) = 1

  abbrev left : Sender → ℕ
  left s = 2 * (deadline - now s.readings) + busy s.due

  module _ (ticks : (k : ℕ) → now k < now (suc k)) (long : 16 ≤ len)
      (most : (t : ℕ) → t < deadline → target_packets p (t - start) ≤ limit) where
    ticks-2 : (k : ℕ) → now k + 2 ≤ now (suc (suc k))
    ticks-2 k = omega (arith, ticks k, ticks (suc k))

    due_lem :
        (k d : ℕ)
        → target_packets p (now (suc k) - start) ≡ d
        → (d ≤ u64_max) × (now (suc (suc k)) < deadline → d ≤ limit)
    due_lem k d e = (
      rw e at (target_packets-le p (now (suc k) - start)),
      λ b. rw e at (most (now (suc k)) (omega (arith, ticks (suc k)))),
    )

    outer_round-Progress :
        (s : Sender)
        → Sending s
        → s.due ≡ none
        → Ensures (Progress left Sending Sent s) (outer_round now answer p start deadline s)
    unfolding outer_round
    outer_round-Progress s i e =
        Ensures-if (leb deadline (now s.readings)) _ _
          (λ _. Ensures-ok (record { numbered = i.numbered; paced = i.paced }))
          λ b.
            let before : now s.readings < deadline = omega tests in
            let w : busy s.due ≡ 0 = ap busy e in
            Ensures-ok (
              record {
                numbered = i.numbered;
                paced = i.paced;
                buffer = i.buffer;
                due_bound = λ d q. due_lem s.readings d (cc q);
              },
              omega (arith, ticks-2 s.readings),
            )

    sent_one-Progress :
        (s : Sender) (out : List ℕ) (d ts : ℕ)
        → Sending s
        → s.due ≡ some d
        → s.seq < d
        → now s.readings < deadline
        → length out ≡ len
        → decode_udp_header {E = IoError} out ≡ ok (some (s.seq, ts))
        → (a : Done)
        → Ensures (Progress left Sending Sent s) (sent_one now answer p start deadline s out a)
    unfolding sent_one
    sent_one-Progress s out d ts i e l b ll dd (failed x) =
        Ensures-ok (record { numbered = i.numbered; paced = i.paced })
    sent_one-Progress s out d ts i e l b ll dd (done n) =
        let (u, v) = i.due_bound d e in
        Ensures-ok (
          record {
            numbered = (s.seq, ts, refl, ll, dd, i.numbered);
            paced = omega (arith, v b);
            buffer = ll;
            due_bound = λ d' q. let (u', v') = i.due_bound d' q in (u', λ b'. v' b);
          },
          omega (arith, ticks-2 s.readings),
        )

    inner_round-Progress :
        (s : Sender) (d : ℕ)
        → Sending s
        → s.due ≡ some d
        → Ensures (Progress left Sending Sent s) (inner_round now answer p start deadline s d)
    unfolding inner_round
    inner_round-Progress s d i e =
        Ensures-if (ltb s.seq d) _ _
          (λ a.
            Ensures-if (leb deadline (now s.readings)) _ _
              (λ _. Ensures-ok (record { numbered = i.numbered; paced = i.paced }))
              λ b.
                let ts = u64 (now (suc s.readings)) in
                let bu = i.buffer in
                let small : s.seq < 256 ^ 8 = omega (tests, (i.due_bound d e).0) in
                let (out, e1, e2, e3) =
                  decode_udp_header-encode_udp_header {E = IoError} s.buf s.seq ts small
                    (omega arith) (omega arith) in
                rw e1 (
                  sent_one-Progress s out d ts i e (omega tests) (omega tests)
                    (length-encode_udp_header s.buf out s.seq ts (omega arith) e1 ∙ bu) e2
                    (answer s.seq)))
          λ _.
            let w : busy s.due ≡ 1 = ap busy e in
            Ensures-ok (
              record {
                numbered = i.numbered;
                paced = i.paced;
                buffer = i.buffer;
                due_bound = λ d' q. absurd (none_some q);
              },
              omega arith,
            )
      where
        none_some : {x : ℕ} → none ≡ some x → ⊥
        none_some q = cc q

    next_round-Progress :
        (s : Sender)
        → Sending s
        → (o : Option ℕ) → s.due ≡ o
        → Ensures (Progress left Sending Sent s) (next_round now answer p start deadline s o)
    unfolding next_round
    next_round-Progress s i none e = outer_round-Progress s i e
    next_round-Progress s i (some d) e = inner_round-Progress s d i e

    -- With a buffer of at least 16 bytes and a clock that moves on with each reading, the sender stops: twice
    -- the time that is left, and two, are rounds enough. The datagrams that it sent carry consecutive numbers from
    -- the first on and are as long as the buffer, and their number never exceeds what the pacer lets be due
    -- before the deadline.
    pub send_loop-Sent :
        (s : Sender) (fuel : ℕ)
        → Numbered len first s.seq s.sent
        → s.seq ≤ max first limit
        → length s.buf ≡ len
        → s.due ≡ none
        → 2 * (deadline - now s.readings) < fuel
        → Ensures Sent (send_loop now answer p start deadline fuel s)
    unfolding send_loop send_round
    send_loop-Sent s fuel num q lb e l =
        let w : busy s.due ≡ 0 = ap busy e in
        iterate-Ensures left Sending Sent _ (λ s i. next_round-Progress s i s.due refl) fuel s
          (record {
            numbered = num;
            paced = q;
            buffer = lb;
            due_bound = λ d r. absurd (none_some (sym e ∙ r));
          })
          (omega arith)
      where
        none_some : {x : ℕ} → none ≡ some x → ⊥
        none_some q = cc q
