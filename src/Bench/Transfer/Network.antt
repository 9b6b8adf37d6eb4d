-- ===== src/Bench/Transfer/Network.antt =====
-- Datagrams of src/bench/client.rs and src/bench/server.rs on a network that loses, repeats and reorders them.
use proxypen.Base.{
  zero, replicate, length-replicate, IsOneOf, ℕ, suc, ◌^◌, ◌≤◌, ◌<◌, ◌≡◌, refl, ap, List, [], ◌∷◌,
  length, inl, inr, some, arith, ok,
}
use proxypen.Error.{IoError}
use proxypen.Bench.Protocol.{encode_udp_header, decode_udp_header}
use proxypen.Bench.Protocol.RoundTrip.{decode_udp_header-encode_udp_header}
use proxypen.Bench.Stats.{Float64, Arrival, UdpStats, default, record_arrival}
use proxypen.Bench.Stats.Counts.{received}
use proxypen.Bench.Stats.Delivered.{Delivered, Among, received-Delivered}
use proxypen.Bench.Transfer.Pace.{Numbered, encode_udp_header-ok, length-encode_udp_header}

pub Numbered-IsOneOf :
    (len first next : ℕ) (ds : List (List ℕ)) (x : List ℕ)
    → Numbered len first next ds
    → IsOneOf ds x
    → (seq : ℕ) × (ts : ℕ) × (seq < next)
      × (length x ≡ len)
      × (decode_udp_header {E = IoError} x ≡ ok (some (seq, ts)))
Numbered-IsOneOf len first next [] x n h = absurd h
Numbered-IsOneOf len first next (d ∷ ds) x (m, ts, e, l, p, ns) (inl q) =
    (m, ts, omega arith, rw q l, rw q p)
Numbered-IsOneOf len first next (d ∷ ds) x (m, ts, e, l, p, ns) (inr q) =
    let (seq, ts', b, l', p') = Numbered-IsOneOf len first m ds x ns q in
    (seq, ts', omega arith, l', p')

module _ (F : Float64) (len n : ℕ) where
  -- The state of the receiver comes from at most `k` arrivals, all of them datagrams of the sender.
  pub record Kept (k : ℕ) (s : UdpStats F) : Type 0 where
    history : List Arrival
    state : s ≡ received F history
    among : Among n len history
    short : length history ≤ k

  pub Kept-mono : (k l : ℕ) (s : UdpStats F) → k ≤ l → Kept k s → Kept l s
  Kept-mono k l s e h = record {
    history = h.history;
    state = h.state;
    among = h.among;
    short = omega (arith, h.short);
  }

  pub default-Kept : Kept 0 (default F)
  unfolding received
  default-Kept = record { history = []; state = refl; among = (tt, tt); short = omega arith }

  pub record_arrival-Kept :
      (k : ℕ) (s : UdpStats F) (a : Arrival)
      → a.seq < n
      → a.payload_len ≡ len
      → Kept k s
      → Kept (suc k) (record_arrival F s a)
  unfolding received
  record_arrival-Kept k s a b l h = record {
    history = a ∷ h.history;
    state = ap (λ t. record_arrival F t a) h.state;
    among = ((b, h.among.0), (l, h.among.1));
    short = omega (arith, h.short);
  }

  pub Kept-Delivered :
      (k : ℕ) (s : UdpStats F) → k < 2 ^ 64 → Kept k s → Delivered n len s.packets s.max_seq s.bytes
  Kept-Delivered k s l h =
      rw h.state (received-Delivered F n len h.history (omega (arith, h.short)) h.among)

abbrev pub zeros : ℕ → List ℕ
zeros len = replicate len 0

pub length-zeros : (len : ℕ) → length (zeros len) ≡ len
length-zeros len = length-replicate {0} len zero

-- A hello is datagram 0.
pub hello-Numbered :
    (E : Type 0) (len : ℕ) (hello : List ℕ)
    → 16 ≤ len
    → encode_udp_header {E = E} (zeros len) 0 0 ≡ ok hello
    → Numbered len 0 1 (hello ∷ [])
hello-Numbered E len hello h e =
    let buf = zeros len in
    let long : 16 ≤ length buf = omega (arith, length-zeros len) in
    let b = encode_udp_header-ok E buf 0 0 long in
    let i = encode_udp_header-ok IoError buf 0 0 long in
    let (out, e1, e2, e3) =
      decode_udp_header-encode_udp_header {E = IoError} buf 0 0 (omega arith) (omega arith) long in
    let q : out ≡ hello = cc (e, b, i, e1) in
    (
      0,
      0,
      omega arith,
      rw (← q) (omega (arith, length-encode_udp_header buf out 0 0 long e1, length-zeros len)),
      rw (← q) e2,
      refl,
    )
