-- ===== src/Bench/Client/Data/Download.antt =====
-- The UDP download on the client's side of src/bench/client.rs, over a network that loses, repeats and reorders datagrams.
use proxypen.Base.{
  IsOneOf, ℕ, zero, suc, length-replicate, none, ◌+◌, ◌-◌, ◌^◌, ◌≤◌, ◌<◌, ◌≡◌, max, List, [], ◌∷◌,
  Option, length, replicate, take_all, All, some, arith, Outcome, ok, err, panic, stuck, Ensures,
  Ensures-ok, Ensures-bind, Ensures-map_err, Ensures-mono, Returns, Returns-Ensures,
}
use proxypen.Error.{IoError}
use proxypen.Bench.Protocol.{decode_udp_header, udp_header_len}
use proxypen.Bench.Protocol.Refusals.{decode_udp_header-any}
use proxypen.Bench.Stats.{Float64, Arrival, UdpStats, default, record_arrival, into_report, u64}
use proxypen.Bench.Stats.Delivered.{Delivered}
use proxypen.Bench.Transfer.{straggle_grace}
use proxypen.Bench.Transfer.Pace.{Numbered, encode_udp_header-ok}
use proxypen.Bench.Transfer.Network.{
  Numbered-IsOneOf, Kept, Kept-mono, default-Kept, record_arrival-Kept, Kept-Delivered,
}
use proxypen.Bench.Client.{BenchError, io, proxy, Received, ClientPlane, fits-ok}
use proxypen.Bench.Client.Data.{since, counted, receive_down, run_udp_down}

module _ (F : Float64) (len n room : ℕ) (ds : List (List ℕ)) (num : Numbered len 0 n ds)
    (long : 16 ≤ len) (fits : len ≤ room) where
  receive_down-Kept :
      (rs : List (Outcome IoError Received)) (k : ℕ) (start : Option ℕ) (s : UdpStats F)
      → Kept F len n k s
      → All (Ensures (λ q. IsOneOf ds q.bytes)) rs
      → Ensures (λ r. Kept F len n (k + length rs) r.1) (receive_down F room rs start s)
  unfolding receive_down counted
  receive_down-Kept [] k start s h a = Ensures-ok (Kept-mono F len n k (k + 0) s (omega arith) h)
  receive_down-Kept (err e ∷ rs) k start s h a =
      Ensures-ok (Kept-mono F len n k (k + suc (length rs)) s (omega arith) h)
  receive_down-Kept (panic ∷ rs) k start s h a = absurd a.0.holds
  receive_down-Kept (stuck ∷ rs) k start s h a = absurd a.0.holds
  receive_down-Kept (ok q ∷ rs) k start s h a =
      let (seq, ts, b, l, e) = Numbered-IsOneOf len 0 n ds q.bytes num a.0.holds in
      let e' : decode_udp_header {E = BenchError} q.bytes ≡ ok (some (seq, ts)) =
        decode_udp_header-any q.bytes (seq, ts) (omega arith) e in
      let begin = since F start q.at in
      let arrival : Arrival = record {
        seq = seq;
        send_ts_ns = ts;
        recv_ts_ns = u64 (q.stamped - begin);
        payload_len = length q.bytes;
      } in
      rw (take_all room q.bytes (omega arith), e')
        (Ensures-mono _
          (λ r g. Kept-mono F len n (suc k + length rs) (k + suc (length rs)) r.1 (omega arith) g)
          (receive_down-Kept rs (suc k) (some begin) (record_arrival F s arrival)
            (record_arrival-Kept F len n k s arrival b l h) a.1))

  -- What the client reports of a download
  pub run_udp_down-Delivered :
      (c : ClientPlane) (duration size : ℕ)
      → max size udp_header_len + 64 ≤ c.vec_room
      → duration + straggle_grace ≤ c.clock_room
      → max size udp_header_len + 64 ≡ room
      → length c.packets < 2 ^ 64
      → Returns c.opened
      → Returns c.hello
      → All (Ensures (λ q. IsOneOf ds q.bytes)) c.packets
      → Ensures (λ r. Delivered n len r.packets r.max_seq r.bytes) (run_udp_down F c duration size)
  unfolding run_udp_down into_report
  run_udp_down-Delivered c duration size v t e l o h a =
      let buf : List ℕ = replicate (max size udp_header_len) 0 in
      let long : 16 ≤ length buf =
        omega (arith, length-replicate {0} (max size udp_header_len) zero) in
      let short : max size udp_header_len ≤ c.vec_room = omega (arith, v) in
      Ensures-bind _ _ (Ensures-map_err proxy c.opened (Returns-Ensures c.opened o)) λ _ _.
        rw (fits-ok short, encode_udp_header-ok BenchError buf 0 0 long)
          (Ensures-bind _ _ (Ensures-map_err io c.hello (Returns-Ensures c.hello h)) λ _ _.
            rw (fits-ok v, fits-ok t, e)
              (Ensures-bind _ _
                (receive_down-Kept c.packets 0 none (default F) (default-Kept F len n) a)
                λ r g.
                  let k = Kept-Delivered F len n (0 + length c.packets) r.1 (omega arith) g in
                  Ensures-ok
                    (record { at_most = k.at_most; numbers = k.numbers; volume = k.volume })))
