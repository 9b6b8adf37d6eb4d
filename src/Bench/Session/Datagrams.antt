-- ===== src/Bench/Session/Datagrams.antt =====
-- A UDP upload and a download of src/bench/client.rs and src/bench/server.rs: of the datagrams one comes twice, the others late or not
-- at all.
use proxypen.Bench.Session.Samples.{trivial}
use proxypen.Base.{
  ℕ, ◌^◌, ◌*◌, ◌≤◌, ◌≡◌, refl, arith, List, [], ◌∷◌, inl, inr, some, ok, err, Ensures, Ensures-ok,
  Ensures-err, replicate,
}
use proxypen.Base.Loop
use proxypen.Base.Bytes
use proxypen.Error.{broken_pipe}
use proxypen.Net.{SocketAddr, v4, same_socket}
use proxypen.Bench.Protocol.{TestRequest, encode_udp_header}
use proxypen.Bench.Pacer.{target_packets}
use proxypen.Bench.Pacer.Schedule.{Limits}
use proxypen.Bench.Stats.{u64}
use proxypen.Bench.Transfer.{done, Sender, send_loop}
use proxypen.Bench.Server.{DataPlane, datagram_size, duration_ns, send_down, udp_up_data}
use proxypen.Bench.Server.Received.{Arrives}
use proxypen.Bench.Client.{ClientPlane, fits}
use proxypen.Bench.Client.Data.{send_up, run_udp_down}
use proxypen.Bench.Session.Delivered.{send_up-udp_up_data, send_down-run_udp_down}

-- 16 bytes in a nanosecond
abbrev bandwidth : ℕ
bandwidth = 128_000_000_000

abbrev client_plane : ClientPlane
client_plane = record {
  opened = ok tt;
  reads = [];
  clock = λ k. k;
  writes = λ k. done 16;
  pacer_start = 0;
  hello = ok tt;
  packets = [];
  elapsed = 9;
  clock_room = 2 ^ 62;
  vec_room = 2 ^ 62;
}

abbrev request : TestRequest
request = record {
  kind = 2;
  duration_ms = 1;
  payload_size = 16;
  bandwidth_bps = bandwidth;
  expected_packets = 0;
}

abbrev first : List ℕ
first = replicate 16 0

-- Number 1, stamped 5
abbrev second : List ℕ
second = 0 ∷ 0 ∷ 0 ∷ 0 ∷ 0 ∷ 0 ∷ 0 ∷ 1 ∷ 0 ∷ 0 ∷ 0 ∷ 0 ∷ 0 ∷ 0 ∷ 0 ∷ 5 ∷ []

abbrev sender : Sender
sender = record {
  seq = 2;
  bytes = 32;
  sent = second ∷ first ∷ [];
  buf = second;
  readings = 6;
  due = some 3;
}

sent_up : send_up client_plane 6 16 bandwidth ≡ ok sender
unfolding send_up fits send_loop Loop.iterate encode_udp_header Bytes.be_bytes target_packets
sent_up = refl

abbrev peer : SocketAddr
peer = record { ip = v4 10 0 0 1; port = 9000 }

abbrev stranger : SocketAddr
stranger = record { ip = v4 10 0 0 2; port = 9000 }

-- The second datagram comes first, the first one twice, and one of another host between.
abbrev server_plane : DataPlane
server_plane = record {
  listen = ok 4000;
  accept = ok tt;
  reads = [];
  clock = λ k. k;
  writes = λ k. done 16;
  pacer_start = 0;
  hello = ok (record { came = 7; from = peer; bytes = second });
  packets =
      ok (record { came = 8; from = peer; bytes = first })
      ∷ ok (record { came = 8; from = stranger; bytes = [] })
      ∷ ok (record { came = 9; from = peer; bytes = first })
      ∷ [];
  elapsed = 12;
}

bandwidth-Limits :
    Limits (record { bandwidth_bps = bandwidth; packet_bytes = datagram_size request }) 0 6
bandwidth-Limits = record {
  bandwidth = omega arith;
  packet = omega arith;
  bytes = omega arith;
  time = omega arith;
  count = omega arith;
}

stranger-Arrives : Arrives sender.sent peer (ok (record { came = 8; from = stranger; bytes = [] }))
unfolding same_socket
stranger-Arrives = Ensures-ok (λ e. absurd (cc e))

send_up-udp_up_data_example :
    Ensures
      (λ server.
        (server.packets ≤ 2)
        × (server.max_seq ≤ 1)
        × (server.bytes ≡ u64 (server.packets * datagram_size request)))
      (udp_up_data trivial server_plane request)
send_up-udp_up_data_example =
    send_up-udp_up_data trivial client_plane server_plane 6 bandwidth sender request
      (λ k. omega arith) bandwidth-Limits sent_up (omega arith)
      (Ensures-ok (
        inl refl,
        (
          Ensures-ok (λ _. inr (inl refl)),
          (stranger-Arrives, (Ensures-ok (λ _. inr (inl refl)), tt)),
        ),
      ))

-- Five readings of the clock in a millisecond
abbrev download_plane : DataPlane
download_plane = record server_plane { clock = λ k. k * 200000 }

-- Number 0, stamped 600,000, and number 1, stamped 1,000,000
abbrev down_first : List ℕ
down_first = 0 ∷ 0 ∷ 0 ∷ 0 ∷ 0 ∷ 0 ∷ 0 ∷ 0 ∷ 0 ∷ 0 ∷ 0 ∷ 0 ∷ 0 ∷ 9 ∷ 39 ∷ 192 ∷ []

abbrev down_second : List ℕ
down_second = 0 ∷ 0 ∷ 0 ∷ 0 ∷ 0 ∷ 0 ∷ 0 ∷ 1 ∷ 0 ∷ 0 ∷ 0 ∷ 0 ∷ 0 ∷ 15 ∷ 66 ∷ 64 ∷ []

abbrev down_sender : Sender
down_sender = record {
  seq = 2;
  bytes = 32;
  sent = down_second ∷ down_first ∷ [];
  buf = down_second;
  readings = 6;
  due = some 200000;
}

sent_down : send_down download_plane request ≡ ok down_sender
unfolding send_down send_loop Loop.iterate encode_udp_header Bytes.be_bytes target_packets
sent_down = refl

-- The first datagram is lost, the second one comes twice, and the socket fails.
abbrev receiving_plane : ClientPlane
receiving_plane = record client_plane {
  packets =
      ok (record { at = 3; stamped = 4; bytes = down_second })
      ∷ ok (record { at = 5; stamped = 6; bytes = down_second })
      ∷ err broken_pipe
      ∷ [];
}

download-Limits :
    Limits
      (record { bandwidth_bps = bandwidth; packet_bytes = datagram_size request })
      0
      (duration_ns request)
download-Limits = record {
  bandwidth = omega arith;
  packet = omega arith;
  bytes = omega arith;
  time = omega arith;
  count = omega arith;
}

send_down-run_udp_down_example :
    Ensures
      (λ client.
        (client.packets ≤ 2)
        × (client.max_seq ≤ 1)
        × (client.bytes ≡ u64 (client.packets * datagram_size request)))
      (run_udp_down trivial receiving_plane 1_000_000 16)
send_down-run_udp_down_example =
    send_down-run_udp_down trivial receiving_plane download_plane down_sender request 1_000_000
      (λ k. omega arith) download-Limits sent_down (omega arith) (omega arith) (omega arith) tt tt
      (Ensures-ok (inl refl), (Ensures-ok (inl refl), (Ensures-err, tt)))
