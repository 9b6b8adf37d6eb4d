-- ===== src/Bench/Session/Cases.antt =====
-- A session with a request that the server does not know, and two sides that are sent nonsense.
use proxypen.Base.{◌-◌, ◌≤◌, ◌≡◌, [], ◌∷◌, ◌++◌, length, arith, ok, err}
use proxypen.Base.Decimal.{decimal}
use proxypen.Base.Bytes.{be_bytes}
use proxypen.Bench.Protocol.{TestRequest, write_handshake, write_request, write_response}
use proxypen.Bench.Protocol.RoundTrip.{RequestFits}
use proxypen.Bench.Server.{handle_session}
use proxypen.Bench.Client.{rejected}
use proxypen.Bench.Client.Control.{request_of, run_test}
use proxypen.Bench.Session.Samples.{trivial, options, server_addr, planes, client_planes, upload}
use proxypen.Bench.Session.Served.{conn}
use proxypen.Bench.Session.Refused.{refusal, unknown_kind, handle_session-run_test}

abbrev unknown : TestRequest
unknown = record {
  kind = 9;
  duration_ms = 1000;
  payload_size = 64;
  bandwidth_bps = 0;
  expected_packets = 0;
}

unknown-RequestFits : RequestFits unknown
unknown-RequestFits = record {
  kind = omega arith;
  duration_ms = omega arith;
  payload_size = omega arith;
  bandwidth_bps = omega arith;
  expected_packets = omega arith;
}

refusal-room : length (write_handshake ++ refusal 9) ≤ 1000
unfolding write_handshake write_response be_bytes decimal
refusal-room = omega arith

request-room : length (write_request (request_of options upload.plan)) ≤ 1000
unfolding write_request request_of be_bytes
request-room = omega arith

handle_session-run_test_example :
    (handle_session trivial planes
        (ok tt)
        (conn (write_handshake ++ (write_request unknown ++ (7 ∷ []))) [] 1000)
      ≡ (
        ok tt,
        conn (7 ∷ []) (write_handshake ++ refusal 9) (1000 - length (write_handshake ++ refusal 9)),
      ))
    × (run_test trivial options server_addr client_planes 0 upload.plan (conn (refusal 9) [] 1000)
        ≡ (
          err (rejected upload.plan (unknown_kind 9)),
          conn []
              ([] ++ write_request (request_of options upload.plan))
              (1000 - length (write_request (request_of options upload.plan))),
        ))
handle_session-run_test_example =
    handle_session-run_test trivial options server_addr planes client_planes unknown 0 upload.plan
      (7 ∷ []) [] 1000 unknown-RequestFits (omega arith) refusal-room request-room
