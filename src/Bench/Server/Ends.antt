-- ===== src/Bench/Server/Ends.antt =====
-- A session of src/bench/server.rs ends, whatever the client sends.
use proxypen.Base.{
  Any, ℕ, zero, suc, ◌<◌, ◌≤◌, length, length-drop, ltb, ◌==◌, arith, tests, Bool-cases, inl, inr,
  Outcome, Ensures, Ensures-ok, Ensures-err, Ensures-mono, Ensures-Returns, Returns,
}
use proxypen.Error.{IoError}
use proxypen.Stream.Takes.{Shrinks-Takes}
use proxypen.Stream.Within.{
  Within, next-Ensures, next-Within, if-Within, write_all-Within, lift-Within, recv-Within,
}
use proxypen.Stream.Conn.{Conn, Exec, next, recv, write_all, lift}
use proxypen.Bench.Protocol.{
  kind_close, kind_tcp_up, kind_tcp_down, kind_udp_up, kind_udp_down, TestRequest, TestReport,
  read_handshake, read_request, read_report, response_ok, write_response, write_report,
  write_handshake,
}
use proxypen.Bench.Protocol.Refusals.{read_handshake-Shrinks, read_request-Takes, read_report-Takes}
use proxypen.Bench.Stats.{Float64}
use proxypen.Bench.Server.{
  DataPlane, io_session, send_report, open_port, exchange, run_tcp_up, run_tcp_down, run_udp_up,
  run_udp_down, dispatch, requests, handle_session,
}
use proxypen.Bench.Server.Data.{
  Answers, tcp_up_data-Any, tcp_down_data-Any, udp_up_data-Any, udp_down_data-Any,
}

-- A request takes 25 bytes.
recv-request :
    (n : ℕ) (c : Conn)
    → length c.inbox < suc n
    → Ensures
        (λ _. length ((recv io_session read_request c).1.inbox) < n)
        ((recv io_session read_request c).0)
unfolding recv
recv-request n c h = elim (Bool-cases (ltb (length c.inbox) 25)) [
  | inl e ↦ rw (read_request-Takes.short c.inbox (omega tests)) Ensures-err
  | inr e ↦
      let (a, q) = read_request-Takes.long c.inbox (omega tests) in
      rw q (Ensures-ok (omega (tests, length-drop {0} 25 c.inbox)))
]

exchange-Within :
    (d : DataPlane) (run : Outcome IoError TestReport) (n : ℕ) (c : Conn)
    → Ensures Any d.listen
    → Ensures Any run
    → length c.inbox ≤ n
    → Within n (exchange d run c)
unfolding exchange open_port send_report
exchange-Within d run n c l r h =
    next-Within n n _ (open_port d c)
      (next-Within n n _ (lift d.listen c) (lift-Within d.listen n c l h)
        λ port c'. write_all-Within io_session (write_response (response_ok port)) n c')
      λ _ c1 h1. next-Within n n _ (lift run c1) (lift-Within run n c1 r h1) λ report c2 h2.
        next-Within n n _ (write_all io_session (write_report report) c2)
          (write_all-Within io_session (write_report report) n c2 h2)
          λ _ c3 h3.
            next-Within n n _ (recv io_session read_report c3)
              (recv-Within io_session n read_report c3 (Shrinks-Takes 80 _ read_report-Takes) h3)
              λ _ c4 h4. Ensures-ok h4

module _ (F : Float64) (planes : ℕ → DataPlane) (answers : (i : ℕ) → Answers (planes i)) where
  dispatch-Within :
      (i : ℕ) (req : TestRequest) (more : Exec IoError (Unit {0})) (n : ℕ) (c : Conn)
      → length c.inbox ≤ n
      → ((c' : Conn) → length c'.inbox ≤ n → Within n (more c'))
      → Within n (dispatch F planes i req more c)
  unfolding dispatch run_tcp_up run_tcp_down run_udp_up run_udp_down
  dispatch-Within i req more n c h k =
      let d = planes i in
      let a = answers i in
      let test : (run : Outcome IoError TestReport)
          → Ensures Any run
          → Within n (next (λ _. more) (exchange d run c)) =
        λ run r.
          next-Within n n _ (exchange d run c) (exchange-Within d run n c a.listen r h) λ _. k in
      if-Within (req.kind == kind_close) _ _ n c (Ensures-ok h) (
        if-Within (req.kind == kind_tcp_up) _ _ n c (test _ (tcp_up_data-Any d a req)) (
          if-Within (req.kind == kind_tcp_down) _ _ n c (test _ (tcp_down_data-Any d a req)) (
            if-Within (req.kind == kind_udp_up) _ _ n c (test _ (udp_up_data-Any F d a req)) (
              if-Within (req.kind == kind_udp_down) _ _ n c (test _ (udp_down_data-Any d a req))
                (write_all-Within io_session _ n c h)))))

  requests-Within :
      (fuel i n : ℕ) (c : Conn)
      → length c.inbox ≤ n
      → n < fuel
      → Within n (requests F planes fuel i c)
  unfolding requests
  requests-Within zero i n c h l = absurd (omega arith)
  requests-Within (suc fuel) i n c h l =
      next-Ensures (λ c'. length c'.inbox < length c.inbox) n _ (recv io_session read_request c)
        (recv-request (length c.inbox) c (omega arith))
        λ req c' h'.
          Ensures-mono _ (λ _ k. omega arith)
            (dispatch-Within i req (requests F planes fuel (suc i)) (length c'.inbox) c'
              (omega arith)
              λ c'' h''. requests-Within fuel (suc i) (length c'.inbox) c'' h'' (omega arith))

  -- Whatever the client sends, and wherever the connection breaks: if the system's calls come back and its clock moves
  -- on with each reading, then a session comes back, with or without an error; every loop in it ends.
  pub handle_session-Returns :
      (set_nodelay : Outcome IoError (Unit {0})) (c : Conn)
      → Ensures Any set_nodelay
      → Returns ((handle_session F planes set_nodelay c).0)
  unfolding handle_session
  handle_session-Returns set_nodelay c h =
      let n = length c.inbox in
      Ensures-Returns _ (
        next-Within n n _ (lift set_nodelay c) (lift-Within set_nodelay n c h (omega arith))
          λ _ c1 h1.
            next-Within n n _ (recv io_session read_handshake c1)
              (recv-Within io_session n read_handshake c1 read_handshake-Shrinks h1)
              λ _ c2 h2.
                next-Within n n _ (write_all io_session write_handshake c2)
                  (write_all-Within io_session write_handshake n c2 h2)
                  λ _ c3 h3.
                    Ensures-mono _ (λ _ l. omega arith)
                      (requests-Within (suc (length c3.inbox)) 0 (length c3.inbox) c3 (omega arith)
                        (omega arith)))
