-- ===== src/Dns/Runs.antt =====
-- src/dns.rs on a query for example.com, and over a proxy.
use proxypen.Base.{
  ℕ, ◌≡◌, ◌++◌, refl, List, [], ◌∷◌, arith, codes, ok, err, some, length, ◌≤◌, Returns,
}
use proxypen.Base.Flow
use proxypen.Base.Bytes
use proxypen.Error.{invalid_config}
use proxypen.Net.{v4, parse_socket, parse_ip}
use proxypen.Dns.{
  DnsConfig, random_id, encode_query, decode_a_response, split, push_labels, u16_at, skip_questions,
  parse_server,
}
use proxypen.Dns.Answers.{Answer, AnswerFits, IsAddress}
use proxypen.Dns.Safety.{decode_a_response-Returns}
use proxypen.Dns.RoundTrip.{short_labels, encode_query_cases, query_header, reply}
use proxypen.Dns.RoundTrip
use proxypen.Dns.Answers
use proxypen.Dns.Resolve.{Wire, resolve_a}
use proxypen.Dns.Resolve.Answered.{Carries, resolve_a-reply}
use proxypen.UdpSocket
use proxypen.UdpSocket.RoundTrip.{header_bytes, addr_bytes}
use proxypen.Socks.Samples.{codec, addrs, dialer, net, os, config, association, associated}
use proxypen.Transport.{socks5, TransportUdpSocket, socks5_udp, open_udp, send}

abbrev name : List ℕ
name = codes "example.com"

abbrev query : List ℕ
query =
    0x12 ∷ 0x34 ∷ 1 ∷ 0 ∷ 0 ∷ 1 ∷ 0 ∷ 0 ∷ 0 ∷ 0 ∷ 0 ∷ 0 ∷ 7 ∷ b'e' ∷ b'x' ∷ b'a' ∷ b'm' ∷ b'p'
    ∷ b'l' ∷ b'e' ∷ 3 ∷ b'c' ∷ b'o' ∷ b'm' ∷ 0 ∷ 0 ∷ 1 ∷ 0 ∷ 1 ∷ []

encoded : encode_query 0x1234 name ≡ ok query
unfolding encode_query push_labels split Bytes.be_bytes
encoded = refl

-- A CNAME, and an A record of 93.184.216.34.
abbrev alias : Answer
alias = record {
  pointer_high = 0xC0;
  pointer_low = 12;
  rtype = 5;
  class_high = 0;
  class_low = 1;
  ttl = 60;
  rdata = 1 ∷ b'w' ∷ 0 ∷ [];
}

abbrev address : Answer
address = record {
  pointer_high = 0xC0;
  pointer_low = 12;
  rtype = 1;
  class_high = 0;
  class_low = 1;
  ttl = 60;
  rdata = 93 ∷ 184 ∷ 216 ∷ 34 ∷ [];
}

alias-AnswerFits : AnswerFits alias
alias-AnswerFits = record {
  pointer = omega arith;
  byte = omega arith;
  rtype = omega arith;
  rdata = omega arith;
}

address-AnswerFits : AnswerFits address
address-AnswerFits = record {
  pointer = omega arith;
  byte = omega arith;
  rtype = omega arith;
  rdata = omega arith;
}

alias-other : ¬ (IsAddress alias)
alias-other h = omega (arith, h.0)

abbrev server : DnsConfig
server = record { server = record { ip = v4 9 9 9 9; port = 53 } }

-- The header of the datagrams, with what the codec makes of the server's address
abbrev header : List ℕ
header = 0 ∷ 0 ∷ 0 ∷ 1 ∷ 10 ∷ 0 ∷ 0 ∷ 7 ∷ 0 ∷ 53 ∷ []

abbrev response : List ℕ
response = reply 0x1234 0x8180 2 (0 ∷ 0 ∷ 0 ∷ 0 ∷ []) query (alias ∷ []) address []

abbrev wire : Wire
wire = record {
  sent = λ datagram. ok tt;
  received = λ datagram. some (ok (header ++ response));
  subsec_nanos = 0x1234;
}

abbrev relayed : TransportUdpSocket
relayed = socks5_udp association (addrs.from_socket server.server)

opened : open_udp codec addrs dialer net os (socks5 config) server.server ≡ ok relayed
unfolding open_udp
opened = rw associated refl

sent : send relayed query ≡ ok (header ++ query)
unfolding send UdpSocket.encode_socks5_udp_header UdpSocket.encode_addr
sent = refl

carried : Carries relayed response (header ++ response)
unfolding Carries header_bytes addr_bytes
carried = (addrs.from_socket server.server, (refl, omega arith), omega arith, refl)

fits : length response ≤ 1500
unfolding reply Bytes.be_bytes RoundTrip.answers_bytes Answers.answer_bytes
fits = omega arith

resolve_a-reply_example :
    resolve_a codec addrs dialer net os wire (socks5 config) server name ≡ ok (v4 93 184 216 34)
unfolding random_id
resolve_a-reply_example =
    resolve_a-reply codec addrs dialer net os wire (socks5 config) server name query
      (header ++ query) (header ++ response) relayed 0x8180 2 0 0 0 0 93 184 216 34 (alias ∷ [])
      address [] (omega arith) opened encoded sent refl refl carried fits (omega arith) refl
      (omega arith) (omega arith) ((alias-AnswerFits, alias-other), tt) address-AnswerFits refl refl

decode_a_response-Returns_example : Returns (decode_a_response 0x1234 query)
decode_a_response-Returns_example = decode_a_response-Returns 0x1234 query

no_answers :
    decode_a_response 0x1234 query ≡ err (invalid_config "DNS response contains no answers")
unfolding decode_a_response u16_at Flow.index Bytes.from_be skip_questions
no_answers = refl

server_without_port : parse_server (codes "1.1.1.1") ≡ ok (record { ip = v4 1 1 1 1; port = 53 })
unfolding parse_server parse_socket parse_ip
server_without_port = refl
