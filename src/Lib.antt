-- ===== src/Lib.antt =====
-- proxypen measures a network path: it tests a target over HTTP, through a SOCKS5 proxy or directly,
-- and it measures throughput, loss and latency between a bench client and a bench server.
--
-- Parts and files. Paths are those of the repository.
-- * Base, Error, Stream, Listener, Net: what the parts share. Base.Flow has the outcome of a Rust call
--   (value, error, panic; `stuck` where a model's fuel runs out), indexing and slices that panic out
--   of range; Base.Loop a loop on fuel with the rule for its invariant; Base.Utf8 `from_utf8_lossy`;
--   Stream the readers of tokio; Stream.Conn a connection with its two directions; Listener the accept
--   loops; Net the addresses and parsers of std. Error is src/error.rs.
-- * Bench.Protocol is src/bench/protocol.rs: write_x and read_x are the methods write and read of the
--   type x. Bench.Pacer is src/bench/pacer.rs, Bench.Stats is src/bench/stats.rs (record_arrival is
--   `record`).
-- * Bench.Transfer has the data loops that src/bench/client.rs and src/bench/server.rs share,
--   Bench.Server the session of the server, Bench.Client the plans and the session of the client,
--   Bench.Session the two together, also in one process and over a network that loses, repeats and
--   reorders datagrams. Bench.Client.Report is what a run prints; the session itself gives the
--   outcomes, as run_quiet does.
-- * Dns is src/dns.rs, with the resolver over a transport in Dns.Resolve; UdpSocket is
--   src/udp_socket.rs, Config is src/config.rs, Direct is src/direct.rs, the platform being a field of
--   its system.
-- * Socks.Handshake, Socks.Connector and Socks.Associate are the files of src/socks, Transport is
--   src/transport.rs.
-- * Results is src/result.rs, with what the `test` functions share; Tls is src/tls.rs. Http1, Http2
--   and Http3 are src/http1.rs, src/http2.rs and src/http3.rs, ProxyPen is src/lib.rs, Press is
--   src/press.rs, HttpServer is src/http_server.rs, HttpServer.Listen its listeners for TLS and QUIC.
-- * Cli is src/main.rs: Cli.Args the flags and their parsers, Cli.Resolve the resolution of the
--   target, Cli.Commands, Cli.Press and Cli.Benchmark the commands, Cli.Main the choice of one;
--   Bench.Client.Bandwidth is the parser of the bandwidths in src/bench/client.rs.
--
-- How they interact: the client asks Transport for a connection or a datagram socket; Transport goes
-- to Socks, which uses the header of UdpSocket for datagrams, or to Direct; both get the target from
-- Config. A session runs on one connection: the client writes a request, the server opens a port and
-- answers, the data flow as in Transfer, and the two exchange reports, which Stats makes on the side
-- that receives. The HTTP tests get their connection from Transport, or HTTP/3 its socket from
-- Socks.Associate and UdpSocket or from Direct; ProxyPen runs them all, Press many of one
-- (Press.Report is its result as text), and Cli makes the transport and the target that they get.
-- Cli.Main has a press run and what the listeners of the HTTP server come to as arguments: the tasks
-- of the one interleave, and the errors of the others are dropped.
--
-- How code is modelled. A String and a byte buffer are the list of their bytes. Integers are natural
-- numbers with the wrap-around, the saturation or the panic of their type written out; counters of
-- bytes wrap as in a release build. What the operating system, the clock and the crates of other
-- authors answer is an argument: the readings of the clock in the order in which the code takes them,
-- the results of reads, writes and sends. A deadline that fires is the end of the list of reads. Where
-- the bench client adds to an Instant or makes a vector, Bench.Client.fits panics above what the
-- system has room for. shadowquic's message codec is the record Socks.Handshake.Codec, f64 is the
-- records Bench.Stats.Float64, Press.Milliseconds with Press.Report.Formats,
-- Bench.Client.Report.Figures and Bench.Client.Bandwidth.Decimals. The crates rustls, h2, quinn with
-- h3, and url are the records Tls.Connector, Http2.H2, Http3.Quic and Cli.Args.Url.
--
-- Fuel. Dns.skip_name takes the length of the buffer and one, which is enough, since the position
-- grows; Bench.Server.requests the length of the bytes received and one, since a round reads a request
-- of 25 bytes; the two sending loops twice the duration in nanoseconds and one, since their clock
-- moves on with each reading.
--
-- Not modelled: the certificate of the HTTP server (rcgen), the set-up of logging and of rustls, the
-- parsing of flags (clap), and InterfaceSpec::describe, which nothing calls.
pub mod Base
pub mod Error
pub mod Stream
pub mod Listener
pub mod Net
pub mod Dns
pub mod UdpSocket
pub mod Config
pub mod Direct
pub mod Bench
pub mod Socks
pub mod Transport
pub mod Results
pub mod Tls
pub mod Http1
pub mod Http2
pub mod Http3
pub mod ProxyPen
pub mod Press
pub mod HttpServer
pub mod Cli
