-- ===== src/Cli/Samples.antt =====
-- A URL and the bandwidths of a command line: test data.
use proxypen.Base.{◌*◌, ℕ, [], none, some, codes, ok}
use proxypen.Cli.Args.{Url, UrlParser}
use proxypen.Bench.Client.Bandwidth.{Decimals}
use proxypen.Base.Decimal.{parse_u16}

abbrev pub loopback : Url
loopback = record {
  scheme = codes "https";
  username = [];
  password = none;
  host_str = some (codes "[::1]");
  port = none;
  path = codes "/";
}

abbrev pub parse_url : UrlParser
parse_url s = ok loopback

abbrev pub decimals : Decimals
decimals = record { Carrier = ℕ; parse = parse_u16; scaled = λ n m. n * m }
