-- ===== src/Cli/Args/Ends.antt =====
-- The parsers of src/main.rs come back where the url crate does.
use proxypen.Base.{
  Any, ℕ, List, Bool, Option, none, some, inl, inr, Option-cases, Outcome, map_err, ok_or, Returns,
  Ensures, Ensures-ok, Ensures-err, Ensures-bind, Ensures-map_err, Ensures-ok_or, Returns-Ensures,
}
use proxypen.Base.Decimal.{parse_u16}
use proxypen.Error.{IoError}
use proxypen.Net.{SocketAddr, parse_ip, parse_socket}
use proxypen.Config.{TestTarget, resolve_local}
use proxypen.Dns.{parse_server}
use proxypen.Cli.Args.{
  split_host_port, rsplit_once, message, url, pen, TransportArgs, choose_transport, parse_proxy_url,
  build, build_dns, parse_target_url, UrlParser,
}

parse_proxy_url-Ensures :
    (parse : UrlParser) (raw : List ℕ)
    → ((s : List ℕ) → Returns (parse s))
    → Ensures (λ _. Unit {0}) (parse_proxy_url parse raw)
unfolding parse_proxy_url
parse_proxy_url-Ensures parse raw h =
    Ensures-bind (map_err url (parse _)) _ (Ensures-map_err url _ (Returns-Ensures _ (h _))) λ u _.
      Ensures-bind (ok_or u.host_str (message "proxy URL missing host")) _ (Ensures-ok_or _ _)
        λ host _. Ensures-ok tt

pub parse_target_url-Ensures :
    (parse : UrlParser) (raw : List ℕ) (insecure : Bool)
    → Returns (parse raw)
    → Ensures (λ _. Unit {0}) (parse_target_url parse raw insecure)
unfolding parse_target_url
parse_target_url-Ensures parse raw insecure h =
    Ensures-bind (map_err url (parse raw)) _ (Ensures-map_err url _ (Returns-Ensures _ h)) λ u _.
      Ensures-bind (ok_or u.host_str (message "target URL missing host")) _ (Ensures-ok_or _ _)
        λ host _. Ensures-ok tt

choose_transport-Ensures :
    (parse : UrlParser) (proxy iface : Option (List ℕ))
    → ((s : List ℕ) → Returns (parse s))
    → Ensures (λ _. Unit {0}) (choose_transport parse proxy iface)
unfolding choose_transport
choose_transport-Ensures parse (some proxy) (some iface) h = Ensures-err
choose_transport-Ensures parse (some proxy) none h =
    Ensures-bind (parse_proxy_url parse proxy) _ (parse_proxy_url-Ensures parse proxy h)
      λ c _. Ensures-ok tt
choose_transport-Ensures parse none iface h = Ensures-ok tt

parse_server-Ensures : (s : List ℕ) → Ensures (λ _. Unit {0}) (parse_server s)
unfolding parse_server
parse_server-Ensures s = elim (Option-cases (parse_socket s)) [
  | inr (a, e) ↦ rw (e, parse_server) (Ensures-ok tt)
  | inl e ↦ elim (Option-cases (parse_ip s)) [
    | inr (ip, f) ↦ rw (e, f, parse_server) (Ensures-ok tt)
    | inl f ↦ rw (e, f, parse_server) Ensures-err
  ]
]

pub build_dns-Ensures : (args : TransportArgs) → Ensures (λ _. Unit {0}) (build_dns args)
unfolding build_dns
build_dns-Ensures args = elim (Option-cases args.dns_server) [
  | inl e ↦ rw (e, build_dns) (Ensures-ok tt)
  | inr (s, e) ↦
      rw (e, build_dns)
        (Ensures-bind (map_err pen (parse_server s)) _
          (Ensures-map_err pen _ (parse_server-Ensures s)) λ server _. Ensures-ok tt)
]

pub build-Ensures :
    (parse : UrlParser) (args : TransportArgs)
    → ((s : List ℕ) → Returns (parse s))
    → Ensures (λ _. Unit {0}) (build parse args)
unfolding build
build-Ensures parse args h = choose_transport-Ensures parse args.proxy args.interface h

pub resolve_local-Ensures :
    (lookup_host : List ℕ → Outcome IoError (List SocketAddr)) (t : TestTarget)
    → ((s : List ℕ) → Returns (lookup_host s))
    → Ensures (λ _. Unit {0}) (resolve_local lookup_host t)
unfolding resolve_local
resolve_local-Ensures lookup_host t h = elim (Option-cases (parse_ip t.host)) [
  | inr (ip, f) ↦ rw (f, resolve_local) (Ensures-ok tt)
  | inl f ↦
      rw (f, resolve_local)
        (Ensures-bind (lookup_host _) _ (Returns-Ensures _ (h _)) λ found _. Ensures-ok tt)
]

pub split_host_port-Any : (raw : List ℕ) → Ensures Any (split_host_port raw)
unfolding split_host_port
split_host_port-Any raw =
    Ensures-bind (ok_or (rsplit_once b':' raw) (message "expected HOST:PORT")) _ (Ensures-ok_or _ _)
      λ hp _.
        Ensures-bind (ok_or (parse_u16 (hp.1)) (message "invalid port")) _ (Ensures-ok_or _ _)
          λ p _. Ensures-ok tt
