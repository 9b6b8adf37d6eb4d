-- ===== src/Dns.antt =====
-- src/dns.rs: the query for one A record and its response. The resolver over a transport stands in Resolve.
pub mod Skip
pub mod Safety
pub mod Names
pub mod Answers
pub mod RoundTrip
pub mod Resolve
mod Runs
use proxypen.Base.{
  ℕ, zero, suc, ◌+◌, ◌*◌, ◌%◌, ◌^◌, ◌≤◌, ◌<◌, List, [], ◌∷◌, ◌++◌, Bool, true, false, Option, none,
  some, ◌&&◌, length, take, ltb, leb, ◌==◌, if◌then◌else◌, Outcome, ok, err, panic, stuck, ◌>>=◌,
  ◌>>◌, index, bit_and, map_err, not,
}
use proxypen.Base.Bytes.{be_bytes, from_be}
use proxypen.Error.{ProxyPenError, invalid_config, io, IoError}
use proxypen.Net.{IpAddr, v4, SocketAddr, parse_ip, parse_socket}

abbrev pub default_dns_port : ℕ
default_dns_port = 53

abbrev pub max_label_len : ℕ
max_label_len = 63

abbrev pub max_name_len : ℕ
max_name_len = 255

abbrev pub DnsResult {ℓ} : Type ℓ → Type ℓ
DnsResult A = Outcome ProxyPenError A

pub record DnsConfig : Type 0 where
  pub server : SocketAddr

unfoldable pub parse_server : List ℕ → DnsResult SocketAddr
parse_server raw = elim (parse_socket raw) [
  | some sa ↦ ok sa
  | none ↦ elim (parse_ip raw) [
    | some ip ↦ ok (record { ip = ip; port = default_dns_port })
    | none ↦ err (invalid_config "DNS server must be an IP or IP:PORT")
  ]
]

-- `random_id`: the low 16 bits of the nanoseconds
unfoldable pub random_id : ℕ → ℕ
random_id subsec_nanos = subsec_nanos % 2 ^ 16

-- `str::split(c)`
unfoldable pub split : ℕ → List ℕ → List (List ℕ)
split c [] = [] ∷ []
split c (x ∷ s) = elim (split c s) [
  | [] ↦ (x ∷ []) ∷ []
  | label ∷ rest ↦ if x == c then [] ∷ label ∷ rest else (x ∷ label) ∷ rest
]

abbrev pub u16 : ℕ → List ℕ
u16 = be_bytes 2

-- The loop over the labels; `buf` is what is written so far.
unfoldable pub push_labels : List (List ℕ) → List ℕ → DnsResult (List ℕ)
push_labels [] buf = ok buf
push_labels (label ∷ labels) buf =
    let skipped = push_labels labels buf in
    let pushed = push_labels labels (buf ++ (length label % 256 ∷ label)) in
    if length label == 0
    then skipped
    else if ltb max_label_len (length label)
    then err (invalid_config "DNS label too long")
    else pushed

unfoldable pub encode_query : ℕ → List ℕ → DnsResult (List ℕ)
encode_query id hostname = do
  buf ←
      push_labels (split b'.' hostname)
        (u16 id ++ (u16 0x0100 ++ (u16 1 ++ (u16 0 ++ (u16 0 ++ u16 0)))))
  ok (buf ++ (0 ∷ (u16 1 ++ u16 1)))

-- `u16::from_be_bytes([buf[i], buf[i + 1]])`
unfoldable pub u16_at : List ℕ → ℕ → DnsResult ℕ
u16_at buf i = do a ← index buf i; b ← index buf (i + 1); ok (from_be 0 (a ∷ b ∷ []))

-- `skip_name`; a round moves `pos` forward, so that fuel above `buf.len() - pos` is enough.
unfoldable pub skip_name : ℕ → List ℕ → ℕ → DnsResult ℕ
skip_name zero buf pos = stuck
skip_name (suc fuel) buf pos =
    if leb (length buf) pos then err (invalid_config "DNS name truncated") else (do
      len ← index buf pos
      let next = skip_name fuel buf (pos + (1 + len))
      if len == 0
          then ok (pos + 1)
          else if bit_and len 0xC0 == 0xC0
          then (if leb (length buf) (pos + 1)
              then err (invalid_config "DNS name pointer truncated")
              else ok (pos + 2))
          else next)

abbrev pub name_end : List ℕ → ℕ → DnsResult ℕ
name_end buf pos = skip_name (suc (length buf)) buf pos

-- The loop over the questions.
unfoldable pub skip_questions : ℕ → List ℕ → ℕ → DnsResult ℕ
skip_questions zero buf pos = ok pos
skip_questions (suc qd) buf pos = do
  pos' ← name_end buf pos
  if ltb (length buf) (pos' + 4)
      then err (invalid_config "DNS question truncated")
      else skip_questions qd buf (pos' + 4)

four_bytes : List ℕ → ℕ → DnsResult IpAddr
four_bytes buf pos = do
  a ← index buf pos
  b ← index buf (pos + 1)
  c ← index buf (pos + 2)
  d ← index buf (pos + 3)
  ok (v4 a b c d)

-- The loop over the answers: the first A record with four bytes is the result.
unfoldable pub scan_answers : ℕ → List ℕ → ℕ → DnsResult IpAddr
unfolding four_bytes
scan_answers zero buf pos = err (invalid_config "DNS response had no A record")
scan_answers (suc an) buf pos = do
  start ← name_end buf pos
  if ltb (length buf) (start + 10) then err (invalid_config "DNS answer header truncated") else do
    rtype ← u16_at buf start
    rdlength ← u16_at buf (start + 8)
    let rest = scan_answers an buf (start + 10 + rdlength)
    if ltb (length buf) (start + 10 + rdlength)
        then err (invalid_config "DNS rdata truncated")
        else if rtype == 1 && rdlength == 4
        then four_bytes buf (start + 10)
        else rest

unfoldable pub decode_a_response : ℕ → List ℕ → DnsResult IpAddr
decode_a_response expected_id buf =
    if ltb (length buf) 12 then err (invalid_config "DNS response too short") else do
      id ← u16_at buf 0
      if not (id == expected_id) then err (invalid_config "DNS response ID mismatch") else do
        flags ← u16_at buf 2
        if not (bit_and flags 0x000F == 0)
            then err (invalid_config "DNS server returned RCODE")
            else do
              qd ← u16_at buf 4
              an ← u16_at buf 6
              if an == 0
                  then err (invalid_config "DNS response contains no answers")
                  else do pos ← skip_questions qd buf 12; scan_answers an buf pos
