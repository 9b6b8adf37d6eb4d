-- ===== src/Net.antt =====
-- `std::net`: addresses, and the parsers behind `str::parse::<IpAddr>` and `parse::<SocketAddr>`.
-- A `str` is the list of its bytes. Flow labels and scope ids are read and dropped.
pub mod Brackets
mod Runs
use proxypen.Base.{
  ℕ, zero, suc, ◌+◌, ◌-◌, ◌*◌, ◌/◌, ◌%◌, List, [], ◌∷◌, ◌++◌, Bool, true, false, Option, none, some,
  ◌&&◌, ◌||◌, not, ltb, leb, ◌==◌, if◌then◌else◌, length, replicate, flat_map,
}
use mathlib.Core.Option

pub data IpAddr : Type 0 where
  v4 : ℕ → ℕ → ℕ → ℕ → IpAddr
  -- the eight segments
  v6 : List ℕ → IpAddr

pub record SocketAddr : Type 0 where
  pub ip : IpAddr
  pub port : ℕ

unfoldable pub is_ipv6 : SocketAddr → Bool
is_ipv6 a = elim a.ip [ v4 _ _ _ _ ↦ false | v6 _ ↦ true ]

same_segments : List ℕ → List ℕ → Bool
same_segments [] [] = true
same_segments (x ∷ xs) (y ∷ ys) = x == y && same_segments xs ys
same_segments _ _ = false

same_ip : IpAddr → IpAddr → Bool
unfolding same_segments
same_ip (v4 a b c d) (v4 e f g h) = a == e && b == f && c == g && d == h
same_ip (v6 xs) (v6 ys) = same_segments xs ys
same_ip _ _ = false

-- `==` of two socket addresses
unfoldable pub same_socket : SocketAddr → SocketAddr → Bool
unfolding same_ip
same_socket a b = same_ip a.ip b.ip && a.port == b.port

abbrev Parser : Type 0 → Type 0
Parser A = List ℕ → Option (A × List ℕ)

infixl 5 ◌>>=◌ ◌>>◌
abbrev ◌>>=◌ : {A B : Type 0} → Parser A → (A → Parser B) → Parser B
◌>>=◌ m f s = elim (m s) [ none ↦ none | some (a, rest) ↦ f a rest ]

abbrev ◌>>◌ : {B : Type 0} → Parser (Unit {0}) → Parser B → Parser B
m >> k = m >>= λ _. k

abbrev pure : {A : Type 0} → A → Parser A
pure a s = some (a, s)

or_else : {A : Type 0} → Parser A → Parser A → Parser A
or_else m n s = elim (m s) [ none ↦ n s | some p ↦ some p ]

given_char : ℕ → Parser (Unit {0})
given_char c [] = none
given_char c (x ∷ s) = if x == c then some (tt, s) else none

-- `char::to_digit`
to_digit : ℕ → ℕ → Option ℕ
to_digit radix c =
    let d =
      if leb b'0' c && leb c b'9'
      then c - b'0'
      else if leb b'a' c && leb c b'f'
      then c - b'a' + 10
      else if leb b'A' c && leb c b'F'
      then c - b'A' + 10
      else 99 in
    if ltb d radix then some d else none

-- The run of digits at the front: its value, its length, what follows.
digit_run : ℕ → ℕ → ℕ → List ℕ → ℕ × ℕ × List ℕ
unfolding to_digit
digit_run radix value count [] = (value, count, [])
digit_run radix value count (c ∷ s) = elim (to_digit radix c) [
  | none ↦ (value, count, c ∷ s)
  | some d ↦ digit_run radix (value * radix + d) (count + 1) s
]

starts_with_zero : List ℕ → Bool
starts_with_zero [] = false
starts_with_zero (c ∷ s) = c == b'0'

-- `read_number` into a type whose greatest value is `limit`
read_number : ℕ → Option ℕ → Bool → ℕ → Parser ℕ
unfolding digit_run starts_with_zero
read_number radix max_digits zero_prefix limit s =
    let (value, count, rest) = digit_run radix 0 0 s in
    let long : Bool = elim max_digits [ none ↦ false | some m ↦ ltb m count ] in
    if long
      || count == 0
      || (not zero_prefix && starts_with_zero s && ltb 1 count)
      || ltb limit value
    then none
    else some (value, rest)

octet : Parser ℕ
unfolding read_number
octet = read_number 10 (some 3) false 255

read_ipv4 : Parser (ℕ × ℕ × ℕ × ℕ)
unfolding octet given_char
read_ipv4 = do
  a ← octet
  given_char b'.'
  b ← octet
  given_char b'.'
  c ← octet
  given_char b'.'
  d ← octet
  pure (a, b, c, d)

-- `read_separator(':', i, p)`
separated : {A : Type 0} → ℕ → Parser A → Parser A
separated zero p = p
separated (suc i) p = given_char b':' >> p

-- `read_groups` with room for `n` groups, `i` of which are read
read_groups : ℕ → ℕ → List ℕ → List ℕ × Bool × List ℕ
unfolding separated read_ipv4
read_groups zero i s = ([], false, s)
read_groups (suc n) i s =
    let more : List ℕ × Bool × List ℕ = elim (separated i (read_number 16 (some 4) true 65535) s) [
      | none ↦ ([], false, s)
      | some (g, rest) ↦
          let (gs, is_v4, rest') = read_groups n (suc i) rest in (g ∷ gs, is_v4, rest')
    ] in
    if n == 0 then more else elim (separated i read_ipv4 s) [
      | none ↦ more
      | some ((a, b, c, d), rest) ↦ ((a * 256 + b) ∷ (c * 256 + d) ∷ [], true, rest)
    ]

read_ipv6 : Parser (List ℕ)
unfolding read_groups
read_ipv6 s =
    let (head, head_v4, rest) = read_groups 8 0 s in
    if length head == 8
    then some (head, rest)
    else if head_v4
    then none
    else (do
      given_char b':'
      given_char b':'
      λ s'.
          let (tail, tail_v4, rest') = read_groups (8 - (length head + 1)) 0 s' in
          some (head ++ (replicate (8 - length head - length tail) 0 ++ tail), rest'))
        rest

read_ip : Parser IpAddr
unfolding or_else read_ipv6
read_ip = or_else (do (a, b, c, d) ← read_ipv4; pure (v4 a b c d)) (do gs ← read_ipv6; pure (v6 gs))

read_port : Parser ℕ
read_port = do given_char b':'; read_number 10 none true 65535

read_scope_id : Parser (Unit {0})
read_scope_id =
    or_else (do given_char b'%'; n ← read_number 10 none true 4294967295; pure tt) (pure tt)

read_socket : Parser SocketAddr
unfolding read_ip read_port read_scope_id
read_socket =
    or_else
      (do
        (a, b, c, d) ← read_ipv4
        port ← read_port
        pure (record { ip = v4 a b c d; port = port }))
      (do
        given_char b'['
        gs ← read_ipv6
        read_scope_id
        given_char b']'
        port ← read_port
        pure (record { ip = v6 gs; port = port }))

-- The whole text must be used up.
all_of : {A : Type 0} → Parser A → List ℕ → Option A
all_of p s = elim (p s) [ none ↦ none | some (a, rest) ↦ elim rest [ [] ↦ some a | _ ∷ _ ↦ none ] ]

unfoldable pub parse_ip : List ℕ → Option IpAddr
unfolding all_of read_ip
parse_ip = all_of read_ip

unfoldable pub parse_socket : List ℕ → Option SocketAddr
unfolding all_of read_socket
parse_socket = all_of read_socket
