-- ===== src/Direct/Sockets.antt =====
-- The sockets that src/direct.rs makes, whatever the operating system answers.
use proxypen.Base.{
  not, ◌==◌, Ensures-err, Ensures-if, Ensures-mono, Ensures-err, not, String, Ensures-if, ℕ, List,
  [], ◌∷◌, ◌≡◌, refl, sym, Bool, true, false, Option, none, some, Outcome, ◌>>◌, map_err, Ensures,
  Ensures-ok, Ensures-bind, Ensures-map_err,
}
use proxypen.Error.{IoError, ProxyPenError, io}
use proxypen.Net.{IpAddr, SocketAddr, parse_socket}
use proxypen.Direct.{
  Platform, linux, apple, unix, other, is_c_string, bind_by_index, bind_device_name, bind_source,
  is_c_string, bind_source, bind_device_name, bind_by_index, Platform, linux, apple, unix, other,
  InterfaceSpec, name, address, Socket, System, Call, create, bind, fresh, bind_udp, bind_by_name,
  bind_wildcard, build_udp_socket, wildcard_addr,
}

-- A call that comes back, if every call does.
abbrev pub Answers : System → Type 0
Answers os = (c : Call) → Ensures (λ _. Unit {0}) (os.call c)

-- The address that a UDP socket is bound to: the chosen one, or any, at a port that the system picks.
unfoldable pub local_addr : Bool → Option InterfaceSpec → SocketAddr
local_addr v6 (some (address ip)) = record { ip = ip; port = 0 }
local_addr true (some (name n)) = record {
  ip = proxypen.Net.v6 (0 ∷ 0 ∷ 0 ∷ 0 ∷ 0 ∷ 0 ∷ 0 ∷ 0 ∷ []);
  port = 0;
}
local_addr false (some (name n)) = record { ip = proxypen.Net.v4 0 0 0 0; port = 0 }
local_addr true none = record {
  ip = proxypen.Net.v6 (0 ∷ 0 ∷ 0 ∷ 0 ∷ 0 ∷ 0 ∷ 0 ∷ 0 ∷ []);
  port = 0;
}
local_addr false none = record { ip = proxypen.Net.v4 0 0 0 0; port = 0 }

unfoldable pub device_of : Option InterfaceSpec → Option (List ℕ)
device_of none = none
device_of (some (address ip)) = none
device_of (some (name n)) = some n

-- What a UDP socket is for a target of a family and an interface.
pub record IsUdpFor (v6 : Bool) (iface : Option InterfaceSpec) (s : Socket) : Type 0 where
  pub family : s.ipv6 ≡ v6
  pub datagrams : s.datagrams ≡ true
  pub bound : s.bound ≡ some (local_addr v6 iface)
  pub device : s.device ≡ device_of iface
  pub nonblocking : s.nonblocking ≡ true
  pub unconnected : s.peer ≡ none

-- Where a socket can be bound to a device by its name
unfoldable pub names_devices : Platform → Bool
names_devices p = elim p [ linux ↦ true | apple ↦ true | unix ↦ false | other ↦ false ]

module _ (os : System) (answers : Answers os) where
  -- A call of the system, its error turned into one of the library, and then the rest.
  pub after_call :
      {A : Type 0} {P : A → Type 0} (f : IoError → ProxyPenError) (c : Call)
      (k : Outcome ProxyPenError A)
      → Ensures P k
      → Ensures P (map_err f (os.call c) >> k)
  after_call f c k h = Ensures-bind _ _ (Ensures-map_err f (os.call c) (answers c)) λ _ _. h

  bind_wildcard-Ensures :
      (s : Socket) (v6 : Bool)
      → Ensures (λ r. r ≡ record s { bound = some (local_addr v6 none) }) (bind_wildcard os s v6)
  unfolding bind_wildcard wildcard_addr local_addr parse_socket
  bind_wildcard-Ensures s true = after_call io (bind (local_addr true none)) _ (Ensures-ok refl)
  bind_wildcard-Ensures s false = after_call io (bind (local_addr false none)) _ (Ensures-ok refl)

  wildcard_named : (v6 : Bool) (n : List ℕ) → local_addr v6 none ≡ local_addr v6 (some (name n))
  unfolding local_addr
  wildcard_named true n = refl
  wildcard_named false n = refl

  bind_by_index-Ensures :
      (s : Socket) (n : List ℕ) (v6 : Bool)
      → Ensures (λ r. r ≡ record s { device = some n }) (bind_by_index os s n v6)
  unfolding bind_by_index
  bind_by_index-Ensures s n v6 =
      Ensures-if (not (is_c_string n)) _ _ (λ _. Ensures-err)
        λ _.
          Ensures-if (os.if_nametoindex n == 0) _ _ (λ _. Ensures-err)
            λ _.
              after_call _ (Call.bind_device_by_index v6 (os.if_nametoindex n)) _ (Ensures-ok refl)

  bind_device_name-Ensures :
      (s : Socket) (n : List ℕ)
      → Ensures (λ r. r ≡ record s { device = some n }) (bind_device_name os s n)
  unfolding bind_device_name
  bind_device_name-Ensures s n = after_call _ (Call.bind_device n) _ (Ensures-ok refl)

  Named : Platform → List ℕ → Socket → Outcome ProxyPenError Socket → Type 0
  Named p n s = Ensures (λ r. (r ≡ record s { device = some n }) × (names_devices p ≡ true))

  bind_by_name-on :
      (s : Socket) (n : List ℕ) (v6 : Bool) (p : Platform)
      → os.platform ≡ p
      → Named os.platform n s (bind_by_name os s n v6)
  unfolding Named bind_by_name names_devices
  bind_by_name-on s n v6 linux e =
      rw e (Ensures-mono _ (λ r h. (h, refl)) (bind_device_name-Ensures s n))
  bind_by_name-on s n v6 apple e =
      rw e (Ensures-mono _ (λ r h. (h, refl)) (bind_by_index-Ensures s n v6))
  bind_by_name-on s n v6 unix e = rw e Ensures-err
  bind_by_name-on s n v6 other e = rw e Ensures-err

  pub bind_by_name-Ensures :
      (s : Socket) (n : List ℕ) (v6 : Bool)
      → Ensures
          (λ r. (r ≡ record s { device = some n }) × (names_devices os.platform ≡ true))
          (bind_by_name os s n v6)
  unfolding Named
  bind_by_name-Ensures s n v6 = bind_by_name-on s n v6 os.platform refl

  pub bind_source-Ensures :
      (s : Socket) (ip : IpAddr) (message : String)
      → Ensures
          (λ r. r ≡ record s { bound = some (record { ip = ip; port = 0 }) })
          (bind_source os s ip message)
  unfolding bind_source
  bind_source-Ensures s ip message =
      after_call _ (bind (record { ip = ip; port = 0 })) _ (Ensures-ok refl)

  bind_udp-Ensures :
      (s : Socket) (v6 : Bool) (iface : Option InterfaceSpec)
      → Ensures
          (λ r. r ≡ record s { bound = some (local_addr v6 iface); device = device_of iface })
          (bind_udp os (record s { device = none }) v6 iface)
  unfolding bind_udp device_of
  bind_udp-Ensures s v6 none = bind_wildcard-Ensures (record s { device = none }) v6
  bind_udp-Ensures s v6 (some (address ip)) =
      unfold local_addr in bind_source-Ensures (record s { device = none }) ip _
  bind_udp-Ensures s v6 (some (name n)) =
      Ensures-bind _ _ (bind_by_name-Ensures (record s { device = none }) n v6) λ r (e, f).
        rw (e, sym (wildcard_named v6 n)) (bind_wildcard-Ensures (record s { device = some n }) v6)

  -- If the system answers every call, then making the UDP socket for a target comes back, and a socket
  -- that it gives is a non-blocking datagram socket of the target's family, bound to the chosen source
  -- address or to the wildcard of that family, and to the chosen device and to no other.
  pub build_udp_socket-IsUdpFor :
      (v6 : Bool) (iface : Option InterfaceSpec)
      → Ensures (IsUdpFor v6 iface) (build_udp_socket os v6 iface)
  unfolding build_udp_socket
  build_udp_socket-IsUdpFor v6 iface = after_call io (create v6 true) _ (
      Ensures-bind _ _ (bind_udp-Ensures (fresh v6 true) v6 iface) λ s e.
        after_call io Call.set_nonblocking _ (
          Ensures-ok (
            rw e (record {
              family = refl;
              datagrams = refl;
              bound = refl;
              device = refl;
              nonblocking = refl;
              unconnected = refl;
            }))))
