-- ===== src/Stream/Conn.antt =====
-- A TCP connection from one side: what the peer will have sent before it closes, what was written, and how
-- many more bytes the connection takes before it breaks.
use proxypen.Base.{
  ℕ, ◌-◌, ◌≤◌, ◌≡◌, refl, ap, List, ◌++◌, length, take, leb, if◌then◌else◌, Outcome, ok, err, panic,
  stuck, le→leb,
}
use proxypen.Error.{IoError, broken_pipe}
use proxypen.Stream.{Reader}

pub record Conn : Type 0 where
  pub inbox : List ℕ
  pub outbox : List ℕ
  pub room : ℕ

-- Code that uses the connection and may fail with `E`.
abbrev pub Exec {ℓ} : Type 0 → Type ℓ → Type ℓ
Exec E A = Conn → Outcome E A × Conn

abbrev pub next {ℓ κ} :
    {E : Type 0} {A : Type ℓ} {B : Type κ}
    → (A → Exec E B)
    → Outcome E A × Conn
    → Outcome E B × Conn
next f (ok a, c) = f a c
next f (err e, c) = (err e, c)
next f (panic, c) = (panic, c)
next f (stuck, c) = (stuck, c)

infixl 5 ◌>>=◌ ◌>>◌
abbrev pub ◌>>=◌ {ℓ κ} :
    {E : Type 0} {A : Type ℓ} {B : Type κ} → Exec E A → (A → Exec E B) → Exec E B
◌>>=◌ m f c = next f (m c)

abbrev pub ◌>>◌ {ℓ} : {E : Type 0} {B : Type ℓ} → Exec E (Unit {0}) → Exec E B → Exec E B
m >> k = m >>= λ _. k

abbrev pub pure {ℓ} : {E : Type 0} {A : Type ℓ} → A → Exec E A
pure a c = (ok a, c)

-- A result that does not touch the connection.
abbrev pub lift {ℓ} : {E : Type 0} {A : Type ℓ} → Outcome E A → Exec E A
lift r c = (r, c)

abbrev pub received {ℓ} :
    {E : Type 0} {A : Type ℓ}
    → (IoError → E)
    → Conn
    → Outcome IoError (A × List ℕ)
    → Outcome E A × Conn
received f c (ok (a, rest)) = (ok a, record c { inbox = rest })
received f c (err e) = (err (f e), c)
received f c panic = (panic, c)
received f c stuck = (stuck, c)

-- To read a message; after an error nothing more is read.
unfoldable pub recv {ℓ} : {E : Type 0} {A : Type ℓ} → (IoError → E) → Reader A → Exec E A
recv f m c = received f c (m c.inbox)

-- `write_all`
unfoldable pub write_all : {E : Type 0} → (IoError → E) → List ℕ → Exec E (Unit {0})
write_all f bs c =
    if leb (length bs) c.room
    then (ok tt, record c { outbox = c.outbox ++ bs; room = c.room - length bs })
    else (err (f broken_pipe), record c { outbox = c.outbox ++ take c.room bs; room = 0 })

pub write_all-fits :
    {E : Type 0} (f : IoError → E) (bs inbox outbox : List ℕ) (room : ℕ)
    → length bs ≤ room
    → write_all f bs (record { inbox = inbox; outbox = outbox; room = room })
      ≡ (ok tt, record { inbox = inbox; outbox = outbox ++ bs; room = room - length bs })
unfolding write_all
write_all-fits f bs inbox outbox room h = rw (le→leb (length bs) room h) refl

pub write_all-room :
    {E : Type 0} (f : IoError → E) (bs : List ℕ) (c : Conn)
    → length bs ≤ c.room
    → write_all f bs c
      ≡ (ok tt, record { inbox = c.inbox; outbox = c.outbox ++ bs; room = c.room - length bs })
unfolding write_all
write_all-room f bs c h = rw (le→leb (length bs) c.room h) refl

pub recv-ok {ℓ} :
    {E : Type 0} {A : Type ℓ} (f : IoError → E) (m : Reader A) (c : Conn) (a : A) (rest : List ℕ)
    → m c.inbox ≡ ok (a, rest)
    → recv f m c ≡ (ok a, record c { inbox = rest })
unfolding recv
recv-ok f m c a rest h = ap (received f c) h
