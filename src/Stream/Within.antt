-- ===== src/Stream/Within.antt =====
-- Code on a connection that comes back, whatever the peer sends.
use proxypen.Base.{
  Any, ℕ, ◌≤◌, List, length, leb, arith, Bool, true, false, Bool-cases, inl, inr, Outcome, ok, err,
  panic, stuck, if◌then◌else◌, Ensures, Ensures-ok, Ensures-err, Ensures-mono,
}
use proxypen.Error.{IoError}
use proxypen.Stream.{Reader}
use proxypen.Stream.Takes.{Shrinks}
use proxypen.Stream.Conn.{Conn, Exec, next, recv, received, write_all, lift}

-- The code comes back, with no more to read than `n` bytes.
abbrev pub Within : {E A : Type 0} → ℕ → Outcome E A × Conn → Type 0
Within n r = Ensures (λ _. length (r.1.inbox) ≤ n) (r.0)

pub next-Ensures :
    {E A B : Type 0} (P : Conn → Type 0) (m : ℕ) (f : A → Exec E B) (r : Outcome E A × Conn)
    → Ensures (λ _. P (r.1)) (r.0)
    → ((a : A) (c : Conn) → P c → Within m (f a c))
    → Within m (next f r)
next-Ensures P m f (ok a, c) h k = k a c h.holds
next-Ensures P m f (err e, c) h k = Ensures-err
next-Ensures P m f (panic, c) h k = absurd h.holds
next-Ensures P m f (stuck, c) h k = absurd h.holds

pub next-Within :
    {E A B : Type 0} (n m : ℕ) (f : A → Exec E B) (r : Outcome E A × Conn)
    → Within n r
    → ((a : A) (c : Conn) → length c.inbox ≤ n → Within m (f a c))
    → Within m (next f r)
next-Within n m f r h k = next-Ensures (λ c. length c.inbox ≤ n) m f r h k

pub if-Within :
    {E A : Type 0} (b : Bool) (m k : Exec E A) (n : ℕ) (c : Conn)
    → Within n (m c)
    → Within n (k c)
    → Within n ((if b then m else k) c)
if-Within true m k n c h l = h
if-Within false m k n c h l = l

pub write_all-Within :
    {E : Type 0} (f : IoError → E) (bs : List ℕ) (n : ℕ) (c : Conn)
    → length c.inbox ≤ n
    → Within n (write_all f bs c)
unfolding write_all
write_all-Within f bs n c h = elim (Bool-cases (leb (length bs) c.room)) [
  | inl e ↦ rw e (Ensures-ok h)
  | inr e ↦ rw e Ensures-err
]

pub lift-Within :
    {E A : Type 0} (r : Outcome E A) (n : ℕ) (c : Conn)
    → Ensures Any r
    → length c.inbox ≤ n
    → Within n (lift r c)
lift-Within r n c e h = Ensures-mono r (λ _ _. h) e

received-Within :
    {E A : Type 0} (f : IoError → E) (n : ℕ) (c : Conn) (r : Outcome IoError (A × List ℕ))
    → Ensures (λ p. length (p.1) ≤ n) r
    → Within n (received f c r)
received-Within f n c (ok (a, rest)) h = Ensures-ok h.holds
received-Within f n c (err e) h = Ensures-err
received-Within f n c panic h = absurd h.holds
received-Within f n c stuck h = absurd h.holds

pub recv-Within :
    {E A : Type 0} (f : IoError → E) (n : ℕ) (m : Reader A) (c : Conn)
    → Shrinks m
    → length c.inbox ≤ n
    → Within n (recv f m c)
unfolding recv
recv-Within f n m c t h =
    received-Within f n c (m c.inbox) (Ensures-mono (m c.inbox) (λ p l. omega arith) (t c.inbox))
