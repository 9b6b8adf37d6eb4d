-- ===== src/Listener.antt =====
-- The accept loops of src/http_server.rs and src/bench/server.rs.
use proxypen.Base.{List, [], ◌∷◌, Outcome, ok, err, panic, stuck}
use proxypen.Error.{IoError}

-- An accept loop: the connections that get a task, and the error that ends it. The list's end is a listener that waits.
unfoldable pub accept_loop :
    {A : Type 0} → List (Outcome IoError A) → List A × Outcome IoError (Unit {0})
accept_loop [] = ([], ok tt)
accept_loop (ok stream ∷ more) = let (tasks, end) = accept_loop more in (stream ∷ tasks, end)
accept_loop (err e ∷ more) = ([], err e)
accept_loop (panic ∷ more) = ([], panic)
accept_loop (stuck ∷ more) = ([], stuck)

-- A listener: nothing is accepted where the bind fails.
unfoldable pub listen :
    {A : Type 0}
    → Outcome IoError (Unit {0})
    → List (Outcome IoError A)
    → List A × Outcome IoError (Unit {0})
unfolding accept_loop
listen (ok b) incoming = accept_loop incoming
listen (err e) incoming = ([], err e)
listen panic incoming = ([], panic)
listen stuck incoming = ([], stuck)
