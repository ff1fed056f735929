-- ===== src/Root/Shutdown/Escalation.antt =====
-- The calls of closeTransport (gor.go) in a sequence.
use gor.Prelude.{ℕ, suc, ◌+◌, Bool, true, false, List, [], ◌∷◌, ◌≡◌, refl, arith}
use gor.Root.Shutdown.{Command, Has, close_transport, close_transports}

unfoldable pub is_close : Command → ℕ
is_close Command.transport_close = 1
is_close _ = 0

unfoldable pub is_kill : Command → ℕ
is_kill Command.transport_kill = 1
is_kill _ = 0

unfoldable pub total : (Command → ℕ) → List Command → ℕ
total f [] = 0
total f (c ∷ cs) = f c + total f cs

-- The calls that kill.
unfoldable pub kills : List Bool → ℕ
kills [] = 0
kills (true ∷ calls) = kills calls
kills (false ∷ calls) = suc (kills calls)

-- The first call closes, where it is graceful.
unfoldable pub closes : List Bool → ℕ
closes [] = 0
closes (true ∷ calls) = 1
closes (false ∷ calls) = 0

-- The calls once the flag is set.
close_transports-closing :
    (has : Has) (calls : List Bool)
    → has.transport ≡ true
    → (total is_close (close_transports has calls true) ≡ 0)
      × (total is_kill (close_transports has calls true) ≡ kills calls)
unfolding close_transports close_transport total kills is_close is_kill
close_transports-closing has [] t = (refl, refl)
close_transports-closing has (true ∷ calls) t =
    let (a, b) = close_transports-closing has calls t in rw t (omega arith, omega arith)
close_transports-closing has (false ∷ calls) t =
    let (a, b) = close_transports-closing has calls t in rw t (omega arith, omega arith)

-- In any sequence of calls of closeTransport, on a Runtime with a transport, the transport is told
-- to close at most once, by the first call where that one is graceful, and to kill once by each
-- immediate call: a Kill during or after Close still reaches it.
pub close_transports_lem :
    (has : Has) (calls : List Bool)
    → has.transport ≡ true
    → (total is_close (close_transports has calls false) ≡ closes calls)
      × (total is_kill (close_transports has calls false) ≡ kills calls)
unfolding close_transports close_transport total kills closes is_close is_kill
close_transports_lem has [] t = (refl, refl)
close_transports_lem has (true ∷ calls) t =
    let (a, b) = close_transports-closing has calls t in rw t (omega arith, omega arith)
close_transports_lem has (false ∷ calls) t =
    let (a, b) = close_transports-closing has calls t in rw t (omega arith, omega arith)
