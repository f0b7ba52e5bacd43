-- ===== src/Server/Tcp/Limit.antt =====
-- server/tcp.rs: the limit on the connections.
use zetdb.Prelude.{ℕ, ◌+◌, ◌≤◌, ◌<◌, ◌≡◌, false, arith}
use zetdb.Server.Tcp.{Server, accept, Step, accepted, finished, panicked, Reach, starts, steps}

-- The counter has the sessions that run and those that panicked, and keeps to the limit.
abbrev pub IsCounted : ℕ → Server → Type 0
IsCounted max_conns s =
    (s.active_conns ≡ s.running + s.panicked) × (0 < max_conns → s.active_conns ≤ max_conns)

accept-IsCounted :
    (max_conns : ℕ) (s : Server)
    → IsCounted max_conns s
    → IsCounted max_conns (accept max_conns s).1
unfolding accept
accept-IsCounted max_conns s h = ground (arith, h.0, h.1)

step-IsCounted :
    (max_conns : ℕ) (s t : Server)
    → Step max_conns s t
    → IsCounted max_conns s
    → IsCounted max_conns t
step-IsCounted max_conns _ _ (accepted s) h = accept-IsCounted max_conns s h
step-IsCounted max_conns _ _ (finished s r) h = (omega (arith, h.0, r), λ l. omega (arith, h.1 l))
step-IsCounted max_conns _ _ (panicked s r) h = (omega (arith, h.0, r), h.1)

-- In every state that the server reaches the counter is the number of the sessions that run and of those
-- that panicked, and with a limit it is at most the limit: no more sessions than that run at once.
pub Reach-IsCounted : (max_conns : ℕ) (s : Server) → Reach max_conns s → IsCounted max_conns s
Reach-IsCounted max_conns _ starts = (omega arith, λ l. omega arith)
Reach-IsCounted max_conns _ (steps s t r x) =
    step-IsCounted max_conns s t x (Reach-IsCounted max_conns s r)

-- Once as many sessions have panicked as the limit allows, every connection is refused, although no session
-- may run.
pub accept_blocked :
    (max_conns : ℕ) (s : Server)
    → Reach max_conns s
    → 0 < max_conns
    → max_conns ≤ s.panicked
    → accept max_conns s ≡ (false, s)
unfolding accept
accept_blocked max_conns s r l p = ground (arith, (Reach-IsCounted max_conns s r).0, l, p)
