-- ===== src/Server/Tcp/Drain.antt =====
-- server/tcp.rs: the wait for the sessions at shutdown.
use zetdb.Prelude.{
  ℕ, ◌+◌, ◌*◌, ◌≤◌, ◌<◌, ◌≡◌, true, List, [], ◌∷◌, length, is_some, ltb, arith, inl, inr,
  Bool-cases,
}
use zetdb.Server.Tcp.{drain_timeout_ms, drain_poll_interval_ms, drain}

-- Every round sleeps for the poll interval at least: round `n` begins no earlier than that many of
-- them.
abbrev pub IsPaced : ℕ → List (ℕ × ℕ) → Type 0
IsPaced n [] = Unit
IsPaced n ((remaining, elapsed) ∷ rounds) =
    (n * drain_poll_interval_ms ≤ elapsed) × IsPaced (n + 1) rounds

drain_from :
    (rounds : List (ℕ × ℕ)) (n : ℕ)
    → IsPaced n rounds
    → 101 < n + length rounds
    → n ≤ 101
    → is_some (drain rounds) ≡ true
unfolding drain
drain_from [] n p l b = absurd (omega (arith, l, b))
drain_from ((remaining, elapsed) ∷ rounds) n p l b =
    elim (Bool-cases (ltb drain_timeout_ms elapsed)) [
      | inl e ↦ ground (arith, e)
      | inr e ↦
          let before : n ≤ 100 = ground (arith, e, p.0) in
          let later = drain_from rounds (n + 1) p.1 (omega (arith, l)) (omega (arith, before)) in
          ground (arith, e, later)
    ]

-- Whatever the sessions do, the wait ends within 102 rounds.
pub drain_ends :
    (rounds : List (ℕ × ℕ)) → IsPaced 0 rounds → 102 ≤ length rounds → is_some (drain rounds) ≡ true
drain_ends rounds p l = drain_from rounds 0 p (omega (arith, l)) (omega arith)
