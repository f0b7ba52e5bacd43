-- ===== src/Storage/Aof/Replay/Total.antt =====
-- Reading an entry takes a byte at least, so the fuel of the replay is enough on every file.
use mathlib.Core.Path.{subst}
use zetdb.Prelude.{
  if_rule, ℕ, zero, suc, ◌+◌, ◌≤◌, ◌≡◌, refl, true, Option, none, some, [], ◌∷◌, Bytes, length,
  length-drop, arith, ltb, is_some, Option-cases, inl, inr, ◌⊎◌, ◌==◌,
}
use zetdb.Domain.Errors.{Outcome, returns, panics, deadlocks}
use zetdb.Domain.Value.{ValueEntry}
use zetdb.Storage.DashMap.{DashMap}
use zetdb.Storage.Itoa.{Itoa}
use zetdb.Storage.Engine.{Engine}
use zetdb.Storage.Aof.Entry.{
  read_word, read_bytes, read_key, read_value, read_pair, read_pairs, read_entry, ◌>>=◌,
}
use zetdb.Storage.Aof.Replay.{
  Clock, apply, replay_loop, replay_aof, ReadFile, contents, not_found, failed,
}

-- What a reader leaves is at most `n` bytes long.
abbrev pub Leaves {ℓ} : {A : Type ℓ} → ℕ → Option (A × Bytes) → Type 0
Leaves n none = Unit
Leaves n (some (a, r)) = length r ≤ n

bind-Leaves {ℓ κ} :
    {A : Type ℓ} {B : Type κ} (n : ℕ) (m : Option (A × Bytes)) (f : A × Bytes → Option (B × Bytes))
    → Leaves n m
    → ((a : A) (r : Bytes) → length r ≤ n → Leaves n (f (a, r)))
    → Leaves n (m >>= f)
bind-Leaves n none f h k = tt
bind-Leaves n (some (a, r)) f h k = k a r h

read_word-Leaves : (n w : ℕ) (s : Bytes) → length s ≤ n → Leaves n (read_word w s)
unfolding read_word
read_word-Leaves n w s h = if_rule (Leaves n) (ltb (length s) w) tt (omega (arith, length-drop w s))

read_bytes-Leaves : (n w : ℕ) (s : Bytes) → length s ≤ n → Leaves n (read_bytes w s)
unfolding read_bytes
read_bytes-Leaves n w s h =
    if_rule (Leaves n) (ltb (length s) w) tt (omega (arith, length-drop w s))

read_key-Leaves : (n : ℕ) (s : Bytes) → length s ≤ n → Leaves n (read_key s)
unfolding read_key
read_key-Leaves n s h =
    bind-Leaves n (read_word 2 s) _ (read_word-Leaves n 2 s h)
      λ w r hr. bind-Leaves n (read_bytes w r) _ (read_bytes-Leaves n w r hr) (λ k r' hr'. hr')

read_value-Leaves : (n : ℕ) (s : Bytes) → length s ≤ n → Leaves n (read_value s)
unfolding read_value
read_value-Leaves n s h =
    bind-Leaves n (read_word 4 s) _ (read_word-Leaves n 4 s h)
      (λ w r hr. read_bytes-Leaves n w r hr)

-- The rest behind a pair, or behind the part of one.
read_pair_takes : (s : Bytes) → length (read_pair s).1 ≤ length s
unfolding read_pair
read_pair_takes s = elim (Option-cases (read_word 2 s)) [
  | inl e ↦ ground arith
  | inr ((n, r1), e) ↦
      let h1 : length r1 ≤ length s =
        subst (Leaves (length s)) e (read_word-Leaves (length s) 2 s (omega arith)) in
      elim (Option-cases (read_bytes n r1)) [
        | inl e' ↦ ground arith
        | inr ((k, r2), e') ↦
            let h2 : length r2 ≤ length s =
              subst (Leaves (length s)) e' (read_bytes-Leaves (length s) n r1 h1) in
            elim (Option-cases (read_word 4 r2)) [
              | inl e'' ↦ ground arith
              | inr ((m, r3), e'') ↦
                  let h3 : length r3 ≤ length s =
                    subst (Leaves (length s)) e'' (read_word-Leaves (length s) 4 r2 h2) in
                  elim (Option-cases (read_bytes m r3)) [
                    | inl e3 ↦ ground arith
                    | inr ((v, r4), e3) ↦
                        let h4 : length r4 ≤ length s =
                          subst (Leaves (length s)) e3 (read_bytes-Leaves (length s) m r3 h3) in
                        ground arith
                  ]
            ]
      ]
]

read_pairs_takes : (n : ℕ) (s : Bytes) → length (read_pairs n s).1 ≤ length s
unfolding read_pairs
read_pairs_takes zero s = omega arith
read_pairs_takes (suc n) s = ground (arith, read_pair_takes s, read_pairs_takes n (read_pair s).1)

-- Behind an entry fewer bytes remain.
pub read_entry-Leaves : (c : ℕ) (r : Bytes) → Leaves (length r) (read_entry (c ∷ r))
unfolding read_entry
read_entry-Leaves c r =
    let n = length r in
    let key = read_key-Leaves n r (omega arith) in
    if_rule (Leaves n) (c == 1)
      (bind-Leaves n (read_key r) _ key λ k r1 h1.
        bind-Leaves n (read_value r1) _ (read_value-Leaves n r1 h1)
          λ v r2 h2. bind-Leaves n (read_word 8 r2) _ (read_word-Leaves n 8 r2 h2) (λ w r3 h3. h3))
      (if_rule (Leaves n) (c == 2) (bind-Leaves n (read_key r) _ key (λ k r1 h1. h1)) (
        if_rule (Leaves n) (c == 3) (bind-Leaves n (read_key r) _ key (λ k r1 h1. h1)) (
          if_rule (Leaves n) (c == 4)
            (bind-Leaves n (read_key r) _ key λ k r1 h1.
              bind-Leaves n (read_word 8 r1) _ (read_word-Leaves n 8 r1 h1) (λ w r2 h2. h2))
            (if_rule (Leaves n) (c == 5) (omega arith) (
              if_rule (Leaves n) (c == 6)
                (bind-Leaves n (read_word 2 r) _ (read_word-Leaves n 2 r (omega arith))
                  λ k r1 h1. omega (arith, read_pairs_takes k r1))
                tt)))))

Outcome-cases {ℓ} :
    {A : Type ℓ} (o : Outcome A) → ((a : A) × (o ≡ returns a)) ⊎ ((o ≡ panics) ⊎ (o ≡ deadlocks))
Outcome-cases (returns a) = inl (a, refl)
Outcome-cases panics = inr (inl refl)
Outcome-cases deadlocks = inr (inr refl)

module _ (I : Itoa) {D : DashMap ValueEntry} (clock : ℕ → Clock) where
  replay_loop-is_some :
      (fuel n : ℕ) (s : Bytes) (e : Engine D)
      → length s ≤ fuel
      → is_some (replay_loop I clock fuel n s e) ≡ true
  unfolding replay_loop
  replay_loop-is_some fuel n [] e h = refl
  replay_loop-is_some zero n (c ∷ r) e h = absurd (omega arith)
  replay_loop-is_some (suc fuel) n (c ∷ r) e h = elim (Option-cases (read_entry (c ∷ r))) [
    | inl e' ↦ ground arith
    | inr ((l, r'), e') ↦
        let h' : length r' ≤ length r = subst (Leaves (length r)) e' (read_entry-Leaves c r) in
        elim (Outcome-cases (apply I (clock n) e l)) [
          | inl (s', a) ↦ ground (arith, replay_loop-is_some fuel (n + 1) r' s' (omega arith))
          | inr (inl a) ↦ ground arith
          | inr (inr a) ↦ ground arith
        ]
  ]

  -- The fuel that the replay is given is enough on every file.
  pub replay_aof-is_some :
      (file : ReadFile) (e : Engine D) → is_some (replay_aof I clock file e) ≡ true
  unfolding replay_aof
  replay_aof-is_some (contents s) e =
      ground (arith, replay_loop-is_some (length s) 0 s e (omega arith))
  replay_aof-is_some not_found e = refl
  replay_aof-is_some failed e = refl
