-- ===== src/Application/Dictionary/Replayed.antt =====
-- storage/aof.rs: a replay does what the logged commands mean.
use zetdb.Prelude.{ℕ, ◌+◌, ◌≡◌, refl, Option, none, some, List, [], ◌∷◌, All}
use zetdb.Domain.Errors.{Outcome, returns, ◌>>=◌}
use zetdb.Domain.Value.{ValueEntry}
use zetdb.Domain.Command.{Command}
use zetdb.Storage.DashMap.{DashMap}
use zetdb.Storage.Itoa.{Itoa}
use zetdb.Storage.Engine.{Engine}
use zetdb.Storage.Aof.Entry.{Logged}
use zetdb.Storage.Aof.Entry.RoundTrip.{logged}
use zetdb.Storage.Aof.Replay.{Clock, apply, deadline_of}
use zetdb.Storage.Aof.Replay.Log.{apply_all}
use zetdb.Application.Dictionary.{Dictionary, IsPlain, meaning, meaning_all, Represents}
use zetdb.Application.Dictionary.Operations.{
  set-Represents, del-Represents, clear-Represents, set_all-Represents, incr-Represents,
}

module _ (I : Itoa) {D : DashMap ValueEntry} where
  -- What the log says of a command, applied to an engine that stands for a dictionary.
  abbrev pub AppliesAsMeant : Clock → Command → Engine D → Dictionary → Option Logged → Type 0
  AppliesAsMeant clock c s d none = meaning c d ≡ d
  AppliesAsMeant clock c s d (some l) =
      (s' : Engine D) × (apply I clock s l ≡ returns s') × Represents s' (meaning c d)

  apply-meaning :
      (clock : Clock) (c : Command) (s : Engine D) (d : Dictionary)
      → IsPlain c
      → Represents s d
      → AppliesAsMeant clock c s d (logged c)
  unfolding apply meaning deadline_of
  apply-meaning clock Command.ping s d p h = refl
  apply-meaning clock (Command.get k) s d p h = refl
  apply-meaning clock (Command.set k v none) s d p h =
      let e : ValueEntry = record { bytes = v; expires_at = none; created_at = some (clock 1) } in
      (_, refl, (set-Represents k e (clock 2) s d h refl).1)
  apply-meaning clock (Command.set k v (some dur)) s d p h = absurd cc
  apply-meaning clock (Command.del k) s d p h = (_, refl, (del-Represents k (clock 0) s d h).1)
  apply-meaning clock (Command.incr k) s d p h =
      let (r, s', e, reply, kept) = incr-Represents I k (clock 0) (clock 1) s d h in
      (s', rw e refl, kept)
  apply-meaning clock Command.info s d p h = refl
  apply-meaning clock Command.db_size s d p h = refl
  apply-meaning clock (Command.exists k) s d p h = refl
  apply-meaning clock (Command.ttl k) s d p h = refl
  apply-meaning clock (Command.expire k seconds) s d p h = absurd p
  apply-meaning clock Command.flush_db s d p h = (_, refl, clear-Represents s d h)
  apply-meaning clock Command.keys s d p h = refl
  apply-meaning clock (Command.mget ks) s d p h = refl
  apply-meaning clock (Command.mset pairs) s d p h =
      (_, refl, set_all-Represents pairs 0 clock s d h)

  -- The logged commands of a sequence, applied one after the other, make the dictionary that the
  -- sequence makes.
  pub apply_all-meaning :
      (clock : ℕ → Clock) (n : ℕ) (cs : List Command) (s : Engine D) (d : Dictionary)
      → All IsPlain cs
      → Represents s d
      → (k : ℕ) × (s' : Engine D) × (apply_all I clock n cs s ≡ returns (k, s'))
        × Represents s' (meaning_all cs d)
  unfolding apply_all meaning_all
  apply_all-meaning clock n [] s d p h = (n, s, refl, h)
  apply_all-meaning clock n (c ∷ cs) s d p h =
      step (logged c) (apply-meaning (clock n) c s d p.0 h)
        (λ i t e. apply_all-meaning clock i cs t e p.1)
    where
      step :
          (o : Option Logged)
          → AppliesAsMeant (clock n) c s d o
          → ((i : ℕ) (t : Engine D) (e : Dictionary)
              → Represents t e
              → (k : ℕ) × (s' : Engine D) × (apply_all I clock i cs t ≡ returns (k, s'))
                × Represents s' (meaning_all cs e))
          → (k : ℕ) × (s' : Engine D) × (elim o as (λ x. Outcome (ℕ × Engine D)) [
            | none ↦ apply_all I clock n cs s
            | some l ↦ apply I (clock n) s l >>= λ t. apply_all I clock (n + 1) cs t
          ]
              ≡ returns (k, s'))
            × Represents s' (meaning_all cs (meaning c d))
      step none same rest = rw same (rest n s d h)
      step (some l) (t, e, kept) rest = rw e (rest (n + 1) t (meaning c d) kept)
