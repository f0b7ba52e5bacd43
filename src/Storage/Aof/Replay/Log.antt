-- ===== src/Storage/Aof/Replay/Log.antt =====
-- The replay of a log that the server wrote.
use mathlib.Core.Path.{subst}
use zetdb.Prelude.{
  ℕ, zero, suc, ◌+◌, ◌/◌, ◌≤◌, ◌<◌, ◌≡◌, refl, ◌∙◌, Option, none, some, List, [], ◌∷◌, ◌++◌, Bytes,
  All, length, arith, ltb, inl, inr, if◌then◌else◌,
}
use zetdb.Prelude.Int.{pos}
use zetdb.Bytes.{bytes_eq}
use zetdb.Domain.Errors.{Outcome, returns, panics, deadlocks, ◌>>=◌}
use zetdb.Domain.Value.{ValueEntry, add_duration, from_millis, instant_limit, nanos_per_milli}
use zetdb.Domain.Command.{Command}
use zetdb.Storage.DashMap.{DashMap}
use zetdb.Storage.Itoa.{Itoa}
use zetdb.Storage.Engine
use zetdb.Storage.Engine.{Engine}
use zetdb.Storage.Engine.View.{view, live}
use zetdb.Storage.Engine.Writes.{set_lem}
use zetdb.Storage.Aof.Entry.{Logged, set, to_aof_entry, read_entry}
use zetdb.Storage.Aof.Entry.RoundTrip.{FitsLog, logged, ttl_field, entry_cases}
use zetdb.Storage.Aof.Replay.{
  Clock, apply, deadline_of, replay_loop, replay_aof, contents, as_replayed,
}
use zetdb.Storage.Aof.Replay.Total.{read_entry-Leaves, Leaves}

abbrev pub or_nothing : Option Bytes → Bytes
or_nothing none = []
or_nothing (some bs) = bs

-- The bytes that are appended for a sequence of commands.
unfoldable pub log_of : List Command → Bytes
log_of [] = []
log_of (c ∷ cs) = or_nothing (to_aof_entry c) ++ log_of cs

module _ (I : Itoa) {D : DashMap ValueEntry} (clock : ℕ → Clock) where
  -- The logged commands applied one after the other, with their number.
  unfoldable pub apply_all : ℕ → List Command → Engine D → Outcome (ℕ × Engine D)
  apply_all n [] s = returns (n, s)
  apply_all n (c ∷ cs) s = elim (logged c) [
    | none ↦ apply_all n cs s
    | some l ↦ apply I (clock n) s l >>= λ s'. apply_all (n + 1) cs s'
  ]

  replay_step :
      (fuel n : ℕ) (bytes : Bytes) (s : Engine D) (l : Logged) (r : Bytes)
      → read_entry bytes ≡ some (l, r)
      → length bytes ≤ fuel
      → (f : ℕ) × (length r ≤ f)
        × (replay_loop I clock fuel n bytes s ≡ elim (apply I (clock n) s l) [
          | returns s' ↦ replay_loop I clock f (n + 1) r s'
          | panics ↦ some panics
          | deadlocks ↦ some deadlocks
        ])
  unfolding replay_loop
  replay_step fuel n [] s l r e h = unfold read_entry in absurd (cc e)
  replay_step zero n (c ∷ bs) s l r e h = absurd (omega arith)
  replay_step (suc f) n (c ∷ bs) s l r e h =
      let h' : length r ≤ length bs = subst (Leaves (length bs)) e (read_entry-Leaves c bs) in
      (f, omega arith, rw (e, replay_loop))

  continue-apply_all :
      (f n : ℕ) (cs : List Command) (r : Bytes) (o : Outcome (Engine D))
      → ((s : Engine D) → replay_loop I clock f n r s ≡ some (apply_all n cs s))
      → ◌≡◌ {A = Option (Outcome (ℕ × Engine D))}
          (elim o [
            | returns s' ↦ replay_loop I clock f n r s'
            | panics ↦ some panics
            | deadlocks ↦ some deadlocks
          ])
          (some (o >>= λ s'. apply_all n cs s'))
  continue-apply_all f n cs r (returns s') h = h s'
  continue-apply_all f n cs r panics h = refl
  continue-apply_all f n cs r deadlocks h = refl

  replay_loop-log :
      (cs : List Command) (fuel n : ℕ) (s : Engine D)
      → All FitsLog cs
      → length (log_of cs) ≤ fuel
      → replay_loop I clock fuel n (log_of cs) s ≡ some (apply_all n cs s)
  unfolding log_of apply_all
  replay_loop-log [] fuel n s fits h = unfold replay_loop in refl
  replay_loop-log (c ∷ cs) fuel n s fits h = elim (entry_cases c (log_of cs) fits.0) [
    | inl (e, f) ↦
        rw (e, f, apply_all)
          (replay_loop-log cs fuel n s fits.1
            (subst (λ o. length (or_nothing o ++ log_of cs) ≤ fuel) e h))
    | inr (bs, l, e, f, g) ↦
        let h' : length (bs ++ log_of cs) ≤ fuel =
          subst (λ o. length (or_nothing o ++ log_of cs) ≤ fuel) e h in
        let (rest_fuel, fits', step) = replay_step fuel n (bs ++ log_of cs) s l (log_of cs) g h' in
        rw (e, f, apply_all)
          (step
            ∙ continue-apply_all rest_fuel (n + 1) cs (log_of cs) (apply I (clock n) s l)
                (λ s'. replay_loop-log cs rest_fuel (n + 1) s' fits.1 fits'))
  ]

  -- To replay a file that holds the entries of a sequence of commands, each within the format, is to
  -- apply the logged ones in their order, each once.
  pub replay_aof-log_of :
      (cs : List Command) (s : Engine D)
      → All FitsLog cs
      → replay_aof I clock (contents (log_of cs)) s ≡ some (as_replayed (apply_all 0 cs s))
  unfolding replay_aof
  replay_aof-log_of cs s fits =
      rw (replay_loop-log cs (length (log_of cs)) 0 s fits (omega arith), replay_aof)

-- The deadline that the replay gives: whole milliseconds from the replay on, and none below one.
abbrev pub replayed_deadline : ℕ → ℕ → Option ℕ
replayed_deadline now dur =
    if ltb dur nanos_per_milli then none else some (now + from_millis (dur / nanos_per_milli))

deadline_of-eq :
    (q now dur : ℕ)
    → q ≡ dur / nanos_per_milli
    → now + dur < instant_limit
    → deadline_of (pos q) now ≡ returns (replayed_deadline now dur)
unfolding deadline_of
deadline_of-eq zero now dur h fits = ground arith
deadline_of-eq (suc q) now dur h fits = unfold add_duration in ground arith

module _ (I : Itoa) {D : DashMap ValueEntry} where
  -- The replay of SET with a time to live, on an engine with no limit on the keys: the key is visible
  -- for that many whole milliseconds from the replay on, whenever the SET was; and a time to live below
  -- a millisecond makes it visible for ever.
  pub apply-set_deadline :
      (clock : Clock) (s : Engine D) (k v : Bytes) (dur : ℕ)
      → s.max_keys ≡ 0
      → clock 0 + dur < instant_limit
      → (s' : Engine D) × (apply I clock s (set k v (ttl_field (some dur))) ≡ returns s')
        × ((t : ℕ) (j : Bytes)
            → view s' t j ≡ (
                if bytes_eq k j
                then live t (
                    some (record {
                      bytes = v;
                      expires_at = replayed_deadline (clock 0) dur;
                      created_at = some (clock 1);
                    }))
                else view s t j))
  apply-set_deadline clock s k v dur unlimited fits =
      let e : ValueEntry = record {
        bytes = v;
        expires_at = replayed_deadline (clock 0) dur;
        created_at = some (clock 1);
      } in
      (
        (Engine.set k e (clock 2) s).1,
        unfold apply in rw (deadline_of-eq (dur / nanos_per_milli) (clock 0) dur refl fits),
        (set_lem k e (clock 2) s (inl unlimited)).1,
      )
