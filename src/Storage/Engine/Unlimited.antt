-- ===== src/Storage/Engine/Unlimited.antt =====
-- dashmap_engine.rs: an engine with no limit on the keys, as the server makes it, never waits for its own
-- lock, and stays without a limit.
use zetdb.Prelude.{ℕ, ◌≡◌, if_rule, is_some, ltb, true, false, Option, none, some, Bytes, arith}
use zetdb.Prelude.Int.{ℤ}
use zetdb.Domain.Errors.{Result, EngineError, Outcome, returns, panics, deadlocks, ◌>>=◌}
use zetdb.Domain.Value.{ValueEntry, add_duration, is_expired_at, from_secs}
use zetdb.Storage.DashMap.{DashMap}
use zetdb.Storage.Itoa.{Itoa}
use zetdb.Storage.Engine
use zetdb.Storage.Engine.{Engine}

-- The call does not wait for ever, and what it returns has the property.
abbrev pub Frees {ℓ} : {A : Type ℓ} → (A → Type 0) → Outcome A → Type 0
Frees P (returns a) = P a
Frees P panics = Unit
Frees P deadlocks = ⊥

-- The same of a run on fuel.
abbrev pub FreesRun {ℓ} : {A : Type ℓ} → (A → Type 0) → Option (Outcome A) → Type 0
FreesRun P none = Unit
FreesRun P (some o) = Frees P o

-- A run that has had enough fuel, and returns or panics.
abbrev pub Ends {ℓ} : {A : Type ℓ} → Option (Outcome A) → Type 0
Ends none = ⊥
Ends (some (returns a)) = Unit
Ends (some panics) = Unit
Ends (some deadlocks) = ⊥

pub Ends-FreesRun :
    {A : Type 0} (P : A → Type 0) (o : Option (Outcome A))
    → FreesRun P o
    → is_some o ≡ true
    → Ends o
Ends-FreesRun P none h e = absurd cc
Ends-FreesRun P (some (returns a)) h e = tt
Ends-FreesRun P (some panics) h e = tt
Ends-FreesRun P (some deadlocks) h e = h

pub bind-Frees :
    {A B : Type 0} (P : A → Type 0) (Q : B → Type 0) (o : Outcome A) (f : A → Outcome B)
    → Frees P o
    → ((a : A) → P a → Frees Q (f a))
    → Frees Q (o >>= f)
bind-Frees P Q (returns a) f h g = g a h
bind-Frees P Q panics f h g = tt
bind-Frees P Q deadlocks f h g = h

pub option_rule :
    {A B : Type 0} (P : B → Type 0) (o : Option A) {x : B} {f : A → B}
    → P x
    → ((a : A) → P (f a))
    → P (elim o [ none ↦ x | some a ↦ f a ])
option_rule P none h g = h
option_rule P (some a) h g = g a

pub add_duration-Frees : (a b : ℕ) → Frees (λ t. Unit {0}) (add_duration a b)
unfolding add_duration
add_duration-Frees a b = ground arith

module _ {D : DashMap ValueEntry} where
  abbrev pub IsUnlimited : Engine D → Type 0
  IsUnlimited s = s.max_keys ≡ 0

  pub get-IsUnlimited :
      (k : Bytes) (now now' : ℕ) (s : Engine D)
      → IsUnlimited s
      → IsUnlimited (Engine.get k now now' s).1
  unfolding Engine.get Engine.drop_expired
  get-IsUnlimited k now now' s h = ground arith

  pub set-IsUnlimited :
      (k : Bytes) (e : ValueEntry) (now : ℕ) (s : Engine D)
      → IsUnlimited s
      → IsUnlimited (Engine.set k e now s).1
  unfolding Engine.set
  set-IsUnlimited k e now s h = ground arith

  pub del-IsUnlimited :
      (k : Bytes) (now : ℕ) (s : Engine D) → IsUnlimited s → IsUnlimited (Engine.del k now s).1
  unfolding Engine.del
  del-IsUnlimited k now s h = ground arith

  pub exists-IsUnlimited :
      (k : Bytes) (now now' : ℕ) (s : Engine D)
      → IsUnlimited s
      → IsUnlimited (Engine.exists k now now' s).1
  unfolding Engine.exists Engine.drop_expired
  exists-IsUnlimited k now now' s h = ground arith

  pub ttl_secs-IsUnlimited :
      (k : Bytes) (now now' : ℕ) (s : Engine D)
      → IsUnlimited s
      → IsUnlimited (Engine.ttl_secs k now now' s).1
  unfolding Engine.ttl_secs Engine.drop_expired
  ttl_secs-IsUnlimited k now now' s h = ground arith

  drop_expired-IsUnlimited :
      (k : Bytes) (now : ℕ) (s : Engine D)
      → IsUnlimited s
      → IsUnlimited (Engine.drop_expired k now s)
  unfolding Engine.drop_expired
  drop_expired-IsUnlimited k now s h = ground arith

  pub expire-IsUnlimited :
      (k : Bytes) (seconds now now' : ℕ) (s : Engine D)
      → IsUnlimited s
      → Frees (λ r. IsUnlimited r.1) (Engine.expire k seconds now now' s)
  unfolding Engine.expire Engine.drop_expired
  expire-IsUnlimited k seconds now now' s h =
      option_rule (Frees (λ r. IsUnlimited r.1)) (D.get k s.map) h λ v.
        if_rule (Frees (λ r. IsUnlimited r.1)) (is_expired_at v now)
          (drop_expired-IsUnlimited k now' s h)
          (bind-Frees _ _ (add_duration now' (from_secs seconds)) _
            (add_duration-Frees now' (from_secs seconds)) (λ t x. h))

  incr_vacant-IsUnlimited :
      (k : Bytes) (now now' : ℕ) (s : Engine D)
      → IsUnlimited s
      → Frees (λ r. IsUnlimited r.1) (Engine.incr_vacant k now now' s)
  unfolding Engine.incr_vacant
  incr_vacant-IsUnlimited k now now' s h =
      let free : ltb 0 s.max_keys ≡ false = ground arith in rw (Frees, free) h

  incr_expired-IsUnlimited :
      (k : Bytes) (now' : ℕ) (s : Engine D)
      → IsUnlimited s
      → IsUnlimited (Engine.incr_expired k now' s).1
  unfolding Engine.incr_expired
  incr_expired-IsUnlimited k now' s h = ground arith

  incr_live-IsUnlimited :
      (I : Itoa) (k : Bytes) (v : ValueEntry) (s : Engine D)
      → IsUnlimited s
      → IsUnlimited (Engine.incr_live I k v s).1
  unfolding Engine.incr_live
  incr_live-IsUnlimited I k v s h = ground arith

  pub incr-IsUnlimited :
      (I : Itoa) (k : Bytes) (now now' : ℕ) (s : Engine D)
      → IsUnlimited s
      → Frees (λ r. IsUnlimited r.1) (Engine.incr I k now now' s)
  unfolding Engine.incr
  incr-IsUnlimited I k now now' s h =
      option_rule (Frees (λ r. IsUnlimited r.1)) (D.get k s.map)
        (incr_vacant-IsUnlimited k now now' s h)
        λ v.
          if_rule (λ (r : Result ℤ EngineError × Engine D). IsUnlimited r.1) (is_expired_at v now)
            (incr_expired-IsUnlimited k now' s h) (incr_live-IsUnlimited I k v s h)
