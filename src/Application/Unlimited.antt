-- ===== src/Application/Unlimited.antt =====
-- application/dispatcher.rs: both dispatchers on an engine with no limit on the keys return or panic, and leave
-- it without a limit.
use mathlib.Core.Path.{subst}
use zetdb.Prelude.{ℕ, ◌+◌, ◌≡◌, sym, Bool, Option, none, some, List, [], ◌∷◌, Bytes}
use zetdb.Domain.Errors.{Result, EngineError, Outcome, returns, panics, deadlocks}
use zetdb.Domain.Value.{ValueEntry, new, with_ttl, add_duration}
use zetdb.Domain.Command.{Command}
use zetdb.Storage.DashMap.{DashMap}
use zetdb.Storage.Itoa.{Itoa}
use zetdb.Storage.Engine
use zetdb.Storage.Engine.{Engine}
use zetdb.Storage.Engine.Unlimited.{
  Frees, bind-Frees, IsUnlimited, add_duration-Frees, get-IsUnlimited, set-IsUnlimited,
  del-IsUnlimited, exists-IsUnlimited, ttl_secs-IsUnlimited, expire-IsUnlimited, incr-IsUnlimited,
}
use zetdb.Protocol.Response.{Response}
use zetdb.Application.Info.{Counters}
use zetdb.Application.Dispatch.{Clock, entry_of, mset, dispatch}
use zetdb.Application.Buffer.{dispatch_to_buffer}
use zetdb.Application.Buffer.Refines.{Agree, dispatch_to_buffer-eq-dispatch}

entry_of-Frees :
    (v : Bytes) (ttl : Option ℕ) (clock : Clock) → Frees (λ x. Unit {0}) (entry_of v ttl clock)
unfolding entry_of with_ttl
entry_of-Frees v none clock = tt
entry_of-Frees v (some d) clock =
    bind-Frees (λ x. Unit {0}) (λ x. Unit {0}) (with_ttl (clock 0) (clock 1) v d) _
      (bind-Frees (λ x. Unit {0}) (λ x. Unit {0}) (add_duration (clock 0) d) _
        (add_duration-Frees (clock 0) d) (λ t x. tt))
      (λ t x. tt)

module _ {D : DashMap ValueEntry} where
  stopped_or :
      (next : Result (Unit {0}) EngineError × Engine D) (s : Engine D)
      (r : Result (Unit {0}) EngineError)
      → IsUnlimited next.1
      → IsUnlimited s
      → (◌≡◌ {A = ℕ}
          ((λ (x : Result (Unit {0}) EngineError × Engine D). x.1.max_keys)
            (elim r [ Result.ok _ ↦ next | Result.err e ↦ (Result.err e, s) ]))
          0)
  stopped_or next s (Result.ok x) h g = h
  stopped_or next s (Result.err e) h g = g

  mset-IsUnlimited :
      (pairs : List (Bytes × Bytes)) (i : ℕ) (clock : Clock) (s : Engine D)
      → IsUnlimited s
      → IsUnlimited (mset pairs i clock s).1
  unfolding mset
  mset-IsUnlimited [] i clock s h = h
  mset-IsUnlimited ((k, v) ∷ rest) i clock s h =
      let r = Engine.set k (new (clock i) v) (clock (i + 1)) s in
      let kept = set-IsUnlimited k (new (clock i) v) (clock (i + 1)) s h in
      stopped_or (mset rest (i + 2) clock r.1) r.1 r.0
        (mset-IsUnlimited rest (i + 2) clock r.1 kept) kept

module _ (I : Itoa) {D : DashMap ValueEntry} (m : Counters) (clock : Clock) where
  pub dispatch-IsUnlimited :
      (s : Engine D) (c : Command)
      → IsUnlimited s
      → Frees (λ x. IsUnlimited x.1) (dispatch I m clock s c)
  unfolding dispatch Engine.clear
  dispatch-IsUnlimited s (Command.get k) h = get-IsUnlimited k (clock 0) (clock 1) s h
  dispatch-IsUnlimited s (Command.set k v ttl) h =
      bind-Frees (λ x. Unit {0}) (λ x. IsUnlimited x.1) (entry_of v ttl clock) _
        (entry_of-Frees v ttl clock) (λ e x. set-IsUnlimited k e.0 (clock e.1) s h)
  dispatch-IsUnlimited s Command.ping h = h
  dispatch-IsUnlimited s (Command.del k) h = del-IsUnlimited k (clock 0) s h
  dispatch-IsUnlimited s (Command.incr k) h =
      bind-Frees (λ r. IsUnlimited r.1) (λ x. IsUnlimited x.1)
        (Engine.incr I k (clock 0) (clock 1) s) _ (incr-IsUnlimited I k (clock 0) (clock 1) s h)
        (λ r x. x)
  dispatch-IsUnlimited s Command.info h = h
  dispatch-IsUnlimited s Command.db_size h = h
  dispatch-IsUnlimited s (Command.exists k) h = exists-IsUnlimited k (clock 0) (clock 1) s h
  dispatch-IsUnlimited s (Command.ttl k) h = ttl_secs-IsUnlimited k (clock 0) (clock 1) s h
  dispatch-IsUnlimited s (Command.expire k seconds) h =
      bind-Frees (λ r. IsUnlimited r.1) (λ x. IsUnlimited x.1)
        (Engine.expire k seconds (clock 0) (clock 1) s) _
        (expire-IsUnlimited k seconds (clock 0) (clock 1) s h) (λ r x. x)
  dispatch-IsUnlimited s Command.flush_db h = h
  dispatch-IsUnlimited s Command.keys h = h
  dispatch-IsUnlimited s (Command.mget ks) h = h
  dispatch-IsUnlimited s (Command.mset pairs) h = mset-IsUnlimited pairs 0 clock s h

  Agree-Frees :
      (is_resp : Bool) (o : Outcome (Bytes × Engine D)) (p : Outcome (Response × Engine D))
      → Agree I is_resp o p
      → Frees (λ x. IsUnlimited x.1) p
      → Frees (λ x. IsUnlimited x.1) o
  Agree-Frees is_resp (returns (out, s)) (returns (r, s')) a h = subst IsUnlimited (sym a.0) h
  Agree-Frees is_resp (returns x) panics a h = absurd a
  Agree-Frees is_resp (returns x) deadlocks a h = absurd h
  Agree-Frees is_resp panics p a h = tt
  Agree-Frees is_resp deadlocks (returns x) a h = a
  Agree-Frees is_resp deadlocks panics a h = a
  Agree-Frees is_resp deadlocks deadlocks a h = h

  pub dispatch_to_buffer-IsUnlimited :
      (is_resp : Bool) (s : Engine D) (c : Command)
      → IsUnlimited s
      → Frees (λ x. IsUnlimited x.1) (dispatch_to_buffer I m clock is_resp s c)
  dispatch_to_buffer-IsUnlimited is_resp s c h =
      Agree-Frees is_resp (dispatch_to_buffer I m clock is_resp s c) (dispatch I m clock s c)
        (dispatch_to_buffer-eq-dispatch I m clock is_resp s c) (dispatch-IsUnlimited s c h)
