-- ===== src/Application/Buffer/Refines.antt =====
-- `dispatch_to_buffer` against `dispatch` and the writer of replies.
use zetdb.Prelude.{◌≡◌, refl, Bool, Option, none, some, ◌++◌, Bytes}
use zetdb.Prelude.Int.{ℤ}
use zetdb.Bytes.{codes}
use zetdb.Domain.Errors.{EngineError, Result, Outcome, returns, panics, deadlocks, ◌>>=◌}
use zetdb.Domain.Value.{ValueEntry}
use zetdb.Domain.Command.{Command}
use zetdb.Storage.DashMap.{DashMap}
use zetdb.Storage.Itoa.{Itoa}
use zetdb.Storage.Engine
use zetdb.Storage.Engine.{Engine}
use zetdb.Protocol.Response.{Response, write_to_impl, error_text}
use zetdb.Application.Info.{Counters}
use zetdb.Application.Dispatch.{
  Clock, entry_of, dispatch, value_reply, ok_reply, flag_reply, incr_reply,
}
use zetdb.Application.Buffer.{
  write_get, write_flag, write_incr, write_set, write_mset, dispatch_to_buffer,
}

abbrev StartsWith : Bytes → Bytes → Type 0
StartsWith p s = (rest : Bytes) × (s ≡ p ++ rest)

abbrev error_mark : Bytes
error_mark = codes "-ERR "

-- A success is written as the writer of replies writes it, an error as some error line.
abbrev pub Wrote : Itoa → Bool → Bytes → Response → Type 0
Wrote I is_resp out (Response.error e) =
    StartsWith error_mark out × StartsWith error_mark (error_text e)
Wrote I is_resp out r = out ≡ write_to_impl I is_resp r

-- Both calls end in the same way, with the same state.
abbrev pub Agree :
    {E : Type 0} → Itoa → Bool → Outcome (Bytes × E) → Outcome (Response × E) → Type 0
Agree I is_resp (returns (out, s)) (returns (r, s')) = (s ≡ s') × Wrote I is_resp out r
Agree I is_resp panics panics = Unit
Agree I is_resp deadlocks deadlocks = Unit
Agree I is_resp _ _ = ⊥

module _ (I : Itoa) (is_resp : Bool) where
  get-Wrote :
      (r : Result (Option ValueEntry) EngineError)
      → Wrote I is_resp (write_get I is_resp r) (value_reply r)
  unfolding write_get write_to_impl error_text
  get-Wrote (Result.ok none) = refl
  get-Wrote (Result.ok (some e)) = refl
  get-Wrote (Result.err e) = ((_, refl), (_, refl))

  flag-Wrote : (r : Result Bool EngineError) → Wrote I is_resp (write_flag I r) (flag_reply r)
  unfolding write_flag write_to_impl error_text
  flag-Wrote (Result.ok b) = refl
  flag-Wrote (Result.err e) = ((_, refl), (_, refl))

  incr-Wrote : (r : Result ℤ EngineError) → Wrote I is_resp (write_incr I r) (incr_reply r)
  unfolding write_incr write_to_impl error_text
  incr-Wrote (Result.ok n) = refl
  incr-Wrote (Result.err e) = ((_, refl), (_, refl))

  set-Wrote : (r : Result (Unit {0}) EngineError) → Wrote I is_resp (write_set r) (ok_reply r)
  unfolding write_set write_to_impl error_text
  set-Wrote (Result.ok x) = refl
  set-Wrote (Result.err e) = ((_, refl), (_, refl))

  mset-Wrote : (r : Result (Unit {0}) EngineError) → Wrote I is_resp (write_mset r) (ok_reply r)
  unfolding write_mset write_to_impl error_text
  mset-Wrote (Result.ok x) = refl
  mset-Wrote (Result.err e) = ((_, refl), (_, refl))

  bind-Agree :
      {E X : Type 0} (o : Outcome X) (f : X → Outcome (Bytes × E)) (g : X → Outcome (Response × E))
      → ((x : X) → Agree I is_resp (f x) (g x))
      → Agree I is_resp (o >>= f) (o >>= g)
  bind-Agree (returns x) f g h = h x
  bind-Agree panics f g h = tt
  bind-Agree deadlocks f g h = tt

module _ (I : Itoa) {D : DashMap ValueEntry} (m : Counters) (clock : Clock) (is_resp : Bool) where
  -- `dispatch_to_buffer` is `dispatch` and the writer of replies: it ends in the same way with the same
  -- engine, writes the same bytes for every reply but an error, and for an error an error line.
  pub dispatch_to_buffer-eq-dispatch :
      (s : Engine D) (c : Command)
      → Agree I is_resp (dispatch_to_buffer I m clock is_resp s c) (dispatch I m clock s c)
  unfolding dispatch_to_buffer dispatch write_to_impl
  dispatch_to_buffer-eq-dispatch s (Command.get k) = (refl, get-Wrote I is_resp _)
  dispatch_to_buffer-eq-dispatch s (Command.set k v ttl) =
      bind-Agree I is_resp (entry_of v ttl clock) _ _ (λ x. (refl, set-Wrote I is_resp _))
  dispatch_to_buffer-eq-dispatch s (Command.del k) = (refl, flag-Wrote I is_resp _)
  dispatch_to_buffer-eq-dispatch s (Command.incr k) =
      bind-Agree I is_resp (Engine.incr I k (clock 0) (clock 1) s) _ _
        (λ x. (refl, incr-Wrote I is_resp x.0))
  dispatch_to_buffer-eq-dispatch s (Command.expire k seconds) =
      bind-Agree I is_resp (Engine.expire k seconds (clock 0) (clock 1) s) _ _ (λ x. (refl, refl))
  dispatch_to_buffer-eq-dispatch s (Command.mset pairs) = (refl, mset-Wrote I is_resp _)
  dispatch_to_buffer-eq-dispatch s _ = (refl, refl)
