-- ===== src/Application/Dictionary/Refines.antt =====
-- application/dispatcher.rs: `dispatch` does what the commands mean.
use zetdb.Prelude.{◌≡◌, refl, ap, false, none, some, arith, inl, inr, Option-cases}
use zetdb.Domain.Errors.{Outcome, returns}
use zetdb.Domain.Value.{ValueEntry, new}
use zetdb.Domain.Command.{Command}
use zetdb.Storage.DashMap.{DashMap}
use zetdb.Storage.Itoa.{Itoa}
use zetdb.Storage.Engine
use zetdb.Storage.Engine.{Engine}
use zetdb.Protocol.Response.{Response, is_success}
use zetdb.Application.Info.{Counters}
use zetdb.Application.Dispatch.{Clock, dispatch, entry_of, flag, flag_reply, ok_reply, incr_reply}
use zetdb.Application.Dictionary.{
  Dictionary, counted, IsPlain, meaning, meant_reply, Answers, Represents,
}
use zetdb.Application.Dictionary.Operations.{
  set-Represents, del-Represents, clear-Represents, get-Represents, exists-Represents,
  ttl_secs-Represents, mget-Represents, elem-keys, mset-Represents, incr-Represents,
}

module _ {D : DashMap ValueEntry} where
  -- How a command ends that does what it means.
  abbrev pub DoesAsMeant : Command → Dictionary → Outcome (Response × Engine D) → Type 0
  DoesAsMeant c d o =
      (r : Response) × (s' : Engine D) × (o ≡ returns (r, s'))
      × Answers c d r
      × Represents s' (meaning c d)

module _ (I : Itoa) {D : DashMap ValueEntry} (m : Counters) (clock : Clock) where
  -- On an engine that stands for a dictionary, `dispatch` of a command other than EXPIRE and SET with
  -- a time to live returns, whatever the clock says; its reply is one that the command may have on the
  -- dictionary (of INFO and DBSIZE nothing is said), and the engine then stands for the dictionary that
  -- the command makes.
  pub dispatch-meaning :
      (c : Command) (s : Engine D) (d : Dictionary)
      → IsPlain c
      → Represents s d
      → DoesAsMeant c d (dispatch I m clock s c)
  unfolding dispatch entry_of meaning meant_reply
  dispatch-meaning Command.ping s d p h = (_, _, refl, refl, h)
  dispatch-meaning (Command.get k) s d p h =
      let (reply, same) = get-Represents k (clock 0) (clock 1) s d h in
      (_, _, refl, reply, rw same h)
  dispatch-meaning (Command.set k v none) s d p h =
      let (done, kept) = set-Represents k (new (clock 0) v) (clock 1) s d h (unfold new in refl) in
      (
        ok_reply (Engine.set k (new (clock 0) v) (clock 1) s).0,
        (Engine.set k (new (clock 0) v) (clock 1) s).1,
        refl,
        ap ok_reply done,
        unfold new in kept,
      )
  dispatch-meaning (Command.set k v (some dur)) s d p h = absurd cc
  dispatch-meaning (Command.del k) s d p h =
      let (done, kept) = del-Represents k (clock 0) s d h in (_, _, refl, ap flag_reply done, kept)
  dispatch-meaning (Command.incr k) s d p h =
      let (r, s', e, reply, kept) = incr-Represents I k (clock 0) (clock 1) s d h in
      (incr_reply r, s', rw e refl, reply, kept)
  dispatch-meaning Command.info s d p h = (_, _, refl, tt, h)
  dispatch-meaning Command.db_size s d p h = (_, _, refl, tt, h)
  dispatch-meaning (Command.exists k) s d p h =
      let (b, same) = exists-Represents k (clock 0) (clock 1) s d h in
      (_, _, refl, ap (λ x. Response.integer (flag x)) b, rw same h)
  dispatch-meaning (Command.ttl k) s d p h =
      let (n, same) = ttl_secs-Represents k (clock 0) (clock 1) s d h in
      (_, _, refl, ap Response.integer n, rw same h)
  dispatch-meaning (Command.expire k seconds) s d p h = absurd p
  dispatch-meaning Command.flush_db s d p h = (_, _, refl, refl, clear-Represents s d h)
  dispatch-meaning Command.keys s d p h =
      (_, _, refl, (Engine.keys (clock 0) s, refl, λ k. elem-keys (clock 0) s d h k), h)
  dispatch-meaning (Command.mget ks) s d p h =
      (_, _, refl, ap Response.array (mget-Represents ks (clock 0) s d h), h)
  dispatch-meaning (Command.mset pairs) s d p h =
      let (done, kept) = mset-Represents pairs 0 clock s d h in (_, _, refl, ap ok_reply done, kept)

-- A command that is answered with an error has changed nothing.
pub meaning_refused :
    (c : Command) (d : Dictionary) (r : Response)
    → Answers c d r
    → is_success r ≡ false
    → meaning c d ≡ d
unfolding meaning meant_reply is_success
meaning_refused Command.ping d r a f = refl
meaning_refused (Command.get k) d r a f = refl
meaning_refused (Command.set k v ttl) d r a f = absurd (ground (arith, a, f))
meaning_refused (Command.del k) d r a f = absurd (ground (arith, a, f))
meaning_refused (Command.incr k) d r a f = elim (Option-cases (counted (d k))) [
  | inl e ↦ rw e refl
  | inr (n, e) ↦ absurd (ground (arith, a, f))
]
meaning_refused Command.info d r a f = refl
meaning_refused Command.db_size d r a f = refl
meaning_refused (Command.exists k) d r a f = refl
meaning_refused (Command.ttl k) d r a f = refl
meaning_refused (Command.expire k seconds) d r a f = refl
meaning_refused Command.flush_db d r a f = absurd (ground (arith, a, f))
meaning_refused Command.keys d r a f = refl
meaning_refused (Command.mget ks) d r a f = refl
meaning_refused (Command.mset pairs) d r a f = absurd (ground (arith, a, f))
