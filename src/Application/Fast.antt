-- ===== src/Application/Fast.antt =====
-- application/dispatcher_fast.rs: `dispatch_fast`, and what it leaves out of `dispatch_to_buffer`.
use zetdb.Prelude.{
  ◌≡◌, ap, inl, inr, Option-cases, false, refl, ◌∙◌, Option, none, some, List, [], ◌∷◌, ◌++◌, Bytes,
  arith, if◌then◌else◌,
}
use zetdb.Bytes.{codes, crlf, bytes_eq}
use zetdb.Domain.Errors.{returns}
use zetdb.Domain.Value.{ValueEntry, new_fast}
use zetdb.Domain.Command.{Command}
use zetdb.Storage.DashMap.{DashMap}
use zetdb.Storage.Itoa.{Itoa}
use zetdb.Storage.Engine
use zetdb.Storage.Engine.{Engine, get_fast, set_fast_str}
use zetdb.Storage.Engine.View.{view, live}
use zetdb.Protocol.Response.{null_bulk, write_value}
use zetdb.Application.Info.{Counters}
use zetdb.Application.Dispatch.{Clock}
use zetdb.Application.Buffer.{dispatch_to_buffer, write_get}

abbrev pub fast_value : Option Bytes → Bytes
fast_value none = null_bulk
fast_value (some data_bytes) = b'+' ∷ (data_bytes ++ crlf)

-- The value of the last SET of a key, or what was there.
abbrev pub last_set : Bytes → List Command → Option Bytes → Option Bytes
last_set j [] o = o
last_set j (Command.set k value ttl ∷ cs) o = last_set j cs (if bytes_eq k j then some value else o)
last_set j (_ ∷ cs) o = last_set j cs o

module _ {D : DashMap ValueEntry} where
  -- What is appended to the buffer, and the engine.
  unfoldable pub dispatch_fast : Engine D → Command → Bytes × Engine D
  unfolding get_fast set_fast_str
  dispatch_fast s (Command.get k) = (fast_value (get_fast k s), s)
  dispatch_fast s (Command.set k value ttl) = (codes "+OK" ++ crlf, set_fast_str k value s)
  dispatch_fast s _ = (codes "-ERR unsupported" ++ crlf, s)

  -- The engine after commands.
  abbrev pub after_fast : List Command → Engine D → Engine D
  after_fast [] s = s
  after_fast (c ∷ cs) s = after_fast cs (dispatch_fast s c).1

  get-set_fast_str :
      (k j v : Bytes) (s : Engine D)
      → get_fast j (set_fast_str k v s) ≡ (if bytes_eq k j then some v else get_fast j s)
  unfolding get_fast set_fast_str new_fast
  get-set_fast_str k j v s = ground (arith, D.get-insert k j (new_fast v) s.map)

  -- A GET on the fast path, after any commands on it, answers the value of the last SET of its key, with a
  -- time to live or without one, and what is in the engine if none set it: no other command of
  -- these has a part in it, and no instant.
  pub dispatch_fast-get_after :
      (cs : List Command) (j : Bytes) (s : Engine D)
      → (dispatch_fast (after_fast cs s) (Command.get j)).0
        ≡ fast_value (last_set j cs (get_fast j s))
  unfolding dispatch_fast
  dispatch_fast-get_after [] j s = refl
  dispatch_fast-get_after (Command.ping ∷ cs) j s = dispatch_fast-get_after cs j s
  dispatch_fast-get_after (Command.get k ∷ cs) j s = dispatch_fast-get_after cs j s
  dispatch_fast-get_after (Command.set k v ttl ∷ cs) j s =
      dispatch_fast-get_after cs j (set_fast_str k v s)
      ∙ ap (λ o. fast_value (last_set j cs o)) (get-set_fast_str k j v s)
  dispatch_fast-get_after (Command.del k ∷ cs) j s = dispatch_fast-get_after cs j s
  dispatch_fast-get_after (Command.incr k ∷ cs) j s = dispatch_fast-get_after cs j s
  dispatch_fast-get_after (Command.info ∷ cs) j s = dispatch_fast-get_after cs j s
  dispatch_fast-get_after (Command.db_size ∷ cs) j s = dispatch_fast-get_after cs j s
  dispatch_fast-get_after (Command.exists k ∷ cs) j s = dispatch_fast-get_after cs j s
  dispatch_fast-get_after (Command.ttl k ∷ cs) j s = dispatch_fast-get_after cs j s
  dispatch_fast-get_after (Command.expire k n ∷ cs) j s = dispatch_fast-get_after cs j s
  dispatch_fast-get_after (Command.flush_db ∷ cs) j s = dispatch_fast-get_after cs j s
  dispatch_fast-get_after (Command.keys ∷ cs) j s = dispatch_fast-get_after cs j s
  dispatch_fast-get_after (Command.mget ks ∷ cs) j s = dispatch_fast-get_after cs j s
  dispatch_fast-get_after (Command.mset ps ∷ cs) j s = dispatch_fast-get_after cs j s

module _ (I : Itoa) {D : DashMap ValueEntry} (m : Counters) (clock : Clock) where
  get_bytes :
      (s : Engine D) (k : Bytes)
      → view s (clock 0) k ≡ D.get k s.map
      → write_get I false (Engine.get k (clock 0) (clock 1) s).0 ≡ fast_value (get_fast k s)
  unfolding view live Engine.get get_fast write_get write_value
  get_bytes s k h = elim (Option-cases (D.get k s.map)) [
    | inl e ↦ ground (arith, e)
    | inr (v, e) ↦ ground (arith, e, h)
  ]

  -- GET on the fast path answers what the full path answers where the entry of the key is not there or
  -- has not expired.
  pub dispatch_fast-eq-dispatch_to_buffer :
      (s : Engine D) (k : Bytes)
      → view s (clock 0) k ≡ D.get k s.map
      → (s' : Engine D) × (dispatch_to_buffer I m clock false s (Command.get k)
          ≡ returns ((dispatch_fast s (Command.get k)).0, s'))
  unfolding dispatch_to_buffer dispatch_fast
  dispatch_fast-eq-dispatch_to_buffer s k h =
      let s' = (Engine.get k (clock 0) (clock 1) s).1 in
      (s', ap (λ b. returns (b, s')) (get_bytes s k h))
