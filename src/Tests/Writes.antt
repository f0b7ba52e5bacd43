-- ===== src/Tests/Writes.antt =====
-- The writes of the engine at concrete stores.
use zetdb.Prelude.{ℕ, ◌+◌, ◌≤◌, ◌≡◌, Bytes, arith, is_some, if◌then◌else◌}
use zetdb.Bytes.{bytes_eq}
use zetdb.Domain.Errors.{returns}
use zetdb.Domain.Value.{from_secs}
use zetdb.Storage.Engine.{expire}
use zetdb.Storage.Engine.View.{view}
use zetdb.Storage.Engine.Writes.{expire_lem, with_deadline}
use zetdb.Tests.Data.{hits, Store, store}

expire_lem_example :
    (s' : Store) × (expire hits 10 50 51 store ≡ returns (is_some (view store 50 hits), s'))
    × ((t : ℕ) (j : Bytes)
        → 51 ≤ t
        → view s' t j ≡ (
            if bytes_eq hits j
            then with_deadline t (51 + from_secs 10) (view store 50 hits)
            else view store t j))
expire_lem_example = expire_lem hits 10 50 51 store (omega arith) (omega arith)
