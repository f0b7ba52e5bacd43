-- ===== src/Tests/Reads.antt =====
-- The reads of the engine at concrete stores.
use zetdb.Prelude.{ℕ, ◌≤◌, ◌≡◌, Bytes}
use zetdb.Domain.Errors.{ok}
use zetdb.Storage.Engine.{get}
use zetdb.Storage.Engine.View.{view}
use zetdb.Storage.Engine.Reads.{get_lem}
use zetdb.Tests.Data.{name, store}

get_lem_example :
    ((get name 200 201 store).0 ≡ ok (view store 200 name))
    × ((t : ℕ) (j : Bytes) → 201 ≤ t → view (get name 200 201 store).1 t j ≡ view store t j)
get_lem_example = get_lem store name 200 201
