-- ===== src/Tests/Capacity.antt =====
-- The limit on the keys at concrete stores.
use zetdb.Prelude.{◌<◌, ◌≡◌, ◌↔◌, none, [], arith}
use zetdb.Bytes.{bytes_eq, codes}
use zetdb.Domain.Errors.{err, out_of_memory}
use zetdb.Domain.Value.{ValueEntry}
use zetdb.Storage.Engine.{set}
use zetdb.Storage.Engine.Evict.{live_entries}
use zetdb.Storage.Engine.Capacity.{IsBounded, set-IsBounded, set_out_of_memory}
use zetdb.Storage.Table.{table}
use zetdb.Tests.Data.{hits, seven, full, stale}

set-IsBounded_example : IsBounded (set (codes "new") seven 50 full).1
unfolding bytes_eq
set-IsBounded_example = set-IsBounded (codes "new") seven 50 full (omega arith)

set_out_of_memory_example : ((set hits seven 150 stale).0 ≡ err out_of_memory) ↔ (
    (0 < stale.max_keys)
    × ((table ValueEntry).get hits stale.map ≡ none)
    × ((table ValueEntry).len stale.map ≡ stale.max_keys)
    × (live_entries 150 ((table ValueEntry).entries stale.map) ≡ []))
unfolding bytes_eq
set_out_of_memory_example = set_out_of_memory hits seven 150 stale (omega arith)
