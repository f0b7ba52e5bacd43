-- ===== src/Tests/Data.antt =====
-- The stores and entries of the tests.
use zetdb.Prelude.{none, some, [], ◌∷◌, Bytes}
use zetdb.Bytes.{codes}
use zetdb.Domain.Value.{ValueEntry}
use zetdb.Storage.Engine.{Engine}
use zetdb.Storage.Table.{table}

abbrev pub hits : Bytes
hits = codes "hits"

abbrev pub name : Bytes
name = codes "name"

-- An integer with no deadline.
abbrev pub seven : ValueEntry
seven = record { bytes = codes "7"; expires_at = none; created_at = some 1 }

-- A word that expires at 100.
abbrev pub word : ValueEntry
word = record { bytes = codes "ana"; expires_at = some 100; created_at = some 2 }

abbrev pub Store : Type 0
Store = Engine (table ValueEntry)

abbrev pub store : Store
store = record { map = (hits, seven) ∷ (name, word) ∷ []; max_keys = 0 }

-- The same entries, and no room for more.
abbrev pub full : Store
full = record { map = (hits, seven) ∷ (name, word) ∷ []; max_keys = 2 }

-- One entry, which expires at 100, and no room for more.
abbrev pub stale : Store
stale = record { map = (name, word) ∷ []; max_keys = 1 }
