-- ===== src/Tests/Meaning.antt =====
-- What commands mean, at a client that sets a key, counts it up and reads it.
use zetdb.Prelude.{refl, none, some, List, [], ◌∷◌, take, drop, arith, Bytes}
use zetdb.Bytes.{codes}
use zetdb.Domain.Value.{ValueEntry}
use zetdb.Domain.Command.{Command}
use zetdb.Storage.Itoa.{display_itoa}
use zetdb.Storage.Table.{table}
use zetdb.Storage.Engine.{new_engine}
use zetdb.Protocol.Response.{Response}
use zetdb.Application.Dispatch.{dispatch}
use zetdb.Application.Dictionary.{Dictionary, updated, nothing_stored, Represents}
use zetdb.Application.Dictionary.Refines.{DoesAsMeant, dispatch-meaning}
use zetdb.Server.Session.{Session}
use zetdb.Server.Session.Wire.{wires}
use zetdb.Tests.Application.{counters, ticks_from}
use zetdb.Tests.Data.{hits, name, seven, Store}
use zetdb.Tests.Recovery.{new_log}
use zetdb.Tests.Server.{session}

abbrev one_entry : Store
one_entry = record { map = (hits, seven) ∷ []; max_keys = 0 }

-- What `one_entry` stands for.
abbrev seven_hits : Dictionary
seven_hits = updated hits (some (codes "7")) nothing_stored

one_entry-Represents : Represents one_entry seven_hits
one_entry-Represents = (refl, λ j. ground (arith), λ j e h. ground (arith, h))

abbrev new_store : Store
new_store = new_engine (table ValueEntry)

dispatch-meaning_example :
    DoesAsMeant
      (Command.incr hits)
      seven_hits
      (dispatch display_itoa counters (ticks_from 50) one_entry (Command.incr hits))
dispatch-meaning_example =
    dispatch-meaning display_itoa counters (ticks_from 50) (Command.incr hits) one_entry seven_hits
      tt one_entry-Represents

abbrev counting : List Command
counting =
    Command.set hits (codes "7") none
    ∷ Command.incr hits
    ∷ Command.incr name
    ∷ Command.get hits
    ∷ []

-- Their bytes, cut inside the second.
abbrev counting_pieces : List Bytes
counting_pieces = take 40 (wires counting) ∷ drop 40 (wires counting) ∷ []

abbrev fresh : Session (table ValueEntry)
fresh = record session { engine = new_store; aof = some new_log }
