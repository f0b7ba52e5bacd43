-- ===== src/Storage/Aof/Replay/Unlimited.antt =====
-- storage/aof.rs: a replay on an engine with no limit on the keys, as the server makes it, never waits for
-- a lock of the engine.
use zetdb.Storage.DashMap.{DashMap}
use zetdb.Storage.Itoa.{Itoa}
use zetdb.Storage.Engine
use zetdb.Storage.Engine.{Engine}
use zetdb.Storage.Aof.Entry
