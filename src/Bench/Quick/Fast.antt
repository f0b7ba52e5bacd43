-- ===== src/Bench/Quick/Fast.antt =====
-- bin/pipeline_quick.rs against its own server, which has no log, no metrics and no write timeout: its sessions are
-- the fast ones of server/session.rs.
use zetdb.Prelude.{ℕ, ◌+◌, ◌≡◌, Option, some, Bytes, length}
use zetdb.Storage.Itoa.{Itoa}
use zetdb.Domain.Errors.{Outcome, returns}
use zetdb.Domain.Command.{Command}
use zetdb.Domain.Value.{ValueEntry}
use zetdb.Storage.DashMap.{DashMap}
use zetdb.Storage.Engine.{Engine}
use zetdb.Application.Dictionary.{Dictionary, Represents}
use zetdb.Protocol.Memchr.{Memchr, Memchr2}
use zetdb.Server.Session.{Session}
use zetdb.Bench.Quick.{newlines}
use zetdb.Bench.Quick.Newlines.{IsFlat}

module _ (I : Itoa) (M : Memchr) (M2 : Memchr2) {D : DashMap ValueEntry} where
  -- How the loop over a buffer that holds `n` lines ends.
  abbrev pub FastAnswered : ℕ → Session D → Option (Outcome (ℕ × Session D)) → Type 0
  FastAnswered n s o =
      (s' : Session D) × (o ≡ some (returns (length s.read_buf, s')))
      × ((d : Dictionary) × Represents s'.engine d × IsFlat d)
      × (newlines s'.write_buf ≡ newlines s.write_buf + n)
      × (s'.read_buf ≡ s.read_buf)
