-- ===== src/Server/Session/Meaning.antt =====
-- server/session.rs: a session does what the commands of its client mean (Application.Dictionary), and
-- so does a replay of its log.
use zetdb.Prelude.{◌⊎◌, ◌<◌, ◌≡◌, Bool, true, some, List, [], ◌∷◌, ◌++◌, Bytes, All, length, ℕ}
use zetdb.Domain.Errors.{returns}
use zetdb.Domain.Value.{ValueEntry}
use zetdb.Domain.Command.{Command}
use zetdb.Storage.DashMap.{DashMap}
use zetdb.Storage.Itoa.{Itoa}
use zetdb.Storage.Engine.{Engine}
use zetdb.Storage.Aof.Replay.{Clock, ReadFile, replayed, replay_aof}
use zetdb.Storage.Aof.Writer.{AofWriter, working, flush, contents}
use zetdb.Protocol.Memchr.{Memchr, Memchr2}
use zetdb.Protocol.Response.{Response, write_to_impl}
use zetdb.Application.Dictionary.{Dictionary, IsPlain, meaning, meaning_all, Answers, Represents}
use zetdb.Server.Session.{Env, Session, max_write_buf}
use zetdb.Server.Session.Frames.{with_buf}
use zetdb.Server.Session.Wire.{served}
use zetdb.Server.Session.Turns.{feed}
use zetdb.Server.Session.Logged.{succeeded_of}

-- The replies to the commands, one after the other, are such as the commands may have.
abbrev pub AllAnswer : List Command → Dictionary → List Response → Type 0
AllAnswer [] d [] = Unit
AllAnswer [] d (r ∷ rs) = ⊥
AllAnswer (c ∷ cs) d [] = ⊥
AllAnswer (c ∷ cs) d (r ∷ rs) = Answers c d r × AllAnswer cs (meaning c d) rs

abbrev pub written : Itoa → List Response → Bytes
written I [] = []
written I (r ∷ rs) = write_to_impl I true r ++ written I rs

module _ (I : Itoa) {D : DashMap ValueEntry} (metrics_enabled : Bool) (env : Env) where
  -- How a session ends that does what its commands mean.
  abbrev pub ServesAsMeant : List Command → Dictionary → Session D → Type 0
  ServesAsMeant cs d s =
      (s' : Session D) × (served I metrics_enabled env cs s ≡ returns s')
      × Represents s'.engine (meaning_all cs d)
      × ((rs : List Response) × AllAnswer cs d rs × (s'.write_buf ≡ s.write_buf ++ written I rs))

  -- The commands answered with success mean what all the commands mean.
  abbrev pub LogsAsMeant : List Command → Dictionary → Session D → Type 0
  LogsAsMeant cs d s =
      let logged = succeeded_of I metrics_enabled env cs s in
      (meaning_all logged d ≡ meaning_all cs d) × All IsPlain logged

module _ (I : Itoa) (M : Memchr) (M2 : Memchr2) {D : DashMap ValueEntry} (metrics_enabled : Bool)
    (env : Env) where
  -- What a session with nothing left to send makes of pieces that hold the commands: `rs` is one reply
  -- for each, and unless these are more bytes together than a session keeps, it is open with the replies
  -- sent, and its engine stands for the dictionary that the commands make.
  abbrev pub FeedsAsMeant :
      List Bytes → List Command → Dictionary → Session D → List Response → Type 0
  FeedsAsMeant chunks cs d s rs =
      ((s' : Session D) × (feed I M M2 metrics_enabled env chunks (with_buf [] s)
          ≡ some (returns (true, s')))
        × Represents s'.engine (meaning_all cs d)
        × (s'.output ≡ s.output ++ written I rs))
      ⊎ (max_write_buf < length (written I rs))

module _ (I : Itoa) (M : Memchr) (M2 : Memchr2) {D E : DashMap ValueEntry} (metrics_enabled : Bool)
    (env : Env) where
  -- How the log of such a session and a replay of it end, unless the replies are too many bytes.
  abbrev pub ReplaysAsMeant :
      (ℕ → ℕ)
      → (ℕ → Clock)
      → Engine E
      → List Bytes
      → List Command
      → Dictionary
      → Session D
      → List Response
      → Type 0
  ReplaysAsMeant flush_clock clock engine chunks cs d s rs =
      ((s' : Session D) × (w' : AofWriter) × (n : ℕ) × (engine' : Engine E) × (feed I M M2
            metrics_enabled env chunks (with_buf [] s)
          ≡ some (returns (true, s')))
        × (s'.aof ≡ some w')
        × (replay_aof I clock (ReadFile.contents (flush (working flush_clock) w').1.file) engine
            ≡ some (returns (replayed n engine')))
        × Represents s'.engine (meaning_all cs d)
        × Represents engine' (meaning_all cs d))
      ⊎ (max_write_buf < length (written I rs))
