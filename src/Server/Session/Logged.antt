-- ===== src/Server/Session/Logged.antt =====
-- server/session.rs: what a RESP session appends to the log, and what a replay of it does.
use zetdb.Prelude.{
  ℕ, ◌+◌, ◌≤◌, ◌<◌, ◌≡◌, refl, sym, ap, ◌∙◌, Bool, true, false, Option, none, some, List, [], ◌∷◌,
  ◌++◌, append_assoc, append-nil, Bytes, All, length, length-append, if◌then◌else◌, if_rule, arith,
}
use zetdb.Domain.Errors.{Outcome, returns, panics, deadlocks, ◌>>=◌}
use zetdb.Domain.Value.{ValueEntry}
use zetdb.Domain.Command.{Command, is_write}
use zetdb.Storage.DashMap.{DashMap}
use zetdb.Storage.Itoa.{Itoa}
use zetdb.Storage.Engine.{Engine}
use zetdb.Storage.Aof.Entry.{to_aof_entry}
use zetdb.Storage.Aof.Entry.RoundTrip.{FitsLog}
use zetdb.Storage.Aof.Replay.Log.{or_nothing, log_of, apply_all, replay_aof-log_of}
use zetdb.Storage.Aof.Replay.{Clock, ReadFile, as_replayed, replay_aof}
use zetdb.Storage.Aof.Writer.{AofWriter, Disk, working, aof_batch_size, append_raw, flush, contents}
use zetdb.Storage.Aof.Writer.Appends.{flush_lem}
use zetdb.Protocol.Memchr.{Memchr, Memchr2}
use zetdb.Protocol.Inline.{try_parse_frame}
use zetdb.Protocol.Response.{Response, is_success}
use zetdb.Server.Session.{Env, Session, aof_entry_of, append_entry}
use zetdb.Server.Session.Frames.{with_buf}
use zetdb.Server.Session.Wire.{IsSendable, wires, reply_of, replied, served}
use zetdb.Server.Session.Turns.{concat, feed}
use zetdb.Server.Session.Pieces.{feed-served}

to_aof_entry_read : (c : Command) → is_write c ≡ false → to_aof_entry c ≡ none
unfolding to_aof_entry is_write
to_aof_entry_read c e = ground arith

aof_entry_of-eq : (w : AofWriter) (c : Command) → aof_entry_of (some w) c ≡ to_aof_entry c
unfolding aof_entry_of
aof_entry_of-eq w c = ground (arith, to_aof_entry_read c)

-- The batch with more behind it.
abbrev pub with_batch : AofWriter → Bytes → AofWriter
with_batch w bs = record w { batch = w.batch ++ bs }

append_entry_room :
    (o : Option Bytes) (succeeded : Bool) (d : Disk) (w : AofWriter)
    → length w.batch + length (or_nothing o) < aof_batch_size
    → append_entry o succeeded d (some w)
      ≡ some (with_batch w (if succeeded then or_nothing o else []))
unfolding append_entry append_raw
append_entry_room none true d w h = rw (append-nil w.batch) refl
append_entry_room none false d w h = rw (append-nil w.batch) refl
append_entry_room (some bs) true d w h = ground (arith, length-append w.batch bs, h)
append_entry_room (some bs) false d w h = rw (append-nil w.batch) refl

-- The writer with the entry of a command that succeeded.
abbrev appended : Command → AofWriter → Bool → AofWriter
appended c w b = with_batch w (if b then or_nothing (to_aof_entry c) else [])

length-appended :
    (c : Command) (w : AofWriter) (b : Bool)
    → length (appended c w b).batch ≤ length w.batch + length (or_nothing (to_aof_entry c))
length-appended c w true = omega (arith, length-append w.batch (or_nothing (to_aof_entry c)))
length-appended c w false = omega (arith, length-append w.batch [])

regroup :
    (b : Bool) (c : Command) (rest : List Command) (w : AofWriter)
    → with_batch (with_batch w (if b then or_nothing (to_aof_entry c) else [])) (log_of rest)
      ≡ with_batch w (log_of (if b then c ∷ rest else rest))
unfolding log_of
regroup true c rest w =
    ap (λ x. record w { batch = x })
      (append_assoc w.batch (or_nothing (to_aof_entry c)) (log_of rest))
regroup false c rest w = ap (λ x. record w { batch = x ++ log_of rest }) (append-nil w.batch)

module _ (I : Itoa) {D : DashMap ValueEntry} (metrics_enabled : Bool) (env : Env) where
  -- The commands that the session answers with success, in their order.
  unfoldable pub succeeded_of : List Command → Session D → List Command
  succeeded_of [] s = []
  succeeded_of (c ∷ cs) s = elim (reply_of I metrics_enabled env c s) [
    | returns x ↦
        let rest = succeeded_of cs (replied I metrics_enabled env c s x) in
        if is_success x.0 then c ∷ rest else rest
    | panics ↦ []
    | deadlocks ↦ []
  ]

  aof-replied :
      (c : Command) (s : Session D) (w : AofWriter) (x : Response × Engine D)
      → s.aof ≡ some w
      → length w.batch + length (or_nothing (to_aof_entry c)) < aof_batch_size
      → (replied I metrics_enabled env c s x).aof ≡ some (appended c w (is_success x.0))
  aof-replied c s w x e room =
      ap (λ a. append_entry (aof_entry_of a c) (is_success x.0) (env.disk s.commands) a) e
      ∙ ap (λ o. append_entry o (is_success x.0) (env.disk s.commands) (some w))
          (aof_entry_of-eq w c)
      ∙ append_entry_room (to_aof_entry c) (is_success x.0) (env.disk s.commands) w room

  -- The rest of the session, whatever the first command is answered.
  aof-after :
      (c : Command) (cs : List Command) (s s' : Session D) (w : AofWriter)
      (o : Outcome (Response × Engine D))
      → s.aof ≡ some w
      → length w.batch + length (log_of (c ∷ cs)) < aof_batch_size
      → ((t : Session D) (v : AofWriter)
          → t.aof ≡ some v
          → length v.batch + length (log_of cs) < aof_batch_size
          → served I metrics_enabled env cs t ≡ returns s'
          → s'.aof ≡ some (with_batch v (log_of (succeeded_of cs t))))
      → ((o >>= λ x. returns (replied I metrics_enabled env c s x))
          >>= served I metrics_enabled env cs)
        ≡ returns s'
      → s'.aof
        ≡ some (
            with_batch w (
              log_of (elim o as (λ x. List Command) [
                | returns x ↦
                    let rest = succeeded_of cs (replied I metrics_enabled env c s x) in
                    if is_success x.0 then c ∷ rest else rest
                | panics ↦ []
                | deadlocks ↦ []
              ])))
  unfolding log_of
  aof-after c cs s s' w (returns x) e room ih done =
      let entry = or_nothing (to_aof_entry c) in
      let both = length-append entry (log_of cs) in
      let t = replied I metrics_enabled env c s x in
      ih t (appended c w (is_success x.0)) (aof-replied c s w x e (omega (arith, room, both)))
        (omega (arith, room, both, length-appended c w (is_success x.0))) done
      ∙ ap some (regroup (is_success x.0) c (succeeded_of cs t) w)
  aof-after c cs s s' w panics e room ih done = absurd (cc)
  aof-after c cs s s' w deadlocks e room ih done = absurd (cc)

  -- What the session appends while the batch has room for the entries of all its commands.
  aof-served :
      (cs : List Command) (s s' : Session D) (w : AofWriter)
      → s.aof ≡ some w
      → length w.batch + length (log_of cs) < aof_batch_size
      → served I metrics_enabled env cs s ≡ returns s'
      → s'.aof ≡ some (with_batch w (log_of (succeeded_of cs s)))
  unfolding succeeded_of log_of
  aof-served [] s s' w e room done =
      let same : s ≡ s' = cc in
      sym (ap (λ t. t.aof) same)
      ∙ e
      ∙ ap (λ b. some (record w { batch = b })) (sym (append-nil w.batch))
  aof-served (c ∷ cs) s s' w e room done =
      aof-after c cs s s' w (reply_of I metrics_enabled env c s) e room
        (λ t v. aof-served cs t s' v) done

  succeeded_of-FitsLog :
      (cs : List Command) (s : Session D) → All FitsLog cs → All FitsLog (succeeded_of cs s)
  unfolding succeeded_of
  succeeded_of-FitsLog [] s h = tt
  succeeded_of-FitsLog (c ∷ cs) s h =
      fits_after (reply_of I metrics_enabled env c s) (λ t. succeeded_of-FitsLog cs t h.1)
    where
      fits_after :
          (o : Outcome (Response × Engine D))
          → ((t : Session D) → All FitsLog (succeeded_of cs t))
          → All FitsLog (elim o as (λ x. List Command) [
            | returns x ↦
                let rest = succeeded_of cs (replied I metrics_enabled env c s x) in
                if is_success x.0 then c ∷ rest else rest
            | panics ↦ []
            | deadlocks ↦ []
          ])
      fits_after (returns x) ih =
          let t = replied I metrics_enabled env c s x in
          if_rule (All FitsLog) (is_success x.0) (h.0, ih t) (ih t)
      fits_after panics ih = tt
      fits_after deadlocks ih = tt

module _ (I : Itoa) (M : Memchr) (M2 : Memchr2) {D E : DashMap ValueEntry} (metrics_enabled : Bool)
    (env : Env) where
  -- A client that sends commands one after the other, each of which fits a frame and an entry of the log, in
  -- any pieces of a byte at least, to a session with a new log, whose batch has room for all
  -- their entries: if the session is open after them, then a flush on a disk that works and a replay of the
  -- file apply the commands that were answered with success, each once, in their order.
  pub replay_aof-feed :
      (chunks : List Bytes) (cs : List Command) (s s' : Session D) (w : AofWriter)
      (flush_clock : ℕ → ℕ) (clock : ℕ → Clock) (engine : Engine E)
      → All IsSendable cs
      → All FitsLog cs
      → All (λ b. 0 < length b) chunks
      → concat chunks ≡ wires cs
      → s.aof ≡ some w
      → contents w ≡ []
      → length (log_of cs) < aof_batch_size
      → feed I M M2 metrics_enabled env chunks (with_buf [] s) ≡ some (returns (true, s'))
      → (w' : AofWriter) × (s'.aof ≡ some w')
        × (replay_aof I clock (ReadFile.contents (flush (working flush_clock) w').1.file) engine
            ≡ some (
                as_replayed (
                  apply_all I clock 0
                    (succeeded_of I metrics_enabled env cs (with_buf [] s))
                    engine)))
  replay_aof-feed chunks cs s s' w flush_clock clock engine sendable fits pieces whole log new room
        fed =
      let (t, done, same) =
        feed-served I M M2 metrics_enabled env chunks cs [] s s' sendable pieces
          (unfold try_parse_frame in refl) whole fed in
      let empty : length w.file + length w.batch ≡ 0 =
        omega (arith, ap length new, length-append w.file w.batch) in
      let logged = succeeded_of I metrics_enabled env cs (with_buf [] s) in
      (
        with_batch w (log_of logged),
        ap (λ u. u.aof) same
            ∙ aof-served I metrics_enabled env cs (with_buf [] s) t w log
                (omega (arith, empty, room)) done,
        ap (λ bs. replay_aof I clock (ReadFile.contents bs) engine)
              ((flush_lem flush_clock (with_batch w (log_of logged))).1
                ∙ sym (append_assoc w.file w.batch (log_of logged))
                ∙ ap (λ b. b ++ log_of logged) new)
            ∙ replay_aof-log_of I clock logged engine
                (succeeded_of-FitsLog I metrics_enabled env cs (with_buf [] s) fits),
      )
