-- ===== src/Server/Session/Sent.antt =====
-- server/session.rs: a turn whose replies are sent, and what the sending leaves as it was.
use zetdb.Prelude.{
  ◌≤◌, ◌<◌, ◌≡◌, refl, sym, ap, ◌∙◌, Bool, true, false, Option, some, List, [], ◌∷◌, ◌++◌,
  append_assoc, append-nil, Bytes, length, is_empty, ltb, arith, if◌then◌else◌,
}
use zetdb.Domain.Errors.{Outcome, returns, panics, deadlocks, ◌>>=◌}
use zetdb.Domain.Value.{ValueEntry}
use zetdb.Domain.Command.{Command}
use zetdb.Storage.DashMap.{DashMap}
use zetdb.Storage.Itoa.{Itoa}
use zetdb.Storage.Engine.{Engine}
use zetdb.Protocol.Response.{Response, write_to_impl}
use zetdb.Server.Session.{Env, Session, max_read_buf, max_write_buf, turn}
use zetdb.Server.Session.Frames.{with_buf}
use zetdb.Server.Session.Wire.{reply_of, replied, served}

-- The session once its replies have been written to the socket.
abbrev pub sent : {D : DashMap ValueEntry} → Session D → Session D
sent s = record s { output = s.output ++ s.write_buf; write_buf = [] }

-- The end of a turn whose write succeeds.
abbrev pub flushed : {D : DashMap ValueEntry} → Session D → Bool × Session D
flushed s =
    if ltb max_write_buf (length s.write_buf)
    then (false, s)
    else if is_empty s.write_buf
    then (true, s)
    else (true, sent s)

-- Where there is nothing to send, nothing changes.
pub sent_nothing : {D : DashMap ValueEntry} (s : Session D) → s.write_buf ≡ [] → s ≡ sent s
sent_nothing s e =
    ap (λ o. record s { output = o; write_buf = s.write_buf }) (sym (append-nil s.output))
    ∙ ap (λ b. record s { output = s.output ++ b; write_buf = s.write_buf }) (sym e)
    ∙ ap (λ b. record s { output = s.output ++ s.write_buf; write_buf = b }) e

sent_empty :
    {D : DashMap ValueEntry} (s : Session D) (b : Bytes)
    → s.write_buf ≡ b
    → ◌≡◌ {A = Bool × Session D} (if is_empty b then (true, s) else (true, sent s)) (true, sent s)
sent_empty s [] e = ap (λ t. (true, t)) (sent_nothing s e)
sent_empty s (x ∷ b) e = refl

pub flushed_small :
    {D : DashMap ValueEntry} (s : Session D)
    → length s.write_buf ≤ max_write_buf
    → flushed s ≡ (true, sent s)
flushed_small s h =
    let small : ltb max_write_buf (length s.write_buf) ≡ false = ground arith in
    rw small (sent_empty s s.write_buf refl)

nonempty : (b : Bytes) → 0 < length b → is_empty b ≡ false
nonempty [] h = absurd (omega (arith, h))
nonempty (x ∷ b) h = refl

module _ {D : DashMap ValueEntry} (process : Session D → Option (Outcome (Session D))) where
  pub turn_read :
      (b : Bytes) (s : Session D) (o : Outcome (Session D))
      → 0 < length b
      → length (s.read_buf ++ b) ≤ max_read_buf
      → process (with_buf (s.read_buf ++ b) s) ≡ some o
      → turn process (some b, true) s ≡ some (o >>= λ t. returns (flushed t))
  unfolding turn
  turn_read b s o l h e =
      let small : ltb max_read_buf (length (s.read_buf ++ b)) ≡ false = ground arith in
      rw (nonempty b l, small, e) refl

  pub turn_too_long :
      (b : Bytes) (s : Session D)
      → 0 < length b
      → max_read_buf < length (s.read_buf ++ b)
      → turn process (some b, true) s ≡ some (returns (false, with_buf (s.read_buf ++ b) s))
  unfolding turn
  turn_too_long b s l h =
      let long : ltb max_read_buf (length (s.read_buf ++ b)) ≡ true = ground arith in
      rw (nonempty b l, long) refl

module _ (I : Itoa) {D : DashMap ValueEntry} (metrics_enabled : Bool) (env : Env) where
  sent-replied :
      (c : Command) (s : Session D) (x : Response × Engine D)
      → sent (replied I metrics_enabled env c s x)
        ≡ sent (replied I metrics_enabled env c (sent s) x)
  sent-replied c s x =
      ap (λ o. record (sent (replied I metrics_enabled env c s x)) { output = o })
        (sym (append_assoc s.output s.write_buf (write_to_impl I true x.0)))

  abbrev all_sent : List Command → Session D → Outcome (Session D)
  all_sent cs s = served I metrics_enabled env cs s >>= λ t. returns (sent t)

  reply_sent :
      (cs : List Command) (c : Command) (s : Session D) (o : Outcome (Response × Engine D))
      → ((u : Session D) → all_sent cs u ≡ all_sent cs (sent u))
      → ◌≡◌ {A = Outcome (Session D)}
          (((o >>= λ x. returns (replied I metrics_enabled env c s x))
              >>= served I metrics_enabled env cs)
            >>= λ t. returns (sent t))
          (((o >>= λ x. returns (replied I metrics_enabled env c (sent s) x))
              >>= served I metrics_enabled env cs)
            >>= λ t. returns (sent t))
  reply_sent cs c s (returns x) h =
      h (replied I metrics_enabled env c s x)
      ∙ ap (all_sent cs) (sent-replied c s x)
      ∙ sym (h (replied I metrics_enabled env c (sent s) x))
  reply_sent cs c s panics h = refl
  reply_sent cs c s deadlocks h = refl

  served-sent : (cs : List Command) (s : Session D) → all_sent cs s ≡ all_sent cs (sent s)
  served-sent [] s =
      ap (λ o. returns (record (sent s) { output = o }))
        (sym (append-nil (s.output ++ s.write_buf)))
  served-sent (c ∷ cs) s = reply_sent cs c s (reply_of I metrics_enabled env c s) (served-sent cs)

  returned :
      (o : Outcome (Session D)) (u : Session D)
      → (o >>= λ t. returns (sent t)) ≡ returns u
      → (t : Session D) × (o ≡ returns t) × (sent t ≡ u)
  returned (returns t) u e = (t, refl, cc)
  returned panics u e = absurd cc
  returned deadlocks u e = absurd cc

  -- Whether the replies so far have been sent makes no difference to those that come.
  pub sent_before :
      (cs : List Command) (s t : Session D)
      → served I metrics_enabled env cs s ≡ returns t
      → (t' : Session D) × (served I metrics_enabled env cs (sent s) ≡ returns t')
        × (sent t' ≡ sent t)
  sent_before cs s t e =
      returned (served I metrics_enabled env cs (sent s)) (sent t)
        (sym (served-sent cs s) ∙ ap (λ o. o >>= λ x. returns (sent x)) e)

  pub sent_after :
      (cs : List Command) (s t : Session D)
      → served I metrics_enabled env cs (sent s) ≡ returns t
      → (t' : Session D) × (served I metrics_enabled env cs s ≡ returns t') × (sent t' ≡ sent t)
  sent_after cs s t e =
      returned (served I metrics_enabled env cs s) (sent t)
        (served-sent cs s ∙ ap (λ o. o >>= λ x. returns (sent x)) e)

  abbrev Joins : Session D → Session D → Type 0
  Joins s t = (x : Bytes) × (t.write_buf ≡ s.write_buf ++ x) × (t.output ≡ s.output)

  reply-Joins :
      (cs : List Command) (c : Command) (s t : Session D) (o : Outcome (Response × Engine D))
      → ((u : Session D) → served I metrics_enabled env cs u ≡ returns t → Joins u t)
      → ((o >>= λ x. returns (replied I metrics_enabled env c s x))
          >>= served I metrics_enabled env cs)
        ≡ returns t
      → Joins s t
  reply-Joins cs c s t (returns x) h e =
      let (y, f, g) = h (replied I metrics_enabled env c s x) e in
      let bytes = write_to_impl I true x.0 in (bytes ++ y, f ∙ append_assoc s.write_buf bytes y, g)
  reply-Joins cs c s t panics h e = absurd cc
  reply-Joins cs c s t deadlocks h e = absurd cc

  -- The replies join the buffer, and nothing is sent.
  pub served-write_buf :
      (cs : List Command) (s t : Session D)
      → served I metrics_enabled env cs s ≡ returns t
      → (x : Bytes) × (t.write_buf ≡ s.write_buf ++ x) × (t.output ≡ s.output)
  served-write_buf [] s t e =
      let same : s ≡ t = cc in
      (
        [],
        ap (λ u. u.write_buf) (sym same) ∙ sym (append-nil s.write_buf),
        ap (λ u. u.output) (sym same),
      )
  served-write_buf (c ∷ cs) s t e =
      reply-Joins cs c s t (reply_of I metrics_enabled env c s) (λ u. served-write_buf cs u t) e
