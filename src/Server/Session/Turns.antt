-- ===== src/Server/Session/Turns.antt =====
-- server/session.rs: the turns of a session that reads the bytes of a client in pieces.
use mathlib.Core.Path.{subst}
use zetdb.Protocol.Frame.Client.{resp_command}
use zetdb.Prelude.{
  ℕ, ◌^◌, ◌<◌, ◌≤◌, ◌≡◌, inl, inr, Bool-cases, false, ltb, if◌then◌else◌, refl, sym, ap, ◌∙◌, Bool,
  true, Option, some, List, [], ◌∷◌, ◌++◌, Bytes, All, length, length-append, arith,
}
use zetdb.Domain.Errors.{Outcome, returns, panics, deadlocks, ◌>>=◌, ok}
use zetdb.Domain.Value.{ValueEntry}
use zetdb.Domain.Command.{Command}
use zetdb.Storage.DashMap.{DashMap}
use zetdb.Storage.Itoa.{Itoa}
use zetdb.Storage.Engine.{Engine}
use zetdb.Protocol.Memchr.{Memchr, Memchr2}
use zetdb.Protocol.Response.{Response}
use zetdb.Protocol.Scan.{incomplete}
use zetdb.Protocol.Inline.{try_parse_frame}
use zetdb.Server.Session.{
  Env, Session, Event, max_read_buf, max_write_buf, process_batch, starts_resp, turn, run_turns,
}
use zetdb.Server.Session.Sent.{sent, flushed, flushed_small, turn_read}
use zetdb.Server.Session.Frames.{with_buf}
use zetdb.Server.Session.Wire.{
  IsSendable, wires, cut_twice, replied, reply_of, answer, served, process_batch-wires,
  try_parse_frame-wire,
}

abbrev pub concat : List Bytes → Bytes
concat [] = []
concat (b ∷ bs) = b ++ concat bs

-- Half of what a session reads before it closes.
abbrev pub piece_limit : ℕ
piece_limit = 2 ^ 19

abbrev pub IsSmall : Command → Type 0
IsSmall c = length (resp_command c) ≤ piece_limit

abbrev pub IsPiece : Bytes → Type 0
IsPiece b = (0 < length b) × (length b ≤ piece_limit)

-- What the socket returns: the pieces one after the other, and no write fails.
abbrev pub arriving : List Bytes → List Event
arriving [] = []
arriving (b ∷ bs) = (some b, true) ∷ arriving bs

pub bind_assoc :
    {A B C : Type 0} (o : Outcome A) (f : A → Outcome B) (g : B → Outcome C)
    → ((o >>= f) >>= g) ≡ (o >>= λ x. f x >>= g)
bind_assoc (returns x) f g = refl
bind_assoc panics f g = refl
bind_assoc deadlocks f g = refl

bind-congr :
    {A B : Type 0} (o : Outcome A) (f g : A → Outcome B)
    → ((x : A) → f x ≡ g x)
    → (o >>= f) ≡ (o >>= g)
bind-congr (returns x) f g h = h x
bind-congr panics f g h = refl
bind-congr deadlocks f g h = refl

pub starts_resp-wires :
    (cs : List Command) (b rest : Bytes)
    → b ++ rest ≡ wires cs
    → 0 < length b
    → starts_resp b ≡ true
starts_resp-wires cs [] rest e l = absurd (omega (arith, l))
starts_resp-wires [] (x ∷ b) rest e l = absurd cc
starts_resp-wires (c ∷ cs) (x ∷ b) rest e l = let star : x ≡ b'*' = cc in ground (arith, star)

pub later-All :
    (now later cs : List Command) → cs ≡ now ++ later → All IsSmall cs → All IsSmall later
later-All now later cs e h = from_append now (subst (All IsSmall) e h)
  where
    from_append : (xs : List Command) → All IsSmall (xs ++ later) → All IsSmall later
    from_append [] h = h
    from_append (x ∷ xs) h = from_append xs h.1

module _ (M : Memchr) where
  pub no_frames :
      (cs : List Command) (part : Bytes)
      → All IsSendable cs
      → part ≡ wires cs
      → try_parse_frame M part ≡ ok incomplete
      → cs ≡ []
  no_frames [] part h e i = refl
  no_frames (c ∷ cs) part h e i =
      let whole = try_parse_frame-wire M c (wires cs) h.0 in
      let both = sym whole ∙ sym (ap (try_parse_frame M) e) ∙ i in absurd cc

  pub part_short :
      (cs : List Command) (part rest : Bytes)
      → All IsSendable cs
      → All IsSmall cs
      → part ++ rest ≡ wires cs
      → try_parse_frame M part ≡ ok incomplete
      → length part ≤ piece_limit
  part_short [] part rest h small e i = omega (arith, ap length e, length-append part rest)
  part_short (c ∷ cs) part rest h small e i =
      elim (cut_twice part rest (resp_command c) (wires cs) e) [
        | inl (q, e1, e2, l) ↦ omega (arith, ap length e1, length-append part q, small.0)
        | inr (q, e1, e2) ↦
            let whole =
              sym (try_parse_frame-wire M c q h.0) ∙ sym (ap (try_parse_frame M) e1) ∙ i in
            absurd cc
      ]

module _ (I : Itoa) (M : Memchr) (M2 : Memchr2) {D : DashMap ValueEntry} (metrics_enabled : Bool)
    (env : Env) where
  -- The turns of a session that reads the pieces; `true` is that it is open after them.
  abbrev pub feed : List Bytes → Session D → Option (Outcome (Bool × Session D))
  feed chunks = run_turns (process_batch I M M2 metrics_enabled env) (arriving chunks)

  answer-with_buf :
      (cs : List Command) (c : Command) (b : Bytes) (s : Session D)
      (o : Outcome (Response × Engine D))
      → ((s' : Session D)
          → served I metrics_enabled env cs (with_buf b s')
            ≡ (served I metrics_enabled env cs (with_buf [] s') >>= λ t. returns (with_buf b t)))
      → ◌≡◌ {A = Outcome (Session D)}
          ((o >>= λ x. returns (with_buf b (replied I metrics_enabled env c s x)))
            >>= served I metrics_enabled env cs)
          (((o >>= λ x. returns (with_buf [] (replied I metrics_enabled env c s x)))
              >>= served I metrics_enabled env cs)
            >>= λ t. returns (with_buf b t))
  answer-with_buf cs c b s (returns x) h = h (replied I metrics_enabled env c s x)
  answer-with_buf cs c b s panics h = refl
  answer-with_buf cs c b s deadlocks h = refl

  -- What is left in the buffer has no part in the replies.
  served-with_buf :
      (cs : List Command) (b : Bytes) (s : Session D)
      → served I metrics_enabled env cs (with_buf b s)
        ≡ (served I metrics_enabled env cs (with_buf [] s) >>= λ t. returns (with_buf b t))
  served-with_buf [] b s = refl
  served-with_buf (c ∷ cs) b s =
      answer-with_buf cs c b s (reply_of I metrics_enabled env c s) (served-with_buf cs b)

  pub served-append :
      (now later : List Command) (s : Session D)
      → served I metrics_enabled env (now ++ later) s
        ≡ (served I metrics_enabled env now s >>= served I metrics_enabled env later)
  served-append [] later s = refl
  served-append (c ∷ now) later s =
      bind-congr (answer I metrics_enabled env c s) _ _ (served-append now later)
      ∙ sym (
          bind_assoc (answer I metrics_enabled env c s) (served I metrics_enabled env now)
            (served I metrics_enabled env later))

  abbrev pub turn_of : Event → Session D → Option (Outcome (Bool × Session D))
  turn_of = turn (process_batch I M M2 metrics_enabled env)

  abbrev pub turns_of : List Event → Session D → Option (Outcome (Bool × Session D))
  turns_of = run_turns (process_batch I M M2 metrics_enabled env)

  -- One turn, in which the commands `now` are complete and `p` is the beginning of a frame.
  pub turn-wires :
      (b p : Bytes) (now : List Command) (s : Session D)
      → 0 < length b
      → length (s.read_buf ++ b) ≤ max_read_buf
      → s.read_buf ++ b ≡ wires now ++ p
      → All IsSendable now
      → try_parse_frame M p ≡ ok incomplete
      → starts_resp (s.read_buf ++ b) ≡ true
      → turn_of (some b, true) s
        ≡ some (
            served I metrics_enabled env now (with_buf [] s) >>= λ t.
            returns (flushed (with_buf p t)))
  turn-wires b p now s l fits e h i starts =
      turn_read (process_batch I M M2 metrics_enabled env) b s
        (served I metrics_enabled env now (with_buf p s)) l fits
        (ap (λ x. process_batch I M M2 metrics_enabled env (with_buf x s)) e
          ∙ process_batch-wires I M M2 metrics_enabled env now p s h i
              (ap starts_resp (sym e) ∙ starts))
      ∙ ap (λ o. some (o >>= λ t. returns (flushed t))) (served-with_buf now p s)
      ∙ ap some (
          bind_assoc (served I metrics_enabled env now (with_buf [] s))
            (λ t. returns (with_buf p t)) (λ t. returns (flushed t)))

  pub next_turn :
      (events : List Event) (event : Event) (s : Session D) (r : Bool × Session D)
      → turn_of event s ≡ some (returns r)
      → turns_of (event ∷ events) s
        ≡ (if r.0 then turns_of events r.1 else some (returns (false, r.1)))
  unfolding run_turns
  next_turn events event s r e = rw (run_turns, e) refl

  stopped_turn :
      (events : List Event) (event : Event) (s s' : Session D) (o : Outcome (Bool × Session D))
      → turn_of event s ≡ some o
      → turns_of (event ∷ events) s ≡ some (returns (true, s'))
      → (r : Bool × Session D) × (o ≡ returns r)
  unfolding run_turns
  stopped_turn events event s s' (returns r) e h = (r, refl)
  stopped_turn events event s s' panics e h =
      let h' : some panics ≡ some (returns (true, s')) = rw (run_turns, e) at h in absurd cc
  stopped_turn events event s s' deadlocks e h =
      let h' : some deadlocks ≡ some (returns (true, s')) = rw (run_turns, e) at h in absurd cc

  -- A turn that leaves the session open has answered its commands and sent the replies.
  pub open_turn :
      (events : List Event) (event : Event) (p : Bytes) (s s' : Session D) (o : Outcome (Session D))
      → turn_of event s ≡ some (o >>= λ t. returns (flushed (with_buf p t)))
      → turns_of (event ∷ events) s ≡ some (returns (true, s'))
      → (t : Session D) × (o ≡ returns t)
        × (turns_of events (with_buf p (sent t)) ≡ some (returns (true, s')))
  open_turn events event p s s' (returns t) e h =
      elim (Bool-cases (ltb max_write_buf (length t.write_buf))) [
        | inl long ↦
            let r : flushed (with_buf p t) ≡ (false, with_buf p t) = rw long refl in
            let h' = sym (next_turn events event s _ (e ∙ ap (λ x. some (returns x)) r)) ∙ h in
            absurd cc
        | inr short ↦
            let r = flushed_small (with_buf p t) (ground (arith, short)) in
            (t, refl, sym (next_turn events event s _ (e ∙ ap (λ x. some (returns x)) r)) ∙ h)
      ]
  open_turn events event p s s' panics e h =
      let r = stopped_turn events event s s' panics e h in absurd cc
  open_turn events event p s s' deadlocks e h =
      let r = stopped_turn events event s s' deadlocks e h in absurd cc

  -- Nothing is left of the commands in a buffer.
  pub emptied :
      (cs : List Command) (s t : Session D)
      → served I metrics_enabled env cs (with_buf [] s) ≡ returns t
      → t ≡ with_buf [] t
  emptied cs s t e =
      let both = sym e ∙ served-with_buf cs [] s ∙ ap (λ o. o >>= λ x. returns (with_buf [] x)) e in
      cc

  pub served_both :
      (now later cs : List Command) (s t t' : Session D)
      → cs ≡ now ++ later
      → served I metrics_enabled env now (with_buf [] s) ≡ returns t
      → served I metrics_enabled env later (with_buf [] t) ≡ returns t'
      → served I metrics_enabled env cs (with_buf [] s) ≡ returns t'
  served_both now later cs s t t' e f g =
      ap (λ x. served I metrics_enabled env x (with_buf [] s)) e
      ∙ served-append now later (with_buf [] s)
      ∙ ap (λ o. o >>= served I metrics_enabled env later) f
      ∙ ap (served I metrics_enabled env later) (emptied now s t f)
      ∙ g

  pub returned_first :
      (o : Outcome (Session D)) (f : Session D → Outcome (Session D)) (t : Session D)
      → (o >>= f) ≡ returns t
      → (t1 : Session D) × (o ≡ returns t1) × (f t1 ≡ returns t)
  returned_first (returns t1) f t e = (t1, refl, e)
  returned_first panics f t e = absurd cc
  returned_first deadlocks f t e = absurd cc
