-- ===== src/Server/Session/Wire.antt =====
-- server/session.rs: a client that sends RESP commands one after the other, in any pieces.
use mathlib.Core.Path.{subst}
use zetdb.Prelude.{
  ℕ, suc, ◌+◌, ◌<◌, ◌≡◌, ◌≢◌, ◌⊎◌, refl, sym, ap, ◌∙◌, Bool, true, some, List, [], ◌∷◌, ◌++◌, Bytes,
  All, length, length-append, drop-length-append, append_assoc, append-nil, leb, arith, inl, inr,
}
use zetdb.Domain.Errors.{Result, ok, err, Outcome, returns, ◌>>=◌}
use zetdb.Domain.Value.{ValueEntry}
use zetdb.Domain.Command.{Command, command_type}
use zetdb.Storage.DashMap.{DashMap}
use zetdb.Storage.Itoa.{Itoa}
use zetdb.Storage.Engine.{Engine}
use zetdb.Protocol.Memchr.{Memchr, Memchr2}
use zetdb.Protocol.Response.{Response, is_success, write_to_impl}
use zetdb.Protocol.Scan.{ParseError, FrameResult, complete, incomplete, skip}
use zetdb.Protocol.Frame.Client.{resp_command, arguments, FitsFrame, IsShort}
use zetdb.Protocol.Frame.Whole.{Within}
use zetdb.Protocol.Frame.RoundTrip.{parse_resp_frame-resp_command}
use zetdb.Protocol.Inline.{try_parse_frame}
use zetdb.Protocol.Inline.Buffered.{try_parse_frame-Within, try_parse_frame_stable}
use zetdb.Application.Info.{counters_of}
use zetdb.Application.Dispatch.{dispatch}
use zetdb.Server.Session.{
  Env, Session, aof_entry_of, append_entry, record_response, resp_command_step, round_of, goes_on,
  ends, resp_round, process_batch, starts_resp,
}
use zetdb.Server.Session.Frames.{
  with_buf, joined, in_order, AnyBuffer, bind_once, IsAnswered, loop-joined,
}

-- What a client may send: a command that the format can hold.
abbrev pub IsSendable : Command → Type 0
IsSendable c = FitsFrame c × All IsShort (arguments c)

abbrev pub wires : List Command → Bytes
wires = joined resp_command

module _ (I : Itoa) {D : DashMap ValueEntry} (metrics_enabled : Bool) (env : Env) where
  -- The session once a command has its reply.
  abbrev pub replied : Command → Session D → Response × Engine D → Session D
  replied c s (response, engine') = record s {
    write_buf = s.write_buf ++ write_to_impl I true response;
    engine = engine';
    aof = append_entry (aof_entry_of s.aof c) (is_success response) (env.disk s.commands) s.aof;
    thread = record_response metrics_enabled (command_type c) response s.thread;
    commands = s.commands + 1;
  }

  -- What a command is dispatched to.
  abbrev pub reply_of : Command → Session D → Outcome (Response × Engine D)
  reply_of c s =
      dispatch I (counters_of (env.uptime_secs s.commands) s.thread) (env.clock s.commands) s.engine
        c

  -- A command dispatched and answered, whatever the buffer holds.
  abbrev pub answer : Command → Session D → Outcome (Session D)
  answer c s = reply_of c s >>= λ x. returns (replied c s x)

  -- The reference: the commands answered in their order.
  abbrev pub served : List Command → Session D → Outcome (Session D)
  served = in_order answer

module _ (M : Memchr) where
  pub try_parse_frame-wire :
      (c : Command) (rest : Bytes)
      → IsSendable c
      → try_parse_frame M (resp_command c ++ rest) ≡ ok (complete (length (resp_command c)) c)
  unfolding try_parse_frame
  try_parse_frame-wire c rest h = parse_resp_frame-resp_command M c rest h.0 h.1

  is_incomplete : (r : Result FrameResult ParseError) → (r ≡ ok incomplete) ⊎ (r ≢ ok incomplete)
  is_incomplete (ok incomplete) = inl refl
  is_incomplete (ok (complete k c)) = inr (λ e. cc)
  is_incomplete (ok (skip k)) = inr (λ e. cc)
  is_incomplete (err e) = inr (λ e'. cc)

  -- A frame that is cut short is not answered.
  cut_frame :
      (c : Command) (b q : Bytes)
      → IsSendable c
      → resp_command c ≡ b ++ q
      → 0 < length q
      → try_parse_frame M b ≡ ok incomplete
  cut_frame c b q h e l = elim (is_incomplete (try_parse_frame M b)) [
    | inl i ↦ i
    | inr n ↦
        let whole = try_parse_frame-wire c [] h in
        let same = try_parse_frame_stable M b q n in
        let answer_b : try_parse_frame M b ≡ ok (complete (length (resp_command c)) c) =
          sym same ∙ ap (try_parse_frame M) (sym e ∙ sym (append-nil (resp_command c))) ∙ whole in
        let w : Within (length b) (ok (complete (length (resp_command c)) c)) =
          subst (Within (length b)) answer_b (try_parse_frame-Within M b) in
        absurd (omega (arith, w.1, ap length e, length-append b q, l))
  ]

length_wire : (c : Command) → 0 < length (resp_command c)
length_wire c = omega arith

-- Two ways to cut one text.
pub cut_twice :
    (a b c d : Bytes)
    → a ++ b ≡ c ++ d
    → ((x : Bytes) × (c ≡ a ++ x) × (b ≡ x ++ d) × (0 < length x))
      ⊎ ((x : Bytes) × (a ≡ c ++ x) × (d ≡ x ++ b))
cut_twice [] b [] d e = inr ([], refl, sym e)
cut_twice [] b (y ∷ c) d e = inl (y ∷ c, refl, e, omega arith)
cut_twice (x ∷ a) b [] d e = inr (x ∷ a, refl, sym e)
cut_twice (x ∷ a) b (y ∷ c) d e =
    let same : x ≡ y = cc in
    let rest : a ++ b ≡ c ++ d = cc in
    elim (cut_twice a b c d rest) [
      | inl (z, e1, e2, l) ↦ inl (z, cc, e2, l)
      | inr (z, e1, e2) ↦ inr (z, cc, e2)
    ]

-- A buffer that begins what is left of the commands: whole frames, and the beginning of the next.
module _ (M : Memchr) where
  pub frames :
      (cs : List Command) (b rest : Bytes)
      → All IsSendable cs
      → b ++ rest ≡ wires cs
      → (now : List Command) × (later : List Command) × (part : Bytes) × (cs ≡ now ++ later)
        × (b ≡ wires now ++ part)
        × (part ++ rest ≡ wires later)
        × (try_parse_frame M part ≡ ok incomplete)
        × All IsSendable now
        × All IsSendable later
  frames [] [] rest h e = ([], [], [], refl, refl, e, unfold try_parse_frame in refl, tt, tt)
  frames [] (x ∷ b) rest h e = absurd cc
  frames (c ∷ cs) b rest h e = elim (cut_twice b rest (resp_command c) (wires cs) e) [
    | inl (q, e1, e2, l) ↦ ([], c ∷ cs, b, refl, refl, e, cut_frame M c b q h.0 e1 l, tt, h)
    | inr (b', e1, e2) ↦
        let r = frames cs b' rest h.1 (sym e2) in
        (
          c ∷ r.0,
          r.1,
          r.2,
          ap (◌∷◌ c) r.3,
          e1
              ∙ ap (λ x. resp_command c ++ x) r.4
              ∙ sym (append_assoc (resp_command c) (wires r.0) r.2),
          r.5,
          r.6,
          (h.0, r.7),
          r.8,
        )
  ]

module _ (I : Itoa) (M : Memchr) (M2 : Memchr2) {D : DashMap ValueEntry} (metrics_enabled : Bool)
    (env : Env) where
  step-wire :
      (c : Command) (rest : Bytes) (s : Session D)
      → resp_command_step I metrics_enabled env
          (length (resp_command c))
          c
          (with_buf (resp_command c ++ rest) s)
        ≡ answer I metrics_enabled env c (with_buf rest s)
  unfolding resp_command_step
  step-wire c rest s =
      let fits : leb (length (resp_command c)) (length (resp_command c ++ rest)) ≡ true =
        ground (arith, length-append (resp_command c) rest) in
      rw (fits, drop-length-append (resp_command c) rest) refl

  resp_round-complete :
      (k : ℕ) (c : Command) (s : Session D) (o : Outcome (Session D))
      → try_parse_frame M s.read_buf ≡ ok (complete k c)
      → resp_command_step I metrics_enabled env k c s ≡ o
      → resp_round I M M2 metrics_enabled env s ≡ goes_on o
  unfolding resp_round round_of
  resp_round-complete k c s o e e' = rw (round_of, e, e') refl

  resp_round-incomplete :
      (s : Session D)
      → try_parse_frame M s.read_buf ≡ ok incomplete
      → resp_round I M M2 metrics_enabled env s ≡ ends
  unfolding resp_round round_of
  resp_round-incomplete s e = rw (round_of, e) refl

  command-IsAnswered :
      IsAnswered {D = D}
        (resp_round I M M2 metrics_enabled env)
        IsSendable
        resp_command
        (answer I metrics_enabled env)
  command-IsAnswered c rest s h = (
    length_wire c,
    resp_round-complete (length (resp_command c)) c (with_buf (resp_command c ++ rest) s) _
        (try_parse_frame-wire M c rest h) (step-wire c rest s),
  )

  answer-AnyBuffer : (c : Command) → AnyBuffer (answer I {D = D} metrics_enabled env c)
  answer-AnyBuffer c s =
      let o = reply_of I metrics_enabled env c s in
      (
        o >>= λ x. returns (replied I metrics_enabled env c s x),
        λ b. bind_once o (replied I metrics_enabled env c s) (with_buf b),
      )

  -- The batch of a buffer with whole commands and the beginning of a frame.
  pub process_batch-wires :
      (cs : List Command) (part : Bytes) (s : Session D)
      → All IsSendable cs
      → try_parse_frame M part ≡ ok incomplete
      → starts_resp (wires cs ++ part) ≡ true
      → process_batch I M M2 metrics_enabled env (with_buf (wires cs ++ part) s)
        ≡ some (served I metrics_enabled env cs (with_buf part s))
  unfolding process_batch
  process_batch-wires cs part s h i e = rw e (
      loop-joined (resp_round I M M2 metrics_enabled env) IsSendable resp_command
        (answer I metrics_enabled env) cs part s (suc (length (wires cs ++ part)))
        command-IsAnswered answer-AnyBuffer h (λ s'. resp_round-incomplete (with_buf part s') i)
        (omega arith))
