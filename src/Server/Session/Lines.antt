-- ===== src/Server/Session/Lines.antt =====
-- server/session.rs: a client that types commands, one on each line.
use zetdb.Prelude.{
  ℕ, suc, ◌+◌, ◌≡◌, refl, ap, ◌∙◌, Bool, true, false, some, List, ◌++◌, Bytes, All, length,
  length-append, drop-length-append, append_assoc, leb, if◌then◌else◌, arith,
}
use zetdb.Bytes.{crlf}
use zetdb.Domain.Errors.{ok, Outcome, returns, ◌>>=◌}
use zetdb.Domain.Value.{ValueEntry}
use zetdb.Domain.Command.{Command, command_type}
use zetdb.Storage.DashMap.{DashMap}
use zetdb.Storage.Itoa.{Itoa}
use zetdb.Storage.Engine.{Engine}
use zetdb.Protocol.Memchr.{Memchr, Memchr2}
use zetdb.Protocol.Scan.{complete, incomplete}
use zetdb.Protocol.Inline.{parse_bytes}
use zetdb.Protocol.Borrowed.{parse_inline_borrowed}
use zetdb.Protocol.Borrowed.Lines.{IsLine}
use zetdb.Protocol.Borrowed.Owned.{NoSeconds, parse_inline_borrowed-eq-parse_bytes}
use zetdb.Observability.Metrics.{record_command}
use zetdb.Application.Info.{counters_of}
use zetdb.Application.Buffer.{dispatch_to_buffer}
use zetdb.Server.Session.{
  Env, Session, aof_entry_of, append_entry, inline_command_step, round_of, goes_on, ends,
  inline_round, process_batch, starts_resp,
}
use zetdb.Server.Session.Frames.{
  with_buf, joined, in_order, AnyBuffer, bind_once, IsAnswered, loop-joined,
}

-- A line without its end, and the command that it is.
abbrev pub Typed : Type 0
Typed = Bytes × Command

-- The owned parser reads the line as the command, which is neither SET with a time to live nor EXPIRE.
abbrev pub IsTyped : Typed → Type 0
IsTyped (line, c) = IsLine line × NoSeconds c × (parse_bytes line ≡ ok c)

abbrev pub line_bytes : Typed → Bytes
line_bytes (line, c) = line ++ crlf

abbrev pub lines : List Typed → Bytes
lines = joined line_bytes

module _ (I : Itoa) {D : DashMap ValueEntry} (metrics_enabled : Bool) (env : Env) where
  -- The session once a line has its reply.
  abbrev pub line_replied : Command → Session D → Bytes × Engine D → Session D
  line_replied c s (bytes, engine') = record s {
    write_buf = s.write_buf ++ bytes;
    engine = engine';
    aof = append_entry (aof_entry_of s.aof c) true (env.disk s.commands) s.aof;
    thread = if metrics_enabled then record_command (command_type c) s.thread else s.thread;
    commands = s.commands + 1;
  }

  -- What a line is dispatched to.
  abbrev pub line_reply_of : Command → Session D → Outcome (Bytes × Engine D)
  line_reply_of c s =
      dispatch_to_buffer I (counters_of (env.uptime_secs s.commands) s.thread)
        (env.clock s.commands) false s.engine c

  -- A line dispatched and answered, whatever the buffer holds.
  abbrev pub line_answer : Typed → Session D → Outcome (Session D)
  line_answer (line, c) s = line_reply_of c s >>= λ x. returns (line_replied c s x)

  -- The reference: the lines answered in their order.
  abbrev pub lines_served : List Typed → Session D → Outcome (Session D)
  lines_served = in_order line_answer

module _ (I : Itoa) (M : Memchr) (M2 : Memchr2) {D : DashMap ValueEntry} (metrics_enabled : Bool)
    (env : Env) where
  step-line :
      (line : Bytes) (c : Command) (rest : Bytes) (s : Session D)
      → inline_command_step I metrics_enabled env
          (length line + 2)
          c
          (with_buf ((line ++ crlf) ++ rest) s)
        ≡ line_answer I metrics_enabled env (line, c) (with_buf rest s)
  unfolding inline_command_step
  step-line line c rest s =
      let n : length line + 2 ≡ length (line ++ crlf) = omega (arith, length-append line crlf) in
      let fits : leb (length (line ++ crlf)) (length ((line ++ crlf) ++ rest)) ≡ true =
        ground (arith, length-append (line ++ crlf) rest) in
      rw (n, fits, drop-length-append (line ++ crlf) rest) refl

  inline_round-complete :
      (k : ℕ) (c : Command) (s : Session D) (o : Outcome (Session D))
      → parse_inline_borrowed M2 s.read_buf ≡ ok (complete k c)
      → inline_command_step I metrics_enabled env k c s ≡ o
      → inline_round I M M2 metrics_enabled env s ≡ goes_on o
  unfolding inline_round round_of
  inline_round-complete k c s o e e' = rw (round_of, e, e') refl

  inline_round-incomplete :
      (s : Session D)
      → parse_inline_borrowed M2 s.read_buf ≡ ok incomplete
      → inline_round I M M2 metrics_enabled env s ≡ ends
  unfolding inline_round round_of
  inline_round-incomplete s e = rw (round_of, e) refl

  line-IsAnswered :
      IsAnswered {D = D}
        (inline_round I M M2 metrics_enabled env)
        IsTyped
        line_bytes
        (line_answer I metrics_enabled env)
  line-IsAnswered (line, c) rest s h = (
    omega (arith, length-append line crlf),
    inline_round-complete (length line + 2) c (with_buf ((line ++ crlf) ++ rest) s) _
        (ap (parse_inline_borrowed M2) (append_assoc line crlf rest)
          ∙ parse_inline_borrowed-eq-parse_bytes M2 line rest c h.0 h.1 h.2)
        (step-line line c rest s),
  )

  line_answer-AnyBuffer : (x : Typed) → AnyBuffer (line_answer I {D = D} metrics_enabled env x)
  line_answer-AnyBuffer (line, c) s =
      let o = line_reply_of I metrics_enabled env c s in
      (
        o >>= λ x. returns (line_replied I metrics_enabled env c s x),
        λ b. bind_once o (line_replied I metrics_enabled env c s) (with_buf b),
      )

  pub process_batch-lines :
      (xs : List Typed) (part : Bytes) (s : Session D)
      → All IsTyped xs
      → parse_inline_borrowed M2 part ≡ ok incomplete
      → starts_resp (lines xs ++ part) ≡ false
      → process_batch I M M2 metrics_enabled env (with_buf (lines xs ++ part) s)
        ≡ some (lines_served I metrics_enabled env xs (with_buf part s))
  unfolding process_batch
  process_batch-lines xs part s h i e = rw e (
      loop-joined (inline_round I M M2 metrics_enabled env) IsTyped line_bytes
        (line_answer I metrics_enabled env) xs part s (suc (length (lines xs ++ part)))
        line-IsAnswered line_answer-AnyBuffer h (λ s'. inline_round-incomplete (with_buf part s') i)
        (omega arith))
