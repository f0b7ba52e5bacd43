-- ===== src/Server/Session/Fast.antt =====
-- server/session.rs: `handle_session_fast`, the session without a log, metrics and a write timeout. Its
-- RESP loop is the one of the full session, which then neither logs nor counts; its inline loop keeps an
-- offset into the buffer.
use mathlib.Core.Path.{subst}
use zetdb.Prelude.{
  ℕ, suc, ◌+◌, ◌-◌, ◌≡◌, refl, true, false, Option, none, some, ◌++◌, length, drop, length-drop,
  is_some, leb, if_rule, if◌then◌else◌, arith,
}
use zetdb.Domain.Errors.{Result, ok, err, Outcome, returns, panics, ◌>>=◌}
use zetdb.Domain.Value.{ValueEntry}
use zetdb.Domain.Command.{Command}
use zetdb.Storage.DashMap.{DashMap}
use zetdb.Storage.Itoa.{Itoa}
use zetdb.Protocol.Memchr.{Memchr, Memchr2}
use zetdb.Protocol.Scan
use zetdb.Protocol.Scan.{ParseError, FrameResult, complete, incomplete, skip, empty_command}
use zetdb.Protocol.Borrowed.{parse_inline_borrowed}
use zetdb.Application.Fast.{dispatch_fast}
use zetdb.Server.Session.{
  Env, Session, Round, goes_on, ends, advance, syntax_reply, unknown_reply, refuse_frame, loop,
  resp_round, starts_resp,
}
use zetdb.Server.Session.Progress.{
  Shrinks, loop_ends, Advances, inline-Advances, length-skip_to_newline, resp_loop_ends,
}

-- The offset, and the session.
abbrev pub Scanning : DashMap ValueEntry → Type 0
Scanning D = ℕ × Session D

module _ (I : Itoa) (M : Memchr) (M2 : Memchr2) {D : DashMap ValueEntry} where
  unfoldable pub fast_command_step : ℕ → Command → Scanning D → Scanning D
  unfolding dispatch_fast
  fast_command_step consumed c (offset, s) =
      let r = dispatch_fast s.engine c in
      (
        offset + consumed,
        record s { write_buf = s.write_buf ++ r.0; engine = r.1; commands = s.commands + 1 },
      )

  -- What the loop does with the answer of the parser. A frame that is refused shortens the buffer from
  -- its front, and the offset stays.
  unfoldable pub fast_round_of : Result FrameResult ParseError → Scanning D → Round (Scanning D)
  unfolding fast_command_step refuse_frame
  fast_round_of (ok (complete consumed c)) t = goes_on (returns (fast_command_step consumed c t))
  fast_round_of (ok (skip consumed)) (offset, s) = goes_on (returns (offset + consumed, s))
  fast_round_of (ok incomplete) t = ends
  fast_round_of (err (Scan.syntax_error _)) (offset, s) =
      goes_on (returns (offset, refuse_frame I M false syntax_reply s))
  fast_round_of (err (Scan.unknown_command _)) (offset, s) =
      goes_on (returns (offset, refuse_frame I M false unknown_reply s))
  fast_round_of (err empty_command) t = ends

  -- `&read_buf[offset..]` panics past the end.
  unfoldable pub fast_round : Scanning D → Round (Scanning D)
  unfolding fast_round_of
  fast_round (offset, s) =
      let result = parse_inline_borrowed M2 (drop offset s.read_buf) in
      if leb offset (length s.read_buf) then fast_round_of result (offset, s) else goes_on panics

abbrev pub close_scan : {D : DashMap ValueEntry} → Scanning D → Outcome (Session D)
close_scan (offset, s) = do rest ← advance offset s.read_buf; returns (record s { read_buf = rest })

module _ (I : Itoa) (M : Memchr) (M2 : Memchr2) {D : DashMap ValueEntry} (env : Env) where
  unfoldable pub process_batch_fast : Session D → Option (Outcome (Session D))
  unfolding fast_round loop resp_round
  process_batch_fast s =
      let fuel = suc (length s.read_buf) in
      if starts_resp s.read_buf
      then loop (resp_round I M M2 false env) fuel s
      else elim (loop (fast_round I M M2) fuel (0, s)) [
        | none ↦ none
        | some o ↦ some (o >>= close_scan)
      ]

module _ (I : Itoa) (M : Memchr) (M2 : Memchr2) {D : DashMap ValueEntry} where
  ahead : Scanning D → ℕ
  ahead (offset, s) = length s.read_buf - offset

  fast_round_of-Shrinks :
      (r : Result FrameResult ParseError) (t : Scanning D)
      → Advances (ahead t) r
      → Shrinks ahead (ahead t) (fast_round_of I M M2 r t)
  unfolding ahead fast_round_of fast_command_step refuse_frame
  fast_round_of-Shrinks (ok (complete k c)) (offset, s) a = omega (arith, a)
  fast_round_of-Shrinks (ok incomplete) (offset, s) a = tt
  fast_round_of-Shrinks (ok (skip k)) (offset, s) a = omega (arith, a)
  fast_round_of-Shrinks (err (Scan.syntax_error m)) (offset, s) a =
      omega (arith, a, length-skip_to_newline M s.read_buf (omega (arith, a)))
  fast_round_of-Shrinks (err (Scan.unknown_command m)) (offset, s) a =
      omega (arith, a, length-skip_to_newline M s.read_buf (omega (arith, a)))
  fast_round_of-Shrinks (err empty_command) (offset, s) a = tt

  fast_round-Shrinks : (t : Scanning D) → Shrinks ahead (ahead t) (fast_round I M M2 t)
  unfolding fast_round ahead
  fast_round-Shrinks (offset, s) =
      let more : Advances (length s.read_buf - offset)
          (parse_inline_borrowed M2 (drop offset s.read_buf)) =
        subst (λ n. Advances n (parse_inline_borrowed M2 (drop offset s.read_buf)))
          (length-drop offset s.read_buf) (inline-Advances M2 (drop offset s.read_buf)) in
      if_rule (Shrinks ahead (length s.read_buf - offset)) (leb offset (length s.read_buf))
        {y = goes_on panics}
        (fast_round_of-Shrinks (parse_inline_borrowed M2 (drop offset s.read_buf)) (offset, s) more)
        tt

  is_some-map :
      (o : Option (Outcome (Scanning D)))
      → is_some o ≡ true
      → is_some {A = Outcome (Session D)}
          (elim o [ none ↦ none | some o' ↦ some (o' >>= close_scan) ])
        ≡ true
  is_some-map none h = h
  is_some-map (some o) h = refl

  -- The loops of the fast session end as well, whatever the bytes are, with one round more than there are bytes.
  pub process_batch_fast_ends :
      (env : Env) (s : Session D) → is_some (process_batch_fast I M M2 env s) ≡ true
  unfolding process_batch_fast ahead
  process_batch_fast_ends env s =
      if_rule {A = Option (Outcome (Session D))} (λ o. is_some o ≡ true) (starts_resp s.read_buf)
        (resp_loop_ends I M M2 false env s)
        (is_some-map (loop (fast_round I M M2) (suc (length s.read_buf)) (0, s)) (
          loop_ends (fast_round I M M2) ahead fast_round-Shrinks (suc (length s.read_buf)) (0, s)
            (omega arith)))
