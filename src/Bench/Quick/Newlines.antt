-- ===== src/Bench/Quick/Newlines.antt =====
-- bin/pipeline_quick.rs against the full session of server/session.rs: the replies to a round have as many line ends as the round has
-- commands.
use mathlib.Core.Path.{subst}
use zetdb.Prelude.{
  ℕ, zero, suc, ◌+◌, ◌*◌, ◌%◌, ◌≡◌, refl, sym, ap, ◌∙◌, Bool, true, false, Option, none, some, List,
  [], ◌∷◌, ◌++◌, append-nil, Bytes, All, arith,
}
use zetdb.Bytes.{codes, crlf}
use zetdb.Bytes.Decimal.{show_nat, show_nat_shape, IsDigit}
use zetdb.Storage.Itoa.{Itoa}
use zetdb.Observability.Metrics.{add_word}
use zetdb.Storage.Aof.Replay.Log.{or_nothing}
use zetdb.Protocol.Response.{Response, write_value, write_to_impl}
use zetdb.Application.Dictionary.{Dictionary, IsPlain, meaning, meant_reply, Answers, Represents}
use zetdb.Protocol.Scan.{incomplete}
use zetdb.Domain.Errors.{ok, Outcome, returns, panics, deadlocks}
use zetdb.Domain.Value.{ValueEntry}
use zetdb.Storage.DashMap.{DashMap}
use zetdb.Application.Info.{counters_of}
use zetdb.Application.Buffer.{dispatch_to_buffer}
use zetdb.Application.Buffer.Refines.{Agree, Wrote, dispatch_to_buffer-eq-dispatch}
use zetdb.Application.Dictionary.Refines.{dispatch-meaning}
use zetdb.Server.Session.{Env, Session, process_batch, starts_resp}
use zetdb.Server.Session.Frames.{with_buf}
use zetdb.Server.Session.Turns.{concat}
use zetdb.Protocol.Memchr.{Memchr, Memchr2}
use zetdb.Protocol.Borrowed.{parse_inline_borrowed}
use zetdb.Server.Session.Lines.{lines, line_replied, lines_served, process_batch-lines}
use zetdb.Bench.Quick.{build_batches, newlines, read_replies}
use zetdb.Bench.Quick.Typed.{
  key_of, value_of, command_at, typed_batch, typed_batch-IsTyped, build_batch-eq, build_batches-eq,
}
use zetdb.Bench.Quick.Reads.{newlines-append, cut, cut_nonempty, concat-cut, read_replies_enough}

newlines-digits : (s : Bytes) → All IsDigit s → newlines s ≡ 0
unfolding newlines
newlines-digits [] h = refl
newlines-digits (b ∷ s) h = ground (arith, h.0, newlines-digits s h.1)

pub newlines-value_of : (n : ℕ) → newlines (value_of n) ≡ 0
unfolding newlines
newlines-value_of n = omega (arith, newlines-digits (show_nat n) (show_nat_shape n).0)

-- The values of the dictionary hold no line end.
abbrev pub IsFlat : Dictionary → Type 0
IsFlat d = (j : Bytes) → newlines (or_nothing (d j)) ≡ 0

pub meaning-IsFlat :
    (is_set : Bool) (k : ℕ) (d : Dictionary) → IsFlat d → IsFlat (meaning (command_at is_set k) d)
unfolding meaning
meaning-IsFlat true k d h j = ground (arith, h j, newlines-value_of k)
meaning-IsFlat false k d h j = h j

value_newline :
    (I : Itoa) (o : Option Bytes)
    → newlines (or_nothing o) ≡ 0
    → newlines (write_to_impl I false (Response.value o)) ≡ 1
unfolding write_to_impl write_value newlines
value_newline I none h = omega arith
value_newline I (some v) h = omega (arith, h, newlines-append v crlf)

one_newline :
    (I : Itoa) (is_set : Bool) (k : ℕ) (d : Dictionary) (r : Response) (out : Bytes)
    → IsFlat d
    → Answers (command_at is_set k) d r
    → Wrote I false out r
    → newlines out ≡ 1
unfolding meant_reply write_to_impl newlines
one_newline I true k d r out h a w =
    let out' : out ≡ codes "+OK" ++ crlf = subst (Wrote I false out) a w in
    omega (arith, ap newlines out')
one_newline I false k d r out h a w =
    ap newlines (subst (Wrote I false out) a w)
    ∙ value_newline I (d (key_of (k % 1000))) (h (key_of (k % 1000)))

-- What `dispatch` answers, `dispatch_to_buffer` writes.
wrote :
    (I : Itoa) {E : Type 0} (o : Outcome (Bytes × E)) (r : Response) (e : E)
    → Agree I false o (returns (r, e))
    → (out : Bytes) × (o ≡ returns (out, e)) × Wrote I false out r
wrote I (returns (out, e')) r e a = (out, ap (λ x. returns (out, x)) a.0, a.1)
wrote I panics r e a = absurd a
wrote I deadlocks r e a = absurd a

command_at-IsPlain : (is_set : Bool) (k : ℕ) → IsPlain (command_at is_set k)
command_at-IsPlain true k = refl
command_at-IsPlain false k = tt

module _ (I : Itoa) {D : DashMap ValueEntry} (metrics_enabled : Bool) (env : Env) where
  -- How a session ends that has answered `n` lines.
  abbrev pub Answered : ℕ → Session D → Outcome (Session D) → Type 0
  Answered n s o =
      (s' : Session D) × (o ≡ returns s')
      × ((d : Dictionary) × Represents s'.engine d × IsFlat d)
      × (newlines s'.write_buf ≡ newlines s.write_buf + n)

  served-Answered :
      (is_set : Bool) (n k : ℕ) (s : Session D) (d : Dictionary)
      → Represents s.engine d
      → IsFlat d
      → Answered n s (lines_served I metrics_enabled env (typed_batch is_set n k) s)
  served-Answered is_set zero k s d h flat = (s, refl, (d, h, flat), omega arith)
  served-Answered is_set (suc n) k s d h flat =
      let c = command_at is_set k in
      let m = counters_of (env.uptime_secs s.commands) s.thread in
      let (r, engine', e, a, kept) =
        dispatch-meaning I m (env.clock s.commands) c s.engine d (command_at-IsPlain is_set k) h in
      let agree =
        subst (Agree I false (dispatch_to_buffer I m (env.clock s.commands) false s.engine c)) e
          (dispatch_to_buffer-eq-dispatch I m (env.clock s.commands) false s.engine c) in
      let (out, f, w) =
        wrote I (dispatch_to_buffer I m (env.clock s.commands) false s.engine c) r engine' agree in
      let t = line_replied I metrics_enabled env c s (out, engine') in
      let (s', g, end, count) =
        served-Answered is_set n (add_word k 1) t (meaning c d) kept
          (meaning-IsFlat is_set k d flat) in
      (
        s',
        rw f g,
        end,
        omega (
          arith,
          count,
          newlines-append s.write_buf out,
          one_newline I is_set k d r out flat a w,
        ),
      )

pub nothing_typed : (M2 : Memchr2) → parse_inline_borrowed M2 [] ≡ ok incomplete
unfolding parse_inline_borrowed
nothing_typed M2 = rw (parse_inline_borrowed, M2.memchr2-nil b'\r' b'\n') refl

pub starts_resp-typed :
    (is_set : Bool) (n k : ℕ) → starts_resp (lines (typed_batch is_set n k) ++ []) ≡ false
starts_resp-typed is_set zero k = refl
starts_resp-typed true (suc n) k = refl
starts_resp-typed false (suc n) k = refl

module _ (I : Itoa) (M : Memchr) (M2 : Memchr2) {D : DashMap ValueEntry} (metrics_enabled : Bool)
    (env : Env) where
  -- A client types the batches of pipeline_quick, and they are all in the buffer of a full session with
  -- nothing left to send, whose engine stands for a dictionary with no line end in a value: the session
  -- answers every line, its engine then stands for such a dictionary again, and however its output is
  -- cut, in pieces of a byte at least, the client's loop ends, and the pieces that it has not read hold
  -- no line end.
  pub read_replies-process_batch :
      (is_set : Bool) (pipeline_size batches key_counter : ℕ) (sizes : List ℕ) (s : Session D)
      (d : Dictionary)
      → Represents s.engine d
      → IsFlat d
      → s.write_buf ≡ []
      → (s' : Session D) × (process_batch I M M2 metrics_enabled env
            (with_buf (build_batches I is_set pipeline_size batches key_counter).0 s)
          ≡ some (returns s'))
        × ((d' : Dictionary) × Represents s'.engine d' × IsFlat d')
        × ((rest : List Bytes) × (read_replies (pipeline_size * batches) 0 (cut sizes s'.write_buf)
              ≡ some rest)
            × (newlines (concat rest) ≡ 0))
  read_replies-process_batch is_set pipeline_size batches key_counter sizes s d h flat sent =
      let n = batches * pipeline_size in
      let total : n ≡ pipeline_size * batches = grind arith in
      let xs = typed_batch is_set n key_counter in
      let (s', e, end, count) =
        served-Answered I metrics_enabled env is_set n key_counter (with_buf [] s) d h flat in
      let batch : (build_batches I is_set pipeline_size batches key_counter).0 ≡ lines xs ++ [] =
        ap (λ r. r.0) (build_batches-eq I is_set pipeline_size batches key_counter)
        ∙ build_batch-eq I is_set n key_counter
        ∙ sym (append-nil (lines xs)) in
      let empty : newlines s.write_buf ≡ 0 = ap newlines sent ∙ unfold newlines in refl in
      (
        s',
        ap (λ b. process_batch I M M2 metrics_enabled env (with_buf b s)) batch
            ∙ process_batch-lines I M M2 metrics_enabled env xs [] s
                (typed_batch-IsTyped is_set n key_counter) (nothing_typed M2)
                (starts_resp-typed is_set n key_counter)
            ∙ ap some e,
        end,
        read_replies_enough (pipeline_size * batches) 0 (cut sizes s'.write_buf)
            (cut_nonempty sizes s'.write_buf)
            (omega (arith, ap newlines (concat-cut sizes s'.write_buf), count, empty, total)),
      )
