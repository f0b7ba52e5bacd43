-- ===== src/Server/Session/Progress.antt =====
-- server/session.rs: the loops over the frames of a buffer end.
use zetdb.Prelude.{
  ℕ, zero, suc, ◌+◌, ◌-◌, ◌≤◌, ◌<◌, ◌≡◌, refl, Bool, true, false, ◌&&◌, Option, some, [], ◌∷◌,
  Bytes, length, drop, take, length-drop, is_empty, is_some, leb, ltb, if_rule, if◌then◌else◌,
  arith, inl, inr, Bool-cases, Option-cases,
}
use zetdb.Domain.Errors.{Result, ok, err, Outcome, returns, panics, deadlocks, ◌>>=◌}
use zetdb.Domain.Value.{ValueEntry}
use zetdb.Domain.Command.{Command}
use zetdb.Storage.DashMap.{DashMap}
use zetdb.Storage.Itoa.{Itoa}
use zetdb.Protocol.Memchr.{Memchr, Memchr2, memchr-append}
use zetdb.Protocol.Scan
use zetdb.Protocol.Scan.{
  trim, split_first_word, ParseError, FrameResult, complete, incomplete, skip, empty_command,
}
use zetdb.Protocol.Frame.Whole.{Within}
use zetdb.Protocol.Inline.{try_parse_frame}
use zetdb.Protocol.Inline.Buffered.{try_parse_frame-Within}
use zetdb.Protocol.Borrowed.{
  byte_is, line_borrowed, parse_inline_borrowed, consuming, verb_borrowed,
}
use zetdb.Application.Info.{counters_of}
use zetdb.Application.Dispatch.{dispatch}
use zetdb.Application.Buffer.{dispatch_to_buffer}
use zetdb.Server.Session.{
  Env, Session, starts_resp, Round, goes_on, ends, advance, skip_to_newline, resp_command_step,
  inline_command_step, refuse_frame, skip_frame, round_of, loop, resp_round, inline_round,
  process_batch,
}

lt_next : (rest : Bytes) → length rest < length rest + 1
lt_next rest = omega arith

-- A round ends, or leaves a measure below `n`.
abbrev pub Shrinks : {S : Type 0} → (S → ℕ) → ℕ → Round S → Type 0
Shrinks measure n ends = Unit
Shrinks measure n (goes_on (returns s)) = measure s < n
Shrinks measure n (goes_on panics) = Unit
Shrinks measure n (goes_on deadlocks) = Unit

Shrinks-le :
    {S : Type 0} (measure : S → ℕ) (n m : ℕ) (r : Round S)
    → n ≤ m
    → Shrinks measure n r
    → Shrinks measure m r
Shrinks-le measure n m ends h g = tt
Shrinks-le measure n m (goes_on (returns s)) h g = omega (arith, h, g)
Shrinks-le measure n m (goes_on panics) h g = tt
Shrinks-le measure n m (goes_on deadlocks) h g = tt

module _ {S : Type 0} (round : S → Round S) (measure : S → ℕ) where
  after :
      (fuel : ℕ) (s : S) (r : Round S)
      → ((s' : S) → measure s' < fuel → is_some (loop round fuel s') ≡ true)
      → measure s < suc fuel
      → Shrinks measure (measure s) r
      → is_some (elim r [
        | ends ↦ some (returns s)
        | goes_on (returns s') ↦ loop round fuel s'
        | goes_on panics ↦ some panics
        | goes_on deadlocks ↦ some deadlocks
      ])
        ≡ true
  after fuel s ends ih l g = refl
  after fuel s (goes_on (returns s')) ih l g = ih s' (omega (arith, l, g))
  after fuel s (goes_on panics) ih l g = refl
  after fuel s (goes_on deadlocks) ih l g = refl

  -- A loop whose rounds shrink a measure ends, with fuel above the measure.
  pub loop_ends :
      ((s : S) → Shrinks measure (measure s) (round s))
      → (fuel : ℕ) (s : S) → measure s < fuel
      → is_some (loop round fuel s) ≡ true
  unfolding loop
  loop_ends h zero s l = absurd (omega (arith, l))
  loop_ends h (suc fuel) s l = after fuel s (round s) (loop_ends h fuel) l (h s)

-- The answers of a parser after which a round makes the buffer shorter.
abbrev pub Advances : ℕ → Result FrameResult ParseError → Type 0
Advances n (ok (complete k c)) = (0 < k) × (0 < n)
Advances n (ok incomplete) = Unit
Advances n (ok (skip k)) = (0 < k) × (0 < n)
Advances n (err e) = 0 < n

module _ {D : DashMap ValueEntry} where
  abbrev pub left : Session D → ℕ
  left s = length s.read_buf

  advance-Shrinks :
      (k : ℕ) (buf : Bytes) (f : Bytes → Outcome (Session D))
      → 0 < k
      → ((rest : Bytes) → Shrinks left (length rest + 1) (goes_on (f rest)))
      → Shrinks left (length buf) (goes_on (advance k buf >>= f))
  advance-Shrinks k buf f h g = elim (Bool-cases (leb k (length buf))) [
    | inl e ↦ rw e (
        Shrinks-le left (length (drop k buf) + 1) (length buf) (goes_on (f (drop k buf)))
          (ground (arith, length-drop k buf, h, e)) (g (drop k buf)))
    | inr e ↦ rw e tt
  ]

  bind-Shrinks :
      {A : Type 0} (n : ℕ) (o : Outcome A) (f : A → Outcome (Session D))
      → ((x : A) → Shrinks left n (goes_on (f x)))
      → Shrinks left n (goes_on (o >>= f))
  bind-Shrinks n (returns x) f h = h x
  bind-Shrinks n panics f h = tt
  bind-Shrinks n deadlocks f h = tt

  module _ (I : Itoa) (metrics_enabled : Bool) (env : Env) where
    resp_step-Shrinks :
        (k : ℕ) (c : Command) (s : Session D)
        → 0 < k
        → Shrinks left (length s.read_buf) (goes_on (resp_command_step I metrics_enabled env k c s))
    unfolding resp_command_step
    resp_step-Shrinks k c s h = advance-Shrinks k s.read_buf _ h (λ rest.
        bind-Shrinks (length rest + 1)
          (dispatch I (counters_of (env.uptime_secs s.commands) s.thread) (env.clock s.commands)
            s.engine c)
          _ (λ x. lt_next rest))

    inline_step-Shrinks :
        (k : ℕ) (c : Command) (s : Session D)
        → 0 < k
        → Shrinks left
            (length s.read_buf)
            (goes_on (inline_command_step I metrics_enabled env k c s))
    unfolding inline_command_step
    inline_step-Shrinks k c s h = advance-Shrinks k s.read_buf _ h (λ rest.
        bind-Shrinks (length rest + 1)
          (dispatch_to_buffer I (counters_of (env.uptime_secs s.commands) s.thread)
            (env.clock s.commands) false s.engine c)
          _ (λ x. lt_next rest))

pub length-skip_to_newline :
    (M : Memchr) (buf : Bytes) → 0 < length buf → length (skip_to_newline M buf) < length buf
unfolding skip_to_newline
length-skip_to_newline M buf h = elim (Option-cases (M.memchr b'\n' buf)) [
  | inl e ↦ rw (length, e) h
  | inr (i, e) ↦
      rw (length, e)
        (omega (arith, length-drop (i + 1) buf, (memchr-append M b'\n' buf [] i e).1, h))
]

module _ (I : Itoa) (M : Memchr) {D : DashMap ValueEntry} where
  round_of-Shrinks :
      (is_resp : Bool) (step : ℕ → Command → Session D → Outcome (Session D))
      (r : Result FrameResult ParseError) (s : Session D)
      → ((k : ℕ) (c : Command) → 0 < k → Shrinks left (left s) (goes_on (step k c s)))
      → Advances (left s) r
      → Shrinks left (left s) (round_of I M is_resp step r s)
  unfolding round_of refuse_frame skip_frame
  round_of-Shrinks is_resp step (ok (complete k c)) s h a = h k c a.0
  round_of-Shrinks is_resp step (ok incomplete) s h a = tt
  round_of-Shrinks is_resp step (ok (skip k)) s h a =
      advance-Shrinks k s.read_buf _ a.0 (λ rest. omega arith)
  round_of-Shrinks is_resp step (err (Scan.syntax_error m)) s h a =
      length-skip_to_newline M s.read_buf a
  round_of-Shrinks is_resp step (err (Scan.unknown_command m)) s h a =
      length-skip_to_newline M s.read_buf a
  round_of-Shrinks is_resp step (err empty_command) s h a = tt

Within-Advances : (n m : ℕ) (r : Result FrameResult ParseError) → 0 < m → Within n r → Advances m r
Within-Advances n m (ok (complete k c)) h w = (w.0, h)
Within-Advances n m (ok incomplete) h w = tt
Within-Advances n m (ok (skip k)) h w = (w.0, h)
Within-Advances n m (err e) h w = h

try_parse_frame-Advances :
    (M : Memchr) (buf : Bytes) → Advances (length buf) (try_parse_frame M buf)
try_parse_frame-Advances M [] = unfold try_parse_frame in tt
try_parse_frame-Advances M (b ∷ s) =
    Within-Advances _ _ (try_parse_frame M (b ∷ s)) (omega arith) (try_parse_frame-Within M (b ∷ s))

consuming-Advances :
    (n k : ℕ) (r : Result Command ParseError) → 0 < n → 0 < k → Advances n (consuming k r)
consuming-Advances n k (ok c) h g = (g, h)
consuming-Advances n k (err e) h g = h

line_borrowed-Advances :
    (pos : ℕ) (buf : Bytes) → 0 < length buf → Advances (length buf) (line_borrowed pos buf)
unfolding line_borrowed
line_borrowed-Advances pos buf h =
    if_rule (Advances (length buf)) (is_empty (trim (take pos buf))) {x = ok (skip (pos + 2))}
      (omega arith)
      (consuming-Advances (length buf) (pos + 2)
        (verb_borrowed (split_first_word (trim (take pos buf))).0
          (split_first_word (trim (take pos buf))).1)
        h (omega arith))

pub inline-Advances :
    (M2 : Memchr2) (buf : Bytes) → Advances (length buf) (parse_inline_borrowed M2 buf)
unfolding parse_inline_borrowed
inline-Advances M2 [] = rw (Advances, M2.memchr2-nil b'\r' b'\n') tt
inline-Advances M2 (b ∷ s) = elim (Option-cases (M2.memchr2 b'\r' b'\n' (b ∷ s))) [
  | inl e ↦ rw (Advances, e) tt
  | inr (p, e) ↦
      rw (Advances, e)
        (if_rule (Advances (length (b ∷ s)))
          (ltb (p + 1) (length (b ∷ s)) && byte_is b'\r' (b ∷ s) p && byte_is b'\n' (b ∷ s) (p + 1))
          {y = if byte_is b'\n' (b ∷ s) p then line_borrowed (p - 1) (b ∷ s) else ok incomplete}
          (line_borrowed-Advances p (b ∷ s) (omega arith))
          (if_rule (Advances (length (b ∷ s))) (byte_is b'\n' (b ∷ s) p) {y = ok incomplete}
            (line_borrowed-Advances (p - 1) (b ∷ s) (omega arith)) tt))
]

module _ (I : Itoa) (M : Memchr) (M2 : Memchr2) {D : DashMap ValueEntry} (metrics_enabled : Bool)
    (env : Env) where
  pub resp_loop_ends :
      (s : Session D)
      → is_some (loop (resp_round I M M2 metrics_enabled env) (suc (length s.read_buf)) s) ≡ true
  unfolding resp_round
  resp_loop_ends s =
      loop_ends (resp_round I M M2 metrics_enabled env) left
        (λ s'.
          round_of-Shrinks I M true _ _ s' (λ k c. resp_step-Shrinks I metrics_enabled env k c s')
            (try_parse_frame-Advances M s'.read_buf))
        (suc (length s.read_buf)) s (omega arith)

  -- The loop over the frames of a batch ends, whatever the bytes are: a round takes a byte at least, so one round
  -- more than there are bytes is enough.
  pub process_batch_ends :
      (s : Session D) → is_some (process_batch I M M2 metrics_enabled env s) ≡ true
  unfolding process_batch resp_round inline_round
  process_batch_ends s =
      if_rule {A = Option (Outcome (Session D))} (λ o. is_some o ≡ true) (starts_resp s.read_buf)
        (resp_loop_ends s)
        (loop_ends (inline_round I M M2 metrics_enabled env) left
          (λ s'.
            round_of-Shrinks I M false _ _ s'
              (λ k c. inline_step-Shrinks I metrics_enabled env k c s')
              (inline-Advances M2 s'.read_buf))
          (suc (length s.read_buf)) s (omega arith))
