-- ===== src/Protocol/Inline/Buffered.antt =====
-- protocol/parser.rs: `try_parse_frame` on a buffer that grows.
use mathlib.Core.Path.{subst}
use zetdb.Prelude.{
  ℕ, ◌<◌, ◌≡◌, ◌≢◌, refl, [], ◌∷◌, ◌++◌, Bytes, length, take, take-append, arith, inl, inr,
  Bool-cases, Option-cases, ◌==◌,
}
use zetdb.Domain.Errors.{Result, ok, err}
use zetdb.Domain.Command.{Command}
use zetdb.Protocol.Memchr.{Memchr, memchr-append}
use zetdb.Protocol.Scan.{ParseError, empty_command, unknown_command, syntax_error, incomplete}
use zetdb.Protocol.Frame.Whole.{Within, parse_resp_frame-Within, parse_resp_frame_stable}
use zetdb.Protocol.Inline.{parse_bytes, inline_result, try_parse_frame_inline, try_parse_frame}

inline_result-Within :
    (n p : ℕ) (r : Result Command ParseError) → p < n → Within n (inline_result p r)
inline_result-Within n p (ok c) h = (omega arith, omega arith)
inline_result-Within n p (err empty_command) h = (omega arith, omega arith)
inline_result-Within n p (err (unknown_command v)) h = tt
inline_result-Within n p (err (syntax_error m)) h = tt

module _ (M : Memchr) where
  inline-Within : (buf : Bytes) → Within (length buf) (try_parse_frame_inline M buf)
  unfolding try_parse_frame_inline
  inline-Within buf = elim (Option-cases (M.memchr b'\n' buf)) [
    | inl e ↦
        let answer : ok incomplete ≡ try_parse_frame_inline M buf =
          rw (try_parse_frame_inline, e) refl in
        subst (Within (length buf)) answer tt
    | inr (p, e) ↦
        let answer : inline_result p (parse_bytes (take p buf)) ≡ try_parse_frame_inline M buf =
          rw (try_parse_frame_inline, e) refl in
        subst (Within (length buf)) answer (
          inline_result-Within (length buf) p (parse_bytes (take p buf))
            (memchr-append M b'\n' buf [] p e).1)
  ]

  -- Of both protocols: what a frame or a line consumes is a byte at least, and no more than the buffer holds.
  pub try_parse_frame-Within : (buf : Bytes) → Within (length buf) (try_parse_frame M buf)
  unfolding try_parse_frame
  try_parse_frame-Within [] = tt
  try_parse_frame-Within (b ∷ s) = elim (Bool-cases (b == b'*')) [
    | inl e ↦ rw e (parse_resp_frame-Within M (b ∷ s))
    | inr e ↦ rw e (inline-Within (b ∷ s))
  ]

  inline_stable :
      (buf more : Bytes)
      → try_parse_frame_inline M buf ≢ ok incomplete
      → try_parse_frame_inline M (buf ++ more) ≡ try_parse_frame_inline M buf
  unfolding try_parse_frame_inline
  inline_stable buf more h = elim (Option-cases (M.memchr b'\n' buf)) [
    | inl e ↦ absurd (h (rw (try_parse_frame_inline, e) refl))
    | inr (p, e) ↦
        let stays = memchr-append M b'\n' buf more p e in
        rw (try_parse_frame_inline, e, stays.0, take-append p buf more (omega (arith, stays.1)))
          refl
  ]

  -- Of both protocols: once the parser answers with a command, a line to skip or an error, more bytes
  -- behind the buffer do not change the answer.
  pub try_parse_frame_stable :
      (buf more : Bytes)
      → try_parse_frame M buf ≢ ok incomplete
      → try_parse_frame M (buf ++ more) ≡ try_parse_frame M buf
  unfolding try_parse_frame
  try_parse_frame_stable [] more h = absurd (h refl)
  try_parse_frame_stable (b ∷ s) more h = elim (Bool-cases (b == b'*')) [
    | inl e ↦ rw e (parse_resp_frame_stable M (b ∷ s) more (rw e at h))
    | inr e ↦ rw e (inline_stable (b ∷ s) more (rw e at h))
  ]
