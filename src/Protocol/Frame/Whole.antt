-- ===== src/Protocol/Frame/Whole.antt =====
-- protocol/parser.rs: a frame that is read whole does not depend on the bytes behind it.
use zetdb.Prelude.{ℕ, ◌-◌, ◌≤◌, ◌<◌, ◌≡◌, ◌≢◌, refl, ap, [], ◌++◌, Bytes, length, arith, ltb, ◌==◌}
use zetdb.Prelude.Int.{ℤ, pos, negsuc}
use zetdb.Domain.Errors.{Result, ok, err}
use zetdb.Domain.Command.{Command}
use zetdb.Protocol.Memchr.{Memchr}
use zetdb.Protocol.Scan.{ParseError, FrameResult, complete}
use zetdb.Protocol.Resp.{read_resp_line_int}
use zetdb.Protocol.Frame.{
  Step, done, incomplete, fails, header, bulk, checked_count, frame, frame_result, parse_resp_frame,
}
use zetdb.Protocol.Frame.Kept.{read_resp_line_int-Kept}
use zetdb.Protocol.Frame.Steady.{
  Settled, IsSteady, pure-IsSteady, fail-IsSteady, if-IsSteady, bind-IsSteady, bind-Settled,
  at_position-Settled,
}
use zetdb.Protocol.Frame.Arguments.{bulk-IsSteady, command_args-IsSteady}

-- What a session may do with a result: drop no more than it has, and something at least.
abbrev pub Within : ℕ → Result FrameResult ParseError → Type 0
Within n (ok (complete k c)) = (0 < k) × (k ≤ n)
Within n (ok FrameResult.incomplete) = Unit
Within n (ok (FrameResult.skip k)) = (0 < k) × (k ≤ n)
Within n (err e) = Unit

module _ (M : Memchr) where
  checked_count-IsSteady : (z : ℤ) → IsSteady (checked_count z)
  unfolding checked_count
  checked_count-IsSteady (negsuc n) = fail-IsSteady ℕ _
  checked_count-IsSteady (pos n) =
      if-IsSteady (ltb 1024 n) _ _ (fail-IsSteady ℕ _)
        (if-IsSteady (n == 0) _ _ (fail-IsSteady ℕ _) (pure-IsSteady n))

  frame-Settled :
      (buf more : Bytes) → Settled (length buf) 1 (frame M buf 0) (frame M (buf ++ more) 0)
  unfolding frame header
  frame-Settled buf more =
      bind-Settled (header M) _ buf more 0 1
        (at_position-Settled (λ s. read_resp_line_int M s b'*')
          (λ s r. read_resp_line_int-Kept M s r b'*') buf more 0 (omega arith))
        λ z. bind-IsSteady (checked_count z) _ (checked_count-IsSteady z) λ n.
          bind-IsSteady (bulk M) _ (bulk-IsSteady M) (λ verb. command_args-IsSteady M verb (n - 1))

  -- A frame consumes a byte at least, and no more than the buffer holds.
  pub parse_resp_frame-Within : (buf : Bytes) → Within (length buf) (parse_resp_frame M buf)
  unfolding parse_resp_frame
  parse_resp_frame-Within buf = of_step (frame M buf 0) _ (frame-Settled buf [])
    where
      of_step :
          (r r' : Step Command) → Settled (length buf) 1 r r' → Within (length buf) (frame_result r)
      of_step (done c q) r' s = (omega (arith, s.1), s.2)
      of_step incomplete r' s = tt
      of_step (fails e) r' s = tt

  -- Once the parser answers with a command or an error, more bytes behind the buffer do not change
  -- the answer.
  pub parse_resp_frame_stable :
      (buf more : Bytes)
      → parse_resp_frame M buf ≢ ok FrameResult.incomplete
      → parse_resp_frame M (buf ++ more) ≡ parse_resp_frame M buf
  unfolding parse_resp_frame
  parse_resp_frame_stable buf more =
      of_step (frame M buf 0) (frame M (buf ++ more) 0) (frame-Settled buf more)
    where
      of_step :
          (r r' : Step Command)
          → Settled (length buf) 1 r r'
          → frame_result r ≢ ok FrameResult.incomplete
          → frame_result r' ≡ frame_result r
      of_step (done c q) r' s h = ap frame_result s.0
      of_step incomplete r' s h = absurd (h refl)
      of_step (fails e) r' s h = ap frame_result s
