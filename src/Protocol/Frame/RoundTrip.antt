-- ===== src/Protocol/Frame/RoundTrip.antt =====
-- protocol/parser.rs: a command as a client sends it in RESP is parsed to itself.
use mathlib.Core.Path.{subst}
use zetdb.Prelude.{
  ℕ, suc, ◌-◌, ◌^◌, ◌<◌, ◌≡◌, refl, ap, ◌∙◌, false, none, some, [], ◌∷◌, ◌++◌, append_assoc, Bytes,
  length, length-append, All, arith, ltb, ◌==◌,
}
use zetdb.Prelude.Int.{pos}
use zetdb.Bytes.{crlf}
use zetdb.Bytes.Decimal.{show_nat}
use zetdb.Domain.Errors.{ok}
use zetdb.Domain.Command.{Command}
use zetdb.Protocol.Memchr.{Memchr}
use zetdb.Protocol.Scan.{complete, eq_ignore_ascii_case}
use zetdb.Protocol.Resp.{read_resp_line_int}
use zetdb.Protocol.Resp.Messages.{get_usage, del_usage, incr_usage, exists_usage, ttl_usage}
use zetdb.Protocol.Frame.{
  pure, header, bulk, command_args, checked_count, frame, frame_result, parse_resp_frame,
}
use zetdb.Protocol.Frame.Wire.{resp_bulk, read_resp_line_int-show_nat}
use zetdb.Protocol.Frame.Client.{
  resp_bulks, verb, arguments, resp_command, IsShort, FitsFrame, length-pair_words,
}
use zetdb.Protocol.Frame.Reads.{
  Reads, pure-Reads, at_position-Reads, bind-Reads, bulk-Reads, one_key-Reads, set_plain-Reads,
  set_px-Reads, expire-Reads, mget-Reads, mset-Reads,
}

module _ (M : Memchr) where
  command_args-Reads :
      (c : Command)
      → FitsFrame c
      → All IsShort (arguments c)
      → Reads (command_args M (verb c) (length (arguments c))) (resp_bulks (arguments c)) c
  unfolding command_args eq_ignore_ascii_case
  command_args-Reads Command.ping f h = pure-Reads Command.ping
  command_args-Reads (Command.get k) f h = one_key-Reads M get_usage Command.get k h.0
  command_args-Reads (Command.set k v none) f h = set_plain-Reads M k v h.0 h.1.0
  command_args-Reads (Command.set k v (some t)) f h =
      set_px-Reads M k v t f.0 f.1 (h.0, (h.1.0, (h.1.1.1.0, tt)))
  command_args-Reads (Command.del k) f h = one_key-Reads M del_usage Command.del k h.0
  command_args-Reads (Command.incr k) f h = one_key-Reads M incr_usage Command.incr k h.0
  command_args-Reads Command.info f h = pure-Reads Command.info
  command_args-Reads Command.db_size f h = pure-Reads Command.db_size
  command_args-Reads (Command.exists k) f h = one_key-Reads M exists_usage Command.exists k h.0
  command_args-Reads (Command.ttl k) f h = one_key-Reads M ttl_usage Command.ttl k h.0
  command_args-Reads (Command.expire k n) f h = expire-Reads M k n f h.0 h.1.0
  command_args-Reads Command.flush_db f h = pure-Reads Command.flush_db
  command_args-Reads Command.keys f h = pure-Reads Command.keys
  command_args-Reads (Command.mget ks) f h = mget-Reads M ks f.0 h
  command_args-Reads (Command.mset ps) f h = mset-Reads M ps f.0 h

  arguments_count : (c : Command) → FitsFrame c → length (arguments c) < 1024
  arguments_count (Command.set k v none) f = omega arith
  arguments_count (Command.set k v (some t)) f = omega arith
  arguments_count (Command.mget ks) f = f.1
  arguments_count (Command.mset ps) f = omega (arith, f.1, length-pair_words ps)
  arguments_count Command.ping f = omega arith
  arguments_count (Command.get k) f = omega arith
  arguments_count (Command.del k) f = omega arith
  arguments_count (Command.incr k) f = omega arith
  arguments_count Command.info f = omega arith
  arguments_count Command.db_size f = omega arith
  arguments_count (Command.exists k) f = omega arith
  arguments_count (Command.ttl k) f = omega arith
  arguments_count (Command.expire k n) f = omega arith
  arguments_count Command.flush_db f = omega arith
  arguments_count Command.keys f = omega arith

  verb-IsShort : (c : Command) → IsShort (verb c)
  verb-IsShort (Command.set k v t) = omega arith
  verb-IsShort (Command.mget ks) = omega arith
  verb-IsShort (Command.mset ps) = omega arith
  verb-IsShort Command.ping = omega arith
  verb-IsShort (Command.get k) = omega arith
  verb-IsShort (Command.del k) = omega arith
  verb-IsShort (Command.incr k) = omega arith
  verb-IsShort Command.info = omega arith
  verb-IsShort Command.db_size = omega arith
  verb-IsShort (Command.exists k) = omega arith
  verb-IsShort (Command.ttl k) = omega arith
  verb-IsShort (Command.expire k n) = omega arith
  verb-IsShort Command.flush_db = omega arith
  verb-IsShort Command.keys = omega arith

  header-Reads : (n : ℕ) → n < 2 ^ 63 → Reads (header M) (b'*' ∷ (show_nat n ++ crlf)) (pos n)
  unfolding header
  header-Reads n h =
      at_position-Reads (λ s. read_resp_line_int M s b'*') (b'*' ∷ (show_nat n ++ crlf)) (pos n)
        (λ rest.
          ap (λ t. read_resp_line_int M (b'*' ∷ t) b'*') (append_assoc (show_nat n) crlf rest)
          ∙ read_resp_line_int-show_nat M rest b'*' n (ground arith) h
          ∙ ap (λ k. ok (some (pos n, k))) (omega (arith, length-append (show_nat n) crlf)))

  frame-Reads :
      (c : Command) → FitsFrame c → All IsShort (arguments c) → Reads (frame M) (resp_command c) c
  unfolding frame checked_count
  frame-Reads c f h =
      let n = suc (length (arguments c)) in
      let line = b'*' ∷ (show_nat n ++ crlf) in
      let few : ltb 1024 n ≡ false = ground (arith, arguments_count c f) in
      let some_ : (n == 0) ≡ false = ground arith in
      let less : n - 1 ≡ length (arguments c) = omega arith in
      subst (λ bs. Reads (frame M) bs c)
        (ap (◌∷◌ b'*') (append_assoc (show_nat n) crlf (resp_bulks (verb c ∷ arguments c))))
        (bind-Reads (header M) _ line (resp_bulks (verb c ∷ arguments c)) (pos n) c
          (header-Reads n (omega (arith, arguments_count c f)))
          (rw (few, some_)
            (bind-Reads (pure n) _ [] (resp_bulks (verb c ∷ arguments c)) n c (pure-Reads n) (
              bind-Reads (bulk M) _ (resp_bulk (verb c)) (resp_bulks (arguments c)) (verb c) c
                (bulk-Reads M (verb c) (verb-IsShort c)) (rw less (command_args-Reads c f h))))))

  -- A command as a client sends it, if its numbers have their types, its time to live is whole
  -- milliseconds, its keys fit an array of 1024 words and its arguments are below 2^63 bytes, is parsed
  -- to itself and consumed whole, whatever follows it.
  pub parse_resp_frame-resp_command :
      (c : Command) (rest : Bytes)
      → FitsFrame c
      → All IsShort (arguments c)
      → parse_resp_frame M (resp_command c ++ rest) ≡ ok (complete (length (resp_command c)) c)
  unfolding parse_resp_frame
  parse_resp_frame-resp_command c rest f h =
      ap frame_result (frame-Reads c f h (resp_command c ++ rest) 0 rest refl)
      ∙ ap (λ k. ok (complete k c)) (omega arith)
