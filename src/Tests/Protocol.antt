-- ===== src/Tests/Protocol.antt =====
-- The replies and the RESP frames at concrete bytes.
use zetdb.Prelude.{◌≡◌, refl, some, [], ◌∷◌, ◌++◌, Bytes, length, arith}
use zetdb.Bytes.{codes, crlf}
use zetdb.Bytes.Decimal.{show_nat}
use zetdb.Domain.Command.{Command}
use zetdb.Domain.Errors.{ok}
use zetdb.Protocol.Memchr.{scalar}
use zetdb.Protocol.Scan.{complete, is_whitespace}
use zetdb.Protocol.Resp.{read_resp_line_int}
use zetdb.Protocol.Frame.{
  parse_resp_frame, frame, header, at_position, step_of, ◌>>=◌, checked_count, fail, pure,
}
use zetdb.Protocol.Frame.Client.{resp_command}
use zetdb.Protocol.Frame.RoundTrip.{parse_resp_frame-resp_command}
use zetdb.Protocol.Frame.Whole.{Within}
use zetdb.Protocol.Inline.{try_parse_frame, parse_bytes}
use zetdb.Protocol.Inline.Words.{words}
use zetdb.Protocol.Inline.Reference.{parse_words}
use zetdb.Protocol.Inline.Agreement.{parse_bytes-eq-parse_words}
use zetdb.Protocol.Inline.RoundTrip.{line_of, parse_bytes-line_of}
use zetdb.Protocol.Inline.Buffered.{try_parse_frame-Within, try_parse_frame_stable}
use zetdb.Tests.Data.{hits, name}

abbrev set_name : Command
set_name = Command.set name hits (some 5000000)

parse_resp_frame-resp_command_example :
    parse_resp_frame scalar (resp_command set_name ++ codes "*1")
    ≡ ok (complete (length (resp_command set_name)) set_name)
unfolding show_nat
parse_resp_frame-resp_command_example =
    parse_resp_frame-resp_command scalar set_name (codes "*1") (omega arith, omega arith)
      (omega arith, (omega arith, (omega arith, (omega arith, tt))))

abbrev empty_array : Bytes
empty_array = codes "*0" ++ crlf

-- An array of no elements is an error that consumes nothing.
try_parse_frame_stable_example :
    try_parse_frame scalar (empty_array ++ codes "*1") ≡ try_parse_frame scalar empty_array
unfolding try_parse_frame parse_resp_frame frame header at_position step_of read_resp_line_int ◌>>=◌
    checked_count fail pure
try_parse_frame_stable_example =
    try_parse_frame_stable scalar empty_array (codes "*1") (ground arith)

try_parse_frame-Within_example :
    Within (length (codes "PING" ++ crlf)) (try_parse_frame scalar (codes "PING" ++ crlf))
try_parse_frame-Within_example = try_parse_frame-Within scalar (codes "PING" ++ crlf)

parse_bytes-eq-parse_words_example :
    parse_bytes (codes "  set k v  EX 60 ") ≡ parse_words (words (codes "  set k v  EX 60 "))
parse_bytes-eq-parse_words_example = parse_bytes-eq-parse_words (codes "  set k v  EX 60 ")

parse_bytes-line_of_example :
    parse_bytes (line_of (codes "MGET") (hits ∷ name ∷ [])) ≡ ok (Command.mget (hits ∷ name ∷ []))
unfolding is_whitespace
parse_bytes-line_of_example =
    parse_bytes-line_of (Command.mget (hits ∷ name ∷ [])) (omega arith, omega arith)
      (
        (omega arith, (refl, (refl, (refl, (refl, tt))))),
        (
          (omega arith, (refl, (refl, (refl, (refl, tt))))),
          ((omega arith, (refl, (refl, (refl, (refl, tt))))), tt),
        ),
      )
