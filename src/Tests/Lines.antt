-- ===== src/Tests/Lines.antt =====
-- The borrowed parser and the fast dispatcher at concrete lines.
use zetdb.Prelude.{List, [], none, ◌+◌, ◌≡◌, refl, some, ◌∷◌, ◌++◌, Bytes, length}
use zetdb.Bytes.{codes, crlf}
use zetdb.Domain.Errors.{ok}
use zetdb.Domain.Command.{Command}
use zetdb.Protocol.Memchr.{scalar2}
use zetdb.Protocol.Scan.{is_whitespace, eq_ignore_ascii_case, zip_all}
use zetdb.Protocol.Inline.Words.{words}
use zetdb.Protocol.Borrowed.{parse_inline_borrowed}
use zetdb.Protocol.Borrowed.Reference.{line_of_words}
use zetdb.Protocol.Borrowed.Lines.{IsLine, parse_inline_borrowed-crlf, parse_inline_borrowed-lf}
use zetdb.Protocol.Inline.Reference.{parse_words}
use zetdb.Storage.Engine.{get_fast}
use zetdb.Application.Fast.{
  dispatch_fast, after_fast, last_set, fast_value, dispatch_fast-get_after,
}
use zetdb.Tests.Data.{hits, name, store}

abbrev pub get_line : Bytes
get_line = codes "get k"

pub get_line-IsLine : IsLine get_line
get_line-IsLine = (refl, (refl, (refl, (refl, (refl, tt)))))

parse_inline_borrowed-crlf_example :
    parse_inline_borrowed scalar2 (get_line ++ (crlf ++ codes "PI"))
    ≡ line_of_words (length get_line + 2) (words get_line)
parse_inline_borrowed-crlf_example =
    parse_inline_borrowed-crlf scalar2 get_line (codes "PI") get_line-IsLine

parse_inline_borrowed-lf_example :
    parse_inline_borrowed scalar2 (get_line ++ (b'e' ∷ b'\n' ∷ codes "PI"))
    ≡ line_of_words (length get_line + 2) (words get_line)
parse_inline_borrowed-lf_example =
    parse_inline_borrowed-lf scalar2 get_line (codes "PI") b'e' get_line-IsLine refl

pub get_line-words : parse_words (words get_line) ≡ ok (Command.get (codes "k"))
unfolding words is_whitespace eq_ignore_ascii_case zip_all
get_line-words = refl

abbrev fast_commands : List Command
fast_commands = Command.set name hits (some 1) ∷ Command.set hits name none ∷ Command.del name ∷ []

dispatch_fast-get_after_example :
    (dispatch_fast (after_fast fast_commands store) (Command.get name)).0
    ≡ fast_value (last_set name fast_commands (get_fast name store))
dispatch_fast-get_after_example = dispatch_fast-get_after fast_commands name store
