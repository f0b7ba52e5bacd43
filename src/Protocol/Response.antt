-- ===== src/Protocol/Response.antt =====
-- protocol/response.rs: the replies and how they are written. Writing appends to a buffer; the
-- functions here give the bytes that are appended.
use zetdb.Prelude.{
  ℕ, ◌≡◌, refl, ◌∙◌, Bool, true, false, Option, none, some, List, [], ◌∷◌, ◌++◌, Bytes, All, length,
  arith,
}
use zetdb.Prelude.Int.{ℤ, pos}
use zetdb.Bytes.{codes, crlf}
use zetdb.Bytes.Decimal.{show_nat, show_int}
use zetdb.Bytes.Utf8.{from_utf8_lossy, IsUtf8}
use zetdb.Storage.Itoa.{Itoa}

pub data ResponseError : Type 0 where
  unknown_command syntax_error type_error not_found internal_error : Bytes → ResponseError

pub data Response : Type 0 where
  pong : Response
  ok : Response
  value : Option Bytes → Response
  integer : ℤ → Response
  error : ResponseError → Response
  array : List (Option Bytes) → Response

unfoldable pub is_success : Response → Bool
is_success (error _) = false
is_success _ = true

-- The text of an error reply, which both writers share.
unfoldable pub error_text : ResponseError → Bytes
error_text (unknown_command cmd) = codes "-ERR unknown command '" ++ (cmd ++ (codes "'" ++ crlf))
error_text (syntax_error msg) = codes "-ERR syntax: " ++ (msg ++ crlf)
error_text (type_error msg) = codes "-ERR type: " ++ (msg ++ crlf)
error_text (not_found key) = codes "-ERR not found: " ++ (key ++ crlf)
error_text (internal_error msg) = codes "-ERR internal: " ++ (msg ++ crlf)

abbrev pub null_bulk : Bytes
null_bulk = codes "$-1" ++ crlf

module _ (I : Itoa) where
  -- `$<len>\r\n<data>\r\n`
  unfoldable pub bulk : Bytes → Bytes
  bulk s = b'$' ∷ (I.format (pos (length s)) ++ (crlf ++ (s ++ crlf)))

  unfoldable pub item : Option Bytes → Bytes
  unfolding bulk
  item none = null_bulk
  item (some s) = bulk s

  unfoldable pub items : List (Option Bytes) → Bytes
  unfolding item
  items [] = []
  items (x ∷ xs) = item x ++ items xs

  -- `*<count>\r\n` and the items.
  unfoldable pub write_array : List (Option Bytes) → Bytes
  unfolding items
  write_array xs = b'*' ∷ (I.format (pos (length xs)) ++ (crlf ++ items xs))

  unfoldable pub write_integer : ℤ → Bytes
  write_integer n = b':' ∷ (I.format n ++ crlf)

  -- A value in a bulk string, or inline behind `+`.
  unfoldable pub write_value : Bool → Bytes → Bytes
  unfolding bulk
  write_value true s = bulk s
  write_value false s = b'+' ∷ (s ++ crlf)

  -- `write_to_impl`; `write_to` passes `false` and `write_to_resp` passes `true`.
  unfoldable pub write_to_impl : Bool → Response → Bytes
  write_to_impl resp_mode pong = codes "+PONG" ++ crlf
  write_to_impl resp_mode ok = codes "+OK" ++ crlf
  write_to_impl resp_mode (value (some s)) = write_value resp_mode s
  write_to_impl resp_mode (value none) = null_bulk
  write_to_impl resp_mode (integer n) = write_integer n
  write_to_impl resp_mode (error e) = error_text e
  write_to_impl resp_mode (array xs) = write_array xs

-- The items as `serialize` writes them: the text of a value is its lossy decoding, its length is that
-- of the bytes.
unfoldable pub serialize_items : List (Option Bytes) → Bytes
serialize_items [] = []
serialize_items (none ∷ xs) = null_bulk ++ serialize_items xs
serialize_items (some s ∷ xs) =
    (b'$' ∷ (show_nat (length s) ++ (crlf ++ (from_utf8_lossy s ++ crlf)))) ++ serialize_items xs

unfoldable pub serialize : Response → Bytes
unfolding serialize_items error_text
serialize pong = codes "+PONG" ++ crlf
serialize ok = codes "+OK" ++ crlf
serialize (value (some s)) = b'+' ∷ (from_utf8_lossy s ++ crlf)
serialize (value none) = null_bulk
serialize (integer n) = b':' ∷ (show_int n ++ crlf)
serialize (error e) = error_text e
serialize (array xs) = b'*' ∷ (show_nat (length xs) ++ (crlf ++ serialize_items xs))

abbrev TextItem : Option Bytes → Type 0
TextItem none = Unit
TextItem (some s) = IsUtf8 s

-- The values in a reply are UTF-8 text.
abbrev pub IsText : Response → Type 0
IsText (value o) = TextItem o
IsText (array xs) = All TextItem xs
IsText _ = Unit

module _ (I : Itoa) where
  format-nat : (n : ℕ) → I.format (pos n) ≡ show_nat n
  format-nat n = I.format-eq (pos n) ∙ unfold show_int in refl

  serialize_items-eq :
      (xs : List (Option Bytes)) → All TextItem xs → serialize_items xs ≡ items I xs
  unfolding serialize_items items
  serialize_items-eq [] h = refl
  serialize_items-eq (none ∷ xs) h = ground (arith, serialize_items-eq xs h.1)
  serialize_items-eq (some s ∷ xs) h =
      rw (h.0, format-nat (length s), serialize_items-eq xs h.1) refl

  -- On replies whose values are UTF-8 text, the inline writer writes what `serialize` returns.
  pub write_to-eq-serialize : (r : Response) → IsText r → write_to_impl I false r ≡ serialize r
  unfolding write_to_impl serialize write_value write_integer write_array
  write_to-eq-serialize pong h = refl
  write_to-eq-serialize ok h = refl
  write_to-eq-serialize (value none) h = refl
  write_to-eq-serialize (value (some s)) h = rw h
  write_to-eq-serialize (integer n) h = rw (I.format-eq n)
  write_to-eq-serialize (error e) h = refl
  write_to-eq-serialize (array xs) h = rw (format-nat (length xs), serialize_items-eq xs h)
