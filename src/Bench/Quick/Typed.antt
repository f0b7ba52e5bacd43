-- ===== src/Bench/Quick/Typed.antt =====
-- bin/pipeline_quick.rs: a batch is the lines of its commands.
use zetdb.Prelude.{
  ℕ, zero, suc, ◌+◌, ◌*◌, ◌%◌, ◌≡◌, refl, sym, ap, ◌∙◌, Bool, true, false, none, List, [], ◌∷◌,
  ◌++◌, append_assoc, Bytes, All, if◌then◌else◌, arith,
}
use zetdb.Prelude.Int.{pos}
use zetdb.Bytes.{codes, crlf}
use zetdb.Bytes.Decimal.{show_nat, show_int, show_nat_shape, IsDigit}
use zetdb.Domain.Command.{Command}
use zetdb.Storage.Itoa.{Itoa}
use zetdb.Protocol.Scan.{is_whitespace}
use zetdb.Protocol.Frame.Client.{verb, arguments, FitsFrame}
use zetdb.Protocol.Borrowed.Owned.{NoSeconds}
use zetdb.Protocol.Inline.RoundTrip.{IsWord, typed_words, parse_bytes-typed_words}
use zetdb.Protocol.Borrowed.Lines.{IsLine}
use zetdb.Server.Session.Lines.{Typed, IsTyped, lines, line_bytes}
use zetdb.Observability.Metrics.{add_word}
use zetdb.Bench.Quick.{command_line, build_batch, build_batches}

abbrev pub key_of : ℕ → Bytes
key_of n = codes "pipe:" ++ show_nat n

abbrev pub value_of : ℕ → Bytes
value_of n = codes "val:" ++ show_nat n

-- What a line of a batch means.
abbrev pub command_at : Bool → ℕ → Command
command_at is_set key_counter =
    if is_set
    then Command.set (key_of key_counter) (value_of key_counter) none
    else Command.get (key_of (key_counter % 1000))

abbrev pub typed : Command → Typed
typed c = (typed_words (verb c) (arguments c), c)

abbrev pub typed_batch : Bool → ℕ → ℕ → List Typed
typed_batch is_set zero key_counter = []
typed_batch is_set (suc n) key_counter =
    typed (command_at is_set key_counter) ∷ typed_batch is_set n (add_word key_counter 1)

Visible : Bytes → Type 0
Visible w = All (λ b. is_whitespace b ≡ false) w

digits-Visible : (s : Bytes) → All IsDigit s → Visible s
unfolding Visible is_whitespace
digits-Visible [] h = tt
digits-Visible (b ∷ s) h = (ground (arith, h.0), digits-Visible s h.1)

key_of-IsWord : (n : ℕ) → IsWord (key_of n)
unfolding Visible is_whitespace
key_of-IsWord n = (
  omega arith,
  (refl, (refl, (refl, (refl, (refl, digits-Visible (show_nat n) (show_nat_shape n).0))))),
)

value_of-IsWord : (n : ℕ) → IsWord (value_of n)
unfolding Visible is_whitespace
value_of-IsWord n =
    (omega arith, (refl, (refl, (refl, (refl, digits-Visible (show_nat n) (show_nat_shape n).0)))))

Visible-IsLine : (w s : Bytes) → Visible w → IsLine s → IsLine (w ++ s)
unfolding Visible is_whitespace
Visible-IsLine [] s h l = l
Visible-IsLine (b ∷ w) s h l = (ground (arith, h.0), Visible-IsLine w s h.1 l)

word-IsLine : (w : Bytes) → Visible w → IsLine w
unfolding Visible is_whitespace
word-IsLine [] h = tt
word-IsLine (b ∷ w) h = (ground (arith, h.0), word-IsLine w h.1)

typed_words-IsLine : (w : Bytes) (ws : List Bytes) → All IsWord (w ∷ ws) → IsLine (typed_words w ws)
unfolding Visible
typed_words-IsLine w [] h = word-IsLine w h.0.1
typed_words-IsLine w (v ∷ ws) h =
    Visible-IsLine w (b' ' ∷ typed_words v ws) h.0.1 (refl, typed_words-IsLine v ws h.1)

typed-IsTyped :
    (c : Command)
    → FitsFrame c
    → NoSeconds c
    → All IsWord (verb c ∷ arguments c)
    → IsTyped (typed c)
typed-IsTyped c f n h =
    (typed_words-IsLine (verb c) (arguments c) h, n, parse_bytes-typed_words c f h)

command_at-IsTyped : (is_set : Bool) (n : ℕ) → IsTyped (typed (command_at is_set n))
unfolding Visible is_whitespace
command_at-IsTyped true n =
    typed-IsTyped (command_at true n) tt tt
      ((omega arith, (refl, (refl, (refl, tt)))), (key_of-IsWord n, (value_of-IsWord n, tt)))
command_at-IsTyped false n =
    typed-IsTyped (command_at false n) tt tt
      ((omega arith, (refl, (refl, (refl, tt)))), (key_of-IsWord (n % 1000), tt))

pub typed_batch-IsTyped : (is_set : Bool) (n k : ℕ) → All IsTyped (typed_batch is_set n k)
typed_batch-IsTyped is_set zero k = tt
typed_batch-IsTyped is_set (suc n) k =
    (command_at-IsTyped is_set k, typed_batch-IsTyped is_set n (add_word k 1))

module _ (I : Itoa) where
  command_line-eq :
      (is_set : Bool) (k : ℕ) → command_line I is_set k ≡ line_bytes (typed (command_at is_set k))
  unfolding command_line show_int
  command_line-eq true k =
      rw (I.format-eq (pos k), append_assoc (show_nat k) (codes " val:" ++ show_nat k) crlf) refl
  command_line-eq false k = rw (I.format-eq (pos (k % 1000))) refl

  pub build_batch-eq :
      (is_set : Bool) (n k : ℕ) → (build_batch I is_set n k).0 ≡ lines (typed_batch is_set n k)
  unfolding build_batch
  build_batch-eq is_set zero k = refl
  build_batch-eq is_set (suc n) k =
      rw (command_line-eq is_set k, build_batch-eq is_set n (add_word k 1)) refl

  build_batch-add :
      (is_set : Bool) (m n k : ℕ)
      → build_batch I is_set (m + n) k ≡ (
          let r = build_batch I is_set n (build_batch I is_set m k).1 in
          ((build_batch I is_set m k).0 ++ r.0, r.1))
  unfolding build_batch
  build_batch-add is_set zero n k = ap (λ x. build_batch I is_set x k) (omega arith)
  build_batch-add is_set (suc m) n k =
      let first = build_batch I is_set m (add_word k 1) in
      let more = build_batch I is_set n first.1 in
      let n' : suc m + n ≡ suc (m + n) = omega arith in
      ap (λ x. build_batch I is_set x k) n'
      ∙ ap (λ r. (command_line I is_set k ++ r.0, r.1)) (build_batch-add is_set m n (add_word k 1))
      ∙ ap (λ b. (b, more.1)) (sym (append_assoc (command_line I is_set k) first.0 more.0))

  pub build_batches-eq :
      (is_set : Bool) (size m k : ℕ)
      → build_batches I is_set size m k ≡ build_batch I is_set (m * size) k
  unfolding build_batches build_batch
  build_batches-eq is_set size zero k =
      let n' : 0 ≡ 0 * size = grind arith in ap (λ x. build_batch I is_set x k) n'
  build_batches-eq is_set size (suc m) k =
      let first = build_batch I is_set size k in
      let n' : size + m * size ≡ suc m * size = grind arith in
      ap (λ r. (first.0 ++ r.0, r.1)) (build_batches-eq is_set size m first.1)
      ∙ sym (build_batch-add is_set size (m * size) k)
      ∙ ap (λ x. build_batch I is_set x k) n'
