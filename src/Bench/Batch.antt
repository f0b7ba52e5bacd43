-- ===== src/Bench/Batch.antt =====
-- bin/redis_compare.rs: what the server makes of a batch.
use zetdb.Prelude.{
  ℕ, zero, suc, ◌^◌, ◌%◌, ◌<◌, ◌≤◌, ◌≡◌, refl, sym, ap, ◌∙◌, Bool, true, false, none, some, List,
  [], ◌∷◌, ◌++◌, append-nil, Bytes, All, length, length-take, take, take-length-append,
  length-append, if◌then◌else◌, arith,
}
use zetdb.Bytes.{codes}
use zetdb.Bytes.Decimal.{show_nat}
use zetdb.Domain.Errors.{returns}
use zetdb.Domain.Value.{ValueEntry}
use zetdb.Domain.Command.{Command}
use zetdb.Storage.DashMap.{DashMap}
use zetdb.Storage.Itoa.{Itoa}
use zetdb.Protocol.Memchr.{Memchr, Memchr2}
use zetdb.Protocol.Frame.Client.{resp_command, resp_bulks, resp_array}
use zetdb.Server.Session.{Env, Session, max_write_buf}
use zetdb.Server.Session.Frames.{with_buf}
use zetdb.Server.Session.Wire.{IsSendable, wires, served}
use zetdb.Server.Session.Sent.{sent}
use zetdb.Server.Session.Turns.{feed, piece_limit, IsSmall}
use zetdb.Server.Session.Pieces.{feed-wires}
use zetdb.Observability.Metrics.{add_word}
use zetdb.Bench.Compare.{
  resp_args, resp_frame, resp_set, resp_get, write_key, batch_command, build_batch,
}

resp_args-eq : (ws : List Bytes) → resp_args ws ≡ resp_bulks ws
unfolding resp_args
resp_args-eq [] = refl
resp_args-eq (w ∷ ws) = rw (resp_args-eq ws) refl

resp_frame-eq : (ws : List Bytes) → resp_frame ws ≡ resp_array ws
unfolding resp_frame
resp_frame-eq ws = rw (resp_args-eq ws) refl

length-write_key : (counter : ℕ) → length (write_key counter) ≤ 32
unfolding write_key
length-write_key counter = ground (arith, length-take 32 (codes "k:" ++ show_nat counter))

-- The number of bytes of a key is below 1000: the key is sent whole.
take-length_mod : (key : Bytes) → length key ≤ 32 → take (length key % 1000) key ≡ key
take-length_mod key h =
    let e : length key % 1000 ≡ length key = omega (arith, h) in
    ap (λ n. take n key) e
    ∙ ap (take (length key)) (sym (append-nil key))
    ∙ take-length-append key []

-- What a batch means: the keys count up from the counter, of 64 bits.
abbrev pub command_at : Bool → ℕ → Command
command_at is_set counter =
    if is_set
    then Command.set (write_key counter) (write_key counter) none
    else Command.get (write_key counter)

abbrev pub commands_from : Bool → ℕ → ℕ → List Command
commands_from is_set zero counter = []
commands_from is_set (suc n) counter =
    command_at is_set counter ∷ commands_from is_set n (add_word counter 1)

batch_command-eq :
    (is_set : Bool) (counter : ℕ)
    → batch_command is_set counter ≡ resp_command (command_at is_set counter)
unfolding batch_command resp_set resp_get
batch_command-eq true counter =
    resp_frame-eq (codes "SET" ∷ write_key counter ∷ write_key counter ∷ [])
batch_command-eq false counter =
    rw (take-length_mod (write_key counter) (length-write_key counter))
      (resp_frame-eq (codes "GET" ∷ write_key counter ∷ []))

command_at-IsSendable : (is_set : Bool) (counter : ℕ) → IsSendable (command_at is_set counter)
command_at-IsSendable true counter =
    let h : length (write_key counter) < 2 ^ 63 = omega (arith, length-write_key counter) in
    (tt, (h, (h, tt)))
command_at-IsSendable false counter = (tt, (omega (arith, length-write_key counter), tt))

build_batch-eq :
    (is_set : Bool) (n counter : ℕ)
    → (build_batch is_set n counter ≡ wires (commands_from is_set n counter))
      × All IsSendable (commands_from is_set n counter)
unfolding build_batch
build_batch-eq is_set zero counter = (refl, tt)
build_batch-eq is_set (suc n) counter =
    let rest = build_batch-eq is_set n (add_word counter 1) in
    (
      ap (λ b. b ++ build_batch is_set n (add_word counter 1)) (batch_command-eq is_set counter)
          ∙ ap (λ b. resp_command (command_at is_set counter) ++ b) rest.0,
      (command_at-IsSendable is_set counter, rest.1),
    )

IsSmall-of_wires : (cs : List Command) → length (wires cs) ≤ piece_limit → All IsSmall cs
IsSmall-of_wires [] h = tt
IsSmall-of_wires (c ∷ cs) h =
    let sum = length-append (resp_command c) (wires cs) in
    (omega (arith, h, sum), IsSmall-of_wires cs (omega (arith, h, sum)))

build_batch-nonempty :
    (is_set : Bool) (n counter : ℕ) → 0 < length (build_batch is_set (suc n) counter)
unfolding build_batch batch_command resp_set resp_get resp_frame
build_batch-nonempty true n counter = omega arith
build_batch-nonempty false n counter = omega arith

module _ (I : Itoa) (M : Memchr) (M2 : Memchr2) {D : DashMap ValueEntry} (metrics_enabled : Bool)
    (env : Env) where
  -- A session of the server with nothing left to send that reads a batch of one command at least and of
  -- 512 KiB at most at once, where each of its commands is answered when it comes alone and the replies
  -- take 1 MiB together at most, stays open and has sent the replies of these commands in their order,
  -- each once: each sets its key to itself, or gets it, and the keys are those of the counter and of
  -- the numbers of 64 bits behind it, which wrap around, also in a batch of GET.
  pub feed-build_batch :
      (is_set : Bool) (n counter : ℕ) (s t : Session D)
      → length (build_batch is_set (suc n) counter) ≤ piece_limit
      → s.write_buf ≡ []
      → served I metrics_enabled env (commands_from is_set (suc n) counter) (with_buf [] s)
        ≡ returns t
      → length t.write_buf ≤ max_write_buf
      → feed I M M2 metrics_enabled env (build_batch is_set (suc n) counter ∷ []) (with_buf [] s)
        ≡ some (returns (true, sent t))
  feed-build_batch is_set n counter s t room new done fits =
      let whole = build_batch-eq is_set (suc n) counter in
      let batch = build_batch is_set (suc n) counter in
      let cs = commands_from is_set (suc n) counter in
      feed-wires I M M2 metrics_enabled env (batch ∷ []) cs s t whole.1
        (IsSmall-of_wires cs (omega (arith, room, ap length whole.0)))
        ((build_batch-nonempty is_set n counter, room), tt) (append-nil batch ∙ whole.0) new done
        fits
