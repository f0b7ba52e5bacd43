-- ===== src/Application/Borrowed/Agreement.antt =====
-- application/dispatcher_borrowed.rs against application/dispatcher.rs.
use zetdb.Prelude.{
  ℕ, zero, suc, ◌<◌, ◌^◌, ◌≡◌, refl, sym, ap, ◌∙◌, Bool, true, false, ◌∷◌, ◌++◌, Bytes,
  if◌then◌else◌, arith,
}
use zetdb.Prelude.Int.{ℤ, pos, negsuc, of_word}
use zetdb.Bytes.{bytes_eq_iff, codes, crlf}
use zetdb.Bytes.Decimal.{show_int, show_nat}
use zetdb.Bytes.Utf8.{from_utf8_lossy, IsUtf8}
use zetdb.Domain.Errors.{Outcome, returns, panics, deadlocks, ◌>>=◌}
use zetdb.Domain.Value.{ValueEntry}
use zetdb.Domain.Command.{Command}
use zetdb.Storage.DashMap.{DashMap}
use zetdb.Storage.Itoa.{Itoa}
use zetdb.Storage.Engine
use zetdb.Storage.Engine.{Engine}
use zetdb.Protocol.Response.{write_integer}
use zetdb.Observability.Metrics.{Thread}
use zetdb.Application.Info.{Counters}
use zetdb.Application.Dispatch.{Clock, entry_of, flag}
use zetdb.Application.Buffer.{dispatch_to_buffer}
use zetdb.Application.Borrowed.{key_str, write_ttl, dispatch_borrowed_to_buffer}

-- The commands that both dispatchers run alike: no list of keys and no INFO, and a key that is text.
abbrev pub IsShared : Command → Type 0
IsShared (Command.get k) = IsUtf8 k
IsShared (Command.set k value ttl) = IsUtf8 k
IsShared (Command.del k) = IsUtf8 k
IsShared (Command.incr k) = IsUtf8 k
IsShared (Command.exists k) = IsUtf8 k
IsShared (Command.ttl k) = IsUtf8 k
IsShared (Command.expire k n) = IsUtf8 k
IsShared Command.ping = Unit
IsShared Command.db_size = Unit
IsShared Command.flush_db = Unit
IsShared _ = ⊥

key_str-IsUtf8 : (k : Bytes) → IsUtf8 k → key_str k ≡ k
unfolding key_str
key_str-IsUtf8 k h = ground (arith, h, bytes_eq_iff (from_utf8_lossy k) k)

abbrev pub with_thread : {S : Type 0} → Thread → Outcome (Bytes × S) → Outcome (Bytes × S × Thread)
with_thread t o = o >>= λ r. returns (r.0, r.1, t)

bind_second :
    {A S : Type 0} (t : Thread) (o : Outcome A) (f : A → Bytes) (g : A → S)
    → (o >>= λ x. returns (f x, g x, t)) ≡ with_thread t (o >>= λ x. returns (f x, g x))
bind_second t (returns x) f g = refl
bind_second t panics f g = refl
bind_second t deadlocks f g = refl

small_ints :
    (show_int (negsuc 1) ≡ codes "-2")
    × (show_int (negsuc 0) ≡ codes "-1")
    × (show_int (pos 1) ≡ codes "1")
    × (show_int (pos 0) ≡ codes "0")
unfolding show_int show_nat
small_ints = (refl, refl, refl, refl)

write_integer-eq :
    (I : Itoa) (n : ℤ) (text : Bytes)
    → show_int n ≡ text
    → b':' ∷ (text ++ crlf) ≡ write_integer I n
unfolding write_integer
write_integer-eq I n text e = ap (λ x. b':' ∷ (x ++ crlf)) (sym (I.format-eq n ∙ e))

flag_line :
    (I : Itoa) (b : Bool)
    → (if b then codes ":1" ++ crlf else codes ":0" ++ crlf) ≡ write_integer I (flag b)
flag_line I true = write_integer-eq I (pos 1) (codes "1") small_ints.2
flag_line I false = write_integer-eq I (pos 0) (codes "0") small_ints.3

write_ttl-eq : (I : Itoa) (n : ℤ) → write_ttl I n ≡ write_integer I n
unfolding write_integer
write_ttl-eq I (negsuc (suc zero)) = write_integer-eq I (negsuc 1) (codes "-2") small_ints.0
write_ttl-eq I (negsuc zero) = write_integer-eq I (negsuc 0) (codes "-1") small_ints.1
write_ttl-eq I (negsuc (suc (suc n))) = refl
write_ttl-eq I (pos n) = refl

expire_reply :
    {S : Type 0} (I : Itoa) (t : Thread) (o : Outcome (Bool × S))
    → (o >>= λ x. returns (if x.0 then codes ":1" ++ crlf else codes ":0" ++ crlf, x.1, t))
      ≡ with_thread t (o >>= λ x. returns (write_integer I (flag x.0), x.1))
expire_reply I t (returns (b, s)) = ap (λ x. returns (x, s, t)) (flag_line I b)
expire_reply I t panics = refl
expire_reply I t deadlocks = refl

small_word : (n : ℕ) → n < 2 ^ 63 → pos n ≡ of_word n
small_word n h = ground arith

module _ (I : Itoa) {D : DashMap ValueEntry} (uptime : ℕ) (m : Counters) (clock : Clock)
    (is_resp : Bool) where
  -- On every command without a list of keys but INFO, with a key that is text and fewer than 2^63 entries, the
  -- borrowed dispatcher does what the other does: the same bytes, the same engine, and the counters as
  -- they were.
  pub dispatch_borrowed_to_buffer-eq :
      (s : Engine D) (t : Thread) (c : Command)
      → IsShared c
      → D.len s.map < 2 ^ 63
      → dispatch_borrowed_to_buffer I uptime clock is_resp s t c
        ≡ with_thread t (dispatch_to_buffer I m clock is_resp s c)
  unfolding dispatch_borrowed_to_buffer dispatch_to_buffer Engine.len
  dispatch_borrowed_to_buffer-eq s t (Command.get k) h l = rw (key_str-IsUtf8 k h) refl
  dispatch_borrowed_to_buffer-eq s t (Command.set k value ttl) h l =
      rw (key_str-IsUtf8 k h) (bind_second t (entry_of value ttl clock) _ _)
  dispatch_borrowed_to_buffer-eq s t (Command.del k) h l = rw (key_str-IsUtf8 k h) refl
  dispatch_borrowed_to_buffer-eq s t (Command.incr k) h l =
      rw (key_str-IsUtf8 k h) (bind_second t (Engine.incr I k (clock 0) (clock 1) s) _ _)
  dispatch_borrowed_to_buffer-eq s t (Command.exists k) h l = rw (key_str-IsUtf8 k h) refl
  dispatch_borrowed_to_buffer-eq s t (Command.ttl k) h l =
      rw (key_str-IsUtf8 k h, write_ttl-eq I (Engine.ttl_secs k (clock 0) (clock 1) s).0) refl
  dispatch_borrowed_to_buffer-eq s t (Command.expire k n) h l =
      rw (key_str-IsUtf8 k h) (expire_reply I t (Engine.expire k n (clock 0) (clock 1) s))
  dispatch_borrowed_to_buffer-eq s t Command.ping h l = refl
  dispatch_borrowed_to_buffer-eq s t Command.db_size h l =
      ap (λ n. returns (write_integer I n, s, t)) (small_word (D.len s.map) l)
  dispatch_borrowed_to_buffer-eq s t Command.flush_db h l = refl
  dispatch_borrowed_to_buffer-eq s t (Command.mget ks) h l = absurd h
  dispatch_borrowed_to_buffer-eq s t (Command.mset ps) h l = absurd h
  dispatch_borrowed_to_buffer-eq s t Command.info h l = absurd h
  dispatch_borrowed_to_buffer-eq s t Command.keys h l = absurd h
