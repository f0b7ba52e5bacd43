-- ===== src/Protocol/Frame/Reads.antt =====
-- protocol/parser.rs: what each step of a frame reads off what a client sends.
use mathlib.Core.Path.{subst}
use zetdb.Prelude.{
  ℕ, ◌+◌, ◌/◌, ◌%◌, ◌^◌, ◌<◌, ◌≡◌, refl, ap, sym, ◌∙◌, false, ◌||◌, not, Option, none, some, List,
  [], ◌∷◌, ◌++◌, append_assoc, append-nil, Bytes, length, length-append, drop, drop-length-append,
  drop-drop, All, arith, ltb, ◌==◌,
}
use zetdb.Bytes.{codes}
use zetdb.Bytes.Decimal.{show_nat, parse_u64-show_nat}
use zetdb.Domain.Errors.{Result, ok}
use zetdb.Domain.Value.{from_millis, nanos_per_milli}
use zetdb.Domain.Command.{Command}
use zetdb.Protocol.Memchr.{Memchr}
use zetdb.Protocol.Scan.{ParseError, eq_ignore_ascii_case}
use zetdb.Protocol.Resp.{read_resp_bulk}
use zetdb.Protocol.Frame.{
  done, Frame, pure, lift, ◌>>=◌, step_of, at_position, bulk, skip_args, bulks, bulk_pairs, one_key,
  ttl_option, set_args, expire_args, mget_args, mset_args,
}
use zetdb.Protocol.Frame.Wire.{resp_bulk, read_resp_bulk-resp_bulk}
use zetdb.Protocol.Frame.Client.{resp_bulks, pair_words, arguments, IsShort, length-pair_words}

module _ {A : Type 0} where
  -- The frame reads `a` off `bs`, whatever stands before and behind.
  abbrev pub Reads : Frame A → Bytes → A → Type 0
  Reads m bs a =
      (buf : Bytes) (p : ℕ) (rest : Bytes)
      → drop p buf ≡ bs ++ rest
      → m buf p ≡ done a (p + length bs)

  pub pure-Reads : (a : A) → Reads (pure a) [] a
  unfolding pure
  pure-Reads a buf p rest e = ap (done a) (omega arith)

  pub at_position-Reads :
      (reader : Bytes → Result (Option (A × ℕ)) ParseError) (bs : Bytes) (a : A)
      → ((rest : Bytes) → reader (bs ++ rest) ≡ ok (some (a, length bs)))
      → Reads (at_position reader) bs a
  unfolding at_position step_of
  at_position-Reads reader bs a h buf p rest e = rw (e, h rest) refl

pub bind-Reads :
    {A B : Type 0} (m : Frame A) (f : A → Frame B) (xs ys : Bytes) (a : A) (b : B)
    → Reads m xs a
    → Reads (f a) ys b
    → Reads (m >>= f) (xs ++ ys) b
unfolding ◌>>=◌
bind-Reads m f xs ys a b h k buf p rest e =
    let e' : drop p buf ≡ xs ++ (ys ++ rest) = e ∙ append_assoc xs ys rest in
    let behind : drop (p + length xs) buf ≡ ys ++ rest =
      sym (drop-drop (length xs) p buf)
      ∙ ap (drop (length xs)) e'
      ∙ drop-length-append xs (ys ++ rest) in
    rw (◌>>=◌, h buf p (ys ++ rest) e', k buf (p + length xs) rest behind)
      (ap (done b) (omega (arith, length-append xs ys)))

module _ (M : Memchr) where
  pub bulk-Reads : (d : Bytes) → IsShort d → Reads (bulk M) (resp_bulk d) d
  unfolding bulk
  bulk-Reads d h =
      at_position-Reads (read_resp_bulk M) (resp_bulk d) d
        (λ rest. read_resp_bulk-resp_bulk M d rest h)

  bulks-Reads : (ks : List Bytes) → All IsShort ks → Reads (bulks M (length ks)) (resp_bulks ks) ks
  unfolding bulks
  bulks-Reads [] h = pure-Reads []
  bulks-Reads (k ∷ ks) h =
      bind-Reads (bulk M) _ (resp_bulk k) (resp_bulks ks) k (k ∷ ks) (bulk-Reads k h.0) (
        subst (λ bs. Reads (bulks M (length ks) >>= λ ks'. pure (k ∷ ks')) bs (k ∷ ks))
          (append-nil (resp_bulks ks))
          (bind-Reads (bulks M (length ks)) (λ ks'. pure (k ∷ ks')) (resp_bulks ks) [] ks (k ∷ ks)
            (bulks-Reads ks h.1) (pure-Reads (k ∷ ks))))

  bulk_pairs-Reads :
      (ps : List (Bytes × Bytes))
      → All IsShort (pair_words ps)
      → Reads (bulk_pairs M (length ps)) (resp_bulks (pair_words ps)) ps
  unfolding bulk_pairs
  bulk_pairs-Reads [] h = pure-Reads []
  bulk_pairs-Reads ((k, v) ∷ ps) h =
      let more = resp_bulks (pair_words ps) in
      let all = (k, v) ∷ ps in
      bind-Reads (bulk M) _ (resp_bulk k) (resp_bulk v ++ more) k all (bulk-Reads k h.0) (
        bind-Reads (bulk M) _ (resp_bulk v) more v all (bulk-Reads v h.1.0) (
          subst (λ bs. Reads (bulk_pairs M (length ps) >>= λ ps'. pure ((k, v) ∷ ps')) bs all)
            (append-nil more)
            (bind-Reads (bulk_pairs M (length ps)) (λ ps'. pure ((k, v) ∷ ps')) more [] ps all
              (bulk_pairs-Reads ps h.1.1) (pure-Reads all))))

  pub one_key-Reads :
      (usage : Bytes) (make : Bytes → Command) (k : Bytes)
      → IsShort k
      → Reads (one_key M usage make 1) (resp_bulks (k ∷ [])) (make k)
  unfolding one_key
  one_key-Reads usage make k h =
      bind-Reads (bulk M) _ (resp_bulk k) [] k (make k) (bulk-Reads k h) (pure-Reads (make k))

  pub set_plain-Reads :
      (k v : Bytes)
      → IsShort k
      → IsShort v
      → Reads (set_args M 2) (resp_bulks (k ∷ v ∷ [])) (Command.set k v none)
  unfolding set_args skip_args
  set_plain-Reads k v hk hv =
      let c = Command.set k v none in
      bind-Reads (bulk M) _ (resp_bulk k) _ k c (bulk-Reads k hk) (
        bind-Reads (bulk M) _ (resp_bulk v) [] v c (bulk-Reads v hv)
          (bind-Reads (pure tt) _ [] [] tt c (pure-Reads tt) (pure-Reads c)))

  ttl_option_px :
      (t : ℕ)
      → t ≡ from_millis (t / nanos_per_milli)
      → t / nanos_per_milli < 2 ^ 64
      → ttl_option (codes "PX") (show_nat (t / nanos_per_milli)) ≡ ok (some t)
  unfolding ttl_option eq_ignore_ascii_case
  ttl_option_px t whole h =
      rw (parse_u64-show_nat (t / nanos_per_milli) h) (ap (λ n. ok (some n)) (sym whole))

  lift-Reads : {A : Type 0} (r : Result A ParseError) (a : A) → r ≡ ok a → Reads (lift r) [] a
  lift-Reads r a e = rw e (pure-Reads a)

  pub set_px-Reads :
      (k v : Bytes) (t : ℕ)
      → t ≡ from_millis (t / nanos_per_milli)
      → t / nanos_per_milli < 2 ^ 64
      → All IsShort (k ∷ v ∷ show_nat (t / nanos_per_milli) ∷ [])
      → Reads
          (set_args M 4)
          (resp_bulks (arguments (Command.set k v (some t))))
          (Command.set k v (some t))
  unfolding set_args skip_args
  set_px-Reads k v t whole h short =
      let c = Command.set k v (some t) in
      let px = codes "PX" in
      let ms = show_nat (t / nanos_per_milli) in
      bind-Reads (bulk M) _ (resp_bulk k) _ k c (bulk-Reads k short.0) (
        bind-Reads (bulk M) _ (resp_bulk v) _ v c (bulk-Reads v short.1.0) (
          bind-Reads (bulk M) _ (resp_bulk px) _ px c (bulk-Reads px (omega arith)) (
            bind-Reads (bulk M) _ (resp_bulk ms) [] ms c (bulk-Reads ms short.1.1.0) (
              bind-Reads (lift (ttl_option px ms)) _ [] [] (some t) c
                (lift-Reads (ttl_option px ms) (some t) (ttl_option_px t whole h))
                (bind-Reads (pure tt) _ [] [] tt c (pure-Reads tt) (pure-Reads c))))))

  pub expire-Reads :
      (k : Bytes) (n : ℕ)
      → n < 2 ^ 64
      → IsShort k
      → IsShort (show_nat n)
      → Reads (expire_args M 2) (resp_bulks (k ∷ show_nat n ∷ [])) (Command.expire k n)
  unfolding expire_args
  expire-Reads k n h hk hn =
      let c = Command.expire k n in
      bind-Reads (bulk M) _ (resp_bulk k) _ k c (bulk-Reads k hk) (
        bind-Reads (bulk M) _ (resp_bulk (show_nat n)) [] (show_nat n) c
          (bulk-Reads (show_nat n) hn) (rw (parse_u64-show_nat n h) (pure-Reads c)))

  pub mget-Reads :
      (ks : List Bytes)
      → 0 < length ks
      → All IsShort ks
      → Reads (mget_args M (length ks)) (resp_bulks ks) (Command.mget ks)
  unfolding mget_args
  mget-Reads ks p h =
      let c = Command.mget ks in
      let some_key : ltb (length ks) 1 ≡ false = ground arith in
      rw some_key (
        subst (λ bs. Reads (bulks M (length ks) >>= λ ks'. pure (Command.mget ks')) bs c)
          (append-nil (resp_bulks ks))
          (bind-Reads (bulks M (length ks)) (λ ks'. pure (Command.mget ks')) (resp_bulks ks) [] ks c
            (bulks-Reads ks h) (pure-Reads c)))

  pub mset-Reads :
      (ps : List (Bytes × Bytes))
      → 0 < length ps
      → All IsShort (pair_words ps)
      → Reads (mset_args M (length (pair_words ps))) (resp_bulks (pair_words ps)) (Command.mset ps)
  unfolding mset_args
  mset-Reads ps p h =
      let c = Command.mset ps in
      let bs = resp_bulks (pair_words ps) in
      let n = length (pair_words ps) in
      let twice = length-pair_words ps in
      let even : (ltb n 2 || not (n % 2 == 0)) ≡ false = ground (arith, twice) in
      let half : n / 2 ≡ length ps = omega (arith, twice) in
      rw (even, half)
        (subst (λ s. Reads (bulk_pairs M (length ps) >>= λ ps'. pure (Command.mset ps')) s c)
          (append-nil bs)
          (bind-Reads (bulk_pairs M (length ps)) (λ ps'. pure (Command.mset ps')) bs [] ps c
            (bulk_pairs-Reads ps h) (pure-Reads c)))
