-- ===== src/Protocol/Frame/Steady.antt =====
-- protocol/parser.rs: the steps of a frame, on a buffer and on one with more bytes behind.
use zetdb.Prelude.{
  ℕ, suc, ◌≤◌, ◌≡◌, refl, Bool, true, false, Option, none, some, ◌++◌, Bytes, length, length-drop,
  drop, drop-append, arith, if◌then◌else◌,
}
use zetdb.Domain.Errors.{Result, ok, err}
use zetdb.Protocol.Scan.{ParseError}
use zetdb.Protocol.Frame.{
  Step, done, incomplete, fails, Frame, pure, fail, lift, ◌>>=◌, step_of, at_position,
}
use zetdb.Protocol.Frame.Kept.{Kept}

-- So does the outcome of a step from `p`, which stays within the `n` bytes.
abbrev pub Settled : {A : Type 0} → ℕ → ℕ → Step A → Step A → Type 0
Settled n p (done a q) r = (r ≡ done a q) × (p ≤ q) × (q ≤ n)
Settled n p incomplete r = Unit
Settled n p (fails e) r = r ≡ fails e

module _ {A : Type 0} where
  -- A step that settles on `buf` with more bytes behind it.
  abbrev pub IsSteady : Frame A → Type 0
  IsSteady m =
      (buf more : Bytes) (p : ℕ)
      → p ≤ length buf
      → Settled (length buf) p (m buf p) (m (buf ++ more) p)

  pub pure-IsSteady : (a : A) → IsSteady (pure a)
  unfolding pure
  pure-IsSteady a buf more p h = (refl, omega arith, h)

pub fail-IsSteady : (A : Type 0) (e : ParseError) → IsSteady (fail {A = A} e)
unfolding fail
fail-IsSteady A e buf more p h = refl

module _ {A : Type 0} where
  pub lift-IsSteady : (r : Result A ParseError) → IsSteady (lift r)
  lift-IsSteady (ok a) = pure-IsSteady a
  lift-IsSteady (err e) = fail-IsSteady A e

  pub if-IsSteady :
      (b : Bool) (x y : Frame A) → IsSteady x → IsSteady y → IsSteady (if b then x else y)
  if-IsSteady true x y h k = h
  if-IsSteady false x y h k = k

  weaken : (n p q : ℕ) (r r' : Step A) → p ≤ q → Settled n q r r' → Settled n p r r'
  weaken n p q (done a k) r' h s = (s.0, omega (arith, s.1), s.2)
  weaken n p q incomplete r' h s = tt
  weaken n p q (fails e) r' h s = s

module _ {A B : Type 0} where
  pub bind-Settled :
      (m : Frame A) (f : A → Frame B) (buf more : Bytes) (p lo : ℕ)
      → Settled (length buf) lo (m buf p) (m (buf ++ more) p)
      → ((a : A) → IsSteady (f a))
      → Settled (length buf) lo ((m >>= f) buf p) ((m >>= f) (buf ++ more) p)
  unfolding ◌>>=◌
  bind-Settled m f buf more p lo h k = step (m buf p) (m (buf ++ more) p) h
    where
      step :
          (r r' : Step A)
          → Settled (length buf) lo r r'
          → Settled
              (length buf)
              lo
              (elim r [ done a q ↦ f a buf q | incomplete ↦ incomplete | fails e ↦ fails e ])
              (elim r' [
                | done a q ↦ f a (buf ++ more) q
                | incomplete ↦ incomplete
                | fails e ↦ fails e
              ])
      step (done a q) r' s = rw s.0 (weaken (length buf) lo q _ _ s.1 (k a buf more q s.2))
      step incomplete r' s = tt
      step (fails e) r' s = rw s refl

  pub bind-IsSteady :
      (m : Frame A) (f : A → Frame B) → IsSteady m → ((a : A) → IsSteady (f a)) → IsSteady (m >>= f)
  bind-IsSteady m f h k buf more p le = bind-Settled m f buf more p p (h buf more p le) k

module _ {A : Type 0} (reader : Bytes → Result (Option (A × ℕ)) ParseError) where
  pub at_position-Settled :
      ((s more : Bytes) → Kept (length s) (reader s) (reader (s ++ more)))
      → (buf more : Bytes) (p : ℕ) → p ≤ length buf
      → Settled (length buf) (suc p) (at_position reader buf p) (at_position reader (buf ++ more) p)
  unfolding at_position step_of
  at_position-Settled h buf more p le =
      rw (drop-append p buf more le) (step (reader (drop p buf)) _ (h (drop p buf) more))
    where
      step :
          (r r' : Result (Option (A × ℕ)) ParseError)
          → Kept (length (drop p buf)) r r'
          → Settled (length buf) (suc p) (step_of p r) (step_of p r')
      step (ok none) r' s = tt
      step (ok (some (a, n))) r' s =
          rw s.0 (refl, omega (arith, s.1), omega (arith, s.2, length-drop p buf))
      step (err e) r' s = rw s refl

  pub at_position-IsSteady :
      ((s more : Bytes) → Kept (length s) (reader s) (reader (s ++ more)))
      → IsSteady (at_position reader)
  at_position-IsSteady h buf more p le =
      weaken (length buf) p (suc p) _ _ (omega arith) (at_position-Settled h buf more p le)

-- The step that the rest of a frame takes once its arguments are read.
pub number-IsSteady :
    {A : Type 0} (e : ParseError) (o : Option ℕ) (make : ℕ → A)
    → IsSteady {A = A} (elim o [ none ↦ fail e | some n ↦ pure (make n) ])
number-IsSteady {A = A} e none make = fail-IsSteady A e
number-IsSteady e (some n) make = pure-IsSteady (make n)
