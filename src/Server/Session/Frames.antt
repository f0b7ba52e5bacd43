-- ===== src/Server/Session/Frames.antt =====
-- server/session.rs: a loop over a buffer that holds frames one after the other, whatever their form.
use zetdb.Prelude.{
  ℕ, zero, suc, ◌<◌, ◌≡◌, refl, sym, ap, ◌∙◌, Option, some, List, [], ◌∷◌, ◌++◌, Bytes, All, length,
  length-append, append_assoc, arith,
}
use zetdb.Domain.Errors.{Outcome, returns, panics, deadlocks, ◌>>=◌}
use zetdb.Domain.Value.{ValueEntry}
use zetdb.Storage.DashMap.{DashMap}
use zetdb.Server.Session.{Session, Round, goes_on, ends, loop}

abbrev pub with_buf : {D : DashMap ValueEntry} → Bytes → Session D → Session D
with_buf b s = record s { read_buf = b }

module _ {A : Type 0} where
  abbrev pub joined : (A → Bytes) → List A → Bytes
  joined bytes_of [] = []
  joined bytes_of (x ∷ xs) = bytes_of x ++ joined bytes_of xs

  abbrev pub in_order : {S : Type 0} → (A → S → Outcome S) → List A → S → Outcome S
  in_order answer [] s = returns s
  in_order answer (x ∷ xs) s = answer x s >>= in_order answer xs

-- What an answer does, it does to any buffer.
abbrev pub AnyBuffer : {D : DashMap ValueEntry} → (Session D → Outcome (Session D)) → Type 0
AnyBuffer {D} answer =
    (s : Session D)
    → (o : Outcome (Session D)) × ((b : Bytes)
        → answer (with_buf b s) ≡ (o >>= λ x. returns (with_buf b x)))

pub bind_once :
    {X S T : Type 0} (o : Outcome X) (f : X → S) (g : S → T)
    → (o >>= λ x. returns (g (f x))) ≡ ((o >>= λ x. returns (f x)) >>= λ y. returns (g y))
bind_once (returns x) f g = refl
bind_once panics f g = refl
bind_once deadlocks f g = refl

module _ {D : DashMap ValueEntry} (round : Session D → Round (Session D)) {A : Type 0}
    (IsFrame : A → Type 0) (bytes_of : A → Bytes)
    (answer : A → Session D → Outcome (Session D)) where
  -- A frame at the front of the buffer is taken off and answered in one round.
  abbrev pub IsAnswered : Type 0
  IsAnswered =
      (x : A) (rest : Bytes) (s : Session D)
      → IsFrame x
      → (0 < length (bytes_of x))
        × (round (with_buf (bytes_of x ++ rest) s) ≡ goes_on (answer x (with_buf rest s)))

  after_answer :
      (xs : List A) (b part : Bytes) (fuel : ℕ) (o : Outcome (Session D))
      → ((s' : Session D)
          → loop round fuel (with_buf b s') ≡ some (in_order answer xs (with_buf part s')))
      → ◌≡◌ {A = Option (Outcome (Session D))}
          (elim (o >>= λ x. returns (with_buf b x)) [
            | returns s' ↦ loop round fuel s'
            | panics ↦ some panics
            | deadlocks ↦ some deadlocks
          ])
          (some ((o >>= λ x. returns (with_buf part x)) >>= in_order answer xs))
  after_answer xs b part fuel (returns x) ih = ih x
  after_answer xs b part fuel panics ih = refl
  after_answer xs b part fuel deadlocks ih = refl

  loop_step :
      (fuel : ℕ) (s : Session D) (o : Outcome (Session D))
      → round s ≡ goes_on o
      → loop round (suc fuel) s ≡ (elim o [
        | returns s' ↦ loop round fuel s'
        | panics ↦ some panics
        | deadlocks ↦ some deadlocks
      ])
  unfolding loop
  loop_step fuel s (returns s') e = rw (loop, e) refl
  loop_step fuel s panics e = rw (loop, e) refl
  loop_step fuel s deadlocks e = rw (loop, e) refl

  -- Whole frames in the buffer, and what ends the loop behind them.
  pub loop-joined :
      (xs : List A) (part : Bytes) (s : Session D) (fuel : ℕ)
      → IsAnswered
      → ((x : A) → AnyBuffer (answer x))
      → All IsFrame xs
      → ((s' : Session D) → round (with_buf part s') ≡ ends)
      → length (joined bytes_of xs ++ part) < fuel
      → loop round fuel (with_buf (joined bytes_of xs ++ part) s)
        ≡ some (in_order answer xs (with_buf part s))
  unfolding loop
  loop-joined xs part s zero answered any_buffer h stop l = absurd (omega (arith, l))
  loop-joined [] part s (suc fuel) answered any_buffer h stop l = rw (loop, stop s) refl
  loop-joined (x ∷ xs) part s (suc fuel) answered any_buffer h stop l =
      let rest = joined bytes_of xs ++ part in
      let one = answered x rest s h.0 in
      let any = any_buffer x s in
      let shorter : length rest < fuel = omega (
        arith,
        l,
        length-append (bytes_of x ++ joined bytes_of xs) part,
        length-append (bytes_of x) (joined bytes_of xs),
        length-append (joined bytes_of xs) part,
        one.0,
      ) in
      ap (λ b. loop round (suc fuel) (with_buf b s))
        (append_assoc (bytes_of x) (joined bytes_of xs) part)
      ∙ loop_step fuel (with_buf (bytes_of x ++ rest) s) (any.0 >>= λ y. returns (with_buf rest y))
          (one.1 ∙ ap goes_on (any.1 rest))
      ∙ after_answer xs rest part fuel any.0
          (λ s'. loop-joined xs part s' fuel answered any_buffer h.1 stop shorter)
      ∙ ap (λ o. some (o >>= in_order answer xs)) (sym (any.1 part))
