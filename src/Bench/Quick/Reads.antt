-- ===== src/Bench/Quick/Reads.antt =====
-- bin/pipeline_quick.rs: how a client reads the replies in pieces.
use zetdb.Prelude.{
  ℕ, zero, suc, ◌+◌, ◌<◌, ◌≡◌, refl, ap, ◌∙◌, false, some, List, [], ◌∷◌, ◌++◌, append-nil, Bytes,
  All, take, drop, is_empty, length, inl, inr, Bool-cases, leb, arith,
}
use zetdb.Server.Session.Turns.{concat}
use zetdb.Bench.Quick.{newlines, read_replies}

pub newlines-append : (s t : Bytes) → newlines (s ++ t) ≡ newlines s + newlines t
unfolding newlines
newlines-append [] t = omega arith
newlines-append (b ∷ s) t = omega (arith, newlines-append s t)

nonempty : (b : Bytes) → 0 < length b → is_empty b ≡ false
nonempty [] h = absurd (omega (arith, h))
nonempty (x ∷ b) h = refl

-- What the socket returns of a text: one byte more than each size in turn, as long as there are bytes, and
-- then the rest.
abbrev pub cut : List ℕ → Bytes → List Bytes
cut sizes [] = []
cut [] (b ∷ s) = (b ∷ s) ∷ []
cut (n ∷ sizes) (b ∷ s) = (b ∷ take n s) ∷ cut sizes (drop n s)

pub cut_nonempty : (sizes : List ℕ) (s : Bytes) → All (λ b. 0 < length b) (cut sizes s)
cut_nonempty sizes [] = tt
cut_nonempty [] (b ∷ s) = (omega arith, tt)
cut_nonempty (n ∷ sizes) (b ∷ s) = (omega arith, cut_nonempty sizes (drop n s))

take-drop : (n : ℕ) (s : Bytes) → take n s ++ drop n s ≡ s
take-drop zero s = refl
take-drop (suc n) [] = refl
take-drop (suc n) (b ∷ s) = ap (◌∷◌ b) (take-drop n s)

pub concat-cut : (sizes : List ℕ) (s : Bytes) → concat (cut sizes s) ≡ s
concat-cut sizes [] = refl
concat-cut [] (b ∷ s) = append-nil (b ∷ s)
concat-cut (n ∷ sizes) (b ∷ s) =
    ap (λ x. (b ∷ take n s) ++ x) (concat-cut sizes (drop n s)) ∙ ap (◌∷◌ b) (take-drop n s)

pub read_replies_enough :
    (total received : ℕ) (chunks : List Bytes)
    → All (λ b. 0 < length b) chunks
    → received + newlines (concat chunks) ≡ total
    → (rest : List Bytes) × (read_replies total received chunks ≡ some rest)
      × (newlines (concat rest) ≡ 0)
unfolding read_replies
read_replies_enough total received [] h e =
    ([], unfold newlines in ground (arith, e), unfold newlines in refl)
read_replies_enough total received (chunk ∷ more) h e =
    let split = newlines-append chunk (concat more) in
    let (rest, f, g) =
      read_replies_enough total (received + newlines chunk) more h.1 (omega (arith, e, split)) in
    elim (Bool-cases (leb total received)) [
      | inl enough ↦ (chunk ∷ more, rw enough refl, ground (arith, e, split, enough))
      | inr short ↦ (rest, rw (short, nonempty chunk h.0) f, g)
    ]
