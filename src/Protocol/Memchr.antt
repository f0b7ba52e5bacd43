-- ===== src/Protocol/Memchr.antt =====
-- The `memchr` crate: the position of the first byte that is equal to `n`, or to one of two bytes.
use zetdb.Prelude.{
  ℕ, suc, ◌<◌, ◌≡◌, refl, Option, none, some, [], ◌∷◌, ◌++◌, Bytes, length, arith, inl, inr,
  Option-cases, ◌==◌, ◌||◌, if◌then◌else◌,
}

abbrev pub shift : Option ℕ → Option ℕ
shift none = none
shift (some i) = some (suc i)

pub record Memchr : Type 0 where
  pub memchr : ℕ → Bytes → Option ℕ
  pub memchr-nil : (n : ℕ) → memchr n [] ≡ none
  pub memchr-cons :
      (n b : ℕ) (s : Bytes) → memchr n (b ∷ s) ≡ (if b == n then some 0 else shift (memchr n s))

abbrev pub find : ℕ → Bytes → Option ℕ
find n [] = none
find n (b ∷ s) = if b == n then some 0 else shift (find n s)

abbrev pub scalar : Memchr
scalar = record { memchr = find; memchr-nil = λ n. refl; memchr-cons = λ n b s. refl }

-- The position of the first byte that is one of two.
pub record Memchr2 : Type 0 where
  pub memchr2 : ℕ → ℕ → Bytes → Option ℕ
  pub memchr2-nil : (n m : ℕ) → memchr2 n m [] ≡ none
  pub memchr2-cons :
      (n m b : ℕ) (s : Bytes)
      → memchr2 n m (b ∷ s) ≡ (if b == n || b == m then some 0 else shift (memchr2 n m s))

abbrev pub find2 : ℕ → ℕ → Bytes → Option ℕ
find2 n m [] = none
find2 n m (b ∷ s) = if b == n || b == m then some 0 else shift (find2 n m s)

abbrev pub scalar2 : Memchr2
scalar2 = record { memchr2 = find2; memchr2-nil = λ n m. refl; memchr2-cons = λ n m b s. refl }

module _ (M : Memchr) where
  -- The position of a byte, and that it stays.
  pub memchr-append :
      (n : ℕ) (s more : Bytes) (i : ℕ)
      → M.memchr n s ≡ some i
      → (M.memchr n (s ++ more) ≡ some i) × (i < length s)
  memchr-append n [] more i h = absurd (ground (arith, M.memchr-nil n))
  memchr-append n (b ∷ s) more i h = elim (Option-cases (M.memchr n s)) [
    | inl e ↦ ground (arith, M.memchr-cons n b s, M.memchr-cons n b (s ++ more))
    | inr (j, e) ↦
        ground
          (arith, M.memchr-cons n b s, M.memchr-cons n b (s ++ more), memchr-append n s more j e)
  ]
