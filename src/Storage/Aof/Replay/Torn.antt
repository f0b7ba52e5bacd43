-- ===== src/Storage/Aof/Replay/Torn.antt =====
-- A log whose last entry was cut short.
use mathlib.Core.Path.{subst}
use zetdb.Prelude.{
  ℕ, suc, ◌^◌, ◌<◌, ◌≡◌, ◌≢◌, refl, ap, Bool, true, false, Option, none, some, [], ◌∷◌, ◌++◌,
  append-nil, Bytes, length, length-append, drop-append, take-append, arith, ltb, ◌==◌, inl, inr,
  Bool-cases, Option-cases, if◌then◌else◌,
}
use zetdb.Bytes.Endian.{to_le_bytes}
use zetdb.Domain.Command.{Command}
use zetdb.Storage.Aof.Entry.{
  Logged, mset, cmd_mset, to_aof_entry, read_word, read_bytes, read_key, read_value, read_pair,
  read_pairs, read_entry, ◌>>=◌,
}
use zetdb.Storage.Aof.Entry.RoundTrip.{FitsLog, entry_cases, read_word-append}

not_mset : (c : ℕ) → c ≢ cmd_mset → (c == cmd_mset) ≡ false
not_mset c h = ground arith

-- A reader that succeeds still does with more bytes behind its input, and leaves those too.
abbrev Stable {ℓ} : {A : Type ℓ} → Bytes → Option (A × Bytes) → Option (A × Bytes) → Type ℓ
Stable more none o = Unit
Stable more (some (a, r)) o = o ≡ some (a, r ++ more)

if-Stable {ℓ} :
    {A : Type ℓ} (more : Bytes) (b : Bool) (x y x' y' : Option (A × Bytes))
    → Stable more x x'
    → Stable more y y'
    → Stable more (if b then x else y) (if b then x' else y')
if-Stable more true x y x' y' h k = h
if-Stable more false x y x' y' h k = k

bind-Stable {ℓ κ} :
    {A : Type ℓ} {B : Type κ} (more : Bytes) (m m' : Option (A × Bytes))
    (f : A × Bytes → Option (B × Bytes))
    → Stable more m m'
    → ((a : A) (r : Bytes) → Stable more (f (a, r)) (f (a, r ++ more)))
    → Stable more (m >>= f) (m' >>= f)
bind-Stable more none m' f h k = tt
bind-Stable more (some (a, r)) m' f h k = rw h (k a r)

module _ (more : Bytes) where
  too_long : (w : ℕ) (s : Bytes) → ltb (length s) w ≡ false → ltb (length (s ++ more)) w ≡ false
  too_long w s h = ground (arith, length-append s more)

  read_word-Stable : (w : ℕ) (s : Bytes) → Stable more (read_word w s) (read_word w (s ++ more))
  unfolding read_word
  read_word-Stable w s = elim (Bool-cases (ltb (length s) w)) [
    | inl short ↦ rw short tt
    | inr long ↦ rw (
      long,
      too_long w s long,
      take-append w s more (ground arith),
      drop-append w s more (ground arith),
    )
  ]

  read_bytes-Stable : (n : ℕ) (s : Bytes) → Stable more (read_bytes n s) (read_bytes n (s ++ more))
  unfolding read_bytes
  read_bytes-Stable w s = elim (Bool-cases (ltb (length s) w)) [
    | inl short ↦ rw short tt
    | inr long ↦ rw (
      long,
      too_long w s long,
      take-append w s more (ground arith),
      drop-append w s more (ground arith),
    )
  ]

  read_key-Stable : (s : Bytes) → Stable more (read_key s) (read_key (s ++ more))
  unfolding read_key
  read_key-Stable s =
      bind-Stable more (read_word 2 s) _ _ (read_word-Stable 2 s)
        λ n r. bind-Stable more (read_bytes n r) _ _ (read_bytes-Stable n r) (λ k r'. refl)

  read_value-Stable : (s : Bytes) → Stable more (read_value s) (read_value (s ++ more))
  unfolding read_value
  read_value-Stable s =
      bind-Stable more (read_word 4 s) _ _ (read_word-Stable 4 s) (λ n r. read_bytes-Stable n r)

  read_entry-Stable :
      (c : ℕ) (s : Bytes)
      → c ≢ cmd_mset
      → Stable more (read_entry (c ∷ s)) (read_entry (c ∷ s ++ more))
  unfolding read_entry
  read_entry-Stable c s h =
      if-Stable more (c == 1) _ _ _ _
        (bind-Stable more (read_key s) _ _ (read_key-Stable s) λ k r1.
          bind-Stable more (read_value r1) _ _ (read_value-Stable r1)
            λ v r2. bind-Stable more (read_word 8 r2) _ _ (read_word-Stable 8 r2) (λ w r3. refl))
        (if-Stable more (c == 2) _ _ _ _
          (bind-Stable more (read_key s) _ _ (read_key-Stable s) (λ k r. refl))
          (if-Stable more (c == 3) _ _ _ _
            (bind-Stable more (read_key s) _ _ (read_key-Stable s) (λ k r. refl))
            (if-Stable more (c == 4) _ _ _ _
              (bind-Stable more (read_key s) _ _ (read_key-Stable s) λ k r1.
                bind-Stable more (read_word 8 r1) _ _ (read_word-Stable 8 r1) (λ w r2. refl))
              (if-Stable more (c == 5) _ _ _ _ refl (rw (not_mset c h) tt)))))

abbrev pub NotMset : Command → Type 0
NotMset (Command.mset _) = ⊥
NotMset _ = Unit

head-ne-mset :
    (c : Command) (h : ℕ) (t : Bytes) → NotMset c → to_aof_entry c ≡ some (h ∷ t) → h ≢ cmd_mset
unfolding to_aof_entry
head-ne-mset (Command.mset pairs) h t n e = absurd n
head-ne-mset Command.ping h t n e = ground arith
head-ne-mset _ h t n e = ground arith

longer : (x : ℕ) (back r : Bytes) → r ++ x ∷ back ≢ []
longer x back r e = absurd (omega (arith, ap length e, length-append r (x ∷ back)))

module _ (h x : ℕ) (t back : Bytes) where
  leaves_more :
      (l l' : Logged) (r bs : Bytes)
      → bs ≡ h ∷ (t ++ x ∷ back)
      → read_entry (h ∷ (t ++ x ∷ back)) ≡ some (l, r ++ x ∷ back)
      → read_entry (bs ++ []) ≡ some (l', [])
      → ⊥
  leaves_more l l' r bs e whole g = ground (arith, append-nil bs, longer x back r)

-- Of an entry within the format that was cut short, but of an MSET, the replay reads nothing: it ends
-- there.
pub read_entry_torn :
    (c : Command) (front : Bytes) (x : ℕ) (back : Bytes)
    → FitsLog c
    → NotMset c
    → to_aof_entry c ≡ some (front ++ x ∷ back)
    → read_entry front ≡ none
read_entry_torn c [] x back fits n e = unfold read_entry in refl
read_entry_torn c (h ∷ t) x back fits n e = elim (Option-cases (read_entry (h ∷ t))) [
  | inl nothing ↦ nothing
  | inr ((l, r), read) ↦
      let whole =
        subst (λ o. Stable (x ∷ back) o (read_entry (h ∷ t ++ x ∷ back))) read
          (read_entry-Stable (x ∷ back) h t (head-ne-mset c h (t ++ x ∷ back) n e)) in
      elim (entry_cases c [] fits) [
        | inl (nothing, _) ↦ absurd (ground (arith, e, nothing))
        | inr (bs, l', written, _, g) ↦ absurd (leaves_more h x t back l l' r bs (cc) whole g)
      ]
]

too_short : (n : ℕ) (part : Bytes) → length part < n → read_bytes n part ≡ none
unfolding read_bytes
too_short n part h = ground arith

-- Of an MSET that was cut short inside the first key, the replay takes an MSET of no pairs, and goes
-- on with the part of the key that was written, as if that were an entry; if the number of the pairs
-- and the length of the key are below 65536.
pub torn_mset :
    (count n : ℕ) (part : Bytes)
    → suc count < 2 ^ 16
    → n < 2 ^ 16
    → length part < n
    → read_entry (cmd_mset ∷ (to_le_bytes 2 (suc count) ++ (to_le_bytes 2 n ++ part)))
      ≡ some (mset [], part)
unfolding read_entry read_pairs read_pair
torn_mset count n part hc hn short = ground (
  arith,
  read_word-append 2 (suc count) (to_le_bytes 2 n ++ part) hc,
  read_word-append 2 n part hn,
  too_short n part short,
)
