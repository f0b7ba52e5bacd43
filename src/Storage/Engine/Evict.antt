-- ===== src/Storage/Engine/Evict.antt =====
-- dashmap_engine.rs: `evict_one_if_needed` and the limit on the number of keys.
use mathlib.Core.Path.{subst}
use zetdb.Prelude.{
  if_rule, ℕ, zero, suc, ◌+◌, ◌≡◌, inl, inr, refl, sym, not, Bool, true, false, ◌||◌, Option, none,
  some, List, [], ◌∷◌, Bytes, All, arith, leb, if◌then◌else◌, is_some, is_empty, Bool-cases, take,
}
use zetdb.Domain.Value.{ValueEntry, is_expired_at}
use zetdb.Storage.DashMap.{DashMap}
use zetdb.Storage.Engine.{sample, created_lt, is_none}

abbrev pub Entries : Type 0
Entries = List (Bytes × ValueEntry)

-- The live entries of an iteration.
abbrev pub live_entries : ℕ → Entries → Entries
live_entries now [] = []
live_entries now ((k, v) ∷ l) =
    let rest = live_entries now l in if is_expired_at v now then rest else (k, v) ∷ rest

abbrev pub Chosen : (Bytes → Type 0) → Option Bytes → Type 0
Chosen P none = Unit
Chosen P (some k) = P k

module _ (now : ℕ) where
  -- Every key that the loop can choose has what the live entries of the iteration have.
  pub sample-Chosen :
      (P : Bytes → Type 0) (l : Entries) (n : ℕ) (key : Option Bytes) (time : Option ℕ)
      → Chosen P key
      → All (λ p. P p.0) (live_entries now l)
      → Chosen P (sample now l n key time)
  unfolding sample
  sample-Chosen P [] n key time c h = c
  sample-Chosen P ((k, v) ∷ l) n key time c h = elim (Bool-cases (is_expired_at v now)) [
    | inl old ↦ rw old (sample-Chosen P l n key time c (rw old at h))
    | inr new ↦ rw new (
        if_rule (Chosen P) (leb 5 (n + 1)) (chosen (rw new at h))
          (sample-Chosen P l (n + 1) _ _ (chosen (rw new at h)) (tail_of (rw new at h))))
  ]
    where
      older : Bool
      older = is_none key || created_lt v.created_at time

      tail_of :
          All (λ p. P p.0) ((k, v) ∷ live_entries now l) → All (λ p. P p.0) (live_entries now l)
      tail_of a = a.1

      chosen :
          All (λ p. P p.0) ((k, v) ∷ live_entries now l) → Chosen P (if older then some k else key)
      chosen a = if_rule (Chosen P) older a.0 c

  -- Once a key is chosen the loop ends with one.
  sample-ne-none :
      (l : Entries) (n : ℕ) (k : Bytes) (time : Option ℕ)
      → is_some (sample now l n (some k) time) ≡ true
  unfolding sample
  sample-ne-none [] n k time = refl
  sample-ne-none ((j, v) ∷ l) n k time = ground (
    arith,
    sample-ne-none l n k time,
    sample-ne-none l (n + 1) k time,
    sample-ne-none l (n + 1) j v.created_at,
  )

  pub sample-is_some :
      (l : Entries) (n : ℕ) (time : Option ℕ)
      → is_some (sample now l n none time) ≡ not (is_empty (live_entries now l))
  unfolding sample
  sample-is_some [] n time = refl
  sample-is_some ((j, v) ∷ l) n time =
      ground (arith, sample-is_some l n time, sample-ne-none l (n + 1) j v.created_at)

-- The reference: the first of the oldest.
unfoldable pub oldest : Bytes × ValueEntry → Entries → Bytes × ValueEntry
oldest best [] = best
oldest best (p ∷ l) = oldest (if created_lt p.1.created_at best.1.created_at then p else best) l

abbrev pub oldest_of : Entries → Option (Bytes × ValueEntry)
oldest_of [] = none
oldest_of (p ∷ l) = some (oldest p l)

abbrev pub key_of : Option (Bytes × ValueEntry) → Option Bytes
key_of none = none
key_of (some p) = some p.0

module _ (now : ℕ) where
  sample_from :
      (l : Entries) (n m : ℕ) (best : Bytes × ValueEntry)
      → n + m ≡ 4
      → sample now l n (some best.0) best.1.created_at
        ≡ some (oldest best (take (suc m) (live_entries now l))).0
  unfolding sample oldest
  sample_from [] n m best h = refl
  sample_from ((k, v) ∷ l) n zero best h = ground (arith, sample_from l n zero best)
  sample_from ((k, v) ∷ l) n (suc m) best h = ground (
    arith,
    sample_from l n (suc m) best,
    sample_from l (n + 1) m best,
    sample_from l (n + 1) m (k, v),
  )

  -- The loop takes the first of the oldest among the first five live entries.
  pub sample-eq-oldest :
      (l : Entries) → sample now l 0 none none ≡ key_of (oldest_of (take 5 (live_entries now l)))
  unfolding sample
  sample-eq-oldest [] = refl
  sample-eq-oldest ((k, v) ∷ l) = ground (arith, sample-eq-oldest l, sample_from l 1 3 (k, v))

-- `p` was not created before `time`, in the order of `Option<Instant>`.
abbrev pub NotOlder : Option ℕ → Bytes × ValueEntry → Type 0
NotOlder time p = created_lt p.1.created_at time ≡ false

created_lt_left :
    (a b r : Option ℕ) → created_lt a b ≡ true → created_lt a r ≡ false → created_lt b r ≡ false
created_lt_left a b none h k = refl
created_lt_left none none (some r) h k = cc
created_lt_left none (some b) (some r) h k = cc
created_lt_left (some a) none (some r) h k = cc
created_lt_left (some a) (some b) (some r) h k = ground arith

not_lt_trans :
    (a b r : Option ℕ) → created_lt a b ≡ false → created_lt b r ≡ false → created_lt a r ≡ false
not_lt_trans a b none h k = refl
not_lt_trans none none (some r) h k = cc
not_lt_trans none (some b) (some r) h k = cc
not_lt_trans (some a) none (some r) h k = cc
not_lt_trans (some a) (some b) (some r) h k = ground arith

created_lt_irrefl : (a : Option ℕ) → created_lt a a ≡ false
created_lt_irrefl none = refl
created_lt_irrefl (some a) = ground arith

pub oldest-NotOlder :
    (best : Bytes × ValueEntry) (l : Entries)
    → NotOlder (oldest best l).1.created_at best × All (NotOlder (oldest best l).1.created_at) l
unfolding oldest
oldest-NotOlder best [] = (created_lt_irrefl best.1.created_at, tt)
oldest-NotOlder best (p ∷ l) = elim (Bool-cases (created_lt p.1.created_at best.1.created_at)) [
  | inl e ↦
      let ih = oldest-NotOlder p l in
      subst Bounds (sym e) (created_lt_left p.1.created_at _ _ e ih.0, ih)
  | inr e ↦
      let ih = oldest-NotOlder best l in
      subst Bounds (sym e) (ih.0, (not_lt_trans p.1.created_at best.1.created_at _ e ih.0, ih.1))
]
  where
    Bounds : Bool → Type 0
    Bounds b =
        let time = (oldest (if b then p else best) l).1.created_at in
        NotOlder time best × (NotOlder time p × All (NotOlder time) l)

live-All {ℓ} :
    (Q : Bytes × ValueEntry → Type ℓ) (now : ℕ) (l : Entries) → All Q l → All Q (live_entries now l)
live-All Q now [] h = h
live-All Q now ((k, v) ∷ l) h =
    if_rule (All Q) (is_expired_at v now) (live-All Q now l h.1) (h.0, live-All Q now l h.1)

-- The key that the loop chooses is in the map.
pub sample-stored :
    (D : DashMap ValueEntry) (m : D.Map) (now : ℕ)
    → Chosen (λ k. is_some (D.get k m) ≡ true) (sample now (D.entries m) 0 none none)
sample-stored D m now =
    sample-Chosen now (λ k. is_some (D.get k m) ≡ true) (D.entries m) 0 none none tt
      (live-All (λ p. is_some (D.get p.0 m) ≡ true) now (D.entries m)
        (stored (D.entries m) (D.entries-get m)))
  where
    stored :
        (l : Entries)
        → All (λ p. D.get p.0 m ≡ some p.1) l
        → All (λ p. is_some (D.get p.0 m) ≡ true) l
    stored [] h = h
    stored (p ∷ l) h = (ground (arith, h.0), stored l h.1)
