-- ===== src/Storage/Table.antt =====
-- An association list that meets the laws of the `DashMap` interface: they can hold together. The
-- newest entry of a key stands first and hides the older ones.
use zetdb.Prelude.{
  ◌+◌, ◌≡◌, refl, sym, ap, ◌∙◌, Bool, false, none, some, List, [], ◌∷◌, Bytes, All, length, is_some,
  arith, if◌then◌else◌,
}
use zetdb.Bytes.{bytes_eq, bytes_eq_iff}
use zetdb.Storage.DashMap.{DashMap, filter_value, lookup}

module _ {V : Type 0} where
  abbrev pub without : Bytes → List (Bytes × V) → List (Bytes × V)
  without k [] = []
  without k ((j, v) ∷ l) = let rest = without k l in if bytes_eq j k then rest else (j, v) ∷ rest

  abbrev pub keep : (V → Bool) → List (Bytes × V) → List (Bytes × V)
  keep f [] = []
  keep f ((j, v) ∷ l) = let rest = keep f l in if f v then (j, v) ∷ rest else rest

  abbrev pub visible : List (Bytes × V) → List (Bytes × V)
  visible [] = []
  visible ((k, v) ∷ l) = (k, v) ∷ without k (visible l)

  abbrev pub Distinct : List (Bytes × V) → Type 0
  Distinct [] = Unit
  Distinct ((k, v) ∷ l) = (lookup k l ≡ none) × Distinct l

  pub lookup-without :
      (k j : Bytes) (l : List (Bytes × V))
      → lookup j (without k l) ≡ (if bytes_eq k j then none else lookup j l)
  lookup-without k j [] = ground arith
  lookup-without k j ((i, v) ∷ l) =
      ground (arith, lookup-without k j l, bytes_eq_iff i k, bytes_eq_iff i j, bytes_eq_iff k j)

  pub lookup-visible : (j : Bytes) (l : List (Bytes × V)) → lookup j (visible l) ≡ lookup j l
  lookup-visible j [] = refl
  lookup-visible j ((k, v) ∷ l) = ground (arith, lookup-without k j (visible l), lookup-visible j l)

  without-Distinct : (k : Bytes) (l : List (Bytes × V)) → Distinct l → Distinct (without k l)
  without-Distinct k [] d = tt
  without-Distinct k ((j, v) ∷ l) d =
      ground (arith, without-Distinct k l d.1, lookup-without k j l, bytes_eq_iff j k)

  lookup-without_self : (k : Bytes) (l : List (Bytes × V)) → lookup k (without k l) ≡ none
  lookup-without_self k l = ground (arith, lookup-without k k l, bytes_eq_iff k k)

  pub visible-Distinct : (l : List (Bytes × V)) → Distinct (visible l)
  visible-Distinct [] = tt
  visible-Distinct ((k, v) ∷ l) =
      (lookup-without_self k (visible l), without-Distinct k (visible l) (visible-Distinct l))

  without-absent : (k : Bytes) (l : List (Bytes × V)) → lookup k l ≡ none → without k l ≡ l
  without-absent k [] h = refl
  without-absent k ((j, v) ∷ l) h = ground (arith, without-absent k l)

  length-without :
      (k : Bytes) (l : List (Bytes × V))
      → Distinct l
      → length (without k l) + (if is_some (lookup k l) then 1 else 0) ≡ length l
  length-without k [] d = omega arith
  length-without k ((j, v) ∷ l) d =
      ground (arith, length-without k l d.1, without-absent k l, bytes_eq_iff j k)

  without_comm :
      (j k : Bytes) (l : List (Bytes × V)) → without j (without k l) ≡ without k (without j l)
  without_comm j k [] = refl
  without_comm j k ((i, v) ∷ l) = ground (arith, without_comm j k l)

  without_idem : (k : Bytes) (l : List (Bytes × V)) → without k (without k l) ≡ without k l
  without_idem k l = without-absent k (without k l) (lookup-without_self k l)

  visible-without :
      (k : Bytes) (l : List (Bytes × V)) → visible (without k l) ≡ without k (visible l)
  visible-without k [] = refl
  visible-without k ((j, v) ∷ l) = ground (
    arith,
    visible-without k l,
    without_comm j k (visible l),
    without_idem k (visible l),
    bytes_eq_iff j k,
  )

  pub lookup-keep :
      (f : V → Bool) (k : Bytes) (l : List (Bytes × V))
      → Distinct l
      → lookup k (keep f l) ≡ filter_value f (lookup k l)
  lookup-keep f k [] d = refl
  lookup-keep f k ((j, v) ∷ l) d = ground (arith, lookup-keep f k l d.1, bytes_eq_iff j k)

  entries_here :
      (j : Bytes) (v : V) (l m : List (Bytes × V))
      → lookup j l ≡ none
      → All (λ p. lookup p.0 l ≡ some p.1) m
      → All (λ p. lookup p.0 ((j, v) ∷ l) ≡ some p.1) m
  entries_here j v l [] a h = tt
  entries_here j v l ((i, w) ∷ m) a h = ground (arith, entries_here j v l m, bytes_eq_iff j i)

  pub entries-lookup : (l : List (Bytes × V)) → Distinct l → All (λ p. lookup p.0 l ≡ some p.1) l
  entries-lookup [] d = tt
  entries-lookup ((j, v) ∷ l) d =
      (ground (arith, bytes_eq_iff j j), entries_here j v l l d.0 (entries-lookup l d.1))

  pub entries_visible :
      (l m : List (Bytes × V))
      → All (λ p. lookup p.0 (visible l) ≡ some p.1) m
      → All (λ p. lookup p.0 l ≡ some p.1) m
  entries_visible l [] h = tt
  entries_visible l ((j, v) ∷ m) h = (sym (lookup-visible j l) ∙ h.0, entries_visible l m h.1)

  pub len-put :
      (k : Bytes) (v : V) (l : List (Bytes × V))
      → length (visible ((k, v) ∷ l))
        ≡ (if is_some (lookup k l) then length (visible l) else length (visible l) + 1)
  len-put k v l =
      ground (arith, length-without k (visible l) (visible-Distinct l), lookup-visible k l)

  pub len-without :
      (k : Bytes) (l : List (Bytes × V))
      → length (visible (without k l)) + (if is_some (lookup k l) then 1 else 0)
        ≡ length (visible l)
  len-without k l = ground (
    arith,
    length-without k (visible l) (visible-Distinct l),
    lookup-visible k l,
    visible-without k l,
  )

abbrev pub table : (V : Type 0) → DashMap V
table V = record {
  Map = List (Bytes × V);
  empty = [];
  get = lookup;
  insert = λ k v l. (k, v) ∷ l;
  remove = without;
  remove_if = λ k f l. (
    filter_value f (lookup k l),
    if is_some (filter_value f (lookup k l)) then without k l else l,
  );
  retain = λ f l. keep f (visible l);
  len = λ l. length (visible l);
  entries = visible;
  reentrant = false;
  get-empty = λ k. refl;
  get-insert = λ k j v l. refl;
  get-remove = lookup-without;
  get-retain = λ f k l.
      lookup-keep f k (visible l) (visible-Distinct l) ∙ ap (filter_value f) (lookup-visible k l);
  remove_if-eq = λ k f l. refl;
  len-empty = refl;
  len-insert = len-put;
  len-remove = len-without;
  length-entries = λ l. refl;
  lookup-entries = lookup-visible;
  entries-get =
      λ l. entries_visible l (visible l) (entries-lookup (visible l) (visible-Distinct l));
}
