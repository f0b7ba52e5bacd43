-- ===== src/Storage/DashMap.antt =====
-- The concurrent map of the `dashmap` crate, as the engine uses it: its documented operations with
-- the laws of a map. Keys are strings. A law fixes no order of iteration. Each call is one atomic
-- step.
mod Entries
pub use Entries.{filter_value, lookup}
use zetdb.Prelude.{
  ℕ, ◌+◌, ◌≡◌, Bool, Option, none, some, List, [], ◌∷◌, Bytes, All, length, is_some, if◌then◌else◌,
}
use zetdb.Bytes.{bytes_eq}

pub record DashMap (V : Type 0) : Type 1 where
  pub Map : Type 0
  pub empty : Map
  pub get : Bytes → Map → Option V
  pub insert : Bytes → V → Map → Map
  pub remove : Bytes → Map → Map
  -- what was removed, if the predicate held
  pub remove_if : Bytes → (V → Bool) → Map → Option V × Map
  pub retain : (V → Bool) → Map → Map
  pub len : Map → ℕ
  -- what `iter` yields, in its order
  pub entries : Map → List (Bytes × V)
  -- whether `len`, `iter` and `remove` return while the calling thread holds an entry of the map; the
  -- crate documents that they may deadlock
  pub reentrant : Bool
  pub get-empty : (k : Bytes) → get k empty ≡ none
  pub get-insert :
      (k j : Bytes) (v : V) (m : Map)
      → get j (insert k v m) ≡ (if bytes_eq k j then some v else get j m)
  pub get-remove :
      (k j : Bytes) (m : Map) → get j (remove k m) ≡ (if bytes_eq k j then none else get j m)
  pub get-retain :
      (f : V → Bool) (k : Bytes) (m : Map) → get k (retain f m) ≡ filter_value f (get k m)
  pub remove_if-eq :
      (k : Bytes) (f : V → Bool) (m : Map)
      → remove_if k f m
        ≡ (filter_value f (get k m), if is_some (filter_value f (get k m)) then remove k m else m)
  pub len-empty : len empty ≡ 0
  pub len-insert :
      (k : Bytes) (v : V) (m : Map)
      → len (insert k v m) ≡ (if is_some (get k m) then len m else len m + 1)
  pub len-remove :
      (k : Bytes) (m : Map) → len (remove k m) + (if is_some (get k m) then 1 else 0) ≡ len m
  pub length-entries : (m : Map) → length (entries m) ≡ len m
  pub lookup-entries : (k : Bytes) (m : Map) → lookup k (entries m) ≡ get k m
  pub entries-get : (m : Map) → All (λ p. get p.0 m ≡ some p.1) (entries m)
