-- ===== src/Storage/DashMap/Entries.antt =====
-- Readings of an iteration and of a value, in which the laws of the map are stated.
use zetdb.Prelude.{Bool, Option, none, some, List, [], ◌∷◌, Bytes, if◌then◌else◌}
use zetdb.Bytes.{bytes_eq}

abbrev pub filter_value {ℓ} : {V : Type ℓ} → (V → Bool) → Option V → Option V
filter_value f none = none
filter_value f (some v) = if f v then some v else none

abbrev pub lookup {ℓ} : {V : Type ℓ} → Bytes → List (Bytes × V) → Option V
lookup k [] = none
lookup k ((j, v) ∷ l) = if bytes_eq j k then some v else lookup k l
