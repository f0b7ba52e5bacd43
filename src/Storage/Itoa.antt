-- ===== src/Storage/Itoa.antt =====
-- The `itoa` crate: it writes an integer in decimal, as `Display` of the standard library does.
use zetdb.Prelude.{◌≡◌, refl, Bytes}
use zetdb.Prelude.Int.{ℤ}
use zetdb.Bytes.Decimal.{show_int}

pub record Itoa : Type 0 where
  pub format : ℤ → Bytes
  pub format-eq : (x : ℤ) → format x ≡ show_int x

abbrev pub display_itoa : Itoa
display_itoa = record { format = show_int; format-eq = λ x. refl }
