-- ===== src/Domain/Errors.antt =====
-- domain/errors.rs: the engine's errors and their text, and the ways in which a call may end.
use zetdb.Prelude.{Bytes, ◌++◌}
use zetdb.Bytes.{codes}

pub data EngineError : Type 0 where
  storage_error : Bytes → EngineError
  not_an_integer : Bytes → EngineError
  out_of_memory : EngineError

-- `Display for EngineError`
unfoldable pub display : EngineError → Bytes
display (storage_error msg) = codes "storage error: " ++ msg
display (not_an_integer key) = codes "value is not an integer: " ++ key
display out_of_memory = codes "out of memory: max keys limit reached"

pub data DomainError : Type 0 where
  key_not_found : Bytes → DomainError
  domain_not_an_integer : Bytes → DomainError
  engine : EngineError → DomainError

-- `Display for DomainError`
unfoldable pub display_domain : DomainError → Bytes
unfolding display
display_domain (key_not_found key) = codes "key not found: " ++ key
display_domain (domain_not_an_integer key) = codes "value is not an integer: " ++ key
display_domain (engine e) = codes "engine error: " ++ display e

-- Rust's `Result<A, E>`.
pub data Result {ℓ} (A E : Type ℓ) : Type ℓ where
  ok : A → Result A E
  err : E → Result A E

-- How a call ends: it returns, it panics (an `Instant` past the platform's range), or it waits for
-- ever for a lock that its own thread holds.
pub data Outcome {ℓ} (A : Type ℓ) : Type ℓ where
  returns : A → Outcome A
  panics : Outcome A
  deadlocks : Outcome A

infixl 5 ◌>>=◌
abbrev pub ◌>>=◌ {ℓ κ} : {A : Type ℓ} {B : Type κ} → Outcome A → (A → Outcome B) → Outcome B
returns a >>= f = f a
panics >>= f = panics
deadlocks >>= f = deadlocks
