-- ===== src/Model.antt =====
-- The vocabulary of the program (backend/api/models.py, backend/engine/models.py): enumerations,
-- policies and detections. Names, paths and ids are only compared, and are texts.
pub mod Enums
pub mod Findings
pub mod Scans
pub mod Samples
unfoldable pub use Enums.*
pub use Findings.*
use sih.Prelude.{ℕ, Option, String, List}
use sih.Prelude.Int.{ℤ}

-- `Context`: how long data must stay secret, and how long a migration takes, in years.
pub record Context : Type 0 where
  pub exposure : Exposure
  pub criticality : Criticality
  pub shelf_life_years : ℤ
  pub migration_years : ℤ

-- `ContextWithGlob`
pub record GlobContext : Type 0 where
  pub context : Context
  pub glob : String

-- `Policy`: `crqc_years` is the horizon Z.
pub record Policy : Type 0 where
  pub id : String
  pub name : String
  pub crqc_years : ℕ
  pub default : Context
  pub contexts : List GlobContext

-- `Detection`, with the fields that scoring and recommending read. A confidence is in hundredths.
pub record Detection : Type 0 where
  pub surface : Surface
  pub family : Option Family
  pub display_name : String
  pub function : CryptoFunction
  pub path : String
  pub line : Option ℕ
  pub symbol : String
  pub confidence : ℕ
  pub key_size : Option ℕ
  pub mode : Option String
  pub curve : Option String
  pub underlying_hash_family : Option Family
