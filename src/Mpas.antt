-- ===== src/Mpas.antt =====
-- The protocol's data types (sdk/protocol/src/types/mpas.ts), as far as the components read them.
-- Fields that hold one constant text (`version`, `type`) are left out. DIDs, timestamps and
-- identifiers are texts.
mod Decisions
pub mod Fields
pub mod Json
pub mod Numbers
pub mod Package
pub mod Response
pub use Decisions.*
use mpas.Prelude.{ℕ, String, Option, List}

abbrev pub Did : Type 0
Did = String

abbrev pub Timestamp : Type 0
Timestamp = String

pub record HashObject : Type 0 where
  pub alg : String
  pub value : String

pub record ActionId : Type 0 where
  pub value : String
  pub scope : Option String

pub record ThresholdRequirement : Type 0 where
  pub threshold : ℕ
  pub eligible_signers : List Did
  pub decision : Option Decision
  pub description : Option String

pub record OverrideSigner : Type 0 where
  pub signer : Did
  pub permissions : List String
  pub description : Option String

pub record ApprovalRequirements : Type 0 where
  pub any_of : Option (List ThresholdRequirement)
  pub all_of : Option (List ThresholdRequirement)
  pub override_signers : Option (List OverrideSigner)
