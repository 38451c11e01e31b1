-- ===== src/Model/Enums.antt =====
-- The enumerations of backend/api/models.py.
use sih.Prelude.{ℕ, Bool, ◌==◌}

pub data Family : Type 0 where
  rsa dsa dh ecdh ecdsa ed25519 x25519 : Family
  aes chacha20 three_des des rc4 blowfish : Family
  md5 sha_1 sha_2 sha_3 hmac : Family
  ml_kem ml_dsa slh_dsa : Family

pub data CryptoFunction : Type 0 where
  keygen encrypt decrypt sign verify digest tag keyderive unknown : CryptoFunction

pub data RiskBand : Type 0 where
  critical high medium low : RiskBand

pub data Exposure : Type 0 where
  external internal isolated test : Exposure

pub data Criticality : Type 0 where
  mission_critical business_high business_medium business_low : Criticality

pub data Surface : Type 0 where
  source binary certificate config image manifest hardware_hsm : Surface

pub data FindingSource : Type 0 where
  ast ast_reference ast_protocol_string source_constant : FindingSource
  binary_symbol binary_constant binary_oid : FindingSource
  x509_parser pem_parser ssh_key_parser config_parser from_manifest : FindingSource

-- `_BAND_RANK` of backend/api/graph.py
unfoldable pub band_rank : RiskBand → ℕ
band_rank low = 0
band_rank medium = 1
band_rank high = 2
band_rank critical = 3

unfoldable pub band_eq : RiskBand → RiskBand → Bool
unfolding band_rank
band_eq a b = band_rank a == band_rank b

pub data FindingKind : Type 0 where
  algorithm certificate_kind key protocol library : FindingKind

pub data TriageStatus : Type 0 where
  open_triage accepted_risk false_positive fixed : TriageStatus
