-- ===== src/Risk/Catalog.antt =====
-- The catalogue of post-quantum parameter sets (backend/engine/pqc.py), less the notes for the
-- reader. Times are in hundredths of a millisecond.
use sih.Prelude.{ℕ, Option, String, List, [], ◌∷◌, find?}
use sih.Prelude.Int.{sub_ℕ}
use sih.Prelude.Text.{str_eq}
use sih.Model.{Family, ml_kem, ml_dsa, slh_dsa, RiskCost}

pub record PqcSpec : Type 0 where
  pub family : Family
  pub name : String
  pub standard : String
  pub parameter_set : String
  pub security_category : ℕ
  pub public_key_bytes : ℕ
  pub wire_bytes : ℕ
  pub op_ms : ℕ

abbrev pub spec : Family → String → String → ℕ → ℕ → ℕ → ℕ → PqcSpec
spec family name standard category key wire time = record {
  family = family;
  name = name;
  standard = standard;
  parameter_set = name;
  security_category = category;
  public_key_bytes = key;
  wire_bytes = wire;
  op_ms = time;
}

-- `NIST_PQC_CATALOG`
unfoldable pub nist_pqc_catalog : List PqcSpec
nist_pqc_catalog =
    spec ml_kem "ML-KEM-512" "FIPS 203" 1 800 768 3
    ∷ spec ml_kem "ML-KEM-768" "FIPS 203" 3 1184 1088 5
    ∷ spec ml_kem "ML-KEM-1024" "FIPS 203" 5 1568 1568 8
    ∷ spec ml_dsa "ML-DSA-44" "FIPS 204" 2 1312 2420 6
    ∷ spec ml_dsa "ML-DSA-65" "FIPS 204" 3 1952 3309 8
    ∷ spec ml_dsa "ML-DSA-87" "FIPS 204" 5 2592 4627 12
    ∷ spec slh_dsa "SLH-DSA-SHA2-128s" "FIPS 205" 1 32 7856 120
    ∷ spec slh_dsa "SLH-DSA-SHA2-128f" "FIPS 205" 1 32 17088 15
    ∷ spec slh_dsa "SLH-DSA-SHA2-192f" "FIPS 205" 3 48 35664 35
    ∷ []

-- `_PQC_BY_NAME[name]` of backend/engine/recommend.py; the names in the list differ, so the
-- dictionary holds each entry. `none` is the `KeyError`.
unfoldable pub pqc_by_name : String → Option PqcSpec
unfolding nist_pqc_catalog
pqc_by_name name = find? (λ s. str_eq s.name name) nist_pqc_catalog

-- `round(…, 4)` leaves hundredths as they are.
unfoldable pub compute_cost_delta : PqcSpec → ℕ → ℕ → ℕ → RiskCost
compute_cost_delta target classical_pk_bytes classical_wire_bytes classical_op_ms = record {
  pk_bytes_delta = sub_ℕ target.public_key_bytes classical_pk_bytes;
  wire_bytes_delta = sub_ℕ target.wire_bytes classical_wire_bytes;
  op_ms_delta = sub_ℕ target.op_ms classical_op_ms;
}
