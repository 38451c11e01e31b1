-- ===== src/Risk/Recommend.antt =====
-- The recommendation for a detection (backend/engine/recommend.py).
pub mod Targets
use sih.Prelude.{
  ℕ, zero, suc, ◌+◌, ◌/◌, ◌≤◌, ◌≡◌, refl, ◌≢◌, Bool, true, false, not, ◌&&◌, ◌||◌, Option, none,
  some, String, leb, ltb, if◌then◌else◌, arith, ◌⊎◌, inl, inr, Bool-cases,
}
use sih.Prelude.Int.{ℤ, pos, negsuc}
use sih.Model.{
  Family, rsa, dsa, dh, ecdh, ecdsa, ed25519, x25519, aes, three_des, des, rc4, blowfish, md5,
  sha_1, hmac, ml_kem, ml_dsa, CryptoFunction, sign, verify, Detection, Recommendation, RiskCost,
  Action, migrate_key_establishment, migrate_signatures, replace_cipher, replace_hash,
  move_to_hmac_sha_256, verify_key_size,
}
use sih.Risk.Families.{
  is_shor_broken, is_post_quantum, is_hash, is_aes, is_hmac, vulnerability, below,
}
use sih.Risk.Catalog.{PqcSpec, pqc_by_name, nist_pqc_catalog, compute_cost_delta}
use sih.Risk.Factors.{resolve_vulnerability}

-- `_CLASSICAL_KEY_ESTABLISHMENT`
unfoldable pub is_key_establishment : Family → Bool
is_key_establishment dh = true
is_key_establishment ecdh = true
is_key_establishment x25519 = true
is_key_establishment _ = false

-- `_CLASSICAL_SIGNATURE`
unfoldable pub is_signature : Family → Bool
is_signature dsa = true
is_signature ecdsa = true
is_signature ed25519 = true
is_signature _ = false

-- `_WEAK_SYMMETRIC`
unfoldable pub is_weak_symmetric : Family → Bool
is_weak_symmetric three_des = true
is_weak_symmetric des = true
is_weak_symmetric rc4 = true
is_weak_symmetric blowfish = true
is_weak_symmetric _ = false

-- `_WEAK_HASH`
unfoldable pub is_weak_hash : Family → Bool
is_weak_hash md5 = true
is_weak_hash sha_1 = true
is_weak_hash _ = false

abbrev pub is_rsa : Family → Bool
is_rsa rsa = true
is_rsa _ = false

abbrev pub is_x25519 : Family → Bool
is_x25519 x25519 = true
is_x25519 _ = false

-- `function in _SIGNING_FUNCTIONS`
abbrev pub is_signing : CryptoFunction → Bool
is_signing sign = true
is_signing verify = true
is_signing _ = false

-- `key_size or 2048`: a size of 0 counts as none.
abbrev pub size_or_2048 : Option ℕ → ℕ
size_or_2048 none = 2048
size_or_2048 (some zero) = 2048
size_or_2048 (some (suc n)) = suc n

abbrev pub no_cost : RiskCost
no_cost = record { pk_bytes_delta = pos 0; wire_bytes_delta = pos 0; op_ms_delta = pos 0 }

abbrev advise : Action → String → RiskCost → Option Recommendation
advise action target cost = some (record { action = action; target = some target; cost = cost })

-- A move to a parameter set of the catalogue; `none` is the `KeyError` of an unknown name.
unfoldable pub migrate : Action → String → ℕ → ℕ → Option (Option Recommendation)
migrate action target classical time = elim (pqc_by_name target) [
  | none ↦ none
  | some spec ↦ some (advise action target (compute_cost_delta spec classical classical time))
]

abbrev pub kem_name : ℕ → String
kem_name key_size = if leb 3072 key_size then "ML-KEM-1024" else "ML-KEM-768"

abbrev pub dsa_name : ℕ → String
dsa_name key_size = if leb 3072 key_size then "ML-DSA-87" else "ML-DSA-65"

-- `recommend`, for a detection with a family. The outer `none` is a `KeyError`.
unfoldable pub recommend_family : Family → Detection → Option (Option Recommendation)
unfolding is_key_establishment is_signature is_weak_symmetric is_weak_hash
recommend_family family d =
    let rsa_signature = is_rsa family && is_signing d.function in
    let key_size = size_or_2048 d.key_size in
    if is_key_establishment family || is_rsa family && not rsa_signature
    then (migrate (migrate_key_establishment (kem_name key_size)) (kem_name key_size)
        (if is_rsa family then key_size / 8 else if is_x25519 family then 32 else 64) 1)
    else if is_signature family || rsa_signature
    then (migrate (migrate_signatures (dsa_name key_size)) (dsa_name key_size)
        (if is_rsa family then key_size / 8 else 64) 2)
    else if is_weak_symmetric family
    then some (
        advise (replace_cipher family) "AES-256-GCM"
          (record { pk_bytes_delta = pos 0; wire_bytes_delta = pos 0; op_ms_delta = negsuc 0 }))
    else if is_weak_hash family
    then some (advise (replace_hash family) "SHA-2-256" no_cost)
    else if is_hmac family
        && (elim d.underlying_hash_family [ none ↦ false | some hash ↦ is_weak_hash hash ])
    then some (advise move_to_hmac_sha_256 "HMAC-SHA-2-256" no_cost)
    else if is_aes family && (elim d.key_size [ none ↦ true | some n ↦ ltb n 256 ])
    then some (advise verify_key_size "AES-256-GCM" no_cost)
    else some none

unfoldable pub recommend : Detection → Option (Option Recommendation)
recommend d = elim d.family [ none ↦ some none | some family ↦ recommend_family family d ]
