-- ===== src/Risk/Recommend/Targets.antt =====
-- What is recommended (backend/engine/recommend.py), against the catalogue and the table of
-- vulnerabilities.
use sih.Prelude.{
  ℕ, ◌/◌, ◌≤◌, ◌≡◌, refl, ◌∙◌, Bool, true, false, not, ◌&&◌, ◌||◌, Option, none, some, String, leb,
  if◌then◌else◌, arith, inl, inr, Bool-cases, Option-cases,
}
use sih.Model.{
  Family, ml_kem, ml_dsa, hmac, CryptoFunction, Detection, Recommendation, RiskCost, Action,
  migrate_key_establishment, migrate_signatures,
}
use sih.Risk.Families.{is_shor_broken, is_hash, is_chacha20, vulnerability}
use sih.Risk.Catalog.{PqcSpec, spec, pqc_by_name, compute_cost_delta}
use sih.Risk.Factors.{resolve_vulnerability}
use sih.Risk.Recommend.{
  recommend, recommend_family, is_signature, is_key_establishment, is_rsa, is_x25519, is_signing,
  migrate, size_or_2048, kem_name, dsa_name,
}

-- A recommendation to move to a set of the catalogue of family `to` and category `level`.
pub record MovesTo (to : Family) (level : ℕ) (r : Recommendation) : Type 0 where
  pub spec : PqcSpec
  pub named : r.target ≡ some spec.name
  pub listed : pqc_by_name spec.name ≡ some spec
  pub right_family : spec.family ≡ to
  pub right_level : spec.security_category ≡ level

-- The level that the program asks for: 5 from 3072 bits on, 3 below.
abbrev pub level_of : Option ℕ → ℕ
level_of key_size = if leb 3072 (size_or_2048 key_size) then 5 else 3

abbrev pub signs : Family → CryptoFunction → Bool
signs family f = is_signature family || is_rsa family && is_signing f

-- The set that is chosen for a size of the key.
abbrev kem_spec : ℕ → PqcSpec
kem_spec n =
    if leb 3072 n
    then spec ml_kem "ML-KEM-1024" "FIPS 203" 5 1568 1568 8
    else spec ml_kem "ML-KEM-768" "FIPS 203" 3 1184 1088 5

abbrev dsa_spec : ℕ → PqcSpec
dsa_spec n =
    if leb 3072 n
    then spec ml_dsa "ML-DSA-87" "FIPS 204" 5 2592 4627 12
    else spec ml_dsa "ML-DSA-65" "FIPS 204" 3 1952 3309 8

kem_listed : (n : ℕ) → pqc_by_name (kem_name n) ≡ some (kem_spec n)
unfolding pqc_by_name
kem_listed n = elim (Bool-cases (leb 3072 n)) [ inl e ↦ rw e | inr e ↦ rw e ]

dsa_listed : (n : ℕ) → pqc_by_name (dsa_name n) ≡ some (dsa_spec n)
unfolding pqc_by_name
dsa_listed n = elim (Bool-cases (leb 3072 n)) [ inl e ↦ rw e | inr e ↦ rw e ]

abbrev establishes : Family → CryptoFunction → Bool
establishes family f =
    is_key_establishment family || is_rsa family && not (is_rsa family && is_signing f)

shor_establishes :
    (family : Family) (f : CryptoFunction)
    → is_shor_broken family ≡ true
    → signs family f ≡ false
    → establishes family f ≡ true
unfolding is_shor_broken is_signature is_key_establishment
shor_establishes family f broken h = ground arith

signs_only :
    (family : Family) (f : CryptoFunction) → signs family f ≡ true → establishes family f ≡ false
unfolding is_signature is_key_establishment
signs_only family f h = ground arith

migrate_lem :
    (a : Action) (target : String) (classical time : ℕ) (s : PqcSpec)
    → pqc_by_name target ≡ some s
    → migrate a target classical time
      ≡ some (
          some (record {
            action = a;
            target = some target;
            cost = compute_cost_delta s classical classical time;
          }))
unfolding migrate
migrate_lem a target classical time s h = rw (h, migrate)

kem_MovesTo :
    (n : ℕ) (a : Action) (c : RiskCost)
    → MovesTo ml_kem
        (if leb 3072 n then 5 else 3)
        (record { action = a; target = some (kem_name n); cost = c })
unfolding pqc_by_name
kem_MovesTo n a c = elim (Bool-cases (leb 3072 n)) [
  | inl e ↦ rw e (record {
    spec = spec ml_kem "ML-KEM-1024" "FIPS 203" 5 1568 1568 8;
    named = refl;
    listed = refl;
    right_family = refl;
    right_level = refl;
  })
  | inr e ↦ rw e (record {
    spec = spec ml_kem "ML-KEM-768" "FIPS 203" 3 1184 1088 5;
    named = refl;
    listed = refl;
    right_family = refl;
    right_level = refl;
  })
]

dsa_MovesTo :
    (n : ℕ) (a : Action) (c : RiskCost)
    → MovesTo ml_dsa
        (if leb 3072 n then 5 else 3)
        (record { action = a; target = some (dsa_name n); cost = c })
unfolding pqc_by_name
dsa_MovesTo n a c = elim (Bool-cases (leb 3072 n)) [
  | inl e ↦ rw e (record {
    spec = spec ml_dsa "ML-DSA-87" "FIPS 204" 5 2592 4627 12;
    named = refl;
    listed = refl;
    right_family = refl;
    right_level = refl;
  })
  | inr e ↦ rw e (record {
    spec = spec ml_dsa "ML-DSA-65" "FIPS 204" 3 1952 3309 8;
    named = refl;
    listed = refl;
    right_family = refl;
    right_level = refl;
  })
]

recommend_establishes :
    (family : Family) (d : Detection)
    → establishes family d.function ≡ true
    → (r : Recommendation) × (recommend_family family d ≡ some (some r))
      × MovesTo ml_kem (level_of d.key_size) r
unfolding recommend_family
recommend_establishes family d h =
    let n = size_or_2048 d.key_size in
    let classical : ℕ = if is_rsa family then n / 8 else if is_x25519 family then 32 else 64 in
    let cost = compute_cost_delta (kem_spec n) classical classical 1 in
    let action = migrate_key_establishment (kem_name n) in
    (
      record { action = action; target = some (kem_name n); cost = cost },
      rw h (migrate_lem action (kem_name n) classical 1 (kem_spec n) (kem_listed n)),
      kem_MovesTo n action cost,
    )

recommend_signs :
    (family : Family) (d : Detection)
    → signs family d.function ≡ true
    → (r : Recommendation) × (recommend_family family d ≡ some (some r))
      × MovesTo ml_dsa (level_of d.key_size) r
unfolding recommend_family
recommend_signs family d h =
    let n = size_or_2048 d.key_size in
    let classical : ℕ = if is_rsa family then n / 8 else 64 in
    let cost = compute_cost_delta (dsa_spec n) classical classical 2 in
    let action = migrate_signatures (dsa_name n) in
    (
      record { action = action; target = some (dsa_name n); cost = cost },
      rw (signs_only family d.function h)
          (rw h (migrate_lem action (dsa_name n) classical 2 (dsa_spec n) (dsa_listed n))),
      dsa_MovesTo n action cost,
    )

recommend_of :
    (family : Family) (d : Detection)
    → d.family ≡ some family
    → recommend d ≡ recommend_family family d
unfolding recommend
recommend_of family d e = ground arith

-- Every family that Shor's algorithm breaks gets a recommendation, to a parameter set of the
-- catalogue: of ML-DSA for a signature, of ML-KEM otherwise, in category 5 for a key of 3072
-- bits or more and in category 3 for a shorter one (no size, or 0, counts as 2048).
pub recommend_shor_broken :
    (family : Family) (d : Detection)
    → d.family ≡ some family
    → is_shor_broken family ≡ true
    → (r : Recommendation) × (recommend d ≡ some (some r))
      × MovesTo (if signs family d.function then ml_dsa else ml_kem) (level_of d.key_size) r
recommend_shor_broken family d e broken = elim (Bool-cases (signs family d.function)) [
  | inl h ↦
      let (r, made, moves) = recommend_signs family d h in
      (r, recommend_of family d e ∙ made, rw h moves)
  | inr h ↦
      let (r, made, moves) =
        recommend_establishes family d (shor_establishes family d.function broken h) in
      (r, recommend_of family d e ∙ made, rw h moves)
]

abbrev is_advised : Option (Option Recommendation) → Bool
is_advised (some (some r)) = true
is_advised _ = false

advised :
    (o : Option (Option Recommendation))
    → is_advised o ≡ true
    → (r : Recommendation) × (o ≡ some (some r))
advised (some (some r)) h = (r, refl)
advised (some none) h = cc
advised none h = cc

-- The families that Shor's algorithm does not break.
advised_other :
    (family : Family) (d : Detection)
    → d.family ≡ some family
    → is_shor_broken family ≡ false
    → is_chacha20 family ≡ false
    → ((hash : Family) → d.underlying_hash_family ≡ some hash → is_hash hash ≡ true)
    → 60 ≤ (resolve_vulnerability d).0
    → is_advised (recommend_family family d) ≡ true
unfolding recommend_family resolve_vulnerability vulnerability is_chacha20
advised_other hmac d e other stream hashes v = elim (Option-cases d.underlying_hash_family) [
  | inl bare ↦ ground arith
  | inr (hash, under) ↦ ground (arith, hashes hash under)
]
advised_other family d e other stream hashes v = ground arith

-- Every detection with a vulnerability of 0.6 or more gets a recommendation, if it has a family
-- other than ChaCha20 (which gets 0.6 for a key below 256 bits, and no recommendation), and a
-- family that is recorded as the hash under an HMAC is a hash family.
pub recommend_vulnerable :
    (family : Family) (d : Detection)
    → d.family ≡ some family
    → is_chacha20 family ≡ false
    → ((hash : Family) → d.underlying_hash_family ≡ some hash → is_hash hash ≡ true)
    → 60 ≤ (resolve_vulnerability d).0
    → (r : Recommendation) × (recommend d ≡ some (some r))
recommend_vulnerable family d e stream hashes v = elim (Bool-cases (is_shor_broken family)) [
  | inl broken ↦ let (r, made, moves) = recommend_shor_broken family d e broken in (r, made)
  | inr other ↦
      let (r, made) =
        advised (recommend_family family d) (advised_other family d e other stream hashes v) in
      (r, recommend_of family d e ∙ made)
]
