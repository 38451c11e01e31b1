-- ===== src/Risk/Tests.antt =====
-- Runs of the scoring (backend/engine/risk.py, factors.py, recommend.py), and its theorems at
-- concrete detections.
use sih.Prelude.{◌≡◌, refl, true, false, none, some, [], arith, ◌≤◌, if◌then◌else◌}
use sih.Prelude.Int.{pos, ◌+ℤ◌, ◌-ℤ◌, ◌*ℤ◌}
use sih.Prelude.Text.{str_eq}
use sih.Model.{
  Family, Detection, Policy, Context, internal, business_medium, rsa, hmac, md5, keygen, tag,
  source, critical, Risk, IsAtMost, at_least, Recommendation, ml_dsa, ml_kem, band_rank,
}
use sih.Risk.{rescore, Scored, compute_urgency, urgency_of, clamp}
use sih.Risk.Formula.{rescore_antitone}
use sih.Risk.Factors.{derive_risk, resolve_vulnerability, matched_context}
use sih.Risk.Floor.{derive_risk_floor}
use sih.Risk.Families.{vulnerability, is_shor_broken, is_hash, is_chacha20}
use sih.Risk.Recommend.{recommend}
use sih.Risk.Recommend.Targets.{
  MovesTo, level_of, signs, recommend_shor_broken, recommend_vulnerable,
}

-- RSA key generation in a core service.
abbrev key : Detection
key = record {
  surface = source;
  family = some rsa;
  display_name = "RSA-1024";
  function = keygen;
  path = "core/keys.py";
  line = some 7;
  symbol = "generate";
  confidence = 90;
  key_size = some 1024;
  mode = none;
  curve = none;
  underlying_hash_family = none;
}

abbrev tagged : Detection
tagged = record key {
  family = some hmac;
  function = tag;
  underlying_hash_family = some md5;
  key_size = none;
}

abbrev inner : Context
inner = record {
  exposure = internal;
  criticality = business_medium;
  shelf_life_years = pos 5;
  migration_years = pos 2;
}

abbrev policy : Policy
policy = record { id = "p"; name = "Default"; crqc_years = 10; default = inner; contexts = [] }

-- 0.5 + (5 + 2 - 10) / 20 = 0.35
urgency_run : compute_urgency (pos 5) (pos 2) 10 false ≡ some (record { num = 70; den = 200 })
unfolding compute_urgency urgency_of clamp ◌+ℤ◌ ◌-ℤ◌ ◌*ℤ◌
urgency_run = refl

rescore_antitone_example :
    (s : Scored) × (s' : Scored) × (rescore 100 90 60 60 (pos 5) (pos 2) 10 false ≡ some s)
    × (rescore 100 90 60 60 (pos 5) (pos 2) 15 false ≡ some s')
    × IsAtMost s'.urgency s.urgency
    × IsAtMost s'.score s.score
    × (band_rank s'.band ≤ band_rank s.band)
rescore_antitone_example =
    rescore_antitone 100 90 60 60 (pos 5) (pos 2) 10 15 (omega arith) (omega arith)

derive_risk_floor_example :
    (r : Risk) × (derive_risk str_eq key policy ≡ some r)
    × (at_least r.score 90 ≡ true)
    × (r.band ≡ critical)
unfolding resolve_vulnerability vulnerability matched_context
derive_risk_floor_example = derive_risk_floor str_eq key policy refl refl refl (omega arith)

recommend_shor_broken_run :
    (r : Recommendation) × (recommend key ≡ some (some r))
    × MovesTo (if signs rsa keygen then ml_dsa else ml_kem) (level_of (some 1024)) r
unfolding is_shor_broken
recommend_shor_broken_run = recommend_shor_broken rsa key refl refl

only_md5 : (hash : Family) → tagged.underlying_hash_family ≡ some hash → is_hash hash ≡ true
unfolding is_hash
only_md5 hash e = ground arith

recommend_vulnerable_run : (r : Recommendation) × (recommend tagged ≡ some (some r))
unfolding resolve_vulnerability vulnerability is_chacha20
recommend_vulnerable_run = recommend_vulnerable hmac tagged refl refl only_md5 (omega arith)
