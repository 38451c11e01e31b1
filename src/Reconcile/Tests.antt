-- ===== src/Reconcile/Tests.antt =====
-- A run of a reconciliation.
use sih.Prelude.{◌≡◌, refl, Option, none, some, List, [], ◌∷◌}
use sih.Prelude.Text.{codes}
use sih.Prelude.Bytes.{Bytes, bytes_eq, lower, contains}
use sih.Model.Samples.{sample_finding}
use sih.Audit.{verify_audit_log_integrity}
use sih.Audit.Toy.{toy, toy_width}
use sih.Database.{finding_to_record}
use sih.Estate.{get_target}
use sih.Findings.Names.{family_name}
use sih.Reconcile.{
  Store, extract_negotiated_tokens, reconcile_probe_findings, wants_mark, scan_of, is_matched,
  finding_tokens, token_matches,
}
use sih.Reconcile.Marked.{IsReconciled, reconcile_probe_findings_lem}

-- The RSA finding of a scan under the id of the target.
abbrev one_finding : Store toy
one_finding = record {
  targets = [];
  findings = finding_to_record sample_finding "t1" ∷ [];
  log = [];
}

abbrev cipher : List (Option Bytes)
cipher = some (codes "TLS_RSA_WITH_AES_128_CBC_SHA") ∷ none ∷ []

reconcile_probe_findings_lem_example :
    let (count, st') =
      reconcile_probe_findings toy (codes "system") (λ n. codes "probe") "t1" cipher one_finding in
    IsReconciled toy "t1" (extract_negotiated_tokens cipher) one_finding (count, st')
    × (reconcile_probe_findings toy (codes "system") (λ n. codes "probe") "t1" cipher st'
        ≡ (0, st'))
    × (verify_audit_log_integrity toy st'.log ≡ verify_audit_log_integrity toy [])
reconcile_probe_findings_lem_example =
    reconcile_probe_findings_lem toy toy_width (codes "system") (λ n. codes "probe") "t1" cipher
      one_finding

-- The part `WITH` of the name of a cipher suite is a token.
abbrev sign_with : Store toy
sign_with = record one_finding {
  findings =
      finding_to_record
        (record sample_finding { symbol = "signWith"; display_name = "JWT"; family = none }) "t1"
      ∷ [];
}

both_marked :
    ((reconcile_probe_findings toy (codes "system") (λ n. codes "probe") "t1" cipher one_finding).0
      ≡ 1)
    × ((reconcile_probe_findings toy (codes "system") (λ n. codes "probe") "t1" cipher sign_with).0
        ≡ 1)
unfolding reconcile_probe_findings extract_negotiated_tokens wants_mark finding_to_record scan_of
    get_target is_matched finding_tokens bytes_eq lower token_matches contains family_name
both_marked = (refl, refl)
