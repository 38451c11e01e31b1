-- ===== src/Reconcile.antt =====
-- The reconciliation of a probe with the findings of a target (backend/probes/reconciler.py). A
-- value of the negotiated parameters is the text that `str` makes of it; a set is a list.
pub mod Marked
mod Tests
use sih.Prelude.{
  ℕ, ◌+◌, Bool, true, false, not, ◌&&◌, ◌||◌, Option, none, some, String, List, [], ◌∷◌, ◌++◌, map,
  any, keep, length, leb, ltb, ◌==◌, if◌then◌else◌,
}
use sih.Prelude.Text.{str_eq, codes}
use sih.Prelude.Bytes.{Bytes, bytes_eq, contains, lower}
use sih.Prelude.Split.{first_with}
use sih.Model.{Family}
use sih.Audit.{Hashing, Record, Entry, log_audit}
use sih.Database.{FindingRecord}
use sih.Estate.{TargetRecord, get_target}
use sih.Findings.Names.{family_name}

abbrev is_alphanumeric : ℕ → Bool
is_alphanumeric c = leb b'0' c && leb c b'9' || leb b'A' c && leb c b'Z' || leb b'a' c && leb c b'z'

-- `re.sub(r"[^a-zA-Z0-9]", "", val).lower()`
unfoldable pub normalize_token : Bytes → Bytes
normalize_token val = lower (keep is_alphanumeric val)

-- `\s` of a text
abbrev is_white : ℕ → Bool
is_white c =
    leb 9 c && leb c 13
    || leb 28 c && leb c 32
    || c == 133
    || c == 160
    || c == 5760
    || leb 8192 c && leb c 8202
    || c == 8232
    || c == 8233
    || c == 8239
    || c == 8287
    || c == 12288

abbrev is_separator : ℕ → Bool
is_separator c = c == b'-' || c == b'_' || c == b'/' || is_white c

-- `re.split(r"[-_/\s]+", val)`, with an empty part more for each further separator of a run; the
-- empty parts are dropped.
unfoldable pub split_parts : Bytes → List Bytes
split_parts [] = [] ∷ []
split_parts (c ∷ s) =
    let rest = split_parts s in if is_separator c then [] ∷ rest else first_with c rest

unfoldable pub extract_negotiated_tokens : List (Option Bytes) → List Bytes
unfolding normalize_token split_parts
extract_negotiated_tokens [] = []
extract_negotiated_tokens (none ∷ vals) = extract_negotiated_tokens vals
extract_negotiated_tokens (some val ∷ vals) =
    normalize_token val ∷ map normalize_token (keep (λ p. leb 2 (length p)) (split_parts val))
    ++ extract_negotiated_tokens vals

abbrev text_or_empty : Option String → Bytes
text_or_empty none = []
text_or_empty (some s) = codes s

abbrev family_or_empty : Option Family → Bytes
family_or_empty none = []
family_or_empty (some f) = codes (family_name f)

-- The tokens of a finding without the empty ones.
unfoldable pub finding_tokens : FindingRecord → List Bytes
finding_tokens r =
    keep (λ t. not (bytes_eq t []))
      (map normalize_token (
        codes r.symbol
        ∷ codes r.display_name
        ∷ family_or_empty r.family
        ∷ text_or_empty r.mode
        ∷ text_or_empty r.curve
        ∷ []))

unfoldable pub token_matches : List Bytes → Bytes → Bool
token_matches negotiated ft =
    leb 3 (length ft)
    && any (λ nt. bytes_eq ft nt || leb 4 (length nt) && (contains ft nt || contains nt ft))
        negotiated

unfoldable pub is_matched : List Bytes → FindingRecord → Bool
is_matched negotiated r = any (token_matches negotiated) (finding_tokens r)

abbrev is_true : Option Bool → Bool
is_true none = false
is_true (some b) = b

abbrev is_empty : List Bytes → Bool
is_empty [] = true
is_empty (t ∷ ts) = false

-- The scan whose findings are reconciled.
unfoldable pub scan_of : String → List TargetRecord → String
scan_of target_id targets = elim (get_target target_id targets) [
  | none ↦ target_id
  | some target ↦ elim target.last_scan_id [
    | none ↦ target_id
    | some scan_id ↦ if str_eq scan_id "" then target_id else scan_id
  ]
]

-- The finding is one of the scan, matches, and is not marked yet.
unfoldable pub wants_mark : String → List Bytes → FindingRecord → Bool
wants_mark scan_id negotiated r =
    str_eq r.scan_id scan_id && (is_matched negotiated r && not (is_true r.negotiated))

unfoldable pub mark : String → List Bytes → FindingRecord → FindingRecord
mark scan_id negotiated r =
    if wants_mark scan_id negotiated r then record r { negotiated = some true } else r

module _ (h : Hashing) where
  pub record Store : Type 0 where
    pub targets : List TargetRecord
    pub findings : List FindingRecord
    pub log : List (Record h)

  -- `reconcile_probe_findings`; `detail` is the JSON object `{"reconciledCount": …, "probeId": …}`.
  module _ (current : Bytes) (detail : ℕ → h.Detail) where
    unfoldable pub reconcile_entry : String → ℕ → Entry h.Detail
    reconcile_entry target_id count = record {
      actor = none;
      action = codes "probe.reconcile";
      entity_type = codes "target";
      entity_id = codes target_id;
      detail = some (detail count);
    }

    -- The part of `reconcile_probe_findings` behind the tokens.
    unfoldable pub reconcile_tokens : String → List Bytes → Store → ℕ × Store
    reconcile_tokens target_id tokens st =
        let scan_id = scan_of target_id st.targets in
        let count = length (keep (wants_mark scan_id tokens) st.findings) in
        if is_empty tokens then (0, st) else (
          count,
          record st {
            findings = map (mark scan_id tokens) st.findings;
            log =
                (if ltb 0 count
                  then log_audit h current (reconcile_entry target_id count) st.log
                  else st.log);
          },
        )

    unfoldable pub reconcile_probe_findings : String → List (Option Bytes) → Store → ℕ × Store
    unfolding reconcile_tokens
    reconcile_probe_findings target_id negotiated st =
        reconcile_tokens target_id (extract_negotiated_tokens negotiated) st
