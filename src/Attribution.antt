-- ===== src/Attribution.antt =====
-- The attribution calculus of crypto mass (backend/engine/models.py `Span`,
-- backend/engine/attribute/claim.py). Magnitudes are natural numbers: every extractor gives the
-- length of its span, and the default is 1.
pub mod Claim
pub mod Predicates
pub mod Exclude
pub mod Ledger
mod Tests
use sih.Prelude.{
  ℕ, ◌+◌, ◌-◌, ◌≤◌, min, max, Bool, true, false, Option, none, some, String, List, [], ◌∷◌, keep,
  ltb, ◌≡◌, if◌then◌else◌,
}
use sih.Prelude.Int.{ℤ, pos, negsuc, ltb_ℤ}
use sih.Prelude.Text.{str_eq}

pub data SpanKind : Type 0 where
  byte ast : SpanKind

-- `Span`: the positions from `start` up to `stop` (the source's `end`).
pub record Span : Type 0 where
  pub artifact_hash : String
  pub kind : SpanKind
  pub start : ℕ
  pub stop : ℕ
  pub producing_rule : String
  pub coarse : Bool
  pub signal_type : Option String
  pub magnitude : ℕ

-- The two `ValueError`s of `__post_init__`.
pub data SpanError : Type 0 where
  negative_start end_before_start : SpanError

pub data Built : Type 0 where
  built : Span → Built
  invalid : SpanError → Built

-- `Span(…)` with `__post_init__`: `span` gives the other fields.
unfoldable pub make_span : ℤ → ℤ → Span → Built
make_span (negsuc n) stop span = invalid negative_start
make_span (pos s) (negsuc e) span = invalid end_before_start
make_span (pos s) (pos e) span =
    if ltb e s then invalid end_before_start else built (record span { start = s; stop = e })

-- The property `length`.
unfoldable pub span_length : Span → ℕ
span_length s = s.stop - s.start

unfoldable pub spans_overlap : Span → Span → Bool
spans_overlap s₁ s₂ =
    if str_eq s₁.artifact_hash s₂.artifact_hash
    then ltb (max s₁.start s₂.start) (min s₁.stop s₂.stop)
    else false

-- The three results of `attribute_claims`; the map is the list of its entries, in order.
pub record Claims : Type 0 where
  pub attributed : List Span
  pub unclaimed : List Span
  pub overlap_map : List (Span × List Span)

-- The body of the loop over the suspicion spans, on the claims of the spans after it.
unfoldable pub claim_one : List Span → Span → Claims → Claims
claim_one findings s c = elim (keep (λ f. spans_overlap s f) findings) [
  | [] ↦ record c { unclaimed = s ∷ c.unclaimed }
  | f ∷ fs ↦ record c { attributed = s ∷ c.attributed; overlap_map = (s, f ∷ fs) ∷ c.overlap_map }
]

unfoldable pub attribute_claims : List Span → List Span → Claims
attribute_claims findings [] = record { attributed = []; unclaimed = []; overlap_map = [] }
attribute_claims findings (s ∷ ss) = claim_one findings s (attribute_claims findings ss)
