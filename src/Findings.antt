-- ===== src/Findings.antt =====
-- Queries of a scan's findings (backend/api/filtering.py): filters, order, counts and pages.
pub mod Names
pub mod Filter
pub mod Pages
mod Tests
use sih.Prelude.{
  ℕ, zero, suc, ◌+◌, ◌-◌, ◌*◌, ◌≡◌, min, Bool, true, false, not, ◌&&◌, ◌||◌, Option, none, some,
  String, List, [], ◌∷◌, keep, length, take, drop, leb, ltb, ◌==◌, if◌then◌else◌,
}
use sih.Prelude.Int.{ℤ, pos, negsuc, ◌+ℤ◌, ltb_ℤ}
use sih.Prelude.Text.{str_eq, codes}
use sih.Prelude.Bytes.{Bytes, contains}
use sih.Prelude.Sort.{sort_by}
use sih.Model.Scans.{BandCounts}
use sih.Model.{Finding, Risk, RiskBand, Fraction, critical, high, medium, low, band_eq}
use sih.Findings.Names.{family_name, band_name, surface_name, source_name}

-- The order that `sort` asks for; any other text keeps the order of the table.
pub data SortKey : Type 0 where
  by_score by_path by_family : SortKey

unfoldable pub sort_key : String → Option SortKey
sort_key text =
    if str_eq text "score"
    then some by_score
    else if str_eq text "path"
    then some by_path
    else if str_eq text "family"
    then some by_family
    else none

-- The keyword arguments of `filter_findings`; the confidence is in hundredths.
pub record Query : Type 0 where
  pub band : Option String
  pub family : Option String
  pub surface : Option String
  pub source : Option String
  pub min_confidence : Option ℕ
  pub needs_review : Option Bool
  pub q : Option String
  pub sort : Option String

-- A filter that is not given lets everything pass.
abbrev pub given : {A : Type 0} → Option A → (A → Bool) → Bool
given none test = true
given (some a) test = test a

abbrev pub with_risk : Finding → (Risk → Bool) → Bool
with_risk f test = elim f.risk [ none ↦ false | some r ↦ test r ]

abbrev pub same_bool : Bool → Bool → Bool
same_bool true b = b
same_bool false b = not b

-- `f.family or ""`, and `f.family == family`
abbrev pub family_text : Finding → String
family_text f = elim f.family [ none ↦ "" | some x ↦ family_name x ]

abbrev pub has_family : String → Finding → Bool
has_family text f = elim f.family [ none ↦ false | some x ↦ str_eq (family_name x) text ]

-- The order of Python's texts, by code points.
unfoldable pub text_leb : Bytes → Bytes → Bool
text_leb [] t = true
text_leb (c ∷ s) [] = false
text_leb (c ∷ s) (d ∷ t) = ltb c d || c == d && text_leb s t

-- `f.risk.score if f.risk else -1.0`: no risk comes below every score.
unfoldable pub score_leb : Finding → Finding → Bool
score_leb f g = elim f.risk [
  | none ↦ true
  | some r ↦ elim g.risk [
    | none ↦ false
    | some s ↦ leb (r.score.num * s.score.den) (s.score.num * r.score.den)
  ]
]

-- Which finding may stand first; equal ones keep their order, in reverse order too.
unfoldable pub may_precede : SortKey → Finding → Finding → Bool
may_precede by_score f g = score_leb g f
may_precede by_path f g = text_leb (codes f.location.path) (codes g.location.path)
may_precede by_family f g = text_leb (codes (family_text f)) (codes (family_text g))

unfoldable pub ordered : Option SortKey → List Finding → List Finding
ordered none fs = fs
ordered (some k) fs = sort_by (may_precede k) fs

unfoldable pub key_of : Option String → Option SortKey
key_of none = none
key_of (some text) = sort_key text

-- `lower` is `str.lower`, of the code points of a text.
module _ (lower : Bytes → Bytes) where
  abbrev pub mentions : String → String → Bool
  mentions q text = contains (lower (codes q)) (lower (codes text))

  -- `if q`: the empty text filters nothing.
  unfoldable pub matches_text : String → Finding → Bool
  matches_text q f =
      str_eq q ""
      || (mentions q f.display_name
          || (mentions q f.symbol || (mentions q f.snippet || mentions q f.location.path)))

  -- All filters, on one finding.
  unfoldable pub passes : Query → Finding → Bool
  passes query f =
      given query.band (λ b. with_risk f (λ r. str_eq (band_name r.band) b))
      && (given query.family (λ x. has_family x f)
          && (given query.surface (λ x. str_eq (surface_name f.surface) x)
              && (given query.source (λ x. str_eq (source_name f.source) x)
                  && (given query.min_confidence (λ c. leb c f.confidence)
                      && (given query.needs_review
                            (λ b. with_risk f (λ r. same_bool r.needs_review b))
                          && given query.q (λ q. matches_text q f))))))

  -- The filters of the source follow one another; a finding stays if it passes each.
  unfoldable pub filter_findings : Query → List Finding → List Finding
  filter_findings query fs = ordered (key_of query.sort) (keep (passes query) fs)

unfoldable pub count_one : RiskBand → BandCounts → BandCounts
count_one critical c = record c { critical_count = suc c.critical_count }
count_one high c = record c { high_count = suc c.high_count }
count_one medium c = record c { medium_count = suc c.medium_count }
count_one low c = record c { low_count = suc c.low_count }

-- `band_counts`
unfoldable pub band_counts : List Finding → BandCounts
band_counts [] = record { critical_count = 0; high_count = 0; medium_count = 0; low_count = 0 }
band_counts (f ∷ fs) =
    let rest = band_counts fs in elim f.risk [ none ↦ rest | some r ↦ count_one r.band rest ]

-- `FindingPage`; a cursor is the number that its text shows.
pub record FindingPage : Type 0 where
  pub items : List Finding
  pub cursor : Option ℤ
  pub total : ℕ

unfoldable pub offset_of : Option ℤ → ℤ
offset_of none = pos 0
offset_of (some n) = n

-- Where a slice's bound stands in a list of `n`: a negative one counts from the end.
unfoldable pub slice_index : ℤ → ℕ → ℕ
slice_index (pos i) n = i
slice_index (negsuc i) n = n - suc i

unfoldable pub paginate : Option ℤ → ℕ → List Finding → FindingPage
unfolding slice_index
paginate cursor limit fs =
    let offset = offset_of cursor in
    let n = length fs in
    let lo = slice_index offset n in
    let hi = slice_index (offset +ℤ pos limit) n in
    record {
      items = take (hi - lo) (drop lo fs);
      cursor = (if ltb_ℤ (offset +ℤ pos limit) (pos n) then some (offset +ℤ pos limit) else none);
      total = n;
    }
