-- ===== src/Estate/Coverage/Sums.antt =====
-- What the sums of the estate say.
use sih.Prelude.{
  ℕ, ◌+◌, ◌*◌, ◌<◌, ◌≡◌, refl, Option, none, some, String, List, [], ◌∷◌, map, keep, All, arith,
  inl, inr, Bool-cases, ltb,
}
use sih.Prelude.Text.{str_eq}
use sih.Model.Scans.{Scan}
use sih.Residue.{CoverageCertificate, get_coverage_certificate}
use sih.Estate.{TargetRecord}
use sih.Estate.Coverage.{
  MassSums, first_certificate, last_certificate, certificate_of, add_target, mass_sums,
  overall_ratio, get_estate_coverage,
}

-- The masses of a certificate add up.
abbrev pub IsConserved : CoverageCertificate → Type 0
IsConserved c = c.attributed_mass + c.excluded_mass + c.residue_mass ≡ c.total_mass

abbrev pub IsBalanced : MassSums → Type 0
IsBalanced m = m.attributed + m.excluded + m.residue ≡ m.total

abbrev Fits : Option CoverageCertificate → Type 0
Fits none = Unit
Fits (some c) = IsConserved c

get_certificate-Fits :
    (id : String) (certs : List CoverageCertificate)
    → All IsConserved certs
    → Fits (get_coverage_certificate id certs)
unfolding get_coverage_certificate
get_certificate-Fits id [] a = tt
get_certificate-Fits id (c ∷ certs) (h, a) = elim (Bool-cases (str_eq c.scan_id id)) [
  | inl e ↦ rw e h
  | inr e ↦ rw e (get_certificate-Fits id certs a)
]

either-Fits :
    (o rest : Option CoverageCertificate)
    → Fits o
    → Fits rest
    → Fits (elim o [ none ↦ rest | some c ↦ some c ])
either-Fits none rest f g = g
either-Fits (some c) rest f g = f

first_certificate-Fits :
    (certs : List CoverageCertificate) (scans : List Scan)
    → All IsConserved certs
    → Fits (first_certificate certs scans)
unfolding first_certificate
first_certificate-Fits certs [] a = tt
first_certificate-Fits certs (s ∷ scans) a =
    either-Fits (get_coverage_certificate s.id certs) (first_certificate certs scans)
      (get_certificate-Fits s.id certs a) (first_certificate-Fits certs scans a)

last_certificate-Fits :
    (certs : List CoverageCertificate) (id : Option String)
    → All IsConserved certs
    → Fits (last_certificate certs id)
unfolding last_certificate
last_certificate-Fits certs none a = tt
last_certificate-Fits certs (some id) a = elim (Bool-cases (str_eq id "")) [
  | inl e ↦ rw e tt
  | inr e ↦ rw e (get_certificate-Fits id certs a)
]

certificate_of-Fits :
    (certs : List CoverageCertificate) (scans : List Scan) (t : TargetRecord)
    → All IsConserved certs
    → Fits (certificate_of certs scans t)
unfolding certificate_of
certificate_of-Fits certs scans t a =
    let named = keep (λ s. str_eq s.target t.uri) scans in
    either-Fits (last_certificate certs t.last_scan_id) (first_certificate certs named)
      (last_certificate-Fits certs t.last_scan_id a) (first_certificate-Fits certs named a)

add_target-IsBalanced :
    (o : Option CoverageCertificate) (m : MassSums)
    → Fits o
    → IsBalanced m
    → IsBalanced (add_target o m)
unfolding add_target
add_target-IsBalanced none m f b = omega arith
add_target-IsBalanced (some c) m f b = omega arith

mass_sums-IsBalanced :
    (certs : List CoverageCertificate) (scans : List Scan) (targets : List TargetRecord)
    → All IsConserved certs
    → IsBalanced (mass_sums (map (certificate_of certs scans) targets))
unfolding mass_sums
mass_sums-IsBalanced certs scans [] a = refl
mass_sums-IsBalanced certs scans (t ∷ targets) a =
    add_target-IsBalanced (certificate_of certs scans t)
      (mass_sums (map (certificate_of certs scans) targets)) (certificate_of-Fits certs scans t a)
      (mass_sums-IsBalanced certs scans targets a)

-- If the masses of every stored certificate add up, so do the sums of the estate: attributed,
-- excluded and residue mass are the total mass, whatever targets there are.
pub get_estate_coverage_conserves :
    (certs : List CoverageCertificate) (scans : List Scan) (clusters : ℕ)
    (targets : List TargetRecord)
    → All IsConserved certs
    → IsBalanced (get_estate_coverage certs scans clusters targets).sums
unfolding get_estate_coverage
get_estate_coverage_conserves certs scans clusters targets a =
    mass_sums-IsBalanced certs scans targets a

raised : (a t : ℕ) → a < t → a * (t + 100) < (a + 100) * t
raised a t h = omega arith

ratio_of_mass :
    (m : MassSums) → 0 < m.total → overall_ratio m ≡ record { num = m.attributed; den = m.total }
unfolding overall_ratio
ratio_of_mass m h = elim (Bool-cases (ltb 0 m.total)) [
  | inl e ↦ rw e refl
  | inr e ↦ absurd (ground arith)
]

-- A target that was never scanned raises the coverage of the estate: where some mass is not
-- attributed, the ratio after its addition is above the ratio before.
pub unscanned_target_raises :
    (cs : List (Option CoverageCertificate))
    → let m = mass_sums cs in
      let m' = mass_sums (none ∷ cs) in
      m.attributed < m.total
      → (overall_ratio m).num * (overall_ratio m').den
        < (overall_ratio m').num * (overall_ratio m).den
unfolding mass_sums add_target
unscanned_target_raises cs h =
    let m = mass_sums cs in
    rw (ratio_of_mass m (omega arith), ratio_of_mass (add_target none m) (omega arith))
      (raised m.attributed m.total h)
