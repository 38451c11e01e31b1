-- ===== src/Risk/Formula.antt =====
-- Laws of the formula (backend/engine/risk.py): ranges, and how score and band move.
use sih.Prelude.{ℕ, ◌+◌, ◌-◌, ◌*◌, ◌≤◌, ◌<◌, min, max, ◌≡◌, refl, false, some, arith}
use native.Mathlib.Decide.{dec_le}
use native.Mathlib.Nat.{mul-le-mul_right, mul-le-mul_left, le_of_mul-le-mul_right}
use sih.Prelude.Int.{
  ℤ, pos, pos_part, neg_part, ◌+ℤ◌, ◌-ℤ◌, ◌*ℤ◌, pos_part-+ℤ, pos_part--ℤ, scale_parts, +ℤ_parts,
  -ℤ_parts,
}
use sih.Model.{band_rank, Fraction, IsAtMost}
use sih.Risk.{
  clamp, urgency_of, compute_urgency, compute_score, band_for_score, Scored, scored_at, rescore,
}

-- `x + y`, less what is below 0.
abbrev years : ℤ → ℤ → ℕ
years x y = pos_part x + pos_part y - (neg_part x + neg_part y)

clamp-pos :
    (v : ℤ) (a b : ℕ) → a ≤ b → pos_part (clamp v (pos a) (pos b)) ≡ max a (min b (pos_part v))
unfolding clamp
clamp-pos v a b h = ground arith

-- The half and the horizon cancel: urgency is `(x + y) / (2 * z)` between its bounds.
pub urgency_of-num :
    (x y : ℤ) (z : ℕ) → (urgency_of x y z).num ≡ max z (min (20 * z) (10 * years x y))
unfolding urgency_of
urgency_of-num x y z =
    let margin = x +ℤ y -ℤ pos z in
    let scaled = pos 10 *ℤ margin in
    omega (
      arith,
      clamp-pos (pos (10 * z) +ℤ scaled) z (20 * z),
      pos_part-+ℤ (pos (10 * z)) scaled,
      (scale_parts 10 margin).0,
      (scale_parts 10 margin).1,
      pos_part--ℤ (x +ℤ y) (pos z),
      -ℤ_parts (x +ℤ y) (pos z),
      +ℤ_parts x y,
    )

pub urgency_of-den : (x y : ℤ) (z : ℕ) → (urgency_of x y z).den ≡ 20 * z
unfolding urgency_of
urgency_of-den x y z = refl

-- The urgency of a horizon above 0 lies between 0.05 and 1.
pub urgency_of_bounds :
    (x y : ℤ) (z : ℕ)
    → 0 < z
    → let u = urgency_of x y z in (u.den ≤ 20 * u.num) × (u.num ≤ u.den) × (0 < u.den)
urgency_of_bounds x y z h = omega (arith, urgency_of-num x y z, urgency_of-den x y z)

-- `s` over 20 horizons, between its bounds, against a later horizon.
share_antitone :
    (s z w : ℕ) → z ≤ w → max w (min (20 * w) s) * (20 * z) ≤ max z (min (20 * z) s) * (20 * w)
share_antitone s z w h = elim (dec_le s w) [
  | yes early ↦ grind arith
  | no late ↦ elim (dec_le s (20 * z)) [
    | yes inside ↦
        let far : max w (min (20 * w) s) ≡ s = omega arith in
        let near : max z (min (20 * z) s) ≡ s = omega arith in
        rw far (rw near (mul-le-mul_left s (mul-le-mul_left 20 h)))
    | no above ↦
        let near : max z (min (20 * z) s) ≡ 20 * z = omega arith in
        let far : max w (min (20 * w) s) ≤ 20 * w = omega arith in
        rw near (grind (arith, mul-le-mul_right (20 * z) far))
  ]
]

-- A later horizon never makes a finding more urgent.
pub urgency_of_antitone :
    (x y : ℤ) (z later : ℕ) → z ≤ later → IsAtMost (urgency_of x y later) (urgency_of x y z)
urgency_of_antitone x y z later h = rw (urgency_of-num x y z) (
    rw (urgency_of-num x y later) (
      rw (urgency_of-den x y z)
        (rw (urgency_of-den x y later) (share_antitone (10 * years x y) z later h))))

-- A score of the formula is at most 100.
compute_score_le :
    (v f e k : ℕ) (u : Fraction)
    → IsAtMost (compute_score v f e k u) (record { num = 100; den = 1 })
unfolding compute_score
compute_score_le v f e k u = omega arith

scale_le : (a b c d e : ℕ) → 0 < b → c * b ≤ a → a * d ≤ e * b → c * d ≤ e
scale_le a b c d e positive h k =
    le_of_mul-le-mul_right {k = b} (grind (arith, mul-le-mul_right d h)) positive

-- A higher score never has a lower band.
pub band_for_score_mono :
    (p q : Fraction)
    → 0 < p.den
    → IsAtMost p q
    → band_rank (band_for_score p) ≤ band_rank (band_for_score q)
unfolding band_for_score band_rank
band_for_score_mono p q d h = ground (
  arith,
  scale_le p.num p.den 60 q.den q.num,
  scale_le p.num p.den 35 q.den q.num,
  scale_le p.num p.den 15 q.den q.num,
)

scaled_min : (a b c d m n : ℕ) → a * d ≤ c * b → min (m * a) (n * b) * d ≤ min (m * c) (n * d) * b
scaled_min a b c d m n h = elim (dec_le (m * c) (n * d)) [
  | yes inside ↦
      let right : min (m * c) (n * d) ≡ m * c = omega arith in
      let left : min (m * a) (n * b) ≤ m * a = omega arith in
      rw right (grind (arith, mul-le-mul_right d left, mul-le-mul_left m h))
  | no above ↦
      let right : min (m * c) (n * d) ≡ n * d = omega arith in
      let left : min (m * a) (n * b) ≤ n * b = omega arith in
      rw right (grind (arith, mul-le-mul_right d left))
]

-- More urgency never lowers the score.
compute_score_mono :
    (v f e k : ℕ) (p q : Fraction)
    → IsAtMost p q
    → IsAtMost (compute_score v f e k p) (compute_score v f e k q)
unfolding compute_score
compute_score_mono v f e k p q h =
    let c = v * f * e * k in grind (arith, scaled_min p.num p.den q.num q.den c 100000000 h)

-- With a horizon above 0 and a family that is not classically broken, the formula has a result,
-- and a later horizon raises neither the urgency nor the score nor the band.
pub rescore_antitone :
    (v f e k : ℕ) (x y : ℤ) (z later : ℕ)
    → 0 < z
    → z ≤ later
    → (s : Scored) × (s' : Scored) × (rescore v f e k x y z false ≡ some s)
      × (rescore v f e k x y later false ≡ some s')
      × IsAtMost s'.urgency s.urgency
      × IsAtMost s'.score s.score
      × (band_rank s'.band ≤ band_rank s.band)
unfolding rescore compute_urgency scored_at
rescore_antitone v f e k x y z later h l =
    let u = urgency_of x y z in
    let u' = urgency_of x y later in
    let fewer = urgency_of_antitone x y z later l in
    let lower = compute_score_mono v f e k u' u fewer in
    (
      scored_at v f e k u,
      scored_at v f e k u',
      ground arith,
      ground arith,
      fewer,
      lower,
      band_for_score_mono (compute_score v f e k u') (compute_score v f e k u)
          (omega (arith, urgency_of-den x y later)) lower,
    )
