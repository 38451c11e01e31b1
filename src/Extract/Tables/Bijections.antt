-- ===== src/Extract/Tables/Bijections.antt =====
-- The scan for windows of 256 different bytes finds them all.
use sih.Prelude.{
  ℕ, zero, suc, ◌+◌, ◌-◌, ◌≤◌, ◌<◌, ◌≡◌, ◌≢◌, refl, subst, true, false, some, String, List, [], ◌∷◌,
  any, All, length, length-take, length-drop, ltb, leb, ◌==◌, ==_iff, drop, arith, Bool-cases, inl,
  inr,
}
use sih.Prelude.Bytes.{Bytes, slice}
use sih.Prelude.Sort.{Pairwise}
use sih.Attribution.{Span, byte}
use sih.Extract.{span_of, distinct, IsSpanOf}
use sih.Extract.Windows.{holds}
use sih.Extract.Tables.{is_bijection, bijections}

length-distinct : (xs : Bytes) → length (distinct xs) ≤ length xs
unfolding distinct
length-distinct [] = omega arith
length-distinct (x ∷ xs) = ground (arith, length-distinct xs)

not_any : (x : ℕ) (xs : Bytes) → any (◌==◌ x) xs ≡ false → All (λ y. x ≢ y) xs
not_any x [] h = tt
not_any x (y ∷ ys) h = ((λ e. ground (arith, h)), not_any x ys (ground (arith, h)))

-- As many values as entries: no value stands twice.
distinct-Pairwise : (xs : Bytes) → length (distinct xs) ≡ length xs → Pairwise ◌≢◌ xs
unfolding distinct
distinct-Pairwise [] h = tt
distinct-Pairwise (x ∷ xs) h = elim (Bool-cases (any (◌==◌ x) xs)) [
  | inl e ↦ let short = rw (e, distinct) at h in absurd (omega (arith, short, length-distinct xs))
  | inr e ↦
      let same = rw (e, distinct) at h in
      (not_any x xs e, distinct-Pairwise xs (omega (arith, same)))
]

length-slice : (i k : ℕ) (s : Bytes) → i + k ≤ length s → length (slice i (i + k) s) ≡ k
unfolding slice
length-slice i k s h = omega (arith, length-take {0} (i + k - i) (drop i s), length-drop {0} i s)

is_bijection-Pairwise :
    (i : ℕ) (source : Bytes)
    → i + 256 ≤ length source
    → is_bijection (slice i (i + 256) source) ≡ true
    → Pairwise ◌≢◌ (slice i (i + 256) source)
unfolding is_bijection
is_bijection-Pairwise i source h b =
    let count = (==_iff (length (distinct (slice i (i + 256) source))) 256).0 b in
    distinct-Pairwise (slice i (i + 256) source) (omega (arith, count, length-slice i 256 source h))

-- Spans of 256 bytes from `lo` on, none before the end of the one before it, in a text of `n`.
abbrev pub IsTiled : String → ℕ → ℕ → List Span → Type 0
IsTiled artifact_hash lo n [] = Unit
IsTiled artifact_hash lo n (s ∷ ss) =
    (lo ≤ s.start)
    × (s.stop ≡ s.start + 256)
    × IsSpanOf artifact_hash n s
    × IsTiled artifact_hash s.stop n ss

module _ (source : Bytes) (artifact_hash : String) (long : 256 ≤ length source) where
  abbrev IsScan : ℕ → List Span → Type 0
  IsScan i spans =
      IsTiled artifact_hash i (length source) spans
      × All (λ s. Pairwise ◌≢◌ (slice s.start s.stop source)) spans
      × ((j : ℕ)
          → i ≤ j
          → j + 256 ≤ length source
          → is_bijection (slice j (j + 256) source) ≡ true
          → holds spans j ≡ true)

  IsTiled-lower :
      (lo lo' n : ℕ) (spans : List Span)
      → lo' ≤ lo
      → IsTiled artifact_hash lo n spans
      → IsTiled artifact_hash lo' n spans
  IsTiled-lower lo lo' n [] h t = tt
  IsTiled-lower lo lo' n (s ∷ ss) h (a, b, c, t) = (omega arith, b, c, t)

  abbrev found_at : ℕ → Span
  found_at i =
      span_of artifact_hash byte i (i + 256) "extract.tables.bijection_256" "table.bijection_256"

  found :
      (i : ℕ) (spans : List Span)
      → i + 256 ≤ length source
      → is_bijection (slice i (i + 256) source) ≡ true
      → IsScan (i + 256) spans
      → IsScan i (found_at i ∷ spans)
  found i spans room b (tiled, unique, complete) = (
    (omega arith, refl, (refl, omega arith, room), tiled),
    (is_bijection-Pairwise i source room b, unique),
    λ j le fits yes_j. elim (Bool-cases (ltb j (i + 256))) [
      | inl near ↦ ground (arith, near)
      | inr far ↦ ground (arith, complete j (ground (arith, far)) fits yes_j)
    ],
  )

  passed :
      (i : ℕ) (spans : List Span)
      → is_bijection (slice i (i + 256) source) ≡ false
      → IsScan (i + 1) spans
      → IsScan i spans
  passed i spans b (tiled, unique, complete) = (
    IsTiled-lower (i + 1) i (length source) spans (omega arith) tiled,
    unique,
    λ j le fits yes_j. elim (Bool-cases (j == i)) [
      | inl same ↦
          let e = (==_iff j i).0 same in
          absurd (clash (subst (λ k. is_bijection (slice k (k + 256) source) ≡ true) e yes_j))
      | inr other ↦ complete j (ground (arith, other)) fits yes_j
    ],
  )
    where
      clash : is_bijection (slice i (i + 256) source) ≡ true → ⊥
      clash t = cc (t, b)

  bijections-IsScan :
      (fuel i : ℕ)
      → length source - i < fuel
      → (spans : List Span) × (bijections fuel i source artifact_hash ≡ some spans) × IsScan i spans
  unfolding bijections
  bijections-IsScan zero i h = absurd (omega arith)
  bijections-IsScan (suc fuel) i h = elim (Bool-cases (leb i (length source - 256))) [
    | inr end ↦
        ([], rw (end, bijections) refl, (tt, tt, λ j le fits yes_j. absurd (ground (arith, end))))
    | inl more ↦
        let room : i + 256 ≤ length source = ground (arith, more) in
        elim (Bool-cases (is_bijection (slice i (i + 256) source))) [
          | inl hit ↦
              let (spans, e, scan) = bijections-IsScan fuel (i + 256) (omega arith) in
              (
                found_at i ∷ spans,
                rw (more, hit, bijections) (rw e refl),
                found i spans room hit scan,
              )
          | inr miss ↦
              let (spans, e, scan) = bijections-IsScan fuel (i + 1) (omega arith) in
              (spans, rw (more, miss, bijections) e, passed i spans miss scan)
        ]
  ]

  -- In an artifact of 256 bytes or more the scan ends; its spans are windows of 256 bytes in which no
  -- value stands twice, and none overlaps the one before; and every position where such a window
  -- starts is in a span.
  pub bijections_lem :
      (spans : List Span) × (bijections (suc (length source)) 0 source artifact_hash ≡ some spans)
      × IsTiled artifact_hash 0 (length source) spans
      × All (λ s. Pairwise ◌≢◌ (slice s.start s.stop source)) spans
      × ((j : ℕ)
          → j + 256 ≤ length source
          → is_bijection (slice j (j + 256) source) ≡ true
          → holds spans j ≡ true)
  bijections_lem =
      let (spans, e, (tiled, unique, complete)) =
        bijections-IsScan (suc (length source)) 0 (omega arith) in
      (spans, e, tiled, unique, λ j. complete j (omega arith))
