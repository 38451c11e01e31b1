-- ===== src/Ingest/Inspected.antt =====
-- The loop over the entries of an archive (the loops of `_extract_zip` and `_extract_tar`).
use sih.Prelude.{
  ℕ, suc, ◌+◌, ◌≤◌, ◌≡◌, ◌⊎◌, refl, sym, ap, ◌∙◌, subst, false, Option, none, List, [], ◌∷◌, length,
  sum_by, ltb, arith, All, Bool-cases, Option-cases, inl, inr,
}
use sih.Ingest.{IngestError, Result, ok, raised, inspect}

raised-ok : {A : Type 0} {e : IngestError} {a : A} → raised e ≡ ok a → ⊥
raised-ok h = cc

pub ok_inj : {A : Type 0} {a b : A} → ok a ≡ ok b → a ≡ b
ok_inj h = cc

Result-cases :
    {A : Type 0} (r : Result A) → ((a : A) × (r ≡ ok a)) ⊎ ((e : IngestError) × (r ≡ raised e))
Result-cases (ok a) = inl (a, refl)
Result-cases (raised e) = inr (e, refl)

-- `Within total` is what an entry requires of the total so far, and `Good` of the entry itself.
module _ {E : Type 0} (size : E → ℕ) (check : ℕ → E → Option IngestError) (max_files max_total : ℕ)
    (Within : ℕ → Type 0) (Good : E → Type 0) (narrow : (m n : ℕ) → m ≤ n → Within n → Within m)
    (passes : (total : ℕ) (e : E) → Within total → Good e → check total e ≡ none)
    (passed : (total : ℕ) (e : E) → check total e ≡ none → Within total × Good e) where
  pub inspect-All :
      (count total : ℕ) (es : List E)
      → count + length es ≤ max_files
      → total + sum_by size es ≤ max_total
      → Within (total + sum_by size es)
      → All Good es
      → inspect size check max_files max_total count total es
        ≡ ok (count + length es, total + sum_by size es)
  unfolding inspect
  inspect-All count total [] f t w g =
      let i : count ≡ count + 0 = omega arith in
      let j : total ≡ total + 0 = omega arith in λ k. ok (i k, j k)
  inspect-All count total (e ∷ es) f t w (good, g) =
      let few : ltb max_files (suc count) ≡ false = ground (arith, f) in
      let small : ltb max_total (total + size e) ≡ false = ground (arith, t) in
      let fine =
        passes (total + size e) e
          (narrow (total + size e) (total + sum_by size (e ∷ es)) (omega arith) w) good in
      let i : suc count + length es ≡ count + suc (length es) = omega arith in
      let j : total + size e + sum_by size es ≡ total + (size e + sum_by size es) = omega arith in
      rw (few, small, fine)
        (inspect-All (suc count) (total + size e) es (omega (arith, f)) (omega (arith, t))
            (subst Within (sym j) w) g
          ∙ λ k. ok (i k, j k))

  pub inspect-ok :
      (count total : ℕ) (es : List E) (r : ℕ × ℕ)
      → inspect size check max_files max_total count total es ≡ ok r
      → count ≤ max_files
      → total ≤ max_total
      → Within total
      → (r ≡ (count + length es, total + sum_by size es))
        × (count + length es ≤ max_files)
        × (total + sum_by size es ≤ max_total)
        × Within (total + sum_by size es)
        × All Good es
  unfolding inspect
  inspect-ok count total [] r h f t w =
      let i : count ≡ count + 0 = omega arith in
      let j : total ≡ total + 0 = omega arith in
      (sym (ok_inj h) ∙ (λ k. (i k, j k)), omega (arith, f), omega (arith, t), subst Within j w, tt)
  inspect-ok count total (e ∷ es) r h f t w = elim (Bool-cases (ltb max_files (suc count))) [
    | inl k ↦ absurd (raised-ok (rw k at h))
    | inr few ↦ elim (Bool-cases (ltb max_total (total + size e))) [
      | inl k ↦ absurd (raised-ok (rw (few, k) at h))
      | inr small ↦ elim (Option-cases (check (total + size e) e)) [
        | inr (err, k) ↦ absurd (raised-ok (rw (few, small, k) at h))
        | inl fine ↦
            let (within, good) = passed (total + size e) e fine in
            let i : suc count + length es ≡ count + suc (length es) = omega arith in
            let j : total + size e + sum_by size es ≡ total + (size e + sum_by size es) =
              omega arith in
            let (same, f', t', w', g) =
              inspect-ok (suc count) (total + size e) es r (rw (few, small, fine) at h)
                (ground (arith, few)) (ground (arith, small)) within in
            (
              same ∙ (λ k. (i k, j k)),
              omega (arith, f'),
              omega (arith, t'),
              subst Within j w',
              (good, g),
            )
      ]
    ]
  ]

  abbrev pub IsSafe : List E → Type 0
  IsSafe es =
      (length es ≤ max_files) × (sum_by size es ≤ max_total) × Within (sum_by size es) × All Good es

  pub inspect_decides :
      (es : List E)
      → Within 0
      → (IsSafe es
          × (inspect size check max_files max_total 0 0 es ≡ ok (length es, sum_by size es)))
        ⊎ (¬ IsSafe es
            × ((err : IngestError) × (inspect size check max_files max_total 0 0 es ≡ raised err)))
  inspect_decides es w = elim (Result-cases (inspect size check max_files max_total 0 0 es)) [
    | inl (counts, e) ↦
        let (same, f, t, w', g) = inspect-ok 0 0 es counts e (omega arith) (omega arith) w in
        let i : 0 + length es ≡ length es = omega arith in
        let j : 0 + sum_by size es ≡ sum_by size es = omega arith in
        inl (
          (omega (arith, f), omega (arith, t), subst Within j w', g),
          e ∙ ap ok same ∙ λ k. ok (i k, j k),
        )
    | inr (err, e) ↦
        let j : sum_by size es ≡ 0 + sum_by size es = omega arith in
        inr (
          (λ (f, t, w', g). raised-ok (
              sym e
              ∙ inspect-All 0 0 es (omega (arith, f)) (omega (arith, t)) (subst Within j w') g)),
          (err, e),
        )
  ]
