-- ===== src/Extract/Tables/Words.antt =====
-- The scan for tables of words ends, and its spans overlap no other span.
use sih.Prelude.{
  ℕ, zero, suc, ◌+◌, ◌-◌, ◌*◌, ◌≤◌, ◌<◌, ◌≡◌, refl, min, max, true, false, some, String, List, [],
  ◌∷◌, ◌++◌, All, All-append, length, length-drop, ltb, leb, leb→le, take, drop, arith, Bool-cases,
  inl, inr, if◌then◌else◌,
}
use sih.Prelude.Bytes.{Bytes}
use sih.Prelude.Keep.{All-map}
use sih.Prelude.Sort.{Pairwise}
use sih.Attribution.{Span, byte}
use sih.Extract.{span_of, ends_with, IsSpanOf}
use sih.Extract.Tables.{
  words_le, is_candidate, extend_table, is_free, add_table, constant_words, scan_alignments,
  byte_tables, extract_tables, table_suffixes, source_tables,
}
use sih.Extract.Tables.Bijections.{IsTiled, bijections_lem}

-- The two spans have no position in common.
abbrev pub IsDisjoint : Span → Span → Type 0
IsDisjoint s t = min s.stop t.stop ≤ max s.start t.start

abbrev pub FitsIn : String → ℕ → Span → Type 0
FitsIn artifact_hash n s = (s.start < s.stop) × IsSpanOf artifact_hash n s

Pairwise-snoc {ℓ κ} :
    {A : Type ℓ} (R : A → A → Type κ) (xs : List A) (y : A)
    → Pairwise R xs
    → All (λ x. R x y) xs
    → Pairwise R (xs ++ y ∷ [])
Pairwise-snoc R [] y p a = (tt, tt)
Pairwise-snoc R (x ∷ xs) y (h, p) (r, a) =
    (All-append (R x) xs (y ∷ []) h (r, tt), Pairwise-snoc R xs y p a)

free-IsDisjoint :
    (spans : List Span) (t : Span)
    → is_free spans t.start t.stop ≡ true
    → All (λ s. IsDisjoint s t) spans
free-IsDisjoint [] t h = tt
free-IsDisjoint (s ∷ ss) t h = (ground (arith, h), free-IsDisjoint ss t (ground (arith, h)))

extend_table_bounds :
    (found : List ℕ) (end_k : ℕ) (ws : List ℕ)
    → (end_k ≤ extend_table found end_k ws) × (extend_table found end_k ws ≤ end_k + length ws)
unfolding extend_table
extend_table_bounds found end_k [] = omega arith
extend_table_bounds found end_k (w ∷ ws) =
    ground (arith, extend_table_bounds (found ++ w ∷ []) (suc end_k) ws)

length-words_le : (s : Bytes) → 4 * length (words_le s) ≤ length s
unfolding words_le
length-words_le (a ∷ b ∷ c ∷ d ∷ s) = omega (arith, length-words_le s)
length-words_le [] = omega arith
length-words_le (a ∷ []) = omega arith
length-words_le (a ∷ b ∷ []) = omega arith
length-words_le (a ∷ b ∷ c ∷ []) = omega arith

module _ (n : ℕ) (artifact_hash : String) where
  abbrev IsPacked : List Span → Type 0
  IsPacked spans = Pairwise IsDisjoint spans × All (FitsIn artifact_hash n) spans

  add_table-IsPacked :
      (start stop : ℕ) (spans : List Span)
      → start < stop
      → stop ≤ n
      → IsPacked spans
      → IsPacked (add_table artifact_hash start stop spans)
  add_table-IsPacked start stop spans lt le (p, a) =
      let t =
        span_of artifact_hash byte start stop "extract.tables.constant_words"
          "table.constant_words" in
      elim (Bool-cases (is_free spans start stop)) [
        | inl free ↦ rw free (
          Pairwise-snoc IsDisjoint spans t p (free-IsDisjoint spans t free),
          All-append (FitsIn artifact_hash n) spans (t ∷ []) a ((lt, (refl, omega arith, le)), tt),
        )
        | inr taken ↦ rw taken (p, a)
      ]

  constant_words-IsPacked :
      (fuel align k : ℕ) (rest : List ℕ) (spans : List Span)
      → length rest < fuel
      → align + 4 * (k + length rest) ≤ n
      → IsPacked spans
      → (after : List Span) × (constant_words fuel align k rest artifact_hash spans ≡ some after)
        × IsPacked after
  unfolding constant_words
  constant_words-IsPacked zero align k rest spans h fits p = absurd (omega arith)
  constant_words-IsPacked (suc fuel) align k rest spans h fits p =
      elim (Bool-cases (leb 8 (length rest))) [
        | inr end ↦ (spans, rw (end, constant_words) refl, p)
        | inl more ↦
            let enough : 8 ≤ length rest = leb→le _ _ more in
            elim (Bool-cases (is_candidate (take 8 rest))) [
              | inr miss ↦
                  let (after, e, q) =
                    constant_words-IsPacked fuel align (k + 1) (drop 1 rest) spans
                      (omega (arith, length-drop {0} 1 rest))
                      (omega (arith, length-drop {0} 1 rest)) p in
                  (after, rw (more, miss, constant_words) e, q)
              | inl hit ↦
                  let end_k = extend_table (take 8 rest) (k + 8) (drop 8 rest) in
                  let (lo, hi) = extend_table_bounds (take 8 rest) (k + 8) (drop 8 rest) in
                  let len = length-drop {0} 8 rest in
                  let left = length-drop {0} (end_k - k) rest in
                  let (after, e, q) =
                    constant_words-IsPacked fuel align end_k (drop (end_k - k) rest)
                      (add_table artifact_hash (align + k * 4) (align + end_k * 4) spans)
                      (omega arith) (omega arith)
                      (add_table-IsPacked (align + k * 4) (align + end_k * 4) spans (omega arith)
                        (omega arith) p) in
                  (after, rw (more, hit, constant_words) e, q)
            ]
      ]

scan_alignments-IsPacked :
    (rounds align : ℕ) (source : Bytes) (artifact_hash : String) (spans : List Span)
    → rounds + align ≤ length source
    → IsPacked (length source) artifact_hash spans
    → (after : List Span) × (scan_alignments rounds align source artifact_hash spans ≡ some after)
      × IsPacked (length source) artifact_hash after
unfolding scan_alignments
scan_alignments-IsPacked zero align source artifact_hash spans h p = (spans, refl, p)
scan_alignments-IsPacked (suc rounds) align source artifact_hash spans h p =
    let len = length-words_le (drop align source) in
    let left = length-drop {0} align source in
    let (found, e, q) =
      constant_words-IsPacked (length source) artifact_hash (suc (length source)) align 0
        (words_le (drop align source)) spans (omega arith) (omega arith) p in
    let (after, f, r) =
      scan_alignments-IsPacked rounds (align + 1) source artifact_hash found (omega arith) q in
    (after, rw (e, scan_alignments) f, r)

IsTiled-behind :
    (artifact_hash : String) (lo n : ℕ) (ss : List Span)
    → IsTiled artifact_hash lo n ss
    → All (λ t. lo ≤ t.start) ss
IsTiled-behind artifact_hash lo n [] t = tt
IsTiled-behind artifact_hash lo n (s ∷ ss) (a, b, c, t) = (
  a,
  All-map (λ u. s.stop ≤ u.start) (λ u. lo ≤ u.start) (λ u h. omega arith) ss
      (IsTiled-behind artifact_hash s.stop n ss t),
)

IsTiled-IsPacked :
    (lo n : ℕ) (artifact_hash : String) (ss : List Span)
    → IsTiled artifact_hash lo n ss
    → IsPacked n artifact_hash ss
IsTiled-IsPacked lo n artifact_hash [] t = (tt, tt)
IsTiled-IsPacked lo n artifact_hash (s ∷ ss) (a, b, c, t) =
    let (p, f) = IsTiled-IsPacked s.stop n artifact_hash ss t in
    (
      (
        All-map (λ u. s.stop ≤ u.start) (IsDisjoint s) (λ u h. omega arith) ss
            (IsTiled-behind artifact_hash s.stop n ss t),
        p,
      ),
      ((omega arith, c), f),
    )

byte_tables-IsPacked :
    (source : Bytes) (artifact_hash : String)
    → (spans : List Span) × (byte_tables source artifact_hash ≡ some spans)
      × IsPacked (length source) artifact_hash spans
unfolding byte_tables
byte_tables-IsPacked source artifact_hash = elim (Bool-cases (ltb (length source) 256)) [
  | inl short ↦ elim (Bool-cases (ltb (length source) 32)) [
    | inl tiny ↦ ([], rw (short, tiny, byte_tables) refl, (tt, tt))
    | inr fair ↦
        let (after, e, p) =
          scan_alignments-IsPacked 4 0 source artifact_hash [] (ground (arith, fair)) (tt, tt) in
        (after, rw (short, fair, byte_tables) e, p)
  ]
  | inr long ↦
      let size : 256 ≤ length source = ground (arith, long) in
      let fair : ltb (length source) 32 ≡ false = ground arith in
      let (found, f, tiled, unique, complete) = bijections_lem source artifact_hash size in
      let (after, e, p) =
        scan_alignments-IsPacked 4 0 source artifact_hash found (omega arith)
          (IsTiled-IsPacked 0 (length source) artifact_hash found tiled) in
      (after, rw (long, f, fair, byte_tables) e, p)
]

pub extract_tables_lem :
    (source path : Bytes) (artifact_hash : String)
    → (spans : List Span) × (extract_tables source path artifact_hash
        ≡ some (
            if ends_with table_suffixes path
            then spans ++ source_tables source artifact_hash
            else spans))
      × Pairwise IsDisjoint spans
      × All (FitsIn artifact_hash (length source)) spans
unfolding extract_tables
extract_tables_lem source path artifact_hash =
    let (spans, e, (p, a)) = byte_tables-IsPacked source artifact_hash in
    (spans, rw (e, extract_tables) refl, p, a)
