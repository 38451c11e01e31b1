-- ===== src/Prelude/Regex/Order.antt =====
-- The matches of a pattern stand one behind the other.
use sih.Prelude.{
  ℕ, zero, suc, ◌+◌, ◌≤◌, ◌≡◌, refl, some, List, [], ◌∷◌, arith, length, All, All-append, keep, inl,
  inr, subst, ap,
}
use sih.Prelude.Bytes.{Bytes}
use sih.Prelude.Keep.{All-keep, List-cases}
use sih.Prelude.Regex.{
  Regex, empty, one, seq, alt, star, lazy, boundary, open_group, close_group, Cursor, step_one,
  concat_map, is_past, star_from, lazy_from, matches, Match, find_from, text_start, finditer,
}

-- The cursor stands at or after another one of the same text.
abbrev Follows : Cursor → Cursor → Type 0
Follows s m =
    (m.position + length m.rest ≡ s.position + length s.rest) × (length m.rest ≤ length s.rest)

Follows-trans :
    (s : Cursor) (ms : List Cursor) (m : Cursor)
    → Follows s m
    → All (Follows m) ms
    → All (Follows s) ms
Follows-trans s [] m f a = tt
Follows-trans s (x ∷ ms) m f (g, a) = (omega arith, Follows-trans s ms m f a)

All-concat_map :
    (s : Cursor) (f : Cursor → List Cursor) (ms : List Cursor)
    → ((m : Cursor) → All (Follows m) (f m))
    → All (Follows s) ms
    → All (Follows s) (concat_map f ms)
unfolding concat_map
All-concat_map s f [] h a = tt
All-concat_map s f (m ∷ ms) h (g, a) =
    All-append (Follows s) (f m) (concat_map f ms) (Follows-trans s (f m) m g (h m))
      (All-concat_map s f ms h a)

star_from-Follows :
    (m : Cursor → List Cursor)
    → ((s : Cursor) → All (Follows s) (m s))
    → (n : ℕ) (s : Cursor) → All (Follows s) (star_from m n s)
unfolding star_from
star_from-Follows m h zero s = (omega arith, tt)
star_from-Follows m h (suc n) s =
    All-append (Follows s) (concat_map (star_from m n) (keep (is_past s) (m s))) (s ∷ [])
      (All-concat_map s (star_from m n) (keep (is_past s) (m s)) (star_from-Follows m h n)
        (All-keep (Follows s) (is_past s) (m s) (h s)))
      (omega arith, tt)

lazy_from-Follows :
    (m : Cursor → List Cursor)
    → ((s : Cursor) → All (Follows s) (m s))
    → (n : ℕ) (s : Cursor) → All (Follows s) (lazy_from m n s)
unfolding lazy_from
lazy_from-Follows m h zero s = (omega arith, tt)
lazy_from-Follows m h (suc n) s = (
  omega arith,
  All-concat_map s (lazy_from m n) (keep (is_past s) (m s)) (lazy_from-Follows m h n)
      (All-keep (Follows s) (is_past s) (m s) (h s)),
)

matches-Follows : (r : Regex) (s : Cursor) → All (Follows s) (matches r s)
unfolding matches
matches-Follows empty s = (omega arith, tt)
matches-Follows (one p) s = step (s.rest) refl
  where
    step : (rest : Bytes) → s.rest ≡ rest → All (Follows s) (step_one p s rest)
    step [] e = tt
    step (c ∷ rest) e = ground arith
matches-Follows (seq a b) s =
    All-concat_map s (matches b) (matches a s) (matches-Follows b) (matches-Follows a s)
matches-Follows (alt a b) s =
    All-append (Follows s) (matches a s) (matches b s) (matches-Follows a s) (matches-Follows b s)
matches-Follows (star a) s = star_from-Follows (matches a) (matches-Follows a) (length s.rest) s
matches-Follows (lazy a) s = lazy_from-Follows (matches a) (matches-Follows a) (length s.rest) s
matches-Follows boundary s = ground arith
matches-Follows open_group s = (omega arith, tt)
matches-Follows close_group s = (omega arith, tt)

-- Matches from `lo` on, one behind the other, up to `hi`.
abbrev pub IsOrdered : ℕ → ℕ → List Match → Type 0
IsOrdered lo hi [] = Unit
IsOrdered lo hi (m ∷ ms) =
    (lo ≤ m.start) × (m.start ≤ m.stop) × (m.stop ≤ hi) × IsOrdered m.stop hi ms

IsOrdered-mono :
    (lo lo' hi : ℕ) (ms : List Match) → lo' ≤ lo → IsOrdered lo hi ms → IsOrdered lo' hi ms
IsOrdered-mono lo lo' hi [] le o = tt
IsOrdered-mono lo lo' hi (m ∷ ms) le (a, b, c, o) = (omega arith, b, c, o)

find_from-IsOrdered :
    (n : ℕ) (r : Regex) (s : Cursor) (hi : ℕ)
    → s.position + length s.rest ≡ hi
    → IsOrdered s.position hi (find_from n r s)
unfolding find_from
find_from-IsOrdered zero r s hi e = tt
find_from-IsOrdered (suc n) r s hi e = elim (List-cases (matches r s)) [
  | inr (m, ms, found) ↦
      let (same, shorter) = (subst (All (Follows s)) found (matches-Follows r s)).0 in
      rw (found, find_from)
        (omega arith, omega arith, omega arith, find_from-IsOrdered n r m hi (omega arith))
  | inl nothing ↦ elim (List-cases s.rest) [
    | inl end ↦ rw (nothing, end, find_from) tt
    | inr (c, rest, more) ↦
        let next = record s { position = suc s.position; before = some c; rest = rest } in
        let len = ap length more in
        rw (nothing, more, find_from)
          (IsOrdered-mono (suc s.position) s.position hi (find_from n r next) (omega arith)
            (find_from-IsOrdered n r next hi (omega (arith, len))))
  ]
]

-- The matches of a pattern stand one behind the other in the text.
pub finditer-IsOrdered : (r : Regex) (text : Bytes) → IsOrdered 0 (length text) (finditer r text)
unfolding finditer
finditer-IsOrdered r text =
    find_from-IsOrdered (suc (length text)) r (text_start text) (length text) (omega arith)
