-- ===== src/Gate/Body.antt =====
-- The limit on request bodies.
use sih.Prelude.{
  ℕ, ◌+◌, ◌≤◌, ◌≡◌, refl, ap, true, false, Option, String, List, [], ◌∷◌, sum_by, length, arith,
  ltb, Bool-cases, inl, inr,
}
use sih.Prelude.Int.{ℤ}
use sih.Prelude.Text.{str_eq}
use sih.Gate.{
  Message, http_request, other_message, Scope, is_upload, size_of, limited, declares_more,
  limit_size,
}

abbrev pub body_size : List Message → ℕ
body_size = sum_by size_of

-- The parts that are delivered stay within the room that is left.
limited_bound :
    (max received : ℕ) (ms : List Message)
    → received ≤ max
    → received + body_size (limited max received ms).delivered ≤ max
unfolding limited size_of
limited_bound max received [] h = omega arith
limited_bound max received (other_message ∷ ms) h = omega (arith, limited_bound max received ms h)
limited_bound max received (http_request body ∷ ms) h =
    elim (Bool-cases (ltb max (received + length body))) [
      | inl e ↦ rw (e, limited) (omega arith)
      | inr e ↦
          let fits : received + length body ≤ max = ground arith in
          rw (e, limited) (omega (arith, limited_bound max (received + length body) ms fits))
    ]

-- A body that fits is delivered whole, and a body that does not is refused.
limited_fits :
    (max received : ℕ) (ms : List Message)
    → received ≤ max
    → let s = limited max received ms in
      (s.too_large ≡ ltb max (received + body_size ms)) × (s.too_large ≡ false → s.delivered ≡ ms)
unfolding limited size_of
limited_fits max received [] h = (ground arith, λ e. refl)
limited_fits max received (other_message ∷ ms) h =
    let (t, d) = limited_fits max received ms h in (ground arith, λ e. ap (◌∷◌ other_message) (d e))
limited_fits max received (http_request body ∷ ms) h =
    elim (Bool-cases (ltb max (received + length body))) [
      | inl e ↦ rw (e, limited) (ground arith, λ f. absurd (clash f))
      | inr e ↦
          let fits : received + length body ≤ max = ground arith in
          let (t, d) = limited_fits max (received + length body) ms fits in
          rw (e, limited) (ground arith, λ f. ap (◌∷◌ (http_request body)) (d f))
    ]
  where
    clash : true ≡ false → ⊥
    clash f = ground arith

-- For an HTTP request to a path that is not an upload: the body parts that reach the application
-- have at most `max` bytes; a request whose declared size is within the limit, or not declared, is
-- refused exactly when its body has more than `max` bytes; and one that is not refused reaches the
-- application whole.
pub limit_size_lem :
    (int : String → Option ℤ) (max : ℕ) (scope : Scope) (ms : List Message)
    → str_eq scope.type "http" ≡ true
    → is_upload scope.path ≡ false
    → let s = limit_size int max scope ms in
      (body_size s.delivered ≤ max)
      × (declares_more int max scope.content_length ≡ false → s.too_large ≡ ltb max (body_size ms))
      × (s.too_large ≡ false → s.delivered ≡ ms)
unfolding limit_size
limit_size_lem int max scope ms h u =
    elim (Bool-cases (declares_more int max scope.content_length)) [
      | inl e ↦
          rw (h, u, e, limit_size) (omega arith, (λ f. absurd (clash f)), (λ f. absurd (clash f)))
      | inr e ↦
          let (t, d) = limited_fits max 0 ms (omega arith) in
          rw (h, u, e, limit_size)
            (omega (arith, limited_bound max 0 ms (omega arith)), (λ f. ground (arith, t)), d)
    ]
  where
    clash : true ≡ false → ⊥
    clash f = ground arith
