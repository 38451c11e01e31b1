-- ===== src/Audit/Tamper.antt =====
-- What the check of the chain (backend/api/db.py, `verify_audit_log_integrity`) detects, and
-- what it lets pass.
use sih.Prelude.{
  ℕ, suc, ◌≡◌, refl, sym, ap, ◌∙◌, ◌≢◌, List, [], ◌∷◌, ◌++◌, map, arith, length, length-append, ◌⊎◌,
  inl, inr, ◌+◌, Bool-cases, append_assoc,
}
use sih.Prelude.Bytes.{Bytes, bytes_eq, bytes_eq→eq, eq→bytes_eq}
use sih.Audit.{
  Hashing, Record, intact, tampered, genesis, compute_audit_record_hash, record_payload,
  verify_from, verify_audit_log_integrity, bar,
}
use sih.Audit.Chain.{
  IsChained, IsChained-prefix, verify_from→IsChained, IsChained→verify_from, end_hash, HasWidth,
  record_hash_width,
}

-- Two texts of one length at the ends of two equal texts are equal.
suffix_eq : (a b p q : Bytes) → length p ≡ length q → a ++ p ≡ b ++ q → p ≡ q
suffix_eq [] [] p q l e = e
suffix_eq [] (y ∷ b) p q l e = absurd (omega (arith, ap length e, length-append b q))
suffix_eq (x ∷ a) [] p q l e = absurd (omega (arith, ap length e, length-append a p))
suffix_eq (x ∷ a) (y ∷ b) p q l e = suffix_eq a b p q l (cc)

module _ (h : Hashing) where
  -- Two different texts with one digest.
  abbrev pub Collision : Type 0
  Collision = (x y : Bytes) × (x ≢ y) × (h.hexdigest x ≡ h.hexdigest y)

  -- Equal digests come from equal texts, or show a collision.
  payload_or_collision :
      (r s : Record h)
      → compute_audit_record_hash h r ≡ compute_audit_record_hash h s
      → (record_payload h r ≡ record_payload h s) ⊎ Collision
  unfolding compute_audit_record_hash
  payload_or_collision r s e =
      let x = record_payload h r in
      let y = record_payload h s in
      elim (Bool-cases (bytes_eq x y)) [
        | inl same ↦ inl (bytes_eq→eq x y same)
        | inr other ↦ inr (x, y, (λ same. cc (other, eq→bytes_eq x y same)), e)
      ]

  payload_prev :
      (r s : Record h)
      → length r.prev_hash ≡ length s.prev_hash
      → record_payload h r ≡ record_payload h s
      → r.prev_hash ≡ s.prev_hash
  unfolding record_payload
  payload_prev r s l e =
      suffix_eq
        (r.actor
          ++ (bar ∷ r.action
              ++ (bar ∷ r.entity_type
                  ++ (bar ∷ r.entity_id ++ (bar ∷ h.dumps r.detail ++ bar ∷ [])))))
        (s.actor
          ++ (bar ∷ s.action
              ++ (bar ∷ s.entity_type
                  ++ (bar ∷ s.entity_id ++ (bar ∷ h.dumps s.detail ++ bar ∷ [])))))
        r.prev_hash s.prev_hash l (simp append_assoc e)

  abbrev pub payloads : List (Record h) → List Bytes
  payloads = map (record_payload h)

  module _ (width : HasWidth h) where
    -- Two chains of one length that end in one hash began with one hash and hold one content.
    chains_agree :
        (p q : Bytes) (rs ss : List (Record h))
        → length p ≡ 64
        → length q ≡ 64
        → length rs ≡ length ss
        → IsChained h p rs
        → IsChained h q ss
        → end_hash h p rs ≡ end_hash h q ss
        → ((p ≡ q) × (payloads rs ≡ payloads ss)) ⊎ Collision
    chains_agree p q [] [] lp lq l c d e = inl (e, refl)
    chains_agree p q [] (s ∷ ss) lp lq l c d e = absurd (omega arith)
    chains_agree p q (r ∷ rs) [] lp lq l c d e = absurd (omega arith)
    chains_agree p q (r ∷ rs) (s ∷ ss) lp lq l (k, c) (m, d) e = first_rows (
        chains_agree r.record_hash s.record_hash rs ss (record_hash_width h width r k)
          (record_hash_width h width s m) (omega arith) c d e)
      where
        widths : length r.prev_hash ≡ length s.prev_hash
        widths = rw k.prev_lem (rw m.prev_lem (lp ∙ sym lq))

        digests :
            r.record_hash ≡ s.record_hash
            → compute_audit_record_hash h r ≡ compute_audit_record_hash h s
        digests same = sym k.hash_lem ∙ same ∙ m.hash_lem

        same_rows :
            payloads rs ≡ payloads ss
            → (record_payload h r ≡ record_payload h s) ⊎ Collision
            → ((p ≡ q) × (payloads (r ∷ rs) ≡ payloads (s ∷ ss))) ⊎ Collision
        same_rows t (inl same) =
            inl (sym k.prev_lem ∙ payload_prev r s widths same ∙ m.prev_lem, cc)
        same_rows t (inr x) = inr x

        first_rows :
            ((r.record_hash ≡ s.record_hash) × (payloads rs ≡ payloads ss)) ⊎ Collision
            → ((p ≡ q) × (payloads (r ∷ rs) ≡ payloads (s ∷ ss))) ⊎ Collision
        first_rows (inl (same, t)) = same_rows t (payload_or_collision r s (digests same))
        first_rows (inr x) = inr x

    -- Two logs of one length that both pass the check and end in one hash hold the same texts
    -- row by row, or two different texts with one digest are at hand.
    pub intact_logs_agree :
        (rs ss : List (Record h))
        → verify_audit_log_integrity h rs ≡ intact
        → verify_audit_log_integrity h ss ≡ intact
        → length rs ≡ length ss
        → end_hash h genesis rs ≡ end_hash h genesis ss
        → (payloads rs ≡ payloads ss) ⊎ Collision
    unfolding verify_audit_log_integrity genesis
    intact_logs_agree rs ss v w l e =
        let c = verify_from→IsChained h genesis 0 rs v in
        let d = verify_from→IsChained h genesis 0 ss w in
        elim (chains_agree genesis genesis rs ss refl refl l c d e) [
          | inl (same, t) ↦ inl t
          | inr x ↦ inr x
        ]

  -- Row `r` gets other content: all stays but its fields under the stored hashes.
  pub record IsEdit (r s : Record h) : Type 0 where
    pub same_prev : s.prev_hash ≡ r.prev_hash
    pub same_hash : s.record_hash ≡ r.record_hash
    pub other_digest : compute_audit_record_hash h s ≢ compute_audit_record_hash h r

  edit_tampered :
      (prev : Bytes) (i : ℕ) (rs ss : List (Record h)) (r s : Record h)
      → IsEdit r s
      → verify_from h prev i (rs ++ r ∷ ss) ≡ intact
      → verify_from h prev i (rs ++ s ∷ ss) ≡ tampered (length rs + i)
  unfolding verify_from
  edit_tampered prev i [] ss r s d v = ground (
    arith,
    bytes_eq→eq r.record_hash (compute_audit_record_hash h r),
    bytes_eq→eq s.record_hash (compute_audit_record_hash h s),
    bytes_eq→eq r.prev_hash prev,
    eq→bytes_eq s.prev_hash prev,
  )
  edit_tampered prev i (x ∷ rs) ss r s d v =
      ground (arith, edit_tampered x.record_hash (suc i) rs ss r s d)

  -- In a log that passes the check, a row whose fields are changed under its stored hashes, so
  -- that its text has another digest, is reported by its index.
  pub edit_is_reported :
      (rs ss : List (Record h)) (r s : Record h)
      → IsEdit r s
      → verify_audit_log_integrity h (rs ++ r ∷ ss) ≡ intact
      → verify_audit_log_integrity h (rs ++ s ∷ ss) ≡ tampered (length rs)
  unfolding verify_audit_log_integrity
  edit_is_reported rs ss r s d v = edit_tampered genesis 0 rs ss r s d v ∙ ap tampered (omega arith)

  -- A log that passes the check still passes it when rows are cut off its end.
  pub verify_audit_log_integrity-prefix :
      (rs ss : List (Record h))
      → verify_audit_log_integrity h (rs ++ ss) ≡ intact
      → verify_audit_log_integrity h rs ≡ intact
  unfolding verify_audit_log_integrity
  verify_audit_log_integrity-prefix rs ss v =
      IsChained→verify_from h genesis 0 rs
        (IsChained-prefix h genesis rs ss (verify_from→IsChained h genesis 0 (rs ++ ss) v))

  -- Two rows with one text under one pair of stored hashes.
  record IsSameText (r s : Record h) : Type 0 where
    same_prev : s.prev_hash ≡ r.prev_hash
    same_hash : s.record_hash ≡ r.record_hash
    same_digest : compute_audit_record_hash h s ≡ compute_audit_record_hash h r

  verify_from_same :
      (prev : Bytes) (i : ℕ) (rs ss : List (Record h)) (r s : Record h)
      → IsSameText r s
      → verify_from h prev i (rs ++ s ∷ ss) ≡ verify_from h prev i (rs ++ r ∷ ss)
  unfolding verify_from
  verify_from_same prev i [] ss r s e = rw (e.same_digest, e.same_hash, e.same_prev)
  verify_from_same prev i (x ∷ rs) ss r s e =
      rw (verify_from_same x.record_hash (suc i) rs ss r s e)

  abbrev moved_left : Record h → Bytes → Bytes → Bytes → Record h
  moved_left r x y z = record r { actor = x ++ bar ∷ y; action = z }

  abbrev moved_right : Record h → Bytes → Bytes → Bytes → Record h
  moved_right r x y z = record r { actor = x; action = y ++ bar ∷ z }

  moved_IsSameText :
      (r : Record h) (x y z : Bytes) → IsSameText (moved_left r x y z) (moved_right r x y z)
  unfolding compute_audit_record_hash
  moved_IsSameText r x y z = record {
    same_prev = refl;
    same_hash = refl;
    same_digest = ap h.hexdigest (simp append_assoc);
  }

  -- The separator is not escaped: where the actor is a text, `|` and another text, that other
  -- text can be moved to the front of the action, and the verdict on the log stays the same.
  pub verify_audit_log_integrity-shift :
      (rs ss : List (Record h)) (r : Record h) (x y z : Bytes)
      → verify_audit_log_integrity h (rs ++ record r { actor = x; action = y ++ bar ∷ z } ∷ ss)
        ≡ verify_audit_log_integrity h (rs ++ record r { actor = x ++ bar ∷ y; action = z } ∷ ss)
  unfolding verify_audit_log_integrity
  verify_audit_log_integrity-shift rs ss r x y z =
      verify_from_same genesis 0 rs ss (moved_left r x y z) (moved_right r x y z)
        (moved_IsSameText r x y z)
