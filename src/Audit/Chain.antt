-- ===== src/Audit/Chain.antt =====
-- Every log that `log_audit` builds passes the check of the chain.
use sih.Prelude.{
  ℕ, ◌≡◌, refl, List, [], ◌∷◌, ◌++◌, arith, length, subst, sym, ◌∙◌, ◌⊎◌, inl, inr, Bool-cases,
}
use sih.Prelude.Bytes.{bytes_eq, Bytes, bytes_eq→eq, eq→bytes_eq}
use sih.Audit.{
  Hashing, Record, Entry, intact, genesis, compute_audit_record_hash, record_payload, last_hash,
  audit_row, log_audit, verify_from, verify_audit_log_integrity,
}

module _ (h : Hashing) where
  -- A row is linked when it carries the hash before it and its own.
  pub record IsLinked (prev : Bytes) (r : Record h) : Type 0 where
    pub prev_lem : r.prev_hash ≡ prev
    pub hash_lem : r.record_hash ≡ compute_audit_record_hash h r

  abbrev pub IsChained : Bytes → List (Record h) → Type 0
  IsChained prev [] = Unit
  IsChained prev (r ∷ rs) = IsLinked prev r × IsChained r.record_hash rs

  pub verify_from→IsChained :
      (prev : Bytes) (i : ℕ) (rs : List (Record h))
      → verify_from h prev i rs ≡ intact
      → IsChained prev rs
  unfolding verify_from
  verify_from→IsChained prev i [] e = tt
  verify_from→IsChained prev i (r ∷ rs) e =
      let hash = compute_audit_record_hash h r in
      ground (
        arith,
        bytes_eq→eq r.prev_hash prev,
        bytes_eq→eq r.record_hash hash,
        verify_from→IsChained r.record_hash (ℕ.suc i) rs,
      )

  pub IsChained→verify_from :
      (prev : Bytes) (i : ℕ) (rs : List (Record h))
      → IsChained prev rs
      → verify_from h prev i rs ≡ intact
  unfolding verify_from
  IsChained→verify_from prev i [] c = refl
  IsChained→verify_from prev i (r ∷ rs) (l, c) =
      let ih = IsChained→verify_from r.record_hash (ℕ.suc i) rs c in
      rw (eq→bytes_eq r.prev_hash prev l.prev_lem)
        (rw (eq→bytes_eq r.record_hash (compute_audit_record_hash h r) l.hash_lem) ih)

  -- Either the rows are a chain, or the check stops in them, whatever comes behind.
  verify_from-append :
      (prev : Bytes) (i : ℕ) (rs ss : List (Record h))
      → (verify_from h prev i (rs ++ ss) ≡ verify_from h prev i rs) ⊎ IsChained prev rs
  unfolding verify_from
  verify_from-append prev i [] ss = inr tt
  verify_from-append prev i (r ∷ rs) ss = elim (Bool-cases (bytes_eq r.prev_hash prev)) [
    | inr b ↦ inl (rw b refl)
    | inl p ↦ elim (Bool-cases (bytes_eq r.record_hash (compute_audit_record_hash h r))) [
      | inr b ↦ inl (rw (p, b) refl)
      | inl q ↦ elim (verify_from-append r.record_hash (ℕ.suc i) rs ss) [
        | inl same ↦ inl (rw (p, q) same)
        | inr c ↦
            let linked : IsLinked prev r = record {
              prev_lem = bytes_eq→eq r.prev_hash prev p;
              hash_lem = bytes_eq→eq r.record_hash (compute_audit_record_hash h r) q;
            } in
            inr (linked, c)
      ]
    ]
  ]

  -- The hash that the row after a chain has to carry.
  abbrev pub end_hash : Bytes → List (Record h) → Bytes
  end_hash prev [] = prev
  end_hash prev (r ∷ rs) = end_hash r.record_hash rs

  pub IsChained-append :
      (prev : Bytes) (rs : List (Record h)) (r : Record h)
      → IsChained prev rs
      → IsLinked (end_hash prev rs) r
      → IsChained prev (rs ++ r ∷ [])
  IsChained-append prev [] r c l = (l, tt)
  IsChained-append prev (s ∷ rs) r (k, c) l = (k, IsChained-append s.record_hash rs r c l)

  pub IsChained-prefix :
      (prev : Bytes) (rs ss : List (Record h)) → IsChained prev (rs ++ ss) → IsChained prev rs
  IsChained-prefix prev [] ss c = tt
  IsChained-prefix prev (r ∷ rs) ss (l, c) = (l, IsChained-prefix r.record_hash rs ss c)

  -- What Python documents of `hexdigest` of SHA-256: 64 characters.
  abbrev pub HasWidth : Type 0
  HasWidth = (b : Bytes) → length (h.hexdigest b) ≡ 64

  module _ (width : HasWidth) where
    pub record_hash_width :
        {prev : Bytes} (r : Record h) → IsLinked prev r → length r.record_hash ≡ 64
    unfolding compute_audit_record_hash
    record_hash_width r l = rw l.hash_lem (width (record_payload h r))

    last_hash_one :
        {prev : Bytes} (r : Record h) → IsLinked prev r → last_hash h (r ∷ []) ≡ r.record_hash
    unfolding last_hash
    last_hash_one r l = ground (arith, record_hash_width r l)

    last_hash-eq-end_hash :
        (prev : Bytes) (r : Record h) (rs : List (Record h))
        → IsChained prev (r ∷ rs)
        → last_hash h (r ∷ rs) ≡ end_hash prev (r ∷ rs)
    unfolding last_hash
    last_hash-eq-end_hash prev r [] (l, c) = last_hash_one r l
    last_hash-eq-end_hash prev r (s ∷ rs) (l, c) = last_hash-eq-end_hash r.record_hash s rs c

    last_hash_of_chain :
        (log : List (Record h)) → IsChained genesis log → last_hash h log ≡ end_hash genesis log
    unfolding last_hash
    last_hash_of_chain [] c = refl
    last_hash_of_chain (r ∷ rs) c = last_hash-eq-end_hash genesis r rs c

    audit_row-IsLinked :
        (current : Bytes) (e : Entry h.Detail) (log : List (Record h))
        → IsLinked (last_hash h log) (audit_row h current e log)
    unfolding audit_row compute_audit_record_hash
    audit_row-IsLinked current e log = record { prev_lem = refl; hash_lem = refl }

    -- Adding a row by `log_audit` does not change what the check says of a log, when the hash has a
    -- fixed width: one that passes still passes, and one that was tampered with is reported at the
    -- same row as before.
    pub verify_audit_log_integrity-log_audit :
        (current : Bytes) (e : Entry h.Detail) (log : List (Record h))
        → verify_audit_log_integrity h (log_audit h current e log)
          ≡ verify_audit_log_integrity h log
    unfolding verify_audit_log_integrity log_audit
    verify_audit_log_integrity-log_audit current e log =
        let row = audit_row h current e log in
        elim (verify_from-append genesis 0 log (row ∷ [])) [
          | inl same ↦ same
          | inr c ↦
              let linked =
                subst (λ p. IsLinked p row) (last_hash_of_chain log c)
                  (audit_row-IsLinked current e log) in
              IsChained→verify_from genesis 0 (log ++ row ∷ [])
                (IsChained-append genesis log row c linked)
              ∙ sym (IsChained→verify_from genesis 0 log c)
        ]

    pub log_audit-verify_audit_log_integrity :
        (current : Bytes) (e : Entry h.Detail) (log : List (Record h))
        → verify_audit_log_integrity h log ≡ intact
        → verify_audit_log_integrity h (log_audit h current e log) ≡ intact
    log_audit-verify_audit_log_integrity current e log v =
        verify_audit_log_integrity-log_audit current e log ∙ v

    -- A chain's last hash has the width of a digest, if the hash before the chain has it.
    pub length-end_hash :
        (prev : Bytes) (rs : List (Record h))
        → length prev ≡ 64
        → IsChained prev rs
        → length (end_hash prev rs) ≡ 64
    length-end_hash prev [] l c = l
    length-end_hash prev (r ∷ rs) l (k, c) =
        length-end_hash r.record_hash rs (record_hash_width r k) c
