-- ===== src/Authz/Redaction.antt =====
-- What redaction leaves of an audit event's metadata.
use sha.Base.{
  ℕ, zero, suc, ◌≡◌, refl, true, false, Bool-cases, inl, inr, ltb, any, List, All, length,
  All-add_row, length-add_row, ok,
}
use sha.Model.{
  Json, null, boolean, number, text, array, object, Items, nil, cons, Fields, end, field,
  AuditEvent, Db,
}
use sha.Model.Tx.{◌>>=◌}
use sha.Ids.{generate_prefixed_id}
use sha.Outside.{Outside}
use sha.Authz.Audit.{
  is_sensitive, redacted, redact, redact_items, redact_fields, safe_metadata, AuditCall,
  record_audit_event,
}

module _ (outside : Outside) where
  -- Under every sensitive key, at any depth, only the mark is left.
  mutual
    pub IsClean : Json → Type 0
    IsClean null = Unit
    IsClean (boolean b) = Unit
    IsClean (number n) = Unit
    IsClean (text s) = Unit
    IsClean (array xs) = IsCleanItems xs
    IsClean (object fs) = IsCleanFields fs

    pub IsCleanItems : Items → Type 0
    IsCleanItems nil = Unit
    IsCleanItems (cons x xs) = IsClean x × IsCleanItems xs

    pub IsCleanFields : Fields → Type 0
    IsCleanFields end = Unit
    IsCleanFields (field key v rest) =
        (is_sensitive outside key ≡ true → v ≡ redacted) × IsClean v × IsCleanFields rest

  mutual
    unfolding redact redact_items redact_fields IsClean IsCleanItems IsCleanFields

    redact-IsClean : (v : Json) → IsClean (redact outside v)
    redact-IsClean null = tt
    redact-IsClean (boolean b) = tt
    redact-IsClean (number n) = tt
    redact-IsClean (text s) = tt
    redact-IsClean (array xs) = redact_items-IsCleanItems 100 xs
    redact-IsClean (object fs) = redact_fields-IsCleanFields fs

    redact_items-IsCleanItems : (n : ℕ) (xs : Items) → IsCleanItems (redact_items outside n xs)
    redact_items-IsCleanItems zero nil = tt
    redact_items-IsCleanItems zero (cons x xs) = tt
    redact_items-IsCleanItems (suc n) nil = tt
    redact_items-IsCleanItems (suc n) (cons x xs) =
        (redact-IsClean x, redact_items-IsCleanItems n xs)

    redact_fields-IsCleanFields : (fs : Fields) → IsCleanFields (redact_fields outside fs)
    redact_fields-IsCleanFields end = tt
    redact_fields-IsCleanFields (field key v rest) = elim (Bool-cases (is_sensitive outside key)) [
      | inl e ↦ rw e ((λ h. refl), tt, redact_fields-IsCleanFields rest)
      | inr e ↦ rw e ((λ h. cc), redact-IsClean v, redact_fields-IsCleanFields rest)
    ]

  abbrev pub IsCleanLog : List AuditEvent → Type 0
  IsCleanLog = All (λ e. IsCleanFields e.metadata_json)

  -- The name of the replacement is no sensitive key.
  truncated_plain :
      outside.lower "truncated" ≡ "truncated" → is_sensitive outside "truncated" ≡ false
  unfolding is_sensitive any
  truncated_plain h = rw h

  safe_metadata-clean :
      outside.lower "truncated" ≡ "truncated"
      → (metadata : Fields) → IsCleanFields (safe_metadata outside metadata)
  unfolding safe_metadata IsCleanFields IsClean
  safe_metadata-clean h metadata =
      elim (Bool-cases (ltb 8192 (outside.json_size (redact_fields outside metadata)))) [
        | inl e ↦ rw e ((λ s. cc (truncated_plain h, s)), tt, tt)
        | inr e ↦ rw e (redact_fields-IsCleanFields metadata)
      ]

  -- Recording an audit event always succeeds, appends one event, and keeps every stored
  -- sensitive value redacted, at any depth of the metadata, the replacement of metadata that is
  -- too long included; `str.lower` is assumed to leave the text "truncated" as it is.
  pub record_audit_event-IsCleanLog :
      outside.lower "truncated" ≡ "truncated"
      → (now : ℕ) (call : AuditCall) (db : Db) → IsCleanLog db.audit
      → (db' : Db) × (record_audit_event outside now call db ≡ ok (tt, db'))
        × (length db'.audit ≡ suc (length db.audit))
        × IsCleanLog db'.audit
  unfolding record_audit_event generate_prefixed_id ◌>>=◌
  record_audit_event-IsCleanLog h now call db clean = (
    _,
    refl,
    length-add_row _ db.audit,
    All-add_row (λ (e : AuditEvent). IsCleanFields e.metadata_json) _ db.audit clean
        (safe_metadata-clean h call.metadata),
  )
