-- ===== src/Authz/Audit.antt =====
-- backend/app/authorization.py: an audit event and what its metadata may show.
use package.text.Mathlib.Text.{find?}
use sha.Base.{
  ℕ, zero, suc, String, Bool, true, false, Option, none, some, List, [], ◌∷◌, if◌then◌else◌, ltb,
  any, add_row,
}
use sha.Model.{
  Json, null, boolean, number, text, array, object, Items, nil, cons, Fields, end, field, Outcome,
  success,
}
use sha.Model.Tx.{Tx, modify, ◌>>=◌}
use sha.Outside.{Outside}
use sha.Ids.{generate_prefixed_id}
use sha.Authz.Grants.{Principal, method_text}

abbrev markers : List String
markers = "token" ∷ "secret" ∷ "password" ∷ "credential" ∷ "verifier" ∷ "code" ∷ []

-- `marker in lowered`
abbrev occurs : String → String → Bool
occurs lowered marker = elim (find? lowered marker) [ none ↦ false | some _ ↦ true ]

abbrev pub redacted : Json
redacted = text "[REDACTED]"

module _ (outside : Outside) where
  -- Whether a key's value is withheld.
  unfoldable pub is_sensitive : String → Bool
  is_sensitive key = any (occurs (outside.lower key)) markers

  -- `_redact_metadata`; a list keeps its first hundred values.
  unfoldable mutual
    pub redact : Json → Json
    redact null = null
    redact (boolean b) = boolean b
    redact (number n) = number n
    redact (text s) = text s
    redact (array xs) = array (redact_items 100 xs)
    redact (object fs) = object (redact_fields fs)

    pub redact_items : ℕ → Items → Items
    redact_items zero nil = nil
    redact_items zero (cons x xs) = nil
    redact_items (suc n) nil = nil
    redact_items (suc n) (cons x xs) = cons (redact x) (redact_items n xs)

    pub redact_fields : Fields → Fields
    redact_fields end = end
    redact_fields (field key v rest) =
        field key (if is_sensitive key then redacted else redact v) (redact_fields rest)

-- The keyword arguments of `record_audit_event`.
pub record AuditCall : Type 0 where
  pub event_type : String
  pub principal : Option Principal
  pub actor : Option String
  pub auth_method : Option String
  pub outcome : Outcome
  pub client_id : Option String
  pub location_id : Option String
  pub endpoint_id : Option String
  pub target_type : Option String
  pub target_id : Option String
  pub request_id : Option String
  pub metadata : Fields

-- A call with the defaults, for a principal.
abbrev pub audit_call : String → Principal → AuditCall
audit_call event_type principal = record {
  event_type = event_type;
  principal = some principal;
  actor = none;
  auth_method = none;
  outcome = success;
  client_id = none;
  location_id = none;
  endpoint_id = none;
  target_type = none;
  target_id = none;
  request_id = none;
  metadata = end;
}

-- `value or default`, where an empty text counts as absent.
abbrev or_text : Option String → String → String
or_text none default = default
or_text (some String.[]) default = default
or_text (some (String.◌∷◌ c s)) default = String.◌∷◌ c s

module _ (outside : Outside) where
  -- The metadata that is stored: redacted, and replaced where it is too long.
  unfoldable pub safe_metadata : Fields → Fields
  safe_metadata metadata =
      let safe = redact_fields outside metadata in
      if ltb 8192 (outside.json_size safe) then field "truncated" (boolean true) end else safe

  -- `record_audit_event` at the time that its caller gives.
  unfoldable pub record_audit_event : ℕ → AuditCall → Tx (Unit {0})
  record_audit_event created_at call = do
    audit_event_id ← generate_prefixed_id outside "aud"
    modify (λ db. record db {
      audit =
          add_row
            (record {
              audit_event_id = audit_event_id;
              event_type = call.event_type;
              outcome = call.outcome;
              actor =
                  or_text call.actor (elim call.principal [ none ↦ "system" | some p ↦ p.subject ]);
              user_id = elim call.principal [ none ↦ none | some p ↦ p.user_id ];
              auth_method =
                  or_text call.auth_method
                    (elim call.principal [ none ↦ "system" | some p ↦ method_text p.auth_method ]);
              client_id = call.client_id;
              location_id = call.location_id;
              endpoint_id = call.endpoint_id;
              target_type = call.target_type;
              target_id = call.target_id;
              request_id = call.request_id;
              metadata_json = safe_metadata call.metadata;
              created_at = created_at;
            })
            db.audit;
    })
