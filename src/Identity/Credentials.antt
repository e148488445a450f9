-- ===== src/Identity/Credentials.antt =====
-- backend/app/api/endpoints/device_identity.py: rotating and revoking a device's credential, and
-- what a device may read of itself.
use sha.Base.{
  ℕ, ◌+◌, ◌*◌, String, Bool, not, ◌&&◌, ◌||◌, Option, none, some, List, ok, err, http, Result,
  if◌then◌else◌, any, str_eq, find_first, update_first, add_row,
}
use sha.Text.{trim_required}
use sha.Model.{
  Db, DeviceCredential, CredentialStatus, Endpoint, credential_is_active, credential_is_revoked,
  field, text, end,
}
use sha.Model.Tx.{Tx, pure, raise, gets, check, or_raise, raise_if, modify, ◌>>=◌, ◌>>◌}
use sha.Outside.{Outside}
use sha.Authz.{
  Principal, is_device_credential, clause_holds, scope_clause, audit_call, record_audit_event,
}
use sha.Approvals.{endpoint_has_id}
use sha.Identity.Secrets.{device_secret_hash}

-- The identifiers of an endpoint and of its credential.
pub record Device : Type 0 where
  pub endpoint_id : String
  pub credential_id : String

device_of : Option String → Option String → Option Device
device_of (some e) (some c) = some (record { endpoint_id = e; credential_id = c })
device_of _ _ = none

-- `require_device_principal` of backend/app/auth.py, with the identifiers that it makes sure of.
unfoldable pub require_device_principal : Principal → Result Device
unfolding device_of
require_device_principal principal =
    if not (is_device_credential principal.auth_method)
    then err (http 403 "device credential is required")
    else elim (device_of principal.endpoint_id principal.credential_id) [
      | none ↦ err (http 403 "device credential is required")
      | some device ↦ ok device
    ]

abbrev pub credential_has_id : String → DeviceCredential → Bool
credential_has_id id credential = str_eq credential.credential_id id

-- `uq_device_credentials_active_endpoint` and the primary key.
abbrev pub credential_clashes : DeviceCredential → DeviceCredential → Bool
credential_clashes new old =
    credential_has_id new.credential_id old
    || (str_eq old.endpoint_id new.endpoint_id && credential_is_active old.status)

abbrev in_use : String
in_use = "credential_id is already in use"

unfoldable pub write_credential :
    (DeviceCredential → Bool) → (DeviceCredential → DeviceCredential) → Db → Db
write_credential test change db = record db {
  credentials = update_first test change db.credentials;
}

unfoldable pub add_credential : DeviceCredential → Db → Db
add_credential credential db = record db { credentials = add_row credential db.credentials }

unfoldable pub replaced : ℕ → DeviceCredential → DeviceCredential
replaced now credential = record credential {
  status = CredentialStatus.replaced;
  updated_at = now;
  replaced_at = some now;
}

-- The new credential; its life is a number of days.
unfoldable pub active_credential : String → String → String → ℕ → ℕ → DeviceCredential
active_credential credential_id endpoint_id secret_hash now lifetime_days = record {
  credential_id = credential_id;
  endpoint_id = endpoint_id;
  secret_hash = secret_hash;
  hash_key_id = "primary";
  status = CredentialStatus.active;
  replaced_by_credential_id = none;
  last_used_at = none;
  expires_at = some (now + 86400 * lifetime_days);
  created_at = now;
  updated_at = now;
  replaced_at = none;
  revoked_at = none;
}

module _ (outside : Outside) (now : ℕ) (principal : Principal) where
  -- `current.replaced_by_credential_id = ...`, the endpoint and the audit event.
  unfoldable pub finish_rotation : DeviceCredential → DeviceCredential → Tx DeviceCredential
  finish_rotation current replacement = do
    modify (
        write_credential (credential_has_id current.credential_id)
          (λ c. record c { replaced_by_credential_id = some replacement.credential_id }))
    endpoints ← gets (λ db. db.endpoints)
    endpoint ←
        or_raise (find_first (endpoint_has_id current.endpoint_id) endpoints)
          (http 401 "authentication required")
    record_audit_event outside now (record (audit_call "device_credential_rotated" principal) {
      client_id = some endpoint.client_id;
      location_id = some endpoint.location_id;
      endpoint_id = some endpoint.endpoint_id;
      target_type = some "device_credential";
      target_id = some replacement.credential_id;
      metadata = field "replaced_credential_id" (text current.credential_id) end;
    })
    pure replacement

  -- The flush of the new credential, which the unique constraints may refuse.
  unfoldable pub insert_replacement : DeviceCredential → DeviceCredential → Tx DeviceCredential
  insert_replacement current replacement = do
    clashes ← gets (λ db. any (credential_clashes replacement) db.credentials)
    raise_if clashes (http 409 in_use)
    modify (add_credential replacement)
    finish_rotation current replacement

  -- The replacement of the current credential, once it is known to be active.
  unfoldable pub replace_credential : DeviceCredential → DeviceCredential → Tx DeviceCredential
  replace_credential current replacement = do
    taken ← gets (λ db. any (credential_has_id replacement.credential_id) db.credentials)
    raise_if taken (http 409 in_use)
    modify (write_credential (credential_has_id current.credential_id) (replaced now))
    insert_replacement current replacement

  -- The same identifier again is a replay where the secret is the same.
  unfoldable pub rotate_current : DeviceCredential → DeviceCredential → Tx DeviceCredential
  rotate_current current replacement =
      if str_eq replacement.credential_id current.credential_id
      then (if str_eq replacement.secret_hash current.secret_hash
          then pure current
          else raise (http 409 in_use))
      else replace_credential current replacement

  -- `rotate_device_credential`; the key and the lifetime are the application's configuration.
  unfoldable pub rotate_device_credential :
      Option String → ℕ → String → String → Tx DeviceCredential
  rotate_device_credential hmac_key lifetime_days new_credential_id new_secret = do
    device ← check (require_device_principal principal)
    key ← or_raise hmac_key (http 503 "device credential service is not configured")
    credentials ← gets (λ db. db.credentials)
    current ←
        or_raise (find_first (credential_has_id device.credential_id) credentials)
          (http 401 "authentication required")
    raise_if
        (not (str_eq current.endpoint_id device.endpoint_id)
          || not (credential_is_active current.status))
        (http 401 "authentication required")
    rotate_current current (
        active_credential new_credential_id current.endpoint_id
          (device_secret_hash outside key new_credential_id new_secret) now lifetime_days)

  -- `get_agent_identity`
  unfoldable pub get_agent_identity : Tx (Endpoint × DeviceCredential)
  get_agent_identity = do
    device ← check (require_device_principal principal)
    endpoint ← gets (λ db. find_first (endpoint_has_id device.endpoint_id) db.endpoints)
    endpoint ← or_raise endpoint (http 401 "authentication required")
    credential ← gets (λ db. find_first (credential_has_id device.credential_id) db.credentials)
    credential ← or_raise credential (http 401 "authentication required")
    raise_if (not (credential_is_active credential.status)) (http 401 "authentication required")
    pure (endpoint, credential)

  -- The credentials joined with their endpoints, and the principal's clause.
  abbrev pub visible_credential : String → List Endpoint → DeviceCredential → Bool
  visible_credential id endpoints credential =
      credential_has_id id credential
      && any
          (λ e.
            str_eq e.endpoint_id credential.endpoint_id
            && clause_holds (scope_clause principal "device_credential.manage") (some e.client_id)
                (some e.location_id))
          endpoints

  unfoldable pub revoked_credential : DeviceCredential → DeviceCredential
  revoked_credential credential = record credential {
    status = CredentialStatus.revoked;
    revoked_at = some now;
    updated_at = now;
  }

  unfoldable pub revoke_credential_once : DeviceCredential → Tx DeviceCredential
  revoke_credential_once credential =
      if credential_is_revoked credential.status then pure credential else (do
        modify (write_credential (credential_has_id credential.credential_id) revoked_credential)
        pure (revoked_credential credential))

  -- `revoke_device_credential`
  unfoldable pub revoke_device_credential : String → Tx DeviceCredential
  revoke_device_credential raw_credential_id = do
    credential_id ← check (trim_required raw_credential_id "credential_id")
    credential ←
        gets (λ db. find_first (visible_credential credential_id db.endpoints) db.credentials)
    credential ← or_raise credential (http 404 "device credential not found")
    row ← revoke_credential_once credential
    endpoints ← gets (λ db. db.endpoints)
    endpoint ←
        or_raise (find_first (endpoint_has_id row.endpoint_id) endpoints)
          (http 404 "device credential not found")
    record_audit_event outside now (record (audit_call "device_credential_revoked" principal) {
      client_id = some endpoint.client_id;
      location_id = some endpoint.location_id;
      endpoint_id = some endpoint.endpoint_id;
      target_type = some "device_credential";
      target_id = some row.credential_id;
    })
    pure row
