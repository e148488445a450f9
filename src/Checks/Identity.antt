-- ===== src/Checks/Identity.antt =====
-- Device identity in the small world.
use sha.Base.{
  arith, String, ◌≡◌, ◌⊎◌, refl, true, false, none, some, [], ◌∷◌, ok, Result, Memᴰ, str_eq, any,
  all, find_first, update_first, contains,
}
use sha.Text.{trim_required}
use sha.Ids.{generate_prefixed_id}
use sha.Authz.{Principal, scope_clause, clause_holds, synthetic_global_grant, record_audit_event}
use sha.Model.{
  Db, EnrollmentToken, DeviceCredential, CredentialStatus, ApprovalPolicy, credential_is_active,
}
use sha.Model.Tx.{◌>>=◌}
use sha.Identity.{
  consumable, TokenState, token_state, visible_token, revoked_token, revoke_once, report_revocation,
  revoke_enrollment_token, is_set, Device, require_device_principal, device_secret_hash,
  credential_has_id, rotate_device_credential, rotate_current, replace_credential,
  insert_replacement, finish_rotation, write_credential, add_credential, active_credential,
  replaced,
}
use sha.Identity.Revoking.{revoke_enrollment_token-revoked}
use sha.Identity.Rotating.{rotate-single, next_credential, is_only}
use sha.System.{Reach, done, revoke_token, rotate_credential}
use sha.System.History.{ended_credential-stays, ended_token-stays, is_live}
use sha.Checks.World.{world, controls, reviewer, agent, start, left_by}

abbrev manager : Principal
manager = record reviewer {
  grants = synthetic_global_grant "operator" ("enrollment.manage" ∷ []) ∷ [];
}

abbrev ticket : EnrollmentToken
ticket = record {
  token_id = "et-1";
  secret_hash = "s";
  hash_key_id = "primary";
  client_id = "cl";
  location_id = "lo";
  installer_profile_id = none;
  platform = none;
  approval_policy = ApprovalPolicy.approved;
  expires_at = 9000;
  max_uses = 2;
  use_count = 1;
  revoked_at = none;
  created_by = "ada";
  created_at = 0;
  updated_at = 0;
}

abbrev own : DeviceCredential
own = record {
  credential_id = "dc-1";
  endpoint_id = "ep-1";
  secret_hash = "old";
  hash_key_id = "primary";
  status = CredentialStatus.active;
  replaced_by_credential_id = none;
  last_used_at = none;
  expires_at = some 9000;
  created_at = 0;
  updated_at = 0;
  replaced_at = none;
  revoked_at = none;
}

abbrev former : DeviceCredential
former = record own { credential_id = "dc-0"; status = CredentialStatus.replaced }

abbrev fleet : Db
fleet = record start { tokens = ticket ∷ []; credentials = former ∷ own ∷ [] }

abbrev withdrawal : Result (EnrollmentToken × Db)
withdrawal = revoke_enrollment_token world 50 manager "et-1" fleet

withdrawal_runs : withdrawal ≡ ok (revoked_token 50 ticket, left_by withdrawal start)
unfolding revoke_enrollment_token trim_required find_first scope_clause clause_holds
    synthetic_global_grant contains revoke_once report_revocation record_audit_event
    generate_prefixed_id revoked_token ◌>>=◌
withdrawal_runs = refl

revoke_enrollment_token-revoked_example :
    (id : String) × (token : EnrollmentToken) × (trim_required "et-1" "token_id" ≡ ok id)
    × (find_first (visible_token manager id) fleet.tokens ≡ some token)
    × (find_first (visible_token manager id) (left_by withdrawal start).tokens
        ≡ some (revoked_token 50 ticket))
    × (token_state (revoked_token 50 ticket) 60 ≡ TokenState.revoked)
    × (((is_set token.revoked_at ≡ true)
          × (revoked_token 50 ticket ≡ token)
          × ((left_by withdrawal start).tokens ≡ fleet.tokens))
        ⊎ ((is_set token.revoked_at ≡ false)
            × (revoked_token 50 ticket ≡ revoked_token 50 token)
            × ((left_by withdrawal start).tokens
                ≡ update_first (visible_token manager id) (revoked_token 50) fleet.tokens)))
revoke_enrollment_token-revoked_example =
    revoke_enrollment_token-revoked world 50 manager "et-1" fleet 60 withdrawal_runs

abbrev rotation : Result (DeviceCredential × Db)
rotation = rotate_device_credential world 50 agent (some "key") 90 "dc-2" "new" fleet

abbrev fresh : DeviceCredential
fresh = next_credential world 50 "key" 90 "dc-2" "new" "ep-1"

rotation_runs : rotation ≡ ok (fresh, left_by rotation start)
unfolding rotate_device_credential require_device_principal find_first rotate_current
    active_credential device_secret_hash replace_credential any write_credential update_first
    replaced insert_replacement add_credential finish_rotation record_audit_event
    generate_prefixed_id ◌>>=◌
rotation_runs = refl

rotate-single_example :
    (device : Device) × (current : DeviceCredential) × (require_device_principal agent ≡ ok device)
    × (find_first (credential_has_id device.credential_id) fleet.credentials ≡ some current)
    × (str_eq current.endpoint_id device.endpoint_id ≡ true)
    × (credential_is_active current.status ≡ true)
    × (((str_eq "dc-2" current.credential_id ≡ true)
          × (str_eq (device_secret_hash world "key" "dc-2" "new") current.secret_hash ≡ true)
          × (fresh ≡ current)
          × (left_by rotation start ≡ fleet))
        ⊎ ((fresh ≡ next_credential world 50 "key" 90 "dc-2" "new" current.endpoint_id)
            × (any (credential_has_id "dc-2") fleet.credentials ≡ false)
            × (find_first (credential_has_id "dc-2") (left_by rotation start).credentials
                ≡ some fresh)
            × (all (is_only "dc-2" current.endpoint_id) (left_by rotation start).credentials
                ≡ true)))
rotate-single_example = rotate-single world 50 agent "key" 90 "dc-2" "new" fleet rotation_runs

rotated : Reach world controls fleet (left_by rotation start)
rotated = Reach.◌∷◌ (rotate_credential 50 agent (some "key") 90 "dc-2" "new" rotation_runs) done

ended_credential-stays_example :
    (later : DeviceCredential) × Memᴰ later (left_by rotation start).credentials
    × (later.credential_id ≡ "dc-0")
    × (later.secret_hash ≡ "old")
    × (credential_is_active later.status ≡ false)
ended_credential-stays_example =
    ended_credential-stays world controls fleet (left_by rotation start) former rotated
      (Memᴰ.head refl) refl

withdrawn : Reach world controls fleet (left_by withdrawal start)
withdrawn = Reach.◌∷◌ (revoke_token 50 manager "et-1" withdrawal_runs) done

ticket_expires : is_live (token_state ticket 9000) ≡ false
unfolding token_state
ticket_expires = refl

ended_token-stays_example :
    (after : EnrollmentToken) × Memᴰ after (left_by withdrawal start).tokens
    × (after.token_id ≡ "et-1")
    × (after.secret_hash ≡ "s")
    × (is_live (token_state after 9500) ≡ false)
    × (consumable 9500 "et-1" after ≡ false)
ended_token-stays_example =
    ended_token-stays world controls fleet (left_by withdrawal start) ticket 9000 9500 withdrawn
      (Memᴰ.head refl) ticket_expires (omega arith)
