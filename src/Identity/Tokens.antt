-- ===== src/Identity/Tokens.antt =====
-- backend/app/api/endpoints/device_identity.py: the state of an enrollment token, and its
-- revocation.
use sha.Base.{
  ℕ, String, Bool, true, false, ◌&&◌, Option, none, some, http, if◌then◌else◌, leb, str_eq,
  find_first, update_first,
}
use sha.Text.{trim_required}
use sha.Model.{Db, EnrollmentToken}
use sha.Model.Tx.{Tx, pure, gets, check, or_raise, modify, ◌>>=◌, ◌>>◌}
use sha.Outside.{Outside}
use sha.Authz.{Principal, clause_holds, scope_clause, audit_call, record_audit_event}

pub data TokenState : Type 0 where
  revoked expired exhausted active : TokenState

abbrev pub is_set : Option ℕ → Bool
is_set none = false
is_set (some t) = true

-- `_token_state`
unfoldable pub token_state : EnrollmentToken → ℕ → TokenState
token_state token now =
    if is_set token.revoked_at
    then revoked
    else if leb token.expires_at now
    then expired
    else if leb token.max_uses token.use_count
    then exhausted
    else active

-- The row that the query for one token finds.
abbrev pub visible_token : Principal → String → EnrollmentToken → Bool
visible_token principal id token =
    str_eq token.token_id id
    && clause_holds (scope_clause principal "enrollment.manage") (some token.client_id)
        (some token.location_id)

unfoldable pub revoked_token : ℕ → EnrollmentToken → EnrollmentToken
revoked_token now token = record token { revoked_at = some now; updated_at = now }

-- The flush of the token that the query has loaded.
unfoldable pub write_token :
    (EnrollmentToken → Bool) → (EnrollmentToken → EnrollmentToken) → Db → Db
write_token test change db = record db { tokens = update_first test change db.tokens }

module _ (outside : Outside) (now : ℕ) (principal : Principal) where
  -- A token that was revoked before keeps the time of its revocation.
  unfoldable pub revoke_once : String → EnrollmentToken → Tx EnrollmentToken
  revoke_once id token = if is_set token.revoked_at then pure token else (do
    modify (write_token (visible_token principal id) (revoked_token now))
    pure (revoked_token now token))

  unfoldable pub report_revocation : EnrollmentToken → Tx EnrollmentToken
  report_revocation row = do
    record_audit_event outside now (record (audit_call "enrollment_token_revoked" principal) {
      client_id = some row.client_id;
      location_id = some row.location_id;
      target_type = some "enrollment_token";
      target_id = some row.token_id;
    })
    pure row

  -- `revoke_enrollment_token`
  unfoldable pub revoke_enrollment_token : String → Tx EnrollmentToken
  revoke_enrollment_token raw_token_id = do
    token_id ← check (trim_required raw_token_id "token_id")
    tokens ← gets (λ db. db.tokens)
    token ←
        or_raise (find_first (visible_token principal token_id) tokens)
          (http 404 "enrollment token not found")
    row ← revoke_once token_id token
    report_revocation row
