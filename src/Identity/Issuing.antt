-- ===== src/Identity/Issuing.antt =====
-- backend/app/api/endpoints/device_identity.py: issuing and listing enrollment tokens.
use sha.Base.{
  ℕ, ◌+◌, ◌*◌, String, Bool, true, false, not, ◌&&◌, ◌||◌, Option, none, some, List, http, any, leb,
  ◌==◌, str_eq, find_first, select_where, order_by, add_row, if◌then◌else◌,
}
use sha.Text.{trim_required}
use sha.Model.{
  Db, EnrollmentToken, InstallerProfile, Platform, platform_is, ApprovalPolicy, row_is_active, text,
  number, field, end,
}
use sha.Model.Tx.{Tx, pure, gets, check, or_raise, raise_if, modify, ◌>>=◌, ◌>>◌}
use sha.Outside.{Outside}
use sha.Ids.{generate_prefixed_id}
use sha.Authz.{Principal, clause_holds, scope_clause, require_scope, audit_call, record_audit_event}
use sha.Hierarchy.{load_scope, validate_scope_filter}
use sha.Identity.Secrets.{enrollment_secret_hash, enrollment_token_text}
use sha.Identity.Redemption.{token_has_id}

-- `EnrollmentTokenCreateRequest`
pub record TokenPayload : Type 0 where
  pub client_id : String
  pub location_id : String
  pub installer_profile_id : Option String
  pub platform : Option Platform
  pub approval_policy : ApprovalPolicy
  pub expires_in_minutes : ℕ
  pub max_uses : ℕ

-- The profile and the platform of the new token.
pub record Target : Type 0 where
  pub installer_profile_id : Option String
  pub platform : Option Platform

abbrev pub profile_has_id : String → InstallerProfile → Bool
profile_has_id id profile = str_eq profile.id id

abbrev pub differs : Option Platform → Platform → Bool
differs none p = false
differs (some q) p = not (platform_is p q)

abbrev pub policy_text : ApprovalPolicy → String
policy_text ApprovalPolicy.pending = "pending"
policy_text ApprovalPolicy.approved = "approved"

unfoldable pub add_token : EnrollmentToken → Db → Db
add_token token db = record db { tokens = add_row token db.tokens }

-- The token's row.
unfoldable pub new_token :
    String → String → ℕ → String → TokenPayload → String → String → Target → EnrollmentToken
new_token token_id secret_hash now actor payload client_id location_id target = record {
  token_id = token_id;
  secret_hash = secret_hash;
  hash_key_id = "primary";
  client_id = client_id;
  location_id = location_id;
  installer_profile_id = target.installer_profile_id;
  platform = target.platform;
  approval_policy = payload.approval_policy;
  expires_at = now + 60 * payload.expires_in_minutes;
  max_uses = payload.max_uses;
  use_count = 0;
  revoked_at = none;
  created_by = actor;
  created_at = now;
  updated_at = now;
}

-- The installer profile that the request names, and the platform that it settles.
unfoldable pub token_target : String → String → Option Platform → Option String → Tx Target
token_target client_id location_id platform none =
    pure (record { installer_profile_id = none; platform = platform })
token_target client_id location_id platform (some raw_id) = do
  id ← check (trim_required raw_id "installer_profile_id")
  found ← gets (λ db. find_first (profile_has_id id) db.profiles)
  profile ← or_raise found (http 404 "installer profile not found")
  raise_if
      (not (str_eq profile.client_id client_id) || not (str_eq profile.location_id location_id))
      (http 422 "installer profile does not belong to client and location")
  raise_if (differs platform profile.platform)
      (http 422 "installer profile platform does not match platform")
  pure (record { installer_profile_id = some id; platform = some profile.platform })

module _ (outside : Outside) (now : ℕ) (principal : Principal) where
  -- The row, its event and the text of the token.
  unfoldable pub issue_token :
      String → String → TokenPayload → String → String → Target → Tx (EnrollmentToken × String)
  issue_token key secret payload client_id location_id target = do
    token_id ← generate_prefixed_id outside "et"
    let token =
        new_token token_id (enrollment_secret_hash outside key token_id secret) now
          principal.subject payload client_id location_id target
    taken ← gets (λ db. any (token_has_id token_id) db.tokens)
    raise_if taken (http 500 "enrollment token already exists")
    modify (add_token token)
    record_audit_event outside now (record (audit_call "enrollment_token_created" principal) {
      client_id = some client_id;
      location_id = some location_id;
      target_type = some "enrollment_token";
      target_id = some token_id;
      metadata = field "approval_policy" (text (policy_text payload.approval_policy)) (
          field "expires_at" (number token.expires_at)
            (field "max_uses" (number payload.max_uses) end));
    })
    pure (token, enrollment_token_text token_id secret)

  -- `create_enrollment_token`; the key is the application's, the secret is drawn by
  -- `token_urlsafe`. The answer is the token's row and its text.
  unfoldable pub create_enrollment_token :
      Option String → String → TokenPayload → Tx (EnrollmentToken × String)
  create_enrollment_token hmac_key secret payload = do
    key ← or_raise hmac_key (http 503 "device credential service is not configured")
    client_id ← check (trim_required payload.client_id "client_id")
    location_id ← check (trim_required payload.location_id "location_id")
    scope ← gets (λ db. load_scope db client_id location_id)
    scope ← check scope
    check (
        require_scope principal "enrollment.manage" (some scope.0.client_id)
          (some scope.1.location_id) true)
    raise_if (not (row_is_active scope.0.state) || not (row_is_active scope.1.state))
        (http 409 "client and location must be active")
    target ← token_target client_id location_id payload.platform payload.installer_profile_id
    issue_token key secret payload scope.0.client_id scope.1.location_id target

  abbrev matches : Option String → String → Bool
  matches none column = true
  matches (some value) column = str_eq column value

  -- The rows that the list selects.
  abbrev pub listed_token : Option String → Option String → EnrollmentToken → Bool
  listed_token client_id location_id token =
      clause_holds (scope_clause principal "enrollment.read") (some token.client_id)
        (some token.location_id)
      && (matches client_id token.client_id && matches location_id token.location_id)

  -- `created_at.desc(), token_id.desc()`
  abbrev pub newer_token : EnrollmentToken → EnrollmentToken → Bool
  newer_token a b =
      if a.created_at == b.created_at
      then outside.id_le b.token_id a.token_id
      else leb b.created_at a.created_at

  abbrev require_filter_scope : Option String → Option String → Tx (Unit {0})
  require_filter_scope none location_id = pure tt
  require_filter_scope (some client_id) location_id =
      check (require_scope principal "enrollment.read" (some client_id) location_id true)

  -- `list_enrollment_tokens`
  unfoldable pub list_enrollment_tokens : Option String → Option String → Tx (List EnrollmentToken)
  list_enrollment_tokens raw_client_id raw_location_id = do
    scope ← gets (λ db. validate_scope_filter db raw_client_id raw_location_id)
    scope ← check scope
    require_filter_scope scope.0 scope.1
    gets (λ db. order_by newer_token (select_where (listed_token scope.0 scope.1) db.tokens))
