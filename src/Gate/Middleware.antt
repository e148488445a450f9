-- ===== src/Gate/Middleware.antt =====
-- backend/app/auth.py: `api_token_middleware`. A request that goes on has a principal, but for the
-- open paths; one that does not is answered here.
use Prim.Native.String.{◌++◌}
use sha.Base.{
  ℕ, String, Bool, false, not, ◌&&◌, ◌||◌, Option, none, some, List, [], ◌∷◌, Result, ok, err, http,
  if◌then◌else◌, str_eq,
}
use sha.Text.{strip, is_empty}
use sha.Model.{Db}
use sha.Outside.{Outside}
use sha.Authz.{
  ScopeGrant, Principal, Role, AuthMethod, synthetic_global_grant, all_permissions,
  readonly_permissions, legacy_operator_permissions,
}
use sha.Protocol.{LegacyReporterPolicy, allows}
use sha.Identity.{bearer_token, after_literal, parse_device_credential, parse_enrollment_token}
use sha.Gate.Paths.{HttpRequest, is_open_path, is_bootstrap_path}
use sha.Gate.Sessions.{
  AppState, Lookup, browser_session_principal, browser_csrf_valid, authenticate_device,
}
use sha.Gate.Admit.{authorize}

-- A token is configured where it is not empty.
unfoldable pub is_configured : Option String → Bool
is_configured none = false
is_configured (some token) = not (is_empty token)

unfoldable pub matches_token : String → Option String → Bool
matches_token supplied none = false
matches_token supplied (some token) = not (is_empty token) && str_eq supplied token

-- A principal that stands for no user and no device.
abbrev plain_principal : String → String → Role → AuthMethod → List ScopeGrant → Principal
plain_principal subject display_name role auth_method grants = record {
  subject = subject;
  display_name = display_name;
  role = role;
  auth_method = auth_method;
  user_id = none;
  identity_id = none;
  session_id = none;
  grants = grants;
  endpoint_id = none;
  credential_id = none;
  enrollment_token_id = none;
}

unfoldable pub development_principal : Principal
development_principal =
    plain_principal "development:operator" "Development operator" Role.operator
      AuthMethod.development_open (synthetic_global_grant "development_admin" all_permissions ∷ [])

unfoldable pub operator_principal : Principal
operator_principal =
    plain_principal "api-token:operator" "Operator API token" Role.operator
      AuthMethod.operator_token
      (synthetic_global_grant "legacy_operator" legacy_operator_permissions ∷ [])

unfoldable pub agent_principal : Principal
agent_principal =
    plain_principal "api-token:agent" "Agent API token" Role.agent AuthMethod.agent_token []

unfoldable pub readonly_principal : Principal
readonly_principal =
    plain_principal "api-token:readonly" "Read-only API token" Role.readonly
      AuthMethod.readonly_token (synthetic_global_grant "viewer" readonly_permissions ∷ [])

unfoldable pub enrollment_principal : String → Principal
enrollment_principal token_id =
    record (plain_principal ("enrollment:" ++ token_id) "Enrollment token" Role.enrollment
      AuthMethod.enrollment_token []) { enrollment_token_id = some token_id }

-- The principal of the external proxy, for a role that it may give.
unfoldable pub external_principal : Outside → Bool → String → Principal
external_principal outside operates user =
    if operates
    then plain_principal ("external:" ++ outside.lower user) user Role.operator
        AuthMethod.external_proxy
        (synthetic_global_grant "external_operator" legacy_operator_permissions ∷ [])
    else plain_principal ("external:" ++ outside.lower user) user Role.readonly
        AuthMethod.external_proxy
        (synthetic_global_grant "external_readonly" readonly_permissions ∷ [])

abbrev policy_allows : Option LegacyReporterPolicy → ℕ → Bool
policy_allows none now = false
policy_allows (some policy) now = allows policy now

abbrev unauthenticated : String
unauthenticated = "authentication required"

module _ (outside : Outside) (app : AppState) (now : ℕ) (request : HttpRequest) where
  -- `authentication_configured`
  unfoldable pub authentication_configured : Bool
  authentication_configured =
      is_configured app.api_token
      || (is_configured app.agent_bearer
          || (is_configured app.readonly_api_token
              || (is_configured app.external_auth_trusted_token
                  || (is_configured app.credential_hmac_key || app.oidc_configured))))

  -- `_request_token`
  unfoldable pub request_token : String
  request_token = elim (after_literal "bearer " (outside.lower request.authorization)) [
    | none ↦ strip request.api_token
    | some rest ↦ bearer_token outside request.authorization
  ]

  -- The shared tokens.
  unfoldable pub admit_shared_token : Result Principal
  admit_shared_token =
      if matches_token request_token app.api_token
      then authorize request operator_principal
      else if matches_token request_token app.agent_bearer
      then (if policy_allows app.legacy_reporter_policy now
          then authorize request agent_principal
          else err (http 403 "legacy reporter compatibility is disabled or expired"))
      else if matches_token request_token app.readonly_api_token
      then authorize request readonly_principal
      else err (http 401 unauthenticated)

  unfoldable pub admit_enrollment : Option (String × String) → Result Principal
  admit_enrollment none = admit_shared_token
  admit_enrollment (some (token_id, secret)) =
      if is_bootstrap_path request
      then authorize request (enrollment_principal token_id)
      else err (http 403 "forbidden for enrollment token")

  unfoldable pub admit_found : Option Principal → Result Principal
  admit_found none = err (http 401 unauthenticated)
  admit_found (some principal) = authorize request principal

  unfoldable pub admit_bearer : Option (String × String) → Lookup (Result Principal)
  admit_bearer none db = (
    admit_enrollment (parse_enrollment_token outside (bearer_token outside request.authorization)),
    db,
  )
  admit_bearer (some (credential_id, secret)) db =
      let found =
        authenticate_device outside app now app.credential_hmac_key credential_id secret db in
      (admit_found found.0, found.1)

  -- Whether the request comes through the trusted external proxy.
  unfoldable pub is_external : Bool
  is_external = matches_token (strip request.external_auth) app.external_auth_trusted_token

  unfoldable pub admit_external : Result Principal
  admit_external =
      let role = outside.lower (strip request.external_role) in
      let user = strip request.external_user in
      if app.oidc_configured
      then err (http 403 "external proxy roles are disabled when scoped OIDC is enabled")
      else if not (str_eq role "operator" || str_eq role "readonly")
      then err (http 403 "forbidden for external auth role")
      else if is_empty user
      then err (http 403 "external auth user is required")
      else authorize request (external_principal outside (str_eq role "operator") user)

  -- A request without a session of its own.
  unfoldable pub admit_token : Lookup (Result Principal)
  admit_token db =
      if not (is_empty request.session_cookie)
      then (err (http 401 unauthenticated), db)
      else if is_external
      then (admit_external, db)
      else admit_bearer
          (parse_device_credential outside (bearer_token outside request.authorization)) db

  unfoldable pub admit_browser : Option Principal × Db → Result Principal × Db
  admit_browser (none, left) = admit_token left
  admit_browser (some principal, left) =
      if browser_csrf_valid outside app now request
      then (authorize request principal, left)
      else (err (http 403 "CSRF validation failed"), left)

  -- A request to a path that is not open.
  unfoldable pub admit_principal : Lookup (Result Principal)
  admit_principal db =
      if authentication_configured
      then admit_browser (browser_session_principal outside app now request db)
      else if app.development_open
      then (ok development_principal, db)
      else (err (http 503 "authentication is not configured"), db)

  abbrev as_admitted : Result Principal → Result (Option Principal)
  as_admitted (err e) = err e
  as_admitted (ok principal) = ok (some principal)

  -- `api_token_middleware`: the principal with which the request goes on, none on an open path.
  unfoldable pub api_token_middleware : Lookup (Result (Option Principal))
  api_token_middleware db =
      if is_open_path request
      then (ok none, db)
      else (let (answer, left) = admit_principal db in (as_admitted answer, left))
