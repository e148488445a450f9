-- ===== src/Checks/Gate.antt =====
-- The gate in a small world: a reader's token, a device's credential and a browser's session.
use sha.Base.{
  ◌≡◌, refl, true, false, none, some, [], ◌∷◌, ok, Option, not, ◌&&◌, any, str_eq, find_first,
}
use sha.Text.{strip}
use sha.Authz.{Principal, is_machine}
use sha.Model.{
  Db, Endpoint, DeviceCredential, CredentialStatus, credential_is_active, mode_is_device,
  BrowserSession, User, UserStatus, OidcIdentity, global_scope,
}
use sha.Approvals.{endpoint_has_id}
use sha.Identity.{
  credential_has_id, device_secret_hash, is_past, write_credential, bearer_token, after_literal,
  parse_device_credential, parse_enrollment_token, parse_material, is_set,
}
use sha.Gate.{
  HttpRequest, AppState, api_token_middleware, authentication_configured, is_agent_path, is_reading,
  artifact_parts, parts_of, role_may_read_only, readonly_principal, is_open_path, admit_principal,
  browser_session_principal, admit_browser, admit_token, is_external, admit_bearer,
  admit_enrollment, admit_shared_token, authorize, authorize_person, matches_token, is_configured,
  request_token, is_existing_agent_path, is_bootstrap_path, is_device_only_path, is_readonly_path,
  agent_parts, authenticate_device, device_principal, used_credential, session_principal,
  session_grants, load_user_grants, admit_credential, credential_admits, admit_device,
  device_endpoint,
}
use sha.Gate.Roles.{middleware-separates, middleware-reads}
use sha.Gate.Devices.{authenticate_device-credential}
use sha.Gate.Granting.{load_user_grants-permission, binding_permits, grant_has}
use sha.Checks.World.{world, host, start}

abbrev app : AppState
app = record {
  api_token = none;
  agent_bearer = none;
  readonly_api_token = some "look";
  external_auth_trusted_token = none;
  development_open = false;
  credential_hmac_key = some "key";
  browser_session_key = some "key";
  oidc_configured = true;
  oidc_issuer = some "idp";
  session_idle_minutes = 30;
  public_base_url = none;
  legacy_reporter_policy = none;
}

abbrev visit : HttpRequest
visit = record {
  method = "GET";
  path = "/api/endpoints";
  authorization = "";
  api_token = "look";
  session_cookie = "";
  external_auth = "";
  external_role = "";
  external_user = "";
  csrf = "";
  origin = "";
  referer = "";
  sec_fetch_site = "";
}

visit_runs : api_token_middleware world app 50 visit start ≡ (ok (some readonly_principal), start)
unfolding api_token_middleware is_open_path admit_principal authentication_configured is_configured
    browser_session_principal admit_browser admit_token is_external matches_token strip admit_bearer
    parse_device_credential parse_material after_literal bearer_token admit_enrollment
    parse_enrollment_token admit_shared_token request_token authorize authorize_person is_agent_path
    is_existing_agent_path is_bootstrap_path is_device_only_path is_readonly_path is_reading
    artifact_parts parts_of readonly_principal agent_parts
visit_runs = refl

app_IsConfigured : authentication_configured world app 50 visit ≡ true
unfolding authentication_configured is_configured
app_IsConfigured = refl

readonly_reads : role_may_read_only readonly_principal.role ≡ true
unfolding readonly_principal
readonly_reads = refl

middleware-separates_example : is_agent_path visit ≡ is_machine readonly_principal.role
middleware-separates_example =
    middleware-separates visit world app 50 start app_IsConfigured visit_runs

middleware-reads_example :
    (is_reading visit ≡ true)
    × (is_agent_path visit ≡ false)
    × (artifact_parts (parts_of visit.path) ≡ false)
middleware-reads_example = middleware-reads visit world app 50 start readonly_reads visit_runs

abbrev own : DeviceCredential
own = record {
  credential_id = "dc-1";
  endpoint_id = "ep-1";
  secret_hash = "s";
  hash_key_id = "primary";
  status = CredentialStatus.active;
  replaced_by_credential_id = none;
  last_used_at = none;
  expires_at = some 9000;
  created_at = 0;
  updated_at = 0;
  replaced_at = none;
  revoked_at = none;
}

abbrev enrolled : Db
enrolled = record start { credentials = own ∷ [] }

abbrev sign_in : Option Principal × Db
sign_in = authenticate_device world app 50 (some "key") "dc-1" "s" enrolled

sign_in_runs : sign_in ≡ (some (device_principal host own), sign_in.1)
unfolding authenticate_device device_secret_hash find_first admit_credential credential_admits
    admit_device device_endpoint
sign_in_runs = refl

authenticate_device-credential_example :
    (c : DeviceCredential) × (e : Endpoint) × (find_first
        (credential_has_id "dc-1")
        enrolled.credentials
      ≡ some c)
    × (find_first (endpoint_has_id c.endpoint_id) enrolled.endpoints ≡ some e)
    × (str_eq (device_secret_hash world "key" "dc-1" "s") c.secret_hash ≡ true)
    × (credential_is_active c.status ≡ true)
    × (is_past 50 c.expires_at ≡ false)
    × (mode_is_device e.credential_mode ≡ true)
    × (device_principal host own ≡ device_principal e c)
    × (sign_in.1
        ≡ write_credential (credential_has_id c.credential_id) (used_credential 50) enrolled)
authenticate_device-credential_example =
    authenticate_device-credential world app 50 "key" "dc-1" "s" enrolled sign_in_runs

abbrev ada : User
ada = record {
  user_id = "u-1";
  status = UserStatus.active;
  display_name = "Ada";
  email_snapshot = none;
  last_login_at = none;
  disabled_at = none;
  created_at = 0;
  updated_at = 0;
}

abbrev ada_identity : OidcIdentity
ada_identity = record {
  identity_id = "i-1";
  user_id = "u-1";
  issuer = "idp";
  subject = "ada";
  display_name_snapshot = "Ada";
  email_snapshot = none;
  created_at = 0;
  updated_at = 0;
  last_seen_at = none;
}

abbrev cookie_session : BrowserSession
cookie_session = record {
  session_id = "s-1";
  user_id = "u-1";
  identity_id = "i-1";
  token_hash = "cookie";
  hash_key_id = "primary";
  authenticated_at = 0;
  last_seen_at = 0;
  idle_expires_at = 100;
  absolute_expires_at = 1000;
  revoked_at = none;
  created_at = 0;
  updated_at = 0;
}

abbrev signed_in : Db
signed_in = record start {
  users = ada ∷ [];
  identities = ada_identity ∷ [];
  roles =
      record {
        role_id = "r-1";
        key = "viewer";
        name = "Viewer";
        is_system = true;
        created_at = 0;
        updated_at = 0;
      }
      ∷ [];
  role_permissions = record { role_id = "r-1"; permission = "tag.read" } ∷ [];
  role_bindings =
      record {
        binding_id = "b-1";
        user_id = "u-1";
        role_id = "r-1";
        scope_type = global_scope;
        client_id = none;
        location_id = none;
        created_by = "root";
        created_at = 0;
        revoked_at = none;
      }
      ∷ [];
  sessions = cookie_session ∷ [];
}

load_user_grants-permission_example :
    any (grant_has world signed_in "tag.read") (load_user_grants world signed_in "u-1")
    ≡ any
        (λ b.
          (str_eq b.user_id "u-1" && not (is_set b.revoked_at))
          && binding_permits world signed_in "tag.read" b)
        signed_in.role_bindings
load_user_grants-permission_example = load_user_grants-permission world signed_in "tag.read" "u-1"

abbrev browsing : HttpRequest
browsing = record visit { session_cookie = "cookie" }

abbrev resumed : Option Principal × Db
resumed = browser_session_principal world app 50 browsing signed_in

abbrev ada_principal : Principal
ada_principal = session_principal (session_grants world app 50 signed_in ada) ada ada_identity "s-1"
