-- ===== src/Gate/Sessions.antt =====
-- backend/app/auth.py: the principal of a browser session and of a device credential, with the
-- grants of a user from backend/app/authorization.py. Each lookup is a transaction of its own,
-- which commits whatever the request comes to afterwards.
use Prim.Native.String.{◌++◌}
use sha.Base.{
  ℕ, ◌+◌, ◌*◌, min, String, Bool, true, false, not, ◌&&◌, ◌||◌, Option, none, some, List, [], ◌∷◌,
  map, leb, ltb, if◌then◌else◌, str_eq, find_first, select_where, update_first, order_by,
}
use sha.Text.{is_empty}
use sha.Model.{
  Db, User, OidcIdentity, RoleRow, UserRoleBinding, ResourceScope, global_scope, client_scope,
  location_scope, BrowserSession, user_is_active, user_is_disabled, DeviceCredential, Endpoint,
  credential_is_active, mode_is_device,
}
use sha.Outside.{Outside}
use sha.Authz.{ScopeType, ScopeGrant, Principal, Role, AuthMethod}
use sha.Approvals.{endpoint_has_id}
use sha.Identity.{is_set, is_past, credential_has_id, write_credential, device_secret_hash}
use sha.Protocol.{LegacyReporterPolicy}
use sha.Gate.Paths.{HttpRequest, is_reading, rstrip_slash}

-- What the application's state holds for the middleware.
pub record AppState : Type 0 where
  pub api_token : Option String
  pub agent_bearer : Option String
  pub readonly_api_token : Option String
  pub external_auth_trusted_token : Option String
  pub development_open : Bool
  pub credential_hmac_key : Option String
  pub browser_session_key : Option String
  pub oidc_configured : Bool
  pub oidc_issuer : Option String
  pub session_idle_minutes : ℕ
  pub public_base_url : Option String
  pub legacy_reporter_policy : Option LegacyReporterPolicy

-- A lookup: what it finds, and the database after its own commit.
abbrev pub Lookup {ℓ} : Type ℓ → Type ℓ
Lookup A = Db → A × Db

abbrev pub scope_type_of : ResourceScope → ScopeType
scope_type_of global_scope = ScopeType.global
scope_type_of client_scope = ScopeType.client
scope_type_of location_scope = ScopeType.location

module _ (outside : Outside) where
  -- The bindings of a user that are not revoked, in the order of their identifiers.
  unfoldable pub bindings_of : Db → String → List UserRoleBinding
  bindings_of db user_id =
      order_by (λ a b. outside.id_le a.binding_id b.binding_id)
        (select_where (λ b. str_eq b.user_id user_id && not (is_set b.revoked_at)) db.role_bindings)

  -- The permissions of a role.
  unfoldable pub permissions_of : Db → String → List String
  permissions_of db role_id =
      map (λ r. r.permission) (select_where (λ r. str_eq r.role_id role_id) db.role_permissions)

  abbrev pub grant_with : UserRoleBinding → Option RoleRow → List String → List ScopeGrant
  grant_with b none permissions = []
  grant_with b (some role) [] = []
  grant_with b (some role) (p ∷ ps) =
      record {
        binding_id = b.binding_id;
        role_key = role.key;
        scope_type = scope_type_of b.scope_type;
        client_id = b.client_id;
        location_id = b.location_id;
        permissions = p ∷ ps;
      }
      ∷ []

  -- The grant of one binding: the joins leave none where the role or a permission of it is missing.
  unfoldable pub grants_of_binding : Db → UserRoleBinding → List ScopeGrant
  grants_of_binding db b =
      grant_with b (find_first (λ r. str_eq r.role_id b.role_id) db.roles)
        (permissions_of db b.role_id)

  unfoldable pub concat_grants : Db → List UserRoleBinding → List ScopeGrant
  concat_grants db [] = []
  concat_grants db (b ∷ bs) =
      let rest = concat_grants db bs in sha.Base.◌++◌ (grants_of_binding db b) rest

  -- `load_user_grants`
  unfoldable pub load_user_grants : Db → String → List ScopeGrant
  load_user_grants db user_id = concat_grants db (bindings_of db user_id)

  -- `keyed_hash` and `csrf_token` of backend/app/browser_auth.py
  unfoldable pub keyed_hash : String → String → String → String
  keyed_hash master_key purpose value =
      outside.hmac_text (outside.derived_key master_key purpose) value

  unfoldable pub csrf_token : String → String → String
  csrf_token master_key session_secret =
      outside.hmac_base64 (outside.derived_key master_key "csrf-token") session_secret

-- Whether a session still admits its user.
unfoldable pub session_is_open : ℕ → BrowserSession → Bool
session_is_open now s =
    str_eq s.hash_key_id "primary"
    && (not (is_set s.revoked_at)
        && (not (leb s.idle_expires_at now) && not (leb s.absolute_expires_at now)))

abbrev other_issuer : Option String → OidcIdentity → Bool
other_issuer none identity = false
other_issuer (some issuer) identity = not (str_eq identity.issuer issuer)

-- The user and the identity of a session, where they may use it.
unfoldable pub session_owner :
    Option String → Option User → Option OidcIdentity → Option (User × OidcIdentity)
session_owner issuer none identity = none
session_owner issuer (some user) none = none
session_owner issuer (some user) (some identity) =
    if user_is_disabled user.status || other_issuer issuer identity
    then none
    else some (user, identity)

-- The session's row after it was used: its idle time starts again, within its absolute time.
unfoldable pub touched_session : ℕ → ℕ → BrowserSession → BrowserSession
touched_session now idle_minutes s = record s {
  last_seen_at = now;
  idle_expires_at = min (now + 60 * idle_minutes) s.absolute_expires_at;
  updated_at = now;
}

abbrev pub has_token_hash : String → BrowserSession → Bool
has_token_hash hash s = str_eq s.token_hash hash

unfoldable pub touch_session : ℕ → ℕ → String → Db → Db
touch_session now idle_minutes hash db = record db {
  sessions = update_first (has_token_hash hash) (touched_session now idle_minutes) db.sessions;
}

unfoldable pub session_principal : List ScopeGrant → User → OidcIdentity → String → Principal
session_principal grants user identity session_id = record {
  subject = "user:" ++ user.user_id;
  display_name = user.display_name;
  role = Role.human;
  auth_method = AuthMethod.oidc_session;
  user_id = some user.user_id;
  identity_id = some identity.identity_id;
  session_id = some session_id;
  grants = grants;
  endpoint_id = none;
  credential_id = none;
  enrollment_token_id = none;
}

unfoldable pub device_principal : Endpoint → DeviceCredential → Principal
device_principal endpoint credential = record {
  subject = "device:" ++ endpoint.endpoint_id;
  display_name = endpoint.hostname;
  role = Role.agent;
  auth_method = AuthMethod.device_credential;
  user_id = none;
  identity_id = none;
  session_id = none;
  grants = [];
  endpoint_id = some endpoint.endpoint_id;
  credential_id = some credential.credential_id;
  enrollment_token_id = none;
}

-- The endpoint of a credential that is good, where it is in device mode.
unfoldable pub device_endpoint : Option Endpoint → Option Endpoint
device_endpoint none = none
device_endpoint (some endpoint) =
    if mode_is_device endpoint.credential_mode then some endpoint else none

-- Whether a credential admits the secret that was supplied.
unfoldable pub credential_admits : ℕ → String → DeviceCredential → Bool
credential_admits now supplied_hash c =
    str_eq supplied_hash c.secret_hash
    && (credential_is_active c.status
        && (str_eq c.hash_key_id "primary" && not (is_past now c.expires_at)))

unfoldable pub used_credential : ℕ → DeviceCredential → DeviceCredential
used_credential now c = record c { last_used_at = some now; updated_at = now }

module _ (outside : Outside) (app : AppState) (now : ℕ) where
  -- The grants of a user that is active.
  unfoldable pub session_grants : Db → User → List ScopeGrant
  session_grants db user =
      if user_is_active user.status then load_user_grants outside db user.user_id else []

  unfoldable pub admit_owner :
      String → BrowserSession → Option (User × OidcIdentity) → Lookup (Option Principal)
  admit_owner hash s none db = (none, db)
  admit_owner hash s (some (user, identity)) db = (
    some (session_principal (session_grants db user) user identity s.session_id),
    touch_session now app.session_idle_minutes hash db,
  )

  unfoldable pub admit_session : String → Option BrowserSession → Lookup (Option Principal)
  admit_session hash none db = (none, db)
  admit_session hash (some s) db =
      if session_is_open now s
      then admit_owner hash s
          (session_owner app.oidc_issuer (find_first (λ u. str_eq u.user_id s.user_id) db.users)
            (find_first (λ i. str_eq i.identity_id s.identity_id) db.identities))
          db
      else (none, db)

  unfoldable pub session_by_key : Option String → String → Lookup (Option Principal)
  session_by_key none cookie db = (none, db)
  session_by_key (some key) cookie db =
      let hash = keyed_hash outside key "session-token" cookie in
      admit_session hash (find_first (has_token_hash hash) db.sessions) db

  -- `_browser_session_principal`
  unfoldable pub browser_session_principal : HttpRequest → Lookup (Option Principal)
  browser_session_principal request db =
      if is_empty request.session_cookie
      then (none, db)
      else session_by_key app.browser_session_key request.session_cookie db

  -- `_origin_matches`
  unfoldable pub origin_matches : HttpRequest → Option String → Bool
  origin_matches request none = false
  origin_matches request (some base) =
      let expected = rstrip_slash (outside.url_origin base) in
      if is_empty base
      then false
      else if not (is_empty request.origin)
      then str_eq (rstrip_slash request.origin) expected
      else if is_empty request.referer
      then false
      else str_eq (rstrip_slash (outside.url_origin request.referer)) expected

  unfoldable pub csrf_supplied : HttpRequest → Option String → Bool
  csrf_supplied request none = false
  csrf_supplied request (some key) =
      if is_empty request.csrf
      then false
      else origin_matches request app.public_base_url
        && str_eq request.csrf (csrf_token outside key request.session_cookie)

  -- `_browser_csrf_valid`, for a request whose session was found.
  unfoldable pub browser_csrf_valid : HttpRequest → Bool
  browser_csrf_valid request =
      if is_reading request
      then true
      else if str_eq (outside.lower request.sec_fetch_site) "cross-site"
      then false
      else csrf_supplied request app.browser_session_key

  unfoldable pub admit_device : DeviceCredential → Option Endpoint → Lookup (Option Principal)
  admit_device c none db = (none, db)
  admit_device c (some endpoint) db = (
    some (device_principal endpoint c),
    write_credential (credential_has_id c.credential_id) (used_credential now) db,
  )

  unfoldable pub admit_credential : String → Option DeviceCredential → Lookup (Option Principal)
  admit_credential supplied_hash none db = (none, db)
  admit_credential supplied_hash (some c) db =
      if credential_admits now supplied_hash c
      then admit_device c
          (device_endpoint (find_first (endpoint_has_id c.endpoint_id) db.endpoints)) db
      else (none, db)

  -- `_authenticate_device_principal`, for the key that is configured.
  unfoldable pub authenticate_device : Option String → String → String → Lookup (Option Principal)
  authenticate_device none credential_id secret db = (none, db)
  authenticate_device (some key) credential_id secret db =
      admit_credential (device_secret_hash outside key credential_id secret)
        (find_first (credential_has_id credential_id) db.credentials) db
