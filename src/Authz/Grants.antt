-- ===== src/Authz/Grants.antt =====
-- backend/app/authorization.py: what a principal's grants permit.
use Prim.Native.String.{◌++◌}
use sha.Base.{
  String, Bool, true, false, ◌&&◌, ◌||◌, not, Option, none, some, List, Result, ok, err, http,
  if◌then◌else◌, contains, any, sql_eq, string_eq,
}

pub data ScopeType : Type 0 where
  global client location : ScopeType

abbrev pub is_global : ScopeType → Bool
is_global global = true
is_global _ = false

pub record ScopeGrant : Type 0 where
  pub binding_id : String
  pub role_key : String
  pub scope_type : ScopeType
  pub client_id : Option String
  pub location_id : Option String
  pub permissions : List String

-- The test of the scope, for a grant that holds the permission.
unfoldable pub covers : ScopeType → ScopeGrant → Option String → Option String → Bool
covers global g client_id location_id = true
covers client g none location_id = false
covers client g (some c) location_id = sql_eq g.client_id c
covers location g none location_id = false
covers location g (some c) none = false
covers location g (some c) (some l) = sql_eq g.client_id c && sql_eq g.location_id l

-- `ScopeGrant.permits`
unfoldable pub permits : ScopeGrant → String → Option String → Option String → Bool
unfolding covers
permits g permission client_id location_id =
    if not (contains permission g.permissions)
    then false
    else covers g.scope_type g client_id location_id

-- `synthetic_global_grant`
unfoldable pub synthetic_global_grant : String → List String → ScopeGrant
synthetic_global_grant role_key permissions = record {
  binding_id = "synthetic:" ++ role_key;
  role_key = role_key;
  scope_type = global;
  client_id = none;
  location_id = none;
  permissions = permissions;
}

pub data Role : Type 0 where
  operator readonly human agent enrollment : Role

pub data AuthMethod : Type 0 where
  development_open operator_token readonly_token agent_token device_credential enrollment_token
        external_proxy oidc_session :
      AuthMethod

abbrev pub method_text : AuthMethod → String
method_text development_open = "development_open"
method_text operator_token = "operator_token"
method_text readonly_token = "readonly_token"
method_text agent_token = "agent_token"
method_text device_credential = "device_credential"
method_text enrollment_token = "enrollment_token"
method_text external_proxy = "external_proxy"
method_text oidc_session = "oidc_session"

abbrev pub is_device_credential : AuthMethod → Bool
is_device_credential device_credential = true
is_device_credential _ = false

-- `Principal` of backend/app/auth.py; `audit_actor` is its subject.
pub record Principal : Type 0 where
  pub subject : String
  pub display_name : String
  pub role : Role
  pub auth_method : AuthMethod
  pub user_id : Option String
  pub identity_id : Option String
  pub session_id : Option String
  pub grants : List ScopeGrant
  pub endpoint_id : Option String
  pub credential_id : Option String
  pub enrollment_token_id : Option String

unfoldable pub has_permission : Principal → String → Bool
has_permission principal permission = any (λ g. contains permission g.permissions) principal.grants

unfoldable pub permits_scope : Principal → String → Option String → Option String → Bool
permits_scope principal permission client_id location_id =
    any (λ g. permits g permission client_id location_id) principal.grants

abbrev pub is_machine : Role → Bool
is_machine agent = true
is_machine enrollment = true
is_machine _ = false

-- The dependency that `require_permission` makes, for a request that has a principal.
unfoldable pub require_permission : String → Principal → Result Principal
require_permission permission principal =
    if is_machine principal.role || not (has_permission principal permission)
    then err (http 403 "permission denied")
    else ok principal

unfoldable pub require_global_permission : Principal → String → Result (Unit {0})
require_global_permission principal permission =
    if not (any (λ g. is_global g.scope_type && contains permission g.permissions) principal.grants)
    then err (http 403 "global permission is required")
    else ok tt

unfoldable pub require_scope :
    Principal → String → Option String → Option String → Bool → Result (Unit {0})
require_scope principal permission client_id location_id conceal =
    if permits_scope principal permission client_id location_id
    then ok tt
    else if conceal
    then err (http 404 "resource not found")
    else err (http 403 "permission denied for scope")

-- `enforce_device_endpoint` of backend/app/auth.py.
unfoldable pub enforce_device_endpoint : Principal → String → Result (Unit {0})
enforce_device_endpoint principal endpoint_id =
    if is_device_credential principal.auth_method && not (sql_eq principal.endpoint_id endpoint_id)
    then err (http 403 "device credential is not authorized for this endpoint")
    else ok tt
