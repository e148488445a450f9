-- ===== src/Checks/World.antt =====
-- A small world: one endpoint, one pending and one approved request with its grant, and one
-- action that is queued under the grant.
use Prim.Native.String.{◌++◌}
use sha.Base.{true, none, some, [], ◌∷◌, Result, ok, err}
use sha.Model.{
  Db, apply_control, hardening_change, RequestStatus, GrantStatus, Risk, queued, ScopeState,
  EndpointStatus, linux, device, Endpoint, ApprovalRequest, ApprovalGrant, ResponseAction,
}
use sha.Outside.{Outside}
use sha.Authz.{Principal, synthetic_global_grant, Role, AuthMethod}
use sha.Controls.{Registry}
use sha.Approvals.{decimal}

abbrev pub world : Outside
world = record {
  uuid = decimal;
  id_le = λ a b. true;
  json_size = λ fields. 2;
  json_text = λ fields. "{}";
  decode_base64 = λ s. none;
  encode_base64 = λ bytes. "";
  derived_key = λ key purpose. key;
  hmac_text = λ key s. s;
  hmac_base64 = λ key s. s;
  url_origin = λ url. url;
  lower = λ s. s;
  casefold = λ s. s;
  sha256_hex = λ s. "#" ++ s;
  hmac_hex = λ key domain id secret. secret;
}

abbrev pub controls : Registry
controls id = some (record { platform = linux; supported_actions = apply_control ∷ [] })

abbrev pub reviewer : Principal
reviewer = record {
  subject = "ada";
  display_name = "Ada";
  role = Role.operator;
  auth_method = AuthMethod.operator_token;
  user_id = none;
  identity_id = none;
  session_id = none;
  grants =
      synthetic_global_grant "operator"
        ("approval.decide" ∷ "approval.request" ∷ "response_action.create" ∷ [])
      ∷ [];
  endpoint_id = none;
  credential_id = none;
  enrollment_token_id = none;
}

abbrev pub agent : Principal
agent = record {
  subject = "ep-1";
  display_name = "ep-1";
  role = Role.agent;
  auth_method = AuthMethod.device_credential;
  user_id = none;
  identity_id = none;
  session_id = none;
  grants = [];
  endpoint_id = some "ep-1";
  credential_id = some "dc-1";
  enrollment_token_id = none;
}

abbrev pub host : Endpoint
host = record {
  endpoint_id = "ep-1";
  agent_fingerprint = "f";
  hostname = "h";
  platform = linux;
  platform_version = none;
  platform_profile = none;
  agent_version = "1";
  protocol_version = "sha-agent-v1";
  architecture = none;
  installation_id = some "in-1";
  credential_mode = device;
  enrollment_token_id = none;
  client_id = "cl";
  location_id = "lo";
  tenant_id = none;
  site_id = none;
  status = EndpointStatus.active;
  connectivity_status = none;
  declared_capabilities = some ("apply_control" ∷ []);
  capability_manifest = none;
  execution_hooks = none;
  last_seen_at = 0;
  last_heartbeat_at = none;
  created_at = 0;
  updated_at = 0;
}

abbrev pub asked : ApprovalRequest
asked = record {
  approval_request_id = "apr-1";
  scope_state = ScopeState.active;
  client_id = some "cl";
  location_id = some "lo";
  endpoint_ids = "ep-1" ∷ [];
  request_kind = hardening_change;
  requested_actions = apply_control ∷ [];
  control_ids = "c" ∷ [];
  troubleshooting_scopes = [];
  requested_ttl_minutes = 60;
  requested_by = "bob";
  reason = "r";
  risk = Risk.low;
  status = RequestStatus.pending;
  decision_by = none;
  decision_comment = none;
  decision_at = none;
  approval_grant_id = none;
  created_at = 0;
  updated_at = 0;
}

abbrev pub allowed : ApprovalRequest
allowed = record asked {
  approval_request_id = "apr-2";
  status = RequestStatus.approved;
  approval_grant_id = some "gr-2";
}

abbrev pub allowance : ApprovalGrant
allowance = record {
  approval_grant_id = "gr-2";
  scope_state = ScopeState.active;
  client_id = some "cl";
  location_id = some "lo";
  approval_request_id = some "apr-2";
  endpoint_ids = "ep-1" ∷ [];
  allowed_actions = apply_control ∷ [];
  control_ids = "c" ∷ [];
  troubleshooting_scopes = [];
  requested_by = "bob";
  approved_by = "ada";
  reason = "r";
  expires_at = 5000;
  status = GrantStatus.approved;
  created_at = 0;
  updated_at = 0;
}

abbrev pub task : ResponseAction
task = record {
  response_action_id = "act-1";
  endpoint_id = "ep-1";
  approval_grant_id = "gr-2";
  action = apply_control;
  control_id = some "c";
  troubleshooting_scope = none;
  idempotency_key = "k";
  requested_by = "ada";
  reason = "r";
  status = queued;
  lease_token_hash = none;
  lease_expires_at = none;
  leased_at = none;
  attempt_count = 0;
  result_summary = none;
  created_at = 1;
  updated_at = 1;
  completed_at = none;
}

abbrev pub start : Db
start = record {
  users = [];
  identities = [];
  roles = [];
  role_permissions = [];
  role_bindings = [];
  sessions = [];
  clients = [];
  locations = [];
  endpoints = host ∷ [];
  profiles = [];
  tags = [];
  tag_assignments = [];
  saved_views = [];
  view_versions = [];
  dynamic_groups = [];
  tokens = [];
  credentials = [];
  redemptions = [];
  requests = asked ∷ allowed ∷ [];
  request_events = [];
  grants = allowance ∷ [];
  actions = task ∷ [];
  audit = [];
  draws = 0;
}

-- The database that a run leaves.
abbrev pub left_by {ℓ} : {A : Type ℓ} → Result (A × Db) → Db → Db
left_by r default = elim r [ ok (a, db) ↦ db | err e ↦ default ]
