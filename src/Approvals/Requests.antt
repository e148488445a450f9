-- ===== src/Approvals/Requests.antt =====
-- backend/app/api/endpoints/approvals.py: asking for approval, deciding, and granting by hand.
use sha.Base.{
  ℕ, String, Bool, true, not, ◌&&◌, Option, none, some, List, [], ◌∷◌, http, if◌then◌else◌, leb,
  ◌==◌, any, all, length, str_eq, string_eq, find_first, select_where, add_row, contains,
  has_duplicates,
}
use sha.Text.{trim_required}
use sha.Model.{
  Db, Action, TroubleshootingScope, RequestKind, RequestStatus, GrantStatus, ScopeState, EventType,
  Decision, approve, deny, revoke, Risk, Endpoint, ApprovalGrant, ApprovalRequest, field, text, end,
}
use sha.Model.Tx.{Tx, pure, gets, check, or_raise, raise_if, modify, ◌>>=◌, ◌>>◌}
use sha.Outside.{Outside}
use sha.Ids.{generate_prefixed_id}
use sha.Authz.{Principal, require_scope, audit_call, record_audit_event}
use sha.Controls.{Registry, require_control_action}
use sha.Approvals.Checks.{
  is_hardening, is_nil, minimum_ttl, maximum_ttl, map_result, normalize_control_ids,
  normalize_troubleshooting_scopes, normalize_actions, validate_request_shape,
  validate_manual_grant_shape, validate_grant_expiry,
}
use sha.Approvals.Grants.{create_audit_event}

abbrev pub endpoint_has_id : String → Endpoint → Bool
endpoint_has_id id endpoint = str_eq endpoint.endpoint_id id

-- `_normalize_endpoint_ids`
unfoldable pub normalize_endpoint_ids : List String → Tx (List String)
normalize_endpoint_ids raw_endpoint_ids = do
  endpoint_ids ← check (map_result (λ e. trim_required e "endpoint_id") raw_endpoint_ids)
  endpoints ← gets (λ db. db.endpoints)
  raise_if (not (all (λ id. any (endpoint_has_id id) endpoints) endpoint_ids))
      (http 422 "one or more endpoint_ids were not found")
  raise_if (has_duplicates endpoint_ids) (http 422 "duplicate endpoint_ids are not allowed")
  pure endpoint_ids

-- The only value of a set of texts that has just one.
only_client : List Endpoint → Option String
only_client [] = none
only_client (e ∷ es) =
    if all (λ x. str_eq x.client_id e.client_id) es then some e.client_id else none

only_location : List Endpoint → Option String
only_location [] = none
only_location (e ∷ es) =
    if all (λ x. str_eq x.location_id e.location_id) es then some e.location_id else none

-- `_approval_scope`
unfoldable pub approval_scope : List String → Principal → String → Tx (String × Option String)
unfolding only_client only_location
approval_scope endpoint_ids principal permission = do
  endpoints ← gets (λ db. select_where (λ e. contains e.endpoint_id endpoint_ids) db.endpoints)
  raise_if (not (length endpoints == length endpoint_ids))
      (http 422 "one or more endpoint_ids were not found")
  client_id ←
      or_raise (only_client endpoints) (http 422 "approval requests cannot cross client boundaries")
  check (require_scope principal permission (some client_id) (only_location endpoints) true)
  pure (client_id, only_location endpoints)

-- A loop whose body may raise.
unfoldable pub each : {A : Type 0} → (A → Tx (Unit {0})) → List A → Tx (Unit {0})
each f [] = pure tt
each f (x ∷ xs) = do f x; each f xs

unfoldable pub control_allowed : Registry → Endpoint → String → Action → Tx (Unit {0})
control_allowed registry endpoint control_id action = do
  control ← check (require_control_action registry control_id endpoint.platform action)
  pure tt

unfoldable pub endpoint_allows : Registry → List String → List Action → String → Tx (Unit {0})
endpoint_allows registry control_ids hardening_actions endpoint_id = do
  endpoints ← gets (λ db. db.endpoints)
  endpoint ←
      or_raise (find_first (endpoint_has_id endpoint_id) endpoints)
        (http 422 "one or more endpoint_ids were not found")
  each (λ control_id. each (control_allowed registry endpoint control_id) hardening_actions)
      control_ids

-- `_validate_control_actions_for_endpoints`
unfoldable pub validate_control_actions :
    Registry → List String → List Action → List String → Tx (Unit {0})
validate_control_actions registry endpoint_ids actions control_ids =
    let hardening_actions = select_where is_hardening actions in
    if is_nil hardening_actions
    then pure tt
    else each (endpoint_allows registry control_ids hardening_actions) endpoint_ids

-- The body of `POST /api/approval-requests`.
pub record RequestPayload : Type 0 where
  pub request_kind : RequestKind
  pub requested_actions : List Action
  pub control_ids : List String
  pub troubleshooting_scopes : List TroubleshootingScope
  pub endpoint_ids : List String
  pub requested_ttl_minutes : ℕ
  pub reason : String
  pub risk : Risk

pub record GrantPayload : Type 0 where
  pub allowed_actions : List Action
  pub control_ids : List String
  pub troubleshooting_scopes : List TroubleshootingScope
  pub endpoint_ids : List String
  pub reason : String
  pub expires_at : ℕ

abbrev pub risk_text : Risk → String
risk_text Risk.low = "low"
risk_text Risk.medium = "medium"
risk_text Risk.high = "high"
risk_text Risk.critical = "critical"

abbrev pub kind_text : RequestKind → String
kind_text RequestKind.hardening_change = "hardening_change"
kind_text RequestKind.elevated_troubleshooting = "elevated_troubleshooting"

abbrev pub decision_event : Decision → String
decision_event approve = "approval_approve"
decision_event deny = "approval_deny"
decision_event revoke = "approval_revoke"

unfoldable pub add_request : ApprovalRequest → Db → Db
add_request request db = record db { requests = add_row request db.requests }

unfoldable pub add_grant : ApprovalGrant → Db → Db
add_grant grant db = record db { grants = add_row grant db.grants }

module _ (outside : Outside) (registry : Registry) (now : ℕ) (principal : Principal) where
  -- `create_approval_request`, with what its `approval.request` dependency has let through.
  unfoldable pub create_approval_request : RequestPayload → Tx ApprovalRequest
  create_approval_request payload = do
    requested_actions ← check (normalize_actions payload.requested_actions)
    control_ids ← check (normalize_control_ids payload.control_ids)
    scopes ← check (normalize_troubleshooting_scopes payload.troubleshooting_scopes)
    reason ← check (trim_required payload.reason "reason")
    raise_if
        (not (
          leb minimum_ttl payload.requested_ttl_minutes
          && leb payload.requested_ttl_minutes maximum_ttl))
        (http 422 "requested_ttl_minutes must be between 15 and 240")
    check (validate_request_shape payload.request_kind requested_actions control_ids scopes)
    endpoint_ids ← normalize_endpoint_ids payload.endpoint_ids
    (client_id, location_id) ← approval_scope endpoint_ids principal "approval.request"
    validate_control_actions registry endpoint_ids requested_actions control_ids
    approval_request_id ← generate_prefixed_id outside "apr"
    let request : ApprovalRequest = record {
      approval_request_id = approval_request_id;
      scope_state = ScopeState.active;
      client_id = some client_id;
      location_id = location_id;
      endpoint_ids = endpoint_ids;
      request_kind = payload.request_kind;
      requested_actions = requested_actions;
      control_ids = control_ids;
      troubleshooting_scopes = scopes;
      requested_ttl_minutes = payload.requested_ttl_minutes;
      requested_by = principal.subject;
      reason = reason;
      risk = payload.risk;
      status = RequestStatus.pending;
      decision_by = none;
      decision_comment = none;
      decision_at = none;
      approval_grant_id = none;
      created_at = now;
      updated_at = now;
    }
    modify (add_request request)
    event ←
        create_audit_event outside approval_request_id EventType.requested principal.subject reason
          now
    record_audit_event outside now (record (audit_call "approval_requested" principal) {
      client_id = some client_id;
      location_id = location_id;
      target_type = some "approval_request";
      target_id = some approval_request_id;
      metadata =
          field "risk" (text (risk_text payload.risk))
            (field "request_kind" (text (kind_text payload.request_kind)) end);
    })
    pure request

  -- `create_approval_grant`
  unfoldable pub create_approval_grant : GrantPayload → Tx ApprovalGrant
  create_approval_grant payload = do
    allowed_actions ← check (normalize_actions payload.allowed_actions)
    control_ids ← check (normalize_control_ids payload.control_ids)
    scopes ← check (normalize_troubleshooting_scopes payload.troubleshooting_scopes)
    reason ← check (trim_required payload.reason "reason")
    raise_if (leb payload.expires_at now) (http 422 "expires_at must be in the future")
    expires_at ← check (validate_grant_expiry payload.expires_at now maximum_ttl)
    endpoint_ids ← normalize_endpoint_ids payload.endpoint_ids
    (client_id, location_id) ← approval_scope endpoint_ids principal "approval.grant"
    check (validate_manual_grant_shape allowed_actions control_ids scopes)
    validate_control_actions registry endpoint_ids allowed_actions control_ids
    approval_grant_id ← generate_prefixed_id outside "grant"
    let grant : ApprovalGrant = record {
      approval_grant_id = approval_grant_id;
      scope_state = ScopeState.active;
      client_id = some client_id;
      location_id = location_id;
      approval_request_id = none;
      endpoint_ids = endpoint_ids;
      allowed_actions = allowed_actions;
      control_ids = control_ids;
      troubleshooting_scopes = scopes;
      requested_by = principal.subject;
      approved_by = principal.subject;
      reason = reason;
      expires_at = expires_at;
      status = GrantStatus.approved;
      created_at = now;
      updated_at = now;
    }
    modify (add_grant grant)
    record_audit_event outside now (record (audit_call "approval_granted_manually" principal) {
      client_id = some client_id;
      location_id = location_id;
      target_type = some "approval_grant";
      target_id = some approval_grant_id;
    })
    pure grant
