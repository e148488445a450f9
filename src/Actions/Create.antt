-- ===== src/Actions/Create.antt =====
-- `create_response_action` of backend/app/api/endpoints/response_actions.py.
use sha.Base.{
  ℕ, String, Bool, true, not, ◌&&◌, ◌||◌, Option, none, some, http, if◌then◌else◌, any, str_eq,
  sql_eq, find_first, add_row,
}
use sha.Text.{trim_required}
use sha.Model.{
  Db, Action, action_text, TroubleshootingScope, queued, Endpoint, ApprovalGrant, ResponseAction,
  scope_is_active, field, text, end,
}
use sha.Model.Tx.{Tx, pure, raise, gets, check, or_raise, raise_if, modify, ◌>>=◌, ◌>>◌}
use sha.Outside.{Outside}
use sha.Ids.{generate_prefixed_id}
use sha.Authz.{Principal, clause_holds, scope_clause, audit_call, record_audit_event}
use sha.Controls.{Registry, require_control_action}
use sha.Approvals.{is_hardening}
use sha.Approvals.{sync_expired_grants}
use sha.Approvals.{endpoint_has_id}
use sha.Actions.Shape.{
  ActionShape, normalize_action_shape, parse_declared_capabilities, declares_action_capability,
  same_action_request, validate_grant_scope,
}

-- The body of `POST /api/response-actions`, less the field that the handler does not read.
pub record CreatePayload : Type 0 where
  pub endpoint_id : String
  pub approval_grant_id : String
  pub action : Action
  pub control_id : Option String
  pub troubleshooting_scope : Option TroubleshootingScope
  pub idempotency_key : Option String
  pub reason : String

abbrev pub visible_endpoint : Principal → String → String → Endpoint → Bool
visible_endpoint principal permission id endpoint =
    endpoint_has_id id endpoint
    && clause_holds (scope_clause principal permission) (some endpoint.client_id)
        (some endpoint.location_id)

-- `location_id IS NULL OR location_id = ...`
abbrev location_covers : Option String → String → Bool
location_covers none id = true
location_covers (some location_id) id = str_eq location_id id

abbrev pub usable_grant : String → Endpoint → ApprovalGrant → Bool
usable_grant id endpoint grant =
    str_eq grant.approval_grant_id id
    && (scope_is_active grant.scope_state
        && (sql_eq grant.client_id endpoint.client_id
            && location_covers grant.location_id endpoint.location_id))

-- The row that the unique constraint on endpoint and key lets through once.
abbrev pub has_key : String → String → ResponseAction → Bool
has_key endpoint_id key action =
    str_eq action.endpoint_id endpoint_id && str_eq action.idempotency_key key

abbrev pub action_clashes : ResponseAction → ResponseAction → Bool
action_clashes new old =
    str_eq old.response_action_id new.response_action_id
    || has_key new.endpoint_id new.idempotency_key old

unfoldable pub add_action : ResponseAction → Db → Db
add_action action db = record db { actions = add_row action db.actions }

unfoldable pub key_or_fresh : Outside → Option String → Tx String
key_or_fresh outside none = generate_prefixed_id outside "idem"
key_or_fresh outside (some key) = check (trim_required key "idempotency_key")

abbrev bound_key : String
bound_key = "idempotency_key is already bound to a different response action"

-- `require_control_action`, for a hardening action.
unfoldable pub check_control : Registry → Endpoint → Action → Option String → Tx (Unit {0})
check_control registry endpoint action none = pure tt
check_control registry endpoint action (some control_id) =
    if is_hardening action
    then (do
      control ← check (require_control_action registry control_id endpoint.platform action)
      pure tt)
    else pure tt

unfoldable pub queued_action :
    String → String → String → ActionShape → String → String → String → ℕ → ResponseAction
queued_action id endpoint_id approval_grant_id (action, control_id, scope) key requested_by reason
      now =
    record {
      response_action_id = id;
      endpoint_id = endpoint_id;
      approval_grant_id = approval_grant_id;
      action = action;
      control_id = control_id;
      troubleshooting_scope = scope;
      idempotency_key = key;
      requested_by = requested_by;
      reason = reason;
      status = queued;
      lease_token_hash = none;
      lease_expires_at = none;
      leased_at = none;
      attempt_count = 0;
      result_summary = none;
      created_at = now;
      updated_at = now;
      completed_at = none;
    }

module _ (outside : Outside) (registry : Registry) (now : ℕ) (principal : Principal) where
  -- The row that the key is bound to is the answer where it stands for the same request.
  unfoldable pub replay : Option ResponseAction → String → ActionShape → String → Tx ResponseAction
  replay none approval_grant_id shape reason = raise (http 409 bound_key)
  replay (some existing) approval_grant_id shape reason =
      if same_action_request existing approval_grant_id shape principal.subject reason
      then pure existing
      else raise (http 409 bound_key)

  -- The row and its audit event.
  unfoldable pub audited_insert : Endpoint → ResponseAction → Tx ResponseAction
  audited_insert endpoint row = do
    modify (add_action row)
    record_audit_event outside now (record (audit_call "response_action_created" principal) {
      client_id = some endpoint.client_id;
      location_id = some endpoint.location_id;
      endpoint_id = some endpoint.endpoint_id;
      target_type = some "response_action";
      target_id = some row.response_action_id;
      metadata = field "action" (text (action_text row.action)) end;
    })
    pure row

  -- The insertion under a savepoint: a row that breaks a unique constraint is not kept.
  unfoldable pub insert_action :
      Endpoint → String → String → ActionShape → String → String → Tx ResponseAction
  insert_action endpoint endpoint_id approval_grant_id shape key reason = do
    id ← generate_prefixed_id outside "act"
    actions ← gets (λ db. db.actions)
    if any
          (action_clashes
            (queued_action id endpoint_id approval_grant_id shape key principal.subject reason now))
          actions
        then replay (find_first (has_key endpoint_id key) actions) approval_grant_id shape reason
        else audited_insert endpoint
            (queued_action id endpoint_id approval_grant_id shape key principal.subject reason now)

  unfoldable pub replay_or_insert :
      Option ResponseAction
      → Endpoint
      → String
      → String
      → ActionShape
      → String
      → String
      → Tx ResponseAction
  replay_or_insert none endpoint endpoint_id approval_grant_id shape key reason =
      insert_action endpoint endpoint_id approval_grant_id shape key reason
  replay_or_insert (some existing) endpoint endpoint_id approval_grant_id shape key reason =
      replay (some existing) approval_grant_id shape reason

  -- What happens inside `session.begin()`, with the normalised payload.
  unfoldable pub create_action : String → String → ActionShape → String → String → Tx ResponseAction
  create_action endpoint_id approval_grant_id shape key reason = do
    sync_expired_grants outside now
    endpoint ← gets (λ db.
        find_first (visible_endpoint principal "response_action.create" endpoint_id) db.endpoints)
    endpoint ← or_raise endpoint (http 404 "endpoint not found")
    check_control registry endpoint shape.0 shape.1
    raise_if
        (not (declares_action_capability (parse_declared_capabilities endpoint) shape.0 shape.1))
        (http 422 "endpoint has not declared action capability")
    grant ← gets (λ db. find_first (usable_grant approval_grant_id endpoint) db.grants)
    grant ← or_raise grant (http 404 "approval grant not found")
    check (validate_grant_scope grant endpoint_id shape now)
    existing ← gets (λ db. find_first (has_key endpoint_id key) db.actions)
    replay_or_insert existing endpoint endpoint_id approval_grant_id shape key reason

  -- The whole handler, with what its `response_action.create` dependency has let through.
  unfoldable pub create_response_action : CreatePayload → Tx ResponseAction
  create_response_action payload = do
    endpoint_id ← check (trim_required payload.endpoint_id "endpoint_id")
    approval_grant_id ← check (trim_required payload.approval_grant_id "approval_grant_id")
    shape ←
        check
          (normalize_action_shape payload.action payload.control_id payload.troubleshooting_scope)
    reason ← check (trim_required payload.reason "reason")
    key ← key_or_fresh outside payload.idempotency_key
    create_action endpoint_id approval_grant_id shape key reason
