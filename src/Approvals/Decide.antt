-- ===== src/Approvals/Decide.antt =====
-- `decide_approval_request` of backend/app/api/endpoints/approvals.py.
use sha.Base.{
  ℕ, String, Bool, true, false, not, ◌&&◌, ◌||◌, Option, none, some, List, http, ltb, ◌==◌, any,
  length, str_eq, sql_eq, find_first, select_where, update_where, order_by,
}
use sha.Text.{trim_required}
use sha.Model.{
  Db, RequestStatus, GrantStatus, ScopeState, EventType, Decision, approve, deny, revoke,
  ApprovalGrant, ApprovalRequest, ApprovalRequestEvent, scope_is_active, is_pending, is_approved,
  grant_is_approved,
}
use sha.Model.Tx.{Tx, pure, gets, check, or_raise, raise_if, modify, ◌>>=◌, ◌>>◌}
use sha.Outside.{Outside}
use sha.Ids.{generate_prefixed_id}
use sha.Authz.{Principal, clause_holds, scope_clause, audit_call, record_audit_event}
use sha.Approvals.Checks.{validate_grant_expiry}
use sha.Approvals.Grants.{create_audit_event, sync_expired_grants, request_has_id}
use sha.Approvals.Requests.{add_grant, decision_event}

-- `sql_eq` against a column that the other side may lack as well.
abbrev pub links_to : String → ApprovalGrant → Bool
links_to approval_request_id grant = sql_eq grant.approval_request_id approval_request_id

-- The rows that an `UPDATE` on one request in one status selects.
abbrev pub selects : String → (RequestStatus → Bool) → ApprovalRequest → Bool
selects id in_status request = request_has_id id request && in_status request.status

-- `.values(status=..., decision_by=..., decision_comment=..., decision_at=..., updated_at=...)`
unfoldable pub decided : RequestStatus → String → String → ℕ → ApprovalRequest → ApprovalRequest
decided status actor comment now request = record request {
  status = status;
  decision_by = some actor;
  decision_comment = some comment;
  decision_at = some now;
  updated_at = now;
}

unfoldable pub update_requests :
    (ApprovalRequest → Bool) → (ApprovalRequest → ApprovalRequest) → Db → Db
update_requests test change db = record db { requests = update_where test change db.requests }

unfoldable pub revoke_grants : String → ℕ → Db → Db
revoke_grants approval_request_id now db = record db {
  grants =
      update_where (λ g. links_to approval_request_id g && grant_is_approved g.status)
        (λ g. record g { status = GrantStatus.revoked; updated_at = now }) db.grants;
}

abbrev wrong_state : String
wrong_state = "approval request is not in a state that allows this decision"

abbrev is_given : Option ℕ → Bool
is_given none = false
is_given (some t) = true

-- The new grant of an approval.
unfoldable pub granted : String → ApprovalRequest → String → ℕ → ℕ → ApprovalGrant
granted approval_grant_id request decided_by expires_at now = record {
  approval_grant_id = approval_grant_id;
  scope_state = ScopeState.active;
  client_id = request.client_id;
  location_id = request.location_id;
  approval_request_id = some request.approval_request_id;
  endpoint_ids = request.endpoint_ids;
  allowed_actions = request.requested_actions;
  control_ids = request.control_ids;
  troubleshooting_scopes = request.troubleshooting_scopes;
  requested_by = request.requested_by;
  approved_by = decided_by;
  reason = request.reason;
  expires_at = expires_at;
  status = GrantStatus.approved;
  created_at = now;
  updated_at = now;
}

-- `uq_approval_grants_request_id`, and the primary key.
abbrev grant_clashes : ApprovalGrant → String → ApprovalGrant → Bool
grant_clashes new approval_request_id old =
    str_eq old.approval_grant_id new.approval_grant_id || links_to approval_request_id old

module _ (outside : Outside) (now : ℕ) (decided_by comment : String) where
  -- An `UPDATE` that must find exactly one row.
  unfoldable pub update_one :
      String → (RequestStatus → Bool) → (ApprovalRequest → ApprovalRequest) → Tx (Unit {0})
  update_one id in_status change = do
    matched ← gets (λ db. select_where (selects id in_status) db.requests)
    modify (update_requests (selects id in_status) change)
    raise_if (not (length matched == 1)) (http 409 wrong_state)

  -- The branch for `approve`.
  unfoldable pub approve_request : ApprovalRequest → Option ℕ → Tx (Unit {0})
  approve_request request expires_at = do
    raise_if (not (is_pending request.status)) (http 409 wrong_state)
    wanted ← or_raise expires_at (http 422 "expires_at is required for approve decisions")
    expiry ← check (validate_grant_expiry wanted now request.requested_ttl_minutes)
    approval_grant_id ← generate_prefixed_id outside "grant"
    update_one request.approval_request_id is_pending (λ r.
        record (decided RequestStatus.approved decided_by comment now r) {
          approval_grant_id = some approval_grant_id;
        })
    grants ← gets (λ db. db.grants)
    raise_if
        (any
          (grant_clashes (granted approval_grant_id request decided_by expiry now)
            request.approval_request_id)
          grants)
        (http 409 wrong_state)
    modify (add_grant (granted approval_grant_id request decided_by expiry now))
    event ←
        create_audit_event outside request.approval_request_id EventType.approved decided_by comment
          now
    pure tt

  -- The branch for `deny`.
  unfoldable pub deny_request : ApprovalRequest → Option ℕ → Tx (Unit {0})
  deny_request request expires_at = do
    raise_if (not (is_pending request.status)) (http 409 wrong_state)
    raise_if (is_given expires_at) (http 422 "expires_at is not allowed for deny decisions")
    update_one request.approval_request_id is_pending
        (decided RequestStatus.denied decided_by comment now)
    event ←
        create_audit_event outside request.approval_request_id EventType.denied decided_by comment
          now
    pure tt

  -- The branch for `revoke`.
  unfoldable pub revoke_request : ApprovalRequest → Option ℕ → Tx (Unit {0})
  revoke_request request expires_at = do
    raise_if (not (is_approved request.status)) (http 409 wrong_state)
    raise_if (is_given expires_at) (http 422 "expires_at is not allowed for revoke decisions")
    update_one request.approval_request_id is_approved
        (decided RequestStatus.revoked decided_by comment now)
    modify (revoke_grants request.approval_request_id now)
    event ←
        create_audit_event outside request.approval_request_id EventType.revoked decided_by comment
          now
    pure tt

  unfoldable pub decide_branch : Decision → ApprovalRequest → Option ℕ → Tx (Unit {0})
  decide_branch approve = approve_request
  decide_branch deny = deny_request
  decide_branch revoke = revoke_request

-- The row that the query with `scope_state`, the identifier and the principal's clause finds.
abbrev pub visible_request : Principal → String → ApprovalRequest → Bool
visible_request principal id request =
    request_has_id id request
    && (scope_is_active request.scope_state
        && clause_holds (scope_clause principal "approval.decide") request.client_id
            request.location_id)

-- `order_by(created_at, approval_event_id)`
abbrev event_before : Outside → ApprovalRequestEvent → ApprovalRequestEvent → Bool
event_before outside a b =
    ltb a.created_at b.created_at
    || (a.created_at == b.created_at && outside.id_le a.approval_event_id b.approval_event_id)

module _ (outside : Outside) (now : ℕ) (principal : Principal) where
  -- `_collect_request_events` for one request.
  unfoldable pub request_events_of : String → Db → List ApprovalRequestEvent
  request_events_of id db =
      order_by (event_before outside)
        (select_where (λ e. str_eq e.approval_request_id id) db.request_events)

  -- The whole handler: the row as it is afterwards, with its events.
  unfoldable pub decide_approval_request :
      String → Decision → String → Option ℕ → Tx (ApprovalRequest × List ApprovalRequestEvent)
  decide_approval_request raw_request_id decision raw_comment expires_at = do
    approval_request_id ← check (trim_required raw_request_id "approval_request_id")
    comment ← check (trim_required raw_comment "decision_comment")
    sync_expired_grants outside now
    requests ← gets (λ db. db.requests)
    request ←
        or_raise (find_first (visible_request principal approval_request_id) requests)
          (http 404 "approval request not found")
    decide_branch outside now principal.subject comment decision request expires_at
    record_audit_event outside now (record (audit_call (decision_event decision) principal) {
      client_id = request.client_id;
      location_id = request.location_id;
      target_type = some "approval_request";
      target_id = some request.approval_request_id;
    })
    rows ← gets (λ db. db.requests)
    row ←
        or_raise (find_first (request_has_id approval_request_id) rows)
          (http 404 "approval request not found")
    events ← gets (request_events_of approval_request_id)
    pure (row, events)
