-- ===== src/Actions/Lease.antt =====
-- backend/app/api/endpoints/response_actions.py: an agent claims an action under a lease, and
-- reports its result. An instant is a number of seconds.
use sha.Base.{
  ℕ, ◌+◌, suc, String, Bool, true, false, not, ◌&&◌, ◌||◌, Option, none, some, List, Result, ok,
  err, http, if◌then◌else◌, leb, ltb, ◌==◌, any, str_eq, sql_eq, find_first, select_where,
  update_where, update_first, order_by,
}
use sha.Text.{trim_required, is_empty}
use sha.Model.{
  Db, ActionStatus, queued, leased, succeeded, failed, cancelled, CredentialMode, mode_is_device,
  endpoint_is_pending, Endpoint, ApprovalGrant, ResponseAction, grant_is_approved, field, text, end,
}
use sha.Model.Tx.{Tx, pure, raise, gets, check, or_raise, raise_if, modify, run_tx, ◌>>=◌, ◌>>◌}
use sha.Outside.{Outside}
use sha.Authz.{
  Principal, is_device_credential, enforce_device_endpoint, audit_call, record_audit_event,
}
use sha.Approvals.{sync_expired_grants}
use sha.Approvals.{endpoint_has_id}
use sha.Actions.Create.{visible_endpoint}

abbrev pub lease_seconds : ℕ
lease_seconds = 120

-- `enforce_endpoint_credential_mode` of backend/app/auth.py.
unfoldable pub enforce_endpoint_credential_mode : Principal → CredentialMode → Result (Unit {0})
enforce_endpoint_credential_mode principal mode =
    if mode_is_device mode && not (is_device_credential principal.auth_method)
    then err (http 403 "device credential is required for this endpoint")
    else ok tt

abbrev lapsed : Option ℕ → ℕ → Bool
lapsed none now = false
lapsed (some t) now = leb t now

abbrev is_queued : ActionStatus → Bool
is_queued queued = true
is_queued _ = false

abbrev pub is_leased : ActionStatus → Bool
is_leased leased = true
is_leased _ = false

-- `claimable`
abbrev pub claimable : ℕ → ResponseAction → Bool
claimable now action =
    is_queued action.status || (is_leased action.status && lapsed action.lease_expires_at now)

abbrev pub live_grant_of : ℕ → ResponseAction → ApprovalGrant → Bool
live_grant_of now action grant =
    str_eq grant.approval_grant_id action.approval_grant_id
    && (grant_is_approved grant.status && ltb now grant.expires_at)

-- What the candidate's query asks of a row, joined with the grants.
abbrev pub is_candidate : ℕ → String → List ApprovalGrant → ResponseAction → Bool
is_candidate now endpoint_id grants action =
    str_eq action.endpoint_id endpoint_id
    && (claimable now action && any (live_grant_of now action) grants)

abbrev pub action_has_id : String → ResponseAction → Bool
action_has_id id action = str_eq action.response_action_id id

-- `order_by(created_at, response_action_id)`
abbrev pub action_before : Outside → ResponseAction → ResponseAction → Bool
action_before outside a b =
    ltb a.created_at b.created_at
    || (a.created_at == b.created_at && outside.id_le a.response_action_id b.response_action_id)

unfoldable pub lease : ℕ → String → ResponseAction → ResponseAction
lease now lease_token_hash action = record action {
  status = leased;
  lease_token_hash = some lease_token_hash;
  lease_expires_at = some (now + lease_seconds);
  leased_at = some now;
  attempt_count = suc action.attempt_count;
  updated_at = now;
}

abbrev pub claims : String → ℕ → String → ResponseAction → Bool
claims id now endpoint_id action =
    action_has_id id action && (str_eq action.endpoint_id endpoint_id && claimable now action)

unfoldable pub update_actions :
    (ResponseAction → Bool) → (ResponseAction → ResponseAction) → Db → Db
update_actions test change db = record db { actions = update_where test change db.actions }

abbrev open_status : ActionStatus → Bool
open_status queued = true
open_status leased = true
open_status _ = false

-- `lease_matches`; an empty hash counts as absent.
abbrev pub lease_matches : Option String → String → Bool
lease_matches none token_hash = false
lease_matches (some stored) token_hash = not (is_empty stored) && str_eq token_hash stored

abbrev pub is_result : ActionStatus → Bool
is_result succeeded = true
is_result failed = true
is_result _ = false

abbrev pub status_code : ActionStatus → ℕ
status_code queued = 0
status_code leased = 1
status_code succeeded = 2
status_code failed = 3
status_code cancelled = 4

abbrev status_text : ActionStatus → String
status_text queued = "queued"
status_text leased = "leased"
status_text succeeded = "succeeded"
status_text failed = "failed"
status_text cancelled = "cancelled"

abbrev pub same_result : ResponseAction → ActionStatus → String → String → Bool
same_result action status summary token_hash =
    lease_matches action.lease_token_hash token_hash
    && (status_code action.status == status_code status && sql_eq action.result_summary summary)

-- The flush of the row that the handler has loaded.
unfoldable pub write_action : String → (ResponseAction → ResponseAction) → Db → Db
write_action id change db = record db {
  actions = update_first (action_has_id id) change db.actions;
}

module _ (outside : Outside) (now : ℕ) (principal : Principal) where
  -- `candidate_id`
  unfoldable pub candidate : String → Db → Option ResponseAction
  candidate endpoint_id db =
      find_first (is_candidate now endpoint_id db.grants)
        (order_by (action_before outside) db.actions)

  -- The endpoint of an agent's call: it exists, the caller may speak for it, and it is approved.
  unfoldable pub require_agent_endpoint : String → Tx Endpoint
  require_agent_endpoint endpoint_id = do
    endpoints ← gets (λ db. db.endpoints)
    endpoint ←
        or_raise (find_first (endpoint_has_id endpoint_id) endpoints)
          (http 404 "endpoint not found")
    check (enforce_endpoint_credential_mode principal endpoint.credential_mode)
    raise_if (endpoint_is_pending endpoint.status) (http 403 "endpoint approval is pending")
    pure endpoint

  -- `UPDATE ... RETURNING`
  unfoldable pub claim_candidate :
      String → String → Option ResponseAction → Tx (Option ResponseAction)
  claim_candidate endpoint_id token_hash none = pure none
  claim_candidate endpoint_id token_hash (some action) = do
    claimed ← gets (λ db. find_first (claims action.response_action_id now endpoint_id) db.actions)
    modify
        (update_actions (claims action.response_action_id now endpoint_id) (lease now token_hash))
    pure (elim claimed [ none ↦ none | some row ↦ some (lease now token_hash row) ])

  -- `claim_endpoint_response_action`, with the token that `token_urlsafe` has drawn for the lease.
  unfoldable pub claim_response_action : String → String → Tx (Option ResponseAction)
  claim_response_action lease_token raw_endpoint_id = do
    endpoint_id ← check (trim_required raw_endpoint_id "endpoint_id")
    check (enforce_device_endpoint principal endpoint_id)
    sync_expired_grants outside now
    endpoint ← require_agent_endpoint endpoint_id
    first ← gets (candidate endpoint_id)
    claim_candidate endpoint_id (outside.sha256_hex lease_token) first

  unfoldable pub listed_actions : String → Bool → Db → List ResponseAction
  listed_actions endpoint_id include_terminal db = order_by (action_before outside) (
      select_where
        (λ a.
          str_eq a.endpoint_id endpoint_id
          && (include_terminal || (open_status a.status && any (live_grant_of now a) db.grants)))
        db.actions)

  unfoldable pub listing : String → Bool → Db → Result (List ResponseAction)
  listing endpoint_id include_terminal db =
      elim (find_first (visible_endpoint principal "response_action.read" endpoint_id)
        db.endpoints) [
          | none ↦ err (http 404 "endpoint not found")
          | some endpoint ↦ ok (listed_actions endpoint_id include_terminal db)
        ]

  -- `list_endpoint_response_actions`: the synchronisation commits before the endpoint is looked up.
  unfoldable pub list_response_actions : String → Bool → Db → Result (List ResponseAction) × Db
  list_response_actions raw_endpoint_id include_terminal db =
      elim (trim_required raw_endpoint_id "endpoint_id") [
        | err e ↦ (err e, db)
        | ok endpoint_id ↦
            let (synced, db') = run_tx (sync_expired_grants outside now) db in
            elim synced [
              | err e ↦ (err e, db')
              | ok u ↦ (listing endpoint_id include_terminal db', db')
            ]
      ]

  abbrev no_live_lease : Option ℕ → Bool
  no_live_lease none = true
  no_live_lease (some t) = leb t now

  unfoldable pub completed : ActionStatus → String → ResponseAction → ResponseAction
  completed status summary action = record action {
    status = status;
    result_summary = some summary;
    updated_at = now;
    completed_at = some now;
  }

  -- The audit event of a result, and the answer.
  unfoldable pub report_action :
      Endpoint → ResponseAction → ActionStatus → String → Tx ResponseAction
  report_action endpoint action status summary = do
    record_audit_event outside now (record (audit_call "response_action_completed" principal) {
      client_id = some endpoint.client_id;
      location_id = some endpoint.location_id;
      endpoint_id = some endpoint.endpoint_id;
      target_type = some "response_action";
      target_id = some action.response_action_id;
      metadata = field "status" (text (status_text status)) end;
    })
    pure (completed status summary action)

  -- The guards of a result for an action that is not finished, and the write.
  unfoldable pub finish_action :
      Endpoint → ResponseAction → ActionStatus → String → String → Tx ResponseAction
  finish_action endpoint action status summary token_hash = do
    raise_if (not (is_leased action.status))
        (http 409 "response action does not have an active lease")
    raise_if (not (lease_matches action.lease_token_hash token_hash))
        (http 409 "response action lease does not match")
    raise_if (no_live_lease action.lease_expires_at) (http 409 "response action lease has expired")
    modify (write_action action.response_action_id (completed status summary))
    report_action endpoint action status summary

  unfoldable pub settle_action :
      Endpoint → ResponseAction → ActionStatus → String → String → Tx ResponseAction
  settle_action endpoint action status summary token_hash =
      if is_result action.status
      then (if same_result action status summary token_hash
          then pure action
          else raise (http 409 "response action is already terminal"))
      else finish_action endpoint action status summary token_hash

-- The body of `POST /api/response-actions/{response_action_id}/result`.
pub record ResultPayload : Type 0 where
  pub status : ActionStatus
  pub result_summary : String
  pub lease_token : String

module _ (outside : Outside) (now : ℕ) (principal : Principal) where
  -- `complete_response_action`
  unfoldable pub complete_response_action : String → ResultPayload → Tx ResponseAction
  complete_response_action raw_id payload = do
    id ← check (trim_required raw_id "response_action_id")
    raise_if (not (is_result payload.status)) (http 422 "result status must be succeeded or failed")
    summary ← check (trim_required payload.result_summary "result_summary")
    actions ← gets (λ db. db.actions)
    action ← or_raise (find_first (action_has_id id) actions) (http 404 "response action not found")
    check (enforce_device_endpoint principal action.endpoint_id)
    endpoint ← require_agent_endpoint outside now principal action.endpoint_id
    settle_action outside now principal endpoint action payload.status summary
        (outside.sha256_hex payload.lease_token)
