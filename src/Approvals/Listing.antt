-- ===== src/Approvals/Listing.antt =====
-- The two lists of backend/app/api/endpoints/approvals.py: the synchronisation commits first, and
-- the rows are read after it.
use sha.Base.{ℕ, Bool, ◌&&◌, ◌||◌, List, Result, ok, err, ltb, ◌==◌, map, select_where, order_by}
use sha.Model.{Db, ApprovalGrant, ApprovalRequest, ApprovalRequestEvent, scope_is_active}
use sha.Model.Tx.{run_tx}
use sha.Outside.{Outside}
use sha.Authz.{Principal, clause_holds, scope_clause}
use sha.Approvals.Grants.{sync_expired_grants, grant_before}
use sha.Approvals.Decide.{request_events_of}

-- The queries' clauses.
abbrev pub readable_request : Principal → ApprovalRequest → Bool
readable_request principal request =
    scope_is_active request.scope_state
    && clause_holds (scope_clause principal "approval.read") request.client_id request.location_id

abbrev pub readable_grant : Principal → ApprovalGrant → Bool
readable_grant principal grant =
    scope_is_active grant.scope_state
    && clause_holds (scope_clause principal "approval.read") grant.client_id grant.location_id

module _ (outside : Outside) where
  -- `order_by(created_at, approval_request_id)`
  abbrev pub request_before : ApprovalRequest → ApprovalRequest → Bool
  request_before a b =
      ltb a.created_at b.created_at
      || (a.created_at == b.created_at && outside.id_le a.approval_request_id b.approval_request_id)

  module _ (now : ℕ) (principal : Principal) where
    abbrev after_sync {ℓ} : {A : Type ℓ} → (Db → A) → Db → Result A × Db
    after_sync read db =
        let (synced, db') = run_tx (sync_expired_grants outside now) db in
        elim synced [ err e ↦ (err e, db') | ok u ↦ (ok (read db'), db') ]

    abbrev pub with_events : Db → ApprovalRequest → ApprovalRequest × List ApprovalRequestEvent
    with_events db request =
        (request, request_events_of outside now principal request.approval_request_id db)

    unfoldable pub requests_read : Db → List ApprovalRequest
    requests_read db =
        order_by request_before (select_where (readable_request principal) db.requests)

    unfoldable pub grants_read : Db → List ApprovalGrant
    grants_read db =
        order_by (grant_before outside now) (select_where (readable_grant principal) db.grants)

    -- `list_approval_requests`: each request with its events.
    unfoldable pub list_approval_requests :
        Db → Result (List (ApprovalRequest × List ApprovalRequestEvent)) × Db
    list_approval_requests db =
        after_sync (λ after. map (with_events after) (requests_read after)) db

    -- `list_approval_grants`
    unfoldable pub list_approval_grants : Db → Result (List ApprovalGrant) × Db
    list_approval_grants db = after_sync grants_read db
