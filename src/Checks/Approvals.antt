-- ===== src/Checks/Approvals.antt =====
-- Approvals in the small world.
use sha.Base.{
  String, ℕ, ◌+◌, ◌*◌, ◌≤◌, ◌<◌, min, Memᴰ, ◌≡◌, ◌↔◌, refl, true, all, any, Option, none, some,
  List, [], ◌∷◌, ok, err, Result, find_first, select_where, update_where, order_by, contains,
}
use sha.Text.{trim_required}
use sha.Ids.{generate_prefixed_id}
use sha.Authz.{record_audit_event, scope_clause, clause_holds, synthetic_global_grant}
use sha.Model.{
  Db, ApprovalGrant, ApprovalRequest, ApprovalRequestEvent, RequestStatus, RequestKind, approve,
  revoke, is_approved, apply_control,
}
use sha.Model.Tx.{◌>>=◌}
use sha.Approvals.{
  decimal, ceil_minute, sync_expired_grants, sync_loop, sync_grant, visible_request,
  decide_approval_request, decide_branch, revoke_request, update_one, update_requests,
  revoke_grants, decided, selects, create_audit_event, make_event, request_events_of,
  validate_grant_expiry, validate_manual_grant_shape, validate_request_shape, readable_grant,
  list_approval_grants,
}
use sha.Approvals.Shapes.{manual_grant-iff-request, validate_grant_expiry_bounds}
use sha.Approvals.Current.{is_current}
use sha.Approvals.Listed.{list_approval_grants-readable}
use sha.Approvals.Decisions.{decide_revoke-unlinks, is_unlinked}
use sha.Checks.World.{world, reviewer, start, asked, left_by}

manual_grant-iff-request_example :
    (validate_manual_grant_shape (apply_control ∷ []) ("c" ∷ []) [] ≡ ok tt) ↔ (
      (kind : RequestKind) × (validate_request_shape kind (apply_control ∷ []) ("c" ∷ []) []
        ≡ ok tt))
manual_grant-iff-request_example = manual_grant-iff-request (apply_control ∷ []) ("c" ∷ []) []

expiry_runs : validate_grant_expiry 4000 1000 60 ≡ ok 4000
unfolding validate_grant_expiry ceil_minute
expiry_runs = refl

validate_grant_expiry_bounds_example :
    (◌≡◌ {A = ℕ} 4000 4000) × (1000 + 60 * 15 ≤ 4000) × (4000 < 1000 + 60 * min 60 240 + 60)
validate_grant_expiry_bounds_example = validate_grant_expiry_bounds 4000 1000 60 expiry_runs

list_approval_grants-readable_example :
    (rows : List ApprovalGrant) × (db' : Db) × (list_approval_grants world 6000 reviewer start
      ≡ (ok rows, db'))
    × ((g : ApprovalGrant) → Memᴰ g rows ↔ (Memᴰ g db'.grants × (readable_grant reviewer g ≡ true)))
    × (all (is_current world 6000) db'.grants ≡ true)
    × (all (is_current world 6000) rows ≡ true)
list_approval_grants-readable_example = list_approval_grants-readable world 6000 reviewer start

abbrev Decided : Type 0
Decided = Result ((ApprovalRequest × List ApprovalRequestEvent) × Db)

abbrev approval : Decided
approval = decide_approval_request world 1000 reviewer "apr-1" approve "yes" (some 4000) start

abbrev revocation : Decided
revocation = decide_approval_request world 1000 reviewer "apr-2" revoke "yes" none start

abbrev answer : Decided → ApprovalRequest × List ApprovalRequestEvent
answer r = elim r [ ok (a, db) ↦ a | err e ↦ (asked, []) ]

revocation_runs : revocation ≡ ok (answer revocation, left_by revocation start)
unfolding decide_approval_request trim_required sync_expired_grants sync_loop sync_grant
    select_where order_by find_first scope_clause synthetic_global_grant clause_holds contains
    decide_branch revoke_request generate_prefixed_id update_one update_requests revoke_grants
    update_where decided any create_audit_event make_event record_audit_event request_events_of
    decimal ◌>>=◌
revocation_runs = refl

decide_revoke-unlinks_example :
    (id : String) × (comment : String) × (mid : Db) × (request : ApprovalRequest) × (trim_required
        "apr-2" "approval_request_id"
      ≡ ok id)
    × (trim_required "yes" "decision_comment" ≡ ok comment)
    × (sync_expired_grants world 1000 start ≡ ok (tt, mid))
    × (find_first (visible_request reviewer id) mid.requests ≡ some request)
    × (is_approved request.status ≡ true)
    × (◌≡◌ {A = Option ℕ} none none)
    × (all (is_unlinked request.approval_request_id) (left_by revocation start).grants ≡ true)
    × ((left_by revocation start).requests
        ≡ update_where
            (selects request.approval_request_id is_approved)
            (decided RequestStatus.revoked "ada" comment 1000)
            mid.requests)
decide_revoke-unlinks_example =
    decide_revoke-unlinks world 1000 reviewer "apr-2" "yes" start none revocation_runs
