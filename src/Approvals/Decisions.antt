-- ===== src/Approvals/Decisions.antt =====
-- What a decision requires, and what it leaves in the tables.
use Prim.Native.String.{◌++◌}
use sha.Base.{
  ℕ, String, ◌≡◌, refl, ◌∙◌, Bool, true, not, ◌&&◌, arith, Option, none, some, List, ok, err,
  update_where, all, all_of_mem, mem-update_where, Memᴰ, Bool-cases, inl, inr, if◌then◌else◌,
  Result, find_first,
}
use sha.Model.{
  Db, RequestStatus, GrantStatus, EventType, Decision, revoke, ApprovalRequestEvent,
  ApprovalRequest, ApprovalGrant, is_pending, is_approved, grant_is_approved,
}
use sha.Model.Tx.{◌>>=◌}
use sha.Model.Tx.Keeps.{>>=-eq-ok, >>=-check, >>=-or_raise}
use sha.Outside.{Outside}
use sha.Ids.{generate_prefixed_id}
use sha.Approvals.Grants.{create_audit_event, make_event, sync_expired_grants}
use sha.Text.{trim_required}
use sha.Authz.{Principal, AuditCall, record_audit_event}
use sha.Approvals.Decide.{
  decide_branch, visible_request, decide_approval_request, selects, decided, update_requests,
  revoke_grants, update_one, deny_request, revoke_request, links_to,
}

module _ (o : Outside) (now : ℕ) (actor comment : String) where
  -- The event that is written last leaves both tables alone.
  create_audit_event-tables :
      (id : String) (t : EventType) (db : Db) {e : ApprovalRequestEvent} {db' : Db}
      → create_audit_event o id t actor comment now db ≡ ok (e, db')
      → (db'.grants ≡ db.grants) × (db'.requests ≡ db.requests)
  unfolding create_audit_event make_event generate_prefixed_id ◌>>=◌
  create_audit_event-tables id t db h = ground arith

  update_one-tables :
      (id : String) (in_status : RequestStatus → Bool) (change : ApprovalRequest → ApprovalRequest)
      (db : Db) {u : Unit} {db' : Db}
      → update_one o now actor comment id in_status change db ≡ ok (u, db')
      → (db'.grants ≡ db.grants)
        × (db'.requests ≡ update_where (selects id in_status) change db.requests)
  unfolding update_one update_requests ◌>>=◌
  update_one-tables id in_status change db h = ground arith

  -- The identifier that the next draw gives a grant.
  abbrev pub next_grant_id : Db → String
  next_grant_id db = ("grant" ++ "_") ++ o.uuid db.draws

  draw_lem :
      (prefix : String) (db : Db) {id : String} {db' : Db}
      → generate_prefixed_id o prefix db ≡ ok (id, db')
      → (id ≡ (prefix ++ "_") ++ o.uuid db.draws)
        × (db'.grants ≡ db.grants)
        × (db'.requests ≡ db.requests)
  unfolding generate_prefixed_id
  draw_lem prefix db h = ground arith

  deny_steps :
      (request : ApprovalRequest) (expires_at : Option ℕ) (db : Db) {u : Unit} {db' : Db}
      → deny_request o now actor comment request expires_at db ≡ ok (u, db')
      → (is_pending request.status ≡ true)
        × (expires_at ≡ none)
        × (db'.grants ≡ db.grants)
        × (db'.requests
            ≡ update_where
                (selects request.approval_request_id is_pending)
                (decided RequestStatus.denied actor comment now)
                db.requests)
  unfolding deny_request generate_prefixed_id update_one update_requests create_audit_event
      make_event ◌>>=◌
  deny_steps request expires_at db h = ground arith

  revoke_steps :
      (request : ApprovalRequest) (expires_at : Option ℕ) (db : Db) {u : Unit} {db' : Db}
      → revoke_request o now actor comment request expires_at db ≡ ok (u, db')
      → (is_approved request.status ≡ true)
        × (expires_at ≡ none)
        × (db'.grants ≡ (revoke_grants request.approval_request_id now db).grants)
        × (db'.requests
            ≡ update_where
                (selects request.approval_request_id is_approved)
                (decided RequestStatus.revoked actor comment now)
                db.requests)
  unfolding revoke_request generate_prefixed_id update_one update_requests revoke_grants
      create_audit_event make_event ◌>>=◌
  revoke_steps request expires_at db h = ground arith

-- No approved grant is linked to the request.
abbrev pub is_unlinked : String → ApprovalGrant → Bool
is_unlinked id g = not (links_to id g && grant_is_approved g.status)

revoke_grants-unlinked :
    (id : String) (now : ℕ) (db : Db) → all (is_unlinked id) (revoke_grants id now db).grants ≡ true
unfolding revoke_grants
revoke_grants-unlinked id now db =
    all_of_mem (is_unlinked id) _ (λ g m. from_row g (mem-update_where _ _ db.grants m))
  where
    from_row :
        (g : ApprovalGrant)
        → ((x : ApprovalGrant) × Memᴰ x db.grants
            × (g ≡ (
                if links_to id x && grant_is_approved x.status
                then record x { status = GrantStatus.revoked; updated_at = now }
                else x)))
        → is_unlinked id g ≡ true
    from_row g (x, m, e) = elim (Bool-cases (links_to id x && grant_is_approved x.status)) [
      | inl t ↦ rw (rw t at e) (ground arith)
      | inr f ↦ rw (rw f at e) (rw f)
    ]

audit-tables :
    (o : Outside) (now : ℕ) (call : AuditCall) (db : Db) {u : Unit} {db' : Db}
    → record_audit_event o now call db ≡ ok (u, db')
    → (db'.grants ≡ db.grants) × (db'.requests ≡ db.requests)
unfolding record_audit_event generate_prefixed_id ◌>>=◌
audit-tables o now call db h = ground arith

-- The handler, after its texts are trimmed, the grants are synchronised and the row is found.
module _ (o : Outside) (now : ℕ) (p : Principal) (raw_id raw_comment : String) {id comment : String}
    (db : Db) {mid : Db} {request : ApprovalRequest}
    (trimmed : trim_required raw_id "approval_request_id" ≡ ok id)
    (commented : trim_required raw_comment "decision_comment" ≡ ok comment)
    (synced : sync_expired_grants o now db ≡ ok (tt, mid))
    (found : find_first (visible_request p id) mid.requests ≡ some request) where
  -- Its success is that of the branch, whose grants and requests stay.
  decide-branch :
      (d : Decision) (e : Option ℕ) {res : ApprovalRequest × List ApprovalRequestEvent} {db' : Db}
      → decide_approval_request o now p raw_id d raw_comment e db ≡ ok (res, db')
      → (last : Db) × (decide_branch o now p.subject comment d request e mid ≡ ok (tt, last))
        × (db'.grants ≡ last.grants)
        × (db'.requests ≡ last.requests)
  unfolding decide_approval_request record_audit_event generate_prefixed_id ◌>>=◌
  decide-branch d e {res} {db'} h =
      by_outcome (decide_branch o now p.subject comment d request e mid) refl
    where
      by_outcome :
          (r : Result (Unit {0} × Db))
          → decide_branch o now p.subject comment d request e mid ≡ r
          → (last : Db) × (decide_branch o now p.subject comment d request e mid ≡ ok (tt, last))
            × (db'.grants ≡ last.grants)
            × (db'.requests ≡ last.requests)
      by_outcome (ok (u, last)) q = (last, q, ground arith, ground arith)
      by_outcome (err x) q = absurd (ground arith)

  revoke_found :
      (e : Option ℕ) {res : ApprovalRequest × List ApprovalRequestEvent} {db' : Db}
      → decide_approval_request o now p raw_id revoke raw_comment e db ≡ ok (res, db')
      → (is_approved request.status ≡ true)
        × (e ≡ none)
        × (all (is_unlinked request.approval_request_id) db'.grants ≡ true)
        × (db'.requests
            ≡ update_where
                (selects request.approval_request_id is_approved)
                (decided RequestStatus.revoked p.subject comment now)
                mid.requests)
  unfolding decide_branch
  revoke_found e h =
      let (last, q, g, r) = decide-branch revoke e h in
      let (approved_row, no_expiry, grants, requests) =
        revoke_steps o now p.subject comment request e mid q in
      (
        approved_row,
        no_expiry,
        rw (g ∙ grants) (revoke_grants-unlinked request.approval_request_id now mid),
        r ∙ requests,
      )

module _ (o : Outside) (now : ℕ) (p : Principal) (raw_id raw_comment : String) (db : Db) where
  -- What the handler has found before it branches.
  decide_opens :
      (d : Decision) (e : Option ℕ) {res : ApprovalRequest × List ApprovalRequestEvent} {db' : Db}
      → decide_approval_request o now p raw_id d raw_comment e db ≡ ok (res, db')
      → (id : String) × (comment : String) × (mid : Db) × (request : ApprovalRequest)
        × (trim_required raw_id "approval_request_id" ≡ ok id)
        × (trim_required raw_comment "decision_comment" ≡ ok comment)
        × (sync_expired_grants o now db ≡ ok (tt, mid))
        × (find_first (visible_request p id) mid.requests ≡ some request)
  unfolding decide_approval_request ◌>>=◌
  decide_opens d e h =
      let (id, named, h1) = >>=-check (trim_required raw_id "approval_request_id") _ db h in
      let (comment, commented, h2) =
        >>=-check (trim_required raw_comment "decision_comment") _ db h1 in
      let (u, mid, synced, h3) = >>=-eq-ok (sync_expired_grants o now) _ db h2 in
      let (request, found, h4) =
        >>=-or_raise (find_first (visible_request p id) mid.requests) _ _ mid h3 in
      (id, comment, mid, request, named, commented, synced, found)

  -- A successful revocation, after the grants are synchronised, is of an approved request that the
  -- principal may decide, and comes without an expiry; afterwards no grant that is linked to the
  -- request is approved, and the approved rows with its identifier are revoked.
  pub decide_revoke-unlinks :
      (e : Option ℕ) {res : ApprovalRequest × List ApprovalRequestEvent} {db' : Db}
      → decide_approval_request o now p raw_id revoke raw_comment e db ≡ ok (res, db')
      → (id : String) × (comment : String) × (mid : Db) × (request : ApprovalRequest)
        × (trim_required raw_id "approval_request_id" ≡ ok id)
        × (trim_required raw_comment "decision_comment" ≡ ok comment)
        × (sync_expired_grants o now db ≡ ok (tt, mid))
        × (find_first (visible_request p id) mid.requests ≡ some request)
        × (is_approved request.status ≡ true)
        × (e ≡ none)
        × (all (is_unlinked request.approval_request_id) db'.grants ≡ true)
        × (db'.requests
            ≡ update_where
                (selects request.approval_request_id is_approved)
                (decided RequestStatus.revoked p.subject comment now)
                mid.requests)
  decide_revoke-unlinks e h =
      let (id, comment, mid, request, named, commented, synced, found) = decide_opens revoke e h in
      let (approved_row, no_expiry, unlinked, requests) =
        revoke_found o now p raw_id raw_comment db named commented synced found e h in
      (
        id, comment, mid, request, named, commented, synced, found, approved_row, no_expiry,
        unlinked, requests,
      )
