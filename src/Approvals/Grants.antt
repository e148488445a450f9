-- ===== src/Approvals/Grants.antt =====
-- backend/app/api/endpoints/approvals.py: the events of a request, and grants that run out.
use sha.Base.{
  ℕ, String, Bool, ◌&&◌, ◌||◌, Option, none, some, List, [], ◌∷◌, http, if◌then◌else◌, ltb, ◌==◌,
  any, str_eq, find_first, select_where, update_where, add_row, order_by,
}
use sha.Text.{is_empty}
use sha.Model.{
  Db, ApprovalGrant, ApprovalRequest, ApprovalRequestEvent, EventType, event_code, RequestStatus,
  GrantStatus, is_approved, grant_is_approved,
}
use sha.Model.Tx.{Tx, pure, gets, modify, raise_if, ◌>>=◌, ◌>>◌}
use sha.Outside.{Outside}
use sha.Ids.{generate_prefixed_id}

-- `uq_approval_request_events_request_event_type`, and the primary key.
abbrev pub event_clashes : ApprovalRequestEvent → ApprovalRequestEvent → Bool
event_clashes new old =
    str_eq old.approval_event_id new.approval_event_id
    || (str_eq old.approval_request_id new.approval_request_id
        && event_code old.event_type == event_code new.event_type)

-- The row that `_create_audit_event` builds.
unfoldable pub make_event :
    Outside → String → EventType → String → String → ℕ → Tx ApprovalRequestEvent
make_event outside approval_request_id event_type actor comment created_at = do
  approval_event_id ← generate_prefixed_id outside "ape"
  pure (record {
    approval_event_id = approval_event_id;
    approval_request_id = approval_request_id;
    event_type = event_type;
    actor = actor;
    comment = comment;
    created_at = created_at;
  })

abbrev pub add_event : ApprovalRequestEvent → Db → Db
add_event event db = record db { request_events = add_row event db.request_events }

-- `_create_audit_event` where nothing handles an `IntegrityError`: the response is a 500.
unfoldable pub create_audit_event :
    Outside → String → EventType → String → String → ℕ → Tx ApprovalRequestEvent
create_audit_event outside approval_request_id event_type actor comment created_at = do
  event ← make_event outside approval_request_id event_type actor comment created_at
  rows ← gets (λ db. db.request_events)
  raise_if (any (event_clashes event) rows) (http 500 "Internal Server Error")
  modify (add_event event)
  pure event

-- The savepoint of `_sync_expired_grants`: where the event clashes it is left out.
unfoldable pub create_event_or_skip :
    Outside → String → EventType → String → String → ℕ → Tx (Unit {0})
create_event_or_skip outside approval_request_id event_type actor comment created_at = do
  event ← make_event outside approval_request_id event_type actor comment created_at
  rows ← gets (λ db. db.request_events)
  if any (event_clashes event) rows then pure tt else modify (add_event event)

abbrev pub grant_has_id : String → ApprovalGrant → Bool
grant_has_id id grant = str_eq grant.approval_grant_id id

abbrev pub request_has_id : String → ApprovalRequest → Bool
request_has_id id request = str_eq request.approval_request_id id

-- `grant.status = "expired"; grant.updated_at = now`, on the row that the query selected.
unfoldable pub expire_grant : ℕ → String → Db → Db
expire_grant now id db = record db {
  grants =
      update_where (λ g. grant_has_id id g && grant_is_approved g.status)
        (λ g. record g { status = GrantStatus.expired; updated_at = now }) db.grants;
}

unfoldable pub expire_request : ℕ → String → Db → Db
expire_request now id db = record db {
  requests =
      update_where (λ r. request_has_id id r && is_approved r.status)
        (λ r. record r { status = RequestStatus.expired; updated_at = now }) db.requests;
}

abbrev pub or_system : Option String → String
or_system none = "system"
or_system (some String.[]) = "system"
or_system (some (String.◌∷◌ c s)) = String.◌∷◌ c s

module _ (outside : Outside) (now : ℕ) where
  -- What follows for the request of an expired grant.
  unfoldable pub sync_request : Option ApprovalRequest → Tx (Unit {0})
  sync_request none = pure tt
  sync_request (some request) =
      if is_approved request.status
      then (do
        modify (expire_request now request.approval_request_id)
        create_event_or_skip outside request.approval_request_id EventType.expired
            (or_system request.decision_by) "Grant expired automatically." now)
      else pure tt

  unfoldable pub sync_link : Option String → Tx (Unit {0})
  sync_link none = pure tt
  sync_link (some id) = if is_empty id then pure tt else (do
    request ← gets (λ db. find_first (request_has_id id) db.requests)
    sync_request request)

  -- One round of the loop.
  unfoldable pub sync_grant : ApprovalGrant → Tx (Unit {0})
  sync_grant grant = if ltb now grant.expires_at then pure tt else (do
    modify (expire_grant now grant.approval_grant_id)
    sync_link grant.approval_request_id)

  unfoldable pub sync_loop : List ApprovalGrant → Tx (Unit {0})
  sync_loop [] = pure tt
  sync_loop (grant ∷ grants) = do sync_grant grant; sync_loop grants

  -- `order_by(created_at, approval_grant_id)`
  abbrev pub grant_before : ApprovalGrant → ApprovalGrant → Bool
  grant_before a b =
      ltb a.created_at b.created_at
      || (a.created_at == b.created_at && outside.id_le a.approval_grant_id b.approval_grant_id)

  -- `_sync_expired_grants`
  unfoldable pub sync_expired_grants : Tx (Unit {0})
  sync_expired_grants = do
    grants ←
        gets
          (λ db. order_by grant_before (select_where (λ g. grant_is_approved g.status) db.grants))
    sync_loop grants
