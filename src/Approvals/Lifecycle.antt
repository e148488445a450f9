-- ===== src/Approvals/Lifecycle.antt =====
-- Every approval handler moves the tables by their rules.
use sha.Base.{ℕ, String, ◌≡◌, Bool, true, ◌&&◌, arith, Option, some, List, [], ◌∷◌}
use sha.Model.{
  RequestStatus, GrantStatus, ApprovalRequest, ApprovalGrant, Action, Endpoint, Decision, approve,
  deny, revoke, is_pending, is_approved, grant_is_approved,
}
use sha.Model.Tx.{Tx, modify}
use sha.Model.Tx.Keeps.{Keeps}
use sha.Outside.{Outside}
use sha.Authz.{Principal}
use sha.Controls.{Registry}
use sha.Evolution.{
  Evolved, Evolves-update_where, Evolves-add_row, RequestMoves, RequestMoves-refl, GrantMoves,
  GrantMoves-refl,
}
use sha.Evolution.Steps.{
  evolved_rules, Evolved-bind, Evolved-gets, Evolved-raise_if, Evolved-pure, Evolved-modify,
  write_requests, write_grants,
}
use sha.Approvals.Requests.{
  normalize_endpoint_ids, approval_scope, each, control_allowed, endpoint_allows,
  validate_control_actions, RequestPayload, GrantPayload, add_request, add_grant,
  create_approval_request, create_approval_grant,
}
use sha.Approvals.Decide.{
  selects, decided, update_requests, revoke_grants, update_one, approve_request, deny_request,
  revoke_request, decide_branch, decide_approval_request,
}
use sha.Approvals.Expiring.{Evolved-create_audit_event, Evolved-sync_expired_grants}

Evolved-add_request : (r : ApprovalRequest) → Keeps Evolved (modify (add_request r))
unfolding add_request
Evolved-add_request r =
    Evolved-modify _
      λ db. write_requests db _ (Evolves-add_row RequestMoves RequestMoves-refl r db.requests)

Evolved-add_grant : (g : ApprovalGrant) → Keeps Evolved (modify (add_grant g))
unfolding add_grant
Evolved-add_grant g =
    Evolved-modify _
      λ db. write_grants db _ (Evolves-add_row GrantMoves GrantMoves-refl g db.grants)

and_right : (a b : Bool) → (a && b) ≡ true → b ≡ true
and_right a b h = ground arith

grant_revokes :
    (now : ℕ) (g : ApprovalGrant)
    → grant_is_approved g.status ≡ true
    → GrantMoves g (record g { status = GrantStatus.revoked; updated_at = now })
grant_revokes now g h = ground arith

Evolved-revoke_grants : (id : String) (now : ℕ) → Keeps Evolved (modify (revoke_grants id now))
unfolding revoke_grants
Evolved-revoke_grants id now = Evolved-modify _ λ db. write_grants db _ (
    Evolves-update_where GrantMoves GrantMoves-refl _ _
      (λ g h. grant_revokes now g (and_right _ _ h)) db.grants)

-- A change that is a move of every row in the status that the update looks for.
abbrev IsMove : (RequestStatus → Bool) → (ApprovalRequest → ApprovalRequest) → Type 0
IsMove in_status change =
    (r : ApprovalRequest) → in_status r.status ≡ true → RequestMoves r (change r)

Evolved-update_requests :
    (id : String) (in_status : RequestStatus → Bool) (change : ApprovalRequest → ApprovalRequest)
    → IsMove in_status change
    → Keeps Evolved (modify (update_requests (selects id in_status) change))
unfolding update_requests
Evolved-update_requests id in_status change move = Evolved-modify _ λ db. write_requests db _ (
    Evolves-update_where RequestMoves RequestMoves-refl _ change (λ r h. move r (and_right _ _ h))
      db.requests)

module _ (o : Outside) (now : ℕ) (actor comment : String) where
  Evolved-update_one :
      (id : String) (in_status : RequestStatus → Bool) (change : ApprovalRequest → ApprovalRequest)
      → IsMove in_status change
      → Keeps Evolved (update_one o now actor comment id in_status change)
  unfolding update_one
  Evolved-update_one id in_status change move = Evolved-bind _ _ (Evolved-gets _) λ matched.
      Evolved-bind _ _ (Evolved-update_requests id in_status change move) λ u. Evolved-raise_if _ _

  approve_moves :
      (id : String)
      → IsMove is_pending (λ r. record (decided RequestStatus.approved actor comment now r) {
        approval_grant_id = some id;
      })
  unfolding decided
  approve_moves id r h = ground arith

  deny_moves : IsMove is_pending (decided RequestStatus.denied actor comment now)
  unfolding decided
  deny_moves r h = ground arith

  revoke_moves : IsMove is_approved (decided RequestStatus.revoked actor comment now)
  unfolding decided
  revoke_moves r h = ground arith

  Evolved-decide_branch :
      (d : Decision) (r : ApprovalRequest) (e : Option ℕ)
      → Keeps Evolved (decide_branch o now actor comment d r e)
  unfolding decide_branch approve_request deny_request revoke_request
  Evolved-decide_branch approve r e =
      search
        (
          evolved_rules, Evolved-update_one, approve_moves, Evolved-add_grant,
          Evolved-create_audit_event,
        )
        depth 12
  Evolved-decide_branch deny r e =
      search (evolved_rules, Evolved-update_one, deny_moves, Evolved-create_audit_event) depth 9
  Evolved-decide_branch revoke r e =
      search
        (
          evolved_rules, Evolved-update_one, revoke_moves, Evolved-revoke_grants,
          Evolved-create_audit_event,
        )
        depth 9

pub Evolved-decide_approval_request :
    (o : Outside) (now : ℕ) (p : Principal) (id : String) (d : Decision) (comment : String)
    (e : Option ℕ)
    → Keeps Evolved (decide_approval_request o now p id d comment e)
unfolding decide_approval_request
Evolved-decide_approval_request o now p id d comment e =
    search (evolved_rules, Evolved-sync_expired_grants, Evolved-decide_branch) depth 14

Evolved-normalize_endpoint_ids : (ids : List String) → Keeps Evolved (normalize_endpoint_ids ids)
unfolding normalize_endpoint_ids
Evolved-normalize_endpoint_ids ids = search evolved_rules depth 8

Evolved-approval_scope :
    (ids : List String) (p : Principal) (permission : String)
    → Keeps Evolved (approval_scope ids p permission)
unfolding approval_scope
Evolved-approval_scope ids p permission = search evolved_rules depth 8

Evolved-each :
    {A : Type 0} (f : A → Tx (Unit {0}))
    → ((a : A) → Keeps Evolved (f a))
    → (xs : List A) → Keeps Evolved (each f xs)
unfolding each
Evolved-each f k [] = Evolved-pure tt
Evolved-each f k (x ∷ xs) = Evolved-bind _ _ (k x) (λ _. Evolved-each f k xs)

Evolved-control_allowed :
    (registry : Registry) (e : Endpoint) (c : String) (a : Action)
    → Keeps Evolved (control_allowed registry e c a)
unfolding control_allowed
Evolved-control_allowed registry e c a = search evolved_rules

Evolved-endpoint_allows :
    (registry : Registry) (cs : List String) (actions : List Action) (id : String)
    → Keeps Evolved (endpoint_allows registry cs actions id)
unfolding endpoint_allows
Evolved-endpoint_allows registry cs actions id =
    search (evolved_rules, Evolved-each, Evolved-control_allowed) depth 8

Evolved-validate_control_actions :
    (registry : Registry) (ids : List String) (actions : List Action) (cs : List String)
    → Keeps Evolved (validate_control_actions registry ids actions cs)
unfolding validate_control_actions
Evolved-validate_control_actions registry ids actions cs =
    search (evolved_rules, Evolved-each, Evolved-endpoint_allows)

ruleset creation_rules = (
  evolved_rules, Evolved-normalize_endpoint_ids, Evolved-approval_scope,
  Evolved-validate_control_actions, Evolved-add_request, Evolved-add_grant,
  Evolved-create_audit_event,
)

module _ (o : Outside) (registry : Registry) (now : ℕ) (p : Principal) where
  pub Evolved-create_approval_request :
      (payload : RequestPayload) → Keeps Evolved (create_approval_request o registry now p payload)
  unfolding create_approval_request
  Evolved-create_approval_request payload = search creation_rules depth 20

  pub Evolved-create_approval_grant :
      (payload : GrantPayload) → Keeps Evolved (create_approval_grant o registry now p payload)
  unfolding create_approval_grant
  Evolved-create_approval_grant payload = search creation_rules depth 20
