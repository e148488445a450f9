-- ===== src/Approvals/Expiring.antt =====
-- What `_sync_expired_grants` does to the tables.
use sha.Base.{ℕ, String, ◌≡◌, refl, Bool, true, ◌&&◌, Option, none, some, List, [], ◌∷◌, arith}
use sha.Model.{
  ApprovalGrant, ApprovalRequest, ApprovalRequestEvent, EventType, GrantStatus, RequestStatus,
  grant_is_approved, is_approved,
}
use sha.Model.Tx.{modify}
use sha.Model.Tx.Keeps.{Keeps}
use sha.Outside.{Outside}
use sha.Evolution.{
  Evolves-update_where, Evolves-add_row, GrantMoves, GrantMoves-refl, RequestMoves,
  RequestMoves-refl, Evolved,
}
use sha.Evolution.Steps.{
  evolved_rules, Evolved-bind, Evolved-modify, write_grants, write_requests, write_request_events,
}
use sha.Approvals.Grants.{
  make_event, add_event, create_audit_event, create_event_or_skip, expire_grant, expire_request,
  sync_request, sync_link, sync_grant, sync_loop, sync_expired_grants,
}

grant_expires :
    (now : ℕ) (g : ApprovalGrant)
    → grant_is_approved g.status ≡ true
    → GrantMoves g (record g { status = GrantStatus.expired; updated_at = now })
grant_expires now g h = ground arith

request_expires :
    (now : ℕ) (r : ApprovalRequest)
    → is_approved r.status ≡ true
    → RequestMoves r (record r { status = RequestStatus.expired; updated_at = now })
request_expires now r h = ground arith

and_right : (a b : Bool) → (a && b) ≡ true → b ≡ true
and_right a b h = ground arith

Evolved-expire_grant : (now : ℕ) (id : String) → Keeps Evolved (modify (expire_grant now id))
unfolding expire_grant
Evolved-expire_grant now id = Evolved-modify _ λ db. write_grants db _ (
    Evolves-update_where GrantMoves GrantMoves-refl _ _
      (λ g h. grant_expires now g (and_right _ _ h)) db.grants)

Evolved-expire_request : (now : ℕ) (id : String) → Keeps Evolved (modify (expire_request now id))
unfolding expire_request
Evolved-expire_request now id = Evolved-modify _ λ db. write_requests db _ (
    Evolves-update_where RequestMoves RequestMoves-refl _ _
      (λ r h. request_expires now r (and_right _ _ h)) db.requests)

Evolved-add_event : (e : ApprovalRequestEvent) → Keeps Evolved (modify (add_event e))
Evolved-add_event e =
    Evolved-modify _ λ db.
      write_request_events db _ (Evolves-add_row (λ x y. x ≡ y) (λ x. refl) e db.request_events)

Evolved-make_event :
    (o : Outside) (id : String) (t : EventType) (actor comment : String) (now : ℕ)
    → Keeps Evolved (make_event o id t actor comment now)
unfolding make_event
Evolved-make_event o id t actor comment now = search evolved_rules

pub Evolved-create_audit_event :
    (o : Outside) (id : String) (t : EventType) (actor comment : String) (now : ℕ)
    → Keeps Evolved (create_audit_event o id t actor comment now)
unfolding create_audit_event
Evolved-create_audit_event o id t actor comment now =
    search (evolved_rules, Evolved-make_event, Evolved-add_event)

Evolved-create_event_or_skip :
    (o : Outside) (id : String) (t : EventType) (actor comment : String) (now : ℕ)
    → Keeps Evolved (create_event_or_skip o id t actor comment now)
unfolding create_event_or_skip
Evolved-create_event_or_skip o id t actor comment now =
    search (evolved_rules, Evolved-make_event, Evolved-add_event)

module _ (o : Outside) (now : ℕ) where
  Evolved-sync_request : (r : Option ApprovalRequest) → Keeps Evolved (sync_request o now r)
  unfolding sync_request
  Evolved-sync_request none = search evolved_rules
  Evolved-sync_request (some r) =
      search (evolved_rules, Evolved-expire_request, Evolved-create_event_or_skip)

  Evolved-sync_link : (id : Option String) → Keeps Evolved (sync_link o now id)
  unfolding sync_link
  Evolved-sync_link none = search evolved_rules
  Evolved-sync_link (some id) = search (evolved_rules, Evolved-sync_request)

  Evolved-sync_grant : (g : ApprovalGrant) → Keeps Evolved (sync_grant o now g)
  unfolding sync_grant
  Evolved-sync_grant g = search (evolved_rules, Evolved-expire_grant, Evolved-sync_link)

  Evolved-sync_loop : (gs : List ApprovalGrant) → Keeps Evolved (sync_loop o now gs)
  unfolding sync_loop
  Evolved-sync_loop [] = search evolved_rules
  Evolved-sync_loop (g ∷ gs) = Evolved-bind _ _ (Evolved-sync_grant g) (λ _. Evolved-sync_loop gs)

  pub Evolved-sync_expired_grants : Keeps Evolved (sync_expired_grants o now)
  unfolding sync_expired_grants
  Evolved-sync_expired_grants = search (evolved_rules, Evolved-sync_loop)
