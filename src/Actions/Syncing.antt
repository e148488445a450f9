-- ===== src/Actions/Syncing.antt =====
-- `_sync_expired_grants` writes neither endpoints nor actions.
use sha.Base.{ℕ, String, ◌≡◌, refl, ◌∙◌, arith, Option, none, some, List, [], ◌∷◌}
use sha.Model.{Db, ApprovalGrant, ApprovalRequest, EventType}
use sha.Model.Tx.{modify, ◌>>=◌}
use sha.Model.Tx.Keeps.{
  IsPreorder, Keeps, Keeps-bind, Keeps-gets, Keeps-if, Keeps-pure, Keeps-modify,
}
use sha.Outside.{Outside}
use sha.Ids.{generate_prefixed_id}
use sha.Approvals.{
  make_event, create_event_or_skip, expire_grant, expire_request, sync_request, sync_link,
  sync_grant, sync_loop, sync_expired_grants,
}

pub record SameWork (a b : Db) : Type 0 where
  pub actions : b.actions ≡ a.actions
  pub endpoints : b.endpoints ≡ a.endpoints

SameWork-order : IsPreorder SameWork
SameWork-order = record {
  same = λ db. record { actions = refl; endpoints = refl };
  chain = λ a b c h k. record {
    actions = k.actions ∙ h.actions;
    endpoints = k.endpoints ∙ h.endpoints;
  };
}

module _ (o : Outside) (now : ℕ) where
  make_event-SameWork :
      (id : String) (t : EventType) (actor comment : String)
      → Keeps SameWork (make_event o id t actor comment now)
  unfolding make_event generate_prefixed_id ◌>>=◌
  make_event-SameWork id t actor comment = record { at = λ db h. ground arith }

  event-SameWork :
      (id : String) (t : EventType) (actor comment : String)
      → Keeps SameWork (create_event_or_skip o id t actor comment now)
  unfolding create_event_or_skip
  event-SameWork id t actor comment =
      Keeps-bind SameWork-order _ _ (make_event-SameWork id t actor comment) λ event.
        Keeps-bind SameWork-order _ _ (Keeps-gets SameWork-order _) λ rows.
          Keeps-if SameWork-order _ _ _ (Keeps-pure SameWork-order tt)
            (Keeps-modify SameWork-order _ (λ db. record { actions = refl; endpoints = refl }))

  expire_grant-SameWork : (id : String) → Keeps SameWork (modify (expire_grant now id))
  unfolding expire_grant
  expire_grant-SameWork id =
      Keeps-modify SameWork-order _ (λ db. record { actions = refl; endpoints = refl })

  expire_request-SameWork : (id : String) → Keeps SameWork (modify (expire_request now id))
  unfolding expire_request
  expire_request-SameWork id =
      Keeps-modify SameWork-order _ (λ db. record { actions = refl; endpoints = refl })

  sync_request-SameWork : (r : Option ApprovalRequest) → Keeps SameWork (sync_request o now r)
  unfolding sync_request
  sync_request-SameWork none = Keeps-pure SameWork-order tt
  sync_request-SameWork (some r) =
      Keeps-if SameWork-order _ _ _
        (Keeps-bind SameWork-order _ _ (expire_request-SameWork _) (λ u. event-SameWork _ _ _ _))
        (Keeps-pure SameWork-order tt)

  sync_link-SameWork : (id : Option String) → Keeps SameWork (sync_link o now id)
  unfolding sync_link
  sync_link-SameWork none = Keeps-pure SameWork-order tt
  sync_link-SameWork (some id) =
      Keeps-if SameWork-order _ _ _ (Keeps-pure SameWork-order tt)
        (Keeps-bind SameWork-order _ _ (Keeps-gets SameWork-order _) sync_request-SameWork)

  sync_grant-SameWork : (g : ApprovalGrant) → Keeps SameWork (sync_grant o now g)
  unfolding sync_grant
  sync_grant-SameWork g =
      Keeps-if SameWork-order _ _ _ (Keeps-pure SameWork-order tt)
        (Keeps-bind SameWork-order _ _ (expire_grant-SameWork _) (λ u. sync_link-SameWork _))

  sync_loop-SameWork : (gs : List ApprovalGrant) → Keeps SameWork (sync_loop o now gs)
  unfolding sync_loop
  sync_loop-SameWork [] = Keeps-pure SameWork-order tt
  sync_loop-SameWork (g ∷ gs) =
      Keeps-bind SameWork-order _ _ (sync_grant-SameWork g) (λ u. sync_loop-SameWork gs)

  pub sync_expired_grants-SameWork : Keeps SameWork (sync_expired_grants o now)
  unfolding sync_expired_grants
  sync_expired_grants-SameWork =
      Keeps-bind SameWork-order _ _ (Keeps-gets SameWork-order _) sync_loop-SameWork
