-- ===== src/Actions/Creating.antt =====
-- What a new action requires of its endpoint and its grant, and when a request is a replay.
use Prim.Native.String.{◌++◌}
use sha.Base.{
  http, not, ◌∙◌, ℕ, ap, ◌<◌, String, ◌≡◌, ◌↔◌, refl, sym, subst, Bool, true, not, ◌&&◌, arith,
  Option, none, some, ok, err, Result, if◌then◌else◌, ◌⊎◌, inl, inr, find_first, add_row, contains,
  string_eq,
}
use sha.Model.{
  Db, Action, action_eq, TroubleshootingScope, scope_eq, ResponseAction, Endpoint, ApprovalGrant,
  grant_is_approved,
}
use sha.Model.Tx.{raise_if, gets, or_raise, check, ◌>>=◌}
use sha.Text.{normalize_optional}
use sha.Model.Tx.Keeps.{>>=-eq-ok, >>=-or_raise}
use sha.Outside.{Outside}
use sha.Ids.{generate_prefixed_id}
use sha.Authz.{Principal, record_audit_event}
use sha.Controls.{Registry}
use sha.Approvals.{sync_expired_grants, is_hardening}
use sha.Actions.Shape.{
  ActionShape, is_given, is_unscoped, shape_of, normalize_action_shape, validate_grant_scope,
  declares_action_capability, parse_declared_capabilities, same_action_request, control_granted,
  scope_granted,
}
use sha.Actions.Create.{
  visible_endpoint, usable_grant, has_key, queued_action, add_action, check_control, replay,
  audited_insert, insert_action, replay_or_insert, create_action,
}

-- What an accepted shape looks like, by the kind of its action.
abbrev pub is_shaped : ActionShape → Bool
is_shaped (action, control_id, scope) =
    if is_hardening action
    then is_given control_id && not (is_given scope)
    else not (is_given control_id)
      && (if is_unscoped action then not (is_given scope) else is_given scope)

shape_of-shaped :
    (action : Action) (control_id : Option String) (scope : Option TroubleshootingScope)
    {shape : ActionShape}
    → shape_of action control_id scope ≡ ok shape
    → (is_shaped shape ≡ true) × (shape ≡ (action, control_id, scope))
unfolding shape_of
shape_of-shaped action control_id scope h = ground arith

shaped-shape_of :
    (action : Action) (control_id : Option String) (scope : Option TroubleshootingScope)
    → is_shaped (action, control_id, scope) ≡ true
    → shape_of action control_id scope ≡ ok (action, control_id, scope)
unfolding shape_of
shaped-shape_of action control_id scope h = ground arith

-- Normalising gives a shape exactly where the control identifier, if any, trims to the shape's,
-- the action and the scope are the shape's, and the shape fits the kind of the action: a hardening
-- action has a control and no scope, collecting evidence has neither, and any other action has a
-- scope and no control.
pub normalize_action_shape_iff :
    (action : Action) (raw : Option String) (scope : Option TroubleshootingScope) (a : Action)
    (c : Option String) (s : Option TroubleshootingScope)
    → (normalize_action_shape action raw scope ≡ ok (a, c, s)) ↔ (
        (normalize_optional raw "control_id" ≡ ok c)
        × (a ≡ action)
        × (s ≡ scope)
        × (is_shaped (action, c, scope) ≡ true))
unfolding normalize_action_shape
normalize_action_shape_iff action raw scope a c s =
    by_control (normalize_optional raw "control_id") refl
  where
    by_control :
        (r : Result (Option String))
        → normalize_optional raw "control_id" ≡ r
        → (normalize_action_shape action raw scope ≡ ok (a, c, s)) ↔ (
            (normalize_optional raw "control_id" ≡ ok c)
            × (a ≡ action)
            × (s ≡ scope)
            × (is_shaped (action, c, scope) ≡ true))
    by_control (err x) e = rw e (λ h. cc, λ h. cc)
    by_control (ok control_id) e = rw e (
      λ h.
          let (t, q) = shape_of-shaped action control_id scope h in
          (ground arith, ground arith, ground arith, ground arith),
      λ h.
          let (c', a', s', t) = h in
          let q : control_id ≡ c = (cc) in
          let k = shaped-shape_of action control_id scope (ground arith) in rw k (cc),
    )

check_control_lem :
    (registry : Registry) (endpoint : Endpoint) (action : Action) (control_id : Option String)
    (db : Db) {u : Unit} {db' : Db}
    → check_control registry endpoint action control_id db ≡ ok (u, db')
    → db' ≡ db
unfolding check_control ◌>>=◌
check_control_lem registry endpoint action none db h = ground arith
check_control_lem registry endpoint action (some c) db h = ground arith

-- A live grant that covers the endpoint and the shape.
abbrev pub IsCovering : ApprovalGrant → String → ActionShape → ℕ → Type 0
IsCovering grant endpoint_id shape now =
    (grant_is_approved grant.status ≡ true)
    × (now < grant.expires_at)
    × (contains endpoint_id grant.endpoint_ids ≡ true)
    × (contains shape.0 grant.allowed_actions ≡ true)
    × (control_granted shape.1 grant ≡ true)
    × (scope_granted shape.2 grant ≡ true)

validate_grant_scope-IsCovering :
    (grant : ApprovalGrant) (id : String) (shape : ActionShape) (now : ℕ)
    → validate_grant_scope grant id shape now ≡ ok tt
    → IsCovering grant id shape now
unfolding validate_grant_scope
validate_grant_scope-IsCovering grant id (a, c, s) now h = ground arith

module _ (o : Outside) (registry : Registry) (now : ℕ) (p : Principal) (endpoint : Endpoint)
    (id grant_id : String) (shape : ActionShape) (key reason : String) (db : Db) where
  -- The row that the next draw gives.
  abbrev pub next_action : ResponseAction
  next_action =
      queued_action (("act" ++ "_") ++ o.uuid db.draws) id grant_id shape key p.subject reason now

  replay-some :
      (existing : ResponseAction) {row : ResponseAction} {db' : Db}
      → replay o registry now p (some existing) grant_id shape reason db ≡ ok (row, db')
      → (same_action_request existing grant_id shape p.subject reason ≡ true)
        × (row ≡ existing)
        × (db' ≡ db)
  unfolding replay ◌>>=◌
  replay-some existing h = ground arith

  insert_new :
      {row : ResponseAction} {db' : Db}
      → find_first (has_key id key) db.actions ≡ none
      → insert_action o registry now p endpoint id grant_id shape key reason db ≡ ok (row, db')
      → (row ≡ next_action) × (db'.actions ≡ add_row next_action db.actions)
  unfolding insert_action audited_insert replay add_action record_audit_event generate_prefixed_id
      ◌>>=◌
  insert_new none_yet h = ground arith

  abbrev pub IsReplay : Option ResponseAction → ResponseAction → Db → Type 0
  IsReplay found row db' =
      (found ≡ some row)
      × (same_action_request row grant_id shape p.subject reason ≡ true)
      × (db' ≡ db)

  abbrev pub IsInsertion : Option ResponseAction → ResponseAction → Db → Type 0
  IsInsertion found row db' =
      (found ≡ none) × (row ≡ next_action) × (db'.actions ≡ add_row next_action db.actions)

  replay_or_insert_lem :
      {row : ResponseAction} {db' : Db} (found : Option ResponseAction)
      → find_first (has_key id key) db.actions ≡ found
      → replay_or_insert o registry now p found endpoint id grant_id shape key reason db
        ≡ ok (row, db')
      → IsReplay found row db' ⊎ IsInsertion found row db'
  unfolding replay_or_insert
  replay_or_insert_lem none e h = let (q, a) = insert_new e h in inr (refl, q, a)
  replay_or_insert_lem (some r) e h =
      let (t, q, d) = replay-some r h in
      inl (
        ap some (sym q),
        subst (λ x. same_action_request x grant_id shape p.subject reason ≡ true) (sym q) t,
        d,
      )

module _ (o : Outside) (registry : Registry) (now : ℕ) (p : Principal) (id grant_id : String)
    (shape : ActionShape) (key reason : String) (db : Db) {mid : Db} {endpoint : Endpoint}
    {grant : ApprovalGrant} (synced : sync_expired_grants o now db ≡ ok (tt, mid))
    (found : find_first (visible_endpoint p "response_action.create" id) mid.endpoints
      ≡ some endpoint)
    (granted : find_first (usable_grant grant_id endpoint) mid.grants ≡ some grant) where
  create_steps :
      {row : ResponseAction} {db' : Db}
      → create_action o registry now p id grant_id shape key reason db ≡ ok (row, db')
      → (check_control registry endpoint shape.0 shape.1 mid ≡ ok (tt, mid))
        × (declares_action_capability (parse_declared_capabilities endpoint) shape.0 shape.1 ≡ true)
        × (validate_grant_scope grant id shape now ≡ ok tt)
        × (replay_or_insert o registry now p
              (find_first (has_key id key) mid.actions)
              endpoint
              id
              grant_id
              shape
              key
              reason
              mid
            ≡ ok (row, db'))
  unfolding create_action ◌>>=◌
  create_steps {row} {db'} h = by_control (check_control registry endpoint shape.0 shape.1 mid) refl
    where
      by_control :
          (r : Result (Unit {0} × Db))
          → check_control registry endpoint shape.0 shape.1 mid ≡ r
          → (check_control registry endpoint shape.0 shape.1 mid ≡ ok (tt, mid))
            × (declares_action_capability (parse_declared_capabilities endpoint) shape.0 shape.1
                ≡ true)
            × (validate_grant_scope grant id shape now ≡ ok tt)
            × (replay_or_insert o registry now p
                  (find_first (has_key id key) mid.actions)
                  endpoint
                  id
                  grant_id
                  shape
                  key
                  reason
                  mid
                ≡ ok (row, db'))
      by_control (err x) e = absurd (ground arith)
      by_control (ok (u, last)) e =
          let q = check_control_lem registry endpoint shape.0 shape.1 mid e in ground arith

module _ (o : Outside) (registry : Registry) (now : ℕ) (p : Principal) (id grant_id : String)
    (shape : ActionShape) (key reason : String) (db : Db) where
  grant_found :
      (endpoint : Endpoint) (last : Db) {row : ResponseAction} {db' : Db}
      → (raise_if
              (not
                (declares_action_capability (parse_declared_capabilities endpoint) shape.0 shape.1))
              (http 422 "endpoint has not declared action capability")
            >>= λ u. gets (λ d. find_first (usable_grant grant_id endpoint) d.grants) >>= λ found.
                or_raise found (http 404 "approval grant not found") >>= λ grant.
                check (validate_grant_scope grant id shape now) >>= λ v.
                gets (λ d. find_first (has_key id key) d.actions) >>= λ existing.
                replay_or_insert o registry now p existing endpoint id grant_id shape key reason)
          last
        ≡ ok (row, db')
      → (grant : ApprovalGrant) × (find_first (usable_grant grant_id endpoint) last.grants
          ≡ some grant)
  unfolding ◌>>=◌
  grant_found endpoint last h = ground arith

  -- The endpoint and the grant that a success has found, once the grants are synchronised.
  create_opens :
      {row : ResponseAction} {db' : Db}
      → create_action o registry now p id grant_id shape key reason db ≡ ok (row, db')
      → (mid : Db) × (endpoint : Endpoint) × (grant : ApprovalGrant) × (sync_expired_grants o now db
          ≡ ok (tt, mid))
        × (find_first (visible_endpoint p "response_action.create" id) mid.endpoints
            ≡ some endpoint)
        × (find_first (usable_grant grant_id endpoint) mid.grants ≡ some grant)
  unfolding create_action ◌>>=◌
  create_opens h =
      let (u, mid, synced, h1) = >>=-eq-ok (sync_expired_grants o now) _ db h in
      let (endpoint, found, h2) =
        >>=-or_raise (find_first (visible_endpoint p "response_action.create" id) mid.endpoints) _ _
          mid h1 in
      let (v, last, checked, h3) =
        >>=-eq-ok (check_control registry endpoint shape.0 shape.1) _ mid h2 in
      let same = check_control_lem registry endpoint shape.0 shape.1 mid checked in
      let (grant, granted) = grant_found endpoint last h3 in
      (
        mid,
        endpoint,
        grant,
        synced,
        found,
        ap (λ d. find_first (usable_grant grant_id endpoint) d.grants) (sym same) ∙ granted,
      )

  -- An action is created, once the grants are synchronised, only on an endpoint that the principal
  -- may reach and that declares the capability, under a live grant that covers the endpoint, the
  -- action, its control and its scope. Where the key is bound already, the answer is the row it is
  -- bound to, which stands for the same request, and nothing more is written; else the answer is
  -- one new queued row behind the others.
  pub create-requires :
      {row : ResponseAction} {db' : Db}
      → create_action o registry now p id grant_id shape key reason db ≡ ok (row, db')
      → (mid : Db) × (endpoint : Endpoint) × (grant : ApprovalGrant) × (sync_expired_grants o now db
          ≡ ok (tt, mid))
        × (find_first (visible_endpoint p "response_action.create" id) mid.endpoints
            ≡ some endpoint)
        × (find_first (usable_grant grant_id endpoint) mid.grants ≡ some grant)
        × IsCovering grant id shape now
        × (declares_action_capability (parse_declared_capabilities endpoint) shape.0 shape.1 ≡ true)
        × (IsReplay o registry now p endpoint id grant_id shape key reason mid
              (find_first (has_key id key) mid.actions)
              row
              db'
            ⊎ IsInsertion o registry now p endpoint id grant_id shape key reason mid
                (find_first (has_key id key) mid.actions)
                row
                db')
  create-requires h =
      let (mid, endpoint, grant, synced, found, granted) = create_opens h in
      let (c, d, v, r) =
        create_steps o registry now p id grant_id shape key reason db synced found granted h in
      (
        mid,
        endpoint,
        grant,
        synced,
        found,
        granted,
        validate_grant_scope-IsCovering grant id shape now v,
        d,
        replay_or_insert_lem o registry now p endpoint id grant_id shape key reason mid _ refl r,
      )
