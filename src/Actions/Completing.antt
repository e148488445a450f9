-- ===== src/Actions/Completing.antt =====
-- What a result requires, and what it writes.
use sha.Base.{
  ℕ, String, ◌≡◌, sym, subst, Bool, true, false, arith, Option, none, some, ok, eq_iff, ltb, ◌⊎◌,
  inl, inr, find_first, find_first-some, update_first, ◌⊎◌,
}
use sha.Text.{trim_required}
use sha.Model.{Db, ResponseAction, Endpoint, ActionStatus, endpoint_is_pending}
use sha.Model.Tx.{◌>>=◌}
use sha.Model.Tx.Keeps.{Keeps}
use sha.Outside.{Outside}
use sha.Ids.{generate_prefixed_id}
use sha.Authz.{Principal, enforce_device_endpoint, record_audit_event}
use sha.Approvals.{endpoint_has_id}
use sha.Evolution.{
  Evolved, Evolved-trans, Evolved-refl, Evolves-update_first, ActionMoves, ActionMoves-refl,
}
use sha.Evolution.Steps.{evolved_rules, write_actions}
use sha.Actions.Lease.{
  enforce_endpoint_credential_mode, require_agent_endpoint, completed, report_action, finish_action,
  settle_action, same_result, complete_response_action, ResultPayload, write_action, lease_matches,
  is_result, is_leased, action_has_id,
}

-- The lease runs past the instant.
abbrev pub lease_runs : Option ℕ → ℕ → Bool
lease_runs none now = false
lease_runs (some t) now = ltb now t

module _ (o : Outside) (now : ℕ) (p : Principal) where
  finish_steps :
      (endpoint : Endpoint) (action : ResponseAction) (status : ActionStatus)
      (summary hash : String) (db : Db) {row : ResponseAction} {db' : Db}
      → finish_action o now p endpoint action status summary hash db ≡ ok (row, db')
      → (is_leased action.status ≡ true)
        × (lease_matches action.lease_token_hash hash ≡ true)
        × (lease_runs action.lease_expires_at now ≡ true)
        × (row ≡ completed o now p status summary action)
        × (db'.actions
            ≡ update_first
                (action_has_id action.response_action_id)
                (completed o now p status summary)
                db.actions)
  unfolding finish_action report_action write_action record_audit_event generate_prefixed_id ◌>>=◌
  finish_steps endpoint action status summary hash db h = ground arith

  finish_reports :
      (endpoint : Endpoint) (action : ResponseAction) (status : ActionStatus)
      (summary hash : String) (db : Db) {row : ResponseAction} {db' : Db}
      → finish_action o now p endpoint action status summary hash db ≡ ok (row, db')
      → report_action o now p endpoint action status summary
          (write_action action.response_action_id (completed o now p status summary) db)
        ≡ ok (row, db')
  unfolding finish_action ◌>>=◌
  finish_reports endpoint action status summary hash db h = ground arith

  Evolved-report_action :
      (endpoint : Endpoint) (action : ResponseAction) (status : ActionStatus) (summary : String)
      → Keeps Evolved (report_action o now p endpoint action status summary)
  unfolding report_action
  Evolved-report_action endpoint action status summary = search evolved_rules

  completes :
      (status : ActionStatus) (summary : String) (action : ResponseAction)
      → is_leased action.status ≡ true
      → is_result status ≡ true
      → ActionMoves action (completed o now p status summary action)
  unfolding completed
  completes status summary action h k = ground arith

  Evolved-finish_action :
      (endpoint : Endpoint) (action : ResponseAction) (status : ActionStatus)
      (summary hash : String) (db : Db) {row : ResponseAction} {db' : Db}
      → is_result status ≡ true
      → find_first (action_has_id action.response_action_id) db.actions ≡ some action
      → finish_action o now p endpoint action status summary hash db ≡ ok (row, db')
      → Evolved db db'
  unfolding write_action
  Evolved-finish_action endpoint action status summary hash db k found h =
      let (l, m, r, w, a) = finish_steps endpoint action status summary hash db h in
      Evolved-trans _ _ _
        (write_actions db _ (
          Evolves-update_first ActionMoves ActionMoves-refl _ _ db.actions found
            (completes status summary action l k)))
        ((Evolved-report_action endpoint action status summary).at _
          (finish_reports endpoint action status summary hash db h))

  settle_steps :
      (endpoint : Endpoint) (action : ResponseAction) (status : ActionStatus)
      (summary hash : String) (db : Db) {row : ResponseAction} {db' : Db}
      → settle_action o now p endpoint action status summary hash db ≡ ok (row, db')
      → ((is_result action.status ≡ true)
          × (same_result action status summary hash ≡ true)
          × (row ≡ action)
          × (db' ≡ db))
        ⊎ (finish_action o now p endpoint action status summary hash db ≡ ok (row, db'))
  unfolding settle_action ◌>>=◌
  settle_steps endpoint action status summary hash db h = ground arith

-- A result, once its texts are trimmed and its rows are found.
module _ (o : Outside) (now : ℕ) (p : Principal) (raw_id : String) (payload : ResultPayload)
    {id summary : String} (db : Db) {action : ResponseAction} {endpoint : Endpoint}
    (trimmed : trim_required raw_id "response_action_id" ≡ ok id)
    (summarised : trim_required payload.result_summary "result_summary" ≡ ok summary)
    (found : find_first (action_has_id id) db.actions ≡ some action)
    (placed : find_first (endpoint_has_id action.endpoint_id) db.endpoints ≡ some endpoint) where
  complete_steps :
      {row : ResponseAction} {db' : Db}
      → complete_response_action o now p raw_id payload db ≡ ok (row, db')
      → (is_result payload.status ≡ true)
        × (enforce_device_endpoint p action.endpoint_id ≡ ok tt)
        × (enforce_endpoint_credential_mode p endpoint.credential_mode ≡ ok tt)
        × (endpoint_is_pending endpoint.status ≡ false)
        × (settle_action o now p endpoint action payload.status summary
              (o.sha256_hex payload.lease_token)
              db
            ≡ ok (row, db'))
  unfolding complete_response_action require_agent_endpoint enforce_device_endpoint
      enforce_endpoint_credential_mode ◌>>=◌
  complete_steps h = ground arith

  key_found : find_first (action_has_id action.response_action_id) db.actions ≡ some action
  key_found =
      let (t, m) = find_first-some _ db.actions found in
      let e : action.response_action_id ≡ id = (eq_iff action.response_action_id id).0 t in
      subst (λ x. find_first (action_has_id x) db.actions ≡ some action) (sym e) found

  complete_evolves :
      {row : ResponseAction} {db' : Db}
      → complete_response_action o now p raw_id payload db ≡ ok (row, db')
      → Evolved db db'
  complete_evolves {row} {db'} h =
      let (k, d, c, n, s) = complete_steps h in
      elim (settle_steps o now p endpoint action payload.status summary _ db s) [
        | inl (t, same, r, e) ↦ subst (λ x. Evolved db x) (sym e) (Evolved-refl db)
        | inr f ↦
            Evolved-finish_action o now p endpoint action payload.status summary _ db k key_found f
      ]

module _ (o : Outside) (now : ℕ) (p : Principal) (raw_id : String) (payload : ResultPayload)
    (db : Db) where
  complete_opens :
      {row : ResponseAction} {db' : Db}
      → complete_response_action o now p raw_id payload db ≡ ok (row, db')
      → (id : String) × (summary : String) × (action : ResponseAction) × (endpoint : Endpoint)
        × (trim_required raw_id "response_action_id" ≡ ok id)
        × (trim_required payload.result_summary "result_summary" ≡ ok summary)
        × (find_first (action_has_id id) db.actions ≡ some action)
        × (find_first (endpoint_has_id action.endpoint_id) db.endpoints ≡ some endpoint)
  unfolding complete_response_action require_agent_endpoint ◌>>=◌
  complete_opens h = ground arith

pub Evolved-complete_response_action :
    (o : Outside) (now : ℕ) (p : Principal) (raw_id : String) (payload : ResultPayload)
    → Keeps Evolved (complete_response_action o now p raw_id payload)
Evolved-complete_response_action o now p raw_id payload = record {
  at = λ db {a} {db'} h.
      let (id, summary, action, endpoint, named, summarised, found, placed) =
        complete_opens o now p raw_id payload db h in
      complete_evolves o now p raw_id payload db named summarised found placed h;
}
