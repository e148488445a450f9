-- ===== src/Endpoints/Beating.antt =====
-- What a heartbeat writes, and what it leaves to the approval of the endpoint.
use sha.Base.{
  ℕ, String, ◌≡◌, true, ok, arith, find_first, select_where, length, Memᴰ, refl, false, ◌&&◌,
  string_eq, Bool, Bool-cases, inl, inr, ◌⊎◌, ap, subst, ◌∙◌, mem-update_first, find_first-some,
  some, http,
}
use sha.Text.{trim_required}
use sha.Model.{Db, Endpoint, EndpointStatus, endpoint_is_pending, mode_is_device}
use sha.Model.Tx.{check, gets, or_raise, ◌>>=◌}
use sha.Model.Tx.Keeps.{>>=-eq-ok, check-eq-ok, or_raise-eq-ok}
use sha.Controls.{Registry}
use sha.Authz.{Principal, enforce_device_endpoint}
use sha.Approvals.{endpoint_has_id}
use sha.Actions.{enforce_endpoint_credential_mode, is_candidate}
use sha.Identity.{write_endpoint}
use sha.Endpoints.Heartbeat.{
  HeartbeatPayload, HeartbeatAck, Beat, beaten, beaten_status, pending_actions, beat_endpoint,
  read_beat, check_protocol, heartbeat_endpoint,
}

module _ (registry : Registry) (now : ℕ) (p : Principal) (payload : HeartbeatPayload) where
  beat_steps :
      (b : Beat) (e : Endpoint) (db : Db) {ack : HeartbeatAck} {db' : Db}
      → beat_endpoint registry now p payload b e db ≡ ok (ack, db')
      → (enforce_endpoint_credential_mode p e.credential_mode ≡ ok tt)
        × (ack.endpoint.endpoint_id ≡ e.endpoint_id)
        × (ack.endpoint.client_id ≡ e.client_id)
        × (ack.endpoint.location_id ≡ e.location_id)
        × (ack.endpoint.credential_mode ≡ e.credential_mode)
        × (ack.endpoint.installation_id ≡ e.installation_id)
        × (ack.endpoint.status ≡ beaten_status e)
        × (ack.pending_action_count ≡ pending_actions now ack.endpoint db')
        × (db' ≡ write_endpoint (endpoint_has_id e.endpoint_id) (λ x. ack.endpoint) db)
  unfolding beat_endpoint beaten ◌>>=◌
  beat_steps b e db h = ground arith

  read_keeps :
      (db : Db) {b : Beat} {mid : Db} → read_beat registry now p payload db ≡ ok (b, mid) → mid ≡ db
  unfolding read_beat check_protocol ◌>>=◌
  read_keeps db h = ground arith

  found_steps :
      (id : String) (b : Beat) (db : Db) {ack : HeartbeatAck} {db' : Db}
      → (gets (λ db. find_first (endpoint_has_id id) db.endpoints) >>= λ found.
            or_raise found (http 404 "endpoint not found")
            >>= beat_endpoint registry now p payload b)
          db
        ≡ ok (ack, db')
      → (e : Endpoint) × (find_first (endpoint_has_id id) db.endpoints ≡ some e)
        × (beat_endpoint registry now p payload b e db ≡ ok (ack, db'))
  unfolding ◌>>=◌
  found_steps id b db h =
      let (e, mid, raised, last) =
        >>=-eq-ok (or_raise (find_first (endpoint_has_id id) db.endpoints) _) _ db h in
      let (found, same) = or_raise-eq-ok _ _ db raised in (e, found, cc)

  heartbeat_steps :
      (raw : String) (db : Db) {ack : HeartbeatAck} {db' : Db}
      → heartbeat_endpoint registry now p raw payload db ≡ ok (ack, db')
      → (id : String) × (b : Beat) × (e : Endpoint) × (trim_required raw "endpoint_id" ≡ ok id)
        × (enforce_device_endpoint p id ≡ ok tt)
        × (find_first (endpoint_has_id id) db.endpoints ≡ some e)
        × (beat_endpoint registry now p payload b e db ≡ ok (ack, db'))
  unfolding heartbeat_endpoint
  heartbeat_steps raw db h =
      let (id, m1, named, h1) = >>=-eq-ok (check (trim_required raw "endpoint_id")) _ db h in
      let (n, e1) = check-eq-ok (trim_required raw "endpoint_id") db named in
      let (u, m2, allowed, h2) = >>=-eq-ok (check (enforce_device_endpoint p id)) _ m1 h1 in
      let (a, e2) = check-eq-ok (enforce_device_endpoint p id) m1 allowed in
      let (b, m3, read, h3) = >>=-eq-ok (read_beat registry now p payload) _ m2 h2 in
      let e3 = read_keeps m2 read in
      let (e, found, last) = found_steps id b m3 h3 in (id, b, e, n, cc, cc, cc)

  stays_pending :
      (e : Endpoint)
      → mode_is_device e.credential_mode && endpoint_is_pending e.status ≡ true
      → endpoint_is_pending (beaten_status e) ≡ true
  unfolding beaten_status
  stays_pending e h = ground arith

  no_pending :
      (e : Endpoint) (db : Db) → endpoint_is_pending e.status ≡ true → pending_actions now e db ≡ 0
  unfolding pending_actions
  no_pending e db h = ground arith

  becomes_active :
      (e : Endpoint)
      → mode_is_device e.credential_mode && endpoint_is_pending e.status ≡ false
      → beaten_status e ≡ EndpointStatus.active
  unfolding beaten_status
  becomes_active e h = ground arith

  counts :
      (e : Endpoint) (db : Db)
      → e.status ≡ EndpointStatus.active
      → pending_actions now e db
        ≡ length (select_where (is_candidate now e.endpoint_id db.grants) db.actions)
  unfolding pending_actions
  counts e db h = rw h refl

  write_mem :
      (test : Endpoint → Bool) (new : Endpoint) (db : Db) {e : Endpoint}
      → find_first test db.endpoints ≡ some e
      → Memᴰ new (write_endpoint test (λ x. new) db).endpoints
  unfolding write_endpoint
  write_mem test new db h = mem-update_first test (λ x. new) db.endpoints h

  by_status :
      (id : String) (e : Endpoint) (ack : HeartbeatAck) (db : Db)
      → ack.endpoint.endpoint_id ≡ id
      → ack.endpoint.status ≡ beaten_status e
      → ack.pending_action_count ≡ pending_actions now ack.endpoint db
      → ((mode_is_device e.credential_mode && endpoint_is_pending e.status ≡ true)
          × (endpoint_is_pending ack.endpoint.status ≡ true)
          × (ack.pending_action_count ≡ 0))
        ⊎ ((mode_is_device e.credential_mode && endpoint_is_pending e.status ≡ false)
            × (ack.endpoint.status ≡ EndpointStatus.active)
            × (ack.pending_action_count
                ≡ length (select_where (is_candidate now id db.grants) db.actions)))
  by_status id e ack db same status count =
      elim (Bool-cases (mode_is_device e.credential_mode && endpoint_is_pending e.status)) [
        | inl waits ↦
            let still = ap (λ s. endpoint_is_pending s) status ∙ stays_pending e waits in
            inl (waits, still, count ∙ no_pending ack.endpoint db still)
        | inr other ↦
            let active = status ∙ becomes_active e other in
            inr (
              other,
              active,
              subst
                  (λ i.
                    ack.pending_action_count
                    ≡ length (select_where (is_candidate now i db.grants) db.actions))
                  same (count ∙ counts ack.endpoint db active),
            )
      ]

  -- A heartbeat that succeeds is of an endpoint that is known and that the caller may speak for.
  -- The row in the answer stands in the table, with the scope, the credential mode and the
  -- installation that the endpoint had. A device that waits for its approval still waits, and is
  -- told of no action; any other endpoint is active, and is told how many actions it could claim.
  pub heartbeat-waits :
      (raw : String) (db : Db) {ack : HeartbeatAck} {db' : Db}
      → heartbeat_endpoint registry now p raw payload db ≡ ok (ack, db')
      → (id : String) × (e : Endpoint) × (trim_required raw "endpoint_id" ≡ ok id)
        × (find_first (endpoint_has_id id) db.endpoints ≡ some e)
        × (enforce_device_endpoint p id ≡ ok tt)
        × (enforce_endpoint_credential_mode p e.credential_mode ≡ ok tt)
        × Memᴰ ack.endpoint db'.endpoints
        × (ack.endpoint.endpoint_id ≡ id)
        × (ack.endpoint.client_id ≡ e.client_id)
        × (ack.endpoint.location_id ≡ e.location_id)
        × (ack.endpoint.credential_mode ≡ e.credential_mode)
        × (ack.endpoint.installation_id ≡ e.installation_id)
        × (((mode_is_device e.credential_mode && endpoint_is_pending e.status ≡ true)
              × (endpoint_is_pending ack.endpoint.status ≡ true)
              × (ack.pending_action_count ≡ 0))
            ⊎ ((mode_is_device e.credential_mode && endpoint_is_pending e.status ≡ false)
                × (ack.endpoint.status ≡ EndpointStatus.active)
                × (ack.pending_action_count
                    ≡ length (select_where (is_candidate now id db'.grants) db'.actions))))
  heartbeat-waits raw db {ack} {db'} h =
      let (id, b, e, named, allowed, found, last) = heartbeat_steps raw db h in
      let (mode, same, client, location, kept, installed, status, count, after) =
        beat_steps b e db last in
      let (tested, in_table) = find_first-some (endpoint_has_id id) db.endpoints found in
      let ids : e.endpoint_id ≡ id = (string_eq.agrees_iff e.endpoint_id id).0 tested in
      let found_again : find_first (endpoint_has_id e.endpoint_id) db.endpoints ≡ some e =
        rw ids found in
      let written : Memᴰ ack.endpoint
          (write_endpoint (endpoint_has_id e.endpoint_id) (λ x. ack.endpoint) db).endpoints =
        write_mem (endpoint_has_id e.endpoint_id) ack.endpoint db found_again in
      (
        id,
        e,
        named,
        found,
        allowed,
        mode,
        rw after written,
        same ∙ ids,
        client,
        location,
        kept,
        installed,
        by_status id e ack db' (same ∙ ids) status count,
      )
