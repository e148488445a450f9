-- ===== src/Identity/Repeating.antt =====
-- An exchange whose answer was lost may be sent again: the agent gets the same endpoint and the
-- same credential.
use sha.Base.{
  inl, inr, ℕ, ◌+◌, ◌*◌, ◌<◌, ◌≡◌, refl, Bool, true, false, some, List, Memᴰ, arith, ok,
  if◌then◌else◌, str_eq, str_refl, ◌∙◌, sym, eq_iff, find_first-some, find_first_of_mem, find_first,
  find_first-none_of_any, find_first-add_row, find_first-update_where,
}
use sha.Model.{Db, EnrollmentToken, EnrollmentRedemption, Endpoint, DeviceCredential}
use sha.Model.Tx.{◌>>=◌}
use sha.Outside.{Outside}
use sha.Ids.{generate_prefixed_id}
use sha.Authz.{Principal, record_audit_event}
use sha.Approvals.{endpoint_has_id}
use sha.Identity.Credentials.{credential_has_id, active_credential}
use sha.Identity.Redemption.{
  Exchanged, token_has_id, redemption_of, consumable, consumed, redemption_row,
}
use sha.Identity.Exchange.{
  Attempt, supplied_hash, answers, replay, record_redemption, redeem_or_replay, secret_fits,
  exchange_attempt,
}
use sha.Identity.Exchanging.{issued, redeemed}
use sha.Identity.Enrolling.{IsEnrollment, exchange-outcome}

module _ (o : Outside) (now : ℕ) (p : Principal) (x : Attempt) where
  redemption_recorded :
      (endpoint : Endpoint) (replayed : Bool) (db : Db)
      → (left : Db) × (record_redemption o now p x endpoint replayed db ≡ ok (tt, left))
  unfolding record_redemption record_audit_event generate_prefixed_id ◌>>=◌
  redemption_recorded endpoint replayed db = (_, refl)

  -- A replay succeeds where it finds the rows.
  replay_runs :
      (redemption : EnrollmentRedemption) (db : Db) (credential : DeviceCredential)
      (endpoint : Endpoint)
      → str_eq x.request_hash redemption.request_hash ≡ true
      → find_first (credential_has_id redemption.credential_id) db.credentials ≡ some credential
      → find_first (endpoint_has_id redemption.endpoint_id) db.endpoints ≡ some endpoint
      → answers o now p x credential ≡ true
      → (left : Db) × (replay o now p x redemption db
          ≡ ok (record { endpoint = endpoint; credential = credential; replayed = true }, left))
  unfolding replay ◌>>=◌
  replay_runs redemption db credential endpoint same fc fe a =
      let (left, w) = redemption_recorded endpoint true db in (left, ground arith)

  attempt_runs :
      (db : Db) (token : EnrollmentToken) (redemption : EnrollmentRedemption)
      → find_first (token_has_id x.token_id) db.tokens ≡ some token
      → secret_fits o now p x token ≡ true
      → find_first (redemption_of x.token_id x.values.installation_id) db.redemptions
        ≡ some redemption
      → exchange_attempt o now p x db ≡ replay o now p x redemption db
  unfolding exchange_attempt redeem_or_replay ◌>>=◌
  attempt_runs db token redemption ft fits fr = ground arith

  redeemed_found :
      (endpoint : Endpoint) (draw : ℕ)
      → redemption_of x.token_id x.values.installation_id (redeemed o now p x endpoint draw) ≡ true
  unfolding redemption_row
  redeemed_found endpoint draw =
      let a = str_refl x.token_id in let b = str_refl x.values.installation_id in ground arith

  consumed_fits :
      (token : EnrollmentToken)
      → secret_fits o now p x (consumed now token) ≡ secret_fits o now p x token
  unfolding secret_fits consumed
  consumed_fits token = refl

  issued-answers :
      (later : ℕ) (endpoint : Endpoint)
      → later < now + 86400 * x.lifetime_days
      → answers o later p x (issued o now p x endpoint) ≡ true
  unfolding answers active_credential
  issued-answers later endpoint h =
      let a = str_refl x.values.credential_id in
      let b = str_refl (supplied_hash o now p x) in ground arith

  token_kept :
      (token : EnrollmentToken) (test : Bool)
      → secret_fits o now p x token ≡ true
      → secret_fits o now p x (if test then consumed now token else token) ≡ true
  token_kept token true h = consumed_fits token ∙ h
  token_kept token false h = h

module _ (o : Outside) (now : ℕ) (p : Principal) (x : Attempt) where
  endpoint_found :
      (endpoint : Endpoint) (rows : List Endpoint)
      → Memᴰ endpoint rows
      → (e : Endpoint) × (find_first (endpoint_has_id endpoint.endpoint_id) rows ≡ some e)
        × (e.endpoint_id ≡ endpoint.endpoint_id)
  endpoint_found endpoint rows m =
      let test = endpoint_has_id endpoint.endpoint_id in
      let (e, f) = find_first_of_mem test rows m (str_refl endpoint.endpoint_id) in
      let (t, n) = find_first-some test rows f in
      (e, f, (eq_iff e.endpoint_id endpoint.endpoint_id).0 t)

  enrollment_replays :
      (token : EnrollmentToken) (db : Db) {row : Exchanged} (db' : Db) (later : ℕ)
      → find_first (token_has_id x.token_id) db.tokens ≡ some token
      → secret_fits o now p x token ≡ true
      → IsEnrollment o now p x token db row db'
      → later < now + 86400 * x.lifetime_days
      → (second : Exchanged) × (left : Db) × (exchange_attempt o later p x db' ≡ ok (second, left))
        × (second.credential ≡ row.credential)
        × (second.endpoint.endpoint_id ≡ row.endpoint.endpoint_id)
        × (second.replayed ≡ true)
  unfolding consumed active_credential redemption_row secret_fits
  enrollment_replays token db {row} db' later ft fits e before =
      let (draw, rs) = e.redemption in
      let kept : EnrollmentToken =
        if consumable now x.token_id token then consumed now token else token in
      let ft' : find_first (token_has_id x.token_id) db'.tokens ≡ some kept = rw e.tokens (
        find_first-update_where (token_has_id x.token_id) (consumable now x.token_id) (consumed now)
          (λ t. refl) db.tokens ft) in
      let fr : find_first (redemption_of x.token_id x.values.installation_id) db'.redemptions
          ≡ some (redeemed o now p x row.endpoint draw) =
        rw rs (
          find_first-add_row _ _ db.redemptions e.unredeemed
            (redeemed_found o now p x row.endpoint draw)) in
      let fc : find_first (credential_has_id x.values.credential_id) db'.credentials
          ≡ some (issued o now p x row.endpoint) =
        rw (e.credentials, e.credential)
          (find_first-add_row _ _ db.credentials
            (find_first-none_of_any _ db.credentials e.unissued)
            (str_refl x.values.credential_id)) in
      let (endpoint, fe, same) = endpoint_found row.endpoint db'.endpoints e.stored in
      let (left, run) =
        replay_runs o later p x (redeemed o now p x row.endpoint draw) db'
          (issued o now p x row.endpoint) endpoint (str_refl x.request_hash) fc fe
          (issued-answers o now p x later row.endpoint before) in
      (
        record { endpoint = endpoint; credential = issued o now p x row.endpoint; replayed = true },
        left,
        attempt_runs o later p x db' kept _ ft'
              (token_kept o now p x token (consumable now x.token_id token) fits) fr
            ∙ run,
        sym e.credential,
        same,
        refl,
      )

  -- Where a first exchange has succeeded and nothing else was written since, the same request with
  -- the same token succeeds again at any time before the credential expires, whatever the clock
  -- said, and is answered with the same credential, on the endpoint with the same identifier, as a
  -- replay.
  pub exchange-replays :
      (db : Db) {row : Exchanged} {db' : Db} (later : ℕ)
      → exchange_attempt o now p x db ≡ ok (row, db')
      → row.replayed ≡ false
      → later < now + 86400 * x.lifetime_days
      → (second : Exchanged) × (left : Db) × (exchange_attempt o later p x db' ≡ ok (second, left))
        × (second.credential ≡ row.credential)
        × (second.endpoint.endpoint_id ≡ row.endpoint.endpoint_id)
        × (second.replayed ≡ true)
  exchange-replays db {row} {db'} later h first before =
      let (token, ft, fits, outcome) = exchange-outcome o now p x db h in
      elim outcome [
        | inl replay ↦ cc (replay.mode, first)
        | inr e ↦ enrollment_replays token db db' later ft fits e before
      ]
