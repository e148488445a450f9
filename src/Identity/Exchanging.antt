-- ===== src/Identity/Exchanging.antt =====
-- What each step of an exchange asks for, and what it writes.
use Prim.Native.String.{◌++◌}
use sha.Base.{
  ◌∙◌, Bool, refl, sym, ℕ, ◌≡◌, true, false, Option, none, some, List, arith, ok, any, str_eq,
  find_first, update_first, update_where, add_row, ap, Memᴰ, mem-add_row_self, mem-update_first,
}
use sha.Model.{
  AuditEvent, Db, EnrollmentToken, EnrollmentRedemption, Endpoint, Client, Location,
  DeviceCredential, row_is_active,
}
use sha.Model.Tx.{◌>>=◌}
use sha.Model.Tx.Keeps.{>>=-eq-ok}
use sha.Outside.{Outside}
use sha.Ids.{generate_prefixed_id}
use sha.Authz.{Principal, record_audit_event}
use sha.Approvals.{endpoint_has_id}
use sha.Hierarchy.{client_has_id, location_of}
use sha.Identity.Tokens.{TokenState, token_state}
use sha.Identity.Credentials.{
  credential_has_id, credential_clashes, add_credential, active_credential,
}
use sha.Identity.Redemption.{
  Exchanged, token_has_id, redemption_of, other_platform, installed_as, has_fingerprint, consumable,
  consumed, consume, add_endpoint, write_endpoint, add_redemption, enrolled_endpoint,
  migrated_endpoint, redemption_row, blocks_migration,
}
use sha.Identity.Exchange.{
  Attempt, supplied_hash, record_redemption, answers, replay, record_migration, issue_credential,
  enroll_endpoint, consume_token, claim_installation, redeem, redeem_or_replay, secret_fits,
  exchange_attempt,
}

-- The one database with the tables of the other that an enrollment writes.
abbrev pub enrolled_over : Db → Db → Db
enrolled_over db after = record db {
  endpoints = after.endpoints;
  tokens = after.tokens;
  credentials = after.credentials;
  redemptions = after.redemptions;
  audit = after.audit;
  draws = after.draws;
}

audited_only :
    (event : AuditEvent) (n : ℕ) (db db' : Db)
    → db' ≡ record db { audit = add_row event db.audit; draws = n }
    → db' ≡ record db { audit = db'.audit; draws = db'.draws }
audited_only event n db db' h = h ∙ sym (ap (λ d. record db { audit = d.audit; draws = d.draws }) h)

-- Two steps that write no other table.
over_trans : (a b c : Db) → b ≡ enrolled_over a b → c ≡ enrolled_over b c → c ≡ enrolled_over a c
over_trans a b c h k = k ∙ ap (λ z. enrolled_over z c) h

module _ (o : Outside) (now : ℕ) (p : Principal) (x : Attempt) where
  redemption_audited :
      (endpoint : Endpoint) (replayed : Bool) (db : Db)
      → (event : AuditEvent) × (n : ℕ) × (record_redemption o now p x endpoint replayed db
          ≡ ok (tt, record db { audit = add_row event db.audit; draws = n }))
  unfolding record_redemption record_audit_event generate_prefixed_id ◌>>=◌
  redemption_audited endpoint replayed db = (_, _, refl)

  replay_asks :
      (redemption : EnrollmentRedemption) (db : Db) {row : Exchanged} {db' : Db}
      → replay o now p x redemption db ≡ ok (row, db')
      → (str_eq x.request_hash redemption.request_hash ≡ true)
        × (find_first (credential_has_id redemption.credential_id) db.credentials
            ≡ some row.credential)
        × (find_first (endpoint_has_id redemption.endpoint_id) db.endpoints ≡ some row.endpoint)
        × (answers o now p x row.credential ≡ true)
        × (row.replayed ≡ true)
  unfolding replay record_redemption record_audit_event generate_prefixed_id ◌>>=◌
  replay_asks redemption db h = ground arith

  -- What a replay asks for; it only writes an audit event.
  pub replay_steps :
      (redemption : EnrollmentRedemption) (db : Db) {row : Exchanged} {db' : Db}
      → replay o now p x redemption db ≡ ok (row, db')
      → (str_eq x.request_hash redemption.request_hash ≡ true)
        × (find_first (credential_has_id redemption.credential_id) db.credentials
            ≡ some row.credential)
        × (find_first (endpoint_has_id redemption.endpoint_id) db.endpoints ≡ some row.endpoint)
        × (answers o now p x row.credential ≡ true)
        × (row.replayed ≡ true)
        × ((event : AuditEvent) × (db'.audit ≡ add_row event db.audit))
        × (db' ≡ record db { audit = db'.audit; draws = db'.draws })
  unfolding replay ◌>>=◌
  replay_steps redemption db {row} {db'} h =
      let (same, fc, fe, a, replayed) = replay_asks redemption db h in
      let (event, n, w) = redemption_audited row.endpoint true db in
      let left : db' ≡ record db { audit = add_row event db.audit; draws = n } = ground arith in
      (same, fc, fe, a, replayed, (event, ap (λ d. d.audit) left), audited_only event n db db' left)

  -- The credential that an exchange gives to an endpoint.
  abbrev pub issued : Endpoint → DeviceCredential
  issued endpoint =
      active_credential x.values.credential_id endpoint.endpoint_id (supplied_hash o now p x) now
        x.lifetime_days

  -- The redemption that it records.
  abbrev pub redeemed : Endpoint → ℕ → EnrollmentRedemption
  redeemed endpoint draw =
      redemption_row (("er" ++ "_") ++ o.uuid draw) now x.request_hash x.values x.token_id
        endpoint.endpoint_id

  pub issue_steps :
      (legacy : Option Endpoint) (endpoint : Endpoint) (db : Db) {row : Exchanged} {db' : Db}
      → issue_credential o now p x legacy endpoint db ≡ ok (row, db')
      → (row ≡ record { endpoint = endpoint; credential = issued endpoint; replayed = false })
        × (any (credential_clashes (issued endpoint)) db.credentials ≡ false)
        × (db'.credentials ≡ add_row (issued endpoint) db.credentials)
        × (db'.redemptions ≡ add_row (redeemed endpoint db.draws) db.redemptions)
        × (db'.endpoints ≡ db.endpoints)
        × (db'.tokens ≡ db.tokens)
        × (db' ≡ enrolled_over db db')
  unfolding issue_credential record_migration add_credential add_redemption record_redemption
      record_audit_event generate_prefixed_id ◌>>=◌
  issue_steps none endpoint db h = ground arith
  issue_steps (some legacy) endpoint db h = ground arith

  -- Where the endpoint comes from: a row of its own, or the legacy row with the fingerprint.
  abbrev pub enrolled : EnrollmentToken → Client → Location → Option Endpoint → ℕ → Endpoint
  enrolled token client location none draw =
      enrolled_endpoint (("ep" ++ "_") ++ o.uuid draw) now x.values token client location
  enrolled token client location (some legacy) draw = migrated_endpoint now x.values token legacy

  abbrev pub enrolled_in : Option Endpoint → Endpoint → List Endpoint → List Endpoint
  enrolled_in none endpoint rows = add_row endpoint rows
  enrolled_in (some legacy) endpoint rows =
      update_first (has_fingerprint x.values.agent_fingerprint) (λ e. endpoint) rows

  pub enroll_steps :
      (token : EnrollmentToken) (client : Client) (location : Location) (legacy : Option Endpoint)
      (db : Db) {endpoint : Endpoint} {db' : Db}
      → enroll_endpoint o now p x token client location legacy db ≡ ok (endpoint, db')
      → (endpoint ≡ enrolled token client location legacy db.draws)
        × (db'.endpoints ≡ enrolled_in legacy endpoint db.endpoints)
        × (db'.tokens ≡ db.tokens)
        × (db'.credentials ≡ db.credentials)
        × (db'.redemptions ≡ db.redemptions)
        × (db' ≡ enrolled_over db db')
  unfolding enroll_endpoint add_endpoint write_endpoint generate_prefixed_id ◌>>=◌
  enroll_steps token client location none db h = ground arith
  enroll_steps token client location (some legacy) db h = ground arith

  -- The row that is answered is in the table.
  pub enrolled_in_mem :
      (legacy : Option Endpoint) (endpoint : Endpoint) (rows : List Endpoint)
      → find_first (has_fingerprint x.values.agent_fingerprint) rows ≡ legacy
      → Memᴰ endpoint (enrolled_in legacy endpoint rows)
  enrolled_in_mem none endpoint rows h = mem-add_row_self endpoint rows
  enrolled_in_mem (some legacy) endpoint rows h =
      mem-update_first (has_fingerprint x.values.agent_fingerprint) (λ e. endpoint) rows h

  consume_opens :
      (token : EnrollmentToken) (client : Client) (location : Location) (legacy : Option Endpoint)
      (db : Db) {row : Exchanged} {db' : Db}
      → consume_token o now p x token client location legacy db ≡ ok (row, db')
      → (any (consumable now x.token_id) db.tokens ≡ true)
        × ((enroll_endpoint o now p x token client location legacy
                >>= issue_credential o now p x legacy)
              (consume now x.token_id db)
            ≡ ok (row, db'))
  unfolding consume_token ◌>>=◌
  consume_opens token client location legacy db h = ground arith

  pub consume_steps :
      (token : EnrollmentToken) (client : Client) (location : Location) (legacy : Option Endpoint)
      (db : Db) {row : Exchanged} {db' : Db}
      → consume_token o now p x token client location legacy db ≡ ok (row, db')
      → (any (consumable now x.token_id) db.tokens ≡ true)
        × (row.endpoint ≡ enrolled token client location legacy db.draws)
        × (row.credential ≡ issued row.endpoint)
        × (row.replayed ≡ false)
        × (any (credential_clashes row.credential) db.credentials ≡ false)
        × (db'.tokens ≡ update_where (consumable now x.token_id) (consumed now) db.tokens)
        × (db'.credentials ≡ add_row row.credential db.credentials)
        × (db'.endpoints ≡ enrolled_in legacy row.endpoint db.endpoints)
        × ((draw : ℕ) × (db'.redemptions ≡ add_row (redeemed row.endpoint draw) db.redemptions))
        × (db' ≡ enrolled_over db db')
  unfolding consume
  consume_steps token client location legacy db {row} {db'} h =
      let (usable, rest) = consume_opens token client location legacy db h in
      let (endpoint, mid, first, second) =
        >>=-eq-ok (enroll_endpoint o now p x token client location legacy) _
          (consume now x.token_id db) rest in
      let (made, rows, tokens, credentials, redemptions, kept) =
        enroll_steps token client location legacy (consume now x.token_id db) first in
      let (same, clear, credentials', redemptions', rows', tokens', kept') =
        issue_steps legacy endpoint mid second in
      let own : row.endpoint ≡ endpoint = ap (λ r. r.endpoint) same in
      (
        usable,
        cc,
        cc,
        cc,
        cc,
        cc,
        cc,
        cc,
        (mid.draws, cc),
        over_trans db (consume now x.token_id db) db' refl
            (over_trans (consume now x.token_id db) mid db' kept kept'),
      )

  -- What a first exchange asks for before it uses the token.
  pub claim_steps :
      (token : EnrollmentToken) (client : Client) (location : Location) (db : Db) {row : Exchanged}
      {db' : Db}
      → claim_installation o now p x token client location db ≡ ok (row, db')
      → (any (installed_as x.values.installation_id) db.endpoints ≡ false)
        × (any (credential_has_id x.values.credential_id) db.credentials ≡ false)
        × ((legacy : Option Endpoint) × (find_first
                (has_fingerprint x.values.agent_fingerprint)
                db.endpoints
              ≡ legacy)
            × (blocks_migration client location x.values.platform legacy ≡ false)
            × (consume_token o now p x token client location legacy db ≡ ok (row, db')))
  unfolding claim_installation ◌>>=◌
  claim_steps token client location db h = ground arith

  pub redeem_steps :
      (token : EnrollmentToken) (db : Db) {row : Exchanged} {db' : Db}
      → redeem o now p x token db ≡ ok (row, db')
      → (token_state token now ≡ TokenState.active)
        × (other_platform token.platform x.values.platform ≡ false)
        × ((client : Client) × (location : Location) × (find_first
                (client_has_id token.client_id)
                db.clients
              ≡ some client)
            × (find_first (location_of token.location_id token.client_id) db.locations
                ≡ some location)
            × (row_is_active client.state ≡ true)
            × (row_is_active location.state ≡ true)
            × (claim_installation o now p x token client location db ≡ ok (row, db')))
  unfolding redeem token_state ◌>>=◌
  redeem_steps token db h = ground arith

  pub attempt_steps :
      (db : Db) {row : Exchanged} {db' : Db}
      → exchange_attempt o now p x db ≡ ok (row, db')
      → (token : EnrollmentToken) × (redemption : Option EnrollmentRedemption) × (find_first
            (token_has_id x.token_id)
            db.tokens
          ≡ some token)
        × (secret_fits o now p x token ≡ true)
        × (find_first (redemption_of x.token_id x.values.installation_id) db.redemptions
            ≡ redemption)
        × (redeem_or_replay o now p x token redemption db ≡ ok (row, db'))
  unfolding exchange_attempt ◌>>=◌
  attempt_steps db h = ground arith
