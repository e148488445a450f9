-- ===== src/Identity/Enrolling.antt =====
-- What an exchange leaves behind, and that it may be repeated.
use sha.Base.{
  Memᴰ, ℕ, String, ◌≡◌, ◌⊎◌, inl, inr, refl, true, false, Option, none, some, arith, ok, any, all,
  str_eq, str_refl, find_first, update_where, add_row, ap, all-add_row, all_of_none,
  find_first-some, eq_iff, ◌∙◌,
}
use sha.Model.{
  AuditEvent, Db, EnrollmentToken, EnrollmentRedemption, Endpoint, Client, Location,
  DeviceCredential,
}
use sha.Outside.{Outside}
use sha.Authz.{Principal}
use sha.Approvals.{endpoint_has_id}
use sha.Hierarchy.{client_has_id, location_of}
use sha.Identity.Tokens.{TokenState, token_state}
use sha.Identity.Credentials.{credential_has_id, credential_clashes, active_credential}
use sha.Identity.Rotating.{is_only}
use sha.Identity.Redemption.{
  Exchanged, token_has_id, redemption_of, other_platform, installed_as, consumable, consumed,
  enrolled_status, enrolled_endpoint, migrated_endpoint, blocks_migration, not_migratable,
}
use sha.Identity.Exchange.{
  Attempt, answers, redeem, redeem_or_replay, secret_fits, exchange_attempt,
}
use sha.Identity.Exchanging.{
  replay_steps, issued, redeemed, enrolled, consume_steps, claim_steps, redeem_steps, attempt_steps,
  enrolled_in_mem, enrolled_over,
}

module _ (o : Outside) (now : ℕ) (p : Principal) (x : Attempt) where
  -- What a first exchange has made sure of and written, for the token's row.
  pub record IsEnrollment (token : EnrollmentToken) (db : Db) (row : Exchanged) (db' : Db)
      : Type 0 where
    pub unredeemed :
        find_first (redemption_of x.token_id x.values.installation_id) db.redemptions ≡ none
    pub active : token_state token now ≡ TokenState.active
    pub platform : other_platform token.platform x.values.platform ≡ false
    pub uninstalled : any (installed_as x.values.installation_id) db.endpoints ≡ false
    pub unissued : any (credential_has_id x.values.credential_id) db.credentials ≡ false
    pub mode : row.replayed ≡ false
    pub credential : row.credential ≡ issued o now p x row.endpoint
    pub tokens : db'.tokens ≡ update_where (consumable now x.token_id) (consumed now) db.tokens
    pub credentials : db'.credentials ≡ add_row row.credential db.credentials
    pub redemption :
        (draw : ℕ) × (db'.redemptions
          ≡ add_row (redeemed o now p x row.endpoint draw) db.redemptions)
    pub single :
        all (is_only x.values.credential_id row.endpoint.endpoint_id) db'.credentials ≡ true
    pub stored : Memᴰ row.endpoint db'.endpoints
    pub client : row.endpoint.client_id ≡ token.client_id
    pub location : row.endpoint.location_id ≡ token.location_id
    pub status : row.endpoint.status ≡ enrolled_status token.approval_policy
    pub quiet : db' ≡ enrolled_over db db'

  -- What a repeated exchange has found; it writes one audit event, and no other table.
  pub record IsReplay (db : Db) (row : Exchanged) (db' : Db) : Type 0 where
    pub redemption : EnrollmentRedemption
    pub found :
        find_first (redemption_of x.token_id x.values.installation_id) db.redemptions
        ≡ some redemption
    pub same_request : str_eq x.request_hash redemption.request_hash ≡ true
    pub credential :
        find_first (credential_has_id redemption.credential_id) db.credentials ≡ some row.credential
    pub endpoint :
        find_first (endpoint_has_id redemption.endpoint_id) db.endpoints ≡ some row.endpoint
    pub answer : answers o now p x row.credential ≡ true
    pub mode : row.replayed ≡ true
    pub recorded : (event : AuditEvent) × (db'.audit ≡ add_row event db.audit)
    pub quiet : db' ≡ record db { audit = db'.audit; draws = db'.draws }

  clear_only :
      (new c : DeviceCredential)
      → credential_clashes new c ≡ false
      → is_only new.credential_id new.endpoint_id c ≡ true
  clear_only new c h = ground arith

  own_only : (new : DeviceCredential) → is_only new.credential_id new.endpoint_id new ≡ true
  own_only new = let r = str_refl new.credential_id in ground arith

  -- Where the endpoint is placed.
  placed :
      (token : EnrollmentToken) (client : Client) (location : Location) (legacy : Option Endpoint)
      (draw : ℕ)
      → blocks_migration client location x.values.platform legacy ≡ false
      → let e = enrolled o now p x token client location legacy draw in
        (e.client_id ≡ client.client_id)
        × (e.location_id ≡ location.location_id)
        × (e.status ≡ enrolled_status token.approval_policy)
  unfolding enrolled_endpoint migrated_endpoint not_migratable
  placed token client location none draw h = (refl, refl, refl)
  placed token client location (some e) draw h = (
    (eq_iff e.client_id client.client_id).0 (ground arith),
    (eq_iff e.location_id location.location_id).0 (ground arith),
    refl,
  )

  client_found :
      (id : String) (db : Db) {c : Client}
      → find_first (client_has_id id) db.clients ≡ some c
      → c.client_id ≡ id
  client_found id db {c} h =
      let (t, m) = find_first-some (client_has_id id) db.clients h in (eq_iff c.client_id id).0 t

  location_found :
      (id client : String) (db : Db) {l : Location}
      → find_first (location_of id client) db.locations ≡ some l
      → l.location_id ≡ id
  location_found id client db {l} h =
      let (t, m) = find_first-some (location_of id client) db.locations h in
      (eq_iff l.location_id id).0 (ground arith)

  single_credential :
      (row : Exchanged) (db db' : Db)
      → row.credential ≡ issued o now p x row.endpoint
      → any (credential_clashes row.credential) db.credentials ≡ false
      → db'.credentials ≡ add_row row.credential db.credentials
      → all (is_only x.values.credential_id row.endpoint.endpoint_id) db'.credentials ≡ true
  unfolding active_credential
  single_credential row db db' c clear after =
      let new = issued o now p x row.endpoint in
      let test = is_only x.values.credential_id row.endpoint.endpoint_id in
      let none_clash : any (credential_clashes new) db.credentials ≡ false = rw c at clear in
      rw (after, c)
        (all-add_row test new _ (all_of_none test _ (clear_only new) _ none_clash) (own_only new))

  redeem-IsEnrollment :
      (token : EnrollmentToken) (db : Db) {row : Exchanged} {db' : Db}
      → find_first (redemption_of x.token_id x.values.installation_id) db.redemptions ≡ none
      → redeem o now p x token db ≡ ok (row, db')
      → IsEnrollment token db row db'
  redeem-IsEnrollment token db {row} {db'} unredeemed h =
      let (active, platform, (client, location, fc, fl, ac, al, rest)) =
        redeem_steps o now p x token db h in
      let (uninstalled, unissued, (legacy, fe, fits, rest')) =
        claim_steps o now p x token client location db rest in
      let (usable, e, c, mode, clear, tokens, credentials, endpoints, redemption, quiet) =
        consume_steps o now p x token client location legacy db rest' in
      let (pc, pl, ps) = placed token client location legacy db.draws fits in
      record {
        unredeemed = unredeemed;
        active = active;
        platform = platform;
        uninstalled = uninstalled;
        unissued = unissued;
        mode = mode;
        credential = c;
        tokens = tokens;
        credentials = credentials;
        redemption = redemption;
        single = single_credential row db db' c clear credentials;
        stored = rw endpoints (enrolled_in_mem o now p x legacy row.endpoint db.endpoints fe);
        client = ap (λ r. r.client_id) e ∙ pc ∙ client_found token.client_id db fc;
        location =
            ap (λ r. r.location_id) e ∙ pl ∙ location_found token.location_id token.client_id db fl;
        status = ap (λ r. r.status) e ∙ ps;
        quiet = quiet;
      }

  pub exchange-outcome :
      (db : Db) {row : Exchanged} {db' : Db}
      → exchange_attempt o now p x db ≡ ok (row, db')
      → (token : EnrollmentToken) × (find_first (token_has_id x.token_id) db.tokens ≡ some token)
        × (secret_fits o now p x token ≡ true)
        × (IsReplay db row db' ⊎ IsEnrollment token db row db')
  unfolding redeem_or_replay
  exchange-outcome db {row} {db'} h =
      let (token, redemption, ft, fits, fr, rest) = attempt_steps o now p x db h in
      (token, ft, fits, by_redemption redemption token fr rest)
    where
      by_redemption :
          (redemption : Option EnrollmentRedemption) (token : EnrollmentToken)
          → find_first (redemption_of x.token_id x.values.installation_id) db.redemptions
            ≡ redemption
          → redeem_or_replay o now p x token redemption db ≡ ok (row, db')
          → IsReplay db row db' ⊎ IsEnrollment token db row db'
      by_redemption none token fr rest = inr (redeem-IsEnrollment token db fr rest)
      by_redemption (some r) token fr rest =
          let (e, c, f, a, m, event, quiet) = replay_steps o now p x r db rest in
          inl (record {
            redemption = r;
            found = fr;
            same_request = e;
            credential = c;
            endpoint = f;
            answer = a;
            mode = m;
            recorded = event;
            quiet = quiet;
          })
