-- ===== src/Identity/Usable.antt =====
-- A token that is issued can be used: its text is parsed back, its secret fits, its state is
-- active.
use Prim.Native.String.{◌++◌}
use sha.Base.{
  ℕ, ◌+◌, ◌*◌, ◌<◌, String, ◌≡◌, ◌∙◌, true, arith, Option, none, some, ok, add_row, ap, str_refl,
}
use sha.Text.{trim_required}
use sha.Model.{Db, EnrollmentToken, Client, Location, row_is_active}
use sha.Model.Tx.{◌>>=◌}
use sha.Model.Tx.Keeps.{>>=-eq-ok, >>=-check}
use sha.Outside.{Outside}
use sha.Ids.{generate_prefixed_id}
use sha.Authz.{Principal, record_audit_event, require_scope, permits_scope}
use sha.Hierarchy.{load_scope}
use sha.Identity.Secrets.{
  is_token_id, is_secret_text, is_canonical_secret, parse_enrollment_token, enrollment_secret_hash,
  enrollment_token_text,
}
use sha.Identity.Parsing.{parse_enrollment_token_iff}
use sha.Identity.Tokens.{TokenState, token_state}
use sha.Identity.Exchange.{Attempt, secret_fits}
use sha.Identity.Issuing.{
  TokenPayload, Target, add_token, new_token, token_target, issue_token, create_enrollment_token,
}

module _ (o : Outside) (now : ℕ) (p : Principal) (key secret : String)
    (payload : TokenPayload) where
  target_keeps :
      (client_id location_id : String) (id : Option String) (db : Db) {t : Target} {mid : Db}
      → token_target client_id location_id payload.platform id db ≡ ok (t, mid)
      → mid ≡ db
  unfolding token_target ◌>>=◌
  target_keeps client_id location_id none db h = ground arith
  target_keeps client_id location_id (some id) db h = ground arith

  abbrev pub next_token : String → String → Target → ℕ → EnrollmentToken
  next_token client_id location_id target draw =
      let id = ("et" ++ "_") ++ o.uuid draw in
      new_token id (enrollment_secret_hash o key id secret) now p.subject payload client_id
        location_id target

  issue_steps :
      (client_id location_id : String) (target : Target) (db : Db) {token : EnrollmentToken}
      {shown : String} {db' : Db}
      → issue_token o now p key secret payload client_id location_id target db
        ≡ ok ((token, shown), db')
      → (token ≡ next_token client_id location_id target db.draws)
        × (shown ≡ enrollment_token_text (("et" ++ "_") ++ o.uuid db.draws) secret)
        × (db'.tokens ≡ add_row token db.tokens)
  unfolding issue_token add_token record_audit_event generate_prefixed_id ◌>>=◌
  issue_steps client_id location_id target db h = ground arith

  next_fits :
      (x : Attempt) (q : Principal) (later : ℕ) (client_id location_id : String) (target : Target)
      (draw : ℕ)
      → 0 < payload.max_uses
      → later < now + 60 * payload.expires_in_minutes
      → let t = next_token client_id location_id target draw in
        (secret_fits o later q (record x { key = key; token_id = t.token_id; secret = secret }) t
          ≡ true)
        × (token_state t later ≡ TokenState.active)
  unfolding new_token secret_fits token_state
  next_fits x q later client_id location_id target draw uses before =
      let r = str_refl (enrollment_secret_hash o key (("et" ++ "_") ++ o.uuid draw) secret) in
      (ground arith, ground arith)

  module _ (db : Db) {client_id location_id : String} {client : Client} {location : Location}
      (client_named : trim_required payload.client_id "client_id" ≡ ok client_id)
      (location_named : trim_required payload.location_id "location_id" ≡ ok location_id)
      (loaded : load_scope db client_id location_id ≡ ok (client, location)) where
    create_steps :
        {token : EnrollmentToken} {shown : String} {db' : Db}
        → create_enrollment_token o now p (some key) secret payload db ≡ ok ((token, shown), db')
        → (permits_scope p "enrollment.manage" (some client.client_id) (some location.location_id)
            ≡ true)
          × (row_is_active client.state ≡ true)
          × (row_is_active location.state ≡ true)
          × ((token_target client_id location_id payload.platform payload.installer_profile_id
                  >>= issue_token o now p key secret payload client.client_id location.location_id)
                db
              ≡ ok ((token, shown), db'))
    unfolding create_enrollment_token require_scope ◌>>=◌
    create_steps h = ground arith

  module _ (db : Db) where
    create_opens :
        {token : EnrollmentToken} {shown : String} {db' : Db}
        → create_enrollment_token o now p (some key) secret payload db ≡ ok ((token, shown), db')
        → (client_id : String) × (location_id : String) × (client : Client) × (location : Location)
          × (trim_required payload.client_id "client_id" ≡ ok client_id)
          × (trim_required payload.location_id "location_id" ≡ ok location_id)
          × (load_scope db client_id location_id ≡ ok (client, location))
    unfolding create_enrollment_token ◌>>=◌
    create_opens h =
        let (client_id, c, h1) = >>=-check (trim_required payload.client_id "client_id") _ db h in
        let (location_id, l, h2) =
          >>=-check (trim_required payload.location_id "location_id") _ db h1 in
        let (scope, loaded, h3) = >>=-check (load_scope db client_id location_id) _ db h2 in
        (client_id, location_id, scope.0, scope.1, c, l, loaded)

    -- Where identifiers are 32 hexadecimal digits, the drawn secret is canonical and the request
    -- allows a use: a token that is created belongs to a stored client and a location of it that
    -- are active and that the caller may manage. The text in the answer is parsed into the token's
    -- identifier and the secret, the secret fits the row that was added, and the row is active
    -- until it expires.
    pub create-usable :
        (x : Attempt) (q : Principal) (later : ℕ)
        → ((n : ℕ) → is_token_id (("et" ++ "_") ++ o.uuid n) ≡ true)
        → is_secret_text secret ≡ true
        → is_canonical_secret o secret ≡ true
        → 0 < payload.max_uses
        → later < now + 60 * payload.expires_in_minutes
        → {token : EnrollmentToken} {shown : String} {db' : Db}
        → create_enrollment_token o now p (some key) secret payload db ≡ ok ((token, shown), db')
        → (client_id : String) × (location_id : String) × (client : Client) × (location : Location)
          × (trim_required payload.client_id "client_id" ≡ ok client_id)
          × (trim_required payload.location_id "location_id" ≡ ok location_id)
          × (load_scope db client_id location_id ≡ ok (client, location))
          × (token.client_id ≡ client.client_id)
          × (token.location_id ≡ location.location_id)
          × (permits_scope p "enrollment.manage" (some token.client_id) (some token.location_id)
              ≡ true)
          × (row_is_active client.state ≡ true)
          × (row_is_active location.state ≡ true)
          × (db'.tokens ≡ add_row token db.tokens)
          × (parse_enrollment_token o shown ≡ some (token.token_id, secret))
          × (secret_fits o later q
                (record x { key = key; token_id = token.token_id; secret = secret })
                token
              ≡ true)
          × (token_state token later ≡ TokenState.active)
    unfolding new_token
    create-usable x q later hex shape canonical uses before {token} {shown} {db'} h =
        let (client_id, location_id, client, location, c, l, loaded) = create_opens h in
        let (permitted, ac, al, rest) = create_steps db c l loaded h in
        let (target, mid, first, second) =
          >>=-eq-ok
            (token_target client_id location_id payload.platform payload.installer_profile_id) _ db
            rest in
        let same = target_keeps client_id location_id payload.installer_profile_id db first in
        let (row, text, added) =
          issue_steps client.client_id location.location_id target mid second in
        let new = next_token client.client_id location.location_id target mid.draws in
        let (fits, active) =
          next_fits x q later client.client_id location.location_id target mid.draws uses before in
        let parsed : parse_enrollment_token o shown ≡ some (new.token_id, secret) =
          (parse_enrollment_token_iff o shown new.token_id secret).1
            (text, hex mid.draws, shape, canonical) in
        (
          client_id,
          location_id,
          client,
          location,
          c,
          l,
          loaded,
          ap (λ t. t.client_id) row,
          ap (λ t. t.location_id) row,
          rw row permitted,
          ac,
          al,
          added ∙ ap (λ d. add_row token d.tokens) same,
          rw row parsed,
          rw row fits,
          rw row active,
        )
