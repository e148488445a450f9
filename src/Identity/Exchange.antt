-- ===== src/Identity/Exchange.antt =====
-- backend/app/api/endpoints/device_identity.py: `exchange_enrollment_token`, which turns an
-- enrollment token into an endpoint with a credential of its own.
use sha.Base.{
  ℕ, String, Bool, true, false, not, ◌&&◌, ◌||◌, Option, none, some, http, leb, any, str_eq,
  find_first,
}
use sha.Model.{
  EnrollmentToken, DeviceCredential, EnrollmentRedemption, Endpoint, Client, Location,
  row_is_active, credential_is_active, text, field, boolean, end,
}
use sha.Model.Tx.{Tx, pure, gets, check, or_raise, raise_if, modify, ◌>>=◌, ◌>>◌}
use sha.Outside.{Outside}
use sha.Ids.{generate_prefixed_id}
use sha.Protocol.{require_supported_agent_protocol}
use sha.Authz.{Principal, audit_call, record_audit_event}
use sha.Approvals.{endpoint_has_id}
use sha.Hierarchy.{client_has_id, location_of}
use sha.Identity.Secrets.{
  parse_enrollment_token, enrollment_secret_hash, device_secret_hash, exchange_request_hash,
}
use sha.Identity.Bootstrap.{
  ExchangeRequest, normalize_exchange, request_values, bearer_token, own_token,
}
use sha.Identity.Tokens.{is_set}
use sha.Identity.Credentials.{
  credential_has_id, credential_clashes, add_credential, active_credential,
}
use sha.Identity.Redemption.{
  Exchanged, token_has_id, redemption_of, redemption_clashes, is_past, other_platform, conflict,
  unauthenticated, installed_as, has_fingerprint, consumable, consume, add_endpoint, write_endpoint,
  add_redemption, blocks_migration, enrolled_endpoint, migrated_endpoint, redemption_row,
}

-- What the exchange has computed before its transaction.
pub record Attempt : Type 0 where
  pub key : String
  pub lifetime_days : ℕ
  pub token_id : String
  pub secret : String
  pub values : ExchangeRequest
  pub request_hash : String

module _ (outside : Outside) (now : ℕ) (principal : Principal) (attempt : Attempt) where
  abbrev pub supplied_hash : String
  supplied_hash =
      device_secret_hash outside attempt.key attempt.values.credential_id
        attempt.values.credential_secret

  unfoldable pub record_redemption : Endpoint → Bool → Tx (Unit {0})
  record_redemption endpoint replayed =
      record_audit_event outside now (record (audit_call "enrollment_token_redeemed" principal) {
        client_id = some endpoint.client_id;
        location_id = some endpoint.location_id;
        endpoint_id = some endpoint.endpoint_id;
        target_type = some "enrollment_token";
        target_id = some attempt.token_id;
        metadata = field "replayed" (boolean replayed) end;
      })

  -- Whether the credential of an earlier exchange still answers to the request.
  unfoldable pub answers : DeviceCredential → Bool
  answers credential =
      str_eq credential.credential_id attempt.values.credential_id
      && (credential_is_active credential.status
          && (not (is_past now credential.expires_at)
              && str_eq supplied_hash credential.secret_hash))

  -- The installation has redeemed the token before.
  unfoldable pub replay : EnrollmentRedemption → Tx Exchanged
  replay redemption = do
    raise_if (not (str_eq attempt.request_hash redemption.request_hash)) (http 409 conflict)
    found ← gets (λ db. find_first (credential_has_id redemption.credential_id) db.credentials)
    credential ← or_raise found (http 401 unauthenticated)
    found ← gets (λ db. find_first (endpoint_has_id redemption.endpoint_id) db.endpoints)
    endpoint ← or_raise found (http 401 unauthenticated)
    raise_if (not (answers credential)) (http 401 unauthenticated)
    record_redemption endpoint true
    pure (record { endpoint = endpoint; credential = credential; replayed = true })

  unfoldable pub record_migration : Option Endpoint → Endpoint → Tx (Unit {0})
  record_migration none endpoint = pure tt
  record_migration (some legacy) endpoint =
      record_audit_event outside now (record (audit_call "legacy_reporter_migrated" principal) {
        client_id = some endpoint.client_id;
        location_id = some endpoint.location_id;
        endpoint_id = some endpoint.endpoint_id;
        target_type = some "endpoint";
        target_id = some endpoint.endpoint_id;
        metadata = field "protocol_version" (text attempt.values.protocol_version) end;
      })

  -- The credential, the redemption and the audit events of an enrolled endpoint.
  unfoldable pub issue_credential : Option Endpoint → Endpoint → Tx Exchanged
  issue_credential legacy endpoint = do
    let credential =
        active_credential attempt.values.credential_id endpoint.endpoint_id supplied_hash now
          attempt.lifetime_days
    clashes ← gets (λ db. any (credential_clashes credential) db.credentials)
    raise_if clashes (http 409 conflict)
    modify (add_credential credential)
    redemption_id ← generate_prefixed_id outside "er"
    let redemption =
        redemption_row redemption_id now attempt.request_hash attempt.values attempt.token_id
          endpoint.endpoint_id
    clashes ← gets (λ db. any (redemption_clashes redemption) db.redemptions)
    raise_if clashes (http 409 conflict)
    modify (add_redemption redemption)
    record_redemption endpoint false
    record_migration legacy endpoint
    pure (record { endpoint = endpoint; credential = credential; replayed = false })

  -- The endpoint's row: a new one, or the legacy one that has the fingerprint.
  unfoldable pub enroll_endpoint :
      EnrollmentToken → Client → Location → Option Endpoint → Tx Endpoint
  enroll_endpoint token client location none = do
    endpoint_id ← generate_prefixed_id outside "ep"
    taken ← gets (λ db. any (endpoint_has_id endpoint_id) db.endpoints)
    raise_if taken (http 409 conflict)
    let endpoint = enrolled_endpoint endpoint_id now attempt.values token client location
    modify (add_endpoint endpoint)
    pure endpoint
  enroll_endpoint token client location (some legacy) = do
    let endpoint = migrated_endpoint now attempt.values token legacy
    modify (write_endpoint (has_fingerprint attempt.values.agent_fingerprint) (λ e. endpoint))
    pure endpoint

  -- The token is used once more, and the endpoint enrolled.
  unfoldable pub consume_token :
      EnrollmentToken → Client → Location → Option Endpoint → Tx Exchanged
  consume_token token client location legacy = do
    usable ← gets (λ db. any (consumable now attempt.token_id) db.tokens)
    raise_if (not usable) (http 401 unauthenticated)
    modify (consume now attempt.token_id)
    endpoint ← enroll_endpoint token client location legacy
    issue_credential legacy endpoint

  -- The identifiers must be unused, and a legacy endpoint must fit.
  unfoldable pub claim_installation : EnrollmentToken → Client → Location → Tx Exchanged
  claim_installation token client location = do
    installed ← gets (λ db. any (installed_as attempt.values.installation_id) db.endpoints)
    issued ← gets (λ db. any (credential_has_id attempt.values.credential_id) db.credentials)
    raise_if (installed || issued) (http 409 conflict)
    legacy ← gets (λ db. find_first (has_fingerprint attempt.values.agent_fingerprint) db.endpoints)
    raise_if (blocks_migration client location attempt.values.platform legacy) (http 409 conflict)
    consume_token token client location legacy

  -- The first exchange of an installation.
  unfoldable pub redeem : EnrollmentToken → Tx Exchanged
  redeem token = do
    raise_if
        (is_set token.revoked_at
          || (leb token.expires_at now || leb token.max_uses token.use_count))
        (http 401 unauthenticated)
    raise_if (other_platform token.platform attempt.values.platform)
        (http 422 "endpoint platform does not match enrollment token")
    found ← gets (λ db. find_first (client_has_id token.client_id) db.clients)
    client ← or_raise found (http 401 unauthenticated)
    found ← gets (λ db. find_first (location_of token.location_id token.client_id) db.locations)
    location ← or_raise found (http 401 unauthenticated)
    raise_if (not (row_is_active client.state) || not (row_is_active location.state))
        (http 401 unauthenticated)
    claim_installation token client location

  unfoldable pub redeem_or_replay : EnrollmentToken → Option EnrollmentRedemption → Tx Exchanged
  redeem_or_replay token none = redeem token
  redeem_or_replay token (some redemption) = replay redemption

  -- Whether the token's row is the one that the secret was issued for.
  unfoldable pub secret_fits : EnrollmentToken → Bool
  secret_fits token =
      str_eq (enrollment_secret_hash outside attempt.key attempt.token_id attempt.secret)
        token.secret_hash
      && str_eq token.hash_key_id "primary"

  -- The transaction.
  unfoldable pub exchange_attempt : Tx Exchanged
  exchange_attempt = do
    tokens ← gets (λ db. db.tokens)
    token ← or_raise (find_first (token_has_id attempt.token_id) tokens) (http 401 unauthenticated)
    raise_if (not (secret_fits token)) (http 401 unauthenticated)
    redemption ← gets (λ db.
        find_first (redemption_of attempt.token_id attempt.values.installation_id) db.redemptions)
    redeem_or_replay token redemption

module _ (outside : Outside) (now : ℕ) (principal : Principal) where
  -- `exchange_enrollment_token`; the header carries the token.
  unfoldable pub exchange_enrollment_token :
      Option String → ℕ → String → ExchangeRequest → Tx Exchanged
  exchange_enrollment_token hmac_key lifetime_days authorization payload = do
    key ← or_raise hmac_key (http 503 "device credential service is not configured")
    version ←
        or_raise (require_supported_agent_protocol payload.protocol_version)
          (http 426 "unsupported_agent_protocol")
    let parsed = parse_enrollment_token outside (bearer_token outside authorization)
    token ← or_raise (own_token principal parsed) (http 401 unauthenticated)
    values ← check (normalize_exchange outside payload)
    exchange_attempt outside now principal (record {
      key = key;
      lifetime_days = lifetime_days;
      token_id = token.0;
      secret = token.1;
      values = values;
      request_hash = exchange_request_hash outside key token.0 (request_values values);
    })
