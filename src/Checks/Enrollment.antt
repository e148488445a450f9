-- ===== src/Checks/Enrollment.antt =====
-- Enrollment in a small world: a token is issued, exchanged, and the exchange is repeated.
use Prim.Native.String.{◌++◌}
use sha.Base.{
  ℕ, zero, suc, ◌≡◌, ◌↔◌, refl, true, false, none, some, List, [], ◌∷◌, ok, Result, String, arith,
  add_row, any, find_first, update_where, contains,
}
use sha.Text.{trim_required}
use sha.Ids.{generate_prefixed_id}
use sha.Authz.{
  Principal, permits_scope, require_scope, permits, covers, record_audit_event, AuthMethod, Role,
  synthetic_global_grant,
}
use sha.Model.{
  Db, EnrollmentToken, ScopeRowState, Client, Location, row_is_active, linux, ApprovalPolicy,
  Endpoint,
}
use sha.Model.Tx.{◌>>=◌}
use sha.Outside.{Outside}
use sha.Hierarchy.{load_scope}
use sha.Identity.{
  TokenState, token_state, Attempt, Exchanged, ExchangeRequest, secret_fits, exchange_attempt,
  TokenPayload, create_enrollment_token, is_token_id, is_secret_text, is_canonical_secret,
  parse_enrollment_token, enrollment_token_text, token_target, issue_token, new_token, add_token,
  enrollment_secret_hash, has_shape, after_literal, redeem_or_replay, redeem, claim_installation,
  consume_token, consume, consumed, enroll_endpoint, enrolled_endpoint, add_endpoint,
  enrolled_status, issue_credential, active_credential, add_credential, redemption_row,
  add_redemption, record_redemption, record_migration, device_secret_hash,
}
use sha.Identity.Exchanging.{issued}
use sha.Identity.Parsing.{parse_enrollment_token_iff}
use sha.Identity.Repeating.{exchange-replays}
use sha.Identity.Usable.{create-usable}
use sha.Checks.World.{world, reviewer, start, left_by}

abbrev digits : String
digits = "0123456789abcdef0123456789abcdef"

abbrev secret : String
secret = "AAAAAAAAAAAAAAAAAAAAAAAAAAAAAAAAAAAAAAAAAAA"

abbrev zeros : ℕ → List ℕ
zeros zero = []
zeros (suc n) = 0 ∷ zeros n

abbrev issuing : Outside
issuing = record world {
  uuid = λ n. digits;
  decode_base64 = λ s. some (zeros 32);
  encode_base64 = λ bytes. secret;
}

abbrev manager : Principal
manager = record reviewer {
  grants = synthetic_global_grant "operator" ("enrollment.manage" ∷ []) ∷ [];
}

abbrev acme : Client
acme = record { client_id = "cl"; key = none; name = "Acme"; state = ScopeRowState.active }

abbrev office : Location
office = record {
  location_id = "lo";
  client_id = "cl";
  key = none;
  name = "Office";
  state = ScopeRowState.active;
}

abbrev site : Db
site = record start { clients = acme ∷ []; locations = office ∷ [] }

abbrev order : TokenPayload
order = record {
  client_id = "cl";
  location_id = "lo";
  installer_profile_id = none;
  platform = some linux;
  approval_policy = ApprovalPolicy.pending;
  expires_in_minutes = 60;
  max_uses = 1;
}

abbrev creation : Result ((EnrollmentToken × String) × Db)
creation = create_enrollment_token issuing 50 manager (some "key") secret order site

abbrev token_id : String
token_id = "et_0123456789abcdef0123456789abcdef"

abbrev coupon : EnrollmentToken
coupon =
    new_token token_id secret 50 "ada" order "cl" "lo"
      (record { installer_profile_id = none; platform = some linux })

abbrev shown : String
shown = "sha_enroll.et_0123456789abcdef0123456789abcdef.AAAAAAAAAAAAAAAAAAAAAAAAAAAAAAAAAAAAAAAAAAA"

creation_runs : creation ≡ ok ((coupon, shown), left_by creation start)
unfolding create_enrollment_token trim_required load_scope find_first require_scope permits_scope
    permits covers synthetic_global_grant contains any token_target issue_token new_token add_token
    record_audit_event generate_prefixed_id enrollment_secret_hash enrollment_token_text ◌>>=◌
creation_runs = refl

token_id_IsHex : (n : ℕ) → is_token_id (("et" ++ "_") ++ digits) ≡ true
unfolding is_token_id has_shape after_literal
token_id_IsHex n = refl

secret_shape : is_secret_text secret ≡ true
unfolding is_secret_text has_shape after_literal
secret_shape = refl

secret_canonical : is_canonical_secret issuing secret ≡ true
unfolding is_canonical_secret
secret_canonical = refl

parse_enrollment_token_iff_example :
    (parse_enrollment_token issuing shown ≡ some (token_id, secret)) ↔ (
      (shown ≡ enrollment_token_text token_id secret)
      × (is_token_id token_id ≡ true)
      × (is_secret_text secret ≡ true)
      × (is_canonical_secret issuing secret ≡ true))
parse_enrollment_token_iff_example = parse_enrollment_token_iff issuing shown token_id secret

-- The machine that exchanges the token.
abbrev machine : ExchangeRequest
machine = record {
  installation_id = "installation-0001";
  credential_id = "dc_0123456789abcdef";
  credential_secret = secret;
  agent_fingerprint = "fp";
  hostname = "h";
  platform = linux;
  platform_version = none;
  agent_version = "1";
  protocol_version = "sha-agent-v1";
  architecture = "amd64";
}

abbrev attempt : Attempt
attempt = record {
  key = "key";
  lifetime_days = 90;
  token_id = token_id;
  secret = secret;
  values = machine;
  request_hash = "{}";
}

abbrev newcomer : Principal
newcomer = record reviewer {
  subject = "enrollment";
  role = Role.enrollment;
  auth_method = AuthMethod.enrollment_token;
  grants = [];
  enrollment_token_id = some token_id;
}

create-usable_example :
    (client_id : String) × (location_id : String) × (client : Client) × (location : Location)
    × (trim_required "cl" "client_id" ≡ ok client_id)
    × (trim_required "lo" "location_id" ≡ ok location_id)
    × (load_scope site client_id location_id ≡ ok (client, location))
    × (coupon.client_id ≡ client.client_id)
    × (coupon.location_id ≡ location.location_id)
    × (permits_scope manager "enrollment.manage" (some coupon.client_id) (some coupon.location_id)
        ≡ true)
    × (row_is_active client.state ≡ true)
    × (row_is_active location.state ≡ true)
    × ((left_by creation start).tokens ≡ add_row coupon site.tokens)
    × (parse_enrollment_token issuing shown ≡ some (coupon.token_id, secret))
    × (secret_fits issuing 60 newcomer
          (record attempt { key = "key"; token_id = coupon.token_id; secret = secret })
          coupon
        ≡ true)
    × (token_state coupon 60 ≡ TokenState.active)
create-usable_example =
    create-usable issuing 50 manager "key" secret order site attempt newcomer 60 token_id_IsHex
      secret_shape secret_canonical (omega arith) (omega arith) creation_runs

abbrev issued_site : Db
issued_site = left_by creation start

abbrev enrollment : Result (Exchanged × Db)
enrollment = exchange_attempt issuing 60 newcomer attempt issued_site

abbrev enrolled_host : Endpoint
enrolled_host =
    enrolled_endpoint "ep_0123456789abcdef0123456789abcdef" 60 machine coupon acme office

abbrev enrolled : Exchanged
enrolled = record {
  endpoint = enrolled_host;
  credential = issued issuing 60 newcomer attempt enrolled_host;
  replayed = false;
}

enrollment_runs : enrollment ≡ ok (enrolled, left_by enrollment start)
unfolding create_enrollment_token trim_required load_scope find_first require_scope permits_scope
    permits covers synthetic_global_grant contains any token_target issue_token new_token add_token
    record_audit_event generate_prefixed_id enrollment_secret_hash enrollment_token_text
    exchange_attempt secret_fits redeem_or_replay redeem claim_installation consume_token consume
    update_where consumed enroll_endpoint enrolled_endpoint enrolled_status add_endpoint
    issue_credential active_credential add_credential redemption_row add_redemption
    record_redemption record_migration device_secret_hash ◌>>=◌
enrollment_runs = refl

exchange-replays_example :
    (second : Exchanged) × (left : Db) × (exchange_attempt issuing 70 newcomer attempt
        (left_by enrollment start)
      ≡ ok (second, left))
    × (second.credential ≡ enrolled.credential)
    × (second.endpoint.endpoint_id ≡ enrolled.endpoint.endpoint_id)
    × (second.replayed ≡ true)
exchange-replays_example =
    exchange-replays issuing 60 newcomer attempt issued_site 70 enrollment_runs refl (omega arith)
