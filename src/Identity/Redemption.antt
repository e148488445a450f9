-- ===== src/Identity/Redemption.antt =====
-- backend/app/api/endpoints/device_identity.py: the rows that `exchange_enrollment_token` reads and
-- writes.
use sha.Base.{
  ℕ, suc, String, Bool, false, not, ◌&&◌, ◌||◌, Option, none, some, leb, ltb, str_eq, sql_eq,
  update_first, update_where, add_row,
}
use sha.Model.{
  Db, EnrollmentToken, DeviceCredential, EnrollmentRedemption, Endpoint, Client, Location, Platform,
  ApprovalPolicy, EndpointStatus, device, mode_is_device, platform_is,
}
use sha.Identity.Bootstrap.{ExchangeRequest}
use sha.Identity.Tokens.{is_set}

-- `_exchange_payload`
pub record Exchanged : Type 0 where
  pub endpoint : Endpoint
  pub credential : DeviceCredential
  pub replayed : Bool

abbrev pub token_has_id : String → EnrollmentToken → Bool
token_has_id id token = str_eq token.token_id id

abbrev pub redemption_of : String → String → EnrollmentRedemption → Bool
redemption_of token_id installation_id r =
    str_eq r.enrollment_token_id token_id && str_eq r.installation_id installation_id

-- The primary key and the unique constraints of `EnrollmentRedemption`.
abbrev pub redemption_clashes : EnrollmentRedemption → EnrollmentRedemption → Bool
redemption_clashes new old =
    str_eq old.redemption_id new.redemption_id
    || (redemption_of new.enrollment_token_id new.installation_id old
        || str_eq old.credential_id new.credential_id)

abbrev pub is_past : ℕ → Option ℕ → Bool
is_past now none = false
is_past now (some t) = leb t now

abbrev pub other_platform : Option Platform → Platform → Bool
other_platform none p = false
other_platform (some q) p = not (platform_is q p)

abbrev pub conflict : String
conflict = "enrollment exchange conflicts with an existing installation"

abbrev pub unauthenticated : String
unauthenticated = "authentication required"

abbrev pub installed_as : String → Endpoint → Bool
installed_as installation_id e = sql_eq e.installation_id installation_id

abbrev pub has_fingerprint : String → Endpoint → Bool
has_fingerprint fingerprint e = str_eq e.agent_fingerprint fingerprint

-- The `where` of the update that uses the token once more.
abbrev pub consumable : ℕ → String → EnrollmentToken → Bool
consumable now id token =
    token_has_id id token
    && (not (is_set token.revoked_at)
        && (ltb now token.expires_at && ltb token.use_count token.max_uses))

unfoldable pub consumed : ℕ → EnrollmentToken → EnrollmentToken
consumed now token = record token { use_count = suc token.use_count; updated_at = now }

unfoldable pub consume : ℕ → String → Db → Db
consume now id db = record db { tokens = update_where (consumable now id) (consumed now) db.tokens }

unfoldable pub add_endpoint : Endpoint → Db → Db
add_endpoint endpoint db = record db { endpoints = add_row endpoint db.endpoints }

unfoldable pub write_endpoint : (Endpoint → Bool) → (Endpoint → Endpoint) → Db → Db
write_endpoint test change db = record db { endpoints = update_first test change db.endpoints }

unfoldable pub add_redemption : EnrollmentRedemption → Db → Db
add_redemption redemption db = record db { redemptions = add_row redemption db.redemptions }

unfoldable pub enrolled_status : ApprovalPolicy → EndpointStatus
enrolled_status ApprovalPolicy.approved = EndpointStatus.active
enrolled_status ApprovalPolicy.pending = EndpointStatus.pending

-- A legacy endpoint that the token may not migrate.
unfoldable pub not_migratable : Client → Location → Platform → Endpoint → Bool
not_migratable client location platform e =
    mode_is_device e.credential_mode
    || (not (str_eq e.client_id client.client_id)
        || (not (str_eq e.location_id location.location_id)
            || not (platform_is e.platform platform)))

abbrev pub blocks_migration : Client → Location → Platform → Option Endpoint → Bool
blocks_migration client location platform none = false
blocks_migration client location platform (some e) = not_migratable client location platform e

-- The row of a new endpoint.
unfoldable pub enrolled_endpoint :
    String → ℕ → ExchangeRequest → EnrollmentToken → Client → Location → Endpoint
unfolding enrolled_status
enrolled_endpoint endpoint_id now x token client location = record {
  endpoint_id = endpoint_id;
  agent_fingerprint = x.agent_fingerprint;
  hostname = x.hostname;
  platform = x.platform;
  platform_version = x.platform_version;
  platform_profile = none;
  agent_version = x.agent_version;
  protocol_version = x.protocol_version;
  architecture = some x.architecture;
  installation_id = some x.installation_id;
  credential_mode = device;
  enrollment_token_id = some token.token_id;
  client_id = client.client_id;
  location_id = location.location_id;
  tenant_id = client.key;
  site_id = location.key;
  status = enrolled_status token.approval_policy;
  connectivity_status = none;
  declared_capabilities = none;
  capability_manifest = none;
  execution_hooks = none;
  last_seen_at = now;
  last_heartbeat_at = none;
  created_at = now;
  updated_at = now;
}

-- The row of a legacy endpoint that now has a credential of its own.
unfoldable pub migrated_endpoint : ℕ → ExchangeRequest → EnrollmentToken → Endpoint → Endpoint
unfolding enrolled_status
migrated_endpoint now x token e = record e {
  hostname = x.hostname;
  platform_version = x.platform_version;
  platform_profile = none;
  agent_version = x.agent_version;
  protocol_version = x.protocol_version;
  architecture = some x.architecture;
  installation_id = some x.installation_id;
  credential_mode = device;
  enrollment_token_id = some token.token_id;
  status = enrolled_status token.approval_policy;
  connectivity_status = none;
  declared_capabilities = none;
  capability_manifest = none;
  execution_hooks = none;
  last_seen_at = now;
  last_heartbeat_at = none;
  updated_at = now;
}

unfoldable pub redemption_row :
    String → ℕ → String → ExchangeRequest → String → String → EnrollmentRedemption
redemption_row id now request_hash x token_id endpoint_id = record {
  redemption_id = id;
  enrollment_token_id = token_id;
  installation_id = x.installation_id;
  endpoint_id = endpoint_id;
  credential_id = x.credential_id;
  request_hash = request_hash;
  created_at = now;
}
