-- ===== src/Endpoints/Heartbeat.antt =====
-- backend/app/api/endpoints/endpoints.py: the heartbeat of an endpoint.
use sha.Base.{
  ℕ, String, Bool, true, false, not, ◌&&◌, ◌||◌, Option, none, some, List, Result, ok, err, http,
  length, if◌then◌else◌, str_eq, find_first, select_where,
}
use sha.Text.{trim_required}
use sha.Model.{Db, Endpoint, EndpointStatus, endpoint_is_pending, mode_is_device, Fields}
use sha.Model.Tx.{Tx, pure, gets, check, or_raise, raise_if, modify, ◌>>=◌, ◌>>◌}
use sha.Controls.{Registry}
use sha.Protocol.{legacy_reporter_protocol_version, require_supported_agent_protocol}
use sha.Authz.{Principal, is_device_credential, enforce_device_endpoint}
use sha.Approvals.{endpoint_has_id}
use sha.Actions.{enforce_endpoint_credential_mode, is_candidate}
use sha.Identity.{write_endpoint}
use sha.Endpoints.Capabilities.{
  CapabilityManifest, normalize_declared_capabilities, validate_capability_manifest,
  validate_manifest_platform,
}
use sha.Endpoints.Registration.{value_or, normalize_supplied}

-- `EndpointHeartbeatRequest`; its connectivity status is one of the schema's.
pub record HeartbeatPayload : Type 0 where
  pub agent_version : String
  pub protocol_version : Option String
  pub architecture : Option (Option String)
  pub platform_version : Option (Option String)
  pub platform_profile : String
  pub connectivity_status : String
  pub declared_capabilities : List String
  pub capability_manifest : Option CapabilityManifest
  pub execution_hooks : Fields

-- `EndpointHeartbeatAck`: the endpoint, and what waits for it.
pub record HeartbeatAck : Type 0 where
  pub endpoint : Endpoint
  pub accepted_capability_count : ℕ
  pub pending_action_count : ℕ

abbrev is_given {ℓ} : {A : Type ℓ} → Option A → Bool
is_given none = false
is_given (some a) = true

abbrev protocol_or_legacy : Option String → String
protocol_or_legacy none = legacy_reporter_protocol_version
protocol_or_legacy (some v) = v

-- The protocol that fits the way the caller was authenticated.
unfoldable pub check_protocol : Principal → HeartbeatPayload → String → Tx (Unit {0})
check_protocol principal payload protocol_version =
    if is_device_credential principal.auth_method
    then (do
      raise_if
          (not (is_given payload.protocol_version)
            || (not (is_given (value_or payload.architecture none))
                || not (is_given payload.capability_manifest)))
          (http 422 "device heartbeat requires protocol_version, architecture, and manifest")
      version ←
          or_raise (require_supported_agent_protocol protocol_version)
            (http 426 "unsupported_agent_protocol")
      pure tt)
    else (do
      raise_if (not (str_eq protocol_version legacy_reporter_protocol_version))
          (http 409 "legacy reporter authentication requires legacy-v1 protocol")
      raise_if (is_given payload.capability_manifest)
          (http 422 "legacy reporters cannot submit a canonical capability_manifest"))

unfoldable pub manifest_value : Option CapabilityManifest → List String → Result (Option Fields)
manifest_value none declared = ok none
manifest_value (some manifest) declared =
    sha.Base.◌>>=◌ (validate_capability_manifest manifest declared) (λ fields. ok (some fields))

abbrev check_platform : Registry → Endpoint → Option CapabilityManifest → Result (Unit {0})
check_platform registry e none = ok tt
check_platform registry e (some manifest) =
    validate_manifest_platform registry e.platform manifest.capabilities

-- The texts of the request, normalised, and its manifest.
pub record Beat : Type 0 where
  pub agent_version : String
  pub protocol_version : String
  pub platform_profile : String
  pub declared_capabilities : List String
  pub manifest : Option Fields

-- A device that waits for approval stays pending; anything else is active.
unfoldable pub beaten_status : Endpoint → EndpointStatus
beaten_status e =
    if not (mode_is_device e.credential_mode) || not (endpoint_is_pending e.status)
    then EndpointStatus.active
    else e.status

-- The endpoint's row after a heartbeat.
unfoldable pub beaten : ℕ → HeartbeatPayload → Beat → Option String → Endpoint → Endpoint
unfolding beaten_status
beaten now payload b platform_version e = record e {
  agent_version = b.agent_version;
  protocol_version = b.protocol_version;
  architecture = value_or payload.architecture none;
  platform_profile = some b.platform_profile;
  connectivity_status = some payload.connectivity_status;
  declared_capabilities = some b.declared_capabilities;
  capability_manifest = b.manifest;
  execution_hooks = some payload.execution_hooks;
  last_seen_at = now;
  last_heartbeat_at = some now;
  updated_at = now;
  status = beaten_status e;
  platform_version = platform_version;
}

-- The actions that the endpoint could claim.
unfoldable pub pending_actions : ℕ → Endpoint → Db → ℕ
pending_actions now e db =
    if endpoint_is_pending e.status
    then 0
    else length (select_where (is_candidate now e.endpoint_id db.grants) db.actions)

module _ (registry : Registry) (now : ℕ) (principal : Principal) where
  unfoldable pub beat_endpoint : HeartbeatPayload → Beat → Endpoint → Tx HeartbeatAck
  beat_endpoint payload b e = do
    check (enforce_endpoint_credential_mode principal e.credential_mode)
    check (check_platform registry e payload.capability_manifest)
    platform_version ← check (normalize_supplied payload.platform_version e.platform_version)
    let changed = beaten now payload b platform_version e
    modify (write_endpoint (endpoint_has_id e.endpoint_id) (λ x. changed))
    count ← gets (pending_actions now changed)
    pure (record {
      endpoint = changed;
      accepted_capability_count = length b.declared_capabilities;
      pending_action_count = count;
    })

  -- The checks of the request, before the transaction.
  unfoldable pub read_beat : HeartbeatPayload → Tx Beat
  read_beat payload = do
    agent_version ← check (trim_required payload.agent_version "agent_version")
    protocol_version ←
        check (trim_required (protocol_or_legacy payload.protocol_version) "protocol_version")
    check_protocol principal payload protocol_version
    platform_profile ← check (trim_required payload.platform_profile "platform_profile")
    declared ← check (normalize_declared_capabilities payload.declared_capabilities)
    manifest ← check (manifest_value payload.capability_manifest declared)
    pure (record {
      agent_version = agent_version;
      protocol_version = protocol_version;
      platform_profile = platform_profile;
      declared_capabilities = declared;
      manifest = manifest;
    })

  -- `heartbeat_endpoint`
  unfoldable pub heartbeat_endpoint : String → HeartbeatPayload → Tx HeartbeatAck
  heartbeat_endpoint raw_id payload = do
    id ← check (trim_required raw_id "endpoint_id")
    check (enforce_device_endpoint principal id)
    b ← read_beat payload
    found ← gets (λ db. find_first (endpoint_has_id id) db.endpoints)
    endpoint ← or_raise found (http 404 "endpoint not found")
    beat_endpoint payload b endpoint
