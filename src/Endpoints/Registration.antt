-- ===== src/Endpoints/Registration.antt =====
-- backend/app/api/endpoints/endpoints.py: the registration of a legacy reporter, and the approval of
-- a pending endpoint. A field of a request that may be left out is absent, or present with a value.
use sha.Base.{
  ℕ, String, Bool, true, false, not, ◌&&◌, ◌||◌, Option, none, some, http, any, if◌then◌else◌,
  str_eq, opt_eq, find_first, Result, ok,
}
use sha.Text.{trim_required, normalize_optional}
use sha.Model.{
  Db, Endpoint, EndpointStatus, endpoint_is_pending, Platform, platform_is, legacy_shared,
}
use sha.Model.Tx.{Tx, pure, gets, check, or_raise, raise_if, modify, ◌>>=◌, ◌>>◌}
use sha.Outside.{Outside}
use sha.Ids.{generate_prefixed_id}
use sha.Protocol.{legacy_reporter_protocol_version}
use sha.Authz.{Principal, clause_holds, scope_clause, audit_call, record_audit_event}
use sha.Approvals.{endpoint_has_id}
use sha.Actions.{enforce_endpoint_credential_mode}
use sha.Hierarchy.{ResolvedScope, resolve_scope}
use sha.Identity.{normalize_agent_fingerprint, has_fingerprint, add_endpoint, write_endpoint}

-- `EndpointEnrollRequest`
pub record EnrollPayload : Type 0 where
  pub agent_fingerprint : String
  pub hostname : String
  pub platform : Platform
  pub platform_version : Option (Option String)
  pub agent_version : String
  pub protocol_version : String
  pub architecture : Option (Option String)
  pub tenant_id : Option (Option String)
  pub site_id : Option (Option String)

abbrev pub is_supplied : Option (Option String) → Bool
is_supplied none = false
is_supplied (some value) = true

abbrev pub value_or : Option (Option String) → Option String → Option String
value_or none default = default
value_or (some value) default = value

-- `normalize_optional_string` of a field that is present.
unfoldable pub normalize_supplied : Option (Option String) → Option String → Result (Option String)
normalize_supplied none default = ok default
normalize_supplied (some value) default = normalize_optional value "platform_version"

-- The scope that the legacy fields name.
unfoldable pub legacy_scope :
    EnrollPayload → Option String → Option String → Db → Result ResolvedScope
legacy_scope payload tenant_id site_id db = resolve_scope db (record {
  client_id = none;
  location_id = none;
  tenant_id = value_or payload.tenant_id tenant_id;
  site_id = value_or payload.site_id site_id;
  canonical_fields_supplied = false;
  tenant_field_supplied = is_supplied payload.tenant_id;
  site_field_supplied = is_supplied payload.site_id;
})

-- What a registration that repeats may not change.
unfoldable pub changes_scope : EnrollPayload → Endpoint → ResolvedScope → Bool
changes_scope payload e scope =
    not (str_eq scope.client_id e.client_id)
    || (not (str_eq scope.location_id e.location_id)
        || ((is_supplied payload.tenant_id && not (opt_eq scope.tenant_id e.tenant_id))
            || (is_supplied payload.site_id && not (opt_eq scope.site_id e.site_id))))

-- The texts of the request, normalised.
pub record Registration : Type 0 where
  pub agent_fingerprint : String
  pub hostname : String
  pub agent_version : String
  pub protocol_version : String

module _ (outside : Outside) (now : ℕ) (principal : Principal) where
  unfoldable pub registered_endpoint :
      String → EnrollPayload → Registration → ResolvedScope → Option String → Endpoint
  registered_endpoint id payload r scope platform_version = record {
    endpoint_id = id;
    agent_fingerprint = r.agent_fingerprint;
    hostname = r.hostname;
    platform = payload.platform;
    platform_version = platform_version;
    platform_profile = none;
    agent_version = r.agent_version;
    protocol_version = r.protocol_version;
    architecture = value_or payload.architecture none;
    installation_id = none;
    credential_mode = legacy_shared;
    enrollment_token_id = none;
    client_id = scope.client_id;
    location_id = scope.location_id;
    tenant_id = scope.tenant_id;
    site_id = scope.site_id;
    status = EndpointStatus.active;
    connectivity_status = none;
    declared_capabilities = none;
    capability_manifest = none;
    execution_hooks = none;
    last_seen_at = now;
    last_heartbeat_at = none;
    created_at = now;
    updated_at = now;
  }

  -- A machine that is not known.
  unfoldable pub register_endpoint : EnrollPayload → Registration → Tx Endpoint
  register_endpoint payload r = do
    scope ← gets (legacy_scope payload none none)
    scope ← check scope
    id ← generate_prefixed_id outside "ep"
    platform_version ← check (normalize_supplied payload.platform_version none)
    let endpoint = registered_endpoint id payload r scope platform_version
    taken ← gets (λ db. any (endpoint_has_id id) db.endpoints)
    raise_if taken (http 500 "endpoint already exists")
    modify (add_endpoint endpoint)
    pure endpoint

  unfoldable pub reregistered : EnrollPayload → Registration → Option String → Endpoint → Endpoint
  reregistered payload r platform_version e = record e {
    hostname = r.hostname;
    platform = payload.platform;
    agent_version = r.agent_version;
    protocol_version = r.protocol_version;
    status = EndpointStatus.active;
    last_seen_at = now;
    updated_at = now;
    platform_version = platform_version;
    architecture = value_or payload.architecture e.architecture;
  }

  -- The scope fields of a registration that repeats.
  unfoldable pub keep_scope : EnrollPayload → Endpoint → Tx (Unit {0})
  keep_scope payload e =
      if is_supplied payload.tenant_id || is_supplied payload.site_id
      then (do
        scope ← gets (legacy_scope payload e.tenant_id e.site_id)
        scope ← check scope
        raise_if (changes_scope payload e scope)
            (http 409 "re-enrollment cannot change endpoint client or location"))
      else pure tt

  -- A machine that is known by its fingerprint.
  unfoldable pub reregister_endpoint : EnrollPayload → Registration → Endpoint → Tx Endpoint
  reregister_endpoint payload r e = do
    check (enforce_endpoint_credential_mode principal e.credential_mode)
    raise_if (not (platform_is e.platform payload.platform))
        (http 409 "agent fingerprint already enrolled for a different platform")
    keep_scope payload e
    platform_version ← check (normalize_supplied payload.platform_version e.platform_version)
    let changed = reregistered payload r platform_version e
    modify (write_endpoint (has_fingerprint r.agent_fingerprint) (λ x. changed))
    pure changed

  unfoldable pub register_or_repeat : EnrollPayload → Registration → Option Endpoint → Tx Endpoint
  register_or_repeat payload r none = register_endpoint payload r
  register_or_repeat payload r (some e) = reregister_endpoint payload r e

  -- `enroll_endpoint`
  unfoldable pub enroll_legacy_endpoint : EnrollPayload → Tx Endpoint
  enroll_legacy_endpoint payload = do
    agent_fingerprint ← check (normalize_agent_fingerprint outside payload.agent_fingerprint)
    hostname ← check (trim_required payload.hostname "hostname")
    agent_version ← check (trim_required payload.agent_version "agent_version")
    protocol_version ← check (trim_required payload.protocol_version "protocol_version")
    raise_if (not (str_eq protocol_version legacy_reporter_protocol_version))
        (http 409 "canonical agents must enroll through /api/agent/bootstrap")
    existing ← gets (λ db. find_first (has_fingerprint agent_fingerprint) db.endpoints)
    register_or_repeat payload
        (record {
          agent_fingerprint = agent_fingerprint;
          hostname = hostname;
          agent_version = agent_version;
          protocol_version = protocol_version;
        })
        existing

  -- The endpoint that the query for an approval finds.
  unfoldable pub approvable : String → Endpoint → Bool
  approvable id e =
      endpoint_has_id id e
      && clause_holds (scope_clause principal "endpoint.approve") (some e.client_id)
          (some e.location_id)

  unfoldable pub activated : Endpoint → Endpoint
  activated e = record e { status = EndpointStatus.active; updated_at = now }

  unfoldable pub activate_once : String → Endpoint → Tx Endpoint
  activate_once id e =
      if endpoint_is_pending e.status
      then (do modify (write_endpoint (approvable id) activated); pure (activated e))
      else pure e

  -- `approve_pending_endpoint`
  unfoldable pub approve_pending_endpoint : String → Tx Endpoint
  approve_pending_endpoint raw_id = do
    id ← check (trim_required raw_id "endpoint_id")
    found ← gets (λ db. find_first (approvable id) db.endpoints)
    endpoint ← or_raise found (http 404 "endpoint not found")
    row ← activate_once id endpoint
    record_audit_event outside now (record (audit_call "endpoint_enrollment_approved" principal) {
      client_id = some row.client_id;
      location_id = some row.location_id;
      endpoint_id = some row.endpoint_id;
      target_type = some "endpoint";
      target_id = some row.endpoint_id;
    })
    pure row
