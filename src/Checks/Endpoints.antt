-- ===== src/Checks/Endpoints.antt =====
-- A heartbeat in the small world, of a device that is enrolled and of one that waits.
use sha.Base.{
  ◌≡◌, ◌⊎◌, true, false, ◌&&◌, none, some, [], ◌∷◌, ok, length, select_where, find_first, refl,
  Memᴰ, String, ℕ, contains, has_duplicates, all, update_first, order_by,
}
use sha.Text.{trim_required, strip}
use sha.Model.{Db, Endpoint, device, end, EndpointStatus, mode_is_device, endpoint_is_pending}
use sha.Model.Tx.{◌>>=◌}
use sha.Protocol.{require_supported_agent_protocol}
use sha.Identity.{after_literal, write_endpoint}
use sha.Authz.{enforce_device_endpoint}
use sha.Approvals.{endpoint_has_id}
use sha.Actions.{enforce_endpoint_credential_mode, is_candidate}
use sha.Endpoints.{
  HeartbeatPayload, HeartbeatAck, CapabilityKind, heartbeat_endpoint, read_beat, beat_endpoint,
  beaten, beaten_status, pending_actions, check_protocol, manifest_value,
  validate_capability_manifest, validate_manifest_platform, check_capability,
  normalize_declared_capabilities, normalize_each, normalize_agent_capability, normalize_supplied,
  typed_control, expected_kind,
}
use sha.Endpoints.Beating.{heartbeat-waits}
use sha.Checks.World.{controls, agent, host, start}

abbrev beat : HeartbeatPayload
beat = record {
  agent_version = "2";
  protocol_version = some "sha-agent-v1";
  architecture = some (some "amd64");
  platform_version = none;
  platform_profile = "server";
  connectivity_status = "online";
  declared_capabilities = "heartbeat" ∷ [];
  capability_manifest = some (record {
    capabilities = record { id = "heartbeat"; kind = CapabilityKind.core } ∷ [];
    dumped = end;
  });
  execution_hooks = end;
}

abbrev waiting : Db
waiting = record start { endpoints = record host { status = EndpointStatus.pending } ∷ [] }

abbrev beaten_host : Endpoint
beaten_host = record host {
  status = EndpointStatus.pending;
  agent_version = "2";
  architecture = some "amd64";
  platform_profile = some "server";
  connectivity_status = some "online";
  declared_capabilities = some ("heartbeat" ∷ []);
  capability_manifest = some end;
  execution_hooks = some end;
  last_seen_at = 9;
  last_heartbeat_at = some 9;
  updated_at = 9;
}

abbrev ack : HeartbeatAck
ack = record { endpoint = beaten_host; accepted_capability_count = 1; pending_action_count = 0 }

abbrev after : Db
after = record waiting { endpoints = beaten_host ∷ [] }

beat_runs : heartbeat_endpoint controls 9 agent " ep-1 " beat waiting ≡ ok (ack, after)
unfolding heartbeat_endpoint read_beat beat_endpoint beaten beaten_status pending_actions
    check_protocol require_supported_agent_protocol manifest_value validate_capability_manifest
    validate_manifest_platform check_capability normalize_declared_capabilities normalize_each
    normalize_agent_capability normalize_supplied typed_control after_literal expected_kind
    trim_required strip enforce_device_endpoint enforce_endpoint_credential_mode write_endpoint
    find_first update_first order_by contains has_duplicates all ◌>>=◌
beat_runs = refl

heartbeat-waits_example :
    (id : String) × (e : Endpoint) × (trim_required " ep-1 " "endpoint_id" ≡ ok id)
    × (find_first (endpoint_has_id id) waiting.endpoints ≡ some e)
    × (enforce_device_endpoint agent id ≡ ok tt)
    × (enforce_endpoint_credential_mode agent e.credential_mode ≡ ok tt)
    × Memᴰ beaten_host after.endpoints
    × ("ep-1" ≡ id)
    × ("cl" ≡ e.client_id)
    × ("lo" ≡ e.location_id)
    × (device ≡ e.credential_mode)
    × (some "in-1" ≡ e.installation_id)
    × (((mode_is_device e.credential_mode && endpoint_is_pending e.status ≡ true)
          × (endpoint_is_pending EndpointStatus.pending ≡ true)
          × (◌≡◌ {A = ℕ} 0 0))
        ⊎ ((mode_is_device e.credential_mode && endpoint_is_pending e.status ≡ false)
            × (EndpointStatus.pending ≡ EndpointStatus.active)
            × (◌≡◌ {A = ℕ} 0
                (length (select_where (is_candidate 9 id after.grants) after.actions)))))
heartbeat-waits_example = heartbeat-waits controls 9 agent beat " ep-1 " waiting beat_runs
