-- ===== src/Model/Enums.antt =====
-- The enumerations of backend/app/utils.py and the check constraints of backend/app/models.py.
use sha.Base.{ℕ, ◌≡◌, ◌↔◌, Bool, true, false, arith, ◌==◌, Eq, String}

-- `APPROVAL_ACTIONS`
pub data Action : Type 0 where
  collect_security_context collect_remediation_evidence inspect_control apply_control
        rollback_control request_elevated_troubleshooting :
      Action

abbrev pub action_code : Action → ℕ
action_code collect_security_context = 0
action_code collect_remediation_evidence = 1
action_code inspect_control = 2
action_code apply_control = 3
action_code rollback_control = 4
action_code request_elevated_troubleshooting = 5

abbrev pub action_is : Action → Action → Bool
action_is a b = action_code a == action_code b

pub action_is_iff : (a b : Action) → (action_is a b ≡ true) ↔ (a ≡ b)
action_is_iff a b = ground arith

instance abbrev pub action_eq : Eq Action
action_eq = record { agrees = action_is; agrees_iff = action_is_iff }

-- The value of the enumeration member.
abbrev pub action_text : Action → String
action_text collect_security_context = "collect_security_context"
action_text collect_remediation_evidence = "collect_remediation_evidence"
action_text inspect_control = "inspect_control"
action_text apply_control = "apply_control"
action_text rollback_control = "rollback_control"
action_text request_elevated_troubleshooting = "request_elevated_troubleshooting"

-- `TROUBLESHOOTING_SCOPES`
pub data TroubleshootingScope : Type 0 where
  service_status security_logs firewall_state identity_state process_inventory network_bindings :
      TroubleshootingScope

abbrev pub scope_code : TroubleshootingScope → ℕ
scope_code service_status = 0
scope_code security_logs = 1
scope_code firewall_state = 2
scope_code identity_state = 3
scope_code process_inventory = 4
scope_code network_bindings = 5

abbrev pub scope_is : TroubleshootingScope → TroubleshootingScope → Bool
scope_is a b = scope_code a == scope_code b

pub scope_is_iff : (a b : TroubleshootingScope) → (scope_is a b ≡ true) ↔ (a ≡ b)
scope_is_iff a b = ground arith

instance abbrev pub scope_eq : Eq TroubleshootingScope
scope_eq = record { agrees = scope_is; agrees_iff = scope_is_iff }

-- `APPROVAL_REQUEST_KINDS`
pub data RequestKind : Type 0 where
  hardening_change elevated_troubleshooting : RequestKind

-- `APPROVAL_REQUEST_STATUSES`
pub data RequestStatus : Type 0 where
  pending approved denied expired revoked : RequestStatus

abbrev pub is_pending : RequestStatus → Bool
is_pending pending = true
is_pending _ = false

abbrev pub is_approved : RequestStatus → Bool
is_approved approved = true
is_approved _ = false

-- `APPROVAL_STATUSES`
pub data GrantStatus : Type 0 where
  approved expired revoked : GrantStatus

abbrev pub grant_is_approved : GrantStatus → Bool
grant_is_approved GrantStatus.approved = true
grant_is_approved _ = false

-- `APPROVAL_DECISIONS`
pub data Decision : Type 0 where
  approve deny revoke : Decision

-- `APPROVAL_RISKS`
pub data Risk : Type 0 where
  low medium high critical : Risk

-- `ck_approval_request_events_event_type`
pub data EventType : Type 0 where
  requested approved denied revoked expired : EventType

abbrev pub event_code : EventType → ℕ
event_code EventType.requested = 0
event_code EventType.approved = 1
event_code EventType.denied = 2
event_code EventType.revoked = 3
event_code EventType.expired = 4

-- `ck_response_actions_status`
pub data ActionStatus : Type 0 where
  queued leased succeeded failed cancelled : ActionStatus

-- `ck_approval_grants_scope_state`
pub data ScopeState : Type 0 where
  active migration_quarantine : ScopeState

abbrev pub scope_is_active : ScopeState → Bool
scope_is_active ScopeState.active = true
scope_is_active _ = false

-- `ENDPOINT_STATUSES`
pub data EndpointStatus : Type 0 where
  pending active stale : EndpointStatus

abbrev pub endpoint_is_pending : EndpointStatus → Bool
endpoint_is_pending EndpointStatus.pending = true
endpoint_is_pending _ = false

-- `ENDPOINT_PLATFORMS`
pub data Platform : Type 0 where
  windows linux macos : Platform

abbrev pub platform_code : Platform → ℕ
platform_code windows = 0
platform_code linux = 1
platform_code macos = 2

abbrev pub platform_is : Platform → Platform → Bool
platform_is a b = platform_code a == platform_code b

abbrev pub platform_text : Platform → String
platform_text windows = "windows"
platform_text linux = "linux"
platform_text macos = "macos"

-- The credential modes of `Endpoint`.
pub data CredentialMode : Type 0 where
  device legacy_shared : CredentialMode

abbrev pub mode_is_device : CredentialMode → Bool
mode_is_device device = true
mode_is_device legacy_shared = false

-- The states of `Client` and `Location`.
pub data ScopeRowState : Type 0 where
  active archived migration_quarantine : ScopeRowState

abbrev pub row_is_active : ScopeRowState → Bool
row_is_active ScopeRowState.active = true
row_is_active _ = false

abbrev pub row_is_archived : ScopeRowState → Bool
row_is_archived archived = true
row_is_archived _ = false

-- The approval policies of an enrollment token.
pub data ApprovalPolicy : Type 0 where
  pending approved : ApprovalPolicy

-- `ck_device_credentials_status`
pub data CredentialStatus : Type 0 where
  active replaced revoked : CredentialStatus

abbrev pub credential_is_active : CredentialStatus → Bool
credential_is_active CredentialStatus.active = true
credential_is_active _ = false

abbrev pub credential_is_revoked : CredentialStatus → Bool
credential_is_revoked CredentialStatus.revoked = true
credential_is_revoked _ = false

-- `ck_audit_events_outcome`
pub data Outcome : Type 0 where
  success denied failure : Outcome

-- The scope types of bindings, tags, views and groups.
pub data ResourceScope : Type 0 where
  global_scope client_scope location_scope : ResourceScope

abbrev pub resource_is_global : ResourceScope → Bool
resource_is_global global_scope = true
resource_is_global _ = false

abbrev pub resource_is_client : ResourceScope → Bool
resource_is_client client_scope = true
resource_is_client _ = false

abbrev pub resource_is_location : ResourceScope → Bool
resource_is_location location_scope = true
resource_is_location _ = false

abbrev pub resource_scope_text : ResourceScope → String
resource_scope_text global_scope = "global"
resource_scope_text client_scope = "client"
resource_scope_text location_scope = "location"
