-- ===== src/Model/Rows.antt =====
-- The tables of backend/app/models.py, one record for each, and the database that holds them.
use sha.Base.{ℕ, String, Option, List}
use sha.Model.Metadata.{Fields}
use sha.Model.Fleet.{
  InstallerProfile, Tag, EndpointTagAssignment, SavedView, SavedViewVersion, DynamicGroup,
}
use sha.Model.People.{User, OidcIdentity, RoleRow, RolePermission, UserRoleBinding, BrowserSession}
use sha.Model.Enums.{
  Action, TroubleshootingScope, RequestKind, RequestStatus, GrantStatus, Risk, EventType,
  ActionStatus, ScopeState, EndpointStatus, Platform, CredentialMode, ScopeRowState, ApprovalPolicy,
  CredentialStatus, Outcome,
}

pub record Client : Type 0 where
  pub client_id : String
  pub key : Option String
  pub name : String
  pub state : ScopeRowState

pub record Location : Type 0 where
  pub location_id : String
  pub client_id : String
  pub key : Option String
  pub name : String
  pub state : ScopeRowState

pub record AuditEvent : Type 0 where
  pub audit_event_id : String
  pub event_type : String
  pub outcome : Outcome
  pub actor : String
  pub user_id : Option String
  pub auth_method : String
  pub client_id : Option String
  pub location_id : Option String
  pub endpoint_id : Option String
  pub target_type : Option String
  pub target_id : Option String
  pub request_id : Option String
  pub metadata_json : Fields
  pub created_at : ℕ

pub record EnrollmentToken : Type 0 where
  pub token_id : String
  pub secret_hash : String
  pub hash_key_id : String
  pub client_id : String
  pub location_id : String
  pub installer_profile_id : Option String
  pub platform : Option Platform
  pub approval_policy : ApprovalPolicy
  pub expires_at : ℕ
  pub max_uses : ℕ
  pub use_count : ℕ
  pub revoked_at : Option ℕ
  pub created_by : String
  pub created_at : ℕ
  pub updated_at : ℕ

-- The JSON columns hold what they decode to.
pub record Endpoint : Type 0 where
  pub endpoint_id : String
  pub agent_fingerprint : String
  pub hostname : String
  pub platform : Platform
  pub platform_version : Option String
  pub platform_profile : Option String
  pub agent_version : String
  pub protocol_version : String
  pub architecture : Option String
  pub installation_id : Option String
  pub credential_mode : CredentialMode
  pub enrollment_token_id : Option String
  pub client_id : String
  pub location_id : String
  pub tenant_id : Option String
  pub site_id : Option String
  pub status : EndpointStatus
  pub connectivity_status : Option String
  pub declared_capabilities : Option (List String)
  pub capability_manifest : Option Fields
  pub execution_hooks : Option Fields
  pub last_seen_at : ℕ
  pub last_heartbeat_at : Option ℕ
  pub created_at : ℕ
  pub updated_at : ℕ

pub record DeviceCredential : Type 0 where
  pub credential_id : String
  pub endpoint_id : String
  pub secret_hash : String
  pub hash_key_id : String
  pub status : CredentialStatus
  pub replaced_by_credential_id : Option String
  pub last_used_at : Option ℕ
  pub expires_at : Option ℕ
  pub created_at : ℕ
  pub updated_at : ℕ
  pub replaced_at : Option ℕ
  pub revoked_at : Option ℕ

pub record EnrollmentRedemption : Type 0 where
  pub redemption_id : String
  pub enrollment_token_id : String
  pub installation_id : String
  pub endpoint_id : String
  pub credential_id : String
  pub request_hash : String
  pub created_at : ℕ

pub record ApprovalRequest : Type 0 where
  pub approval_request_id : String
  pub scope_state : ScopeState
  pub client_id : Option String
  pub location_id : Option String
  pub endpoint_ids : List String
  pub request_kind : RequestKind
  pub requested_actions : List Action
  pub control_ids : List String
  pub troubleshooting_scopes : List TroubleshootingScope
  pub requested_ttl_minutes : ℕ
  pub requested_by : String
  pub reason : String
  pub risk : Risk
  pub status : RequestStatus
  pub decision_by : Option String
  pub decision_comment : Option String
  pub decision_at : Option ℕ
  pub approval_grant_id : Option String
  pub created_at : ℕ
  pub updated_at : ℕ

pub record ApprovalRequestEvent : Type 0 where
  pub approval_event_id : String
  pub approval_request_id : String
  pub event_type : EventType
  pub actor : String
  pub comment : String
  pub created_at : ℕ

pub record ApprovalGrant : Type 0 where
  pub approval_grant_id : String
  pub scope_state : ScopeState
  pub client_id : Option String
  pub location_id : Option String
  pub approval_request_id : Option String
  pub endpoint_ids : List String
  pub allowed_actions : List Action
  pub control_ids : List String
  pub troubleshooting_scopes : List TroubleshootingScope
  pub requested_by : String
  pub approved_by : String
  pub reason : String
  pub expires_at : ℕ
  pub status : GrantStatus
  pub created_at : ℕ
  pub updated_at : ℕ

pub record ResponseAction : Type 0 where
  pub response_action_id : String
  pub endpoint_id : String
  pub approval_grant_id : String
  pub action : Action
  pub control_id : Option String
  pub troubleshooting_scope : Option TroubleshootingScope
  pub idempotency_key : String
  pub requested_by : String
  pub reason : String
  pub status : ActionStatus
  pub lease_token_hash : Option String
  pub lease_expires_at : Option ℕ
  pub leased_at : Option ℕ
  pub attempt_count : ℕ
  pub result_summary : Option String
  pub created_at : ℕ
  pub updated_at : ℕ
  pub completed_at : Option ℕ

-- `draws` counts the random identifiers drawn so far.
pub record Db : Type 0 where
  pub users : List User
  pub identities : List OidcIdentity
  pub roles : List RoleRow
  pub role_permissions : List RolePermission
  pub role_bindings : List UserRoleBinding
  pub sessions : List BrowserSession
  pub clients : List Client
  pub locations : List Location
  pub endpoints : List Endpoint
  pub profiles : List InstallerProfile
  pub tags : List Tag
  pub tag_assignments : List EndpointTagAssignment
  pub saved_views : List SavedView
  pub view_versions : List SavedViewVersion
  pub dynamic_groups : List DynamicGroup
  pub tokens : List EnrollmentToken
  pub credentials : List DeviceCredential
  pub redemptions : List EnrollmentRedemption
  pub requests : List ApprovalRequest
  pub request_events : List ApprovalRequestEvent
  pub grants : List ApprovalGrant
  pub actions : List ResponseAction
  pub audit : List AuditEvent
  pub draws : ℕ
