-- ===== src/Authz/Permissions.antt =====
-- The permissions of backend/app/authorization.py, as the texts that roles hold.
use sha.Base.{String, List, [], ◌∷◌}

-- `ALL_PERMISSIONS`
abbrev pub all_permissions : List String
all_permissions =
    "action.approve" ∷ "action.request" ∷ "approval.decide" ∷ "approval.grant" ∷ "approval.read"
    ∷ "approval.request" ∷ "audit.read" ∷ "audit.export" ∷ "bulk_action.execute" ∷ "catalog.read"
    ∷ "command.execute" ∷ "compliance.exception" ∷ "compliance_evidence.export"
    ∷ "containment.execute" ∷ "containment.release" ∷ "credential.admin"
    ∷ "device_credential.manage" ∷ "dynamic_group.manage" ∷ "dynamic_group.read"
    ∷ "endpoint.approve" ∷ "endpoint.read" ∷ "evidence.collect" ∷ "evidence.read"
    ∷ "enrollment.admin" ∷ "enrollment.manage" ∷ "enrollment.read" ∷ "hierarchy.manage"
    ∷ "hierarchy.read" ∷ "identity.manage" ∷ "installer_artifact.download"
    ∷ "installer_profile.manage" ∷ "installer_profile.read" ∷ "incident.manage" ∷ "inventory.read"
    ∷ "inventory.refresh" ∷ "process.mutate" ∷ "reboot.execute" ∷ "response_action.create"
    ∷ "response_action.read" ∷ "saved_view.manage" ∷ "saved_view.read" ∷ "schedule.approve"
    ∷ "schedule.create" ∷ "service.mutate" ∷ "tag.manage" ∷ "tag.read" ∷ "terminal.open" ∷ []

-- `READONLY_PERMISSIONS`
abbrev pub readonly_permissions : List String
readonly_permissions =
    "approval.read" ∷ "audit.read" ∷ "catalog.read" ∷ "compliance_evidence.export"
    ∷ "dynamic_group.read" ∷ "endpoint.read" ∷ "evidence.read" ∷ "hierarchy.read" ∷ "inventory.read"
    ∷ "installer_profile.read" ∷ "response_action.read" ∷ "saved_view.read" ∷ "tag.read" ∷ []

-- `LEGACY_OPERATOR_PERMISSIONS`
abbrev pub legacy_operator_permissions : List String
legacy_operator_permissions =
    "approval.decide" ∷ "approval.grant" ∷ "approval.read" ∷ "approval.request" ∷ "audit.read"
    ∷ "catalog.read" ∷ "compliance_evidence.export" ∷ "device_credential.manage"
    ∷ "dynamic_group.manage" ∷ "dynamic_group.read" ∷ "endpoint.approve" ∷ "endpoint.read"
    ∷ "enrollment.manage" ∷ "enrollment.read" ∷ "hierarchy.manage" ∷ "hierarchy.read"
    ∷ "installer_artifact.download" ∷ "installer_profile.manage" ∷ "installer_profile.read"
    ∷ "response_action.create" ∷ "response_action.read" ∷ "saved_view.manage" ∷ "saved_view.read"
    ∷ "tag.manage" ∷ "tag.read" ∷ []
