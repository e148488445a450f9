-- ===== src/Actions/Shape.antt =====
-- backend/app/api/endpoints/response_actions.py: what an action must look like, and what its grant
-- and its endpoint must allow.
use Prim.Native.String.{◌++◌}
use sha.Base.{
  ℕ, String, Bool, true, false, not, ◌&&◌, ◌||◌, Option, none, some, List, [], Result, ok, http,
  ◌>>=◌, ◌>>◌, raise_if, if◌then◌else◌, leb, str_eq, opt_eq, string_eq, contains,
}
use sha.Text.{normalize_optional}
use sha.Model.{
  Action, collect_remediation_evidence, action_is, action_eq, action_text, TroubleshootingScope,
  scope_is, scope_eq, ApprovalGrant, ResponseAction, Endpoint, grant_is_approved,
}
use sha.Approvals.{is_hardening}

-- `action in _UNSCOPED_RESPONSE_ACTIONS`
abbrev pub is_unscoped : Action → Bool
is_unscoped collect_remediation_evidence = true
is_unscoped _ = false

abbrev pub is_given {ℓ} : {A : Type ℓ} → Option A → Bool
is_given none = false
is_given (some _) = true

abbrev pub ActionShape : Type 0
ActionShape = Action × Option String × Option TroubleshootingScope

hardening_shape : Action → Option String → Option TroubleshootingScope → Result ActionShape
hardening_shape action control_id scope = do
  raise_if (not (is_given control_id)) (http 422 "hardening actions require control_id")
  raise_if (is_given scope) (http 422 "hardening actions must not include troubleshooting_scope")
  ok (action, control_id, none)

unscoped_shape : Action → Option String → Option TroubleshootingScope → Result ActionShape
unscoped_shape action control_id scope = do
  raise_if (is_given control_id) (http 422 "unscoped response actions must not include control_id")
  raise_if (is_given scope)
      (http 422 "unscoped response actions must not include troubleshooting_scope")
  ok (action, none, none)

troubleshooting_shape : Action → Option String → Option TroubleshootingScope → Result ActionShape
troubleshooting_shape action control_id scope = do
  raise_if (is_given control_id) (http 422 "troubleshooting actions must not include control_id")
  raise_if (not (is_given scope)) (http 422 "troubleshooting actions require troubleshooting_scope")
  ok (action, none, scope)

-- The branches of `_normalize_action_shape`, once the control identifier is trimmed.
unfoldable pub shape_of : Action → Option String → Option TroubleshootingScope → Result ActionShape
unfolding hardening_shape unscoped_shape troubleshooting_shape
shape_of action control_id scope =
    if is_hardening action
    then hardening_shape action control_id scope
    else if is_unscoped action
    then unscoped_shape action control_id scope
    else troubleshooting_shape action control_id scope

-- `_normalize_action_shape`; the action and the scope come from the schema's enumerations.
unfoldable pub normalize_action_shape :
    Action → Option String → Option TroubleshootingScope → Result ActionShape
normalize_action_shape action raw_control_id scope = do
  control_id ← normalize_optional raw_control_id "control_id"
  shape_of action control_id scope

-- `_parse_declared_capabilities` of backend/app/api/endpoints/endpoints.py.
unfoldable pub parse_declared_capabilities : Endpoint → List String
parse_declared_capabilities endpoint = elim endpoint.declared_capabilities [
  | none ↦ []
  | some capabilities ↦ capabilities
]

-- `_declares_action_capability`
unfoldable pub declares_action_capability : List String → Action → Option String → Bool
declares_action_capability declared action none = contains (action_text action) declared
declares_action_capability declared action (some control_id) =
    contains (action_text action) declared
    || contains ((action_text action ++ ":") ++ control_id) declared

abbrev pub scope_option_is : Option TroubleshootingScope → Option TroubleshootingScope → Bool
scope_option_is none none = true
scope_option_is (some a) (some b) = scope_is a b
scope_option_is _ _ = false

-- `_same_action_request`
unfoldable pub same_action_request : ResponseAction → String → ActionShape → String → String → Bool
same_action_request existing approval_grant_id (action, control_id, scope) requested_by reason =
    str_eq existing.approval_grant_id approval_grant_id
    && (action_is existing.action action
        && (opt_eq existing.control_id control_id
            && (scope_option_is existing.troubleshooting_scope scope
                && (str_eq existing.requested_by requested_by && str_eq existing.reason reason))))

abbrev pub control_granted : Option String → ApprovalGrant → Bool
control_granted none grant = true
control_granted (some control_id) grant = contains control_id grant.control_ids

abbrev pub scope_granted : Option TroubleshootingScope → ApprovalGrant → Bool
scope_granted none grant = true
scope_granted (some scope) grant = contains scope grant.troubleshooting_scopes

-- `_validate_grant_scope`
unfoldable pub validate_grant_scope : ApprovalGrant → String → ActionShape → ℕ → Result (Unit {0})
validate_grant_scope grant endpoint_id (action, control_id, scope) now = do
  raise_if (not (grant_is_approved grant.status) || leb grant.expires_at now)
      (http 409 "approval grant is not active")
  raise_if (not (contains endpoint_id grant.endpoint_ids))
      (http 422 "approval grant does not include endpoint_id")
  raise_if (not (contains action grant.allowed_actions))
      (http 422 "approval grant does not allow action")
  raise_if (not (control_granted control_id grant))
      (http 422 "approval grant does not include control_id")
  raise_if (not (scope_granted scope grant))
      (http 422 "approval grant does not include troubleshooting_scope")
  ok tt
