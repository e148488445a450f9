-- ===== src/Evolution/Moves.antt =====
-- What may change in one row of each table.
use sha.Base.{ℕ, ◌≤◌, ◌≡◌, refl, ◌∙◌, Bool, true, false, arith, some}
use sha.Model.{
  RequestStatus, GrantStatus, ActionStatus, queued, leased, succeeded, failed, cancelled,
  CredentialStatus, ApprovalRequest, ApprovalGrant, ResponseAction, DeviceCredential,
  EnrollmentToken,
}

-- pending goes anywhere, approved to expired or revoked, and nothing leaves the others.
abbrev pub request_leads : RequestStatus → RequestStatus → Bool
request_leads RequestStatus.pending t = true
request_leads RequestStatus.approved RequestStatus.approved = true
request_leads RequestStatus.approved RequestStatus.expired = true
request_leads RequestStatus.approved RequestStatus.revoked = true
request_leads RequestStatus.denied RequestStatus.denied = true
request_leads RequestStatus.expired RequestStatus.expired = true
request_leads RequestStatus.revoked RequestStatus.revoked = true
request_leads _ _ = false

abbrev pub grant_leads : GrantStatus → GrantStatus → Bool
grant_leads GrantStatus.approved t = true
grant_leads GrantStatus.expired GrantStatus.expired = true
grant_leads GrantStatus.revoked GrantStatus.revoked = true
grant_leads _ _ = false

abbrev pub is_terminal : ActionStatus → Bool
is_terminal queued = false
is_terminal leased = false
is_terminal _ = true

-- An action is never queued again.
abbrev pub action_leads : ActionStatus → ActionStatus → Bool
action_leads queued t = true
action_leads leased queued = false
action_leads leased t = true
action_leads succeeded succeeded = true
action_leads failed failed = true
action_leads cancelled cancelled = true
action_leads _ _ = false

abbrev pub credential_leads : CredentialStatus → CredentialStatus → Bool
credential_leads CredentialStatus.active t = true
credential_leads CredentialStatus.replaced CredentialStatus.replaced = true
credential_leads CredentialStatus.replaced CredentialStatus.revoked = true
credential_leads CredentialStatus.revoked CredentialStatus.revoked = true
credential_leads _ _ = false

-- What was asked for stays; the status follows its diagram.
pub record RequestMoves (r s : ApprovalRequest) : Type 0 where
  pub id : s.approval_request_id ≡ r.approval_request_id
  pub endpoints : s.endpoint_ids ≡ r.endpoint_ids
  pub kind : s.request_kind ≡ r.request_kind
  pub actions : s.requested_actions ≡ r.requested_actions
  pub controls : s.control_ids ≡ r.control_ids
  pub scopes : s.troubleshooting_scopes ≡ r.troubleshooting_scopes
  pub author : s.requested_by ≡ r.requested_by
  pub status : request_leads r.status s.status ≡ true

-- What a grant allows, and until when, stays; an ended grant stays ended.
pub record GrantMoves (r s : ApprovalGrant) : Type 0 where
  pub id : s.approval_grant_id ≡ r.approval_grant_id
  pub request : s.approval_request_id ≡ r.approval_request_id
  pub endpoints : s.endpoint_ids ≡ r.endpoint_ids
  pub actions : s.allowed_actions ≡ r.allowed_actions
  pub controls : s.control_ids ≡ r.control_ids
  pub scopes : s.troubleshooting_scopes ≡ r.troubleshooting_scopes
  pub expiry : s.expires_at ≡ r.expires_at
  pub status : grant_leads r.status s.status ≡ true

-- The order stays what it was, attempts only grow, and a finished action does not change.
pub record ActionMoves (r s : ResponseAction) : Type 0 where
  pub id : s.response_action_id ≡ r.response_action_id
  pub endpoint : s.endpoint_id ≡ r.endpoint_id
  pub grant : s.approval_grant_id ≡ r.approval_grant_id
  pub action : s.action ≡ r.action
  pub control : s.control_id ≡ r.control_id
  pub scope : s.troubleshooting_scope ≡ r.troubleshooting_scope
  pub key : s.idempotency_key ≡ r.idempotency_key
  pub attempts : r.attempt_count ≤ s.attempt_count
  pub status : action_leads r.status s.status ≡ true
  pub final : is_terminal r.status ≡ true → s ≡ r

-- The secret stays, and a credential that was replaced or revoked is never active again.
pub record CredentialMoves (r s : DeviceCredential) : Type 0 where
  pub id : s.credential_id ≡ r.credential_id
  pub endpoint : s.endpoint_id ≡ r.endpoint_id
  pub secret : s.secret_hash ≡ r.secret_hash
  pub status : credential_leads r.status s.status ≡ true

-- The limits stay, uses are only added and never beyond the limit, and a revocation stays.
pub record TokenMoves (r s : EnrollmentToken) : Type 0 where
  pub id : s.token_id ≡ r.token_id
  pub secret : s.secret_hash ≡ r.secret_hash
  pub expiry : s.expires_at ≡ r.expires_at
  pub limit : s.max_uses ≡ r.max_uses
  pub uses : r.use_count ≤ s.use_count
  pub bound : r.use_count ≤ r.max_uses → s.use_count ≤ s.max_uses
  pub revocation : (t : ℕ) → r.revoked_at ≡ some t → s.revoked_at ≡ some t

pub RequestMoves-refl : (r : ApprovalRequest) → RequestMoves r r
RequestMoves-refl r = ground arith

pub GrantMoves-refl : (r : ApprovalGrant) → GrantMoves r r
GrantMoves-refl r = ground arith

pub ActionMoves-refl : (r : ResponseAction) → ActionMoves r r
ActionMoves-refl r = ground arith

pub CredentialMoves-refl : (r : DeviceCredential) → CredentialMoves r r
CredentialMoves-refl r = ground arith

pub TokenMoves-refl : (r : EnrollmentToken) → TokenMoves r r
TokenMoves-refl r = record {
  id = refl;
  secret = refl;
  expiry = refl;
  limit = refl;
  uses = omega arith;
  bound = λ h. h;
  revocation = λ t h. h;
}

pub RequestMoves-trans :
    (r s t : ApprovalRequest) → RequestMoves r s → RequestMoves s t → RequestMoves r t
RequestMoves-trans r s t h k = ground arith

pub GrantMoves-trans : (r s t : ApprovalGrant) → GrantMoves r s → GrantMoves s t → GrantMoves r t
GrantMoves-trans r s t h k = ground arith

pub CredentialMoves-trans :
    (r s t : DeviceCredential) → CredentialMoves r s → CredentialMoves s t → CredentialMoves r t
CredentialMoves-trans r s t h k = ground arith

pub TokenMoves-trans : (r s t : EnrollmentToken) → TokenMoves r s → TokenMoves s t → TokenMoves r t
TokenMoves-trans r s t h k = record {
  id = k.id ∙ h.id;
  secret = k.secret ∙ h.secret;
  expiry = k.expiry ∙ h.expiry;
  limit = k.limit ∙ h.limit;
  uses = omega arith;
  bound = λ b. k.bound (h.bound b);
  revocation = λ n e. k.revocation n (h.revocation n e);
}

action_leads_trans :
    (a b c : ActionStatus)
    → action_leads a b ≡ true
    → action_leads b c ≡ true
    → action_leads a c ≡ true
action_leads_trans a b c h k = ground arith

action_terminal_stays :
    (a b : ActionStatus) → action_leads a b ≡ true → is_terminal a ≡ true → is_terminal b ≡ true
action_terminal_stays a b h k = ground arith

pub ActionMoves-trans :
    (r s t : ResponseAction) → ActionMoves r s → ActionMoves s t → ActionMoves r t
ActionMoves-trans r s t h k = record {
  id = k.id ∙ h.id;
  endpoint = k.endpoint ∙ h.endpoint;
  grant = k.grant ∙ h.grant;
  action = k.action ∙ h.action;
  control = k.control ∙ h.control;
  scope = k.scope ∙ h.scope;
  key = k.key ∙ h.key;
  attempts = omega arith;
  status = action_leads_trans r.status s.status t.status h.status k.status;
  final = λ e. k.final (action_terminal_stays r.status s.status h.status e) ∙ h.final e;
}
