-- ===== src/System/History.antt =====
-- What no run of the control plane undoes.
use sha.Base.{
  ℕ, ◌≤◌, String, Bool, Option, none, some, refl, ◌≡◌, subst, true, false, List, ◌++◌, Memᴰ, arith,
}
use sha.Model.{
  DeviceCredential, EnrollmentToken, CredentialStatus, credential_is_active, Db, ResponseAction,
  AuditEvent, ApprovalGrant, GrantStatus, grant_is_approved,
}
use sha.Outside.{Outside}
use sha.Controls.{Registry}
use sha.Evolution.{
  CredentialMoves, TokenMoves, credential_leads, Evolved, Evolved-refl, Evolved-trans, Evolves-mem,
  Evolves-prefix, grant_leads, ActionMoves, GrantMoves, is_terminal,
}
use sha.Approvals.Expiring.{Evolved-sync_expired_grants}
use sha.Approvals.Lifecycle.{
  Evolved-decide_approval_request, Evolved-create_approval_request, Evolved-create_approval_grant,
}
use sha.Actions.Lifecycle.{Evolved-create_response_action, Evolved-claim_response_action}
use sha.Actions.Completing.{Evolved-complete_response_action}
use sha.Identity.{TokenState, token_state, is_set, consumable}
use sha.Identity.Lifecycle.{
  Evolved-revoke_enrollment_token, Evolved-rotate_device_credential,
  Evolved-revoke_device_credential,
}
use sha.Identity.Issued.{Evolved-create_enrollment_token, Evolved-exchange_enrollment_token}
use sha.System.{
  issue_token, exchange_token, revoke_token, rotate_credential, revoke_credential, Step,
  synchronise, request_approval, grant_approval, decide_approval, create_action, claim_action,
  complete_action, Reach, done,
}

abbrev pub is_live : TokenState → Bool
is_live TokenState.active = true
is_live _ = false

revocation_of :
    (r s : EnrollmentToken)
    → TokenMoves r s
    → is_set r.revoked_at ≡ true
    → is_set s.revoked_at ≡ true
revocation_of r s moves h = by_time r.revoked_at refl
  where
    by_time : (x : Option ℕ) → r.revoked_at ≡ x → is_set s.revoked_at ≡ true
    by_time none e = cc (rw e at h)
    by_time (some t) e = rw (moves.revocation t e) refl

state_leads :
    (r s : EnrollmentToken) (now later : ℕ)
    → TokenMoves r s
    → now ≤ later
    → (is_set r.revoked_at ≡ true → is_set s.revoked_at ≡ true)
    → is_live (token_state r now) ≡ false
    → is_live (token_state s later) ≡ false
unfolding token_state
state_leads r s now later moves order revocation h =
    let expiry = moves.expiry in let limit = moves.limit in let uses = moves.uses in ground arith

unusable :
    (id : String) (t : EnrollmentToken) (now : ℕ)
    → is_live (token_state t now) ≡ false
    → consumable now id t ≡ false
unfolding token_state
unusable id t now h = ground arith

ended_leads :
    (s t : GrantStatus)
    → grant_leads s t ≡ true
    → grant_is_approved s ≡ false
    → grant_is_approved t ≡ false
ended_leads s t h k = ground arith

inactive_leads :
    (s t : CredentialStatus)
    → credential_leads s t ≡ true
    → credential_is_active s ≡ false
    → credential_is_active t ≡ false
inactive_leads s t h k = ground arith

module _ (o : Outside) (registry : Registry) where
  Step-Evolved : (a b : Db) → Step o registry a b → Evolved a b
  Step-Evolved a b (synchronise now h) = (Evolved-sync_expired_grants o now).at a h
  Step-Evolved a b (request_approval now p payload h) =
      (Evolved-create_approval_request o registry now p payload).at a h
  Step-Evolved a b (grant_approval now p payload h) =
      (Evolved-create_approval_grant o registry now p payload).at a h
  Step-Evolved a b (decide_approval now p id d comment e h) =
      (Evolved-decide_approval_request o now p id d comment e).at a h
  Step-Evolved a b (create_action now p payload h) =
      (Evolved-create_response_action o registry now p payload).at a h
  Step-Evolved a b (claim_action now p token id h) =
      (Evolved-claim_response_action o now p token id).at a h
  Step-Evolved a b (complete_action now p id payload h) =
      (Evolved-complete_response_action o now p id payload).at a h
  Step-Evolved a b (revoke_token now p id h) = (Evolved-revoke_enrollment_token o now p id).at a h
  Step-Evolved a b (rotate_credential now p key days id secret h) =
      (Evolved-rotate_device_credential o now p key days id secret).at a h
  Step-Evolved a b (revoke_credential now p id h) =
      (Evolved-revoke_device_credential o now p id).at a h
  Step-Evolved a b (issue_token now p key secret payload h) =
      (Evolved-create_enrollment_token o now p key secret payload).at a h
  Step-Evolved a b (exchange_token now p key days authorization payload h) =
      (Evolved-exchange_enrollment_token o now p key days authorization payload).at a h

  -- Over any run, rows of requests, grants, actions, credentials and tokens only move by the rule
  -- of their table, and events, redemptions and audit events are only appended.
  pub Reach-Evolved : (a b : Db) → Reach o registry a b → Evolved a b
  Reach-Evolved a b done = Evolved-refl a
  Reach-Evolved a b (Reach.◌∷◌ s r) = Evolved-trans _ _ _ (Step-Evolved _ _ s) (Reach-Evolved _ _ r)

  -- An action that has succeeded, failed or been cancelled stands unchanged after any run.
  pub finished_action-stays :
      (a b : Db) (action : ResponseAction)
      → Reach o registry a b
      → Memᴰ action a.actions
      → is_terminal action.status ≡ true
      → Memᴰ action b.actions
  finished_action-stays a b action run m t =
      let (later, n, moves) =
        Evolves-mem ActionMoves a.actions b.actions (Reach-Evolved a b run).actions m in
      subst (λ x. Memᴰ x b.actions) (moves.final t) n

  -- A grant that has expired or been revoked is in no run approved again: its successor has the
  -- same identifier and the same allowances, and is not approved.
  pub ended_grant-stays :
      (a b : Db) (grant : ApprovalGrant)
      → Reach o registry a b
      → Memᴰ grant a.grants
      → grant_is_approved grant.status ≡ false
      → (later : ApprovalGrant) × Memᴰ later b.grants
        × (later.approval_grant_id ≡ grant.approval_grant_id)
        × (later.allowed_actions ≡ grant.allowed_actions)
        × (grant_is_approved later.status ≡ false)
  ended_grant-stays a b grant run m t =
      let (later, n, moves) =
        Evolves-mem GrantMoves a.grants b.grants (Reach-Evolved a b run).grants m in
      (later, n, moves.id, moves.actions, ended_leads grant.status later.status moves.status t)

  -- After any run, the audit log is what it was, with further events behind.
  pub audit_log-grows :
      (a b : Db) → Reach o registry a b → (later : List AuditEvent) × (b.audit ≡ a.audit ++ later)
  audit_log-grows a b run = Evolves-prefix a.audit b.audit (Reach-Evolved a b run).audit

  -- A credential that was replaced or revoked is in no run active again: its successor has the
  -- same identifier and the same secret's hash, and is not active.
  pub ended_credential-stays :
      (a b : Db) (credential : DeviceCredential)
      → Reach o registry a b
      → Memᴰ credential a.credentials
      → credential_is_active credential.status ≡ false
      → (later : DeviceCredential) × Memᴰ later b.credentials
        × (later.credential_id ≡ credential.credential_id)
        × (later.secret_hash ≡ credential.secret_hash)
        × (credential_is_active later.status ≡ false)
  ended_credential-stays a b credential run m t =
      let (later, n, moves) =
        Evolves-mem CredentialMoves a.credentials b.credentials (Reach-Evolved a b run).credentials
          m in
      (
        later,
        n,
        moves.id,
        moves.secret,
        inactive_leads credential.status later.status moves.status t,
      )

  -- An enrollment token that is not active, since it is revoked, expired or used up, is in no run
  -- active again at any later time: its successor has the same identifier and the same secret's
  -- hash, is not active, and no exchange can use it.
  pub ended_token-stays :
      (a b : Db) (token : EnrollmentToken) (now later : ℕ)
      → Reach o registry a b
      → Memᴰ token a.tokens
      → is_live (token_state token now) ≡ false
      → now ≤ later
      → (after : EnrollmentToken) × Memᴰ after b.tokens
        × (after.token_id ≡ token.token_id)
        × (after.secret_hash ≡ token.secret_hash)
        × (is_live (token_state after later) ≡ false)
        × (consumable later token.token_id after ≡ false)
  ended_token-stays a b token now later run m ended order =
      let (after, n, moves) =
        Evolves-mem TokenMoves a.tokens b.tokens (Reach-Evolved a b run).tokens m in
      let still =
        state_leads token after now later moves order (revocation_of token after moves) ended in
      (after, n, moves.id, moves.secret, still, unusable token.token_id after later still)
