-- ===== src/System.antt =====
-- The control plane as a whole: the handlers of backend/app/api/endpoints, each a step from one
-- committed database to the next, in any order, at any time and for any caller.
pub mod History
use sha.Base.{ℕ, String, ◌≡◌, Bool, Option, List, ok}
use sha.Model.{
  Db, ApprovalRequest, ApprovalRequestEvent, ApprovalGrant, ResponseAction, Decision,
  EnrollmentToken, DeviceCredential,
}
use sha.Outside.{Outside}
use sha.Authz.{Principal}
use sha.Controls.{Registry}
use sha.Approvals.{
  sync_expired_grants, RequestPayload, GrantPayload, create_approval_request, create_approval_grant,
  decide_approval_request,
}
use sha.Actions.{
  CreatePayload, ResultPayload, create_response_action, claim_response_action,
  complete_response_action,
}
use sha.Identity.{
  ExchangeRequest, Exchanged, TokenPayload, create_enrollment_token, exchange_enrollment_token,
  revoke_enrollment_token, rotate_device_credential, revoke_device_credential,
}

module _ (o : Outside) (registry : Registry) where
  -- A handler that commits. One that raises leaves the database as it was.
  pub data Step : Db → Db → Type 0 where
    synchronise :
        (now : ℕ) {db db' : Db} → sync_expired_grants o now db ≡ ok (tt, db') → Step db db'
    request_approval :
        (now : ℕ) (p : Principal) (payload : RequestPayload) {db db' : Db} {r : ApprovalRequest}
        → create_approval_request o registry now p payload db ≡ ok (r, db')
        → Step db db'
    grant_approval :
        (now : ℕ) (p : Principal) (payload : GrantPayload) {db db' : Db} {g : ApprovalGrant}
        → create_approval_grant o registry now p payload db ≡ ok (g, db')
        → Step db db'
    decide_approval :
        (now : ℕ) (p : Principal) (id : String) (d : Decision) (comment : String) (e : Option ℕ)
        {db db' : Db} {r : ApprovalRequest × List ApprovalRequestEvent}
        → decide_approval_request o now p id d comment e db ≡ ok (r, db')
        → Step db db'
    create_action :
        (now : ℕ) (p : Principal) (payload : CreatePayload) {db db' : Db} {a : ResponseAction}
        → create_response_action o registry now p payload db ≡ ok (a, db')
        → Step db db'
    claim_action :
        (now : ℕ) (p : Principal) (token id : String) {db db' : Db} {a : Option ResponseAction}
        → claim_response_action o now p token id db ≡ ok (a, db')
        → Step db db'
    complete_action :
        (now : ℕ) (p : Principal) (id : String) (payload : ResultPayload) {db db' : Db}
        {a : ResponseAction}
        → complete_response_action o now p id payload db ≡ ok (a, db')
        → Step db db'
    revoke_token :
        (now : ℕ) (p : Principal) (id : String) {db db' : Db} {t : EnrollmentToken}
        → revoke_enrollment_token o now p id db ≡ ok (t, db')
        → Step db db'
    rotate_credential :
        (now : ℕ) (p : Principal) (key : Option String) (days : ℕ) (id secret : String)
        {db db' : Db} {c : DeviceCredential}
        → rotate_device_credential o now p key days id secret db ≡ ok (c, db')
        → Step db db'
    revoke_credential :
        (now : ℕ) (p : Principal) (id : String) {db db' : Db} {c : DeviceCredential}
        → revoke_device_credential o now p id db ≡ ok (c, db')
        → Step db db'
    issue_token :
        (now : ℕ) (p : Principal) (key : Option String) (secret : String) (payload : TokenPayload)
        {db db' : Db} {t : EnrollmentToken × String}
        → create_enrollment_token o now p key secret payload db ≡ ok (t, db')
        → Step db db'
    exchange_token :
        (now : ℕ) (p : Principal) (key : Option String) (days : ℕ) (authorization : String)
        (payload : ExchangeRequest) {db db' : Db} {e : Exchanged}
        → exchange_enrollment_token o now p key days authorization payload db ≡ ok (e, db')
        → Step db db'

  infixr 5 ◌∷◌
  -- Some steps, one after the other.
  pub data Reach : Db → Db → Type 0 where
    done : {db : Db} → Reach db db
    ◌∷◌ : {a b c : Db} → Step a b → Reach b c → Reach a c
