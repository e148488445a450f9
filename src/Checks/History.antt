-- ===== src/Checks/History.antt =====
-- Runs of the control plane in the small world.
use sha.Base.{
  ◌≡◌, refl, false, none, some, List, [], ◌∷◌, ◌++◌, ok, Memᴰ, find_first, select_where, order_by,
  any, update_where,
}
use sha.Text.{trim_required}
use sha.Authz.{enforce_device_endpoint}
use sha.Model.{
  Db, ResponseAction, ApprovalGrant, AuditEvent, GrantStatus, succeeded, grant_is_approved,
}
use sha.Model.Tx.{◌>>=◌}
use sha.Evolution.{Evolved}
use sha.Approvals.{sync_expired_grants, sync_loop, sync_grant}
use sha.Actions.{
  claim_response_action, require_agent_endpoint, enforce_endpoint_credential_mode, claim_candidate,
  candidate, update_actions, lease,
}
use sha.System.{Reach, done, claim_action}
use sha.System.History.{Reach-Evolved, finished_action-stays, ended_grant-stays, audit_log-grows}
use sha.Checks.World.{world, controls, agent, start, task, allowance}

abbrev leased_task : ResponseAction
unfolding lease
leased_task = lease 1000 "#t" task

abbrev leased_db : Db
leased_db = record start { actions = leased_task ∷ [] }

claim_runs :
    claim_response_action world 1000 agent "t" "ep-1" start ≡ ok (some leased_task, leased_db)
unfolding claim_response_action trim_required enforce_device_endpoint sync_expired_grants sync_loop
    sync_grant order_by select_where require_agent_endpoint find_first
    enforce_endpoint_credential_mode claim_candidate candidate any update_actions update_where lease
    ◌>>=◌
claim_runs = refl

run : Reach world controls start leased_db
run = Reach.◌∷◌ (claim_action 1000 agent "t" "ep-1" claim_runs) done

Reach-Evolved_example : Evolved start leased_db
Reach-Evolved_example = Reach-Evolved world controls start leased_db run

audit_log-grows_example : (later : List AuditEvent) × (leased_db.audit ≡ start.audit ++ later)
audit_log-grows_example = audit_log-grows world controls start leased_db run

-- One action is finished, and one grant is revoked; an agent asks in vain.
abbrev settled : ResponseAction
settled = record task { status = succeeded; completed_at = some 5 }

abbrev withdrawn : ApprovalGrant
withdrawn = record allowance { status = GrantStatus.revoked }

abbrev over : Db
over = record start { grants = withdrawn ∷ []; actions = settled ∷ [] }

over_runs : claim_response_action world 1000 agent "t" "ep-1" over ≡ ok (none, over)
unfolding claim_response_action trim_required enforce_device_endpoint sync_expired_grants sync_loop
    sync_grant order_by select_where require_agent_endpoint find_first
    enforce_endpoint_credential_mode claim_candidate candidate any update_actions update_where lease
    ◌>>=◌
over_runs = refl

over_run : Reach world controls over over
over_run = Reach.◌∷◌ (claim_action 1000 agent "t" "ep-1" over_runs) done

finished_action-stays_example : Memᴰ settled over.actions
finished_action-stays_example =
    finished_action-stays world controls over over settled over_run (Memᴰ.head refl) refl

ended_grant-stays_example :
    (later : ApprovalGrant) × Memᴰ later over.grants
    × (later.approval_grant_id ≡ "gr-2")
    × (later.allowed_actions ≡ withdrawn.allowed_actions)
    × (grant_is_approved later.status ≡ false)
ended_grant-stays_example =
    ended_grant-stays world controls over over withdrawn over_run (Memᴰ.head refl) refl
