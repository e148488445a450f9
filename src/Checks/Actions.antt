-- ===== src/Checks/Actions.antt =====
-- Response actions in the small world.
use sha.Base.{
  suc, ap, eq_iff, ◌≡◌, refl, ◌⊎◌, ◌↔◌, true, not, all, Option, none, some, [], ◌∷◌, ok, Result,
  Memᴰ, arith, find_first, sym, ◌∙◌, select_where, update_where, order_by, any, contains,
  update_where,
}
use sha.Text.{normalize_optional, trim_required}
use sha.Ids.{generate_prefixed_id}
use sha.Authz.{
  enforce_device_endpoint, record_audit_event, synthetic_global_grant, scope_clause, clause_holds,
}
use sha.Controls.{require_control_action}
use sha.Model.{
  Endpoint, ApprovalGrant, Db, ResponseAction, succeeded, apply_control, TroubleshootingScope,
}
use sha.Model.Tx.{◌>>=◌}
use sha.Approvals.{decimal, sync_expired_grants, sync_loop, sync_grant}
use sha.Actions.{
  ActionShape, visible_endpoint, usable_grant, claim_response_action, claim_candidate, candidate,
  is_candidate, claims, require_agent_endpoint, enforce_endpoint_credential_mode, update_actions,
  lease, completed, ResultPayload, normalize_action_shape, create_action, insert_action,
  replay_or_insert, audited_insert, add_action, check_control, queued_action, validate_grant_scope,
  declares_action_capability, parse_declared_capabilities, has_key,
}
use sha.Actions.Claiming.{HasUniqueIds, claim-leases, claim-none}
use sha.Actions.Exclusive.{claim-exclusive}
use sha.Actions.Creating.{
  create-requires, IsCovering, IsReplay, IsInsertion, normalize_action_shape_iff, is_shaped,
  next_action,
}
use sha.Checks.World.{world, controls, reviewer, agent, start, task, host, left_by}

one_unique : (a : ResponseAction) → HasUniqueIds (a ∷ [])
one_unique a x y (Memᴰ.head p) (Memᴰ.head q) e = p ∙ sym q
one_unique a x y (Memᴰ.head p) (Memᴰ.tail n) e = elim n [ ]
one_unique a x y (Memᴰ.tail n) m e = elim n [ ]

none_unique : HasUniqueIds []
none_unique x y m n e = elim m [ ]

abbrev held : ResponseAction
unfolding lease
held = lease 1000 "#t" task

abbrev claimed : Db
claimed = record start { actions = held ∷ [] }

abbrev idle : Db
idle = record start { actions = [] }

endpoint_trims : trim_required "ep-1" "endpoint_id" ≡ ok "ep-1"
unfolding trim_required
endpoint_trims = refl

start_syncs : sync_expired_grants world 1000 start ≡ ok (tt, start)
unfolding sync_expired_grants sync_loop sync_grant select_where order_by ◌>>=◌
start_syncs = refl

claimed_syncs : sync_expired_grants world 1100 claimed ≡ ok (tt, claimed)
unfolding sync_expired_grants sync_loop sync_grant select_where order_by ◌>>=◌
claimed_syncs = refl

idle_syncs : sync_expired_grants world 1000 idle ≡ ok (tt, idle)
unfolding sync_expired_grants sync_loop sync_grant select_where order_by ◌>>=◌
idle_syncs = refl

claim_runs : claim_response_action world 1000 agent "t" "ep-1" start ≡ ok (some held, claimed)
unfolding claim_response_action trim_required enforce_device_endpoint sync_expired_grants sync_loop
    sync_grant order_by select_where require_agent_endpoint find_first
    enforce_endpoint_credential_mode claim_candidate candidate any update_actions update_where lease
    ◌>>=◌
claim_runs = refl

idle_runs : claim_response_action world 1000 agent "t" "ep-1" idle ≡ ok (none, idle)
unfolding claim_response_action trim_required enforce_device_endpoint sync_expired_grants sync_loop
    sync_grant order_by select_where require_agent_endpoint find_first
    enforce_endpoint_credential_mode claim_candidate candidate any update_actions update_where lease
    ◌>>=◌
idle_runs = refl

claim-leases_example :
    (old : ResponseAction) × (candidate world 1000 agent "ep-1" start ≡ some old)
    × (is_candidate 1000 "ep-1" start.grants old ≡ true)
    × (held ≡ lease 1000 (world.sha256_hex "t") old)
    × (held.lease_expires_at ≡ some 1120)
    × (held.attempt_count ≡ suc old.attempt_count)
    × (claimed.actions
        ≡ update_where
            (claims old.response_action_id 1000 "ep-1")
            (lease 1000 (world.sha256_hex "t"))
            start.actions)
claim-leases_example =
    claim-leases world 1000 agent "t" "ep-1" start endpoint_trims start_syncs (one_unique task)
      claim_runs

claim-none_example :
    (idle ≡ idle) × (all (λ a. not (is_candidate 1000 "ep-1" idle.grants a)) idle.actions ≡ true)
claim-none_example =
    claim-none world 1000 agent "t" "ep-1" idle endpoint_trims idle_syncs none_unique idle_runs

-- A second action that waits behind the first.
abbrev next_task : ResponseAction
next_task = record task { response_action_id = "act-2"; idempotency_key = "k2"; created_at = 2 }

abbrev next_held : ResponseAction
unfolding lease
next_held = lease 1100 "#u" next_task

abbrev busy : Db
busy = record start { actions = task ∷ next_task ∷ [] }

abbrev busy_claimed : Db
busy_claimed = record start { actions = held ∷ next_task ∷ [] }

abbrev busy_done : Db
busy_done = record start { actions = held ∷ next_held ∷ [] }

two_unique :
    (a b : ResponseAction)
    → ¬ (a.response_action_id ≡ b.response_action_id)
    → HasUniqueIds (a ∷ b ∷ [])
two_unique a b d x y (Memᴰ.head p) (Memᴰ.head q) e = p ∙ sym q
two_unique a b d x y (Memᴰ.head p) (Memᴰ.tail (Memᴰ.head q)) e =
    absurd (d (sym (ap (λ z. z.response_action_id) p) ∙ e ∙ ap (λ z. z.response_action_id) q))
two_unique a b d x y (Memᴰ.head p) (Memᴰ.tail (Memᴰ.tail n)) e = elim n [ ]
two_unique a b d x y (Memᴰ.tail (Memᴰ.head p)) (Memᴰ.head q) e =
    absurd (d (sym (ap (λ z. z.response_action_id) q) ∙ sym e ∙ ap (λ z. z.response_action_id) p))
two_unique a b d x y (Memᴰ.tail (Memᴰ.head p)) (Memᴰ.tail (Memᴰ.head q)) e = p ∙ sym q
two_unique a b d x y (Memᴰ.tail (Memᴰ.head p)) (Memᴰ.tail (Memᴰ.tail n)) e = elim n [ ]
two_unique a b d x y (Memᴰ.tail (Memᴰ.tail n)) m e = elim n [ ]

ids_differ : ¬ (task.response_action_id ≡ next_task.response_action_id)
ids_differ e = let t = (eq_iff task.response_action_id next_task.response_action_id).1 e in cc

busy_syncs : sync_expired_grants world 1000 busy ≡ ok (tt, busy)
unfolding sync_expired_grants sync_loop sync_grant select_where order_by ◌>>=◌
busy_syncs = refl

busy_claimed_syncs : sync_expired_grants world 1100 busy_claimed ≡ ok (tt, busy_claimed)
unfolding sync_expired_grants sync_loop sync_grant select_where order_by ◌>>=◌
busy_claimed_syncs = refl

busy_runs : claim_response_action world 1000 agent "t" "ep-1" busy ≡ ok (some held, busy_claimed)
unfolding claim_response_action trim_required enforce_device_endpoint sync_expired_grants sync_loop
    sync_grant order_by select_where require_agent_endpoint find_first
    enforce_endpoint_credential_mode claim_candidate candidate any update_actions update_where lease
    ◌>>=◌
busy_runs = refl

busy_runs_again :
    claim_response_action world 1100 agent "u" "ep-1" busy_claimed ≡ ok (some next_held, busy_done)
unfolding claim_response_action trim_required enforce_device_endpoint sync_expired_grants sync_loop
    sync_grant order_by select_where require_agent_endpoint find_first
    enforce_endpoint_credential_mode claim_candidate candidate any update_actions update_where lease
    ◌>>=◌
busy_runs_again = refl

claim-exclusive_example : ¬ (next_held.response_action_id ≡ held.response_action_id)
unfolding held
claim-exclusive_example =
    claim-exclusive world 1000 1100 agent agent "t" "u" "ep-1" "ep-1" busy endpoint_trims busy_syncs
      endpoint_trims (two_unique task next_task ids_differ) (omega arith) busy_runs
      busy_claimed_syncs (two_unique held next_task ids_differ) busy_runs_again

abbrev report : ResultPayload
report = record { status = succeeded; result_summary = "done"; lease_token = "t" }

abbrev finished : ResponseAction
unfolding completed
finished = completed world 1050 agent succeeded "done" held

abbrev hardening : ActionShape
hardening = (apply_control, some "c", none)

abbrev second : Result (ResponseAction × Db)
second = create_action world controls 1000 reviewer "ep-1" "gr-2" hardening "k9" "why" start

abbrev created : ResponseAction
created = next_action world controls 1000 reviewer host "ep-1" "gr-2" hardening "k9" "why" start

create_runs : second ≡ ok (created, left_by second start)
unfolding create_action sync_expired_grants sync_loop sync_grant select_where order_by find_first
    scope_clause synthetic_global_grant clause_holds check_control require_control_action contains
    declares_action_capability parse_declared_capabilities validate_grant_scope replay_or_insert
    insert_action any audited_insert add_action record_audit_event generate_prefixed_id
    queued_action decimal ◌>>=◌
create_runs = refl

create-requires_example :
    (mid : Db) × (endpoint : Endpoint) × (grant : ApprovalGrant) × (sync_expired_grants world 1000
        start
      ≡ ok (tt, mid))
    × (find_first (visible_endpoint reviewer "response_action.create" "ep-1") mid.endpoints
        ≡ some endpoint)
    × (find_first (usable_grant "gr-2" endpoint) mid.grants ≡ some grant)
    × IsCovering grant "ep-1" hardening 1000
    × (declares_action_capability (parse_declared_capabilities endpoint) apply_control (some "c")
        ≡ true)
    × (IsReplay world controls 1000 reviewer endpoint "ep-1" "gr-2" hardening "k9" "why" mid
          (find_first (has_key "ep-1" "k9") mid.actions)
          created
          (left_by second start)
        ⊎ IsInsertion world controls 1000 reviewer endpoint "ep-1" "gr-2" hardening "k9" "why" mid
            (find_first (has_key "ep-1" "k9") mid.actions)
            created
            (left_by second start))
create-requires_example =
    create-requires world controls 1000 reviewer "ep-1" "gr-2" hardening "k9" "why" start
      create_runs

normalize_action_shape_iff_example :
    (normalize_action_shape apply_control (some " c ") none ≡ ok (apply_control, some "c", none))
    ↔ ((normalize_optional (some " c ") "control_id" ≡ ok (some "c"))
        × (apply_control ≡ apply_control)
        × (◌≡◌ {A = Option TroubleshootingScope} none none)
        × (is_shaped (apply_control, some "c", none) ≡ true))
normalize_action_shape_iff_example =
    normalize_action_shape_iff apply_control (some " c ") none apply_control (some "c") none
