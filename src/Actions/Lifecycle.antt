-- ===== src/Actions/Lifecycle.antt =====
-- Every response-action handler moves the tables by their rules.
use sha.Base.{ℕ, String, ◌≡◌, true, arith, Option, none, some}
use sha.Model.{ResponseAction, Endpoint, Action}
use sha.Model.Tx.{modify}
use sha.Model.Tx.Keeps.{Keeps}
use sha.Outside.{Outside}
use sha.Authz.{Principal}
use sha.Controls.{Registry}
use sha.Evolution.{Evolved, Evolves-update_where, Evolves-add_row, ActionMoves, ActionMoves-refl}
use sha.Evolution.Steps.{evolved_rules, Evolved-modify, write_actions}
use sha.Approvals.Expiring.{Evolved-sync_expired_grants}
use sha.Actions.Shape.{ActionShape}
use sha.Actions.Create.{
  CreatePayload, add_action, key_or_fresh, check_control, replay, audited_insert, insert_action,
  replay_or_insert, create_action, create_response_action,
}
use sha.Actions.Lease.{
  lease, claims, update_actions, require_agent_endpoint, claim_candidate, claim_response_action,
}

Evolved-add_action : (a : ResponseAction) → Keeps Evolved (modify (add_action a))
unfolding add_action
Evolved-add_action a =
    Evolved-modify _
      λ db. write_actions db _ (Evolves-add_row ActionMoves ActionMoves-refl a db.actions)

module _ (o : Outside) (registry : Registry) (now : ℕ) (p : Principal) where
  Evolved-key_or_fresh : (key : Option String) → Keeps Evolved (key_or_fresh o key)
  unfolding key_or_fresh
  Evolved-key_or_fresh none = search evolved_rules
  Evolved-key_or_fresh (some key) = search evolved_rules

  Evolved-check_control :
      (e : Endpoint) (a : Action) (c : Option String) → Keeps Evolved (check_control registry e a c)
  unfolding check_control
  Evolved-check_control e a none = search evolved_rules
  Evolved-check_control e a (some c) = search evolved_rules

  Evolved-replay :
      (r : Option ResponseAction) (g : String) (shape : ActionShape) (reason : String)
      → Keeps Evolved (replay o registry now p r g shape reason)
  unfolding replay
  Evolved-replay none g shape reason = search evolved_rules
  Evolved-replay (some r) g shape reason = search evolved_rules

  Evolved-audited_insert :
      (e : Endpoint) (row : ResponseAction) → Keeps Evolved (audited_insert o registry now p e row)
  unfolding audited_insert
  Evolved-audited_insert e row = search (evolved_rules, Evolved-add_action)

  Evolved-replay_or_insert :
      (r : Option ResponseAction) (e : Endpoint) (id g : String) (shape : ActionShape)
      (key reason : String)
      → Keeps Evolved (replay_or_insert o registry now p r e id g shape key reason)
  unfolding replay_or_insert insert_action
  Evolved-replay_or_insert none e id g shape key reason =
      search (evolved_rules, Evolved-replay, Evolved-audited_insert)
  Evolved-replay_or_insert (some r) e id g shape key reason = search (evolved_rules, Evolved-replay)

  Evolved-create_action :
      (id g : String) (shape : ActionShape) (key reason : String)
      → Keeps Evolved (create_action o registry now p id g shape key reason)
  unfolding create_action
  Evolved-create_action id g shape key reason =
      search
        (
          evolved_rules, Evolved-sync_expired_grants, Evolved-check_control,
          Evolved-replay_or_insert,
        )
        depth 14

  pub Evolved-create_response_action :
      (payload : CreatePayload) → Keeps Evolved (create_response_action o registry now p payload)
  unfolding create_response_action
  Evolved-create_response_action payload =
      search (evolved_rules, Evolved-key_or_fresh, Evolved-create_action) depth 10

lease_moves :
    (now : ℕ) (id hash endpoint_id : String) (a : ResponseAction)
    → claims id now endpoint_id a ≡ true
    → ActionMoves a (lease now hash a)
unfolding lease
lease_moves now id hash endpoint_id a h = ground arith

Evolved-lease :
    (now : ℕ) (id hash endpoint_id : String)
    → Keeps Evolved (modify (update_actions (claims id now endpoint_id) (lease now hash)))
unfolding update_actions
Evolved-lease now id hash endpoint_id = Evolved-modify _ λ db. write_actions db _ (
    Evolves-update_where ActionMoves ActionMoves-refl _ _ (lease_moves now id hash endpoint_id)
      db.actions)

module _ (o : Outside) (now : ℕ) (p : Principal) where
  Evolved-require_agent_endpoint : (id : String) → Keeps Evolved (require_agent_endpoint o now p id)
  unfolding require_agent_endpoint
  Evolved-require_agent_endpoint id = search evolved_rules depth 8

  Evolved-claim_candidate :
      (id hash : String) (c : Option ResponseAction)
      → Keeps Evolved (claim_candidate o now p id hash c)
  unfolding claim_candidate
  Evolved-claim_candidate id hash none = search evolved_rules
  Evolved-claim_candidate id hash (some c) = search (evolved_rules, Evolved-lease)

  pub Evolved-claim_response_action :
      (token id : String) → Keeps Evolved (claim_response_action o now p token id)
  unfolding claim_response_action
  Evolved-claim_response_action token id =
      search
        (
          evolved_rules, Evolved-sync_expired_grants, Evolved-require_agent_endpoint,
          Evolved-claim_candidate,
        )
        depth 10
