-- ===== src/Actions/Claiming.antt =====
-- What a claim takes, and when nothing is to be claimed.
use sha.Base.{
  ℕ, ap, ◌⊎◌, ◌+◌, suc, String, ◌≡◌, refl, ◌∙◌, true, not, arith, Option, none, some, List, ok, all,
  eq_iff, find_first, find_first-some, find_first-none, update_where, mem-order_by, mem-of-order_by,
  all_of_mem, str_refl, Memᴰ, inl, inr,
}
use sha.Text.{trim_required}
use sha.Model.{Db, ResponseAction, ApprovalGrant}
use sha.Model.Tx.{◌>>=◌}
use sha.Outside.{Outside}
use sha.Authz.{Principal}
use sha.Approvals.{sync_expired_grants}
use sha.Actions.Lease.{
  lease, claims, is_candidate, candidate, require_agent_endpoint, claim_candidate,
  claim_response_action, update_actions,
}

-- The primary key of the actions.
abbrev pub HasUniqueIds : List ResponseAction → Type 0
HasUniqueIds rows =
    (a b : ResponseAction)
    → Memᴰ a rows
    → Memᴰ b rows
    → a.response_action_id ≡ b.response_action_id
    → a ≡ b

module _ (o : Outside) (now : ℕ) (p : Principal) (id hash : String) (db : Db) where
  pub candidate_lem :
      {old : ResponseAction}
      → candidate o now p id db ≡ some old
      → (is_candidate now id db.grants old ≡ true) × Memᴰ old db.actions
  unfolding candidate
  candidate_lem h = let (t, m) = find_first-some _ _ h in (t, mem-of-order_by _ db.actions m)

  no_candidate :
      candidate o now p id db ≡ none
      → all (λ a. not (is_candidate now id db.grants a)) db.actions ≡ true
  unfolding candidate
  no_candidate h =
      all_of_mem _ db.actions λ a m. rw (find_first-none _ _ h (mem-order_by _ db.actions m)) refl

  claim_none :
      {res : Option ResponseAction} {db' : Db}
      → claim_candidate o now p id hash none db ≡ ok (res, db')
      → (res ≡ none) × (db' ≡ db)
  unfolding claim_candidate ◌>>=◌
  claim_none h = ground arith

  claim_some :
      (old : ResponseAction) {res : Option ResponseAction} {db' : Db}
      → claim_candidate o now p id hash (some old) db ≡ ok (res, db')
      → (res ≡ (elim (find_first (claims old.response_action_id now id) db.actions) [
        | none ↦ none
        | some row ↦ some (lease now hash row)
      ]))
        × (db'.actions
            ≡ update_where (claims old.response_action_id now id) (lease now hash) db.actions)
        × (db'.grants ≡ db.grants)
  unfolding claim_candidate update_actions ◌>>=◌
  claim_some old h = ground arith

-- The candidate's own row is the one that the update finds, where identifiers are unique.
module _ (now : ℕ) (id : String) (grants : List ApprovalGrant) (rows : List ResponseAction) where
  pub candidate-claims :
      (old : ResponseAction)
      → is_candidate now id grants old ≡ true
      → claims old.response_action_id now id old ≡ true
  candidate-claims old h = let r = str_refl old.response_action_id in ground arith

  claims-id :
      (key : String) (row : ResponseAction)
      → claims key now id row ≡ true
      → row.response_action_id ≡ key
  claims-id key row h = (eq_iff row.response_action_id key).0 (ground arith)

  claimed_lem :
      HasUniqueIds rows
      → (old : ResponseAction) → is_candidate now id grants old ≡ true
      → Memᴰ old rows
      → find_first (claims old.response_action_id now id) rows ≡ some old
  claimed_lem unique old c m = by_row (find_first (claims old.response_action_id now id) rows) refl
    where
      by_row :
          (r : Option ResponseAction)
          → find_first (claims old.response_action_id now id) rows ≡ r
          → find_first (claims old.response_action_id now id) rows ≡ some old
      by_row none e =
          let n = find_first-none _ rows e m in
          let t = candidate-claims old c in absurd (ground arith)
      by_row (some row) e =
          let (t, m') = find_first-some _ rows e in
          e ∙ ap some (unique row old m' m (claims-id old.response_action_id row t))

module _ (o : Outside) (now : ℕ) (p : Principal) (token raw_id : String) {id : String} (db : Db)
    {mid : Db} (trimmed : trim_required raw_id "endpoint_id" ≡ ok id)
    (synced : sync_expired_grants o now db ≡ ok (tt, mid)) where
  claim-steps :
      {res : Option ResponseAction} {db' : Db}
      → claim_response_action o now p token raw_id db ≡ ok (res, db')
      → claim_candidate o now p id (o.sha256_hex token) (candidate o now p id mid) mid
        ≡ ok (res, db')
  unfolding claim_response_action require_agent_endpoint ◌>>=◌
  claim-steps h = ground arith

  by_candidate :
      {res : Option ResponseAction} {db' : Db}
      → HasUniqueIds mid.actions
      → claim_response_action o now p token raw_id db ≡ ok (res, db')
      → ((candidate o now p id mid ≡ none) × (res ≡ none) × (db' ≡ mid))
        ⊎ ((old : ResponseAction) × (candidate o now p id mid ≡ some old)
            × (res ≡ some (lease now (o.sha256_hex token) old))
            × (db'.actions
                ≡ update_where
                    (claims old.response_action_id now id)
                    (lease now (o.sha256_hex token))
                    mid.actions))
  by_candidate {res} {db'} unique h = split (candidate o now p id mid) refl
    where
      split :
          (c : Option ResponseAction)
          → candidate o now p id mid ≡ c
          → ((candidate o now p id mid ≡ none) × (res ≡ none) × (db' ≡ mid))
            ⊎ ((old : ResponseAction) × (candidate o now p id mid ≡ some old)
                × (res ≡ some (lease now (o.sha256_hex token) old))
                × (db'.actions
                    ≡ update_where
                        (claims old.response_action_id now id)
                        (lease now (o.sha256_hex token))
                        mid.actions))
      split none e =
          let k = rw e at (claim-steps h) in
          let (r, d) = claim_none o now p id (o.sha256_hex token) mid k in inl (e, r, d)
      split (some old) e =
          let k = rw e at (claim-steps h) in
          let (r, a, g) = claim_some o now p id (o.sha256_hex token) mid old k in
          let (c, m) = candidate_lem o now p id (o.sha256_hex token) mid e in
          inr (old, e, rw (claimed_lem now id mid.grants mid.actions unique old c m) at r, a)

  -- A claim that returns an action has taken the first in the order of creation that is claimable
  -- under a live grant of the endpoint: the answer is that row under a new lease, which runs for
  -- 120 seconds from now and counts one more attempt, and only rows with its identifier change.
  pub claim-leases :
      {row : ResponseAction} {db' : Db}
      → HasUniqueIds mid.actions
      → claim_response_action o now p token raw_id db ≡ ok (some row, db')
      → (old : ResponseAction) × (candidate o now p id mid ≡ some old)
        × (is_candidate now id mid.grants old ≡ true)
        × (row ≡ lease now (o.sha256_hex token) old)
        × (row.lease_expires_at ≡ some (now + 120))
        × (row.attempt_count ≡ suc old.attempt_count)
        × (db'.actions
            ≡ update_where
                (claims old.response_action_id now id)
                (lease now (o.sha256_hex token))
                mid.actions)
  unfolding lease
  claim-leases {row} {db'} unique h = elim (by_candidate unique h) [
    | inl (e, r, d) ↦ absurd (ground arith)
    | inr (old, e, r, a) ↦
        let (c, m) = candidate_lem o now p id (o.sha256_hex token) mid e in
        (old, e, c, ground arith, ground arith, ground arith, a)
  ]

  -- A claim that returns no action has changed nothing after the synchronisation, and no action of
  -- the endpoint was claimable under a live grant.
  pub claim-none :
      {db' : Db}
      → HasUniqueIds mid.actions
      → claim_response_action o now p token raw_id db ≡ ok (none, db')
      → (db' ≡ mid) × (all (λ a. not (is_candidate now id mid.grants a)) mid.actions ≡ true)
  claim-none {db'} unique h = elim (by_candidate unique h) [
    | inl (e, r, d) ↦ (d, no_candidate o now p id (o.sha256_hex token) mid e)
    | inr (old, e, r, a) ↦ absurd (ground arith)
  ]
