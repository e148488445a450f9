-- ===== src/Actions/Exclusive.antt =====
-- A leased action is not given out again before its lease ends.
use sha.Base.{
  ℕ, ap, ◌+◌, ◌<◌, String, ◌≡◌, ◌∙◌, sym, subst, true, arith, some, List, ok, update_where,
  mem-update_where, Memᴰ, Bool-cases, inl, inr, if◌then◌else◌,
}
use sha.Text.{trim_required}
use sha.Model.{Db, ResponseAction, ApprovalGrant}
use sha.Outside.{Outside}
use sha.Authz.{Principal}
use sha.Approvals.{sync_expired_grants}
use sha.Actions.Lease.{lease, claims, is_candidate, claim_response_action}
use sha.Actions.Syncing.{sync_expired_grants-SameWork}
use sha.Actions.Claiming.{HasUniqueIds, candidate_lem, candidate-claims, claim-leases}

lease_holds :
    (now later : ℕ) (id hash : String) (grants : List ApprovalGrant) (row : ResponseAction)
    → later < now + 120
    → is_candidate later id grants (lease now hash row) ≡ true
    → ⊥
unfolding lease
lease_holds now later id hash grants row early h = ground arith

-- A row that may be claimed after another claim is not the one that was claimed.
not_again :
    (now later : ℕ) (id id' hash : String) (grants grants' : List ApprovalGrant)
    (rows : List ResponseAction) (old again : ResponseAction)
    → later < now + 120
    → HasUniqueIds rows
    → Memᴰ old rows
    → is_candidate now id grants old ≡ true
    → Memᴰ again (update_where (claims old.response_action_id now id) (lease now hash) rows)
    → is_candidate later id' grants' again ≡ true
    → again.response_action_id ≡ old.response_action_id
    → ⊥
unfolding lease
not_again now later id id' hash grants grants' rows old again early unique m c m' c' same =
    from_row (mem-update_where _ _ rows m')
  where
    from_row :
        ((x : ResponseAction) × Memᴰ x rows
          × (again ≡ (if claims old.response_action_id now id x then lease now hash x else x)))
        → ⊥
    from_row (x, n, e) = elim (Bool-cases (claims old.response_action_id now id x)) [
      | inl t ↦
          let e' = rw t at e in
          lease_holds now later id' hash grants' x early
            (subst (λ y. is_candidate later id' grants' y ≡ true) e' c')
      | inr f ↦
          let e' = rw f at e in
          let p = unique x old n m (sym (ap (λ y. y.response_action_id) e') ∙ same) in
          let t = candidate-claims now id grants rows old c in
          let t' = subst (λ y. claims old.response_action_id now id y ≡ true) (sym p) t in
          absurd (ground arith)
    ]

module _ (o : Outside) (now later : ℕ) (p p' : Principal) (token token' raw_id raw_id' : String)
    {id id' : String} (db : Db) {mid : Db} (trimmed : trim_required raw_id "endpoint_id" ≡ ok id)
    (synced : sync_expired_grants o now db ≡ ok (tt, mid))
    (trimmed' : trim_required raw_id' "endpoint_id" ≡ ok id') where
  -- Where a claim has returned an action, a claim on the database that it left, by whomever and
  -- for whichever endpoint, at any time before the 120 seconds of the lease are over, does not
  -- return that action again.
  pub claim-exclusive :
      {row row' : ResponseAction} {db' mid' db'' : Db}
      → HasUniqueIds mid.actions
      → later < now + 120
      → claim_response_action o now p token raw_id db ≡ ok (some row, db')
      → sync_expired_grants o later db' ≡ ok (tt, mid')
      → HasUniqueIds mid'.actions
      → claim_response_action o later p' token' raw_id' db' ≡ ok (some row', db'')
      → ¬ (row'.response_action_id ≡ row.response_action_id)
  unfolding lease
  claim-exclusive {row} {row'} {db'} {mid'} unique early h synced' unique' h' same =
      let (old, e, c, r, t, n, a) = claim-leases o now p token raw_id db trimmed synced unique h in
      let (again, e', c', r', t', n', a') =
        claim-leases o later p' token' raw_id' db' trimmed' synced' unique' h' in
      let (g, m) = candidate_lem o now p id (o.sha256_hex token) mid e in
      let (g', m') = candidate_lem o later p' id' (o.sha256_hex token') mid' e' in
      let kept = (sync_expired_grants-SameWork o later).at db' synced' in
      not_again now later id id' (o.sha256_hex token) mid.grants mid'.grants mid.actions old again
        early unique m c (subst (λ rows. Memᴰ again rows) (kept.actions ∙ a) m') c'
        (sym (ap (λ x. x.response_action_id) r') ∙ same ∙ ap (λ x. x.response_action_id) r)
