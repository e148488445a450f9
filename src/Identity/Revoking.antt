-- ===== src/Identity/Revoking.antt =====
-- What the revocation of an enrollment token answers and stores.
use sha.Base.{
  ℕ, String, ◌≡◌, ◌⊎◌, true, false, arith, some, ok, find_first, inl, inr, refl, update_first,
  find_first-some, find_first-update_first,
}
use sha.Text.{trim_required}
use sha.Model.{Db, EnrollmentToken}
use sha.Model.Tx.{◌>>=◌}
use sha.Outside.{Outside}
use sha.Ids.{generate_prefixed_id}
use sha.Authz.{Principal, record_audit_event}
use sha.Identity.Tokens.{
  TokenState, is_set, token_state, visible_token, revoked_token, write_token, revoke_once,
  report_revocation, revoke_enrollment_token,
}

module _ (o : Outside) (now : ℕ) (p : Principal) (raw_id : String) (db : Db) where
  revoke_steps :
      {row : EnrollmentToken} {db' : Db}
      → revoke_enrollment_token o now p raw_id db ≡ ok (row, db')
      → (id : String) × (token : EnrollmentToken) × (trim_required raw_id "token_id" ≡ ok id)
        × (find_first (visible_token p id) db.tokens ≡ some token)
        × (((is_set token.revoked_at ≡ true) × (row ≡ token) × (db'.tokens ≡ db.tokens))
            ⊎ ((is_set token.revoked_at ≡ false)
                × (row ≡ revoked_token now token)
                × (db'.tokens ≡ update_first (visible_token p id) (revoked_token now) db.tokens)))
  unfolding revoke_enrollment_token revoke_once report_revocation record_audit_event
      generate_prefixed_id write_token ◌>>=◌
  revoke_steps h = ground arith

  set_revoked :
      (t : EnrollmentToken) (later : ℕ)
      → is_set t.revoked_at ≡ true
      → token_state t later ≡ TokenState.revoked
  unfolding token_state
  set_revoked t later h = ground arith

  still_visible :
      (id : String) (t : EnrollmentToken)
      → visible_token p id t ≡ true
      → visible_token p id (revoked_token now t) ≡ true
  unfolding revoked_token
  still_visible id t h = h

  now_set : (t : EnrollmentToken) → is_set (revoked_token now t).revoked_at ≡ true
  unfolding revoked_token
  now_set t = refl

  -- A revocation that succeeds is of a token that the principal may manage. The token that it
  -- answers stands where that one stood, and is revoked at any time. It is the token as it was,
  -- and the table stays, where that was revoked before; else it is the token with the present as
  -- the time of revocation.
  pub revoke_enrollment_token-revoked :
      (later : ℕ) {row : EnrollmentToken} {db' : Db}
      → revoke_enrollment_token o now p raw_id db ≡ ok (row, db')
      → (id : String) × (token : EnrollmentToken) × (trim_required raw_id "token_id" ≡ ok id)
        × (find_first (visible_token p id) db.tokens ≡ some token)
        × (find_first (visible_token p id) db'.tokens ≡ some row)
        × (token_state row later ≡ TokenState.revoked)
        × (((is_set token.revoked_at ≡ true) × (row ≡ token) × (db'.tokens ≡ db.tokens))
            ⊎ ((is_set token.revoked_at ≡ false)
                × (row ≡ revoked_token now token)
                × (db'.tokens ≡ update_first (visible_token p id) (revoked_token now) db.tokens)))
  revoke_enrollment_token-revoked later {row} {db'} h =
      let (id, token, named, found, outcome) = revoke_steps h in
      let (stored, state) = stored_revoked id token found outcome in
      (id, token, named, found, stored, state, outcome)
    where
      stored_revoked :
          (id : String) (token : EnrollmentToken)
          → find_first (visible_token p id) db.tokens ≡ some token
          → (((is_set token.revoked_at ≡ true) × (row ≡ token) × (db'.tokens ≡ db.tokens))
              ⊎ ((is_set token.revoked_at ≡ false)
                  × (row ≡ revoked_token now token)
                  × (db'.tokens ≡ update_first (visible_token p id) (revoked_token now) db.tokens)))
          → (find_first (visible_token p id) db'.tokens ≡ some row)
            × (token_state row later ≡ TokenState.revoked)
      stored_revoked id token found (inl (set, same, kept)) =
          (rw (kept, same) found, set_revoked row later (rw same set))
      stored_revoked id token found (inr (unset, same, written)) =
          let visible = (find_first-some (visible_token p id) db.tokens found).0 in
          (
            rw (written, same)
                (find_first-update_first (visible_token p id) (revoked_token now) db.tokens found
                  (still_visible id token visible)),
            set_revoked row later (rw same (now_set token)),
          )
