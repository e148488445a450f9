-- ===== src/Identity/Lifecycle.antt =====
-- Every handler of device identity moves the tables by their rules.
use sha.Base.{
  ℕ, String, ◌≡◌, refl, true, false, arith, Option, none, some, List, ok, find_first, inl, inr, sym,
  subst, Bool-cases, find_first-some, eq_iff,
}
use sha.Model.{Db, EnrollmentToken, DeviceCredential, credential_is_active}
use sha.Model.Tx.{modify, ◌>>=◌}
use sha.Model.Tx.Keeps.{Keeps, >>=-eq-ok}
use sha.Outside.{Outside}
use sha.Authz.{Principal}
use sha.Evolution.{
  Evolved, Evolved-refl, Evolved-trans, Evolves-add_row, Evolves-update_first,
  Evolves-update_first_all, TokenMoves, TokenMoves-refl, CredentialMoves, CredentialMoves-refl,
}
use sha.Evolution.Steps.{
  evolved_rules, Evolved-bind, Evolved-check, Evolved-modify, Evolved-loaded, write_tokens,
  write_credentials,
}
use sha.Identity.Tokens.{
  visible_token, revoked_token, write_token, revoke_once, report_revocation,
  revoke_enrollment_token, is_set,
}
use sha.Identity.Credentials.{
  credential_has_id, write_credential, add_credential, replaced, finish_rotation,
  insert_replacement, replace_credential, rotate_device_credential, revoked_credential,
  revoke_credential_once, revoke_device_credential,
}
use sha.Identity.Rotating.{rotation_steps, next_credential, rotate_steps}

token_revokes :
    (now : ℕ) (t : EnrollmentToken)
    → is_set t.revoked_at ≡ false
    → TokenMoves t (revoked_token now t)
unfolding revoked_token
token_revokes now t h = record {
  id = refl;
  secret = refl;
  expiry = refl;
  limit = refl;
  uses = omega arith;
  bound = λ b. b;
  revocation = λ n e. absurd (ground arith);
}

-- A row that was found under an identifier is found under its own.
found_by_id :
    (id : String) (rows : List DeviceCredential) {c : DeviceCredential}
    → find_first (credential_has_id id) rows ≡ some c
    → find_first (credential_has_id c.credential_id) rows ≡ some c
found_by_id id rows {c} found =
    let (t, m) = find_first-some _ rows found in
    let e : c.credential_id ≡ id = (eq_iff c.credential_id id).0 t in
    subst (λ x. find_first (credential_has_id x) rows ≡ some c) (sym e) found

module _ (o : Outside) (now : ℕ) (p : Principal) where
  revoke_once_evolves :
      (id : String) (t : EnrollmentToken) (db : Db) {row : EnrollmentToken} {db' : Db}
      → find_first (visible_token p id) db.tokens ≡ some t
      → revoke_once o now p id t db ≡ ok (row, db')
      → Evolved db db'
  unfolding revoke_once write_token ◌>>=◌
  revoke_once_evolves id t db {row} {db'} found h = elim (Bool-cases (is_set t.revoked_at)) [
    | inl e ↦
        let q : db' ≡ db = (ground arith) in subst (λ x. Evolved db x) (sym q) (Evolved-refl db)
    | inr e ↦
        let q : db' ≡ write_token (visible_token p id) (revoked_token now) db = (ground arith) in
        subst (λ x. Evolved db x) (sym q)
          (write_tokens db _ (
            Evolves-update_first TokenMoves TokenMoves-refl _ _ db.tokens found
              (token_revokes now t e)))
  ]

  Evolved-report_revocation : (t : EnrollmentToken) → Keeps Evolved (report_revocation o now p t)
  unfolding report_revocation
  Evolved-report_revocation t = search evolved_rules

  pub Evolved-revoke_enrollment_token :
      (id : String) → Keeps Evolved (revoke_enrollment_token o now p id)
  unfolding revoke_enrollment_token
  Evolved-revoke_enrollment_token id = Evolved-bind _ _ (Evolved-check _) λ token_id.
      Evolved-loaded _ _ _ _ λ db t row db' found h.
        let (r, mid, e, e') = >>=-eq-ok (revoke_once o now p token_id t) _ db h in
        Evolved-trans _ _ _ (revoke_once_evolves token_id t db found e)
          ((Evolved-report_revocation r).at mid e')

  Evolved-link :
      (id new_id : String)
      → Keeps Evolved (
          modify (
            write_credential
              (credential_has_id id)
              (λ c. record c { replaced_by_credential_id = some new_id })))
  unfolding write_credential
  Evolved-link id new_id = Evolved-modify _ λ db. write_credentials db _ (
      Evolves-update_first_all CredentialMoves CredentialMoves-refl _ _ (λ c. ground arith)
        db.credentials)

  Evolved-add_credential : (c : DeviceCredential) → Keeps Evolved (modify (add_credential c))
  unfolding add_credential
  Evolved-add_credential c = Evolved-modify _ λ db.
      write_credentials db _ (Evolves-add_row CredentialMoves CredentialMoves-refl c db.credentials)

  Evolved-revoke_write :
      (id : String)
      → Keeps Evolved
          (modify (write_credential (credential_has_id id) (revoked_credential o now p)))
  unfolding write_credential revoked_credential
  Evolved-revoke_write id = Evolved-modify _ λ db. write_credentials db _ (
      Evolves-update_first_all CredentialMoves CredentialMoves-refl _ _ (λ c. ground arith)
        db.credentials)

  Evolved-insert_replacement :
      (current replacement : DeviceCredential)
      → Keeps Evolved (insert_replacement o now p current replacement)
  unfolding insert_replacement finish_rotation
  Evolved-insert_replacement current replacement =
      search (evolved_rules, Evolved-link, Evolved-add_credential) depth 12

  replaces :
      (c : DeviceCredential)
      → credential_is_active c.status ≡ true
      → CredentialMoves c (replaced now c)
  unfolding replaced
  replaces c h = ground arith

  replace_inserts :
      (current replacement : DeviceCredential) (db : Db) {row : DeviceCredential} {db' : Db}
      → replace_credential o now p current replacement db ≡ ok (row, db')
      → insert_replacement o now p current replacement
          (write_credential (credential_has_id current.credential_id) (replaced now) db)
        ≡ ok (row, db')
  unfolding replace_credential ◌>>=◌
  replace_inserts current replacement db h = ground arith

  pub Evolved-revoke_device_credential :
      (id : String) → Keeps Evolved (revoke_device_credential o now p id)
  unfolding revoke_device_credential revoke_credential_once
  Evolved-revoke_device_credential id = search (evolved_rules, Evolved-revoke_write) depth 14

  replace_evolves :
      (current replacement : DeviceCredential) (db : Db) {row : DeviceCredential} {db' : Db}
      → credential_is_active current.status ≡ true
      → find_first (credential_has_id current.credential_id) db.credentials ≡ some current
      → replace_credential o now p current replacement db ≡ ok (row, db')
      → Evolved db db'
  unfolding write_credential
  replace_evolves current replacement db t found h =
      Evolved-trans _ _ _
        (write_credentials db _ (
          Evolves-update_first CredentialMoves CredentialMoves-refl _ _ db.credentials found
            (replaces current t)))
        ((Evolved-insert_replacement current replacement).at _
          (replace_inserts current replacement db h))

  rotate_evolves :
      (key : String) (days : ℕ) (new_id secret : String) (db : Db) {row : DeviceCredential}
      {db' : Db}
      → rotate_device_credential o now p (some key) days new_id secret db ≡ ok (row, db')
      → Evolved db db'
  rotate_evolves key days new_id secret db h =
      let (device, current, d, found, e, a, r) =
        rotation_steps o now p key days new_id secret db h in
      let next = next_credential o now key days new_id secret current.endpoint_id in
      elim (rotate_steps o now p current next db r) [
        | inl (i, s, q, same) ↦ subst (λ x. Evolved db x) (sym same) (Evolved-refl db)
        | inr (other, f) ↦
            replace_evolves current next db a
              (found_by_id device.credential_id db.credentials found) f
      ]

-- Without a key, no rotation succeeds.
rotate_wants_key :
    (o : Outside) (now : ℕ) (p : Principal) (days : ℕ) (new_id secret : String) (db : Db)
    {row : DeviceCredential} {db' : Db}
    → rotate_device_credential o now p none days new_id secret db ≡ ok (row, db')
    → ⊥
unfolding rotate_device_credential ◌>>=◌
rotate_wants_key o now p days new_id secret db h = ground arith

pub Evolved-rotate_device_credential :
    (o : Outside) (now : ℕ) (p : Principal) (key : Option String) (days : ℕ)
    (new_id secret : String)
    → Keeps Evolved (rotate_device_credential o now p key days new_id secret)
Evolved-rotate_device_credential o now p none days new_id secret = record {
  at = λ db {a} {db'} h. absurd (rotate_wants_key o now p days new_id secret db h);
}
Evolved-rotate_device_credential o now p (some key) days new_id secret = record {
  at = λ db {a} {db'} h. rotate_evolves o now p key days new_id secret db h;
}
